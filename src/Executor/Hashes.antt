-- ===== src/Executor/Hashes.antt =====
-- The block hashes that the EVM asks for: `GetHashFn` of pkg/executor/apply.go, and the `GetHeader` of
-- `blockChainContext` in pkg/executor/processor.go that it calls. `hash_header` is the `Hash` method
-- of go-ethereum's headers.
use evm_executor.Prelude.{
  ℕ, ◌≡◌, refl, Option, none, some, List, [], ◌∷◌, Map, lookup, insert, lookup-insert, ◌==◌,
  if◌then◌else◌, arith,
}
use evm_executor.Storage.Redis.{ok, err}
use evm_executor.Storage.Ops.{Hash}
use evm_executor.Storage.Blocks
use evm_executor.Storage.Blocks.{BlockDeps}

module _ (d : BlockDeps) (hash_header : d.Header → Hash) where
  -- `GetHeader` of `blockChainContext`; a nil header is `none`
  unfoldable pub get_header : d.redis.Db → Hash → ℕ → Option d.Header
  get_header db hash number = elim (Blocks.get_header d db number) [
    | err _ ↦ none
    | ok header ↦ if hash_header header == hash then some header else none
  ]

  -- The function that `GetHashFn` returns for a header with this parent hash, with its cache.
  unfoldable pub get_hash : d.redis.Db → Hash → Map Hash → ℕ → Hash × Map Hash
  get_hash db parent_hash cache n = elim (lookup n cache) [
    | some hash ↦ (hash, cache)
    | none ↦ elim (get_header db parent_hash n) [
      | none ↦ (0, cache)
      | some header ↦ (hash_header header, insert n (hash_header header) cache)
    ]
  ]

  -- The hashes that a sequence of calls gets, the cache kept between them.
  unfoldable pub get_hashes : d.redis.Db → Hash → Map Hash → List ℕ → List Hash
  get_hashes db parent_hash cache [] = []
  get_hashes db parent_hash cache (n ∷ ns) =
      let r = get_hash db parent_hash cache n in r.0 ∷ get_hashes db parent_hash r.1 ns

  -- The hash of a stored header with the parent's hash, else zero.
  unfoldable pub answer : d.redis.Db → Hash → ℕ → Hash
  answer db parent_hash n = elim (Blocks.get_header d db n) [
    | err _ ↦ 0
    | ok header ↦ if hash_header header == parent_hash then parent_hash else 0
  ]

  unfoldable pub answers : d.redis.Db → Hash → List ℕ → List Hash
  answers db parent_hash [] = []
  answers db parent_hash (n ∷ ns) = answer db parent_hash n ∷ answers db parent_hash ns

  module _ (db : d.redis.Db) (parent_hash : Hash) where
    -- What the cache holds is what a call without it answers.
    record Agrees (cache : Map Hash) : Type 0 where
      at : (n : ℕ) (hash : Hash) → lookup n cache ≡ some hash → answer db parent_hash n ≡ hash

    get_hash-eq :
        (cache : Map Hash) (n : ℕ)
        → Agrees cache
        → (get_hash db parent_hash cache n).0 ≡ answer db parent_hash n
    unfolding get_hash answer get_header
    get_hash-eq cache n h = grind (arith, h.at n)

    get_hash-Agrees :
        (cache : Map Hash) (n : ℕ) → Agrees cache → Agrees (get_hash db parent_hash cache n).1
    unfolding get_hash answer get_header
    get_hash-Agrees cache n h = record {
      at =
          λ m hash e. grind (arith, h.at m, lookup-insert {V = Hash} n m, Blocks.get_header d db n);
    }

    get_hashes-Agrees :
        (cache : Map Hash) (ns : List ℕ)
        → Agrees cache
        → get_hashes db parent_hash cache ns ≡ answers db parent_hash ns
    unfolding get_hashes answers
    get_hashes-Agrees cache [] h = refl
    get_hashes-Agrees cache (n ∷ ns) h = λ i.
        get_hash-eq cache n h i
        ∷ get_hashes-Agrees (get_hash db parent_hash cache n).1 ns (get_hash-Agrees cache n h) i

    -- The defect: whatever block numbers the EVM asks for, in whatever order, each gets the parent's
    -- hash if the header stored under the number has that hash, and else zero: of no block but the
    -- parent is the hash found.
    pub get_hashes-eq : (ns : List ℕ) → get_hashes db parent_hash [] ns ≡ answers db parent_hash ns
    unfolding lookup
    get_hashes-eq ns = get_hashes-Agrees [] ns (record { at = λ n hash e. ground arith })
