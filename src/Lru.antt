-- ===== src/Lru.antt =====
-- The third-party LRU cache (github.com/hashicorp/golang-lru/v2) that pkg/state/statedb.go calls:
-- its operations, and what its documentation promises of them.
use mathlib.Core.Path.{subst}
use evm_executor.Prelude.{ℕ, ◌≡◌, ◌≢◌, sym, ap, ◌∙◌, ◌⊎◌, inl, inr, Option, none, some}

-- `new` fails on a size that is not positive, `get` marks its key as recently used, and `add` may
-- evict another key.
pub record Lru (K V : Type 0) : Type 1 where
  pub Cache : Type 0
  pub new : ℕ → Option Cache
  pub get : Cache → K → Option V × Cache
  pub add : Cache → K → V → Cache

-- A new cache is empty, `get` changes no binding, and after `add` a key other than the added one is
-- as before or gone.
pub record IsLru {K V : Type 0} (l : Lru K V) : Type 0 where
  pub new_empty : (n : ℕ) (c : l.Cache) (k : K) → l.new n ≡ some c → (l.get c k).0 ≡ none
  pub get_keeps : (c : l.Cache) (k j : K) → (l.get (l.get c k).1 j).0 ≡ (l.get c j).0
  pub add_self : (c : l.Cache) (k : K) (v : V) → (l.get (l.add c k v) k).0 ≡ some v
  pub add_other :
      (c : l.Cache) (k j : K) (v : V)
      → k ≢ j
      → ((l.get (l.add c k v) j).0 ≡ none) ⊎ ((l.get (l.add c k v) j).0 ≡ (l.get c j).0)

-- What a cache holds is what `read` answers, where `key` is the cache key of each thing read.
pub record Agrees {I K V : Type 0} (l : Lru K V) (key : I → K) (read : I → Option V) (c : l.Cache)
    : Type 0 where
  pub at : (i : I) (v : V) → (l.get c (key i)).0 ≡ some v → read i ≡ some v

module _ {I K V : Type 0} {l : Lru K V} (laws : IsLru l) (key : I → K) (read : I → Option V)
    (c : l.Cache) where
  pub new-Agrees : (n : ℕ) → l.new n ≡ some c → Agrees l key read c
  new-Agrees n made = record { at = λ i v e. cc (laws.new_empty n c (key i) made) }

  pub get-Agrees : (k : K) → Agrees l key read c → Agrees l key read (l.get c k).1
  get-Agrees k h = record { at = λ j v e. h.at j v (sym (laws.get_keeps c k (key j)) ∙ e) }

  -- To add what was read keeps the cache right, if no two things share a key.
  pub add-Agrees :
      Discrete I
      → ((i j : I) → key i ≡ key j → i ≡ j)
      → (i : I) (v : V) → read i ≡ some v
      → Agrees l key read c
      → Agrees l key read (l.add c (key i) v)
  add-Agrees dec injective i v stored h = record {
    at = λ j w e. elim (dec i j) [
      | yes p ↦
          let q : (l.get (l.add c (key i) v) (key i)).0 ≡ some w =
            subst (λ x. (l.get (l.add c (key i) v) (key x)).0 ≡ some w) (sym p) e in
          cc (laws.add_self c (key i) v, q, ap read p)
      | no p ↦ elim (laws.add_other c (key i) (key j) v (λ q. p (injective i j q))) [
        | inl gone ↦ cc
        | inr same ↦ h.at j w (sym same ∙ e)
      ]
    ];
  }
