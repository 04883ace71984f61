-- ===== src/Storage/Redis.antt =====
-- The store behind pkg/storage/pika.go: the third-party Redis client (github.com/redis/go-redis) as
-- an interface, and the methods of `PikaClient`, which pass its results on.
use evm_executor.Prelude.{ℕ, ◌≡◌, ◌≢◌, true, false, Bool, Option, none, some, List, [], ◌∷◌}

-- Bytes, and texts as their bytes.
abbrev pub Text : Type 0
Text = List ℕ

-- A `SET key value` with its time to live, 0 for ever.
pub record Command : Type 0 where
  pub key : Text
  pub value : Text
  pub ttl : ℕ

-- `get` answers `none` for a missing key and for every failure of the connection; `set` and `exec`
-- say whether they reported an error (`false`).
pub record Redis : Type 1 where
  pub Db : Type 0
  pub get : Db → Text → Option Text
  pub set : Db → Command → Db × Bool
  pub exec : Db → List Command → Db × Bool

-- What the last command of a list that writes a key writes there.
pub data LastWrite (k : Text) : List Command → Option Text → Type 0 where
  nothing : LastWrite k [] none
  earlier :
      {c : Command} {cs : List Command} {v : Text}
      → LastWrite k cs (some v)
      → LastWrite k (c ∷ cs) (some v)
  hit :
      {c : Command} {cs : List Command}
      → c.key ≡ k
      → LastWrite k cs none
      → LastWrite k (c ∷ cs) (some c.value)
  miss :
      {c : Command} {cs : List Command}
      → c.key ≢ k
      → LastWrite k cs none
      → LastWrite k (c ∷ cs) none

-- What Redis documents: of commands that report no error a pipeline's take effect in their order,
-- and, also where an error is reported, no other key changes. Reads are taken before the times to live
-- run out.
pub record IsRedis (r : Redis) : Type 0 where
  pub exec_writes :
      (db : r.Db) (cs : List Command) (k v : Text)
      → (r.exec db cs).1 ≡ true
      → LastWrite k cs (some v)
      → r.get (r.exec db cs).0 k ≡ some v
  pub exec_keeps :
      (db : r.Db) (cs : List Command) (k : Text)
      → LastWrite k cs none
      → r.get (r.exec db cs).0 k ≡ r.get db k
  pub set_writes :
      (db : r.Db) (c : Command) → (r.set db c).1 ≡ true → r.get (r.set db c).0 c.key ≡ some c.value
  pub set_keeps :
      (db : r.Db) (c : Command) (k : Text) → c.key ≢ k → r.get (r.set db c).0 k ≡ r.get db k

-- The errors that the storage layer returns: the client's, and those of the codecs; and, beside them,
-- `panicked`, a panic of `types.NewBlock`. It leaves every call above `GetBlock` as an error would,
-- since each of these returns an error of the call below at once, and then ends the program.
pub data Error : Type 0 where
  client_error marshal_error unmarshal_error panicked : Error

pub data Result (A : Type 0) : Type 0 where
  ok : A → Result A
  err : Error → Result A

infixl 5 ◌>>=◌
abbrev pub ◌>>=◌ : {A B : Type 0} → Result A → (A → Result B) → Result B
ok a >>= f = f a
err e >>= f = err e

module _ (r : Redis) where
  -- `Get` and `GetBytes`
  unfoldable pub client_get : r.Db → Text → Result Text
  client_get db key = elim (r.get db key) [ none ↦ err client_error | some v ↦ ok v ]

  abbrev reported : Bool → Result (Unit {0})
  reported true = ok tt
  reported false = err client_error

  -- `Set` and `SetBytes`
  unfoldable pub client_set : r.Db → Command → r.Db × Result (Unit {0})
  client_set db c = let (db', done) = r.set db c in (db', reported done)

  -- `Pipeline`, and `ExecutePipeline` on the commands that were queued
  unfoldable pub execute_pipeline : r.Db → List Command → r.Db × Result (Unit {0})
  execute_pipeline db cs = let (db', done) = r.exec db cs in (db', reported done)
