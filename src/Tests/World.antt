-- ===== src/Tests/World.antt =====
-- Simple stand-ins for the third-party code: a store and caches that are functions, decimal texts,
-- and accounts written as a list of numbers. They satisfy all that the program relies on.
use native.Mathlib.Decide.{ℕ_discrete}
use mathlib.Core.Option.{some-injective}
use mathlib.Core.Logic.{ite, if_pos, if_neg}
use evm_executor.Prelude.{
  ℕ, ◌+◌, ◌≡◌, ◌≢◌, refl, sym, ap, ◌∙◌, inl, inr, true, Option, none, some, List, [], ◌∷◌, length,
  ◌==◌, if◌then◌else◌, Bool-cases,
}
use evm_executor.Prelude.Int.{ℤ, pos, negsuc}
use evm_executor.Lru.{Lru, IsLru}
use evm_executor.Deps.{Deps, IsDeps}
use evm_executor.Storage.Redis.{Text, Command, Redis, LastWrite, IsRedis}
use evm_executor.Storage.Key.Decimal.{decimal, decimal-injective, value, value-decimal}
use evm_executor.Storage.Key.Faithful.{IsHex, decimal-ColonFree}
use evm_executor.Storage.Ops.{StoredAccount}

unfoldable pub text_discrete : Discrete Text
text_discrete = hlevel ℕ_discrete

abbrev pub Store : Type 0
Store = Text → Option Text

unfoldable pub write : Store → Command → Store
unfolding text_discrete
write db c k = ite (text_discrete c.key k) (some c.value) (db k)

unfoldable pub write_all : Store → List Command → Store
unfolding write
write_all db [] = db
write_all db (c ∷ cs) = write_all (write db c) cs

abbrev pub store : Redis
store = record {
  Db = Store;
  get = λ db k. db k;
  set = λ db c. (write db c, true);
  exec = λ db cs. (write_all db cs, true);
}

write_hit : (db : Store) (c : Command) (k : Text) → c.key ≡ k → write db c k ≡ some c.value
unfolding write
write_hit db c k h = if_pos (text_discrete c.key k) h _ _

write_miss : (db : Store) (c : Command) (k : Text) → c.key ≢ k → write db c k ≡ db k
unfolding write
write_miss db c k h = if_neg (text_discrete c.key k) h _ _

write_all-kept :
    (k : Text) (db : Store) (cs : List Command) (o : Option Text)
    → LastWrite k cs o
    → o ≡ none
    → write_all db cs k ≡ db k
unfolding write_all
write_all-kept k db cs o LastWrite.nothing e = refl
write_all-kept k db cs o (LastWrite.earlier w) e = cc
write_all-kept k db cs o (LastWrite.hit h w) e = cc
write_all-kept k db cs o (LastWrite.miss {c = c} {cs = cs'} h w) e =
    write_all-kept k (write db c) cs' none w refl ∙ write_miss db c k h

write_all-written :
    (k v : Text) (db : Store) (cs : List Command) (o : Option Text)
    → LastWrite k cs o
    → o ≡ some v
    → write_all db cs k ≡ some v
unfolding write_all
write_all-written k v db cs o LastWrite.nothing e = cc
write_all-written k v db cs o (LastWrite.earlier {c = c} {cs = cs'} w) e =
    write_all-written k v (write db c) cs' _ w e
write_all-written k v db cs o (LastWrite.hit {c = c} {cs = cs'} h w) e =
    write_all-kept k (write db c) cs' none w refl ∙ write_hit db c k h ∙ e
write_all-written k v db cs o (LastWrite.miss h w) e = cc

pub store-IsRedis : IsRedis store
store-IsRedis = record {
  exec_writes = λ db cs k v _ w. write_all-written k v db cs (some v) w refl;
  exec_keeps = λ db cs k w. write_all-kept k db cs none w refl;
  set_writes = λ db c _. write_hit db c c.key refl;
  set_keeps = λ db c k h. write_miss db c k h;
}

-- A cache that forgets nothing.
abbrev pub cache : (K V : Type 0) → Discrete K → Lru K V
cache K V dec = record {
  Cache = K → Option V;
  new = λ n. if n == 0 then none else some (λ _. none);
  get = λ c k. (c k, c);
  add = λ c k v j. ite (dec k j) (some v) (c j);
}

read_at : {K V : Type 0} → K → Option (K → Option V) → Option V
read_at k none = none
read_at k (some c) = c k

read_at-new :
    {K V : Type 0} (n : ℕ) (k : K)
    → read_at {K = K} {V = V} k (if n == 0 then none else some (λ _. none)) ≡ none
unfolding read_at
read_at-new {K} {V} n k = elim (Bool-cases (n == 0)) [
  | inl zero_size ↦ rw zero_size
  | inr sized ↦ rw sized
]

cache-IsLru : (K V : Type 0) (dec : Discrete K) → IsLru (cache K V dec)
unfolding read_at
cache-IsLru K V dec = record {
  new_empty = λ n c k e. sym (ap (read_at k) e) ∙ read_at-new n k;
  get_keeps = λ c k j. refl;
  add_self = λ c k v. if_pos (dec k k) refl _ _;
  add_other = λ c k j v h. inr (if_neg (dec k j) h _ _);
}

unfoldable pub write_json : StoredAccount → Option Text
write_json a = elim a.balance [
  | pos n ↦ some (0 ∷ n ∷ a.nonce ∷ a.code_hash ∷ a.storage_root ∷ [])
  | negsuc n ↦ some (1 ∷ n ∷ a.nonce ∷ a.code_hash ∷ a.storage_root ∷ [])
]

unfoldable pub read_json : Text → Option StoredAccount
read_json (sign ∷ n ∷ nonce ∷ code_hash ∷ root ∷ []) = some (record {
  balance = if sign == 0 then pos n else negsuc n;
  nonce = nonce;
  code_hash = code_hash;
  storage_root = root;
})
read_json _ = none

pub json_round_trip : (a : StoredAccount) (t : Text) → write_json a ≡ some t → read_json t ≡ some a
unfolding write_json read_json
json_round_trip a t e = go a.balance refl
  where
    go : (b : ℤ) → a.balance ≡ b → read_json t ≡ some a
    go (pos n) at =
        ap read_json (sym (some-injective _ _ (rw at at e)))
        ∙ ap {B = Option StoredAccount} (λ b. some (record a { balance = b })) (sym at)
    go (negsuc n) at =
        ap read_json (sym (some-injective _ _ (rw at at e)))
        ∙ ap {B = Option StoredAccount} (λ b. some (record a { balance = b })) (sym at)

pub decimal-IsHex : IsHex decimal
decimal-IsHex = record { colon_free = decimal-ColonFree; injective = decimal-injective }

abbrev pub world : Deps
world = record {
  redis = store;
  account_lru = cache ℕ StoredAccount ℕ_discrete;
  slot_lru = cache Text ℕ text_discrete;
  code_lru = cache ℕ Text ℕ_discrete;
  hex_address = decimal;
  hex_hash = decimal;
  hex_to_hash = value 0;
  marshal = write_json;
  unmarshal = read_json;
  keccak256 = λ t. 1000 + length t;
}

pub world-IsDeps : IsDeps world
world-IsDeps = record {
  redis_laws = store-IsRedis;
  account_cache = cache-IsLru ℕ StoredAccount ℕ_discrete;
  slot_cache = cache-IsLru Text ℕ text_discrete;
  code_cache = cache-IsLru ℕ Text ℕ_discrete;
  address_text = decimal-IsHex;
  hash_text = decimal-IsHex;
  hash_round_trip = value-decimal;
  json_round_trip = json_round_trip;
}
