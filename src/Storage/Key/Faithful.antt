-- ===== src/Storage/Key/Faithful.antt =====
-- The key formats of pkg/storage/state.go, read back by splitting a key at its colons.
use evm_executor.Prelude.{
  ℕ, ◌≡◌, refl, sym, ap, ◌∙◌, ◌≢◌, inl, inr, List, [], ◌∷◌, ◌++◌, arith, ◌==◌, Bool-cases,
  if◌then◌else◌,
}
use evm_executor.Storage.Redis.{Text}
use evm_executor.Storage.Key.{codes, account_key, storage_key, code_key, state_root_key, cache_key}
use evm_executor.Storage.Key.Decimal.{decimal, decimal-injective, AllDigits, decimal-AllDigits}

abbrev pub ColonFree : Text → Type 0
ColonFree [] = Unit {0}
ColonFree (c ∷ cs) = (c ≢ b':') × ColonFree cs

-- What go-ethereum's `Hex` methods promise: "0x" and hexadecimal digits, so no colon, and no two
-- values with one text.
pub record IsHex (hex : ℕ → Text) : Type 0 where
  pub colon_free : (x : ℕ) → ColonFree (hex x)
  pub injective : (x y : ℕ) → hex x ≡ hex y → x ≡ y

AllDigits-ColonFree : (t : Text) → AllDigits t → ColonFree t
AllDigits-ColonFree [] h = tt
AllDigits-ColonFree (c ∷ cs) (lo, hi, h) = (omega arith, AllDigits-ColonFree cs h)

pub decimal-ColonFree : (n : ℕ) → ColonFree (decimal n)
decimal-ColonFree n = AllDigits-ColonFree (decimal n) (decimal-AllDigits n)

abbrev push : ℕ → List Text → List Text
push c [] = (c ∷ []) ∷ []
push c (s ∷ ss) = (c ∷ s) ∷ ss

-- The pieces between the colons.
split : Text → List Text
split [] = [] ∷ []
split (c ∷ cs) = let rest = split cs in if c == b':' then [] ∷ rest else push c rest

split-append : (x r : Text) → ColonFree x → split (x ++ b':' ∷ r) ≡ x ∷ split r
unfolding split
split-append [] r h = refl
split-append (c ∷ x) r (ne, h) = ground (arith, split-append x r h)

split-whole : (x : Text) → ColonFree x → split x ≡ x ∷ []
unfolding split
split-whole [] h = refl
split-whole (c ∷ x) (ne, h) = ground (arith, split-whole x h)

-- The pieces of state that have a key; block number 0 stands for the latest state.
pub data StateKey : Type 0 where
  account : ℕ → ℕ → StateKey
  storage : ℕ → ℕ → ℕ → StateKey
  contract_code : ℕ → StateKey
  state_root : ℕ → StateKey

-- The key that the code makes for a piece of state.
unfoldable pub render : (ℕ → Text) → (ℕ → Text) → StateKey → Text
render hex_address hex_hash (account n a) = account_key hex_address hex_hash n a
render hex_address hex_hash (storage n a k) = storage_key hex_address hex_hash n a k
render hex_address hex_hash (contract_code h) = code_key hex_address hex_hash h
render hex_address hex_hash (state_root n) = state_root_key hex_address hex_hash n

abbrev block_field : ℕ → Text
block_field n = if n == 0 then codes "latest" else decimal n

decimal-ne-latest : (n : ℕ) → decimal n ≢ codes "latest"
decimal-ne-latest n e = not_digits (decimal n) (decimal-AllDigits n) e
  where
    not_digits : (t : Text) → AllDigits t → t ≢ codes "latest"
    not_digits [] h e = cc
    not_digits (c ∷ cs) (lo, hi, h) e = ground arith

block_field-injective : (m n : ℕ) → block_field m ≡ block_field n → m ≡ n
block_field-injective m n e =
    ground (arith, decimal-injective m n, decimal-ne-latest m, decimal-ne-latest n)

module _ {hex_address hex_hash : ℕ → Text} (ha : IsHex hex_address) (hh : IsHex hex_hash) where
  fields : StateKey → List Text
  fields (account n a) = codes "st" ∷ block_field n ∷ codes "acc" ∷ hex_address a ∷ []
  fields (storage n a k) =
      codes "st" ∷ block_field n ∷ codes "stor" ∷ hex_address a ∷ hex_hash k ∷ []
  fields (contract_code h) = codes "st" ∷ codes "code" ∷ hex_hash h ∷ []
  fields (state_root n) = codes "st" ∷ codes "root" ∷ decimal n ∷ []

  split-two :
      (a k : ℕ) → split (hex_address a ++ b':' ∷ hex_hash k) ≡ hex_address a ∷ hex_hash k ∷ []
  split-two a k =
      split-append _ (hex_hash k) (ha.colon_free a)
      ∙ ap (◌∷◌ (hex_address a)) (split-whole _ (hh.colon_free k))

  split-render : (k : StateKey) → split (render hex_address hex_hash k) ≡ fields k
  unfolding split render fields account_key storage_key code_key state_root_key
  split-render (account n a) = elim (Bool-cases (n == 0)) [
    | inl z ↦ rw (z, split-whole (hex_address a) (ha.colon_free a))
    | inr nz ↦ rw (
      nz,
      split-append (decimal n) (codes "acc:" ++ hex_address a) (decimal-ColonFree n),
      split-whole (hex_address a) (ha.colon_free a),
    )
  ]
  split-render (storage n a k) = elim (Bool-cases (n == 0)) [
    | inl z ↦ rw (z, split-two a k)
    | inr nz ↦ rw (
      nz,
      split-append (decimal n) (codes "stor:" ++ (hex_address a ++ b':' ∷ hex_hash k))
          (decimal-ColonFree n),
      split-two a k,
    )
  ]
  split-render (contract_code h) = rw (split-whole (hex_hash h) (hh.colon_free h))
  split-render (state_root n) = rw (split-whole (decimal n) (decimal-ColonFree n))

  fields-injective : (j k : StateKey) → fields j ≡ fields k → j ≡ k
  unfolding fields
  fields-injective (account n a) (account m b) e =
      ground (arith, block_field-injective n m, ha.injective a b)
  fields-injective (storage n a k) (storage m b l) e =
      ground (arith, block_field-injective n m, ha.injective a b, hh.injective k l)
  fields-injective (contract_code h) (contract_code g) e = ground (arith, hh.injective h g)
  fields-injective (state_root n) (state_root m) e = ground (arith, decimal-injective n m)
  fields-injective j k e = ground arith

  -- Two pieces of state with one key are the same piece.
  pub render-injective :
      (j k : StateKey) → render hex_address hex_hash j ≡ render hex_address hex_hash k → j ≡ k
  render-injective j k e = fields-injective j k (sym (split-render j) ∙ ap split e ∙ split-render k)

  pub cache_key-injective :
      (a k a' k' : ℕ)
      → cache_key hex_address hex_hash a k ≡ cache_key hex_address hex_hash a' k'
      → (a ≡ a') × (k ≡ k')
  unfolding cache_key
  cache_key-injective a k a' k' e =
      let p : ◌≡◌ {A = List Text} (hex_address a ∷ hex_hash k ∷ [])
          (hex_address a' ∷ hex_hash k' ∷ []) =
        sym (split-two a k) ∙ ap split e ∙ split-two a' k' in
      (ha.injective a a' (cc), hh.injective k k' (cc))
