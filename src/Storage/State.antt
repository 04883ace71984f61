-- ===== src/Storage/State.antt =====
-- `StateStorage` of pkg/storage/state.go: accounts, storage slots, code and state roots under their
-- keys. A write returns the database beside its error.
use evm_executor.Prelude.{ℕ, List, [], ◌∷◌, ◌++◌, none, some, ltb, if◌then◌else◌}
use evm_executor.Deps.{Deps}
use evm_executor.Storage.Redis.{
  Text, Command, Result, ok, err, marshal_error, unmarshal_error, ◌>>=◌, client_get, client_set,
  execute_pipeline,
}
use evm_executor.Storage.Key
use evm_executor.Storage.Ops.{
  Address, Hash, StoredAccount, WriteOp, write_account, write_storage, write_code,
  state_history_ttl,
}

module _ (d : Deps) where
  abbrev pub Db : Type 0
  Db = d.redis.Db

  abbrev pub account_key : ℕ → Address → Text
  account_key = Key.account_key d.hex_address d.hex_hash

  abbrev pub storage_key : ℕ → Address → Hash → Text
  storage_key = Key.storage_key d.hex_address d.hex_hash

  abbrev pub code_key : Hash → Text
  code_key = Key.code_key d.hex_address d.hex_hash

  abbrev pub state_root_key : ℕ → Text
  state_root_key = Key.state_root_key d.hex_address d.hex_hash

  abbrev decode : Text → Result StoredAccount
  decode t = elim (d.unmarshal t) [ none ↦ err unmarshal_error | some a ↦ ok a ]

  abbrev encode : StoredAccount → Result Text
  encode a = elim (d.marshal a) [ none ↦ err marshal_error | some t ↦ ok t ]

  unfoldable pub get_account : Db → ℕ → Address → Result StoredAccount
  unfolding client_get
  get_account db block_num addr = do
    text ← client_get d.redis db (account_key block_num addr)
    decode text

  abbrev pub with_latest :
      (Db → Db × Result (Unit {0})) → Db × Result (Unit {0}) → Db × Result (Unit {0})
  with_latest latest (db, ok _) = latest db
  with_latest latest (db, err e) = (db, err e)

  -- Writes a text under the historical key, unless the block is 0, and then under the latest key; an
  -- error of the first write ends the call.
  unfoldable pub set_both : Db → ℕ → Text → Text → Text → Db × Result (Unit {0})
  unfolding client_set
  set_both db block_num hist_key latest_key text =
      let latest =
        λ (db' : Db). client_set d.redis db' (record { key = latest_key; value = text; ttl = 0 }) in
      let hist =
        client_set d.redis db (record { key = hist_key; value = text; ttl = state_history_ttl }) in
      if ltb 0 block_num then with_latest latest hist else latest db

  unfoldable pub set_account : Db → ℕ → Address → StoredAccount → Db × Result (Unit {0})
  unfolding set_both
  set_account db block_num addr acc = elim (d.marshal acc) [
    | none ↦ (db, err marshal_error)
    | some text ↦ set_both db block_num (account_key block_num addr) (account_key 0 addr) text
  ]

  unfoldable pub get_storage : Db → ℕ → Address → Hash → Result Hash
  unfolding client_get
  get_storage db block_num addr key = do
    text ← client_get d.redis db (storage_key block_num addr key)
    ok (d.hex_to_hash text)

  unfoldable pub set_storage : Db → ℕ → Address → Hash → Hash → Db × Result (Unit {0})
  unfolding set_both
  set_storage db block_num addr key value =
      set_both db block_num (storage_key block_num addr key) (storage_key 0 addr key)
        (d.hex_hash value)

  unfoldable pub get_code : Db → Hash → Result Text
  unfolding client_get
  get_code db code_hash = client_get d.redis db (code_key code_hash)

  unfoldable pub set_code : Db → Hash → Text → Db × Result (Unit {0})
  unfolding client_set
  set_code db code_hash code =
      client_set d.redis db (record { key = code_key code_hash; value = code; ttl = 0 })

  unfoldable pub get_state_root : Db → ℕ → Result Hash
  unfolding client_get
  get_state_root db block_num = do
    text ← client_get d.redis db (state_root_key block_num)
    ok (d.hex_to_hash text)

  unfoldable pub set_state_root : Db → ℕ → Hash → Db × Result (Unit {0})
  unfolding client_set
  set_state_root db block_num root =
      client_set d.redis db (record {
        key = state_root_key block_num;
        value = d.hex_hash root;
        ttl = state_history_ttl;
      })

  -- The `pipe.Set` calls under one piece of state: the historical key, unless the block is 0, and
  -- the latest key.
  unfoldable pub both : ℕ → Text → Text → Text → List Command
  both block_num hist_key latest_key text =
      let latest : List Command = record { key = latest_key; value = text; ttl = 0 } ∷ [] in
      if ltb 0 block_num
      then record { key = hist_key; value = text; ttl = state_history_ttl } ∷ latest
      else latest

  -- One round of the loop of `BatchWrite`: what it adds to the pipeline.
  unfoldable pub queue_op : WriteOp → Result (List Command)
  unfolding both
  queue_op (write_account block_num addr acc) = do
    text ← encode acc
    ok (both block_num (account_key block_num addr) (account_key 0 addr) text)
  queue_op (write_storage block_num addr key value) =
      ok (
        both block_num (storage_key block_num addr key) (storage_key 0 addr key) (d.hex_hash value))
  queue_op (write_code code_hash code) =
      ok (record { key = code_key code_hash; value = code; ttl = 0 } ∷ [])

  -- The pipeline at the end of the loop of `BatchWrite`, or the error that left it.
  unfoldable pub queue_ops : List WriteOp → Result (List Command)
  unfolding queue_op
  queue_ops [] = ok []
  queue_ops (op ∷ ops) = do cs ← queue_op op; rest ← queue_ops ops; ok (cs ++ rest)

  abbrev run_queue : Db → Result (List Command) → Db × Result (Unit {0})
  run_queue db (ok cs) = execute_pipeline d.redis db cs
  run_queue db (err e) = (db, err e)

  unfoldable pub batch_write : Db → List WriteOp → Db × Result (Unit {0})
  unfolding queue_ops execute_pipeline
  batch_write db ops = run_queue db (queue_ops ops)
