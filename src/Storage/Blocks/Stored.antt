-- ===== src/Storage/Blocks/Stored.antt =====
-- What the writes of pkg/storage/block.go leave for its reads.
use evm_executor.Prelude.{ℕ, ◌≡◌, ◌≢◌, some, arith, Option-cases, inl, inr}
use evm_executor.Storage.Redis.{Text, Command, ok, IsRedis, client_get, client_set}
use evm_executor.Storage.Key.{number_key}
use evm_executor.Storage.Key.Decimal.{decimal-injective}
use evm_executor.Storage.Blocks.{
  Progress, BlockDeps, header_key, txs_key, receipt_key, sync_progress_key, exec_progress_key,
  get_header, get_block, store_receipts, get_receipts, get_sync_progress, get_exec_progress,
  update_exec_progress,
}

-- What the code relies on: Redis, and that the codec of the progress reads back what it wrote.
pub record IsBlockDeps (d : BlockDeps) : Type 0 where
  pub redis_laws : IsRedis d.redis
  pub progress_round_trip :
      (p : Progress) (t : Text) → d.marshal_progress p ≡ some t → d.unmarshal_progress t ≡ some p

pub receipt_key-injective : (m n : ℕ) → receipt_key m ≡ receipt_key n → m ≡ n
unfolding receipt_key number_key
receipt_key-injective m n e = decimal-injective m n (cc)

module _ {d : BlockDeps} (laws : IsBlockDeps d) where
  -- After StoreReceipts without an error, the encoded receipts are stored for the block.
  pub store_receipts-text :
      (db : d.redis.Db) (n : ℕ) (r : d.Receipts)
      → (store_receipts d db n r).1 ≡ ok tt
      → (t : Text) × (d.encode_receipts r ≡ some t)
        × (d.redis.get (store_receipts d db n r).0 (receipt_key n) ≡ some t)
  unfolding store_receipts client_set
  store_receipts-text db n r done = elim (Option-cases (d.encode_receipts r)) [
    | inl failed ↦ ground (arith, failed)
    | inr (t, text) ↦
        let c : Command = record { key = receipt_key n; value = t; ttl = 0 } in
        (t, text, ground (arith, text, laws.redis_laws.set_writes db c))
  ]

  -- `StoreReceipts` and `UpdateExecProgress` write one key only, whether they report an error or not.
  pub store_receipts-apart :
      (db : d.redis.Db) (n : ℕ) (r : d.Receipts) (t : Text)
      → receipt_key n ≢ t
      → d.redis.get (store_receipts d db n r).0 t ≡ d.redis.get db t
  unfolding store_receipts client_set
  store_receipts-apart db n r t h = elim (Option-cases (d.encode_receipts r)) [
    | inl failed ↦ ground arith
    | inr (text, encoded) ↦ ground (
      arith,
      laws.redis_laws.set_keeps db (record { key = receipt_key n; value = text; ttl = 0 }) t h,
    )
  ]

  pub update_exec_progress-apart :
      (db : d.redis.Db) (p : Progress) (t : Text)
      → exec_progress_key ≢ t
      → d.redis.get (update_exec_progress d db p).0 t ≡ d.redis.get db t
  unfolding update_exec_progress client_set
  update_exec_progress-apart db p t h = elim (Option-cases (d.marshal_progress p)) [
    | inl failed ↦ ground arith
    | inr (text, encoded) ↦ ground (
      arith,
      laws.redis_laws.set_keeps db (record { key = exec_progress_key; value = text; ttl = 0 }) t h,
    )
  ]

  pub exec_key_apart :
      (n : ℕ)
      → (exec_progress_key ≢ header_key n)
        × (exec_progress_key ≢ txs_key n)
        × (exec_progress_key ≢ receipt_key n)
        × (exec_progress_key ≢ sync_progress_key)
  unfolding header_key txs_key receipt_key sync_progress_key exec_progress_key number_key
  exec_key_apart n = (λ e. ground arith, λ e. ground arith, λ e. ground arith, λ e. ground arith)

  -- After UpdateExecProgress without an error, GetExecProgress returns this progress, and the blocks,
  -- receipts and the progress of the synchronisation read as before.
  pub get_exec_progress-update_exec_progress :
      (db : d.redis.Db) (p : Progress) (n : ℕ)
      → (update_exec_progress d db p).1 ≡ ok tt
      → (get_exec_progress d (update_exec_progress d db p).0 ≡ ok p)
        × (get_block d (update_exec_progress d db p).0 n ≡ get_block d db n)
        × (get_receipts d (update_exec_progress d db p).0 n ≡ get_receipts d db n)
        × (get_sync_progress d (update_exec_progress d db p).0 ≡ get_sync_progress d db)
  unfolding update_exec_progress get_exec_progress get_block get_header get_receipts
      get_sync_progress client_get client_set
  get_exec_progress-update_exec_progress db p n done = elim (Option-cases (d.marshal_progress p)) [
    | inl failed ↦ ground arith
    | inr (t, text) ↦
        let c : Command = record { key = exec_progress_key; value = t; ttl = 0 } in
        let (header, txs, receipt, synced) = exec_key_apart n in
        ground (
          arith,
          laws.progress_round_trip p t text,
          laws.redis_laws.set_writes db c,
          laws.redis_laws.set_keeps db c (header_key n) header,
          laws.redis_laws.set_keeps db c (txs_key n) txs,
          laws.redis_laws.set_keeps db c (receipt_key n) receipt,
          laws.redis_laws.set_keeps db c sync_progress_key synced,
        )
  ]
