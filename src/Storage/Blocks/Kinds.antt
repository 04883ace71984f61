-- ===== src/Storage/Blocks/Kinds.antt =====
-- The keys of pkg/storage/block.go beside one another and beside those of pkg/storage/state.go.
use evm_executor.Prelude.{ℕ, ◌≢◌, sym, ap, ◌∙◌, arith}
use evm_executor.Storage.Redis.{Text}
use evm_executor.Storage.Key.{number_key}
use evm_executor.Storage.Key.Kinds.{first, first-render}
use evm_executor.Storage.Key.Faithful.{StateKey, render}
use evm_executor.Storage.Blocks.{
  header_key, txs_key, receipt_key, sync_progress_key, exec_progress_key,
}

module _ (hex_address hex_hash : ℕ → Text) (k : StateKey) where
  ne_of_first : (t : Text) → first t ≢ b's' → render hex_address hex_hash k ≢ t
  ne_of_first t h e = h (sym (ap first e) ∙ first-render hex_address hex_hash k)

  -- No key of the state is a key of a block's part, of receipts or of progress.
  pub render-ne-header : (n : ℕ) → render hex_address hex_hash k ≢ header_key n
  unfolding header_key number_key
  render-ne-header n = ne_of_first _ (λ e. omega arith)

  pub render-ne-txs : (n : ℕ) → render hex_address hex_hash k ≢ txs_key n
  unfolding txs_key number_key
  render-ne-txs n = ne_of_first _ (λ e. omega arith)

  pub render-ne-receipt : (n : ℕ) → render hex_address hex_hash k ≢ receipt_key n
  unfolding receipt_key number_key
  render-ne-receipt n = ne_of_first _ (λ e. omega arith)

  pub render-ne-sync_progress : render hex_address hex_hash k ≢ sync_progress_key
  unfolding sync_progress_key
  render-ne-sync_progress = ne_of_first _ (λ e. omega arith)

  pub render-ne-exec_progress : render hex_address hex_hash k ≢ exec_progress_key
  unfolding exec_progress_key
  render-ne-exec_progress = ne_of_first _ (λ e. omega arith)

pub receipt-ne-header : (m n : ℕ) → receipt_key m ≢ header_key n
unfolding receipt_key header_key number_key
receipt-ne-header m n e = ground arith

pub receipt-ne-txs : (m n : ℕ) → receipt_key m ≢ txs_key n
unfolding receipt_key txs_key number_key
receipt-ne-txs m n e = ground arith

pub receipt-ne-sync_progress : (m : ℕ) → receipt_key m ≢ sync_progress_key
unfolding receipt_key sync_progress_key number_key
receipt-ne-sync_progress m e = ground arith

pub receipt-ne-exec_progress : (m : ℕ) → receipt_key m ≢ exec_progress_key
unfolding receipt_key exec_progress_key number_key
receipt-ne-exec_progress m e = ground arith
