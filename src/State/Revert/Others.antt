-- ===== src/State/Revert/Others.antt =====
-- Undoing the methods that change a slot, the logs, the refund, the preimages or the access list.
use evm_executor.Prelude.{
  ℕ, ◌+◌, ◌-◌, ◌%◌, ◌<◌, ◌≡◌, refl, ap, ◌∙◌, none, lookup, delete, lookup-insert, lookup-delete,
  has, Map, false, arith, ltb, ◌==◌, if◌then◌else◌, Bool-cases, Option-cases, inl, inr,
}
use evm_executor.Deps.{Deps}
use evm_executor.Storage.Redis.{Text}
use evm_executor.Storage.Ops.{Address, Hash}
use evm_executor.State.AccessList.{add_address, delete_address}
use evm_executor.State.Journal.{
  storage_change, refund_change, add_log_change, add_preimage_change,
  access_list_add_account_change, append,
}
use evm_executor.State.Db.{Log, PikaStateDb, word}
use evm_executor.State.Read.{get_state, load_slot}
use evm_executor.State.Read.Spec.{slot_at}
use evm_executor.State.Read.Coherent.{Coherent, load_slot-eq}
use evm_executor.State.Write.{
  write_slot, set_state, add_log, add_refund, sub_refund, add_preimage, add_address_to_access_list,
}
use evm_executor.State.Undo.{undo_entry}
use evm_executor.State.Revert.Maps.{
  written_slot-write_slot, drop_log-undoes, delete_address-SameAccess, SameAccess-refl,
  SameAccounts-refl,
}
use evm_executor.State.Revert.Restores.{
  Restores, Undoable, Undoable-refl, Undoable-of_read, Undoable-of_entry,
}

has-false : (k : Hash) (m : Map Text) → has k m ≡ false → lookup k m ≡ none
has-false k m e = ground arith

module _ {d : Deps} (s : PikaStateDb d) where
  get_state-Restores : (addr : Address) (key : Hash) → Restores (get_state s addr key).1 s
  unfolding get_state
  get_state-Restores addr key = record {
    same_db = refl;
    same_block = refl;
    accounts = SameAccounts-refl s.accounts;
    slots = λ a k. refl;
    suicided = λ a. refl;
    logs = λ h. refl;
    log_size = refl;
    preimages = λ h. refl;
    refund = refl;
    access = SameAccess-refl s.access_list;
  }

  pub get_state-Undoable : (addr : Address) (key : Hash) → Undoable s (get_state s addr key).1
  unfolding get_state
  get_state-Undoable addr key =
      Undoable-of_read s (get_state s addr key).1 refl refl (get_state-Restores addr key)

  -- A slot that was written over is written back.
  written_back :
      (addr : Address) (key prev value : Hash) (t : PikaStateDb d)
      → prev ≡ slot_at s addr key
      → ((a : Address) (k : Hash)
          → slot_at t a k
            ≡ slot_at (record s { storages = write_slot s.storages addr key value }) a k)
      → (a : Address) (k : Hash)
      → slot_at (record t { storages = write_slot t.storages addr key prev }) a k ≡ slot_at s a k
  written_back addr key prev value t e h a k = ground (
    arith,
    e,
    h a k,
    written_slot-write_slot t.storages addr a key k prev,
    written_slot-write_slot s.storages addr a key k value,
    ap (λ (y : Address). slot_at s y k) {x = addr} {y = a},
    ap (slot_at s addr) {x = key} {y = k},
  )

  pub set_state-Undoable :
      Coherent s → (addr : Address) (key value : Hash) → Undoable s (set_state s addr key value)
  unfolding set_state get_state append undo_entry
  set_state-Undoable coherent addr key value =
      let prev = (load_slot s addr key).0 in
      elim (Bool-cases (prev == value)) [
        | inl same ↦ rw (same, set_state) (get_state-Undoable addr key)
        | inr new ↦
            rw (new, set_state)
              (Undoable-of_entry s _ (storage_change addr key prev) refl refl λ t h. (
                record t { storages = write_slot t.storages addr key prev },
                refl,
                record {
                  same_db = h.same_db;
                  same_block = h.same_block;
                  accounts = h.accounts;
                  slots =
                      written_back addr key prev value t (load_slot-eq s addr key coherent) h.slots;
                  suicided = h.suicided;
                  logs = h.logs;
                  log_size = h.log_size;
                  preimages = h.preimages;
                  refund = h.refund;
                  access = h.access;
                },
              ))
      ]

  -- The two methods that change the refund.
  set_refund-Undoable :
      (refund : ℕ)
      → Undoable s
          (record s { journal = append s.journal (refund_change s.refund); refund = refund })
  unfolding append undo_entry
  set_refund-Undoable refund = Undoable-of_entry s _ (refund_change s.refund) refl refl λ t h. (
    record t { refund = s.refund },
    refl,
    record {
      same_db = h.same_db;
      same_block = h.same_block;
      accounts = h.accounts;
      slots = h.slots;
      suicided = h.suicided;
      logs = h.logs;
      log_size = h.log_size;
      preimages = h.preimages;
      refund = refl;
      access = h.access;
    },
  )

  pub add_refund-Undoable : (gas : ℕ) → Undoable s (add_refund s gas)
  unfolding add_refund
  add_refund-Undoable gas = set_refund-Undoable ((s.refund + gas) % word)

  pub sub_refund-Undoable : (gas : ℕ) → Undoable s (sub_refund s gas)
  unfolding sub_refund
  sub_refund-Undoable gas = set_refund-Undoable (if ltb s.refund gas then 0 else s.refund - gas)

  pub add_preimage-Undoable :
      (hash : Hash) (preimage : Text) → Undoable s (add_preimage s hash preimage)
  unfolding add_preimage append undo_entry
  add_preimage-Undoable hash preimage = elim (Bool-cases (has hash s.preimages)) [
    | inl known ↦ rw (known, add_preimage) (Undoable-refl s)
    | inr new ↦
        rw (new, add_preimage)
          (Undoable-of_entry s _ (add_preimage_change hash) refl refl λ t h. (
            record t { preimages = delete hash t.preimages },
            refl,
            record {
              same_db = h.same_db;
              same_block = h.same_block;
              accounts = h.accounts;
              slots = h.slots;
              suicided = h.suicided;
              logs = h.logs;
              log_size = h.log_size;
              preimages = λ k. ground (
                arith,
                has-false hash s.preimages new,
                h.preimages k,
                lookup-insert hash k preimage s.preimages,
                lookup-delete hash k t.preimages,
                ap (λ (y : Hash). lookup y s.preimages) {x = hash} {y = k},
              );
              refund = h.refund;
              access = h.access;
            },
          ))
  ]

  wrap_back : (n : ℕ) → n < word → ((n + 1) % word + word - 1) % word ≡ n
  wrap_back n h = omega arith

  pub add_log-Undoable : s.log_size < word → (log : Log) → Undoable s (add_log s log)
  unfolding add_log append undo_entry
  add_log-Undoable small log =
      let stamped : Log = record log {
        tx_hash = s.thash;
        tx_index = s.tx_index;
        index = s.log_size;
      } in
      Undoable-of_entry s (add_log s log) (add_log_change s.thash) refl refl λ t h.
        let (logs, dropped, shows) = drop_log-undoes t.logs s.logs s.thash stamped h.logs in
        (
          record t { logs = logs; log_size = (t.log_size + word - 1) % word },
          rw (dropped, undo_entry),
          record {
            same_db = h.same_db;
            same_block = h.same_block;
            accounts = h.accounts;
            slots = h.slots;
            suicided = h.suicided;
            logs = shows;
            log_size =
                ap (λ (n : ℕ). (n + word - 1) % word) h.log_size ∙ wrap_back s.log_size small;
            preimages = h.preimages;
            refund = h.refund;
            access = h.access;
          },
        )

  pub add_address_to_access_list-Undoable :
      (addr : Address) → Undoable s (add_address_to_access_list s addr)
  unfolding add_address_to_access_list add_address append undo_entry
  add_address_to_access_list-Undoable addr =
      elim (Option-cases (lookup addr s.access_list.addresses)) [
        | inr (idx, e) ↦ rw (e, add_address) (Undoable-refl s)
        | inl e ↦
            rw (e, add_address)
              (Undoable-of_entry s _ (access_list_add_account_change addr) refl refl λ t h. (
                record t { access_list = delete_address t.access_list addr },
                refl,
                record {
                  same_db = h.same_db;
                  same_block = h.same_block;
                  accounts = h.accounts;
                  slots = h.slots;
                  suicided = h.suicided;
                  logs = h.logs;
                  log_size = h.log_size;
                  preimages = h.preimages;
                  refund = h.refund;
                  access = delete_address-SameAccess t.access_list s.access_list addr e h.access;
                },
              ))
      ]
