-- ===== src/State/Frame/Getters.antt =====
-- What the public reads of pkg/state/statedb.go answer after a reverted frame.
use evm_executor.Prelude.{
  ℕ, map, ◌≡◌, ap, sym, ◌∙◌, true, some, not, ◌||◌, lookup, arith, if◌then◌else◌, ◌==◌, [],
}
use evm_executor.Deps.{Deps, IsDeps}
use evm_executor.Storage.Ops.{Address, Hash}
use evm_executor.Storage.State
use evm_executor.State.Account.{Account, is_empty}
use evm_executor.State.AccessList.{contains_address}
use evm_executor.State.Db.{PikaStateDb}
use evm_executor.State.Snapshot.{snapshot}
use evm_executor.State.Read.{
  get_account, get_balance, get_nonce, get_code_hash, get_state, exist, empty, has_suicided,
  get_refund, address_in_access_list, get_logs,
}
use evm_executor.State.Read.Spec.{or_else, or_new}
use evm_executor.State.Read.Coherent.{Coherent}
use evm_executor.State.Read.Results.{get_account-eq, get_state-eq}
use evm_executor.State.Revert.Restores.{Restores}
use evm_executor.State.Frame.{Program, stop, call, run}
use evm_executor.State.Frame.Invariant.{Ready}
use evm_executor.State.Frame.Reverts.{Reverted}
use evm_executor.State.Logs.{in_block, get_logs-eq}
use evm_executor.State.Frame.Runs.{Allowed, run-Reverted}

-- The reads answer alike in both states.
pub record SameAnswers {d : Deps} (t s : PikaStateDb d) : Type 0 where
  pub balance : (a : Address) → (get_balance t a).0 ≡ (get_balance s a).0
  pub nonce : (a : Address) → (get_nonce t a).0 ≡ (get_nonce s a).0
  pub code_hash : (a : Address) → (get_code_hash t a).0 ≡ (get_code_hash s a).0
  pub exists : (a : Address) → (exist t a).0 ≡ (exist s a).0
  pub is_empty : (a : Address) → (empty t a).0 ≡ (empty s a).0
  pub slot : (a : Address) (k : Hash) → (get_state t a k).0 ≡ (get_state s a k).0
  pub suicided : (a : Address) → has_suicided t a ≡ has_suicided s a
  pub refund : get_refund t ≡ get_refund s
  pub listed : (a : Address) → address_in_access_list t a ≡ address_in_access_list s a
  pub logs : (h : Hash) (bn : ℕ) (bh : Hash) → (get_logs t h bn bh).0 ≡ (get_logs s h bn bh).0
  pub entries : t.journal.entries ≡ s.journal.entries
  pub revisions : t.valid_revisions ≡ s.valid_revisions

module _ {d : Deps} where
  same_account :
      (t s : PikaStateDb d)
      → Coherent t
      → Coherent s
      → Restores t s
      → (a : Address) → (get_account t a).0 ≡ (get_account s a).0
  same_account t s ct cs h a =
      get_account-eq t a ct
      ∙ ap (or_else (lookup a t.accounts))
          (λ i. or_new (State.get_account d (h.same_db i) (h.same_block i) a))
      ∙ h.accounts.seen a
      ∙ sym (get_account-eq s a cs)

  pub Reverted-SameAnswers :
      (t s : PikaStateDb d) → Coherent t → Coherent s → Reverted t s → SameAnswers t s
  unfolding get_balance get_nonce get_code_hash exist empty has_suicided get_refund
      address_in_access_list contains_address get_account
  Reverted-SameAnswers t s ct cs back =
      let h = back.shows in
      record {
        balance = λ a. ap (λ (x : Account). x.balance) (same_account t s ct cs h a);
        nonce = λ a. ap (λ (x : Account). x.nonce) (same_account t s ct cs h a);
        code_hash = λ a.
            ap (λ (x : Account). if x.code_hash == 0 then d.keccak256 [] else x.code_hash)
              (same_account t s ct cs h a);
        exists = λ a. λ i. not (is_empty (same_account t s ct cs h a i)) || h.suicided a i;
        is_empty = λ a. ap is_empty (same_account t s ct cs h a);
        slot = λ a k. get_state-eq t a k ct ∙ h.slots a k ∙ sym (get_state-eq s a k cs);
        suicided = h.suicided;
        refund = h.refund;
        listed = λ a. ground (arith, h.access.addresses a);
        logs = λ k bn bh.
            get_logs-eq t k bn bh
            ∙ ap (map (in_block bn bh)) (h.logs k)
            ∙ sym (get_logs-eq s k bn bh);
        entries = back.entries;
        revisions = back.revisions;
      }

  -- From a state with the invariant, after a frame whose body is allowed and that is then reverted,
  -- every account has the balance, nonce, code hash, existence, emptiness and self-destruct mark
  -- that it had, every slot its value, every transaction its logs, the refund is what it was, the
  -- same addresses are in the access list, and the journal and the valid snapshots are as before.
  -- The run does not panic. A body is allowed if no `CreateAccount` in it meets a loaded account.
  pub run-SameAnswers :
      IsDeps d
      → (body : Program) (s : PikaStateDb d) → Ready s
      → Allowed body (snapshot s).1
      → (t : PikaStateDb d) × (run (call body true stop) s ≡ some t) × SameAnswers t s
  run-SameAnswers laws body s ready allowed =
      let (t, ran, ready_t, back) = run-Reverted laws body s ready allowed in
      (t, ran, Reverted-SameAnswers t s ready_t.coherent ready.coherent back)
