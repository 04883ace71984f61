-- ===== src/State/Frame/Moved.antt =====
-- The calls on the state database of pkg/state/statedb.go over two stores that read alike at its block.
pub mod Runs
use evm_executor.Prelude.{
  ℕ, ◌≡◌, refl, sym, ap, ◌∙◌, Bool, true, false, ◌&&◌, insert, Option, none, some, List, [], ◌∷◌,
  Map, lookup, arith, Option-cases, Bool-cases, inl, inr, ◌==◌, if◌then◌else◌,
}
use evm_executor.Prelude.Int.{ℤ, pos, is_zero, ◌+ℤ◌, ◌-ℤ◌}
use evm_executor.Deps.{Deps}
use evm_executor.Storage.Redis.{Text, Result, ok, err}
use evm_executor.Storage.Ops.{Address, Hash}
use evm_executor.Storage.State
use evm_executor.Storage.Batch.{Result-cases}
use evm_executor.State.Account.{Account, new_account}
use evm_executor.State.Journal.{
  create_object_change, suicide_change, balance_change, nonce_change, storage_change, code_change,
  append,
}
use evm_executor.State.Db.{PikaStateDb}
use evm_executor.State.Read
use evm_executor.State.Write
use evm_executor.State.Write.{write_slot}
use evm_executor.State.Frame.{Op, step}

-- Two stores that answer alike for the accounts and slots of a block and for the codes.
pub record Agree (d : Deps) (n : ℕ) (db db' : d.redis.Db) : Type 0 where
  pub accounts : (a : Address) → State.get_account d db' n a ≡ State.get_account d db n a
  pub slots :
      (a : Address) (x : Hash) → State.get_storage d db' n a x ≡ State.get_storage d db n a x
  pub codes : (h : Hash) → State.get_code d db' h ≡ State.get_code d db h

-- The same state over another store.
abbrev pub moved : {d : Deps} → d.redis.Db → PikaStateDb d → PikaStateDb d
moved db' s = record s { db = db' }

module _ {d : Deps} (db' : d.redis.Db) (s : PikaStateDb d)
    (agree : Agree d s.block_number s.db db') where
  load_account-moved : (a : Address) → Read.load_account (moved db' s) a ≡ Read.load_account s a
  unfolding Read.load_account
  load_account-moved a = ground (arith, agree.accounts a)

  load_slot-moved :
      (a : Address) (x : Hash) → Read.load_slot (moved db' s) a x ≡ Read.load_slot s a x
  unfolding Read.load_slot
  load_slot-moved a x = ground (arith, agree.slots a x)

  load_code-moved : (h : Hash) → Read.load_code (moved db' s) h ≡ Read.load_code s h
  unfolding Read.load_code
  load_code-moved h = ground (arith, agree.codes h)

  get_account-moved :
      (a : Address)
      → Read.get_account (moved db' s) a
        ≡ ((Read.get_account s a).0, moved db' (Read.get_account s a).1)
  unfolding Read.get_account
  get_account-moved a =
      ap (λ (r : _). (r.0, moved db' (record s { accounts = r.1; state_cache = r.2 })))
        (load_account-moved a)

  get_state-moved :
      (a : Address) (x : Hash)
      → Read.get_state (moved db' s) a x
        ≡ ((Read.get_state s a x).0, moved db' (Read.get_state s a x).1)
  unfolding Read.get_state
  get_state-moved a x =
      ap (λ (r : _). (r.0, moved db' (record s { storage_cache = r.1 }))) (load_slot-moved a x)

module _ {d : Deps} (db' : d.redis.Db) where
  moved-if :
      (b : Bool) (s t : PikaStateDb d)
      → (if b then moved db' s else moved db' t) ≡ moved db' (if b then s else t)
  moved-if true s t = refl
  moved-if false s t = refl

program : Unit {0}
unfolding step Read.get_account Read.get_state Read.get_code Read.has_suicided Write.create_account
    Write.suicide Write.add_address_to_access_list Write.sub_balance Write.add_balance
    Write.set_nonce Write.set_code Write.set_state Write.add_log Write.add_refund Write.sub_refund
    Write.add_preimage
program = tt

module _ {d : Deps} (db' : d.redis.Db) (s : PikaStateDb d)
    (agree : Agree d s.block_number s.db db') where
  get_code-moved :
      (a : Address)
      → Read.get_code (moved db' s) a ≡ ((Read.get_code s a).0, moved db' (Read.get_code s a).1)
  unfolding Read.get_code Read.get_account
  get_code-moved a =
      let (acc, s') = Read.get_account s a in
      ap
        (λ (r : Account × PikaStateDb d).
          let q = Read.load_code r.1 r.0.code_hash in (q.0, record r.1 { code_cache = q.1 }))
        (get_account-moved db' s agree a)
      ∙ ap (λ (q : Text × d.code_lru.Cache). (q.0, moved db' (record s' { code_cache = q.1 })))
          (load_code-moved db' s' agree acc.code_hash)

module _ {d : Deps} (db' : d.redis.Db) (s : PikaStateDb d)
    (agree : Agree d s.block_number s.db db') where
  -- A step over the other store does the same.
  step-moved : (op : Op) → step (moved db' s) op ≡ moved db' (step s op)
  unfolding program
  step-moved (Op.create_account a) =
      ap
        (λ (r : Account × PikaStateDb d).
          if r.0.nonce == 0 && is_zero r.0.balance && r.0.code_hash == 0
          then Write.put_account r.1 (create_object_change a) a new_account
          else r.1)
        (get_account-moved db' s agree a)
      ∙ moved-if db' _ _ _
  step-moved (Op.suicide a) =
      ap
        (λ (r : Account × PikaStateDb d). record r.1 {
          journal =
              append r.1.journal (suicide_change a (Read.has_suicided r.1 a) (some r.0.balance));
          suicides = insert a true r.1.suicides;
          accounts = insert a (record r.0 { balance = pos 0 }) r.1.accounts;
        })
        (get_account-moved db' s agree a)
  step-moved (Op.add_address a) = moved-if db' _ _ _
  step-moved (Op.read_account a) = ap (λ r. r.1) (get_account-moved db' s agree a)
  step-moved (Op.read_code a) = ap (λ r. r.1) (get_code-moved db' s agree a)
  step-moved (Op.sub_balance a n) =
      ap
        (λ (r : Account × PikaStateDb d).
          if is_zero n
          then moved db' s
          else Write.put_account r.1 (balance_change a r.0.balance) a
              (record r.0 { balance = r.0.balance -ℤ n }))
        (get_account-moved db' s agree a)
      ∙ moved-if db' _ _ _
  step-moved (Op.add_balance a n) =
      ap
        (λ (r : Account × PikaStateDb d).
          if is_zero n
          then moved db' s
          else Write.put_account r.1 (balance_change a r.0.balance) a
              (record r.0 { balance = r.0.balance +ℤ n }))
        (get_account-moved db' s agree a)
      ∙ moved-if db' _ _ _
  step-moved (Op.set_nonce a n) =
      ap
        (λ (r : Account × PikaStateDb d).
          Write.put_account r.1 (nonce_change a r.0.nonce) a (record r.0 { nonce = n }))
        (get_account-moved db' s agree a)
  step-moved (Op.set_code a code) =
      let s' : PikaStateDb d = (Read.get_account s a).1 in
      let acc : Account = (Read.get_account s a).0 in
      let change : Account → Text × PikaStateDb d → PikaStateDb d = λ x q. record q.1 {
        journal = append q.1.journal (code_change a q.0 x.code_hash);
        codes = insert (d.keccak256 code) code q.1.codes;
        accounts = insert a (record x { code_hash = d.keccak256 code }) q.1.accounts;
      } in
      ap (λ (r : Account × PikaStateDb d). change r.0 (Read.get_code r.1 a))
        (get_account-moved db' s agree a)
      ∙ ap (change acc) (get_code-moved db' s' agree a)
  step-moved (Op.set_state a k v) =
      ap
        (λ (r : Hash × PikaStateDb d). if r.0 == v then r.1 else record r.1 {
          journal = append r.1.journal (storage_change a k r.0);
          storages = write_slot r.1.storages a k v;
        })
        (get_state-moved db' s agree a k)
      ∙ moved-if db' _ _ _
  step-moved (Op.read_state a k) = ap (λ r. r.1) (get_state-moved db' s agree a k)
  step-moved (Op.add_log l) = refl
  step-moved (Op.add_refund n) = refl
  step-moved (Op.sub_refund n) = refl
  step-moved (Op.add_preimage h t) = moved-if db' _ _ _
