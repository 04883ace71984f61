-- ===== src/State/AccessList/Prepared.antt =====
-- What `Prepare` of pkg/state/statedb.go does to the access list of the state database.
use evm_executor.Prelude.{◌≡◌, refl, Bool, ◌||◌, Option, some, List, arith, ◌==◌}
use evm_executor.Deps.{Deps}
use evm_executor.Storage.Ops.{Address, Hash}
use evm_executor.State.AccessList.{add_address}
use evm_executor.State.AccessList.Valid.{IsValid}
use evm_executor.State.AccessList.Joins.{
  member, named, listed, Joins, Joins-trans, add_address-Joins, add_addresses-Joins,
  add_tuples-Joins,
}
use evm_executor.State.Db.{PikaStateDb}
use evm_executor.State.Write.{add_addresses, optional, prepare}

-- The addresses that `Prepare` is called with.
abbrev pub is_given :
    Address → Option Address → List Address → List (Address × List Hash) → Address → Bool
is_given sender dest precompiles tx_accesses y =
    sender == y || member y (optional dest) || member y precompiles || named tx_accesses y

module _ {d : Deps} where
  -- Over a valid access list Prepare does not panic; the access list keeps all that it had, of the
  -- transactions before as well, and exactly the sender, the recipient if there is one, the precompiled
  -- contracts and the addresses and slots of the transaction's own list join it.
  pub prepare-Joins :
      (s : PikaStateDb d) (sender : Address) (dest : Option Address) (precompiles : List Address)
      (tx_accesses : List (Address × List Hash))
      → IsValid s.access_list
      → (t : PikaStateDb d) × (prepare s sender dest precompiles tx_accesses ≡ some t)
        × Joins s.access_list t.access_list
            (is_given sender dest precompiles tx_accesses)
            (listed tx_accesses)
  unfolding prepare
  prepare-Joins s sender dest precompiles tx_accesses v =
      let a = s.access_list in
      let from_sender = add_address-Joins a sender v in
      let b = (add_address a sender).0 in
      let from_dest = add_addresses-Joins b (optional dest) from_sender.valid in
      let c = add_addresses b (optional dest) in
      let from_precompiles = add_addresses-Joins c precompiles from_dest.valid in
      let (l, added, from_tuples) =
        add_tuples-Joins (add_addresses c precompiles) tx_accesses from_precompiles.valid in
      let all =
        Joins-trans (Joins-trans (Joins-trans from_sender from_dest) from_precompiles)
          from_tuples in
      (
        record s { access_list = l; thash = 0; tx_index = 0 },
        rw (added, prepare) refl,
        record {
          valid = all.valid;
          names_join = λ y. ground (arith, all.names_join y);
          slots_join = λ y j. ground (arith, all.slots_join y j);
        },
      )
