-- ===== src/State/Read.antt =====
-- The reads of pkg/state/statedb.go. A read fills the caches and the map of accounts, so it returns
-- the state beside its result.
pub mod Spec
pub mod Coherent
pub mod Results
use evm_executor.Prelude.{
  ℕ, Bool, true, false, not, ◌||◌, Option, none, some, List, [], ◌∷◌, Map, lookup, insert, length,
  map, ◌==◌, if◌then◌else◌,
}
use evm_executor.Prelude.Int.{ℤ}
use evm_executor.Deps.{Deps}
use evm_executor.Storage.Redis.{Text, Result, ok, err}
use evm_executor.Storage.Key.{cache_key}
use evm_executor.Storage.Ops.{Address, Hash, StoredAccount}
use evm_executor.Storage.State
use evm_executor.State.Account.{Account, new_account, is_empty, from_stored}
use evm_executor.State.AccessList.{contains_address, contains}
use evm_executor.State.Db.{Log, PikaStateDb}

-- `storage, ok := s.storages[addr]` and `value, ok := storage[key]`
unfoldable pub written_slot : Map (Map Hash) → Address → Hash → Option Hash
written_slot storages addr key = elim (lookup addr storages) [
  | none ↦ none
  | some slots ↦ lookup key slots
]

-- `s.suicides[addr]`: a missing flag reads as `false`
abbrev pub flag : Map Bool → Address → Bool
flag suicides addr = elim (lookup addr suicides) [ none ↦ false | some b ↦ b ]

module _ {d : Deps} where
  -- The three levels of `getAccount`: the account, and the map and the cache that it leaves.
  unfoldable pub load_account :
      PikaStateDb d → Address → Account × Map Account × d.account_lru.Cache
  load_account s addr = elim (lookup addr s.accounts) [
    | some acc ↦ (acc, s.accounts, s.state_cache)
    | none ↦
        let (hit, cache) = d.account_lru.get s.state_cache addr in
        elim hit [
          | some cached ↦ (from_stored cached, insert addr (from_stored cached) s.accounts, cache)
          | none ↦ elim (State.get_account d s.db s.block_number addr) [
            | err _ ↦ (new_account, s.accounts, cache)
            | ok stored ↦ (
              from_stored stored,
              insert addr (from_stored stored) s.accounts,
              d.account_lru.add cache addr stored,
            )
          ]
        ]
  ]

  -- `getAccount`
  unfoldable pub get_account : PikaStateDb d → Address → Account × PikaStateDb d
  get_account s addr =
      let r = load_account s addr in (r.0, record s { accounts = r.1; state_cache = r.2 })

  unfoldable pub get_balance : PikaStateDb d → Address → ℤ × PikaStateDb d
  get_balance s addr = let (acc, s') = get_account s addr in (acc.balance, s')

  unfoldable pub get_nonce : PikaStateDb d → Address → ℕ × PikaStateDb d
  get_nonce s addr = let (acc, s') = get_account s addr in (acc.nonce, s')

  unfoldable pub get_code_hash : PikaStateDb d → Address → Hash × PikaStateDb d
  get_code_hash s addr =
      let (acc, s') = get_account s addr in
      (if acc.code_hash == 0 then d.keccak256 [] else acc.code_hash, s')

  -- `GetCode` below the account: no code hash is no code; else the three levels, with the cache that
  -- they leave. A nil slice and an empty one are both `[]`.
  unfoldable pub load_code : PikaStateDb d → Hash → Text × d.code_lru.Cache
  load_code s code_hash =
      if code_hash == 0 then ([], s.code_cache) else elim (lookup code_hash s.codes) [
        | some code ↦ (code, s.code_cache)
        | none ↦
            let (hit, cache) = d.code_lru.get s.code_cache code_hash in
            elim hit [
              | some code ↦ (code, cache)
              | none ↦ elim (State.get_code d s.db code_hash) [
                | err _ ↦ ([], cache)
                | ok code ↦ (code, d.code_lru.add cache code_hash code)
              ]
            ]
      ]

  unfoldable pub get_code : PikaStateDb d → Address → Text × PikaStateDb d
  get_code s addr =
      let (acc, s') = get_account s addr in
      let r = load_code s' acc.code_hash in (r.0, record s' { code_cache = r.1 })

  unfoldable pub get_code_size : PikaStateDb d → Address → ℕ × PikaStateDb d
  get_code_size s addr = let (code, s') = get_code s addr in (length code, s')

  -- The three levels of `GetState`.
  unfoldable pub load_slot : PikaStateDb d → Address → Hash → Hash × d.slot_lru.Cache
  load_slot s addr key = elim (written_slot s.storages addr key) [
    | some value ↦ (value, s.storage_cache)
    | none ↦
        let text = cache_key d.hex_address d.hex_hash addr key in
        let (hit, cache) = d.slot_lru.get s.storage_cache text in
        elim hit [
          | some value ↦ (value, cache)
          | none ↦ elim (State.get_storage d s.db s.block_number addr key) [
            | err _ ↦ (0, cache)
            | ok value ↦ (value, d.slot_lru.add cache text value)
          ]
        ]
  ]

  unfoldable pub get_state : PikaStateDb d → Address → Hash → Hash × PikaStateDb d
  get_state s addr key =
      let (value, cache) = load_slot s addr key in (value, record s { storage_cache = cache })

  unfoldable pub get_committed_state : PikaStateDb d → Address → Hash → Hash × PikaStateDb d
  get_committed_state s addr key = get_state s addr key

  unfoldable pub has_suicided : PikaStateDb d → Address → Bool
  has_suicided s addr = flag s.suicides addr

  abbrev pub has_self_destructed : PikaStateDb d → Address → Bool
  has_self_destructed s addr = has_suicided s addr

  unfoldable pub exist : PikaStateDb d → Address → Bool × PikaStateDb d
  exist s addr =
      let (acc, s') = get_account s addr in (not (is_empty acc) || has_suicided s' addr, s')

  unfoldable pub empty : PikaStateDb d → Address → Bool × PikaStateDb d
  empty s addr = let (acc, s') = get_account s addr in (is_empty acc, s')

  -- `GetLogs` writes the block into the logs that it returns, which the state shares.
  unfoldable pub get_logs : PikaStateDb d → Hash → ℕ → Hash → List Log × PikaStateDb d
  get_logs s tx_hash block_number block_hash = elim (lookup tx_hash s.logs) [
    | none ↦ ([], s)
    | some logs ↦
        let stamped =
          map (λ (l : Log). record l { block_number = block_number; block_hash = block_hash })
            logs in
        (stamped, record s { logs = insert tx_hash stamped s.logs })
  ]

  unfoldable pub get_refund : PikaStateDb d → ℕ
  get_refund s = s.refund

  unfoldable pub address_in_access_list : PikaStateDb d → Address → Bool
  address_in_access_list s addr = contains_address s.access_list addr

  unfoldable pub slot_in_access_list : PikaStateDb d → Address → Hash → Option (Bool × Bool)
  slot_in_access_list s addr slot = contains s.access_list addr slot

  -- `GetTransientState` is not implemented, and answers zero
  abbrev pub get_transient_state : PikaStateDb d → Address → Hash → Hash
  get_transient_state s addr key = 0

  abbrev pub get_tx_index_internal : PikaStateDb d → ℕ
  get_tx_index_internal s = s.tx_index
