-- ===== src/Lib.antt =====
-- A verification library of the EVM executor: the state that blocks are executed on, and its storage.
--
-- The program executes blocks one after the other. For each block it opens a state database over a
-- Redis-compatible store (Pika), runs the block's transactions on it through go-ethereum's EVM, which
-- takes snapshots and reverts to them, and commits the result to the store, where the state database
-- of the next block reads it.
--
-- Which file models what (a directory holds the children of the file with its name):
--   Prelude         lists, Go maps as association lists, Boolean tests, and integers (`big.Int`)
--   Lru             the LRU cache of hashicorp/golang-lru, a parameter with its documented laws
--   Deps            all the third-party code that the state needs, as one parameter: Redis, the
--                   caches, and go-ethereum's hexadecimal texts, hash function and account JSON
--   Storage/Redis   the methods of PikaClient (pkg/storage/pika.go) over the Redis client
--   Storage/Key     accountKey, storageKey, codeKey, stateRootKey (pkg/storage/state.go), and
--                   storageKey of pkg/state/statedb.go
--   Storage/Ops     Account and WriteOp of pkg/storage/state.go
--   Storage/State   the methods of StateStorage (pkg/storage/state.go), by their names
--   Storage/Batch   the store as a map from pieces of state, and BatchWrite and the single writes as
--                   its updates
--   Storage/Blocks  the methods of BlockStorage, ReceiptStorage and ProgressStorage
--                   (pkg/storage/block.go), over the codecs as a parameter
--   State/Account, State/Journal, State/AccessList   the types of pkg/state/account.go
--   State/Undo      the revert methods of the journal and of its entries (pkg/state/account.go)
--   State/Db        the fields of PikaStateDB and NewPikaStateDB (pkg/state/statedb.go)
--   State/Read, State/Write, State/Snapshot, State/Commit   the methods of PikaStateDB, by their names
--   State/Revert, State/Frame   how the journal undoes each call, and runs of nested call frames
--   State/Frame/Moved   the same calls over two stores that read alike
--   State/Logs      the logs of a transaction
--   Worker          the worker pool of pkg/worker/pool.go: its methods and the rounds of its workers are
--                   events, and a run is any sequence of them, so any interleaving
--   Chain           pkg/chain/chain.go: NewChainAdapter and the methods of BSCAdapter
--   Config          pkg/config/config.go: Load and setDefaults over viper, a parameter, with the tags of
--                   the fields in Config/Fields and the order of the layers, with what shadows a
--                   setting, in Config/Layers
--   Executor/Deps   go-ethereum's blocks, transactions, receipts and codecs, and its application of a
--                   message to the state, as one parameter with its laws
--   Executor/Codec  what go-ethereum's encoding of receipts keeps of them
--   Executor/Hashes GetHashFn (pkg/executor/apply.go) and GetHeader (pkg/executor/processor.go)
--   Executor/Apply  ApplyTransaction, applyTransaction and NewEVMBlockContext (pkg/executor/apply.go)
--   Executor/Process   ProcessBlock and processTransactions (pkg/executor/processor.go)
--   Executor/Process/Replay   blocks for which ProcessBlock is called more than once
--   Executor/Process/Reread   what GetReceipts returns of a processed block
--   Executor/Loop   executeNextBlocks and executeBlock (pkg/executor/executor.go)
--   Executor/Loop/Panics   blocks with transactions, for which GetBlock gives NewBlock no hasher
--   Executor/Run    the stores that run (pkg/executor/executor.go) comes to, tick by tick, with the
--                   writes of the program that synchronises the blocks in between
--   Executor/Life   Start, Stop and the select of run (pkg/executor/executor.go), as events
--   Executor/New    NewExecutor (pkg/executor/executor.go), where the configuration meets the loop
--   Tests           stand-ins for the third-party code that satisfy its laws, and concrete inputs
--
-- A method that changes the state database returns the new one, also the reads, which fill the
-- caches. A panic of the state database (an index or a slice bound out of range, an unknown
-- snapshot id) is `none`; an error of the storage layer is `err`, and `panicked` among them is
-- the panic of NewBlock in GetBlock, from which no code of the program recovers; NewBlock is a
-- parameter that may panic. Addresses and hashes are the numbers that their bytes spell. Go
-- maps are association lists that hold each key once; a walk of one goes through the entries in
-- the list's order, and the statements hold for every order. Block numbers, refunds and log
-- counts are numbers below 2^64 with their wrap-around written out where the code computes with
-- them.
--
-- The parts meet in the store: ProcessBlock reads a block, opens the state database of its
-- parent, lets the EVM work on it through the calls of State/Read, State/Write and
-- State/Snapshot, commits it, and stores the receipts; executeNextBlocks does so block by block
-- and stores the progress after each. The EVM is the parameter `apply_message`, a function of
-- the state that leaves the store and the block alone and no map with a key twice (`Carries`),
-- as it is to reach the state by those calls; where two stores are compared, it also reads
-- nothing of the store but by them (`IsStateReader`). It is taken to return: a panic of the
-- state database below it is not part of the model of pkg/executor.
--
-- Loops are structural recursion but for two on fuel. The digits of Go's `%d` (Storage/Key/Decimal) take
-- the successor of the number, which has at least as many rounds as the number has digits; that the
-- digits name the number is a lemma there. The loop of executeNextBlocks, whose counter could wrap
-- around, takes one round for each block of the batch and one more, and is `none` without them; a batch
-- has no more blocks than the batch size, so this number and one more are enough.
--
-- The life of an executor (Executor/Life) and the store under it (Executor/Run) are separate models: in
-- the first a tick is only begun and ended (executeNextBlocks calls no method of the pool), in the
-- second it is a whole call of executeNextBlocks.
--
-- Not modelled: pkg/logger and the log output, pkg/metrics, whose counters nothing sets,
-- cmd/executor, which only calls the modelled parts and waits for a signal, and of pkg/storage/pika.go
-- the methods that the program does not call.
pub mod Prelude
pub mod Lru
pub mod Deps
pub mod Storage
pub mod State
pub mod Worker
pub mod Chain
pub mod Config
pub mod Executor
mod Tests
