-- ===== src/Lib.antt =====
-- Verification of the core of the vocdoni go-dvote node: the replicated chain that keeps voting
-- processes and their votes.
--
-- The program: tendermint orders transactions and calls the application of vochain/app.go.
-- CheckTx admits a transaction to the mempool, BeginBlock starts a block from the committed state,
-- DeliverTx runs each transaction of the block, and Commit makes the state the committed one. Every
-- transaction goes through UnmarshalTx and AddTx of vochain/transaction.go, which checks it against
-- the state and, in a block, runs the operation on it. The state (vochain/state.go) is three trees
-- of a versioned database: the header, the oracles and the validators; the processes by their id;
-- the votes by process id and nullifier. A cache in memory (vochain/cache.go) carries the checked
-- proof of a vote from CheckTx to DeliverTx. Listeners (the scrutinizer, the key keeper) are told
-- of votes, processes and keys. The scrutinizer (vochain/scrutinizer/) counts the votes into a database
-- of its own, live or when the keys of a process are revealed; the key keeper (vochain/keykeeper/)
-- makes the keys of encrypted processes, publishes them and reveals them after the end.
-- The census manager (census/) keeps the merkle trees of the voters (trie/), by the name of a
-- namespace: it serves requests and imports published censuses from a remote storage.
--
-- The files:
--   Prelude and its children: shared names, results and errors, int64, byte strings, Go maps.
--   Util/Hex: util/helpers.go (IsHex, IsHexEncodedStringWithLength, TrimHex) over encoding/hex.
--   Util/Split: util/helpers.go (SplitBytes). Util/Decimal: the numbers of fmt.
--   Db: db/interface.go and db/badger.go, a key-value database with the laws of its writes.
--   Types: types/consts.go and types/vochain.go.
--   Statedb: statedb/statedb.go, an interface with the laws that the chain relies on. A tree is
--   reached by its name, and `get_immutable` reads the committed version. Statedb/Iterate is the
--   range of keys that Iterate of statedb/iavlstate/iavlstate.go computes.
--   Ethereum, Nacl: crypto/ethereum/ethereum.go and crypto/nacl/nacl.go over library operations.
--   Vochain/Deps: what the chain takes from outside: the JSON and amino codecs, the database, the
--   hash, proof and signature operations. An amino codec comes with its round trip.
--   Vochain/State and its children: vochain/state.go and vochain/cache.go. `State` holds the
--   database, the cache, the listeners and the calls that were made to them. An operation is a
--   function from a state to a result and a state: what was written before an error stays written.
--   Vochain/Apputils: vochain/apputils.go, and the check of a proof of trie/trie.go.
--   Vochain/Transaction and its children: vochain/transaction.go, one module for each kind.
--   Vochain/App: vochain/app.go.
--   Vochain/Scrutinizer and its children: vochain/scrutinizer/. Tally and Results: vote.go; Entities,
--   Listing and Blocks: process.go and scrutinizer.go. The state of the chain that an operation reads
--   is an argument. checkFinishedProcesses runs on its own, so it is an operation of its own, and
--   Blocks/Steps takes the operations in any order.
--   Vochain/Keykeeper and its children: vochain/keykeeper/keykeeper.go. The two Go maps may be nil.
--   Vochain/Censusdownloader: vochain/censusdownloader/censusdownloader.go.
--   Trie: trie/trie.go, a tree of the state database, which is a parameter with its store.
--   Census and its children: census/. Namespaces and Start: census.go, and compression.go; Auth:
--   auth.go; Import: importqueue.go, by rounds of its loops; Requests and Handler: handler.go, a function for each
--   method. A `*tree.Tree` of the map of the manager is reached by its name. Opening a tree is a
--   function of its name: a tree that is opened a second time is not modelled. A path of a namespace
--   is not looked at. Names/Steps takes the operations in any order.
--   Sample: a database in memory, codecs and a signature scheme that satisfy the laws of the
--   interfaces; Vochain/Examples and Census/Examples run the theorems on them.
--
-- Conventions: an int64 or int is an integer whose operations wrap around at 64 bits. A `[]byte`
-- that may be nil is an option. A Go map is an association list. An out-of-range index, a nil
-- dereference and a `log.Fatal` are the outcome `panic`. Times are in nanoseconds and are given to
-- the operations that read the clock. Loops are recursions on their lists. Two have
-- fuel: SplitBytes, which gets one unit more than it has bytes, and the digits of a number, which
-- get one more than the number.
--
-- Not modelled: locks (each operation holds its lock throughout), logging and metrics; the start-up
-- of the node and its configuration; RevealUnpublished and PrintInfo of the key keeper, which walk
-- over its database; the HTTP server of the census manager and the channel of its import
-- queue; the router; the two implementations of the state database, whose
-- versions are laws of its interface, but for the range of Iterate; and the network and storage services.

pub mod Prelude
pub mod Util
pub mod Types
pub mod Statedb
pub mod Db
pub mod Trie
pub mod Census
pub mod Ethereum
pub mod Nacl
pub mod Vochain
mod Sample
