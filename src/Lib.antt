-- ===== src/Lib.antt =====
-- Hanticoin, a proof-of-stake blockchain node in Go: the models of its packages and what is proved of
-- them.
--
-- The program. A node keeps blocks in files (core/chain.go), account balances, nonces and validator
-- stakes in a LevelDB database (state/state.go), and transactions that wait in a pool
-- (mempool/mempool.go). A block names its producer, which the round robin over the validators
-- (consensus/consensus.go) fixes for its height, and commits to its transactions by a Merkle root and
-- a SHA-256 hash (core/types.go, crypto/). cmd/node/main.go wires these to the peers and to HTTP.
--
-- Files and what they model.
--   Config                    config/config.go: constants, `ChainConfig`, `DefaultChainConfig`
--   Crypto.Primitives         SHA-256, ECDSA and the JSON encoder, which the repository only calls:
--                             the fields of one record that every definition using them takes
--   Crypto.Hash, .Merkle      crypto/hash.go, crypto/merkle.go
--   Crypto.Signature          crypto/signature.go
--   Core.Types                core/types.go and `GenesisBlock` of core/genesis.go
--   LevelDb                   the database package: an open database is what it returns for each key;
--                             `Write` is a parameter, with the law that a batch is applied whole
--   State.Store               state/state.go: keys, numbers, `GetBalance`, `GetNonce`, the setters
--   State.Ledger              `ApplyBlock` and `applyBlockLocked`: the three passes and the batch
--   State.Genesis             `ApplyGenesis` and `applyGenesisLocked`
--   State.Validators          `GetValidatorSet` and `SlashValidator`
--   State.Replay              `ResetAndReplay`
--   Consensus                 consensus/consensus.go
--   Mempool                   mempool/mempool.go: `New`, `Add`, `Pending`, `Remove`, `Size`
--   Core.Files, Core.Genesis  core/genesis.go, and the files and JSON that it shares with core/chain.go
--   Core.Chain                core/chain.go: the lock, `Save`, `AppendBlock`, `GetBlock`, `LastBlock`,
--                             `HasBlock`, `GetBlocksFrom`, `SetTip`, `WriteBlock`; in Core.Chain.Loading
--                             `NewChain`, `GetGenesis`, `GetBlockByHeight`
--   Crypto.Keyfile            crypto/keyfile.go
--   P2p.Peers                 p2p/peers.go: the peer set; the dialer is a parameter
--   P2p.Messages, .Transport  p2p/message.go and p2p/transport.go: kinds, payloads, `Send`,
--                             `ReadMessage` and one round of `acceptLoop` on a stream of bytes; the
--                             server's listener
--   Node                      cmd/node/main.go: a running node and what its handlers share
--   Node.Receiving, .Syncing  the cases of `onConn`: `KindNewBlock`, `KindNewTx`, `KindGetBlocks`,
--                             `KindHello`, `KindPeers`; `KindBlocks` and the request for blocks
--   Node.Producing            one tick of the block producer
--   Node.Session              the switch of `onConn`, and the events of a node in any order; in
--                             Node.Session.Conversation `onConn` from `AddPeer` to `RemovePeer`
--   Node.Session.History      the blocks that a node produces over a run
--   Node.Api                  the HTTP handlers
--   Node.Starting, .Sending   `runInit`, `runInitJoin`, the start of `runNodeLoop`; `runSend`,
--                             `runKeygen`; Node.Starting.Flags: the choice that `main` makes
--   Loadgen                   cmd/loadgen/main.go
--   Prelude, Go               shared notation, lists, maps, uint64 arithmetic, hexadecimal
--   Tests                     instances of the parameters and runs on small inputs
--
-- Correspondence. A Go struct is a record with the same fields, a slice is a list, an `error` is a
-- `none`, a `false` or a constructor, and a method that changes its receiver returns the new one. A
-- uint64 is a natural number with `% 2 ^ 64` written out in the operations. Hashes, addresses and
-- strings are lists of bytes. A Go map is an association list; where the source ranges over one, the
-- order is the order of the list, over which the theorems are general. Every exported method takes
-- its lock for its whole body, so a call is one step; core/chain.go, where a method calls another
-- with the lock held, has the lock in the model.
--
-- Parts together. A handler of a node is a function of the node that calls the operations of the
-- chain, the state, the pool and the peers in the order of the source. It ends, or it waits for ever;
-- then it leaves the node as it is, with the locks it holds. A run of a node is a list of events, each
-- handled as one step: `blockMu` keeps the handlers that change the ledger apart, and what another
-- handler could see in the middle of one is not covered. The loop of one connection runs its handlers
-- one after the other and reads no further while one waits; what several goroutines write to a
-- connection has the order of their writes, which is arbitrary.
--
-- Termination. All functions are total. The Merkle root recurs on the length of its list. The walk of
-- `GetBlocksFrom` over parent hashes has fuel, since parents on a disk can form a cycle; a chain of n
-- blocks is walked with fuel n. The loop over `ReadMessage` has fuel, of which n messages and the
-- end of the stream need n + 1, and so has the index loop of the load generator, where n indices
-- need n.
--
-- Not modelled: sockets and deadlines (package net), the parsing of the command line (package flag),
-- reading the JSON of an HTTP body, the elapsed time in the report of the load generator, and
-- `GenerateKey` (package ecdsa). A list of blocks that holds a nil pointer is told apart when it is
-- read and handled no further. SHA-256 is not assumed to have no collisions: where two inputs could
-- collide, the collision is an alternative of the conclusion.
pub mod Config
pub mod Consensus
pub mod Core
pub mod Crypto
pub mod Go
pub mod LevelDb
pub mod Loadgen
pub mod Mempool
pub mod Node
pub mod P2p
pub mod Prelude
pub mod State
pub mod Tests
