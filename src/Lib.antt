-- ===== src/Lib.antt =====
-- A verification library for the Eacred mining pool: the package `pool`, from the messages that a
-- miner sends, over the shares that they claim, to the payouts that the wallet publishes.
--
-- The hub posts new work to the clients; an endpoint makes a client for each connection to it, whose
-- session authorizes, subscribes and submits work. The pool stores jobs, accepted work, shares,
-- accounts and payments in one database. A mined block turns the shares into payments; when these
-- mature, they are paid in one transaction and archived.
--
-- The files, and the code that each is about:
--   Prelude, Exec                 names, lists, tests, and the monad of calls that change a state
--   Errors                        pool/error.go, and a call's outcome: a value, an error or a panic
--   Bytes, Text, Strings          byte strings and their order, hexadecimal and words; the package
--                                 strings
--   Int64, Rat                    the signed 64-bit amounts; the fractions of math/big
--   Bolt, Json                    what the pool relies on of bbolt and encoding/json, as records of
--                                 operations and laws
--   Ids                           heightToBigEndianBytes (pool/acceptedwork.go), nanoToBigEndianBytes
--                                 (pool/job.go), and the height that an id starts with
--   Db                            pool/db.go: transactions, buckets, and the walks that prune them
--   Account, Job, Work            pool/account.go, pool/job.go, pool/acceptedwork.go
--   Share                         pool/share.go
--   Payment                       pool/payment.go
--   PaymentMgr                    pool/paymentmgr.go: Schemes for PPS and PPLNS, Eligible and
--                                 Dividends for the payouts
--   ChainState                    pool/chainstate.go: the handlers of connected and disconnected blocks;
--                                 Connected for the calls that the first one makes
--   Difficulty                    pool/difficulty.go, and the targets that pool/share.go computes:
--                                 new_difficulty_set is NewDifficultySet
--   Message                       pool/message.go: Requests, Responses and Notifications for the
--                                 constructors and parsers, Identify for IdentifyMessage
--   Solved                        pool/message.go and pool/client.go: the header of a job, and the one
--                                 that a submission solves
--   Client                        pool/client.go: the state of a session; Authorize, Subscribe and
--                                 Submit for the handlers, CurrentWork for updateWork, Process for the
--                                 dispatch of messages, Delivery for send, HashRate for hashMonitor
--   Endpoint                      pool/endpoint.go: the clients of a miner type; Steps for the turns of
--                                 its goroutines and others, Counts for the number of clients
--   Upgrades                      pool/upgrades.go, and InitDB (pool/db.go)
--   Map, RateLimiter              Go maps, and pool/limiter.go
--   Hub                           pool/hub.go: connections, new work, the secret, Clients for the lists
--                                 of clients, and Wiring for the payment manager's callbacks in the
--                                 chain state
--   Miner                         cmd/miner: Processing for the messages of the pool (client.go), Solver
--                                 for solveBlock and Submissions for what it finds (cpuminer.go)
--   Tests                         a small store and codecs that satisfy Bolt's and Json's laws, and
--                                 runs at concrete inputs
-- A child module holds what is shown of its parent's operations.
--
-- A Go function keeps its name in snake case, and a method gets its type in its name: `work.Update` is
-- `update_work`. `db.Update` is `update`: a function on the database that returns a value and the new
-- database, whose writes are kept only if it succeeds; `db.View` only reads. A nested bucket that the
-- code tests for nil is `fetch_bucket`; one that it does not test panics where it is not there. The
-- clock, the random index, the network, the wallet, floating point, bbolt and JSON are parameters:
-- Encoding and Wire (Message) hold what is used of encoding/json for values and for messages.
--
-- Heights are 32-bit words, amounts 64-bit words in two's complement, and both wrap around where the
-- code does. Nearly every loop runs over a list or down from an index, without fuel; the loop over the
-- bundles, which removes from the list it walks, runs on its index. The miner's search, which has no
-- bound of its own, runs over the list of the signals that its turns receive.
--
-- Not modelled: the failures of bbolt that come from the disk, the texts of errors, and locks, since
-- each operation is one step. A Go map is a list of pairs in the order in which the code walks it, and
-- what is shown holds for every such order; where two loops walk one map, the orders may differ. What a
-- cursor gives while a loop changes its bucket is a parameter of the upgrade. Reading lines from a connection, deadlines, listeners and
-- the start of goroutines are network I/O; a goroutine's turn is one step of a session. The hub's
-- connections to the wallet and the daemon, the web interface (gui), the configuration (config.go) and
-- the process's start are left out as glue, and of the CPU miner the monitor of its hash rate.
pub mod Prelude
pub mod Bytes
pub mod Text
pub mod Strings
pub mod Errors
pub mod Bolt
pub mod Map
pub mod Miner
pub mod Message
pub mod Ids
pub mod Int64
pub mod Rat
pub mod Json
pub mod Db
pub mod Account
pub mod Job
pub mod Work
pub mod Payment
pub mod Share
pub mod Exec
pub mod PaymentMgr
pub mod ChainState
pub mod Solved
pub mod RateLimiter
pub mod Difficulty
pub mod Client
pub mod Endpoint
pub mod Upgrades
pub mod Hub
pub mod Tests
