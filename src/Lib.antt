-- ===== src/Lib.antt =====
-- Verification of wavicle, a Redis-compatible cache that proves its answers fresh.
--
-- A client's commands are read and guarded by the connection loop of internal/protocol/resp3, which
-- asks internal/auth for permission. The commands read and write a store of atoms (internal/core,
-- internal/storage); answers are proofs kept in internal/engine's cache, and valid as long as the
-- version vector of their atoms is. internal/fidelity says which mode a query may ask for.
--
--   Prelude          Go's strings (lists of bytes), slices, maps (association lists), container/list,
--                    errors and the decimal text of numbers (Numbers)
--   Core             internal/core/types.go: values, expressions and atoms, their serialised forms
--   Fidelity         internal/fidelity/policy.go: rules with glob patterns, EnforcePolicy
--   Auth             internal/auth/acl.go: users, Authorize, Authenticate, AddUser
--   Auth.AclFile     internal/auth/aclfile.go: LoadACLFile and parseACLLine
--   Engine           internal/engine: cache.go (ProofCache), extractField and applyCombinator of
--                    incremental.go (Combinators), and the proofs themselves (Proof): nodes as a heap,
--                    reduceDirty (Proof.Reduce), compose.go (Proof.Compose), ReduceIncremental
--                    (Proof.Incremental); sqlparser.go (Sql)
--   Cluster          internal/cluster/hashring.go (HashRing)
--   Replication      internal/replication/slotmon.go (SlotMonitor), with the stale guard of
--                    internal/protocol/resp3/server.go that reads its state (SlotMonitor.Guard)
--   Storage          internal/storage/merkle.go with internal/engine/version_vector.go (Merkle), and
--                    internal/storage/frontier_cache.go (FrontierCache); the interface of
--                    internal/storage/adapter.go by which the engine takes a store (Store);
--                    internal/storage/wal.go (Wal); internal/storage/crystal.go with the maps of
--                    frontier.go and parent_index.go (Crystal)
--   Server           internal/protocol/resp3/server.go: handleConnection (Connection), readCommand
--                    (Reader), the state and the index of key types (State), HandleCommand: the
--                    commands on strings (Commands), on many keys, hash fields and expiry
--                    (Commands.Mass), and the switch over the names (Commands.Dispatch)
--   Server.Extended  internal/protocol/resp3/extended.go: HandleExtended, with counters and strings
--                    (Strings), Lists, Sets, SortedSets, Hashes, Streams, and keys and expiry (Keys);
--                    what they share is in Server.Values
--   Server.Steps     the steps that a command may take: looks at keys, appends, changes of the index
--   Tests            the theorems on concrete data
--
-- A struct is a record, a method is a function that returns the new state, a map is an association
-- list whose order stands for the order of a `range`, and a *list.Element is an address that is never
-- used twice. Methods that hold a lock are single steps; the sweep of FrontierCache is two, and its
-- theorem takes any snapshot. Numbers are natural: sizes do not get near 2^63, and the
-- subtractions of sizes are shown to take off what was counted. A time is a count of nanoseconds with 0
-- for the zero time, and the clock's reading is an argument.
--
-- SHA-256, SHA3-256, xxHash64, the formatting of floats and the products with 0.90 and 0.80 are parameters.
-- The Merkle functions run on fuel: more than the number of leaves is enough. The eviction loop runs
-- on the length of the list, and each round removes an element. The proofs' recursions run on fuel
-- for the depth of the nodes, which a cycle of compositions makes infinite, and applyCombinator on
-- fuel for its calls; to be out of fuel is an error of its own, `unfinished`. The engine is taken over
-- a store that is not a WriteThroughStore, and one operation reads the clock once.
--
-- HandleCommand takes as parameters the text that fmt makes of a value, what GET does first with an
-- SQL query, and HandleExtended, which handle_extended of Server.Extended models; Connection takes
-- HandleCommand itself as one. A nil pointer that is followed, or a run out of fuel, is the error
-- `crashed`. A *MaterializedProof is an index into the server's list of proofs.
--
-- A handler of HandleExtended always replies: an early return is the error of an Action, and a reply
-- all the same. A float64 is its 64 bits; FormatFloat, ParseFloat, the comparisons and fmt.Sprint are
-- the fields of Runtime. sort.Slice and sort.Strings are insertion. Slices and maps are values: that
-- SREM and ZREM delete from the stored map itself, and that an append may write into an array which
-- an older slice shares, is left out.
--
-- The files of the write-ahead log are their bytes: each system call is a step that may fail, and a
-- crash leaves the files as they are between two steps. json.Marshal and json.Unmarshal are two
-- parameters, related by hypotheses on the atoms at hand. Removing and closing a file do not fail. In
-- Crystal the clock, the nonce and the order in which a sync.Map is ranged over are arguments or the
-- order of the list; Compact and AppendAtom are single steps.
--
-- Not modelled: sockets, the encoding of JSON, metrics, goroutine scheduling between locked sections,
-- the databases and their streams, configuration, and the command-line programs.
pub mod Prelude
pub mod Core
pub mod Fidelity
pub mod Auth
pub mod Engine
pub mod Cluster
pub mod Replication
pub mod Storage
pub mod Server
mod Tests
