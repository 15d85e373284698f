-- ===== src/Lib.antt =====
-- file-guard: who may open a guarded credential file, and what is kept of it.
--
-- The daemon mounts a filesystem over each guarded file. An open asks the policy engine, which
-- looks up persistent rules and session grants and may prompt the user; reads and writes go through
-- handles that an open registered; each write is committed to the backing store as the successor of
-- a snapshot record, which the store validates. The repository's sources lie under src/.
--
--   Prelude         what the parts share: Boolean tests, an interface for equality, lists over the
--                   native numbers, Rust's Result with do blocks
--   Files           paths as bytes: absolute_lexical of src/secure_file.rs, and expand_path and
--                   expand_file_path of src/config_runtime.rs
--   Process         ProcessInfo and is_interpreter of src/process/identify.rs
--   Prompt          the choices of src/prompt/types.rs, and which one src/prompt/client.rs makes of
--                   an answer
--   Policy/Rule     src/policy/rule.rs
--   Policy/Session  src/policy/session.rs: the session grants
--   Policy/Entry    the preparation of a rule in src/policy/engine.rs
--   Policy/Repository, Policy/Repository/Memory   the interface of src/rule_store.rs with its laws,
--                   and its in-memory store, which keeps them
--   Policy/Manager  RuleManager of src/policy/engine.rs, over any repository
--   Policy/Engine   PolicyEngine of src/policy/engine.rs
--   Record          the records of src/store/mod.rs; Record/Checks, Record/Structure,
--                   Record/Snapshot and Record/Transition are src/store/record.rs
--   Record/Edges, Record/Successor, Record/History   the state machine of a record and its histories
--   Store           src/store/sqlite.rs: Store/Rows and Store/Sqlite are the rows and the operations,
--                   Store/Statements what they rely on of SQLite, and the others the proofs
--   Transaction     src/transaction.rs: Transaction/System is what it works on, and Validation,
--                   Install, Finalization, Restore, Cleanup and Operations are its methods;
--                   Transaction/Safety goes through them with an invariant of the store,
--                   Transaction/Refusals and Transaction/Unmount are about single behaviours, and
--                   Transaction/Stored puts mounted writes over the operations of Store/Sqlite
--   Control         the connections of src/control_api.rs, and the lines of src/prompt/protocol.rs
--   Fuse/Commit     update_contents of src/transaction.rs, over a backing store
--   Fuse/Content, Fuse/Shared, Fuse/Mount   src/fuse_fs/credential_fs.rs: byte ranges, the state that
--                   handlers share, and the handlers
--   Tests           concrete runs
--
-- State is passed explicitly: an operation returns its result and the state after it. Errors are
-- values of Result, in the order in which the source finds them; texts of messages are shortened. A
-- mutex makes an operation one step. A handler that asks the policy runs as a task of its own, so
-- its two halves are two steps, between which other requests are served, and the engine and the
-- store may change: Fuse/Mount/Runs is the relation of all such runs, with a log of what happened
-- to the handles. The prompt gives the engine as it is when the answer comes.
--
-- Numbers are natural numbers; a revision and the handle counter wrap around at 2 ^ 64 and the
-- length that a write reports at 2 ^ 32, as in a release build. usize has 64 bits. Loops
-- are structural recursion, but for two of the transaction manager, which repeat until the store
-- allows them to return: they run on fuel, and Transaction/Unmount says how much is enough for the
-- one of begin_unmount.
--
-- Inputs, not modelled: the kernel, /proc, the clock, the working directory and home of the daemon,
-- the hash of a file, the exchange with the prompt agent, SHA-256 and hexadecimal coding. The
-- directory calls of src/secure_file.rs and the statements of SQLite are interfaces, a call of which
-- may fail and change its state in any way that is not excluded by a named hypothesis. Also not
-- modelled: the SQLite store of rules, the opening of a database, mount start and stop, the
-- client of the control socket and the prompt server. Log lines, times in file attributes and user interface
-- are left out.
pub mod Prelude
pub mod Files
pub mod Process
pub mod Prompt
pub mod Policy
pub mod Record
pub mod Fuse
pub mod Control
pub mod Store
pub mod Transaction
pub mod Tests
