-- ===== src/Lib.antt =====
-- A double-entry ledger service (Go). Clients call gRPC services, which call the planner
-- (internal/planner). The planner checks an operation, opens a PostgreSQL transaction, and in it
-- appends one event to the ledger's log and updates the tables: volume deltas, transactions,
-- accounts, holds, relationships, metadata history, schemas and idempotency keys. Events belong to
-- batches (internal/log/batch) whose Merkle roots (internal/log/merkle) make the log verifiable. A
-- policy (internal/policy) can deny an operation, and intents can need the approval of several
-- principals before they run.
--
-- The files:
--   Prelude     tests, lists, byte strings and integers over the native numbers.
--   Storage     the tables and their SQL statements with their constraints (internal/storage,
--               internal/storage/postgres, migrations). Storage.World is the state and the actions on
--               it: `begin_tx`, `commit`, `with_rollback` are Store.BeginTx, TxStore.Commit and the
--               deferred TxStore.Rollback; `exec` and `select` are statements.
--   Bigamount, Accounts, Assets     pkg/bigamount, pkg/accounts, pkg/assets.
--   Chart       the chart of accounts (internal/ir).
--   Policy      the policy evaluator (internal/policy).
--   Batches     the batch manager, in Batches.Merkle the Merkle tree and in Batches.Sweep the sweep over
--               expired batches; Overdue, Closing and Verified are about closing and verification.
--   Planner     the planner: Inputs and Validation; Events (the shared steps); Post, Convert, Holds,
--               Revert, Metadata (each `do...InTx` of operations_shared.go, as `do_..._in_tx`);
--               Hashing and Submit (`submitWithIdempotency`); Operations (each `Submit...`); Batch,
--               Approval, Expire, Policies.
--   Api         the gRPC services (internal/api/grpc): Status (codes, mapPlannerError), Auth (tokens
--               and interceptors), Wire (messages, classifyIntent), Intents and Nested (each
--               `handle...`), Service (the other writing methods), Queries (the reading methods),
--               Transfer (Export and Import), Ratelimit, and Server (requests, one after the other).
--   Subscriptions     internal/subscriptions.
--   Sdk         the checks, the intents and the list of holds of the client (pkg/sdk), against the server.
--   Config      the validation of settings and the .env file (internal/config), and the limiter made of
--               them (cmd/server).
--   System      the operations as commands, and sequences of commands.
--   Safety      what every operation preserves: Rules and Hoare have one rule for each way to build
--               an action, Frame the interface of an invariant, Cores to Sequences the operations,
--               and Balance and Gapless two invariants. Rpc, Handlers, Serving, Yields, Imports and
--               Served do the same for the methods of the services.
--   Tenancy, Throttling, Paging     the scope of tokens, the limits of the limiter, and what a client
--               gets that follows the tokens of pages, Export and Subscribe among them.
--   Atomicity, Replays, Sealing, Approvals, Framing, Conversions, Erasure     properties of the write
--               path, of known keys, of sealed ledgers, of approvals, of the bytes that are hashed, of
--               conversions and of the deletion of metadata; Batches.Roots one of the Merkle tree.
--   Tests       concrete runs.
--
-- How the model stands to the code:
--   * An action is a function from the state to a result and a state. Every call to the database or
--     to Redis takes one entry of a list of faults, which makes it go through or fail, so a statement
--     about every state is one about every pattern of failures. A failed statement aborts the
--     transaction as PostgreSQL does: it refuses what follows, and its commit is a rollback. A call
--     that fails has no effect, but for a commit that fails with `lost`: its answer is lost, and what
--     it was to commit is committed. The code does not tell `lost` from another failure.
--   * Rows of log_batches are written outside the transactions and stay behind a rollback; they are
--     World.batches, and not among the `Tables`.
--   * Transactions run one after the other. Concurrency shows only in the errors that it causes,
--     deadlocks and conflicts, which are faults.
--   * The Go library and third-party packages are the fields of the record Host: SHA-256, formats of
--     times, the JSON encoder and reader, base64, regular expressions, the test for a float.
--   * Identifiers come from a stream of ULIDs in the state, times from a clock that waiting advances
--     by the least time waited. Texts are lists of bytes.
--   * A Go map is a list in some order. The payload of an event is kept as a value, not as JSON.
--   * The retries of a deadlock and of a close are bounded in the code, and are so here. The Merkle
--     tree takes as many rounds of fuel as there are leaves, and each round halves them. The sweep
--     over expired holds takes its number of pages as fuel.
--
--   * A handler of the services is an action that never fails: its outcome is an answer or a code. The
--     text of a status is left out, but for the reason of a policy denial, which the log keeps. The
--     loops of Export and of a replay over the pages take a number of pages as fuel; one more than
--     there are events is enough, since every page but the last takes away at least one.
--   * Page sizes, enum values and durations on the wire are taken not to be negative.
--
-- Not modelled: transport and the REST gateway, commands, generated code, the precedence of
-- flags and variables, the calls of the client over the network, the volume checkpoints, relationships deeper than one, the aggregated balances of the service.
pub mod Prelude
pub mod Storage
pub mod Accounts
pub mod Assets
pub mod Bigamount
pub mod Chart
pub mod Policy
pub mod Batches
pub mod Planner
pub mod Api
pub mod System
pub mod Subscriptions
pub mod Tenancy
pub mod Paging
pub mod Throttling
pub mod Sdk
pub mod Config
pub mod Safety
pub mod Atomicity
pub mod Erasure
pub mod Replays
pub mod Sealing
pub mod Approvals
pub mod Framing
pub mod Conversions
pub mod Tests
