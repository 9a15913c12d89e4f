-- ===== src/Lib.antt =====
-- The domain of the repository's Go program: development environments in the cloud, whose virtual
-- machines (Runtimes) are started, stopped and replaced by long-running operations, stopped when
-- nobody uses them, and kept up to date by upgrade policies.
--
-- The aggregates of libs/domain hold the program's own rules. The control plane and the workflows
-- load an aggregate, call one operation and store the result; each operation returns a new
-- aggregate or an error. An Environment has at most one current Runtime, and it takes over Runtimes
-- by attaching, detaching and replacing them. An Operation records a requested command and the
-- Restate invocation that carries it out. A creation puts an Environment, its Auto-stop Policy and
-- its Operation together. A Runtime command pairs an Operation with an Environment and its Runtime.
-- The auto-stop object of an Environment starts a timer when a snapshot of the activity qualifies and
-- requests the stop of the Runtime when one still qualifies at the timer's end.
-- The credits that a user has are a balance of idempotent transactions, priced by exact rates.
--
-- Files:
--   Base              what the files share: errors and results, int64, time, texts, lists
--   Samples           the data of the tests
--   Runtime           libs/domain/runtime.go. Status: the statuses; Snapshot: the state, its
--                     validation, ReserveRuntime and RestoreRuntime; Operations: Provision to Retire.
--                     WellFormed: what the validation accepts; Steps: when each call is admitted, the
--                     fields that it sets, and when it repeats; Cases: every call does one of these;
--                     Invariant: the status diagram and reachability; Progress: which calls must
--                     succeed; Late: calls that change nothing
--   Environment       libs/domain/environment.go, files as those of Runtime. Runtimes: attaching,
--                     detaching and replacing; Deletion: that it can be deleted; Results: what
--                     a creation needs of the calls
--   Operation         libs/domain/operation.go
--   Creation          the type EnvironmentCreation of libs/domain/environment.go
--   RuntimeOperation  libs/domain/environment_runtime_operation.go
--   AutoStop          Policy: libs/domain/autostop.go; Qualifies: when a stop qualifies. Coordinator:
--                     apps/workflows/auto_stop_coordinator.go; Object: the handlers of auto_stop.go
--                     over it, one constructor of Message each. Outcomes: what the coordinator
--                     answers; Timers, Invariant: what a pending timer stands on; Stops: when a stop
--                     is requested; Once, Runs: generations and keys along runs; Suppressed: the
--                     suppressed Runtime
--   Profile           libs/domain/profile.go. Model: the data and the operations; Refs: which Capsule
--                     Refs are valid; Versions: numbers and parents; Accepts: which
--                     versions are published and restored; Heads: stale heads
--   Poll              apps/workflows/durable_deadline_poll.go. Model: the poll; Terminates, Ends: that
--                     it returns
--   Reconcile         libs/domain/reconciliation.go. Model: the comparison; Keys: the identities that
--                     it goes through; Steady: when nothing diverges
--   State             libs/domain/environment_state.go. Model: the data and RestoreEnvironmentState;
--                     Reserve: ReserveEnvironmentState; Exact, Restore: what is restored
--   Upgrade           libs/domain/upgrade_policy.go
--   Component         libs/domain/component.go. Model: the data and the validation; Accepts: what
--                     passes it
--   Billing           libs/billing/rate.go (Rate) and libs/billing/ledger.go (Transaction, Balance).
--                     Ledger: what a balance is made of; Accepts: which transactions a balance takes;
--                     Exact: what a usage costs
--   Capsule           the data types of libs/domain/capsule_lock.go
--
-- State and operations: a struct is a record with the source's fields in snake case, a string with a
-- set of constants is a data type whose last constructor holds any other text, a pointer is an
-- Option, and a method that returns a struct and an error is a function into Result. An error is a
-- message with its arguments, or a wrapped error. Every operation of an aggregate is a constructor of
-- a type of calls (RuntimeCall, EnvironmentCall, OperationCall), so that theorems on all operations,
-- and on sequences of calls, are stated once.
--
-- The object's handlers are messages to a state; what the store answers after polling, and what became
-- of a dispatch, are part of the message. A uint64 wraps round at 2^64.
--
-- Bounds: int64 is ℤ; the increment wraps round at 2^63 - 1, and the sum of a balance wraps round at
-- both ends, which the guards before it are proved to prevent. A *big.Rat is a fraction of natural
-- numbers, since the decimals that are parsed have no sign. A map is the list of its entries. A time is
-- an instant, in nanoseconds from Go's zero time, with a mark for the canonical form that
-- `Round(0).UTC()` gives. Recursion is structural, but for the loop of the poll, which
-- has a number of turns as fuel: it is proved to return when the fuel is the number of nanoseconds
-- up to the deadline and two more.
--
-- Texts: strings.TrimSpace, the test of private IPv4 addresses of net/netip and the regular
-- expression of digests are written out over code points; the pattern of registry references is
-- matched by derivatives (Base.Regex); the addresses accepted are those in four decimal fields.
--
-- Parameters: json.Valid, and json.Unmarshal into a map, in State; they are any tests of bytes.
-- In Poll the clock, restate.Sleep, the reader and the two callbacks are functions on worlds; the
-- theorem on it assumes that the clock does not go back and that a sleep lasts.
--
-- Not modelled: the copies that Snapshot makes of pointers and slices, which values cannot share; the
-- texts that fmt.Errorf prints; storage, HTTP, the workflow engine, cloud and guest code, and the
-- remaining files of libs/domain; the digest of a Profile version.
pub mod AutoStop
pub mod Base
pub mod Billing
pub mod Capsule
pub mod Component
pub mod Creation
pub mod Environment
pub mod Operation
pub mod Poll
pub mod Profile
pub mod Reconcile
pub mod Runtime
pub mod RuntimeOperation
pub mod Samples
pub mod State
pub mod Upgrade
