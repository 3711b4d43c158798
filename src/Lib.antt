-- ===== src/Lib.antt =====
-- Verification of ruk, which keeps a pool of Git worktrees ("workspaces") for coding agents: an
-- agent acquires a workspace under a lease, heartbeats keep the lease alive, a release returns the
-- workspace to the pool, and a garbage collection removes what is stale.
--
-- The program keeps one durable document, internal/state, which every command changes inside one
-- transaction, Store.Update: it reads and validates the document, runs a mutation, validates the
-- result, and writes it. internal/lifecycle holds the mutations: each is an operation on the state
-- of that document, fenced by identifiers and stamps that its caller read before. The commands of
-- internal/cli and the acquire and collection services of internal/lifecycle call these operations
-- around work on Git, on processes and on dependencies.
--
-- State holds the records of internal/state/types.go. State/Valid and State/Uuid are the tests of
-- internal/state/decode.go on one record, State/Document those on a whole document, and `update` is
-- Store.Update of internal/state/store.go, over the state that the text of the file decodes to;
-- since it tests the state in memory, it refuses an empty command that is not nil, which the JSON
-- text would drop. A map is an association list; a pointer that may be nil is an Option.
--
-- Lifecycle holds internal/lifecycle, with a module for each file of it: Preparation
-- (preparation.go), Assignment (assignment.go), Renewal (renewal.go), Activity (activity.go),
-- Return (return.go), Collection (collection.go), Process (process.go and retained_process.go), Gc
-- (gc.go). Clock holds the instants and Records how an operation finds its workspace. An operation
-- is a function of the clock, of the identifiers that newID returns, of the arguments of the Go
-- method, and of the state; it gives the new state and the record that the method returns, or an
-- error of Errors. Below each stands its transition, a function of one record. Lifecycle/Step joins
-- twenty operations in one step relation, with reachability from the empty state. Lifecycle/Keeps
-- holds, module by module, the proofs on what the transitions keep of a valid document under the
-- conditions of Step; Lifecycle/Reservation, Frames, Eligibility and Retries hold the theorems on
-- the choice of a workspace, on deletion, on the plan of a garbage collection and on operations in
-- a row.
--
-- Services holds internal/lifecycle/release_service.go. An effect maps a world, which is the
-- document and whatever is outside of it, to a result or a Failure and the world that it leaves;
-- Services/Effects has the calls that the service makes outside of the state as the record Seams,
-- DirectoryLocker.With (internal/lock/lock.go) and the transaction of Store.Update over them. Any
-- of these calls may fail and may leave another document, as other processes do. Services/Keeps,
-- Triples and Gives hold the rules by which the theorems on a release are composed: what it keeps,
-- what it leaves by its result, and what it returns. A context that is cancelled is a call that
-- fails. The loop of waitForProcessDrain runs on fuel, one round for each poll interval of the
-- timeout and two more: every round but the last waits for an interval, and the wait that begins
-- after the deadline is the last. What this takes of the clock and the timers is the record Timely
-- of Services/Release/Drain; there the deadline wins where Go's select, finding the timer ready
-- too, picks one of the two at random.
--
-- Descendants is DescendantInspector.Exists of internal/process/descendants.go; its outer loop runs
-- on fuel, one round more than there are processes in the snapshot, since every round but the last
-- adds one of them. Descendants/Links is descendantsCreatedAfterParents of that file; each round of
-- its walk takes one process from the queue, which each process enters once, and the fuel is two
-- rounds more than there are entries. Ports is internal/ports/ports.go and, in Ports/Allocation,
-- internal/ports/allocation.go: names, their environment, the search for a free port over a
-- listener that is a parameter, and the transaction of Allocate over a finder and a reservation
-- session. Versions is internal/update/version.go, over lists of bytes; Versions/Print writes the
-- digits of a number on fuel, which is the number itself, since each round divides it by ten.
--
-- TailBuffer is internal/process/tail_buffer.go. Examples holds a platform that keeps the promises
-- of Platform.IsLawful, and runs of the operations.
--
-- Platform holds what the program takes from Go's library, as parameters: path resolution, SHA-256,
-- time.Parse and Format, and the arithmetic of float64, whose values are bit patterns. Its record
-- IsLawful states what the library documents of them, for the instants before year 10000, which the
-- four digits of the program's timestamps can show. Instants are natural numbers of nanoseconds,
-- and the steps say where an instant has to lie before that year. They count from year 1, so the
-- texts of year 0, which Go reads too, are none. A Duration is capped as Go caps it (the lease of
-- recordActivity that overflows at the exact bound, which Go makes negative, is 0 here), and the
-- metrics wrap around as an int64 does. But for the loops on fuel above, every loop of the modelled
-- code is structural recursion here. Go ranges over a map in no fixed order: the first entry that
-- fits stands for the one that it finds, and Lifecycle/Lookup compares the two.
--
-- Not modelled: the acquire, warm and collection services of internal/lifecycle; the owner files of
-- internal/lock and the registry of internal/ports; internal/worktrees, internal/config and
-- internal/dependencies. Left out: JSON text and files, the formats of errors, the cli, the
-- dashboard, statistics, distribution, atomicfile, and the packaging in npm and scripts, which are
-- input and output or other languages.
pub mod Prelude
pub mod Platform
pub mod Services
pub mod State
pub mod Errors
pub mod Lifecycle
pub mod TailBuffer
pub mod Examples
pub mod Descendants
pub mod Ports
pub mod Versions
