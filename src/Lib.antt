-- ===== src/Lib.antt =====
-- The cores of fork_agent: the registry of agent launches, the orchestration task board, the
-- authorization gate of tasks (FPEL), the polling service that runs agents for approved tasks, the
-- limiter of messages, the state of workflows, and the journal of changes with its export.
--
-- Parts.
--   * Launch/Entity.antt (src/domain/entities/agent_launch.py): the statuses of a launch, the
--     transition map, the record and the checks of its `__post_init__`, with the pattern of
--     canonical keys. Launch/Entity/Key.antt compares the pattern with a description of keys.
--   * Launch/Registry.antt (src/infrastructure/persistence/repositories/agent_launch_repository.py,
--     and the port in src/domain/ports): one function per repository method over the table, and the
--     port as a record of operations that `sqlite` fills. Registry/Unique.antt has the unique
--     constraints as an invariant, Registry/Advance.antt how one record may change.
--   * Launch/Service.antt (src/application/services/agent_launch_lifecycle_service.py): one function
--     per service method over any registry. Service/Follows.antt lifts a law of the registry's
--     operations to every method; Safety.antt applies this to all sequences of calls;
--     Answers.antt, Reserve.antt, Again.antt with Last.antt, Failures.antt, Reconcile.antt with
--     Quarantine.antt, and Lineage.antt are about single methods and two requests in a row.
--   * Task/Entity.antt (src/domain/entities/orchestration_task.py), Task/Repository.antt
--     (src/infrastructure/persistence/repositories/orchestration_task_repository.py) and
--     Task/Board.antt (src/application/services/task_board_service.py) are the task board.
--     Board/Outcome.antt, Board/Moves.antt, Board/Edit.antt and Board/Evolve.antt are about single calls,
--     Board/History.antt about sequences of them.
--   * Fpel/Entity.antt (src/domain/entities/fpel.py), Fpel/Hash.antt
--     (src/domain/services/fpel_content_hash.py), Fpel/Repository.antt
--     (src/infrastructure/persistence/repositories/fpel_repository.py) and Fpel/Service.antt
--     (src/application/services/fpel_authorization_service.py) are the gate. A method that branches
--     on what it read is a chain of functions, one for each read. Fpel/Gate.antt is about
--     `check_sealed` and joins it to the board's start, Fpel/Seal.antt, Fpel/Mismatch.antt and
--     Fpel/Stop.antt are about `seal` and `mark_fail`, Fpel/History.antt and Fpel/Safety.antt about
--     sequences of calls.
--   * Poll/Entity.antt (src/domain/entities/poll_run.py), Poll/Repository.antt
--     (src/infrastructure/persistence/repositories/poll_run_repository.py), Poll/Key.antt
--     (src/domain/services/canonical_key.py) and Poll/World.antt
--     (src/infrastructure/polling/poll_run_directory.py, and the state that a polling call works on)
--     are what the polling service of src/application/services/agent_polling_service.py stands on.
--     Poll/Key/Matches.antt compares the keys with the pattern of the launch entity.
--     Poll/Host.antt is the service object and its small steps, Poll/Stop.antt the methods that end
--     a run, Poll/Spawn.antt `_spawn_agent` and `_spawn_run`, Poll/Cycle.antt `poll_once` and
--     `check_runs`. Poll/Frame.antt says what a relation between worlds owes; Poll/Follows.antt,
--     Poll/Spawn/Follows.antt and Poll/Cycle/Follows.antt lift it to every method. Poll/History.antt
--     is sequences of calls, and its children say what they do to launches, tasks, places and runs,
--     with the laws of the repository in Poll/Repository/Unique.antt and Poll/Repository/Fate.antt.
--   * Messaging/RateLimiter.antt (src/application/services/messaging/rate_limiter.py) is the limiter of
--     messages, and RateLimiter/Window.antt what it promises.
--   * Workflow/Plan.antt, Workflow/Execute.antt and Workflow/Verify.antt are the three states of
--     src/application/services/workflow/state.py with their JSON forms, Workflow/Task.antt their
--     tasks, and Workflow/Entity.antt what a plan holds (src/domain/entities/goal.py,
--     user_decision.py and derived_requirement.py). Workflow/Json.antt is JSON and reading it; the
--     children of the states are about saving and loading.
--   * Sync/Repository.antt (src/infrastructure/persistence/repositories/sync_repository.py) is the
--     journal of changes, the recorded chunks and the status row, over the entities of
--     Sync/Entity.antt (src/domain/entities/sync.py). Sync/Export.antt is the incremental export of
--     src/application/services/sync/sync_service.py and its watermark. Export/Batches.antt is about
--     one export: the loop over the mutations takes as many rounds as there are mutations at most,
--     and each round writes one. Export/Delivery.antt is sequences of calls and what a caller
--     delivers; Kept.antt, Answers.antt and History.antt are about them.
--   * Prelude.antt passes on the names that all parts share: tests, lists, texts, the monad of
--     methods that raise, SQLite tables as lists, and relations between stores.
-- The service calls the registry and the board calls its repository through `Exec`: a method takes
-- the store and gives a result or an exception, with the store that it leaves. A call that raises
-- keeps what it wrote before.
--
-- State. A table is the list of its rows in the order of insertion. `find_key` is a SELECT by the
-- primary key, `update_where` an UPDATE, `order_by` an ORDER BY. The SQL statements are taken under
-- SQLite's documented meaning; the constraints come from the migrations
-- 023 to 025 and 027 to 036.
--
-- The polling service works on a world: the tables of runs, tasks and launches, the run directories,
-- the signals that were sent, and two sequences, of clock readings and of UUIDs, that are read in
-- order. A statement that stamps a row reads the clock at its start.
--
-- Arguments of the model: new UUIDs, clock readings (natural numbers of milliseconds), the panes
-- that tmux reports, for the board the FPEL port, and for hashing the JSON functions and SHA-256 of
-- Python. Hypotheses of the theorems say what they need of these, such as a new id.
--
-- Bounds. The lineage walk has room for MAX_LINEAGE_DEPTH links, as in the source; no other loop
-- runs on a count. The wait for a process that got SIGTERM is an argument: whether it outlives it.
--
-- Not modelled: messages of exceptions and logging; the front ends, tmux and git (I/O), whose
-- answers are arguments; files but for their content; the import of chunks and the full export; the
-- other services; two callers between the statements of one call. A method with one statement that
-- writes is one step; a method that writes twice is taken as a whole. The UUID of a launch is drawn
-- before the request, also where the request is suppressed before it needs one. An export gives its
-- chunks where the source gives their paths. JSON numbers are natural, and a JSON value of another
-- type than the declared one, which Python keeps unseen, raises when it is read.
pub mod Prelude
pub mod Launch
pub mod Task
pub mod Fpel
pub mod Poll
pub mod Messaging
pub mod Workflow
pub mod Sync
