-- ===== src/Poll/Stop.antt =====
-- The methods of the polling service that end a run: `_terminate_spawned_agent`,
-- `_finalize_launch`, `_complete_run`, `_fail_run` and `cancel_run`.
use fork_agent.Prelude.{
  ℕ, String, Bool, false, ◌&&◌, Option, none, some, List, [], ◌∷◌, if◌then◌else◌, is_empty, str_eq,
  Exec, value_error, pure, raise, ◌>>=◌, ◌>>◌,
}
use fork_agent.Launch.Entity.{AgentLaunch}
use fork_agent.Launch.Registry.{sqlite, get_by_launch_id, find_active_by_canonical_key}
use fork_agent.Launch.Service.{mark_failed, begin_termination, confirm_terminated}
use fork_agent.Task.Board.{complete, retry}
use fork_agent.Poll.Entity.{
  queued, spawning, running, terminating, quarantined, completed, failed, cancelled, is_in, PollRun,
  can_transition_to,
}
use fork_agent.Poll.Repository.{LaunchHandle}
use fork_agent.Poll.World.{
  World, on_tasks, on_launches, Event, EventValue, text, number, read_events, suppressed, swallowed,
}
use fork_agent.Poll.Host.{
  Service, Host, stamped, get_run, update_run, require_run, note, is_given, or_none,
  terminate_launch_handle,
}

abbrev pub tmux_handle : String → LaunchHandle
tmux_handle pane_id = record { method = "tmux"; pane_id = some pane_id; pid = none; pgid = none }

abbrev pub subprocess_handle : ℕ → Option ℕ → LaunchHandle
subprocess_handle pid pgid = record {
  method = "subprocess";
  pane_id = none;
  pid = some pid;
  pgid = pgid;
}

abbrev pub subprocess_of : Option ℕ → Option ℕ → Option LaunchHandle
subprocess_of none pgid = none
subprocess_of (some pid) pgid = some (subprocess_handle pid pgid)

abbrev pub is_method : Option String → String → Bool
is_method none m = false
is_method (some n) m = str_eq n m

unfoldable pub launch_handle_from_run : PollRun → Option LaunchHandle
launch_handle_from_run run =
    if is_method run.launch_method "tmux" && is_given run.launch_pane_id
    then some (tmux_handle (or_none run.launch_pane_id))
    else if is_method run.launch_method "subprocess"
    then subprocess_of run.launch_pid run.launch_pgid
    else none

-- `pgid if isinstance(pgid, int) else None`
abbrev pub number_or_none : Option EventValue → Option ℕ
number_or_none (some (number n)) = some n
number_or_none v = none

-- `int(pgid) if isinstance(pgid, str) and pgid.isdigit() else None`
abbrev pub digits_or_none : Host → Option EventValue → Option ℕ
digits_or_none h (some (text s)) = h.digits s
digits_or_none h v = none

-- The process of an event.
unfoldable pub process_of_event : Host → Option EventValue → Option EventValue → Option LaunchHandle
process_of_event h (some (number pid)) pgid = some (subprocess_handle pid (number_or_none pgid))
process_of_event h (some (text pid)) pgid = subprocess_of (h.digits pid) (digits_or_none h pgid)
process_of_event h pid pgid = none

-- The pane of an event.
abbrev pub pane_of_event : Option EventValue → String
pane_of_event (some (text s)) = s
pane_of_event v = ""

unfoldable pub handle_of_event : Host → Event → Option LaunchHandle
handle_of_event h e =
    if is_empty (pane_of_event e.pane_id)
    then process_of_event h e.pid e.pgid
    else some (tmux_handle (pane_of_event e.pane_id))

-- The last event with type agent_spawned.
unfoldable pub last_spawned : List Event → Option Event
last_spawned [] = none
last_spawned (e ∷ es) = elim (last_spawned es) [
  | some found ↦ some found
  | none ↦ if str_eq e.type "agent_spawned" then some e else none
]

unfoldable pub handle_of_events : Host → List Event → Option LaunchHandle
handle_of_events h events = elim (last_spawned events) [
  | none ↦ none
  | some e ↦ handle_of_event h e
]

unfoldable pub terminate_if : Host → Option LaunchHandle → Exec World (Unit {0})
terminate_if h none = pure tt
terminate_if h (some handle) = terminate_launch_handle h handle

-- The status that the run takes before its agent is terminated.
unfoldable pub settle : String → Option PollRun → Exec World (Unit {0})
settle id none = pure tt
settle id (some run) =
    if is_in run.status (running ∷ spawning ∷ [])
    then update_run id terminating none
    else if is_in run.status (queued ∷ quarantined ∷ [])
    then update_run id cancelled none
    else pure tt

-- `launch_handle_from_run`, where there is a row.
abbrev pub handle_of_found : Option PollRun → Option LaunchHandle
handle_of_found none = none
handle_of_found (some run) = launch_handle_from_run run

-- The handle is the row's, or that of the events.
unfoldable pub terminate_found : Host → String → Option LaunchHandle → Exec World (Unit {0})
terminate_found h id (some handle) = terminate_launch_handle h handle
terminate_found h id none = do events ← read_events id; terminate_if h (handle_of_events h events)

unfoldable pub terminate_spawned_agent : Host → String → Exec World (Unit {0})
terminate_spawned_agent h id = do
  run ← get_run id
  settle id run
  terminate_found h id (handle_of_found run)

-- `get_launch` of the run's launch id, if it has one.
unfoldable pub linked_launch : Option String → Exec World (Option AgentLaunch)
linked_launch none = pure none
linked_launch (some launch_id) = on_launches (get_by_launch_id launch_id)

-- The fallback on the canonical key.
unfoldable pub keyed_launch : Option AgentLaunch → Option String → Exec World (Option AgentLaunch)
keyed_launch (some launch) key = pure (some launch)
keyed_launch none none = pure none
keyed_launch none (some key) = on_launches (find_active_by_canonical_key key)

unfoldable pub fail_launch : String → String → Exec World Bool
fail_launch launch_id message =
    stamped λ now. on_launches (mark_failed sqlite launch_id message now)

unfoldable pub end_launch : String → Exec World Bool
end_launch launch_id = do
  stamped (λ now. on_launches (begin_termination sqlite launch_id now))
  stamped (λ now. on_launches (confirm_terminated sqlite launch_id now))

-- `error or "run failed"`
abbrev pub or_run_failed : String → String
or_run_failed s = if is_empty s then "run failed" else s

-- `failure` is the error of a failed run, None for a completed one.
unfoldable pub finish_launch : Option String → Option AgentLaunch → Exec World Bool
finish_launch failure none = pure false
finish_launch none (some launch) = end_launch launch.launch_id
finish_launch (some message) (some launch) = fail_launch launch.launch_id (or_run_failed message)

-- The body of the `try`.
unfoldable pub try_finalize : Option String → PollRun → Exec World Bool
try_finalize failure run = do
  linked ← linked_launch run.launch_id
  launch ← keyed_launch linked run.canonical_key
  finish_launch failure launch

unfoldable pub finalize_launch : Service → Option String → PollRun → Exec World (Unit {0})
finalize_launch s failure run = elim s.lifecycle [
  | none ↦ pure tt
  | some duration ↦ swallowed (try_finalize failure run)
]

unfoldable pub finalize_if : Service → Option String → Option PollRun → Exec World (Unit {0})
finalize_if s failure none = pure tt
finalize_if s failure (some run) = finalize_launch s failure run

unfoldable pub complete_task : String → Exec World (Unit {0})
complete_task task_id = suppressed (stamped λ now. on_tasks (complete task_id none now))

unfoldable pub retry_task : String → Exec World (Unit {0})
retry_task task_id = suppressed (on_tasks (retry task_id))

unfoldable pub complete_run : Service → Host → String → String → Exec World (Unit {0})
complete_run s h id task_id = do
  terminate_spawned_agent h id
  complete_task task_id
  update_run id completed none
  run ← get_run id
  finalize_if s none run
  note id "completed"

-- `if run is not None and run.task_id: …`
unfoldable pub retry_of : Option PollRun → Exec World (Unit {0})
retry_of none = pure tt
retry_of (some run) = if is_empty run.task_id then pure tt else retry_task run.task_id

unfoldable pub fail_run : Service → Host → String → String → Exec World (Unit {0})
fail_run s h id error = do
  run ← get_run id
  terminate_spawned_agent h id
  update_run id failed (some error)
  finalize_if s (some error) run
  note id "failed"
  retry_of run

-- From the tests of `cancel_run` on.
unfoldable pub cancel_found : Host → String → PollRun → Exec World PollRun
cancel_found h id run = do
  update_run id cancelled none
  note id "cancelled"
  terminate_spawned_agent h id
  retry_of (some run)
  require_run id

unfoldable pub cancel_if : Host → String → PollRun → Exec World PollRun
cancel_if h id run =
    if can_transition_to run cancelled then cancel_found h id run else raise value_error

unfoldable pub cancel_run : Host → String → Exec World PollRun
cancel_run h id = do run ← require_run id; cancel_if h id run
