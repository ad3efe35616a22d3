-- ===== src/Poll/Spawn.antt =====
-- `_spawn_agent` and `_spawn_run` of the polling service. A method that goes on with what it read is
-- a chain of functions.
pub mod Follows
use fork_agent.Prelude.{
  ℕ, zero, suc, String, Bool, true, false, Option, none, some, if◌then◌else◌, is_empty, str_eq, any,
  Exec, Exn, Result, ok, err, task_transition_error, pure, ◌>>=◌, ◌>>◌,
}
use fork_agent.Launch.Entity.{AgentLaunch, reason_text}
use fork_agent.Launch.Registry.{sqlite}
use fork_agent.Launch.Service.{
  Request, Handle, LaunchAttempt, claimed, suppressed, error, request_launch, confirm_spawning,
  confirm_active, quarantine,
}
use fork_agent.Task.Entity.{OrchestrationTask}
use fork_agent.Task.Board.{start}
use fork_agent.Poll.Key.{strip, build_task_key}
use fork_agent.Poll.Entity.{
  queued, spawning, running, quarantined, failed, cancelled, PollRun, construct,
}
use fork_agent.Poll.Repository.{LaunchHandle, record_launch_metadata}
use fork_agent.Poll.World.{
  World, RunStatus, Event, EventValue, text, number, on_runs, on_tasks, on_launches, save_run,
  now_ms, new_uuid, is_dir, create_run_dir, write_status, append_event,
}
use fork_agent.Poll.Host.{
  Service, Host, poll_agent_owner, lifted, stamped, get_run, update_run, require_run, note, plain,
  is_given, or_none, terminate_launch_handle,
}
use fork_agent.Poll.Stop.{tmux_handle, subprocess_handle, fail_launch}

-- The pane that tmux printed, if it printed one.
abbrev pub pane_of_output : Option String → Option LaunchHandle
pane_of_output none = none
pane_of_output (some output) =
    if is_empty (strip output) then none else some (tmux_handle (strip output))

unfoldable pub tmux_spawn : Host → String → Option LaunchHandle
tmux_spawn h id = if h.in_tmux then pane_of_output (h.split_window id) else none

abbrev pub in_group : ℕ → Option ℕ → Option LaunchHandle
in_group pid none = none
in_group pid (some pgid) = some (subprocess_handle pid (some pgid))

-- The background process. One whose group is not found is killed by `proc.kill`, which the model
-- leaves out: it is gone already.
unfoldable pub subprocess_spawn : Host → String → Option LaunchHandle
subprocess_spawn h id = elim (h.popen id) [ none ↦ none | some pid ↦ in_group pid (h.getpgid pid) ]

unfoldable pub spawn_process : Service → Host → String → Option LaunchHandle → Option LaunchHandle
spawn_process s h id (some handle) = some handle
spawn_process s h id none = if s.allow_subprocess_fallback then subprocess_spawn h id else none

unfoldable pub spawn_agent : Service → Host → PollRun → Exec World (Option LaunchHandle)
spawn_agent s h run w =
    if any (is_dir run.id) w.dirs
    then (ok (spawn_process s h run.id (tmux_spawn h run.id)), w)
    else (ok none, w)

-- A call of the lifecycle service about the launch that was claimed, if one was.
unfoldable pub when_launched : Option String → (String → Exec World Bool) → Exec World (Unit {0})
when_launched none call = pure tt
when_launched (some launch_id) call = call launch_id >> pure tt

-- What the lifecycle service says: the launch id to go on with, or the text of a denial.
pub data Slot : Type 0 where
  denied : String → Slot
  granted : Option String → Slot

abbrev pub task_request : String → Request
task_request task_id = record {
  canonical_key = build_task_key task_id;
  surface = "polling";
  owner_type = "task";
  owner_id = task_id;
  role = none;
  parent_launch_id = none;
  model = none;
}

unfoldable pub claim_launch : ℕ → String → Exec World LaunchAttempt
claim_launch duration task_id = do
  launch_id ← new_uuid
  tested_at ← now_ms
  leased_at ← now_ms
  stamped λ stamped_at. on_launches (
      request_launch sqlite duration (task_request task_id) (record {
        launch_id = launch_id;
        tested_at = tested_at;
        leased_at = leased_at;
        stamped_at = stamped_at;
      }))

abbrev pub launch_id_of : Option AgentLaunch → Option String
launch_id_of none = none
launch_id_of (some launch) = some launch.launch_id

unfoldable pub slot_of : Host → LaunchAttempt → Slot
slot_of h attempt = elim attempt.decision [
  | claimed ↦ granted (launch_id_of attempt.launch)
  | suppressed ↦ denied (h.denial_text attempt)
  | error ↦ denied (h.denial_text attempt)
]

unfoldable pub take_slot : Service → Host → String → Exec World Slot
take_slot s h task_id = elim s.lifecycle [
  | none ↦ pure (granted none)
  | some duration ↦ do attempt ← claim_launch duration task_id; pure (slot_of h attempt)
]

abbrev pub fresh_run : String → String → PollRun
fresh_run id task_id = record {
  id = id;
  task_id = task_id;
  agent_name = poll_agent_owner;
  status = queued;
  started_at = none;
  ended_at = none;
  poll_run_dir = none;
  error_message = none;
  launch_method = none;
  launch_pane_id = none;
  launch_pid = none;
  launch_pgid = none;
  launch_recorded_at = none;
  canonical_key = none;
  launch_id = none;
}

abbrev pub suppressed_run : String → String → String → PollRun
suppressed_run id task_id reason = record (fresh_run id task_id) {
  status = cancelled;
  error_message = some reason;
}

abbrev pub queued_run : Host → String → String → Option String → PollRun
queued_run h id task_id launch_id = record (fresh_run id task_id) {
  poll_run_dir = some (h.dir_path id);
  canonical_key = some (build_task_key task_id);
  launch_id = launch_id;
}

-- `except TaskTransitionError`: the exception is None where the start went well; another one goes
-- on.
unfoldable pub try_start : Service → String → Exec World (Option Exn)
try_start s task_id w =
    let (r, w') = stamped (λ now. on_tasks (start s.gate task_id poll_agent_owner none now)) w in
    (caught r, w')
  where
    caught : Result OrchestrationTask → Result (Option Exn)
    caught (ok t) = ok none
    caught (err task_transition_error) = ok (some task_transition_error)
    caught (err e) = err e

-- The handle is not recorded: the run is kept from being launched again.
unfoldable pub quarantine_run : String → Option String → String → String → Exec World PollRun
quarantine_run id launch_id message reason = do
  update_run id quarantined (some message)
  when_launched launch_id
      λ l. stamped λ now. on_launches (quarantine sqlite l (reason_text reason) now)
  note id "launch_quarantined"
  require_run id

abbrev pub text_if : Option String → Option EventValue
text_if none = none
text_if (some s) = if is_empty s then none else some (text s)

abbrev pub number_if : Option ℕ → Option EventValue
number_if none = none
number_if (some n) = some (number n)

abbrev pub spawned_event : LaunchHandle → Event
spawned_event handle = record {
  type = "agent_spawned";
  pane_id = text_if handle.pane_id;
  pid = number_if handle.pid;
  pgid = number_if handle.pgid;
}

-- A number that is there and not 0.
abbrev pub nonzero : Option ℕ → Option ℕ
nonzero none = none
nonzero (some zero) = none
nonzero (some (suc n)) = some (suc n)

-- `str(pgid or pid or "")`
unfoldable pub process_text : Host → Option ℕ → Option ℕ → String
process_text h pgid pid = elim (nonzero pgid) [
  | some n ↦ h.decimal n
  | none ↦ elim (nonzero pid) [ some n ↦ h.decimal n | none ↦ "" ]
]

-- The arguments of `confirm_active`.
unfoldable pub handle_of : Host → LaunchHandle → Handle
handle_of h handle = record {
  backend = handle.method;
  termination_handle_type = if str_eq handle.method "tmux" then "tmux-pane" else "pgid";
  termination_handle_value =
      if is_given handle.pane_id
      then or_none handle.pane_id
      else process_text h handle.pgid handle.pid;
  tmux_pane_id = handle.pane_id;
  tmux_session = none;
  process_pid = handle.pid;
  process_pgid = handle.pgid;
}

abbrev pub running_status : RunStatus
running_status = record { status = some "RUNNING"; error = none }

-- From the answer of `record_launch_metadata` on.
unfoldable pub confirm_run :
    Host → String → Option String → LaunchHandle → Bool → Exec World PollRun
confirm_run h id launch_id handle false = do
  terminate_launch_handle h handle
  quarantine_run id launch_id "Spawn unresolved: failed to persist launch metadata"
      "metadata persist failed"
confirm_run h id launch_id handle true = do
  append_event id (spawned_event handle)
  when_launched launch_id
      λ l. stamped λ now. on_launches (confirm_active sqlite l (handle_of h handle) now)
  update_run id running none
  write_status id running_status
  append_event id (plain "started")
  require_run id

-- PollRunRepository.record_launch_metadata; the foreign key looks at the launches.
unfoldable pub record_metadata : String → LaunchHandle → Option String → Exec World Bool
record_metadata id handle launch_id = stamped λ now w.
    on_runs
      (record_launch_metadata (λ l. any (λ r. str_eq r.launch_id l) w.launches) id handle launch_id
        now)
      w

-- From the answer of `_spawn_agent` on.
unfoldable pub record_handle :
    Host → String → Option String → Option LaunchHandle → Exec World PollRun
record_handle h id launch_id none =
    quarantine_run id launch_id "Spawn unresolved: launch confirmation missing; blocking relaunch"
      "spawn unresolved"
record_handle h id launch_id (some handle) = do
  saved ← record_metadata id handle launch_id
  confirm_run h id launch_id handle saved

unfoldable pub spawn_found : Service → Host → Option PollRun → Exec World (Option LaunchHandle)
spawn_found s h none = pure none
spawn_found s h (some run) = spawn_agent s h run

-- From the answer of the task board on.
unfoldable pub launch_run :
    Service → Host → String → Option String → Option Exn → Exec World PollRun
launch_run s h id launch_id (some e) = do
  update_run id failed (some (h.str_exn e))
  when_launched launch_id λ l. fail_launch l (h.str_exn e)
  require_run id
launch_run s h id launch_id none = do
  update_run id spawning none
  when_launched launch_id λ l. stamped λ now. on_launches (confirm_spawning sqlite l now)
  current ← get_run id
  handle ← spawn_found s h current
  record_handle h id launch_id handle

-- What follows the new row.
unfoldable pub begin_run : Service → Host → String → String → Option String → Exec World PollRun
begin_run s h id task_id launch_id = do
  refused ← try_start s task_id
  launch_run s h id launch_id refused

-- From the answer of the lifecycle service on.
unfoldable pub spawn_in : Service → Host → String → String → Slot → Exec World PollRun
spawn_in s h id task_id (denied reason) = do
  run ← lifted (construct (suppressed_run id task_id reason))
  save_run run
  pure run
spawn_in s h id task_id (granted launch_id) = do
  create_run_dir id
  run ← lifted (construct (queued_run h id task_id launch_id))
  save_run run
  begin_run s h id task_id launch_id

-- `_spawn_run` under the run id that it makes.
unfoldable pub spawn_with : Service → Host → String → String → Exec World PollRun
spawn_with s h task_id id = do slot ← take_slot s h task_id; spawn_in s h id task_id slot

unfoldable pub spawn_run : Service → Host → String → Exec World PollRun
spawn_run s h task_id = do started_at ← now_ms; id ← new_uuid; spawn_with s h task_id id
