-- ===== src/Poll/Cycle.antt =====
-- `poll_once` and `check_runs` of the polling service, and the calls that only read.
pub mod Follows
use fork_agent.Prelude.{
  ℕ, ◌+◌, ◌-◌, String, Bool, true, false, Option, none, some, List, [], ◌∷◌, ◌++◌, if◌then◌else◌,
  any, str_eq, ltb, leb, length, take, Exec, pure, ◌>>=◌, ◌>>◌,
}
use fork_agent.Launch.Entity.{AgentLaunch}
use fork_agent.Launch.Registry.{sqlite, find_active_by_canonical_key}
use fork_agent.Launch.Service.{reconcile_expired_leases}
use fork_agent.Task.Entity.{OrchestrationTask, approved}
use fork_agent.Task.Board.{list_tasks}
use fork_agent.Poll.Key.{build_task_key}
use fork_agent.Poll.Entity.{PollRunStatus, queued, spawning, quarantined, is_in, PollRun}
use fork_agent.Poll.Repository.{list_active, list_launch_blocking, count_by_status}
use fork_agent.Poll.World.{World, RunStatus, on_runs, on_tasks, on_launches, read_status}
use fork_agent.Poll.Host.{Service, Host, queued_timeout_ms, stamped, get_run, update_run, note}
use fork_agent.Poll.Stop.{complete_run, fail_run}
use fork_agent.Poll.Spawn.{spawn_run}

unfoldable pub reconcile : Service → Exec World (Unit {0})
reconcile s = elim s.lifecycle [
  | none ↦ pure tt
  | some duration ↦ stamped (λ now. on_launches (reconcile_expired_leases sqlite now)) >> pure tt
]

-- The active launch of the task's key, where the lifecycle service is wired.
unfoldable pub active_launch_of : Service → String → Exec World (Option AgentLaunch)
active_launch_of s task_id = elim s.lifecycle [
  | none ↦ pure none
  | some duration ↦ on_launches (find_active_by_canonical_key (build_task_key task_id))
]

abbrev pub is_none : {A : Type 0} → Option A → Bool
is_none none = true
is_none (some a) = false

-- `task.id in blocking_task_ids`
abbrev pub is_blocked_by : List PollRun → OrchestrationTask → Bool
is_blocked_by blocking t = any (λ r. str_eq r.task_id t.id) blocking

-- The loop of `poll_once` over the approved tasks.
unfoldable pub candidates :
    Service → List PollRun → List OrchestrationTask → Exec World (List OrchestrationTask)
candidates s blocking [] = pure []
candidates s blocking (t ∷ ts) = elim (is_blocked_by blocking t) [
  | true ↦ candidates s blocking ts
  | false ↦ do
    active ← active_launch_of s t.id
    rest ← candidates s blocking ts
    pure (if is_none active then t ∷ rest else rest)
]

-- The loop over the first candidates.
unfoldable pub spawn_each : Service → Host → List OrchestrationTask → Exec World (List PollRun)
spawn_each s h [] = pure []
spawn_each s h (t ∷ ts) = do run ← spawn_run s h t.id; rest ← spawn_each s h ts; pure (run ∷ rest)

-- With this many free places.
unfoldable pub fill : Service → Host → ℕ → List PollRun → Exec World (List PollRun)
fill s h available blocking = do
  tasks ← on_tasks (list_tasks (some approved) none false)
  chosen ← candidates s blocking tasks
  spawn_each s h (take available chosen)

-- From the answer of `list_launch_blocking` on.
unfoldable pub fill_up : Service → Host → List PollRun → Exec World (List PollRun)
fill_up s h blocking =
    if leb s.max_concurrent (length blocking)
    then pure []
    else fill s h (s.max_concurrent - length blocking) blocking

unfoldable pub poll_once : Service → Host → Exec World (List PollRun)
poll_once s h = do reconcile s; blocking ← on_runs list_launch_blocking; fill_up s h blocking

abbrev pub started_or_zero : PollRun → ℕ
started_or_zero run = elim run.started_at [ none ↦ 0 | some t ↦ t ]

abbrev pub is_unresolved : PollRun → Bool
is_unresolved run = is_in run.status (queued ∷ spawning ∷ [])

-- `elapsed_s > self.QUEUED_TIMEOUT_S`
unfoldable pub has_timed_out : PollRun → ℕ → Bool
has_timed_out run now = ltb (started_or_zero run + queued_timeout_ms) now

unfoldable pub quarantine_late : Host → PollRun → ℕ → Exec World (Unit {0})
quarantine_late h run now = do
  update_run run.id quarantined (some (h.timeout_text (now - started_or_zero run)))
  note run.id "launch_quarantined"

-- updated.append(self._poll_run_repo.get_by_id(run.id)), where a row that is gone gives None
unfoldable pub reread : PollRun → Exec World (List (Option PollRun))
reread run = do current ← get_run run.id; pure (current ∷ [])

-- The same after `if current is not None`.
abbrev pub if_there : Option PollRun → List (Option PollRun)
if_there none = []
if_there (some run) = some run ∷ []

unfoldable pub reread_if_there : PollRun → Exec World (List (Option PollRun))
reread_if_there run = do current ← get_run run.id; pure (if_there current)

unfoldable pub quarantine_if_late : Host → PollRun → ℕ → Exec World (Unit {0})
quarantine_if_late h run now = if has_timed_out run now then quarantine_late h run now else pure tt

-- Without a status file.
unfoldable pub check_missing : Service → Host → PollRun → Exec World (List (Option PollRun))
check_missing s h run =
    if is_unresolved run
    then stamped (quarantine_if_late h run) >> reread run
    else fail_run s h run.id "Agent crashed: no status file written" >> reread run

abbrev pub is_status : RunStatus → String → Bool
is_status d status = elim d.status [ none ↦ false | some t ↦ str_eq t status ]

-- `str(status_data.get("error", "Unknown error"))`
abbrev pub error_of : RunStatus → String
error_of d = elim d.error [ none ↦ "Unknown error" | some e ↦ e ]

-- A run that was not started when its status was read.
unfoldable pub check_late : Host → PollRun → ℕ → Exec World (List (Option PollRun))
check_late h run now =
    if has_timed_out run now then quarantine_late h run now >> reread run else reread_if_there run

-- A status that is neither COMPLETED nor FAILED.
unfoldable pub check_pending : Host → PollRun → Exec World (List (Option PollRun))
check_pending h run = if is_unresolved run then stamped (check_late h run) else reread_if_there run

-- With a status file.
unfoldable pub check_status :
    Service → Host → PollRun → RunStatus → Exec World (List (Option PollRun))
check_status s h run d =
    if is_status d "COMPLETED"
    then complete_run s h run.id run.task_id >> reread_if_there run
    else if is_status d "FAILED"
    then fail_run s h run.id (error_of d) >> reread_if_there run
    else check_pending h run

unfoldable pub check_run :
    Service → Host → PollRun → Option RunStatus → Exec World (List (Option PollRun))
check_run s h run none = check_missing s h run
check_run s h run (some d) = check_status s h run d

-- The loop of `check_runs`.
unfoldable pub check_each : Service → Host → List PollRun → Exec World (List (Option PollRun))
check_each s h [] = pure []
check_each s h (run ∷ runs) = do
  data_read ← read_status run.id
  updated ← check_run s h run data_read
  rest ← check_each s h runs
  pure (updated ++ rest)

unfoldable pub check_runs : Service → Host → Exec World (List (Option PollRun))
check_runs s h = do active ← on_runs list_active; check_each s h active

unfoldable pub get_active_runs : Exec World (List PollRun)
get_active_runs = on_runs list_active

unfoldable pub get_run_status : String → Exec World (Option RunStatus)
get_run_status id = read_status id

unfoldable pub get_status_summary : Exec World (List (PollRunStatus × ℕ))
get_status_summary = on_runs count_by_status
