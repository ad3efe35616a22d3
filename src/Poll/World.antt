-- ===== src/Poll/World.antt =====
-- What a polling call works on: the tables of the runs, the tasks and the launches, the run
-- directories, and what comes from outside. Clock readings and UUIDs come from two sequences; the
-- signals that are sent to panes and processes are kept in the order of sending.
use fork_agent.Prelude.{
  ℕ, suc, String, Bool, true, false, Option, none, some, List, [], ◌∷◌, ◌++◌, if◌then◌else◌, any,
  str_eq, find_key, update_where, select, Exec, Result, ok, err, value_error, task_transition_error,
  os_error,
}
use fork_agent.Poll.Entity.{PollRun}
use fork_agent.Poll.Repository.{save}
use fork_agent.Poll.Repository.{Table as RunTable}
use fork_agent.Task.Repository.{Table as TaskTable}
use fork_agent.Launch.Registry.{Table as LaunchTable}

-- What a launched agent runs in.
pub data Target : Type 0 where
  pane : String → Target
  group : ℕ → Target
  process : ℕ → Target

-- `tmux kill-pane`, SIGTERM, SIGKILL
pub data Signal : Type 0 where
  kill_pane sigterm sigkill : Target → Signal

-- A value of a JSON event where a pane, a process or a group is looked for.
pub data EventValue : Type 0 where
  text : String → EventValue
  number : ℕ → EventValue
  other : EventValue

-- A line of events.jsonl: the fields that are read again.
pub record Event : Type 0 where
  pub type : String
  pub pane_id : Option EventValue
  pub pid : Option EventValue
  pub pgid : Option EventValue

-- status.json, the fields that are read again.
pub record RunStatus : Type 0 where
  pub status : Option String
  pub error : Option String

-- The directory of a run. `status` is None where status.json is missing or malformed.
pub record RunDir : Type 0 where
  pub run_id : String
  pub status : Option RunStatus
  pub events : List Event

pub record World : Type 0 where
  pub runs : RunTable
  pub tasks : TaskTable
  pub launches : LaunchTable
  pub dirs : List RunDir
  pub signals : List Signal
  pub clock : ℕ → ℕ
  pub readings : ℕ
  pub uuid : ℕ → String
  pub minted : ℕ

module _ {A : Type 0} where
  unfoldable pub on_runs : Exec RunTable A → Exec World A
  on_runs m w = let (r, t) = m w.runs in (r, record w { runs = t })

  unfoldable pub on_tasks : Exec TaskTable A → Exec World A
  on_tasks m w = let (r, t) = m w.tasks in (r, record w { tasks = t })

  unfoldable pub on_launches : Exec LaunchTable A → Exec World A
  on_launches m w = let (r, t) = m w.launches in (r, record w { launches = t })

-- PollRunRepository.save; the foreign key looks at the launches.
unfoldable pub save_run : PollRun → Exec World (Unit {0})
save_run run w = on_runs (save (λ id. any (λ l. str_eq l.launch_id id) w.launches) run) w

-- int(time.time() * 1000)
unfoldable pub now_ms : Exec World ℕ
now_ms w = (ok (w.clock w.readings), record w { readings = suc w.readings })

-- uuid.uuid4().hex
unfoldable pub new_uuid : Exec World String
new_uuid w = (ok (w.uuid w.minted), record w { minted = suc w.minted })

unfoldable pub send : Signal → Exec World (Unit {0})
send s w = (ok tt, record w { signals = w.signals ++ s ∷ [] })

abbrev pub dir_key : RunDir → String
dir_key d = d.run_id

abbrev pub is_dir : String → RunDir → Bool
is_dir id d = str_eq d.run_id id

-- PollRunDirectory.create_run_dir
unfoldable pub create_run_dir : String → Exec World (Unit {0})
create_run_dir id w = if any (is_dir id) w.dirs then (ok tt, w) else (
  ok tt,
  record w { dirs = w.dirs ++ record { run_id = id; status = none; events = [] } ∷ [] },
)

-- PollRunDirectory.write_status, after its mkdir
unfoldable pub write_status : String → RunStatus → Exec World (Unit {0})
write_status id status w =
    let (r, made) = create_run_dir id w in
    (
      r,
      record made {
        dirs = update_where (is_dir id) (λ d. record d { status = some status }) made.dirs;
      },
    )

unfoldable pub read_status : String → Exec World (Option RunStatus)
read_status id w = (ok (elim (find_key dir_key id w.dirs) [ none ↦ none | some d ↦ d.status ]), w)

-- Opening events.jsonl raises where the directory is not there.
unfoldable pub append_event : String → Event → Exec World (Unit {0})
append_event id event w =
    if any (is_dir id) w.dirs
    then (
      ok tt,
      record w {
        dirs = update_where (is_dir id) (λ d. record d { events = d.events ++ event ∷ [] }) w.dirs;
      },
    )
    else (err os_error, w)

unfoldable pub read_events : String → Exec World (List Event)
read_events id w = (ok (elim (find_key dir_key id w.dirs) [ none ↦ [] | some d ↦ d.events ]), w)

unfoldable pub cleanup_run : String → Exec World (Unit {0})
cleanup_run id w =
    (ok tt, record w { dirs = select (λ d. if is_dir id d then false else true) w.dirs })

-- contextlib.suppress(ValueError, TaskTransitionError)
unfoldable pub suppressed : {A : Type 0} → Exec World A → Exec World (Unit {0})
suppressed m w = let (r, w') = m w in (forgive r, w')
  where
    forgive : {A : Type 0} → Result A → Result (Unit {0})
    forgive (ok a) = ok tt
    forgive (err value_error) = ok tt
    forgive (err task_transition_error) = ok tt
    forgive (err e) = err e

-- except Exception: a warning
unfoldable pub swallowed : {A : Type 0} → Exec World A → Exec World (Unit {0})
swallowed m w = (ok tt, (m w).1)
