-- ===== src/Poll/Host.antt =====
-- The polling service of src/application/services/agent_polling_service.py as an object: its
-- settings, and what its methods take from the operating system and from Python. The store they
-- work on is Poll/World.antt.
use fork_agent.Prelude.{
  ℕ, String, Bool, false, not, ◌&&◌, Option, none, some, if◌then◌else◌, is_empty, str_eq, leb, Exec,
  Exn, Result, ok, err, value_error, os_error, pure, raise, ◌>>=◌, ◌>>◌,
}
use fork_agent.Poll.Entity.{PollRun, PollRunStatus}
use fork_agent.Poll.Repository.{LaunchHandle, get_by_id, update_status}
use fork_agent.Poll.World.{
  World, on_runs, now_ms, append_event, Event, Target, Signal, pane, group, process, kill_pane,
  sigterm, sigkill, send,
}
use fork_agent.Launch.Service.{LaunchAttempt}
use fork_agent.Task.Board.{Gate}

-- What the constructor is given. `lifecycle` is the lease duration of the lifecycle service, where
-- one is wired; `gate` is the FPEL port of the task board.
pub record Service : Type 0 where
  pub max_concurrent : ℕ
  pub allow_subprocess_fallback : Bool
  pub lifecycle : Option ℕ
  pub gate : Option Gate

-- The operating system and Python. `split_window` is what tmux prints for a run, None where it
-- fails; `popen` is the new process, None for an OSError; `getpgid` is None for a
-- ProcessLookupError; `outlives` says whether a target that got SIGTERM is there at every look up to
-- the deadline; `forbids` says which signals get a PermissionError, which is an OSError. `digits` is `int` of a text of digits, `decimal` is `str` of a number.
pub record Host : Type 0 where
  pub in_tmux : Bool
  pub split_window : String → Option String
  pub popen : String → Option ℕ
  pub getpgid : ℕ → Option ℕ
  pub outlives : Target → Bool
  pub forbids : Signal → Bool
  pub dir_path : String → String
  pub digits : String → Option ℕ
  pub decimal : ℕ → String
  pub str_exn : Exn → String
  pub denial_text : LaunchAttempt → String
  pub timeout_text : ℕ → String

abbrev pub poll_agent_owner : String
poll_agent_owner = "poll-agent"

-- QUEUED_TIMEOUT_S, in milliseconds
abbrev pub queued_timeout_ms : ℕ
queued_timeout_ms = 300000

-- The setter of max_concurrent.
unfoldable pub set_max_concurrent : ℕ → Service → Result Service
set_max_concurrent value s =
    if leb 1 value then ok (record s { max_concurrent = value }) else err value_error

abbrev pub lifted : {A : Type 0} → Result A → Exec World A
lifted r w = (r, w)

-- A statement that reads the clock itself. It is read at the start of the statement.
unfoldable pub stamped : {A : Type 0} → (ℕ → Exec World A) → Exec World A
stamped m = do now ← now_ms; m now

unfoldable pub get_run : String → Exec World (Option PollRun)
get_run id = on_runs (get_by_id id)

unfoldable pub update_run : String → PollRunStatus → Option String → Exec World (Unit {0})
update_run id status error = stamped λ now. on_runs (update_status id status error now)

-- `if result is None: raise ValueError(…)`
unfoldable pub or_missing : Option PollRun → Exec World PollRun
or_missing none = raise value_error
or_missing (some run) = pure run

unfoldable pub require_run : String → Exec World PollRun
require_run id = do found ← get_run id; or_missing found

-- An event without a handle. Its timestamp is a reading of the clock.
abbrev pub plain : String → Event
plain type = record { type = type; pane_id = none; pid = none; pgid = none }

unfoldable pub note : String → String → Exec World (Unit {0})
note id type = stamped λ _. append_event id (plain type)

-- os.kill or os.killpg under `suppress(ProcessLookupError)`
unfoldable pub signal : Host → Signal → Exec World (Unit {0})
signal h s = if h.forbids s then raise os_error else send s

-- _terminate_pid and _terminate_process_group; SIGTERM that finds no process is ignored, and so is
-- SIGKILL.
unfoldable pub terminate_target : Host → Target → Exec World (Unit {0})
terminate_target h target = do
  signal h (sigterm target)
  if h.outlives target then signal h (sigkill target) else pure tt

-- `x is not None and x`
abbrev pub is_given : Option String → Bool
is_given none = false
is_given (some s) = not (is_empty s)

abbrev pub or_none : Option String → String
or_none none = ""
or_none (some s) = s

-- The part of `_terminate_launch_handle` on processes.
unfoldable pub terminate_process : Host → Option ℕ → Option ℕ → Exec World (Unit {0})
terminate_process h (some pgid) pid = terminate_target h (group pgid)
terminate_process h none (some pid) = terminate_target h (process pid)
terminate_process h none none = pure tt

unfoldable pub terminate_launch_handle : Host → LaunchHandle → Exec World (Unit {0})
terminate_launch_handle h handle =
    if str_eq handle.method "tmux" && is_given handle.pane_id
    then send (kill_pane (pane (or_none handle.pane_id)))
    else if str_eq handle.method "subprocess"
    then terminate_process h handle.pgid handle.pid
    else pure tt
