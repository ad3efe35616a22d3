-- ===== src/Poll/Entity.antt =====
-- src/domain/entities/poll_run.py: the statuses of a poll run, their transitions, and the record
-- with the checks of `__post_init__`.
use fork_agent.Prelude.{
  ℕ, String, Bool, true, not, ◌&&◌, Option, List, [], ◌∷◌, ◌≡◌, ◌==◌, if◌then◌else◌, any, is_empty,
  is_blank_opt, Result, ok, err, value_error, arith,
}

pub data PollRunStatus : Type 0 where
  queued spawning running terminating quarantined completed failed cancelled : PollRunStatus

-- The place of a status in the enum.
unfoldable pub status_no : PollRunStatus → ℕ
status_no queued = 0
status_no spawning = 1
status_no running = 2
status_no terminating = 3
status_no quarantined = 4
status_no completed = 5
status_no failed = 6
status_no cancelled = 7

unfoldable pub status_eq : PollRunStatus → PollRunStatus → Bool
unfolding status_no
status_eq s t = status_no s == status_no t

pub status_eq-eq : (s t : PollRunStatus) → status_eq s t ≡ true → s ≡ t
unfolding status_eq
status_eq-eq s t h = ground arith

-- `status in statuses`
unfoldable pub is_in : PollRunStatus → List PollRunStatus → Bool
unfolding status_eq
is_in s statuses = any (status_eq s) statuses

-- _VALID_TRANSITIONS
abbrev pub valid_transitions : PollRunStatus → List PollRunStatus
valid_transitions queued = spawning ∷ cancelled ∷ quarantined ∷ []
valid_transitions spawning = running ∷ quarantined ∷ failed ∷ cancelled ∷ []
valid_transitions running = terminating ∷ completed ∷ failed ∷ cancelled ∷ []
valid_transitions terminating = completed ∷ failed ∷ cancelled ∷ []
valid_transitions quarantined = cancelled ∷ []
valid_transitions completed = []
valid_transitions failed = []
valid_transitions cancelled = []

unfoldable pub leads_to : PollRunStatus → PollRunStatus → Bool
unfolding is_in
leads_to s t = is_in t (valid_transitions s)

pub record PollRun : Type 0 where
  pub id : String
  pub task_id : String
  pub agent_name : String
  pub status : PollRunStatus
  pub started_at : Option ℕ
  pub ended_at : Option ℕ
  pub poll_run_dir : Option String
  pub error_message : Option String
  pub launch_method : Option String
  pub launch_pane_id : Option String
  pub launch_pid : Option ℕ
  pub launch_pgid : Option ℕ
  pub launch_recorded_at : Option ℕ
  pub canonical_key : Option String
  pub launch_id : Option String

-- __post_init__ passes. The isinstance tests hold by typing, and the numbers are natural.
unfoldable pub post_init_passes : PollRun → Bool
post_init_passes r =
    not (is_empty r.id)
    && not (is_empty r.task_id)
    && not (is_empty r.agent_name)
    && not (is_blank_opt r.launch_id)

-- PollRun(…)
unfoldable pub construct : PollRun → Result PollRun
construct r = if post_init_passes r then ok r else err value_error

unfoldable pub can_transition_to : PollRun → PollRunStatus → Bool
can_transition_to r target = leads_to r.status target
