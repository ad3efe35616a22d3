-- ===== src/Task/Board.antt =====
-- src/application/services/task_board_service.py. New UUIDs and clock readings are arguments. The
-- FPEL port is an argument too: what `check_sealed` decides for a task id and a content hash.
pub mod Outcome
pub mod Moves
pub mod Edit
pub mod Evolve
pub mod History
use fork_agent.Prelude.{
  ℕ, String, Bool, true, false, not, ◌&&◌, ◌||◌, Option, none, some, List, [], ◌∷◌, ◌++◌,
  if◌then◌else◌, any, all, select, str_eq, given_eq, Exec, Exn, Result, ok, err, value_error,
  type_error, task_transition_error, pure, raise, ◌>>=◌, ◌>>◌, find_key,
}
use fork_agent.Task.Entity.{
  OrchestrationTaskStatus, pending, planning, approved, in_progress, completed, deleted, status_eq,
  OrchestrationTask, construct, can_transition_to, is_blocked,
}
use fork_agent.Fpel.Entity.{Hasher}
use fork_agent.Fpel.Hash.{compute_task_hash}
use fork_agent.Task.Repository.{
  Table, task_key, save, cas_save, get_by_id, get_by_ids, list_by_status, list_by_owner, list_all,
  list_blocked,
}

-- The port, if one is injected: whether `check_sealed` of a target and a content hash allows it, or
-- the exception that it raises; with what hashing needs.
pub record Gate : Type 0 where
  pub check_sealed : String → String → Result Bool
  pub hasher : Hasher

-- `if bad: raise e`
abbrev pub refuse_if : Bool → Exn → Exec Table (Unit {0})
refuse_if bad e = if bad then raise e else pure tt

abbrev pub lifted : {A : Type 0} → Result A → Exec Table A
lifted r s = (r, s)

abbrev pub or_missing : Option OrchestrationTask → Exec Table OrchestrationTask
or_missing none = raise value_error
or_missing (some t) = pure t

unfoldable pub require_task : String → Exec Table OrchestrationTask
require_task id = do found ← get_by_id id; or_missing found

unfoldable pub validate_transition :
    OrchestrationTask → OrchestrationTaskStatus → Exec Table (Unit {0})
validate_transition t target = refuse_if (not (can_transition_to t target)) task_transition_error

-- `replace`, `cas_save`, and the ValueError on a concurrent change: the end of every mutation.
unfoldable pub store : OrchestrationTask → OrchestrationTask → Exec Table OrchestrationTask
store old new = do
  updated ← lifted (construct new)
  saved ← cas_save updated old.status
  if saved then pure updated else raise value_error

-- The task of `create`, under a new UUID.
abbrev pub new_task : String → String → Option String → Option String → ℕ → OrchestrationTask
new_task id subject description owner now = record {
  id = id;
  subject = subject;
  description = description;
  status = pending;
  owner = owner;
  blocked_by = [];
  plan_text = none;
  created_at = now;
  updated_at = now;
  approved_by = none;
  approved_at = none;
  requested_by = none;
}

unfoldable pub create :
    String → String → Option String → Option String → ℕ → Exec Table OrchestrationTask
create id subject description owner now = do
  task ← lifted (construct (new_task id subject description owner now))
  save task
  pure task

-- TaskBoardService.list
unfoldable pub list_tasks :
    Option OrchestrationTaskStatus → Option String → Bool → Exec Table (List OrchestrationTask)
list_tasks (some s) (some owner) include_deleted = do
  tasks ← list_by_status s
  pure (select (λ t. given_eq t.owner owner) tasks)
list_tasks (some s) none include_deleted = list_by_status s
list_tasks none (some owner) include_deleted = list_by_owner owner
list_tasks none none include_deleted = do
  tasks ← list_all
  pure (if include_deleted then tasks else select (λ t. not (status_eq t.status deleted)) tasks)

-- An argument of `update`: left out, or given, where it may be None.
abbrev pub Given : Type 0
Given = Option (Option String)

abbrev pub given_or : Given → Option String → Option String
given_or none old = old
given_or (some new) old = new

-- The subject must be a text.
abbrev pub subject_or : Given → String → Exec Table String
subject_or none old = pure old
subject_or (some none) old = raise type_error
subject_or (some (some new)) old = pure new

unfoldable pub update : String → Given → Given → Given → ℕ → Exec Table OrchestrationTask
update id subject description owner now = do
  task ← require_task id
  refuse_if (status_eq task.status deleted) value_error
  new_subject ← subject_or subject task.subject
  store task (record task {
    subject = new_subject;
    description = given_or description task.description;
    owner = given_or owner task.owner;
    updated_at = now;
  })

unfoldable pub submit_plan : String → String → Option String → ℕ → Exec Table OrchestrationTask
submit_plan id plan_text requested_by now = do
  task ← require_task id
  validate_transition task planning
  store task (record task {
    status = planning;
    plan_text = some plan_text;
    updated_at = now;
    requested_by = requested_by;
  })

unfoldable pub approve : String → String → Option String → ℕ → Exec Table OrchestrationTask
approve id approved_by requested_by now = do
  task ← require_task id
  validate_transition task approved
  store task (record task {
    status = approved;
    approved_by = some approved_by;
    approved_at = some now;
    updated_at = now;
    requested_by = requested_by;
  })

unfoldable pub reject : String → Option String → ℕ → Exec Table OrchestrationTask
reject id requested_by now = do
  task ← require_task id
  validate_transition task pending
  store task (record task {
    status = pending;
    plan_text = none;
    updated_at = now;
    requested_by = requested_by;
  })

-- The FPEL gate of `start`.
unfoldable pub pass_gate : Option Gate → OrchestrationTask → Exec Table (Unit {0})
pass_gate none t = pure tt
pass_gate (some g) t = do
  allowed ← lifted (g.check_sealed t.id (compute_task_hash g.hasher t))
  refuse_if (not allowed) task_transition_error

unfoldable pub start :
    Option Gate → String → String → Option String → ℕ → Exec Table OrchestrationTask
start gate id owner requested_by now = do
  task ← require_task id
  refuse_if (is_blocked task) value_error
  validate_transition task in_progress
  pass_gate gate task
  store task (record task {
    status = in_progress;
    owner = some owner;
    updated_at = now;
    requested_by = requested_by;
  })

-- A blocker that is missing, COMPLETED or DELETED.
unfoldable pub is_resolved : List OrchestrationTask → String → Bool
is_resolved blockers id = elim (find_key task_key id blockers) [
  | none ↦ true
  | some b ↦ status_eq b.status completed || status_eq b.status deleted
]

-- The loop of `resolve_blockers` over the candidates.
unfoldable pub resolve_each : String → List OrchestrationTask → Exec Table (List String)
resolve_each id [] = pure []
resolve_each id (candidate ∷ candidates) = elim (any (str_eq id) candidate.blocked_by) [
  | false ↦ resolve_each id candidates
  | true ↦ do
    blockers ← get_by_ids candidate.blocked_by
    rest ← resolve_each id candidates
    pure (if all (is_resolved blockers) candidate.blocked_by then candidate.id ∷ rest else rest)
]

unfoldable pub resolve_blockers : String → Exec Table (List String)
resolve_blockers id = do candidates ← list_blocked; resolve_each id candidates

unfoldable pub complete : String → Option String → ℕ → Exec Table OrchestrationTask
complete id requested_by now = do
  task ← require_task id
  validate_transition task completed
  updated ←
      store task (record task { status = completed; updated_at = now; requested_by = requested_by })
  resolve_blockers id
  pure updated

unfoldable pub retry : String → Exec Table OrchestrationTask
retry id = do
  task ← require_task id
  validate_transition task approved
  store task (record task { status = approved })

unfoldable pub delete : String → Option String → ℕ → Exec Table OrchestrationTask
delete id requested_by now = do
  task ← require_task id
  validate_transition task deleted
  store task (record task { status = deleted; updated_at = now; requested_by = requested_by })
