-- ===== src/Workflow/Execute.antt =====
-- `ExecuteState` of src/application/services/workflow/state.py and its JSON form; `now`, `parse` and
-- `dumps` are as for the plan.
pub mod Roundtrip
use fork_agent.Prelude.{
  ℕ, zero, suc, String, Option, none, some, List, if◌then◌else◌, Result, ok, err,
  invalid_state_error,
}
use fork_agent.Workflow.Json.{
  Json, null, text, number, object, Fields, end, field, ◌>>=◌, need, get_or, lookup, as_text,
  as_number, of_number_or_none,
}
use fork_agent.Workflow.Entity.{WorkflowPhase, phase_value, workflow_phase}
use fork_agent.Workflow.Task.{Task, tasks_to_json, tasks_from_json}
use fork_agent.Workflow.Plan.{supported_version, current_schema_version}

pub record ExecuteState : Type 0 where
  pub session_id : String
  pub status : String
  pub phase : WorkflowPhase
  pub started_at : String
  pub tasks : List Task
  pub current_task_index : ℕ
  pub schema_version : ℕ
  pub migrated_from : Option ℕ

-- ExecuteState.to_json
unfoldable pub execute_to_json : ExecuteState → Fields
execute_to_json s = field "session_id" (text s.session_id) (
    field "status" (text s.status) (
      field "phase" (text (phase_value s.phase)) (
        field "started_at" (text s.started_at) (
          field "schema_version" (number s.schema_version) (
            field "migrated_from" (of_number_or_none s.migrated_from) (
              field "tasks" (tasks_to_json s.tasks)
                (field "current_task_index" (number s.current_task_index) end)))))))

-- The version after the migration, and the one before it: only version 0 is migrated.
abbrev pub migrated_version : ℕ → ℕ
migrated_version zero = current_schema_version
migrated_version (suc n) = suc n

abbrev pub migrated_zero : ℕ → Option ℕ
migrated_zero zero = some 0
migrated_zero (suc n) = none

-- ExecuteState.from_json
unfoldable pub execute_from_json : String → Fields → Result ExecuteState
execute_from_json now fs = do
  version ← supported_version fs
  tasks ← tasks_from_json fs
  session_value ← need "session_id" fs
  session_id ← as_text session_value
  status ← as_text (get_or "status" (text "idle") fs)
  phase_text ← as_text (get_or "phase" (text "planning") fs)
  phase ← workflow_phase phase_text
  started_at ← as_text (get_or "started_at" (text now) fs)
  current_task_index ← as_number (get_or "current_task_index" (number 0) fs)
  ok (record {
    session_id = session_id;
    status = status;
    phase = phase;
    started_at = started_at;
    tasks = tasks;
    current_task_index = current_task_index;
    schema_version = migrated_version version;
    migrated_from = migrated_zero version;
  })

unfoldable pub save_text : (Json → String) → ExecuteState → String
save_text dumps s = dumps (object (execute_to_json s))

unfoldable pub load_value : String → Option Json → Result ExecuteState
load_value now none = err invalid_state_error
load_value now (some (object fs)) = elim (lookup "session_id" fs) [
  | none ↦ err invalid_state_error
  | some v ↦ execute_from_json now fs
]
load_value now (some j) = err invalid_state_error

abbrev pub loaded : Result ExecuteState → Result (Option ExecuteState)
loaded (ok s) = ok (some s)
loaded (err e) = err e

-- ExecuteState.load
unfoldable pub load : (String → Option Json) → String → Option String → Result (Option ExecuteState)
load parse now none = ok none
load parse now (some content) = loaded (load_value now (parse content))
