-- ===== src/Workflow/Plan.antt =====
-- `PlanState` of src/application/services/workflow/state.py and its JSON form. `now` is the time that
-- stands where a file has no started_at. A file is its text; `parse` and `dumps` are Python's `json`.
pub mod Roundtrip
pub mod Decisions
use fork_agent.Prelude.{
  ℕ, String, Bool, true, false, Option, none, some, List, [], ◌∷◌, ◌++◌, map, if◌then◌else◌, any,
  str_eq, ltb, leb, find_key, update_where, Exn, Result, ok, err, unsupported_schema_error,
  invalid_state_error,
}
use fork_agent.Workflow.Json.{
  Json, null, text, number, array, object, Fields, nil, end, field, ◌>>=◌, each, need, get_or,
  lookup, as_text, as_number, as_text_or_none, as_texts, as_list, as_object, as_items, of_texts,
  of_text_or_none, of_number_or_none, from_list, from_pairs, is_truthy, or_zero,
}
use fork_agent.Workflow.Entity.{
  DecisionStatus, UserDecision, construct_decision, Goal, construct_goal, DerivedRequirement,
  construct_requirement, WorkflowPhase, status_value, priority_value, source_value, phase_value,
  decision_status, requirement_priority, requirement_source, workflow_phase,
}
use fork_agent.Workflow.Task.{Task, no_items, tasks_to_json, tasks_from_json}

abbrev pub current_schema_version : ℕ
current_schema_version = 4

pub record PlanState : Type 0 where
  pub session_id : String
  pub status : String
  pub phase : WorkflowPhase
  pub started_at : String
  pub plan_file : String
  pub tasks : List Task
  pub decisions : List (String × UserDecision)
  pub goal : Option Goal
  pub derived_requirements : List DerivedRequirement
  pub schema_version : ℕ
  pub migrated_from : Option ℕ
  pub frozen_proposal_id : Option String
  pub frozen_content_hash : Option String

unfoldable pub decision_to_json : UserDecision → Json
decision_to_json d = object (
    field "key" (text d.key) (
      field "value" (text d.value) (
        field "status" (text (status_value d.status))
          (field "rationale" (of_text_or_none d.rationale) end))))

abbrev pub entry_to_json : String × UserDecision → String × Json
entry_to_json e = (e.0, decision_to_json e.1)

unfoldable pub goal_to_json : Option Goal → Json
goal_to_json none = null
goal_to_json (some g) = object (
    field "objective" (text g.objective) (
      field "must_haves" (of_texts g.must_haves) (
        field "nice_to_haves" (of_texts g.nice_to_haves)
          (field "scope_in" (of_texts g.scope_in) (field "scope_out" (of_texts g.scope_out) end)))))

unfoldable pub requirement_to_json : DerivedRequirement → Json
requirement_to_json r = object (
    field "id" (text r.id) (
      field "description" (text r.description) (
        field "source" (text (source_value r.source))
          (field "priority" (text (priority_value r.priority)) end))))

-- PlanState.to_json
unfoldable pub plan_to_json : PlanState → Fields
plan_to_json s = field "session_id" (text s.session_id) (
    field "status" (text s.status) (
      field "phase" (text (phase_value s.phase)) (
        field "started_at" (text s.started_at) (
          field "plan_file" (text s.plan_file) (
            field "schema_version" (number s.schema_version) (
              field "migrated_from" (of_number_or_none s.migrated_from) (
                field "tasks" (tasks_to_json s.tasks) (
                  field "decisions" (object (from_pairs (map entry_to_json s.decisions))) (
                    field "goal" (goal_to_json s.goal) (
                      field "derived_requirements"
                        (array (from_list (map requirement_to_json s.derived_requirements)))
                        (field "frozen_proposal_id" (of_text_or_none s.frozen_proposal_id) (
                          field "frozen_content_hash" (of_text_or_none s.frozen_content_hash)
                            end))))))))))))

-- The version of a state, if it is supported.
unfoldable pub supported_version : Fields → Result ℕ
supported_version fs = do
  version ← as_number (or_zero (get_or "schema_version" null fs))
  if ltb current_schema_version version then err unsupported_schema_error else ok version

-- `migrated_from` of a state with this version, 4 at most.
unfoldable pub migration : ℕ → Option ℕ
migration version = if ltb version current_schema_version then some version else none

unfoldable pub decision_of_fields : Fields → Result UserDecision
decision_of_fields d = do
  key_value ← need "key" d
  key ← as_text key_value
  value_value ← need "value" d
  value ← as_text value_value
  status_value ← need "status" d
  status_text ← as_text status_value
  status ← decision_status status_text
  rationale ← as_text_or_none (get_or "rationale" null d)
  construct_decision (record { key = key; value = value; status = status; rationale = rationale })

unfoldable pub entry_from_json : String × Json → Result (String × UserDecision)
entry_from_json e = do fs ← as_object e.1; d ← decision_of_fields fs; ok (e.0, d)

unfoldable pub decisions_from_json : Fields → Result (List (String × UserDecision))
decisions_from_json fs = do
  items ← as_items (get_or "decisions" (object end) fs)
  each entry_from_json items

unfoldable pub goal_of_fields : Fields → Result (Option Goal)
goal_of_fields g = do
  objective_value ← need "objective" g
  objective ← as_text objective_value
  must_haves ← as_texts (get_or "must_haves" no_items g)
  nice_to_haves ← as_texts (get_or "nice_to_haves" no_items g)
  scope_in ← as_texts (get_or "scope_in" no_items g)
  scope_out ← as_texts (get_or "scope_out" no_items g)
  goal ← construct_goal (record {
    objective = objective;
    must_haves = must_haves;
    nice_to_haves = nice_to_haves;
    scope_in = scope_in;
    scope_out = scope_out;
  })
  ok (some goal)

-- `if goal_data:`
unfoldable pub goal_of_value : Json → Result (Option Goal)
goal_of_value j = if is_truthy j then (do g ← as_object j; goal_of_fields g) else ok none

unfoldable pub requirement_of_fields : Fields → Result DerivedRequirement
requirement_of_fields r = do
  id_value ← need "id" r
  id ← as_text id_value
  description_value ← need "description" r
  description ← as_text description_value
  source_value ← need "source" r
  source_text ← as_text source_value
  source ← requirement_source source_text
  priority_value ← need "priority" r
  priority_text ← as_text priority_value
  priority ← requirement_priority priority_text
  construct_requirement
      (record { id = id; description = description; source = source; priority = priority })

unfoldable pub requirement_from_json : Json → Result DerivedRequirement
requirement_from_json j = do r ← as_object j; requirement_of_fields r

-- `if req_data:`
unfoldable pub requirements_of_value : Json → Result (List DerivedRequirement)
requirements_of_value j =
    if is_truthy j then (do rs ← as_list j; each requirement_from_json rs) else ok []

-- PlanState.from_json
unfoldable pub plan_from_json : String → Fields → Result PlanState
plan_from_json now fs = do
  version ← supported_version fs
  tasks ← tasks_from_json fs
  decisions ← decisions_from_json fs
  goal ← goal_of_value (get_or "goal" null fs)
  derived_requirements ← requirements_of_value (get_or "derived_requirements" no_items fs)
  session_value ← need "session_id" fs
  session_id ← as_text session_value
  status ← as_text (get_or "status" (text "planning") fs)
  phase_text ← as_text (get_or "phase" (text "planning") fs)
  phase ← workflow_phase phase_text
  started_at ← as_text (get_or "started_at" (text now) fs)
  plan_file ← as_text (get_or "plan_file" (text ".claude/plans/plan.md") fs)
  frozen_proposal_id ← as_text_or_none (get_or "frozen_proposal_id" null fs)
  frozen_content_hash ← as_text_or_none (get_or "frozen_content_hash" null fs)
  ok (record {
    session_id = session_id;
    status = status;
    phase = phase;
    started_at = started_at;
    plan_file = plan_file;
    tasks = tasks;
    decisions = decisions;
    goal = goal;
    derived_requirements = derived_requirements;
    schema_version = current_schema_version;
    migrated_from = migration version;
    frozen_proposal_id = frozen_proposal_id;
    frozen_content_hash = frozen_content_hash;
  })

abbrev pub decision_key : String × UserDecision → String
decision_key e = e.0

-- new_decisions[key] = d
unfoldable pub put_decision :
    String → UserDecision → List (String × UserDecision) → List (String × UserDecision)
put_decision key d entries =
    if any (λ e. str_eq (decision_key e) key) entries
    then update_where (λ e. str_eq (decision_key e) key) (λ e. (e.0, d)) entries
    else entries ++ (key, d) ∷ []

unfoldable pub add_decision :
    String → String → DecisionStatus → Option String → PlanState → Result PlanState
add_decision key value status rationale s = do
  d ←
      construct_decision
        (record { key = key; value = value; status = status; rationale = rationale })
  ok (record s { decisions = put_decision key d s.decisions })

abbrev pub decision_of : Option (String × UserDecision) → Option UserDecision
decision_of none = none
decision_of (some e) = some e.1

unfoldable pub get_decision : String → PlanState → Option UserDecision
get_decision key s = decision_of (find_key decision_key key s.decisions)

-- PlanState.save gives the text of the file; writing it through a temporary file is left out.
unfoldable pub save_text : (Json → String) → PlanState → String
save_text dumps s = dumps (object (plan_to_json s))

unfoldable pub load_value : String → Option Json → Result PlanState
load_value now none = err invalid_state_error
load_value now (some (object fs)) = elim (lookup "session_id" fs) [
  | none ↦ err invalid_state_error
  | some v ↦ plan_from_json now fs
]
load_value now (some j) = err invalid_state_error

abbrev pub loaded : Result PlanState → Result (Option PlanState)
loaded (ok s) = ok (some s)
loaded (err e) = err e

-- PlanState.load, on the text of the file, if there is one. `parse` gives None where json.load
-- raises.
unfoldable pub load : (String → Option Json) → String → Option String → Result (Option PlanState)
load parse now none = ok none
load parse now (some content) = loaded (load_value now (parse content))
