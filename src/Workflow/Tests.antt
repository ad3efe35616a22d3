-- ===== src/Workflow/Tests.antt =====
-- States of a workflow that are saved and loaded.
use fork_agent.Prelude.{String, true, none, some, [], ◌∷◌, ◌≡◌, ◌≢◌, refl, arith, ok, is_empty}
use fork_agent.Workflow.Json.{Json, object, end, ◌>>=◌}
use fork_agent.Workflow.Entity.{
  locked, discretion, UserDecision, Goal, DerivedRequirement, explicit, must, goal_passes,
  requirement_passes, overlaps, construct_decision, planning, executing, verifying,
}
use fork_agent.Workflow.Task.{Task}
use fork_agent.Workflow.Plan.{
  PlanState, plan_to_json, current_schema_version, migration, put_decision, add_decision,
  get_decision,
}
use fork_agent.Workflow.Plan.Roundtrip.{IsWritable, plan_saved-load}
use fork_agent.Workflow.Plan.Decisions.{add_decision-get_decision}
use fork_agent.Workflow.Execute.{ExecuteState, execute_to_json, migrated_version, migrated_zero}
use fork_agent.Workflow.Execute.Roundtrip.{execute_state-roundtrip}
use fork_agent.Workflow.Verify.{VerifyState, verify_to_json}
use fork_agent.Workflow.Verify.Roundtrip.{verify_state-roundtrip}
use fork_agent.Workflow.Plan
use fork_agent.Workflow.Execute
use fork_agent.Workflow.Verify

abbrev task : Task
task = record {
  id = "1";
  slug = "write";
  description = "write it";
  status = "pending";
  branch = none;
  worktree_path = some "/w";
  session_name = none;
  agent_pid = some 7;
  depends_on = "0" ∷ [];
  requirement_ids = [];
}

abbrev decision : UserDecision
decision = record { key = "db"; value = "sqlite"; status = locked; rationale = none }

abbrev goal : Goal
goal = record {
  objective = "ship";
  must_haves = "tests" ∷ [];
  nice_to_haves = [];
  scope_in = "a" ∷ [];
  scope_out = "b" ∷ [];
}

abbrev requirement : DerivedRequirement
requirement = record { id = "R1"; description = "tests pass"; source = explicit; priority = must }

abbrev plan : PlanState
plan = record {
  session_id = "s";
  status = "planning";
  phase = planning;
  started_at = "then";
  plan_file = "plan.md";
  tasks = task ∷ [];
  decisions = ("db", decision) ∷ [];
  goal = some goal;
  derived_requirements = requirement ∷ [];
  schema_version = 3;
  migrated_from = none;
  frozen_proposal_id = some "p";
  frozen_content_hash = none;
}

plan-IsWritable : IsWritable plan
unfolding goal_passes requirement_passes overlaps is_empty
plan-IsWritable = record {
  decisions = (refl, tt);
  goal = refl;
  requirements = (refl, tt);
  supported = omega arith;
}

-- A file format that holds this one value.
abbrev one_text : Json → String
one_text j = "file"

plan_saved-load_example :
    Plan.load (λ t. some (object (plan_to_json plan))) "now" (some (Plan.save_text one_text plan))
    ≡ ok (
        some (record plan { schema_version = current_schema_version; migrated_from = migration 3 }))
plan_saved-load_example =
    plan_saved-load (λ t. some (object (plan_to_json plan))) one_text "now" plan refl
      plan-IsWritable

abbrev with_decision : PlanState
with_decision = record plan {
  decisions =
      ("db", decision)
      ∷ ("ui", record { key = "ui"; value = "cli"; status = discretion; rationale = none })
      ∷ [];
}

added : add_decision "ui" "cli" discretion none plan ≡ ok with_decision
unfolding add_decision construct_decision put_decision ◌>>=◌ is_empty
added = refl

add_decision-get_decision_example :
    (get_decision "ui" with_decision
      ≡ some (record { key = "ui"; value = "cli"; status = discretion; rationale = none }))
    × ((k : String) → "ui" ≢ k → get_decision k with_decision ≡ get_decision k plan)
add_decision-get_decision_example =
    add_decision-get_decision "ui" "cli" discretion none plan with_decision added

abbrev execution : ExecuteState
execution = record {
  session_id = "s";
  status = "running";
  phase = executing;
  started_at = "then";
  tasks = task ∷ [];
  current_task_index = 1;
  schema_version = 0;
  migrated_from = none;
}

execute_state-roundtrip_example :
    Execute.load
      (λ t. some (object (execute_to_json execution)))
      "now"
      (some (Execute.save_text one_text execution))
    ≡ ok (
        some (record execution {
          schema_version = migrated_version 0;
          migrated_from = migrated_zero 0;
        }))
execute_state-roundtrip_example =
    execute_state-roundtrip (λ t. some (object (execute_to_json execution))) one_text "now"
      execution refl (omega arith)

abbrev verification : VerifyState
verification = record {
  session_id = "s";
  status = "passed";
  phase = verifying;
  started_at = "then";
  unlock_ship = true;
  file_hashes = ("a.py", "00") ∷ [];
  evidence = "log" ∷ [];
  test_results = end;
  schema_version = 4;
  migrated_from = none;
}

verify_state-roundtrip_example :
    Verify.load
      (λ t. some (object (verify_to_json verification)))
      "now"
      (some (Verify.save_text one_text verification))
    ≡ ok (
        some (record verification {
          schema_version = migrated_version 4;
          migrated_from = migrated_zero 4;
        }))
verify_state-roundtrip_example =
    verify_state-roundtrip (λ t. some (object (verify_to_json verification))) one_text "now"
      verification refl (omega arith)
