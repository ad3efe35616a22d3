-- ===== src/Workflow/Execute/Roundtrip.antt =====
-- An execution state that is saved and loaded again.
use fork_agent.Prelude.{◌≤◌, String, Option, some, ◌≡◌, refl, ap, ◌∙◌, map, arith, ok}
use fork_agent.Workflow.Json.{
  Json, object, ◌>>=◌, need, get_or, lookup, as_text, as_number, as_list, to_list-from_list,
}
use fork_agent.Workflow.Entity.{workflow_phase-value}
use fork_agent.Workflow.Task.{tasks_to_json, tasks_from_json, task_to_json, tasks-roundtrip}
use fork_agent.Workflow.Plan.{supported_version, current_schema_version}
use fork_agent.Workflow.Execute.{
  ExecuteState, execute_to_json, execute_from_json, migrated_version, migrated_zero, save_text,
  load_value, load, loaded,
}

module _ (s : ExecuteState) (supported : s.schema_version ≤ current_schema_version) where
  version_back : supported_version (execute_to_json s) ≡ ok s.schema_version
  unfolding supported_version execute_to_json get_or lookup as_number ◌>>=◌
  version_back = ground (arith, supported)

  tasks_back : tasks_from_json (execute_to_json s) ≡ ok s.tasks
  unfolding tasks_from_json execute_to_json tasks_to_json get_or lookup as_list ◌>>=◌
  tasks_back = rw (to_list-from_list (map task_to_json s.tasks)) (tasks-roundtrip s.tasks)

  execute_back :
      (now : String)
      → execute_from_json now (execute_to_json s)
        ≡ ok (record s {
          schema_version = migrated_version s.schema_version;
          migrated_from = migrated_zero s.schema_version;
        })
  unfolding execute_from_json execute_to_json need get_or lookup as_text as_number ◌>>=◌
  execute_back now = rw (version_back, tasks_back, workflow_phase-value s.phase) refl

-- Where reading the text that was written gives back its JSON, an execution state with a supported schema
-- version is loaded from the file that it was saved to as it was, but version 0 becomes the current
-- one and is the one that it was migrated from; another version is kept, and is migrated from none.
pub execute_state-roundtrip :
    (parse : String → Option Json) (dumps : Json → String) (now : String) (s : ExecuteState)
    → parse (save_text dumps s) ≡ some (object (execute_to_json s))
    → s.schema_version ≤ current_schema_version
    → load parse now (some (save_text dumps s))
      ≡ ok (
          some (record s {
            schema_version = migrated_version s.schema_version;
            migrated_from = migrated_zero s.schema_version;
          }))
unfolding load load_value save_text lookup execute_to_json
execute_state-roundtrip parse dumps now s parses supported =
    ap (λ j. loaded (load_value now j)) parses ∙ ap loaded (execute_back s supported now)
