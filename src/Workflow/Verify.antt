-- ===== src/Workflow/Verify.antt =====
-- `VerifyState` of src/application/services/workflow/state.py and its JSON form; `now`, `parse` and
-- `dumps` are as for the plan. The results of the test runner are a JSON object that is passed on.
pub mod Roundtrip
use fork_agent.Prelude.{
  ℕ, String, Bool, true, false, Option, none, some, List, map, Result, ok, err, invalid_state_error,
}
use fork_agent.Workflow.Json.{
  Json, null, bool, text, number, object, Fields, end, field, ◌>>=◌, each, need, get_or, lookup,
  as_text, as_bool, as_object, as_items, as_texts, of_texts, of_number_or_none, from_pairs,
}
use fork_agent.Workflow.Entity.{WorkflowPhase, phase_value, workflow_phase}
use fork_agent.Workflow.Task.{no_items}
use fork_agent.Workflow.Plan.{supported_version}
use fork_agent.Workflow.Execute.{migrated_version, migrated_zero}

pub record VerifyState : Type 0 where
  pub session_id : String
  pub status : String
  pub phase : WorkflowPhase
  pub started_at : String
  pub unlock_ship : Bool
  pub file_hashes : List (String × String)
  pub evidence : List String
  pub test_results : Fields
  pub schema_version : ℕ
  pub migrated_from : Option ℕ

abbrev pub hash_to_json : String × String → String × Json
hash_to_json e = (e.0, text e.1)

-- VerifyState.to_json
unfoldable pub verify_to_json : VerifyState → Fields
verify_to_json s = field "session_id" (text s.session_id) (
    field "status" (text s.status) (
      field "phase" (text (phase_value s.phase)) (
        field "started_at" (text s.started_at) (
          field "unlock_ship" (bool s.unlock_ship) (
            field "file_hashes" (object (from_pairs (map hash_to_json s.file_hashes))) (
              field "evidence" (of_texts s.evidence) (
                field "test_results" (object s.test_results) (
                  field "schema_version" (number s.schema_version)
                    (field "migrated_from" (of_number_or_none s.migrated_from) end)))))))))

unfoldable pub hash_from_json : String × Json → Result (String × String)
hash_from_json e = do v ← as_text e.1; ok (e.0, v)

unfoldable pub hashes_from_json : Json → Result (List (String × String))
hashes_from_json j = do items ← as_items j; each hash_from_json items

-- VerifyState.from_json
unfoldable pub verify_from_json : String → Fields → Result VerifyState
verify_from_json now fs = do
  version ← supported_version fs
  session_value ← need "session_id" fs
  session_id ← as_text session_value
  status ← as_text (get_or "status" (text "pending") fs)
  phase_text ← as_text (get_or "phase" (text "planning") fs)
  phase ← workflow_phase phase_text
  started_at ← as_text (get_or "started_at" (text now) fs)
  unlock_ship ← as_bool (get_or "unlock_ship" (bool false) fs)
  file_hashes ← hashes_from_json (get_or "file_hashes" (object end) fs)
  evidence ← as_texts (get_or "evidence" no_items fs)
  test_results ← as_object (get_or "test_results" (object end) fs)
  ok (record {
    session_id = session_id;
    status = status;
    phase = phase;
    started_at = started_at;
    unlock_ship = unlock_ship;
    file_hashes = file_hashes;
    evidence = evidence;
    test_results = test_results;
    schema_version = migrated_version version;
    migrated_from = migrated_zero version;
  })

unfoldable pub save_text : (Json → String) → VerifyState → String
save_text dumps s = dumps (object (verify_to_json s))

unfoldable pub load_value : String → Option Json → Result VerifyState
load_value now none = err invalid_state_error
load_value now (some (object fs)) = elim (lookup "session_id" fs) [
  | none ↦ err invalid_state_error
  | some v ↦ verify_from_json now fs
]
load_value now (some j) = err invalid_state_error

abbrev pub loaded : Result VerifyState → Result (Option VerifyState)
loaded (ok s) = ok (some s)
loaded (err e) = err e

-- VerifyState.load
unfoldable pub load : (String → Option Json) → String → Option String → Result (Option VerifyState)
load parse now none = ok none
load parse now (some content) = loaded (load_value now (parse content))
