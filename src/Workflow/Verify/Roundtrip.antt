-- ===== src/Workflow/Verify/Roundtrip.antt =====
-- A verification state that is saved and loaded again.
use fork_agent.Prelude.{
  ◌≤◌, String, Option, some, List, [], ◌∷◌, ◌≡◌, refl, ap, ◌∙◌, map, All, arith, ok,
}
use fork_agent.Workflow.Json.{
  Json, object, ◌>>=◌, each-inverse, need, get_or, lookup, as_text, as_number, as_bool, as_object,
  as_items, from_pairs, to_pairs-from_pairs, as_texts-of_texts,
}
use fork_agent.Workflow.Entity.{workflow_phase-value}
use fork_agent.Workflow.Plan.{supported_version, current_schema_version}
use fork_agent.Workflow.Execute.{migrated_version, migrated_zero}
use fork_agent.Workflow.Verify.{
  VerifyState, hash_to_json, verify_to_json, hash_from_json, hashes_from_json, verify_from_json,
  save_text, load_value, load, loaded,
}

hashes_back :
    (hs : List (String × String))
    → hashes_from_json (object (from_pairs (map hash_to_json hs))) ≡ ok hs
unfolding hashes_from_json as_items hash_from_json as_text ◌>>=◌
hashes_back hs =
    rw (to_pairs-from_pairs (map hash_to_json hs))
      (each-inverse hash_from_json hash_to_json hs (each_hash hs))
  where
    each_hash : (hs : List (String × String)) → All (λ e. hash_from_json (hash_to_json e) ≡ ok e) hs
    each_hash [] = tt
    each_hash (e ∷ es) = (refl, each_hash es)

module _ (s : VerifyState) (supported : s.schema_version ≤ current_schema_version) where
  version_back : supported_version (verify_to_json s) ≡ ok s.schema_version
  unfolding supported_version verify_to_json get_or lookup as_number ◌>>=◌
  version_back = ground (arith, supported)

  verify_back :
      (now : String)
      → verify_from_json now (verify_to_json s)
        ≡ ok (record s {
          schema_version = migrated_version s.schema_version;
          migrated_from = migrated_zero s.schema_version;
        })
  unfolding verify_from_json verify_to_json need get_or lookup as_text as_bool as_object ◌>>=◌
  verify_back now =
      rw
        (
          version_back,
          workflow_phase-value s.phase,
          hashes_back s.file_hashes,
          as_texts-of_texts s.evidence,
        )
        refl

-- Where reading the text that was written gives back its JSON, a verification state with a supported schema
-- version is loaded from the file that it was saved to as it was, but version 0 becomes the current
-- one and is the one that it was migrated from; another version is kept, and is migrated from none.
pub verify_state-roundtrip :
    (parse : String → Option Json) (dumps : Json → String) (now : String) (s : VerifyState)
    → parse (save_text dumps s) ≡ some (object (verify_to_json s))
    → s.schema_version ≤ current_schema_version
    → load parse now (some (save_text dumps s))
      ≡ ok (
          some (record s {
            schema_version = migrated_version s.schema_version;
            migrated_from = migrated_zero s.schema_version;
          }))
unfolding load load_value save_text lookup verify_to_json
verify_state-roundtrip parse dumps now s parses supported =
    ap (λ j. loaded (load_value now j)) parses ∙ ap loaded (verify_back s supported now)
