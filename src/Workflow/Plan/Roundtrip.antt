-- ===== src/Workflow/Plan/Roundtrip.antt =====
-- A plan state that is written as JSON and read again, and decisions that are added and looked up.
use fork_agent.Prelude.{
  ℕ, ◌≤◌, ◌<◌, unsupported_schema_error, String, true, false, Option, none, some, List, [], ◌∷◌,
  ◌≡◌, refl, ap, ◌∙◌, arith, map, All, is_empty, ok, err,
}
use fork_agent.Workflow.Json.{
  Json, null, number, array, object, Fields, ◌>>=◌, each, each-inverse, need, get_or, lookup,
  as_text, as_number, as_list, as_object, as_items, from_list, to_list-from_list,
  to_pairs-from_pairs, as_texts-of_texts, as_text-of_text_or_none, is_truthy,
}
use fork_agent.Workflow.Entity.{
  UserDecision, construct_decision, Goal, goal_passes, construct_goal, DerivedRequirement,
  requirement_passes, construct_requirement, decision_status-value, requirement_priority-value,
  requirement_source-value, workflow_phase-value,
}
use fork_agent.Workflow.Task.{tasks_to_json, tasks_from_json, tasks-roundtrip, task_to_json}
use fork_agent.Workflow.Plan.{
  PlanState, current_schema_version, decision_to_json, entry_to_json, goal_to_json,
  requirement_to_json, plan_to_json, supported_version, migration, decision_of_fields,
  entry_from_json, decisions_from_json, goal_of_fields, goal_of_value, requirement_of_fields,
  requirement_from_json, requirements_of_value, plan_from_json, save_text, load, load_value, loaded,
}

entry-roundtrip :
    (e : String × UserDecision)
    → is_empty e.1.key ≡ false
    → entry_from_json (entry_to_json e) ≡ ok e
unfolding entry_from_json decision_to_json decision_of_fields construct_decision as_object need
    get_or lookup as_text ◌>>=◌
entry-roundtrip e named =
    rw (decision_status-value e.1.status, as_text-of_text_or_none e.1.rationale, named) refl

-- A goal, if there is one, passes the checks of its class.
abbrev pub IsGoal : Option Goal → Type 0
IsGoal none = Unit
IsGoal (some g) = goal_passes g ≡ true

goal-roundtrip : (g : Option Goal) → IsGoal g → goal_of_value (goal_to_json g) ≡ ok g
unfolding goal_of_value goal_to_json goal_of_fields construct_goal is_truthy as_object need get_or
    lookup as_text ◌>>=◌
goal-roundtrip none h = refl
goal-roundtrip (some g) h =
    rw
      (
        as_texts-of_texts g.must_haves,
        as_texts-of_texts g.nice_to_haves,
        as_texts-of_texts g.scope_in,
        as_texts-of_texts g.scope_out,
        h,
      )
      refl

requirement-roundtrip :
    (r : DerivedRequirement)
    → requirement_passes r ≡ true
    → requirement_from_json (requirement_to_json r) ≡ ok r
unfolding requirement_from_json requirement_to_json requirement_of_fields construct_requirement
    as_object need get_or lookup as_text ◌>>=◌
requirement-roundtrip r h =
    rw (requirement_source-value r.source, requirement_priority-value r.priority, h) refl

-- What the constructors have checked, and a version that is supported.
pub record IsWritable (s : PlanState) : Type 0 where
  pub decisions : All (λ (e : String × UserDecision). is_empty e.1.key ≡ false) s.decisions
  pub goal : IsGoal s.goal
  pub requirements : All (λ r. requirement_passes r ≡ true) s.derived_requirements
  pub supported : s.schema_version ≤ current_schema_version

All-map :
    {A : Type 0} {P Q : A → Type 0} → ((a : A) → P a → Q a) → (xs : List A) → All P xs → All Q xs
All-map f [] h = tt
All-map f (x ∷ xs) h = (f x h.0, All-map f xs h.1)

entries-roundtrip :
    (es : List (String × UserDecision))
    → All (λ (e : String × UserDecision). is_empty e.1.key ≡ false) es
    → each entry_from_json (map entry_to_json es) ≡ ok es
entries-roundtrip es h =
    each-inverse entry_from_json entry_to_json es (All-map entry-roundtrip es h)

requirements-roundtrip :
    (rs : List DerivedRequirement)
    → All (λ r. requirement_passes r ≡ true) rs
    → requirements_of_value (array (from_list (map requirement_to_json rs))) ≡ ok rs
unfolding requirements_of_value is_truthy as_list ◌>>=◌ each
requirements-roundtrip [] h = refl
requirements-roundtrip (r ∷ rs) h = rw (to_list-from_list (map requirement_to_json rs)) (
    each-inverse requirement_from_json requirement_to_json (r ∷ rs)
      (All-map requirement-roundtrip (r ∷ rs) h))

module _ (s : PlanState) (w : IsWritable s) where
  version_back : supported_version (plan_to_json s) ≡ ok s.schema_version
  unfolding supported_version plan_to_json get_or lookup as_number ◌>>=◌
  version_back = ground (arith, w.supported)

  tasks_back : tasks_from_json (plan_to_json s) ≡ ok s.tasks
  unfolding tasks_from_json plan_to_json tasks_to_json get_or lookup as_list ◌>>=◌
  tasks_back = rw (to_list-from_list (map task_to_json s.tasks)) (tasks-roundtrip s.tasks)

  decisions_back : decisions_from_json (plan_to_json s) ≡ ok s.decisions
  unfolding decisions_from_json plan_to_json get_or lookup as_items ◌>>=◌
  decisions_back =
      rw (to_pairs-from_pairs (map entry_to_json s.decisions))
        (entries-roundtrip s.decisions w.decisions)

-- A state with a supported schema version whose decisions, goal and requirements pass the checks of
-- their classes is read again from its JSON form as it was, but with the current schema version, and
-- with the version that it had, if that was older, as the one that it was migrated from.
pub plan_state-roundtrip :
    (now : String) (s : PlanState)
    → IsWritable s
    → plan_from_json now (plan_to_json s)
      ≡ ok (record s {
        schema_version = current_schema_version;
        migrated_from = migration s.schema_version;
      })
unfolding plan_from_json plan_to_json need get_or lookup as_text ◌>>=◌
plan_state-roundtrip now s w =
    rw
      (
        version_back s w,
        tasks_back s w,
        decisions_back s w,
        goal-roundtrip s.goal w.goal,
        requirements-roundtrip s.derived_requirements w.requirements,
        workflow_phase-value s.phase,
        as_text-of_text_or_none s.frozen_proposal_id,
        as_text-of_text_or_none s.frozen_content_hash,
      )
      refl

-- Where reading the text that was written gives back its JSON, a plan state with a supported schema
-- version whose decisions, goal and requirements pass the checks of their classes is loaded from the
-- file that it was saved to as it was, but with the current schema version, and with the version
-- that it had, if that was older, as the one that it was migrated from.
pub plan_saved-load :
    (parse : String → Option Json) (dumps : Json → String) (now : String) (s : PlanState)
    → parse (save_text dumps s) ≡ some (object (plan_to_json s))
    → IsWritable s
    → load parse now (some (save_text dumps s))
      ≡ ok (
          some (record s {
            schema_version = current_schema_version;
            migrated_from = migration s.schema_version;
          }))
unfolding load load_value save_text lookup plan_to_json
plan_saved-load parse dumps now s parses w =
    ap (λ j. loaded (load_value now j)) parses ∙ ap loaded (plan_state-roundtrip now s w)

-- A JSON form with a schema version above the current one is refused, whatever else it has.
pub newer_schema_refused :
    (now : String) (fs : Fields) (version : ℕ)
    → get_or "schema_version" null fs ≡ number version
    → current_schema_version < version
    → plan_from_json now fs ≡ err unsupported_schema_error
unfolding plan_from_json supported_version as_number ◌>>=◌
newer_schema_refused now fs version found above = rw found (ground (arith, above))
