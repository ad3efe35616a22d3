-- ===== src/Workflow/Entity.antt =====
-- src/domain/entities/goal.py, user_decision.py and derived_requirement.py, and the phases of
-- src/application/services/workflow/state.py: records with the checks of `__post_init__`, enums with
-- the texts that they are written as. The isinstance tests hold by typing.
use fork_agent.Prelude.{
  String, Bool, not, ◌&&◌, Option, List, [], ◌∷◌, ◌≡◌, refl, if◌then◌else◌, str_eq, any, leb,
  length, codes, is_empty, Result, ok, err, value_error,
}

pub data DecisionStatus : Type 0 where
  locked deferred discretion : DecisionStatus

pub record UserDecision : Type 0 where
  pub key : String
  pub value : String
  pub status : DecisionStatus
  pub rationale : Option String

unfoldable pub construct_decision : UserDecision → Result UserDecision
construct_decision d = if is_empty d.key then err value_error else ok d

unfoldable pub with_status : DecisionStatus → UserDecision → Result UserDecision
with_status new_status d = construct_decision (record d { status = new_status })

unfoldable pub with_value : String → UserDecision → Result UserDecision
with_value new_value d = construct_decision (record d { value = new_value })

pub record Goal : Type 0 where
  pub objective : String
  pub must_haves : List String
  pub nice_to_haves : List String
  pub scope_in : List String
  pub scope_out : List String

-- `set(scope_in) & set(scope_out)` is not empty.
unfoldable pub overlaps : List String → List String → Bool
overlaps xs ys = any (λ x. any (str_eq x) ys) xs

unfoldable pub goal_passes : Goal → Bool
goal_passes g =
    not (is_empty g.objective)
    && leb (length (codes g.objective)) 10000
    && not (overlaps g.scope_in g.scope_out)

unfoldable pub construct_goal : Goal → Result Goal
construct_goal g = if goal_passes g then ok g else err value_error

pub data RequirementPriority : Type 0 where
  must nice : RequirementPriority

pub data RequirementSource : Type 0 where
  explicit derived : RequirementSource

pub record DerivedRequirement : Type 0 where
  pub id : String
  pub description : String
  pub source : RequirementSource
  pub priority : RequirementPriority

unfoldable pub requirement_passes : DerivedRequirement → Bool
requirement_passes r = not (is_empty r.id) && not (is_empty r.description)

unfoldable pub construct_requirement : DerivedRequirement → Result DerivedRequirement
construct_requirement r = if requirement_passes r then ok r else err value_error

pub data WorkflowPhase : Type 0 where
  planning outlined executing executed verifying verified shipping shipped hunting hunted :
      WorkflowPhase

-- The value of a member.
abbrev pub status_value : DecisionStatus → String
status_value locked = "locked"
status_value deferred = "deferred"
status_value discretion = "discretion"

abbrev pub priority_value : RequirementPriority → String
priority_value must = "must"
priority_value nice = "nice"

abbrev pub source_value : RequirementSource → String
source_value explicit = "explicit"
source_value derived = "derived"

abbrev pub phase_value : WorkflowPhase → String
phase_value planning = "planning"
phase_value outlined = "outlined"
phase_value executing = "executing"
phase_value executed = "executed"
phase_value verifying = "verifying"
phase_value verified = "verified"
phase_value shipping = "shipping"
phase_value shipped = "shipped"
phase_value hunting = "hunting"
phase_value hunted = "hunted"

-- The member with a value, among some members: `Enum(value)`.
unfoldable pub member : {A : Type 0} → (A → String) → List A → String → Result A
member value [] s = err value_error
member value (a ∷ others) s =
    let rest = member value others s in if str_eq (value a) s then ok a else rest

unfoldable pub decision_status : String → Result DecisionStatus
unfolding member
decision_status s = member status_value (locked ∷ deferred ∷ discretion ∷ []) s

unfoldable pub requirement_priority : String → Result RequirementPriority
unfolding member
requirement_priority s = member priority_value (must ∷ nice ∷ []) s

unfoldable pub requirement_source : String → Result RequirementSource
unfolding member
requirement_source s = member source_value (explicit ∷ derived ∷ []) s

unfoldable pub workflow_phase : String → Result WorkflowPhase
unfolding member
workflow_phase s =
    member phase_value
      (planning ∷ outlined ∷ executing ∷ executed ∷ verifying ∷ verified ∷ shipping ∷ shipped
        ∷ hunting ∷ hunted ∷ [])
      s

pub decision_status-value : (s : DecisionStatus) → decision_status (status_value s) ≡ ok s
unfolding decision_status
decision_status-value locked = refl
decision_status-value deferred = refl
decision_status-value discretion = refl

pub requirement_priority-value :
    (p : RequirementPriority) → requirement_priority (priority_value p) ≡ ok p
unfolding requirement_priority
requirement_priority-value must = refl
requirement_priority-value nice = refl

pub requirement_source-value : (s : RequirementSource) → requirement_source (source_value s) ≡ ok s
unfolding requirement_source
requirement_source-value explicit = refl
requirement_source-value derived = refl

pub workflow_phase-value : (p : WorkflowPhase) → workflow_phase (phase_value p) ≡ ok p
unfolding workflow_phase
workflow_phase-value planning = refl
workflow_phase-value outlined = refl
workflow_phase-value executing = refl
workflow_phase-value executed = refl
workflow_phase-value verifying = refl
workflow_phase-value verified = refl
workflow_phase-value shipping = refl
workflow_phase-value shipped = refl
workflow_phase-value hunting = refl
workflow_phase-value hunted = refl
