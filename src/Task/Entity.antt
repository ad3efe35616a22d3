-- ===== src/Task/Entity.antt =====
-- src/domain/entities/orchestration_task.py: the status enum, its transitions, and the task record
-- with the checks of `__post_init__`.
use fork_agent.Prelude.{
  ℕ, String, Bool, true, false, not, ◌&&◌, Option, List, [], ◌∷◌, ◌≡◌, ◌==◌, if◌then◌else◌, any,
  all, is_empty, str_eq, Result, ok, err, value_error, arith,
}

pub data OrchestrationTaskStatus : Type 0 where
  pending planning approved in_progress completed deleted : OrchestrationTaskStatus

-- The place of a status in the enum.
unfoldable pub status_no : OrchestrationTaskStatus → ℕ
status_no pending = 0
status_no planning = 1
status_no approved = 2
status_no in_progress = 3
status_no completed = 4
status_no deleted = 5

unfoldable pub status_eq : OrchestrationTaskStatus → OrchestrationTaskStatus → Bool
unfolding status_no
status_eq s t = status_no s == status_no t

pub status_eq-eq : (s t : OrchestrationTaskStatus) → status_eq s t ≡ true → s ≡ t
unfolding status_eq
status_eq-eq s t h = ground arith

-- _TRANSITIONS
abbrev pub transitions : OrchestrationTaskStatus → List OrchestrationTaskStatus
transitions pending = planning ∷ deleted ∷ []
transitions planning = approved ∷ pending ∷ deleted ∷ []
transitions approved = in_progress ∷ deleted ∷ []
transitions in_progress = completed ∷ approved ∷ deleted ∷ []
transitions completed = deleted ∷ []
transitions deleted = []

unfoldable pub leads_to : OrchestrationTaskStatus → OrchestrationTaskStatus → Bool
unfolding status_eq
leads_to s t = any (status_eq t) (transitions s)

pub record OrchestrationTask : Type 0 where
  pub id : String
  pub subject : String
  pub description : Option String
  pub status : OrchestrationTaskStatus
  pub owner : Option String
  pub blocked_by : List String
  pub plan_text : Option String
  pub created_at : ℕ
  pub updated_at : ℕ
  pub approved_by : Option String
  pub approved_at : Option ℕ
  pub requested_by : Option String

-- __post_init__ passes. The isinstance tests hold by typing, and the times are natural numbers.
unfoldable pub post_init_passes : OrchestrationTask → Bool
post_init_passes t =
    not (is_empty t.id)
    && not (is_empty t.subject)
    && not (any (str_eq t.id) t.blocked_by)
    && all (λ b. not (is_empty b)) t.blocked_by

-- OrchestrationTask(…) and dataclasses.replace(…)
unfoldable pub construct : OrchestrationTask → Result OrchestrationTask
construct t = if post_init_passes t then ok t else err value_error

unfoldable pub can_transition_to : OrchestrationTask → OrchestrationTaskStatus → Bool
can_transition_to t target = leads_to t.status target

unfoldable pub is_blocked : OrchestrationTask → Bool
is_blocked t = elim t.blocked_by [ [] ↦ false | b ∷ bs ↦ true ]
