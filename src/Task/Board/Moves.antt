-- ===== src/Task/Board/Moves.antt =====
-- The calls of the board that change a task, and what each one asks of the task and makes of it.
use fork_agent.Prelude.{
  ℕ, String, Bool, true, false, not, Option, none, some, ◌≡◌, refl, Exec, pure, Result, ok, err,
  task_transition_error, ◌>>=◌, ◌>>◌, arith,
}
use fork_agent.Task.Entity.{
  OrchestrationTaskStatus, OrchestrationTask, pending, planning, approved, in_progress, deleted,
  leads_to, can_transition_to, is_blocked, status_eq,
}
use fork_agent.Fpel.Hash.{compute_task_hash}
use fork_agent.Task.Repository.{Table}
use fork_agent.Task.Board.{
  refuse_if, lifted, Gate, validate_transition, submit_plan, approve, reject, pass_gate, start,
  retry, delete,
}
use fork_agent.Task.Board.Outcome.{
  Outcome, Outcome-require, Outcome-refuse_if, Outcome-store, refused,
}

-- The task moves along a transition into `target`, to what `f` makes of it.
pub record Moves (target : OrchestrationTaskStatus) (f : OrchestrationTask → OrchestrationTask)
    (old new : OrchestrationTask) : Type 0 where
  pub along : leads_to old.status target ≡ true
  pub result : new ≡ f old

abbrev pub planned : String → Option String → ℕ → OrchestrationTask → OrchestrationTask
planned plan requested_by now t = record t {
  status = planning;
  plan_text = some plan;
  updated_at = now;
  requested_by = requested_by;
}

not-true : (b : Bool) → not b ≡ false → b ≡ true
not-true true h = refl
not-true false h = ground arith

pub Outcome-validate :
    {Change : OrchestrationTask → OrchestrationTask → Type 0} {id : String} {rows : Table}
    → (t : OrchestrationTask) (target : OrchestrationTaskStatus) (k : Exec Table OrchestrationTask)
    → (leads_to t.status target ≡ true → Outcome Change id rows (k rows))
    → Outcome Change id rows ((validate_transition t target >> k) rows)
unfolding validate_transition can_transition_to
Outcome-validate t target k next =
    Outcome-refuse_if (not (leads_to t.status target)) _ k
      λ h. next (not-true (leads_to t.status target) h)

abbrev pub approval : String → Option String → ℕ → OrchestrationTask → OrchestrationTask
approval by requested_by now t = record t {
  status = approved;
  approved_by = some by;
  approved_at = some now;
  updated_at = now;
  requested_by = requested_by;
}

abbrev pub rejection : Option String → ℕ → OrchestrationTask → OrchestrationTask
rejection requested_by now t = record t {
  status = pending;
  plan_text = none;
  updated_at = now;
  requested_by = requested_by;
}

abbrev pub started : String → Option String → ℕ → OrchestrationTask → OrchestrationTask
started owner requested_by now t = record t {
  status = in_progress;
  owner = some owner;
  updated_at = now;
  requested_by = requested_by;
}

abbrev pub ended :
    OrchestrationTaskStatus → Option String → ℕ → OrchestrationTask → OrchestrationTask
ended s requested_by now t = record t { status = s; updated_at = now; requested_by = requested_by }

pub submit_plan-Outcome :
    (id plan : String) (requested_by : Option String) (now : ℕ) (rows : Table)
    → Outcome
        (Moves planning (planned plan requested_by now))
        id
        rows
        (submit_plan id plan requested_by now rows)
unfolding submit_plan
submit_plan-Outcome id plan requested_by now rows = Outcome-require _ λ t found.
    Outcome-validate t planning _
      λ h. Outcome-store t _ found refl (record { along = h; result = refl })

pub approve-Outcome :
    (id by : String) (requested_by : Option String) (now : ℕ) (rows : Table)
    → Outcome
        (Moves approved (approval by requested_by now))
        id
        rows
        (approve id by requested_by now rows)
unfolding approve
approve-Outcome id by requested_by now rows = Outcome-require _ λ t found.
    Outcome-validate t approved _
      λ h. Outcome-store t _ found refl (record { along = h; result = refl })

pub reject-Outcome :
    (id : String) (requested_by : Option String) (now : ℕ) (rows : Table)
    → Outcome (Moves pending (rejection requested_by now)) id rows (reject id requested_by now rows)
unfolding reject
reject-Outcome id requested_by now rows = Outcome-require _ λ t found.
    Outcome-validate t pending _
      λ h. Outcome-store t _ found refl (record { along = h; result = refl })

pub delete-Outcome :
    (id : String) (requested_by : Option String) (now : ℕ) (rows : Table)
    → Outcome
        (Moves deleted (ended deleted requested_by now))
        id
        rows
        (delete id requested_by now rows)
unfolding delete
delete-Outcome id requested_by now rows = Outcome-require _ λ t found.
    Outcome-validate t deleted _
      λ h. Outcome-store t _ found refl (record { along = h; result = refl })

pub retry-Outcome :
    (id : String) (rows : Table)
    → Outcome (Moves approved (λ t. record t { status = approved })) id rows (retry id rows)
unfolding retry
retry-Outcome id rows = Outcome-require _ λ t found.
    Outcome-validate t approved _
      λ h. Outcome-store t _ found refl (record { along = h; result = refl })

-- The gate allows the task under its id and the hash of its content. Without a gate, any task.
abbrev pub Admits : Option Gate → OrchestrationTask → Type 0
Admits none t = Unit
Admits (some g) t = g.check_sealed t.id (compute_task_hash g.hasher t) ≡ ok true

-- A start: the task has no blockers, the gate admits its content, and it moves to IN_PROGRESS.
pub record Starts (gate : Option Gate) (owner : String) (requested_by : Option String) (now : ℕ)
    (old new : OrchestrationTask) : Type 0 where
  pub unblocked : is_blocked old ≡ false
  pub admitted : Admits gate old
  pub ready : old.status ≡ approved
  pub moves : Moves in_progress (started owner requested_by now) old new

Outcome-gate :
    {Change : OrchestrationTask → OrchestrationTask → Type 0} {id : String} {rows : Table}
    → (gate : Option Gate) (t : OrchestrationTask) (k : Exec Table OrchestrationTask)
    → (Admits gate t → Outcome Change id rows (k rows))
    → Outcome Change id rows ((pass_gate gate t >> k) rows)
unfolding pass_gate ◌>>=◌ pure
Outcome-gate none t k next = next tt
Outcome-gate {Change} {id} {rows} (some g) t k next =
    by_answer (g.check_sealed t.id (compute_task_hash g.hasher t)) refl
  where
    by_answer :
        (r : Result Bool)
        → g.check_sealed t.id (compute_task_hash g.hasher t) ≡ r
        → Outcome Change id rows
            (((lifted r >>= λ allowed. refuse_if (not allowed) task_transition_error) >> k) rows)
    by_answer (ok true) e = next e
    by_answer (ok false) e = refused task_transition_error refl
    by_answer (err x) e = refused x refl

leads_in_progress : (s : OrchestrationTaskStatus) → leads_to s in_progress ≡ true → s ≡ approved
unfolding leads_to status_eq
leads_in_progress s h = ground arith

-- A start either refuses and leaves the table as it was, or it stores the task as IN_PROGRESS, and
-- then the stored task was APPROVED, had no blockers and was admitted by the gate, if there is one,
-- under its own id and the hash of the content that the table holds.
pub start_is_gated :
    (gate : Option Gate) (id owner : String) (requested_by : Option String) (now : ℕ) (rows : Table)
    → Outcome
        (Starts gate owner requested_by now)
        id
        rows
        (start gate id owner requested_by now rows)
unfolding start
start_is_gated gate id owner requested_by now rows = Outcome-require _ λ t found.
    Outcome-refuse_if (is_blocked t) _ _ λ unblocked. Outcome-validate t in_progress _ λ h.
      Outcome-gate gate t _ λ admitted. Outcome-store t _ found refl (record {
        unblocked = unblocked;
        ready = leads_in_progress t.status h;
        admitted = admitted;
        moves = record { along = h; result = refl };
      })
