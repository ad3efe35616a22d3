-- ===== src/Task/Board/History.antt =====
-- Histories of the board: the calls that change tasks, one after the other, each raising or not.
use mathlib.Core.Bool.{false≢true}
use fork_agent.Prelude.{
  ℕ, String, true, Option, none, some, ◌≡◌, refl, sym, ap, ◌∙◌, Exec, Exn, err, find_key, subst,
  some_eq,
}
use fork_agent.Task.Entity.{OrchestrationTask, deleted, is_blocked}
use fork_agent.Task.Repository.{Table, task_key}
use fork_agent.Task.Repository.Advance.{
  Advances, Advances-deleted, Advances-blocked_by, Evolves, evolve_order,
}
use fork_agent.Task.Board.{
  Gate, Given, create, submit_plan, approve, reject, start, retry, delete, update, complete,
}
use fork_agent.Task.Board.Outcome.{refused, stored}
use fork_agent.Task.Board.Moves.{
  submit_plan-Outcome, approve-Outcome, reject-Outcome, delete-Outcome, retry-Outcome,
  start_is_gated,
}
use fork_agent.Task.Board.Edit.{update-refused_or_stored}
use fork_agent.Task.Board.Evolve.{
  Outcome-Evolves, Moves-Allowed, Edits-Allowed, complete_rows, complete-Outcome, create-Evolves,
}

-- A method that changes tasks, with the new UUIDs and clock readings that it uses.
pub data Call : Type 0 where
  submit_plan_call : String → String → Option String → ℕ → Call
  approve_call : String → String → Option String → ℕ → Call
  reject_call : String → Option String → ℕ → Call
  start_call : Option Gate → String → String → Option String → ℕ → Call
  complete_call : String → Option String → ℕ → Call
  retry_call : String → Call
  delete_call : String → Option String → ℕ → Call
  update_call : String → Given → Given → Given → ℕ → Call

unfoldable pub perform : Call → Exec Table OrchestrationTask
perform (submit_plan_call id plan requested_by now) = submit_plan id plan requested_by now
perform (approve_call id by requested_by now) = approve id by requested_by now
perform (reject_call id requested_by now) = reject id requested_by now
perform (start_call gate id owner requested_by now) = start gate id owner requested_by now
perform (complete_call id requested_by now) = complete id requested_by now
perform (retry_call id) = retry id
perform (delete_call id requested_by now) = delete id requested_by now
perform (update_call id subject description owner now) = update id subject description owner now

perform-Evolves : (c : Call) (rows : Table) → Evolves rows (perform c rows).1
unfolding perform
perform-Evolves (submit_plan_call id plan requested_by now) rows =
    Outcome-Evolves (Moves-Allowed _ _ (λ t. refl) (λ t. refl) (λ t. refl) (λ t. refl))
      (submit_plan-Outcome id plan requested_by now rows)
perform-Evolves (approve_call id by requested_by now) rows =
    Outcome-Evolves (Moves-Allowed _ _ (λ t. refl) (λ t. refl) (λ t. refl) (λ t. refl))
      (approve-Outcome id by requested_by now rows)
perform-Evolves (reject_call id requested_by now) rows =
    Outcome-Evolves (Moves-Allowed _ _ (λ t. refl) (λ t. refl) (λ t. refl) (λ t. refl))
      (reject-Outcome id requested_by now rows)
perform-Evolves (start_call gate id owner requested_by now) rows =
    Outcome-Evolves
      (λ old new s.
        Moves-Allowed _ _ (λ t. refl) (λ t. refl) (λ t. refl) (λ t. refl) old new s.moves)
      (start_is_gated gate id owner requested_by now rows)
perform-Evolves (complete_call id requested_by now) rows =
    subst (Evolves rows) (sym (complete_rows id requested_by now rows)) (
      Outcome-Evolves (Moves-Allowed _ _ (λ t. refl) (λ t. refl) (λ t. refl) (λ t. refl))
        (complete-Outcome id requested_by now rows))
perform-Evolves (retry_call id) rows =
    Outcome-Evolves (Moves-Allowed _ _ (λ t. refl) (λ t. refl) (λ t. refl) (λ t. refl))
      (retry-Outcome id rows)
perform-Evolves (delete_call id requested_by now) rows =
    Outcome-Evolves (Moves-Allowed _ _ (λ t. refl) (λ t. refl) (λ t. refl) (λ t. refl))
      (delete-Outcome id requested_by now rows)
perform-Evolves (update_call id subject description owner now) rows =
    Outcome-Evolves (Edits-Allowed _ _ _ _)
      (update-refused_or_stored id subject description owner now rows)

-- The tables that the board can reach: a task is created under an id that the table does not have,
-- as a fresh UUID is, and the other calls are made in any order, whether they raise or not.
pub data Reaches (start : Table) : Table → Type 0 where
  here : Reaches start start
  created :
      {rows : Table} (id subject : String) (description owner : Option String) (now : ℕ)
      → Reaches start rows
      → find_key task_key id rows ≡ none
      → Reaches start (create id subject description owner now rows).1
  called : {rows : Table} (c : Call) → Reaches start rows → Reaches start (perform c rows).1

reach-Evolves : {rows rows' : Table} → Reaches rows rows' → Evolves rows rows'
reach-Evolves here = evolve_order.rel_refl _
reach-Evolves (created {rows = rows} id subject description owner now reach new) =
    evolve_order.rel_trans _ rows _ (reach-Evolves reach)
      (create-Evolves id subject description owner now rows new)
reach-Evolves (called {rows = rows} c reach) =
    evolve_order.rel_trans _ rows _ (reach-Evolves reach) (perform-Evolves c rows)

-- A task that the table holds stays in it through every history of calls, whether they raise or
-- not, and its stored version comes about by steps that each keep the id, the blockers and the
-- creation time, leave a task that is DELETED alone, and keep the status or follow a transition.
pub history_follows_transitions :
    (rows rows' : Table) (id : String) (l : OrchestrationTask)
    → Reaches rows rows'
    → find_key task_key id rows ≡ some l
    → (m : OrchestrationTask) × (find_key task_key id rows' ≡ some m) × Advances l m
history_follows_transitions rows rows' id l reach found = reach-Evolves reach id l found

-- A task that is DELETED is still there, field by field, after every history of calls.
pub deleted_task_is_final :
    (rows rows' : Table) (id : String) (l : OrchestrationTask)
    → Reaches rows rows'
    → find_key task_key id rows ≡ some l
    → l.status ≡ deleted
    → find_key task_key id rows' ≡ some l
deleted_task_is_final rows rows' id l reach found d =
    let (m, found', a) = reach-Evolves reach id l found in found' ∙ ap some (Advances-deleted a d)

blocked_by_list :
    (l m : OrchestrationTask)
    → m.blocked_by ≡ l.blocked_by
    → is_blocked l ≡ true
    → is_blocked m ≡ true
unfolding is_blocked
blocked_by_list l m e h = rw e h

-- A task that has blockers never starts: after every history of calls, whatever became of its
-- blockers, a start of it raises and leaves the table as it is.
pub blocked_task_never_starts :
    (rows rows' : Table) (id : String) (l : OrchestrationTask)
    → Reaches rows rows'
    → find_key task_key id rows ≡ some l
    → is_blocked l ≡ true
    → (gate : Option Gate) (owner : String) (requested_by : Option String) (now : ℕ)
    → (e : Exn) × (start gate id owner requested_by now rows' ≡ (err e, rows'))
blocked_task_never_starts rows rows' id l reach found blocked gate owner requested_by now =
    elim (start_is_gated gate id owner requested_by now rows') [
      | refused e h ↦ (e, h)
      | stored old new found' same fine s h ↦
          let (m, found'', a) = reach-Evolves reach id l found in
          absurd (
            false≢true (
              sym s.unblocked
              ∙ blocked_by_list l old
                  (ap (λ (t : OrchestrationTask). t.blocked_by) (some_eq (sym found' ∙ found''))
                    ∙ Advances-blocked_by a)
                  blocked))
    ]
