-- ===== src/Task/Board/Outcome.antt =====
-- What a call of the task board does: it refuses and leaves the table as it is, or it stores a new
-- version of the task that it read. Each call's `Change` says when it stores, and what.
use fork_agent.Prelude.{
  String, Bool, true, false, subst, Option, none, some, ◌≡◌, refl, sym, ◌∙◌, Exec, Exn, Result, ok,
  err, value_error, pure, raise, ◌>>=◌, ◌>>◌, proceed, if◌then◌else◌, any, find_key, any-find_key,
  find_key-key, update_where, str_eq_self, Bool-cases, inl, inr, arith,
}
use fork_agent.Task.Entity.{
  OrchestrationTaskStatus, OrchestrationTask, construct, post_init_passes, status_eq,
}
use fork_agent.Task.Repository.{
  Table, task_key, is_target, overwrite, cas_save, get_by_id, row_to_task,
}
use fork_agent.Task.Board.{refuse_if, require_task, store}

-- The table after a task was stored over the version that was read.
abbrev pub stored_in : OrchestrationTask → OrchestrationTask → Table → Table
stored_in old new rows = update_where (is_target new.id old.status) (overwrite new) rows

pub data Outcome (Change : OrchestrationTask → OrchestrationTask → Type 0) (id : String)
    (rows : Table) (m : Result OrchestrationTask × Table) : Type 0 where
  refused : (e : Exn) → m ≡ (err e, rows) → Outcome Change id rows m
  stored :
      (old new : OrchestrationTask)
      → find_key task_key id rows ≡ some old
      → new.id ≡ id
      → post_init_passes new ≡ true
      → Change old new
      → m ≡ (ok new, stored_in old new rows)
      → Outcome Change id rows m

-- A stored task that its class would not admit raises when it is read.
require_found :
    (id : String) (rows : Table) (t : OrchestrationTask)
    → find_key task_key id rows ≡ some t
    → require_task id rows ≡ ((if post_init_passes t then ok t else err value_error), rows)
unfolding require_task get_by_id row_to_task construct ◌>>=◌ raise pure
require_found id rows t found = rw found (ground arith)

pub require_clean :
    (id : String) (rows : Table) (t : OrchestrationTask)
    → find_key task_key id rows ≡ some t
    → post_init_passes t ≡ true
    → require_task id rows ≡ (ok t, rows)
require_clean id rows t found clean = require_found id rows t found ∙ rw clean

require_missing :
    (id : String) (rows : Table)
    → find_key task_key id rows ≡ none
    → require_task id rows ≡ (err value_error, rows)
unfolding require_task get_by_id row_to_task construct ◌>>=◌ raise pure
require_missing id rows none_found = rw none_found

status_eq_self : (s : OrchestrationTaskStatus) → status_eq s s ≡ true
unfolding status_eq
status_eq_self s = ground arith

is_target_self : (id : String) (t : OrchestrationTask) → t.id ≡ id → is_target id t.status t ≡ true
unfolding is_target
is_target_self id t e = rw e (rw (str_eq_self id) (status_eq_self t.status))

-- The compare-and-save of a version of the row that was just read succeeds.
pub store_fresh :
    (old new : OrchestrationTask) (rows : Table)
    → find_key task_key new.id rows ≡ some old
    → post_init_passes new ≡ true
    → store old new rows ≡ (ok new, stored_in old new rows)
unfolding store construct cas_save ◌>>=◌ raise pure
store_fresh old new rows found fine = rw (fine, hit)
  where
    hit : any (is_target new.id old.status) rows ≡ true
    hit =
        any-find_key task_key (is_target new.id old.status) new.id rows old found
          (is_target_self new.id old (find_key-key task_key new.id rows old found))

store_refused :
    (old new : OrchestrationTask) (rows : Table)
    → post_init_passes new ≡ false
    → store old new rows ≡ (err value_error, rows)
unfolding store construct ◌>>=◌ raise pure
store_refused old new rows bad = rw bad

module _ {Change : OrchestrationTask → OrchestrationTask → Type 0} {id : String}
    {rows : Table} where
  pub Outcome-require :
      (k : OrchestrationTask → Exec Table OrchestrationTask)
      → ((t : OrchestrationTask)
          → find_key task_key id rows ≡ some t
          → Outcome Change id rows (k t rows))
      → Outcome Change id rows ((require_task id >>= k) rows)
  unfolding ◌>>=◌
  Outcome-require k next = by_find (find_key task_key id rows) refl
    where
      by_find :
          (o : Option OrchestrationTask)
          → find_key task_key id rows ≡ o
          → Outcome Change id rows ((require_task id >>= k) rows)
      by_find none e = refused value_error (rw (require_missing id rows e))
      by_find (some t) e = elim (Bool-cases (post_init_passes t)) [
        | inl clean ↦
            subst (λ m. Outcome Change id rows (proceed m.0 k m.1))
              (sym (require_clean id rows t e clean)) (next t e)
        | inr dirty ↦ refused value_error (rw (require_found id rows t e) (rw dirty))
      ]

  pub Outcome-refuse_if :
      (bad : Bool) (e : Exn) (k : Exec Table OrchestrationTask)
      → (bad ≡ false → Outcome Change id rows (k rows))
      → Outcome Change id rows ((refuse_if bad e >> k) rows)
  unfolding ◌>>=◌ raise pure
  Outcome-refuse_if true e k next = refused e refl
  Outcome-refuse_if false e k next = next refl

  pub Outcome-store :
      (old new : OrchestrationTask)
      → find_key task_key id rows ≡ some old
      → new.id ≡ old.id
      → Change old new
      → Outcome Change id rows (store old new rows)
  Outcome-store old new found same change = elim (Bool-cases (post_init_passes new)) [
    | inr bad ↦ refused value_error (store_refused old new rows bad)
    | inl fine ↦
        stored old new found named fine change (store_fresh old new rows (rw named found) fine)
  ]
    where
      named : new.id ≡ id
      named = same ∙ find_key-key task_key id rows old found
