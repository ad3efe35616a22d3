-- ===== src/Task/Board/Evolve.antt =====
-- What one call of the board does to the tasks that the table holds: each is still there, advanced.
use fork_agent.Prelude.{
  ℕ, String, Bool, true, false, Option, none, List, [], ◌∷◌, ◌≡◌, refl, sym, ap, ◌∙◌, Exec, Result,
  value_error, ok, err, pure, ◌>>=◌, ◌>>◌, proceed, arith, find_key, subst, Preorder, Follows,
  Follows-bind, Follows-pure, inl, inr, any, all, str_eq, if◌then◌else◌,
}
use fork_agent.Task.Entity.{
  OrchestrationTaskStatus, OrchestrationTask, post_init_passes, completed, deleted, leads_to,
  status_eq, construct,
}
use fork_agent.Task.Repository.{Table, task_key, save, get_by_ids, list_blocked}
use fork_agent.Task.Repository.Advance.{
  Allowed, Evolves, evolve_order, save-Evolves, cas_save-Evolves,
}
use fork_agent.Task.Board.{
  Given, new_task, create, lifted, require_task, validate_transition, store, complete, resolve_each,
  resolve_blockers, is_resolved,
}
use fork_agent.Task.Board.Outcome.{Outcome, Outcome-require, Outcome-store}
use fork_agent.Task.Board.Moves.{Moves, ended, Outcome-validate}
use fork_agent.Task.Board.Edit.{Edits, live-status_eq}

pub Outcome-Evolves :
    {Change : OrchestrationTask → OrchestrationTask → Type 0} {id : String} {rows : Table}
    {m : Result OrchestrationTask × Table}
    → ((old new : OrchestrationTask) → Change old new → Allowed old new)
    → Outcome Change id rows m
    → Evolves rows m.1
Outcome-Evolves {rows = rows} allowed (Outcome.refused e h) =
    subst (Evolves rows) (sym (ap (λ x. x.1) h)) (evolve_order.rel_refl rows)
Outcome-Evolves {rows = rows} allowed (Outcome.stored old new found same fine change h) =
    subst (Evolves rows) (sym (ap (λ x. x.1) h)) (
      cas_save-Evolves old new rows
        (ap (λ k. find_key task_key k rows) ((allowed old new change).id ∙ same) ∙ found)
        (allowed old new change))

-- A DELETED task has no transition.
leads_live : (s t : OrchestrationTaskStatus) → leads_to s t ≡ true → status_eq s deleted ≡ false
unfolding leads_to status_eq
leads_live s t h = ground arith

-- A move to `target` that keeps the id, the blockers and the creation time.
pub Moves-Allowed :
    (target : OrchestrationTaskStatus) (f : OrchestrationTask → OrchestrationTask)
    → ((t : OrchestrationTask) → (f t).id ≡ t.id)
    → ((t : OrchestrationTask) → (f t).blocked_by ≡ t.blocked_by)
    → ((t : OrchestrationTask) → (f t).created_at ≡ t.created_at)
    → ((t : OrchestrationTask) → (f t).status ≡ target)
    → (old new : OrchestrationTask) → Moves target f old new
    → Allowed old new
Moves-Allowed target f id blocked_by created_at status old new m = record {
  id = sym (ap (λ (t : OrchestrationTask). t.id) m.result ∙ id old);
  blocked_by = sym (ap (λ (t : OrchestrationTask). t.blocked_by) m.result ∙ blocked_by old);
  created_at = sym (ap (λ (t : OrchestrationTask). t.created_at) m.result ∙ created_at old);
  live = leads_live old.status target m.along;
  status = inr (
      subst (λ s. leads_to old.status s ≡ true)
        (sym (ap (λ (t : OrchestrationTask). t.status) m.result ∙ status old)) m.along);
}

pub Edits-Allowed :
    (subject description owner : Given) (now : ℕ) (old new : OrchestrationTask)
    → Edits subject description owner now old new
    → Allowed old new
Edits-Allowed subject description owner now old new e = record {
  id = sym (ap (λ (t : OrchestrationTask). t.id) e.rest);
  blocked_by = sym (ap (λ (t : OrchestrationTask). t.blocked_by) e.rest);
  created_at = sym (ap (λ (t : OrchestrationTask). t.created_at) e.rest);
  live = live-status_eq old.status e.live;
  status = inl (sym (ap (λ (t : OrchestrationTask). t.status) e.rest));
}

-- Reading methods leave the table as it is.
abbrev pub same_order : Preorder Table
same_order = record { rel = λ s t. s ≡ t; rel_refl = λ s. refl; rel_trans = λ s t u a b. a ∙ b }

get_by_ids_reads : (ids : List String) → Follows same_order (get_by_ids ids)
unfolding get_by_ids
get_by_ids_reads ids = record { at = λ s. refl }

list_blocked_reads : Follows same_order list_blocked
unfolding list_blocked
list_blocked_reads = record { at = λ s. refl }

resolve_each_reads :
    (id : String) (candidates : List OrchestrationTask)
    → Follows same_order (resolve_each id candidates)
unfolding resolve_each
resolve_each_reads id [] = Follows-pure []
resolve_each_reads id (c ∷ cs) =
    by_mention (any (str_eq id) c.blocked_by) (resolve_each_reads id cs)
  where
    by_mention :
        (b : Bool)
        → Follows same_order (resolve_each id cs)
        → Follows same_order (elim b [
          | false ↦ resolve_each id cs
          | true ↦ do
            blockers ← get_by_ids c.blocked_by
            rest ← resolve_each id cs
            pure (if all (is_resolved blockers) c.blocked_by then c.id ∷ rest else rest)
        ])
    by_mention false rest = rest
    by_mention true rest =
        Follows-bind _ _ (get_by_ids_reads c.blocked_by)
          λ blockers. Follows-bind _ _ rest λ ids. Follows-pure _

resolve_blockers_reads : (id : String) → Follows same_order (resolve_blockers id)
unfolding resolve_blockers
resolve_blockers_reads id =
    Follows-bind _ _ list_blocked_reads λ candidates. resolve_each_reads id candidates

-- What is done after the store of `complete` does not matter to the table.
bind_rows :
    {A B : Type 0} (m : Exec Table A) (k l : A → Exec Table B)
    → ((a : A) (s : Table) → (k a s).1 ≡ (l a s).1)
    → (s : Table) → ((m >>= k) s).1 ≡ ((m >>= l) s).1
unfolding ◌>>=◌
bind_rows {A} {B} m k l same s = by_result (m s)
  where
    by_result : (r : Result A × Table) → (proceed r.0 k r.1).1 ≡ (proceed r.0 l r.1).1
    by_result (ok a, t) = same a t
    by_result (err e, t) = refl

bind_reads :
    {A B : Type 0} (m : Exec Table A) (k : A → Exec Table B)
    → ((a : A) → Follows same_order (k a))
    → (s : Table) → ((m >>= k) s).1 ≡ (m s).1
unfolding ◌>>=◌
bind_reads {A} {B} m k reads s = by_result (m s)
  where
    by_result : (r : Result A × Table) → (proceed r.0 k r.1).1 ≡ r.1
    by_result (ok a, t) = sym ((reads a).at t)
    by_result (err e, t) = refl

pub complete_store : String → Option String → ℕ → Exec Table OrchestrationTask
complete_store id requested_by now = do
  task ← require_task id
  validate_transition task completed
  store task (ended completed requested_by now task)

pub complete_rows :
    (id : String) (requested_by : Option String) (now : ℕ) (rows : Table)
    → (complete id requested_by now rows).1 ≡ (complete_store id requested_by now rows).1
unfolding complete complete_store
complete_rows id requested_by now rows =
    bind_rows (require_task id) _ _
      (λ t s.
        bind_rows (validate_transition t completed) _ _
          (λ _ s.
            bind_reads (store t (ended completed requested_by now t)) _
              (λ u. Follows-bind _ _ (resolve_blockers_reads id) λ _. Follows-pure u) s)
          s)
      rows

pub complete-Outcome :
    (id : String) (requested_by : Option String) (now : ℕ) (rows : Table)
    → Outcome
        (Moves completed (ended completed requested_by now))
        id
        rows
        (complete_store id requested_by now rows)
unfolding complete_store
complete-Outcome id requested_by now rows = Outcome-require _ λ t found.
    Outcome-validate t completed _
      λ h. Outcome-store t _ found refl (record { along = h; result = refl })

save-pure-Evolves :
    (t : OrchestrationTask) (rows : Table)
    → find_key task_key t.id rows ≡ none
    → Evolves rows ((save t >> pure t) rows).1
unfolding ◌>>=◌ pure save
save-pure-Evolves t rows new = save-Evolves t rows new

pub create-Evolves :
    (id subject : String) (description owner : Option String) (now : ℕ) (rows : Table)
    → find_key task_key id rows ≡ none
    → Evolves rows (create id subject description owner now rows).1
unfolding create construct ◌>>=◌ pure
create-Evolves id subject description owner now rows new =
    by_check (post_init_passes (new_task id subject description owner now))
  where
    by_check :
        (b : Bool)
        → Evolves rows
            ((lifted (if b then ok (new_task id subject description owner now) else err value_error)
                >>= λ task. save task >> pure task)
              rows).1
    by_check true = save-pure-Evolves (new_task id subject description owner now) rows new
    by_check false = evolve_order.rel_refl rows
