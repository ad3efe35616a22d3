-- ===== src/Task/Repository/Advance.antt =====
-- How one task record may change: along the transitions, with its id, blockers and creation time.
use mathlib.Core.Bool.{false≢true}
use fork_agent.Prelude.{
  String, Bool, true, false, none, some, [], ◌∷◌, ◌++◌, ◌≡◌, ◌⊎◌, inl, inr, refl, sym, ap, ◌∙◌, not,
  arith, if◌then◌else◌, find_key, find_key-append, find_key-key, find_key-update_where,
  update_where, revise, select, str_eq, str_eq_iff, Bool-cases, Preorder, subst, some_eq,
}
use fork_agent.Task.Entity.{
  OrchestrationTaskStatus, deleted, OrchestrationTask, status_eq, leads_to,
}
use fork_agent.Task.Repository.{Table, task_key, save, is_target, overwrite}

-- One change of a task: the status is kept or follows a transition, and a DELETED task is not
-- changed; the id, the blockers and the creation time are kept.
pub record Allowed (old new : OrchestrationTask) : Type 0 where
  pub id : old.id ≡ new.id
  pub blocked_by : old.blocked_by ≡ new.blocked_by
  pub created_at : old.created_at ≡ new.created_at
  pub live : status_eq old.status deleted ≡ false
  pub status : (old.status ≡ new.status) ⊎ (leads_to old.status new.status ≡ true)

-- `m` is `l` after some such changes, in a row. A row whose columns other than the status were
-- changed by another writer in between may be overwritten, so a change starts from any row of the
-- same status, id, blockers and creation time.
pub data Advances (l : OrchestrationTask) : OrchestrationTask → Type 0 where
  unchanged : Advances l l
  changed : {m n : OrchestrationTask} → Advances l m → Allowed m n → Advances l n

pub Advances-trans : {l m n : OrchestrationTask} → Advances l m → Advances m n → Advances l n
Advances-trans a unchanged = a
Advances-trans a (changed b s) = changed (Advances-trans a b) s

-- A DELETED task stays as it is.
pub Advances-deleted : {l m : OrchestrationTask} → Advances l m → l.status ≡ deleted → m ≡ l
Advances-deleted unchanged h = refl
Advances-deleted (changed a s) h = absurd (
    false≢true (
      sym s.live
      ∙ deleted_is (ap (λ (t : OrchestrationTask). t.status) (Advances-deleted a h) ∙ h)))
  where
    deleted_is : {s : OrchestrationTaskStatus} → s ≡ deleted → status_eq s deleted ≡ true
    deleted_is e = unfold status_eq in rw e

-- The blockers never change.
pub Advances-blocked_by : {l m : OrchestrationTask} → Advances l m → m.blocked_by ≡ l.blocked_by
Advances-blocked_by unchanged = refl
Advances-blocked_by (changed a s) = sym s.blocked_by ∙ Advances-blocked_by a

-- Every task of the table before is in the table after, advanced.
abbrev pub Evolves : Table → Table → Type 0
Evolves rows rows' =
    (id : String) (l : OrchestrationTask)
    → find_key task_key id rows ≡ some l
    → (m : OrchestrationTask) × (find_key task_key id rows' ≡ some m) × Advances l m

abbrev pub evolve_order : Preorder Table
evolve_order = record {
  rel = Evolves;
  rel_refl = λ s id l h. (l, h, unchanged);
  rel_trans = λ s t u a b id l h.
      let (m, found, first) = a id l h in
      let (n, found', second) = b id m found in (n, found', Advances-trans first second);
}

find_key-without :
    (k id : String) (rows : Table)
    → str_eq id k ≡ false
    → find_key task_key id (select (λ r. not (str_eq r.id k)) rows) ≡ find_key task_key id rows
unfolding find_key
find_key-without k id [] h = refl
find_key-without k id (r ∷ rows) h =
    ground
      (arith, find_key-without k id rows, str_eq_iff r.id k, str_eq_iff r.id id, str_eq_iff id k)

-- A new task, under an id that the table does not have, leaves the others alone.
pub save-Evolves :
    (t : OrchestrationTask) (rows : Table)
    → find_key task_key t.id rows ≡ none
    → Evolves rows (save t rows).1
unfolding save
save-Evolves t rows new id l found = (l, kept, unchanged)
  where
    other : str_eq id t.id ≡ false
    other = elim (Bool-cases (str_eq id t.id)) [
      | inr e ↦ e
      | inl e ↦ absurd (cc (ap (λ k. find_key task_key k rows) ((str_eq_iff id t.id).0 e)))
    ]

    kept : find_key task_key id (select (λ r. not (str_eq r.id t.id)) rows ++ t ∷ []) ≡ some l
    kept =
        find_key-append task_key id (select (λ r. not (str_eq r.id t.id)) rows) t
        ∙ rw (find_key-without t.id id rows other) (rw found)

is_target_id :
    (id : String) (s : OrchestrationTaskStatus) (r : OrchestrationTask)
    → is_target id s r ≡ true
    → str_eq r.id id ≡ true
unfolding is_target
is_target_id id s r h = ground arith

-- A compare-and-save of an allowed change to the row that was read.
pub cas_save-Evolves :
    (old new : OrchestrationTask) (rows : Table)
    → find_key task_key old.id rows ≡ some old
    → Allowed old new
    → Evolves rows (update_where (is_target new.id old.status) (overwrite new) rows)
cas_save-Evolves old new rows current a id l found = (
  revise (is_target new.id old.status) (overwrite new) l,
  at,
  steps (is_target new.id old.status l) refl,
)
  where
    at :
        find_key task_key id (update_where (is_target new.id old.status) (overwrite new) rows)
        ≡ some (revise (is_target new.id old.status) (overwrite new) l)
    at =
        find_key-update_where task_key (is_target new.id old.status) (overwrite new) (λ r. refl) id
          rows
        ∙ rw found

    target_id : is_target new.id old.status l ≡ true → l.id ≡ new.id
    target_id t = (str_eq_iff l.id new.id).0 (is_target_id new.id old.status l t)

    same_row : is_target new.id old.status l ≡ true → old ≡ l
    same_row t = some_eq (
        sym current
        ∙ (ap (λ k. find_key task_key k rows)
              (a.id ∙ (sym (target_id t) ∙ find_key-key task_key id rows l found))
            ∙ found))

    steps :
        (b : Bool)
        → is_target new.id old.status l ≡ b
        → Advances l (if b then overwrite new l else l)
    steps false e = unchanged
    steps true e =
        subst (λ x. Advances x (overwrite new x)) (same_row e)
          (changed unchanged (record {
            id = refl;
            blocked_by = a.blocked_by;
            created_at = a.created_at;
            live = a.live;
            status = a.status;
          }))
