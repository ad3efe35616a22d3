-- ===== src/Task/Board/Edit.antt =====
-- `update`: which fields it writes, and when it writes them.
use fork_agent.Prelude.{
  ℕ, String, true, false, Option, none, some, ◌≡◌, ◌≢◌, refl, sym, ap, ◌∙◌, subst, Exec, pure,
  raise, Result, ok, err, ◌>>=◌, arith, find_key, find_key-key, some_eq, ◌⊎◌, inl, inr, Exn,
}
use fork_agent.Task.Entity.{
  OrchestrationTaskStatus, OrchestrationTask, deleted, status_eq, post_init_passes,
}
use fork_agent.Task.Repository.{Table, task_key}
use fork_agent.Task.Board.{Given, given_or, update, subject_or}
use fork_agent.Task.Board.Outcome.{
  Outcome, Outcome-require, Outcome-refuse_if, Outcome-store, stored_in, require_clean, store_fresh,
}

-- What becomes of a field: a value that is given is written, and a field that is omitted keeps its
-- value.
pub data IsWritten {A : Type 0} : Option A → A → A → Type 0 where
  kept : {old : A} → IsWritten none old old
  written : {old a : A} → IsWritten (some a) old a

-- An edit of a task that is not DELETED touches only the subject, the description, the owner and
-- the time. A subject that is given is not null.
pub record Edits (subject description owner : Given) (now : ℕ) (old new : OrchestrationTask)
    : Type 0 where
  pub live : old.status ≢ deleted
  pub subject_set : IsWritten subject (some old.subject) (some new.subject)
  pub description_set : IsWritten description old.description new.description
  pub owner_set : IsWritten owner old.owner new.owner
  pub time : new.updated_at ≡ now
  pub rest : new ≡ record old {
    subject = new.subject;
    description = new.description;
    owner = new.owner;
    updated_at = new.updated_at;
  }

given_or-IsWritten :
    (given : Given) (old : Option String) → IsWritten given old (given_or given old)
given_or-IsWritten none old = kept
given_or-IsWritten (some new) old = written

-- Only one value is set.
IsWritten-eq :
    (given : Given) (old new : Option String) → IsWritten given old new → new ≡ given_or given old
IsWritten-eq none old new kept = refl
IsWritten-eq (some a) old new written = refl

Outcome-subject :
    {Change : OrchestrationTask → OrchestrationTask → Type 0} {id : String} {rows : Table}
    → (subject : Given) (old : String) (k : String → Exec Table OrchestrationTask)
    → ((s : String) → IsWritten subject (some old) (some s) → Outcome Change id rows (k s rows))
    → Outcome Change id rows ((subject_or subject old >>= k) rows)
unfolding ◌>>=◌ pure raise
Outcome-subject none old k next = next old kept
Outcome-subject (some none) old k next = Outcome.refused _ refl
Outcome-subject (some (some s)) old k next = next s written

not-deleted : (s : OrchestrationTaskStatus) → status_eq s deleted ≡ false → s ≢ deleted
unfolding status_eq
not-deleted s h e = ground arith

pub update-refused_or_stored :
    (id : String) (subject description owner : Given) (now : ℕ) (rows : Table)
    → Outcome
        (Edits subject description owner now)
        id
        rows
        (update id subject description owner now rows)
unfolding update
update-refused_or_stored id subject description owner now rows = Outcome-require _ λ t found.
    Outcome-refuse_if (status_eq t.status deleted) _ _ λ live.
      Outcome-subject subject t.subject _ λ s set. Outcome-store t _ found refl (record {
        live = not-deleted t.status live;
        subject_set = set;
        description_set = given_or-IsWritten description t.description;
        owner_set = given_or-IsWritten owner t.owner;
        time = refl;
        rest = refl;
      })

pub live-status_eq : (s : OrchestrationTaskStatus) → s ≢ deleted → status_eq s deleted ≡ false
unfolding status_eq
live-status_eq s h = ground arith

subject_or-IsWritten :
    (given : Given) (old new : String) (rows : Table)
    → IsWritten given (some old) (some new)
    → subject_or given old rows ≡ (ok new, rows)
unfolding pure
subject_or-IsWritten none old new rows kept = refl
subject_or-IsWritten (some none) old new rows e = elim e [ ]
subject_or-IsWritten (some (some a)) old new rows written = refl

err-not-ok : {A : Type 0} {e : Exn} {a : A} → err e ≢ ok a
err-not-ok h = cc

module _ (subject description owner : Given) (now : ℕ) (old new : OrchestrationTask) where
  -- What the code builds.
  abbrev edited : String → OrchestrationTask
  edited title = record old {
    subject = title;
    description = given_or description old.description;
    owner = given_or owner old.owner;
    updated_at = now;
  }

  Edits-eq : Edits subject description owner now old new → edited new.subject ≡ new
  Edits-eq e = sym (
      e.rest ∙ λ i. record old {
        subject = new.subject;
        description = IsWritten-eq description _ _ e.description_set i;
        owner = IsWritten-eq owner _ _ e.owner_set i;
        updated_at = e.time i;
      })

  named : Edits subject description owner now old new → new.id ≡ old.id
  named e = ap (λ (t : OrchestrationTask). t.id) e.rest

  update_stores :
      (id : String) (rows : Table)
      → find_key task_key id rows ≡ some old
      → post_init_passes old ≡ true
      → Edits subject description owner now old new
      → post_init_passes new ≡ true
      → update id subject description owner now rows ≡ (ok new, stored_in old new rows)
  unfolding update ◌>>=◌ pure raise
  update_stores id rows found clean e fine = rw (require_clean id rows old found clean) (
      rw (live-status_eq old.status e.live) (
        rw (subject_or-IsWritten subject old.subject new.subject rows e.subject_set) (
          rw (Edits-eq e) (
            store_fresh old new rows (rw (named e ∙ find_key-key task_key id rows old found) found)
              fine))))

-- An edit that passes the checks of a task.
abbrev pub Possible : Given → Given → Given → ℕ → OrchestrationTask → OrchestrationTask → Type 0
Possible subject description owner now old new =
    Edits subject description owner now old new × (post_init_passes new ≡ true)

-- What an update gives and leaves, for the task that it read.
abbrev pub EditsOrRaises :
    Given
    → Given
    → Given
    → ℕ
    → OrchestrationTask
    → Table
    → Result OrchestrationTask × Table
    → Type 0
EditsOrRaises subject description owner now old rows m =
    ((new : OrchestrationTask) × Possible subject description owner now old new
      × (m ≡ (ok new, stored_in old new rows)))
    ⊎ ((¬ ((new : OrchestrationTask) × Possible subject description owner now old new))
        × ((e : Exn) × (m ≡ (err e, rows))))

-- For a task that is found and passes its checks: either there is an edit of it that passes them
-- too, and the update gives it and stores it over the version that was read, or there is none, and
-- the update raises and leaves the table as it is. In an edit of a task that is not DELETED, the
-- subject, the description and the owner are as given where they are given, and as they were where
-- they are omitted, the subject is not null, the time is new, and every other field is as it was.
pub update-EditsOrRaises :
    (id : String) (subject description owner : Given) (now : ℕ) (rows : Table)
    (old : OrchestrationTask)
    → find_key task_key id rows ≡ some old
    → post_init_passes old ≡ true
    → EditsOrRaises subject description owner now old rows
        (update id subject description owner now rows)
update-EditsOrRaises id subject description owner now rows old found clean =
    by_outcome (update-refused_or_stored id subject description owner now rows)
  where
    by_outcome :
        Outcome
          (Edits subject description owner now)
          id
          rows
          (update id subject description owner now rows)
        → EditsOrRaises subject description owner now old rows
            (update id subject description owner now rows)
    by_outcome (Outcome.refused e h) = inr (
      (λ possible.
          let (new, (edit, fine)) = possible in
          let done =
            update_stores subject description owner now old new id rows found clean edit fine in
          absurd (err-not-ok (ap (λ m. m.0) (sym h ∙ done)))),
      (e, h),
    )
    by_outcome (Outcome.stored o new found' same fine edit h) =
        let e = some_eq (sym found' ∙ found) in
        inl (
          new,
          (subst (λ t. Edits subject description owner now t new) e edit, fine),
          h ∙ ap (λ t. (ok new, stored_in t new rows)) e,
        )
