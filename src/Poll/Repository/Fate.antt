-- ===== src/Poll/Repository/Fate.antt =====
-- What becomes of the run with a given id in the statements of the repository.
use fork_agent.Prelude.{
  ℕ, ◌≤◌, String, Bool, true, false, not, ◌&&◌, Option, none, some, [], ◌∷◌, ◌++◌, ◌≡◌, ◌≢◌, inl,
  inr, refl, sym, ap, ◌∙◌, subst, arith, any, select, count_where, find_key, find_key-key,
  find_key-append, find_key-update_where, update_where, revise, str_eq, str_eq_iff, str_eq_apart,
  if◌then◌else◌, Bool-cases,
}
use mathlib.Core.Bool.{false≢true}
use mathlib.Core.Option
use fork_agent.Poll.Entity.{PollRun, PollRunStatus, leads_to, is_in, status_eq}
use fork_agent.Poll.Repository.{
  Table, run_key, has_id, is_terminal, is_replaced, holds_task, is_indexed, breaks_launch, save,
  apply_status, update_status, LaunchHandle, apply_metadata, record_launch_metadata,
}
use fork_agent.Poll.Repository.Unique.{
  IsUnique, kept, changed, update_status-Updates, apply_status-id,
}

-- From one status to another along the transition map.
pub data Leads (s : PollRunStatus) : PollRunStatus → Type 0 where
  here : Leads s s
  step : {t u : PollRunStatus} → Leads s t → leads_to t u ≡ true → Leads s u

pub Leads-trans : {s t u : PollRunStatus} → Leads s t → Leads t u → Leads s u
Leads-trans a here = a
Leads-trans a (step b h) = step (Leads-trans a b) h

-- What may become of a run: it stays, with its task, on a status that its own leads to, and
-- unchanged where it had ended; or its row is replaced, which a run that has ended is not. No run
-- comes about under an id that was not there.
pub data Fate : Option PollRun → Option PollRun → Type 0 where
  stays :
      {r q : PollRun}
      → Leads r.status q.status
      → q.task_id ≡ r.task_id
      → (is_terminal r.status ≡ true → q ≡ r)
      → Fate (some r) (some q)
  replaced : {r : PollRun} → is_terminal r.status ≡ false → Fate (some r) none
  absent : Fate none none

pub Fate-refl : (o : Option PollRun) → Fate o o
Fate-refl none = absent
Fate-refl (some r) = stays here refl (λ h. refl)

pub Fate-trans : {o p q : Option PollRun} → Fate o p → Fate p q → Fate o q
Fate-trans (stays {r = r} {q = q} a same end) (stays b same' end') =
    stays (Leads-trans a b) (same' ∙ same)
      (λ h. end' (subst (λ (p : PollRun). is_terminal p.status ≡ true) (sym (end h)) h) ∙ end h)
Fate-trans (stays {r = r} {q = q} a same end) (replaced live) =
    replaced (elim (Bool-cases (is_terminal r.status)) [
      | inr e ↦ e
      | inl e ↦ subst (λ (p : PollRun). is_terminal p.status ≡ false) (end e) live
    ])
Fate-trans (replaced live) absent = replaced live
Fate-trans absent absent = absent

leads_live : (s t : PollRunStatus) → leads_to s t ≡ true → is_terminal s ≡ false
unfolding leads_to is_terminal is_in status_eq
leads_live s t h = ground arith

apply_status-status :
    (status : PollRunStatus) (error : Option String) (now : ℕ) (r : PollRun)
    → (apply_status status error now r).status ≡ status
unfolding apply_status
apply_status-status status error now r = ground arith

apply_status-task_id :
    (status : PollRunStatus) (error : Option String) (now : ℕ) (r : PollRun)
    → (apply_status status error now r).task_id ≡ r.task_id
unfolding apply_status
apply_status-task_id status error now r = ground arith

-- A run on an allowed change of its status.
apply_status-Fate :
    (status : PollRunStatus) (error : Option String) (now : ℕ) (r : PollRun)
    → leads_to r.status status ≡ true
    → Fate (some r) (some (apply_status status error now r))
apply_status-Fate status error now r h =
    stays (subst (Leads r.status) (sym (apply_status-status status error now r)) (step here h))
      (apply_status-task_id status error now r)
      (λ ended. absurd (false≢true (sym (leads_live r.status status h) ∙ ended)))

module _ (x : String) (rows : Table) where
  -- An UPDATE by id, of which the run with this id, if there is one, makes an allowed change.
  update-Fate :
      (id : String) (f : PollRun → PollRun)
      → ((r : PollRun) → (f r).id ≡ r.id)
      → ((r : PollRun)
          → find_key run_key x rows ≡ some r
          → has_id id r ≡ true
          → Fate (some r) (some (f r)))
      → Fate (find_key run_key x rows) (find_key run_key x (update_where (has_id id) f rows))
  update-Fate id f same fate =
      subst (Fate (find_key run_key x rows))
        (sym (find_key-update_where run_key (has_id id) f same x rows))
        (by_find (find_key run_key x rows) refl)
    where
      by_find :
          (o : Option PollRun)
          → find_key run_key x rows ≡ o
          → Fate o (Option.map (revise (has_id id) f) o)
      by_find none e = absent
      by_find (some r) e = elim (Bool-cases (has_id id r)) [
        | inl hit ↦ rw hit (fate r e hit)
        | inr miss ↦ rw miss (Fate-refl (some r))
      ]

  pub update_status-Fate :
      (id : String) (status : PollRunStatus) (error : Option String) (now : ℕ)
      → Fate
          (find_key run_key x rows)
          (find_key run_key x (update_status id status error now rows).1)
  update_status-Fate id status error now = elim (update_status-Updates id status error now rows) [
    | kept e ↦ rw e (Fate-refl _)
    | changed e allowed ↦ rw e (
        update-Fate id (apply_status status error now) (apply_status-id status error now)
          λ r found hit. apply_status-Fate status error now r (
            allowed r (
              ap (λ k. find_key run_key k rows)
                (sym ((str_eq_iff r.id id).0 hit) ∙ find_key-key run_key x rows r found)
              ∙ found)))
  ]

  -- Recording the handle of another run.
  pub record_launch_metadata-Fate :
      (known : String → Bool) (id : String) (h : LaunchHandle) (launch_id : Option String) (now : ℕ)
      → id ≢ x
      → Fate
          (find_key run_key x rows)
          (find_key run_key x (record_launch_metadata known id h launch_id now rows).1)
  unfolding record_launch_metadata
  record_launch_metadata-Fate known id h launch_id now apart =
      elim (Bool-cases (breaks_launch known launch_id && any (has_id id) rows)) [
        | inl broken ↦ rw broken (Fate-refl _)
        | inr fine ↦ rw fine (
            update-Fate id (apply_metadata h launch_id now) (λ r. refl)
              λ r found hit.
                absurd
                  (apart (sym ((str_eq_iff r.id id).0 hit) ∙ find_key-key run_key x rows r found)))
      ]

-- The row, if it passes the test.
abbrev if_passes : (PollRun → Bool) → Option PollRun → Option PollRun
if_passes q none = none
if_passes q (some r) = if q r then some r else none

select_unfound :
    (x : String) (q : PollRun → Bool) (rows : Table)
    → count_where (has_id x) rows ≡ 0
    → find_key run_key x (select q rows) ≡ none
unfolding find_key
select_unfound x q [] u = refl
select_unfound x q (r ∷ rs) u = ground (arith, select_unfound x q rs)

find_key-select :
    (x : String) (q : PollRun → Bool) (rows : Table)
    → count_where (has_id x) rows ≤ 1
    → find_key run_key x (select q rows) ≡ if_passes q (find_key run_key x rows)
unfolding find_key
find_key-select x q [] u = refl
find_key-select x q (r ∷ rs) u = elim (Bool-cases (has_id x r)) [
  | inl hit ↦ elim (Bool-cases (q r)) [
    | inl chosen ↦ rw (chosen, hit) (ground arith)
    | inr left ↦ rw (left, hit, select_unfound x q rs (ground arith)) (ground arith)
  ]
  | inr miss ↦ elim (Bool-cases (q r)) [
    | inl chosen ↦ rw (chosen, miss) (find_key-select x q rs (ground arith))
    | inr left ↦ rw (left, miss) (find_key-select x q rs (ground arith))
  ]
]

replaced_is_indexed :
    (run r : PollRun)
    → is_replaced run r ≡ true
    → str_eq r.id run.id ≡ false
    → is_indexed r.status ≡ true
unfolding is_replaced holds_task
replaced_is_indexed run r h apart = ground arith

indexed_live : (s : PollRunStatus) → is_indexed s ≡ true → is_terminal s ≡ false
unfolding is_indexed is_terminal is_in status_eq
indexed_live s h = ground arith

-- After another row was added.
find_key-added :
    (x : String) (q : PollRun → Bool) (rows : Table) (run : PollRun)
    → IsUnique rows
    → run.id ≢ x
    → find_key run_key x (select q rows ++ run ∷ []) ≡ if_passes q (find_key run_key x rows)
find_key-added x q rows run u apart =
    find_key-append run_key x (select q rows) run
    ∙ rw (find_key-select x q rows (u.ids x))
        (by_option (find_key run_key x rows) (str_eq run.id x) (str_eq_apart run.id x apart))
  where
    by_option :
        (o : Option PollRun) (b : Bool)
        → b ≡ false
        → (elim (if_passes q o) as (λ _. Option PollRun) [
          | some found ↦ some found
          | none ↦ if b then some run else none
        ])
          ≡ if_passes q o
    by_option none b h = ground arith
    by_option (some r) b h = ground arith

-- Saving another run.
pub save-Fate :
    (x : String) (rows : Table) (known : String → Bool) (run : PollRun)
    → IsUnique rows
    → run.id ≢ x
    → Fate (find_key run_key x rows) (find_key run_key x (save known run rows).1)
unfolding save
save-Fate x rows known run u apart = elim (Bool-cases (breaks_launch known run.launch_id)) [
  | inl broken ↦ rw broken (Fate-refl _)
  | inr fine ↦ rw fine (
      subst (Fate (find_key run_key x rows)) (sym (find_key-added x _ rows run u apart))
        (by_find (find_key run_key x rows) refl))
]
  where
    by_find :
        (o : Option PollRun)
        → find_key run_key x rows ≡ o
        → Fate o (if_passes (λ r. not (is_replaced run r)) o)
    by_find none e = absent
    by_find (some r) e = elim (Bool-cases (is_replaced run r)) [
      | inr other ↦ rw other (Fate-refl (some r))
      | inl gone ↦ rw gone (
          replaced (
            indexed_live r.status (
              replaced_is_indexed run r gone (
                str_eq_apart r.id run.id
                  λ same. apart (sym same ∙ find_key-key run_key x rows r e)))))
    ]
