-- ===== src/Poll/Repository/Unique.antt =====
-- The primary key of poll_runs, and how many runs hold a place: what the statements of the
-- repository do to both.
use fork_agent.Prelude.{
  ℕ, suc, ◌≤◌, String, Bool, true, false, not, ◌&&◌, Option, some, [], ◌∷◌, ◌++◌, ◌≡◌, inl, inr,
  refl, sym, ap, subst, arith, any, select, count_where, count_where-append, count_where-none,
  count_where-update_same, any-count_where, update_where-none, count_where-select_le,
  any-select_none, update_where, find_key, str_eq, str_eq_iff, if◌then◌else◌, Bool-cases,
  Option-cases, ◌∙◌, some_eq, ok, err, value_error, ◌>>=◌, raise,
}
use fork_agent.Poll.Entity.{
  queued, spawning, running, terminating, quarantined, status_eq, PollRun, PollRunStatus, leads_to,
  can_transition_to, construct, post_init_passes, is_in,
}
use fork_agent.Poll.Repository.{
  Table, run_key, has_id, blocks_launch, is_replaced, breaks_launch, save, apply_status,
  write_status, is_barred, update_status, breaks_index, LaunchHandle, record_launch_metadata,
  apply_metadata, get_by_id, row_to_run,
}

-- The primary key holds.
pub record IsUnique (rows : Table) : Type 0 where
  pub ids : (id : String) → count_where (has_id id) rows ≤ 1

-- Reading a row whose key is there.
pub get_by_id-found :
    (id : String) (rows : Table) (r : PollRun)
    → find_key run_key id rows ≡ some r
    → get_by_id id rows ≡ ((if post_init_passes r then ok (some r) else err value_error), rows)
unfolding get_by_id row_to_run construct
get_by_id-found id rows r found = rw found (ground arith)

-- What `update_status` does to the table: nothing, or the UPDATE where the transition is allowed.
pub data Updates (id : String) (status : PollRunStatus) (error : Option String) (now : ℕ)
    (rows rows' : Table) : Type 0 where
  kept : rows' ≡ rows → Updates id status error now rows rows'
  changed :
      rows' ≡ update_where (has_id id) (apply_status status error now) rows
      → ((r : PollRun) → find_key run_key id rows ≡ some r → leads_to r.status status ≡ true)
      → Updates id status error now rows rows'

module _ (id : String) (status : PollRunStatus) (error : Option String) (now : ℕ) (rows : Table)
    (allowed : (r : PollRun)
      → find_key run_key id rows ≡ some r
      → leads_to r.status status ≡ true) where
  write_status-Updates : Updates id status error now rows (write_status id status error now rows).1
  unfolding write_status
  write_status-Updates = elim (Bool-cases (breaks_index (has_id id) status rows)) [
    | inl broken ↦ kept (rw broken)
    | inr fine ↦ changed (rw fine) allowed
  ]

module _ (id : String) (status : PollRunStatus) (error : Option String) (now : ℕ)
    (rows : Table) where
  found-Updates :
      (r : PollRun)
      → find_key run_key id rows ≡ some r
      → Updates id status error now rows (update_status id status error now rows).1
  unfolding update_status is_barred can_transition_to ◌>>=◌ raise
  found-Updates r found = elim (Bool-cases (post_init_passes r)) [
    | inr bad ↦ kept (rw (get_by_id-found id rows r found, bad))
    | inl good ↦ elim (Bool-cases (leads_to r.status status)) [
      | inr barred ↦ kept (rw (get_by_id-found id rows r found, good, barred))
      | inl go ↦
          rw (get_by_id-found id rows r found, good, go)
            (write_status-Updates id status error now rows λ q e.
              subst (λ (o : PollRun). leads_to o.status status ≡ true) (some_eq (sym found ∙ e)) go)
    ]
  ]

  pub update_status-Updates :
      Updates id status error now rows (update_status id status error now rows).1
  unfolding update_status get_by_id row_to_run is_barred ◌>>=◌ raise
  update_status-Updates = elim (Option-cases (find_key run_key id rows)) [
    | inr (r, found) ↦ found-Updates r found
    | inl missing ↦ rw missing (write_status-Updates id status error now rows λ q e. absurd (cc))
  ]

-- An UPDATE of the run with an id that holds a place frees places or leaves them as they are.
pub blocks-update_le :
    (id : String) (f : PollRun → PollRun) (rows : Table)
    → count_where (has_id id) rows ≤ 1
    → ((r : PollRun) → find_key run_key id rows ≡ some r → blocks_launch r ≡ true)
    → count_where blocks_launch (update_where (has_id id) f rows) ≤ count_where blocks_launch rows
unfolding find_key update_where
blocks-update_le id f [] u b = omega arith
blocks-update_le id f (r ∷ rs) u b = elim (Bool-cases (has_id id r)) [
  | inl hit ↦
      let alone =
        update_where-none (has_id id) f rs (any-count_where (has_id id) rs (ground arith)) in
      rw alone (ground (arith, b r (rw hit)))
  | inr miss ↦ ground (
    arith,
    blocks-update_le id f rs,
    λ (q : PollRun) (e : find_key run_key id rs ≡ some q). b q (rw miss e),
  )
]

leads_blocks :
    (r : PollRun) (status : PollRunStatus)
    → leads_to r.status status ≡ true
    → blocks_launch r ≡ true
unfolding leads_to blocks_launch is_in status_eq
leads_blocks r status h = by_status r.status h
  where
    by_status :
        (s : PollRunStatus)
        → leads_to s status ≡ true
        → is_in s (queued ∷ spawning ∷ running ∷ terminating ∷ quarantined ∷ []) ≡ true
    by_status s h = ground arith

pub apply_status-id :
    (status : PollRunStatus) (error : Option String) (now : ℕ) (r : PollRun)
    → (apply_status status error now r).id ≡ r.id
unfolding apply_status
apply_status-id status error now r = ground arith

-- The primary key holds, and at most `n` runs hold a place.
pub record Holds (n : ℕ) (rows : Table) : Type 0 where
  pub unique : IsUnique rows
  pub places : count_where blocks_launch rows ≤ n

pub Holds-le : {n k : ℕ} {rows : Table} → n ≤ k → Holds n rows → Holds k rows
Holds-le le g = record { unique = g.unique; places = omega (arith, le, g.places) }

module _ (rows : Table) (u : IsUnique rows) where
  update-IsUnique :
      (id : String) (f : PollRun → PollRun)
      → ((r : PollRun) → (f r).id ≡ r.id)
      → IsUnique (update_where (has_id id) f rows)
  update-IsUnique id f same = record {
    ids = λ k.
        subst (λ n. n ≤ 1)
          (sym (
            count_where-update_same (has_id k) (has_id id) f (λ r h. ap (λ i. str_eq i k) (same r))
              rows))
          (u.ids k);
  }

  pub kept-Holds : Holds (count_where blocks_launch rows) rows
  kept-Holds = record { unique = u; places = omega arith }

  -- Changing a run's status keeps the primary key, and no run takes a place by it.
  pub update_status-Holds :
      (id : String) (status : PollRunStatus) (error : Option String) (now : ℕ)
      → Holds (count_where blocks_launch rows) (update_status id status error now rows).1
  update_status-Holds id status error now = elim (update_status-Updates id status error now rows) [
    | kept e ↦ rw e kept-Holds
    | changed e allowed ↦ rw e (record {
      unique = update-IsUnique id _ (apply_status-id status error now);
      places =
          blocks-update_le id _ rows (u.ids id)
            (λ r found. leads_blocks r status (allowed r found));
    })
  ]

  -- Recording a handle keeps both.
  pub record_launch_metadata-Holds :
      (known : String → Bool) (id : String) (h : LaunchHandle) (launch_id : Option String) (now : ℕ)
      → Holds
          (count_where blocks_launch rows)
          (record_launch_metadata known id h launch_id now rows).1
  unfolding record_launch_metadata blocks_launch
  record_launch_metadata-Holds known id h launch_id now =
      elim (Bool-cases (breaks_launch known launch_id && any (has_id id) rows)) [
        | inl broken ↦ rw broken kept-Holds
        | inr fine ↦ rw fine (record {
          unique = update-IsUnique id _ λ r. refl;
          places = ground (
            arith,
            count_where-update_same blocks_launch (has_id id) (apply_metadata h launch_id now)
                (λ r e. refl) rows,
          );
        })
      ]

  -- Saving a run keeps the primary key, and takes one place at most.
  pub save-Holds :
      (known : String → Bool) (run : PollRun)
      → Holds (suc (count_where blocks_launch rows)) (save known run rows).1
  unfolding save
  save-Holds known run = elim (Bool-cases (breaks_launch known run.launch_id)) [
    | inl broken ↦ rw broken (record { unique = u; places = omega arith })
    | inr fine ↦ rw fine (record {
      unique = record { ids = one_each };
      places = ground (
        arith,
        count_where-append blocks_launch (select (λ r. not (is_replaced run r)) rows) (run ∷ []),
        count_where-select_le blocks_launch (λ r. not (is_replaced run r)) rows,
      );
    })
  ]
    where
      replaces :
          (id : String)
          → str_eq run.id id ≡ true
          → (r : PollRun) → has_id id r ≡ true
          → not (is_replaced run r) ≡ false
      replaces id same r h =
          let e : r.id ≡ run.id = (str_eq_iff r.id id).0 h ∙ sym ((str_eq_iff run.id id).0 same) in
          unfold is_replaced in rw ((str_eq_iff r.id run.id).1 e)

      one_each :
          (id : String)
          → count_where (has_id id) (select (λ r. not (is_replaced run r)) rows ++ run ∷ []) ≤ 1
      one_each id = elim (Bool-cases (str_eq run.id id)) [
        | inl same ↦ ground (
          arith,
          count_where-append (has_id id) (select (λ r. not (is_replaced run r)) rows) (run ∷ []),
          count_where-none (has_id id) (select (λ r. not (is_replaced run r)) rows)
              (any-select_none (has_id id) (λ r. not (is_replaced run r)) rows (replaces id same)),
        )
        | inr apart ↦ ground (
          arith,
          u.ids id,
          count_where-append (has_id id) (select (λ r. not (is_replaced run r)) rows) (run ∷ []),
          count_where-select_le (has_id id) (λ r. not (is_replaced run r)) rows,
        )
      ]
