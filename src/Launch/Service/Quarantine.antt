-- ===== src/Launch/Service/Quarantine.antt =====
-- What `quarantine` does to the expired leases of the SQLite registry.
use mathlib.Core.Option
use mathlib.Core.Bool.{false≢true}
use fork_agent.Prelude.{
  ℕ, String, Bool, true, false, not, ◌&&◌, Option, none, some, List, ◌≡◌, refl, sym, ap, ◌∙◌, ◌⊎◌,
  Result, ok, pure, ◌>>=◌, arith, if◌then◌else◌, find_key, find_key-key, subst,
  find_key-update_where, update_where, revise, any, str_eq, str_eq_iff, str_eq_self, Bool-cases,
  inl, inr, some_eq,
}
use fork_agent.Launch.Entity.{
  quarantined, AgentLaunch, QuarantineReason, construct, post_init_passes, can_transition_to,
  is_terminal,
}
use fork_agent.Launch.Registry.{
  Table, CasFields, no_fields, launch_key, is_expired, is_indexed, is_target, breaks_index,
  apply_cas, row_to_launch, get_by_launch_id, cas_update_status, sqlite,
}
use fork_agent.Launch.Registry.Unique.{has_id}
use fork_agent.Launch.Service.{move_from, unless_terminal, quarantine}

-- Every record that a look-up finds passes the entity's checks.
abbrev pub IsClean : Table → Type 0
IsClean rows =
    (id : String) (r : AgentLaunch)
    → find_key launch_key id rows ≡ some r
    → post_init_passes r ≡ true

-- Every record with an expired lease has its id among those of the list.
abbrev pub Pending : ℕ → List AgentLaunch → Table → Type 0
Pending now ls rows =
    (id : String) (r : AgentLaunch)
    → find_key launch_key id rows ≡ some r
    → is_expired now r ≡ true
    → any (has_id id) ls ≡ true

row_to_launch_clean :
    (r : AgentLaunch) → post_init_passes r ≡ true → row_to_launch (some r) ≡ ok (some r)
unfolding row_to_launch construct
row_to_launch_clean r clean = ground arith

-- What the UPDATE of `quarantine` makes of a table.
abbrev quarantined_in : AgentLaunch → QuarantineReason → ℕ → Table → Table
quarantined_in r reason now rows =
    update_where (is_target r.launch_id r.status)
      (apply_cas quarantined (record no_fields { quarantine_reason = some reason }) now) rows

swap_quarantined :
    (r : AgentLaunch) (f : CasFields) (now : ℕ) (rows : Table)
    → cas_update_status r.launch_id r.status quarantined f now rows ≡ (
      ok (any (is_target r.launch_id r.status) rows),
      update_where (is_target r.launch_id r.status) (apply_cas quarantined f now) rows,
    )
unfolding cas_update_status breaks_index is_indexed
swap_quarantined r f now rows = refl

-- Whether `quarantine` moves a record.
abbrev quarantinable : AgentLaunch → Bool
quarantinable r = not (is_terminal r) && can_transition_to r quarantined

quarantine_own :
    (reason : QuarantineReason) (now : ℕ) (rows : Table) (r : AgentLaunch)
    → find_key launch_key r.launch_id rows ≡ some r
    → post_init_passes r ≡ true
    → quarantine sqlite r.launch_id reason now rows ≡ (
        if quarantinable r
        then (ok (any (is_target r.launch_id r.status) rows), quarantined_in r reason now rows)
        else (ok false, rows))
unfolding quarantine unless_terminal move_from get_by_launch_id ◌>>=◌ pure
quarantine_own reason now rows r found clean = rw found (
    rw (row_to_launch_clean r clean) (
      ground (
        arith,
        swap_quarantined r (record no_fields { quarantine_reason = some reason }) now rows,
      )))

-- The table after `quarantine` of a record that is found.
quarantine_rows :
    (id : String) (reason : QuarantineReason) (now : ℕ) (rows : Table) (r : AgentLaunch)
    → find_key launch_key id rows ≡ some r
    → post_init_passes r ≡ true
    → quarantine sqlite id reason now rows ≡ (
        if quarantinable r
        then (ok (any (is_target r.launch_id r.status) rows), quarantined_in r reason now rows)
        else (ok false, rows))
quarantine_rows id reason now rows r found clean =
    let named = find_key-key launch_key id rows r found in
    subst
      (λ i. quarantine sqlite i reason now rows ≡ (
        if quarantinable r
        then (ok (any (is_target r.launch_id r.status) rows), quarantined_in r reason now rows)
        else (ok false, rows)))
      named
      (quarantine_own reason now rows r
        (subst (λ i. find_key launch_key i rows ≡ some r) (sym named) found) clean)

quarantine_rows_none :
    (id : String) (reason : QuarantineReason) (now : ℕ) (rows : Table)
    → find_key launch_key id rows ≡ none
    → quarantine sqlite id reason now rows ≡ (ok false, rows)
unfolding quarantine unless_terminal get_by_launch_id row_to_launch ◌>>=◌ pure
quarantine_rows_none id reason now rows found = rw found

expired_quarantinable :
    (now : ℕ) (r : AgentLaunch) → is_expired now r ≡ true → quarantinable r ≡ true
unfolding is_expired is_terminal can_transition_to
expired_quarantinable now r h = ground arith

quarantined_not_expired :
    (now : ℕ) (f : CasFields) (r : AgentLaunch)
    → is_expired now (apply_cas quarantined f now r) ≡ false
unfolding is_expired apply_cas
quarantined_not_expired now f r = refl

find_quarantined :
    (r : AgentLaunch) (reason : QuarantineReason) (now : ℕ) (rows : Table) (i : String)
    → find_key launch_key i (quarantined_in r reason now rows)
      ≡ Option.map
          (revise
            (is_target r.launch_id r.status)
            (apply_cas quarantined (record no_fields { quarantine_reason = some reason }) now))
          (find_key launch_key i rows)
unfolding apply_cas
find_quarantined r reason now rows i = find_key-update_where launch_key _ _ (λ x. refl) i rows

is_target_self : (r : AgentLaunch) → is_target r.launch_id r.status r ≡ true
unfolding is_target
is_target_self r = ground (arith, str_eq_self r.launch_id)

-- A record after the UPDATE is one from before, changed or not.
module _ (r : AgentLaunch) (reason : QuarantineReason) (now : ℕ) (rows : Table) where
  abbrev marked : AgentLaunch → AgentLaunch
  marked = apply_cas quarantined (record no_fields { quarantine_reason = some reason }) now

  abbrev Origin : String → AgentLaunch → Type 0
  Origin i x =
      (l : AgentLaunch) × (find_key launch_key i rows ≡ some l)
      × ((is_target r.launch_id r.status l ≡ true) × (x ≡ marked l)
          ⊎ (is_target r.launch_id r.status l ≡ false) × (x ≡ l))

  Origin-of :
      (i : String) (x : AgentLaunch) (o : Option AgentLaunch)
      → find_key launch_key i rows ≡ o
      → Option.map (revise (is_target r.launch_id r.status) marked) o ≡ some x
      → Origin i x
  Origin-of i x none at e = absurd (cc)
  Origin-of i x (some l) at e = elim (Bool-cases (is_target r.launch_id r.status l)) [
    | inl t ↦ (l, at, inl (t, sym (some_eq (rw t at e))))
    | inr t ↦ (l, at, inr (t, sym (some_eq (rw t at e))))
  ]

  origin :
      (i : String) (x : AgentLaunch)
      → find_key launch_key i (quarantined_in r reason now rows) ≡ some x
      → Origin i x
  origin i x at =
      Origin-of i x (find_key launch_key i rows) refl
        (sym (find_quarantined r reason now rows i) ∙ at)

marked_passes :
    (f : CasFields) (now : ℕ) (r : AgentLaunch)
    → f.output_artifact ≡ none
    → post_init_passes (apply_cas quarantined f now r) ≡ post_init_passes r
unfolding apply_cas post_init_passes
marked_passes f now r h = rw h

-- What `quarantine` does to the expired records: the one of its id is none any more, the others
-- are as before; and every record still passes the entity's checks.
pub record Cleared (now : ℕ) (id : String) (rows rows' : Table) : Type 0 where
  pub clean : IsClean rows'
  pub others :
      (i : String) (r : AgentLaunch)
      → find_key launch_key i rows' ≡ some r
      → is_expired now r ≡ true
      → (find_key launch_key i rows ≡ some r) × (str_eq i id ≡ false)

module _ (id : String) (reason : QuarantineReason) (now : ℕ) (rows : Table)
    (clean : IsClean rows) where
  Cleared-none : find_key launch_key id rows ≡ none → Cleared now id rows rows
  Cleared-none absent = record {
    clean = clean;
    others = λ i r found expired. (found, ground (arith, str_eq_iff i id));
  }

  module _ (r : AgentLaunch) (found : find_key launch_key id rows ≡ some r) where
    -- A record that the UPDATE passes over has another id.
    elsewhere :
        (i : String) (l : AgentLaunch)
        → find_key launch_key i rows ≡ some l
        → is_target r.launch_id r.status l ≡ false
        → str_eq i id ≡ false
    elsewhere i l at t = elim (Bool-cases (str_eq i id)) [
      | inr other ↦ other
      | inl e ↦
          let same : l ≡ r =
            some_eq
              (sym at ∙ (ap (λ k. find_key launch_key k rows) ((str_eq_iff i id).0 e) ∙ found)) in
          absurd
            (false≢true (sym t ∙ (ap (is_target r.launch_id r.status) same ∙ is_target_self r)))
    ]

    Cleared-kept : quarantinable r ≡ false → Cleared now id rows rows
    Cleared-kept stays = record {
      clean = clean;
      others = λ i x at expired.
          (at, ground (arith, str_eq_iff i id, expired_quarantinable now x expired));
    }

    Cleared-moved : Cleared now id rows (quarantined_in r reason now rows)
    Cleared-moved = record {
      clean = λ i x at. passes i x (origin r reason now rows i x at);
      others = λ i x at expired. unmoved i x expired (origin r reason now rows i x at);
    }
      where
        passes :
            (i : String) (x : AgentLaunch)
            → Origin r reason now rows i x
            → post_init_passes x ≡ true
        passes i x (l, at, inl (t, e)) = rw e (marked_passes _ now l refl ∙ clean i l at)
        passes i x (l, at, inr (t, e)) = rw e (clean i l at)

        unmoved :
            (i : String) (x : AgentLaunch)
            → is_expired now x ≡ true
            → Origin r reason now rows i x
            → (find_key launch_key i rows ≡ some x) × (str_eq i id ≡ false)
        unmoved i x expired (l, at, inl (t, e)) =
            absurd (false≢true (sym (quarantined_not_expired now _ l) ∙ rw e at expired))
        unmoved i x expired (l, at, inr (t, e)) = (rw e at, elsewhere i l at t)

-- The method returns, and clears its id.
abbrev pub Effect : ℕ → String → Table → Result Bool × Table → Type 0
Effect now id rows (r, rows') = ((done : Bool) × (r ≡ ok done)) × Cleared now id rows rows'

pub quarantine-Effect :
    (id : String) (reason : QuarantineReason) (now : ℕ) (rows : Table)
    → IsClean rows
    → Effect now id rows (quarantine sqlite id reason now rows)
quarantine-Effect id reason now rows clean = by_find (find_key launch_key id rows) refl
  where
    by_find :
        (o : Option AgentLaunch)
        → find_key launch_key id rows ≡ o
        → Effect now id rows (quarantine sqlite id reason now rows)
    by_find none absent =
        rw (quarantine_rows_none id reason now rows absent)
          ((false, refl), Cleared-none id reason now rows clean absent)
    by_find (some r) found = elim (Bool-cases (quarantinable r)) [
      | inl moves ↦
          rw (quarantine_rows id reason now rows r found (clean id r found))
            (rw moves ((_, refl), Cleared-moved id reason now rows clean r found))
      | inr stays ↦
          rw (quarantine_rows id reason now rows r found (clean id r found))
            (rw stays ((false, refl), Cleared-kept id reason now rows clean r found stays))
    ]
