-- ===== src/Launch/Registry/Unique.antt =====
-- The unique constraints of the registry table: what every statement of the repository keeps.
use fork_agent.Prelude.{
  ℕ, ◌≤◌, String, Bool, true, false, not, ◌&&◌, [], ◌∷◌, ◌++◌, ◌≡◌, refl, arith, is_empty,
  if◌then◌else◌, any, count_where, str_eq, str_eq_iff, Bool-cases, inl, inr, count_where-append,
  count_where-none, any_apart, count_where-update_le, count_where-update_unmarked, subst,
  count_where-update_marked, count_where-update_same, update_where,
}
use fork_agent.Launch.Entity.{LaunchStatus, AgentLaunch}
use fork_agent.Launch.Registry.{
  Table, Claim, CasFields, is_indexed, holds_key, claimed_row, breaks_unique, breaks_parent, claim,
  get_by_launch_id, apply_cas, is_target, is_crowded, breaks_index, cas_update_status,
}

abbrev pub has_id : String → AgentLaunch → Bool
has_id id r = str_eq r.launch_id id

-- The primary key and the partial unique index hold.
pub record IsUnique (rows : Table) : Type 0 where
  pub ids : (id : String) → count_where (has_id id) rows ≤ 1
  pub keys : (key : String) → count_where (holds_key key) rows ≤ 1

count_snoc :
    (p : AgentLaunch → Bool) (rows : Table) (r : AgentLaunch)
    → count_where p rows ≤ 1
    → (p r ≡ true → count_where p rows ≡ 0)
    → count_where p (rows ++ r ∷ []) ≤ 1
count_snoc p rows r h k = ground (arith, count_where-append p rows (r ∷ []))

module _ (c : Claim) (now : ℕ) (rows : Table) (free : breaks_unique c rows ≡ false) where
  claimed_id_new :
      (id : String) → has_id id (claimed_row c now) ≡ true → count_where (has_id id) rows ≡ 0
  unfolding claimed_row breaks_unique
  claimed_id_new id h =
      let e = (str_eq_iff c.launch_id id).0 h in
      rw (← e) (count_where-none (has_id c.launch_id) rows (ground arith))

  claimed_key_new :
      (key : String)
      → holds_key key (claimed_row c now) ≡ true
      → count_where (holds_key key) rows ≡ 0
  unfolding claimed_row breaks_unique holds_key
  claimed_key_new key h =
      let e = (str_eq_iff c.canonical_key key).0 (ground arith) in
      rw (← e) (count_where-none (holds_key c.canonical_key) rows (ground arith))

  claimed-IsUnique : IsUnique rows → IsUnique (rows ++ claimed_row c now ∷ [])
  claimed-IsUnique u = record {
    ids = λ id. count_snoc (has_id id) rows _ (u.ids id) (claimed_id_new id);
    keys = λ key. count_snoc (holds_key key) rows _ (u.keys key) (claimed_key_new key);
  }

-- Whether an INSERT meets every constraint.
abbrev pub insertable : Claim → Table → Bool
insertable c rows =
    not (is_empty c.canonical_key) && not (breaks_unique c rows) && not (breaks_parent c rows)

-- The table that `claim` leaves.
pub claim_rows :
    (c : Claim) (now : ℕ) (rows : Table)
    → (claim c now rows).1 ≡ (if insertable c rows then rows ++ claimed_row c now ∷ [] else rows)
unfolding claim get_by_launch_id
claim_rows c now rows = ground arith

pub claim-IsUnique :
    (c : Claim) (now : ℕ) (rows : Table) → IsUnique rows → IsUnique (claim c now rows).1
claim-IsUnique c now rows u = elim (Bool-cases (insertable c rows)) [
  | inl e ↦ rw (claim_rows c now rows, e) (claimed-IsUnique c now rows (ground arith) u)
  | inr e ↦ rw (claim_rows c now rows, e) u
]

is_target-has_id :
    (id : String) (s : LaunchStatus) (r : AgentLaunch)
    → is_target id s r ≡ true
    → has_id id r ≡ true
unfolding is_target
is_target-has_id id s r h = ground arith

module _ (id : String) (s t : LaunchStatus) (f : CasFields) (now : ℕ) (rows : Table) where
  -- The table that an UPDATE that is carried out leaves.
  abbrev swapped : Table
  swapped = update_where (is_target id s) (apply_cas t f now) rows

  swapped_ids : (i : String) → count_where (has_id i) swapped ≡ count_where (has_id i) rows
  unfolding apply_cas
  swapped_ids i = count_where-update_same (has_id i) _ _ (λ r h. refl) rows

  -- A status outside the index adds no row to it.
  swapped_key_outside :
      (key : String)
      → is_indexed t ≡ false
      → count_where (holds_key key) swapped ≤ count_where (holds_key key) rows
  unfolding apply_cas holds_key
  swapped_key_outside key h = count_where-update_le (holds_key key) _ _ (λ r x y. ground arith) rows

  -- The row that the UPDATE changes stands under this key.
  abbrev moves_key : String → AgentLaunch → Bool
  moves_key key r = is_target id s r && str_eq r.canonical_key key

  swapped_key_other :
      (key : String)
      → any (moves_key key) rows ≡ false
      → count_where (holds_key key) swapped ≤ count_where (holds_key key) rows
  unfolding apply_cas holds_key
  swapped_key_other key h =
      count_where-update_unmarked (holds_key key) (is_target id s) (moves_key key)
        (apply_cas t f now) (λ r x y z. ground arith) rows h

  swapped_key_moved :
      (key : String)
      → IsUnique rows
      → is_indexed t ≡ true
      → breaks_index id s t rows ≡ false
      → any (moves_key key) rows ≡ true
      → count_where (holds_key key) swapped ≤ 1
  unfolding breaks_index
  swapped_key_moved key u h free moved =
      let (r, target, alone) =
        any_apart (moves_key key) (is_crowded id s rows) rows moved (ground arith) in
      omega (
        arith,
        count_where-update_marked (holds_key key) (is_target id s) (has_id id) (apply_cas t f now)
            (is_target-has_id id s) rows,
        u.ids id,
        count_where-none (λ x. holds_key key x && not (has_id id x)) rows
            (none_beside r target alone),
      )
    where
      none_beside :
          (r : AgentLaunch)
          → moves_key key r ≡ true
          → is_crowded id s rows r ≡ false
          → any (λ x. holds_key key x && not (has_id id x)) rows ≡ false
      none_beside r target alone =
          subst (λ k. any (λ x. holds_key k x && not (has_id id x)) rows ≡ false)
            ((str_eq_iff r.canonical_key key).0 (ground arith))
            (subst (λ i. any (λ x. holds_key r.canonical_key x && not (has_id i x)) rows ≡ false)
              ((str_eq_iff r.launch_id id).0 (is_target-has_id id s r (ground arith)))
              (ground arith))

  swapped-IsUnique : breaks_index id s t rows ≡ false → IsUnique rows → IsUnique swapped
  swapped-IsUnique free u = record {
    ids = λ i. rw (swapped_ids i) (u.ids i);
    keys = λ key. elim (Bool-cases (is_indexed t)) [
      | inr outside ↦ omega (arith, swapped_key_outside key outside, u.keys key)
      | inl inside ↦ elim (Bool-cases (any (moves_key key) rows)) [
        | inl moved ↦ swapped_key_moved key u inside free moved
        | inr other ↦ omega (arith, swapped_key_other key other, u.keys key)
      ]
    ];
  }

-- The table that `cas_update_status` leaves.
pub cas_update_status_rows :
    (id : String) (s t : LaunchStatus) (f : CasFields) (now : ℕ) (rows : Table)
    → (cas_update_status id s t f now rows).1 ≡ (
        if breaks_index id s t rows
        then rows
        else update_where (is_target id s) (apply_cas t f now) rows)
unfolding cas_update_status
cas_update_status_rows id s t f now rows = ground arith

pub cas_update_status-IsUnique :
    (id : String) (s t : LaunchStatus) (f : CasFields) (now : ℕ) (rows : Table)
    → IsUnique rows
    → IsUnique (cas_update_status id s t f now rows).1
cas_update_status-IsUnique id s t f now rows u = elim (Bool-cases (breaks_index id s t rows)) [
  | inl e ↦ rw (cas_update_status_rows id s t f now rows, e) u
  | inr e ↦
      rw (cas_update_status_rows id s t f now rows, e) (swapped-IsUnique id s t f now rows e u)
]
