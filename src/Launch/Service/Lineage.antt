-- ===== src/Launch/Service/Lineage.antt =====
-- The lineage check of `request_launch` against the parent links of the table.
use mathlib.Core.Bool.{false≢true}
use fork_agent.Prelude.{
  ℕ, zero, suc, String, Option, none, some, List, [], ◌∷◌, ◌≡◌, ◌≢◌, refl, sym, ◌∙◌, Exec, ok, pure,
  ◌>>=◌, proceed, arith, find_key, str_eq, str_eq_iff, Bool-cases, ◌⊎◌, inl, inr, some_eq,
}
use fork_agent.Launch.Entity.{AgentLaunch, construct}
use fork_agent.Launch.Registry.{Table, launch_key, get_by_launch_id, row_to_launch, sqlite}
use fork_agent.Launch.Service.{
  LineageError, cycle_detected, self_referential, visits, walk, walk_on, walk_from,
  validate_parent_launch_id,
}

-- The parent link of an id, where the table has its record.
unfoldable pub parent_of : Table → String → Option String
parent_of rows id = elim (find_key launch_key id rows) [ none ↦ none | some l ↦ l.parent_launch_id ]

-- `n` parent links up.
unfoldable pub climb : Table → ℕ → Option String → Option String
climb rows zero current = current
climb rows (suc n) none = none
climb rows (suc n) (some id) = climb rows n (parent_of rows id)

climb-none : (rows : Table) (n : ℕ) → climb rows n none ≡ none
unfolding climb
climb-none rows zero = refl
climb-none rows (suc n) = refl

-- A round of the walk that accepts: the id has no record, or the walk accepts from its parent.
walk_on_accepts :
    (next : Option String → Exec Table (Option LineageError)) (o : Option AgentLaunch)
    (rows : Table)
    → (proceed (row_to_launch o) (walk_on sqlite next) rows).0 ≡ ok none
    → (o ≡ none) ⊎ ((l : AgentLaunch) × (o ≡ some l) × ((next l.parent_launch_id rows).0 ≡ ok none))
unfolding row_to_launch construct pure
walk_on_accepts next none rows h = inl refl
walk_on_accepts next (some l) rows h = inr (l, refl, ground arith)

climb_parent :
    (rows : Table) (n : ℕ) (id : String) (o : Option AgentLaunch)
    → find_key launch_key id rows ≡ o
    → ((l : AgentLaunch) → o ≡ some l → climb rows n l.parent_launch_id ≡ none)
    → climb rows n (parent_of rows id) ≡ none
unfolding parent_of
climb_parent rows n id none e h = rw (e, parent_of) (climb-none rows n)
climb_parent rows n id (some l) e h = rw (e, parent_of) (h l refl)

walk_ends :
    (room : ℕ) (visited : List String) (current : Option String) (rows : Table)
    → (walk sqlite room visited current rows).0 ≡ ok none
    → climb rows room current ≡ none
unfolding walk climb get_by_launch_id ◌>>=◌ pure
walk_ends zero visited none rows h = refl
walk_ends zero visited (some id) rows h = absurd (ground arith)
walk_ends (suc room) visited none rows h = refl
walk_ends (suc room) visited (some id) rows h = elim (Bool-cases (visits id visited)) [
  | inl seen ↦ absurd (cycle_refused (rw seen at h))
  | inr new ↦ elim (walk_on_accepts (walk sqlite room (id ∷ visited)) _ rows (rw new at h)) [
    | inl lost ↦ climb_parent rows room id _ lost (λ l e. absurd (cc))
    | inr (a, found, accepted) ↦
        climb_parent rows room id _ found
          (λ l e. rw (← some_eq e) (walk_ends room (id ∷ visited) a.parent_launch_id rows accepted))
  ]
]
  where
    cycle_refused : ok (some cycle_detected) ≡ ok none → ⊥
    cycle_refused e = cc

walk_from_accepts :
    (parent proposed : String) (o : Option AgentLaunch) (rows : Table)
    → (proceed (row_to_launch o) (walk_from sqlite parent proposed) rows).0 ≡ ok none
    → (l : AgentLaunch) × (o ≡ some l)
      × ((walk sqlite 14 (proposed ∷ parent ∷ []) l.parent_launch_id rows).0 ≡ ok none)
unfolding row_to_launch construct pure
walk_from_accepts parent proposed none rows h = absurd (ground arith)
walk_from_accepts parent proposed (some l) rows h = (l, refl, ground arith)

-- If the check accepts a parent, the parent is another launch, it is in the table, and its chain of
-- parent links ends within 15 links; so no launch is its own ancestor there.
pub accepted_lineage :
    (parent proposed : String) (rows : Table)
    → (validate_parent_launch_id sqlite parent proposed rows).0 ≡ ok none
    → (parent ≢ proposed)
      × ((p : AgentLaunch) × (find_key launch_key parent rows ≡ some p))
      × (climb rows 15 (some parent) ≡ none)
unfolding validate_parent_launch_id get_by_launch_id climb ◌>>=◌ pure
accepted_lineage parent proposed rows h = elim (Bool-cases (str_eq parent proposed)) [
  | inl same ↦ absurd (refused (rw same at h))
  | inr other ↦
      let (p, found, accepted) = walk_from_accepts parent proposed _ rows (rw other at h) in
      (
        (λ e. absurd (false≢true (sym other ∙ (str_eq_iff parent proposed).1 e))),
        (p, found),
        climb_parent rows 14 parent _ found
            (λ l e. rw (← some_eq e) (walk_ends 14 _ p.parent_launch_id rows accepted)),
      )
]
  where
    refused : ok (some self_referential) ≡ ok none → ⊥
    refused e = cc
