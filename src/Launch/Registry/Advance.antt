-- ===== src/Launch/Registry/Advance.antt =====
-- How one launch record may change: along the transition map, with its origin kept.
use fork_agent.Prelude.{
  ℕ, String, true, some, [], ◌∷◌, ◌++◌, ◌≡◌, refl, sym, ◌∙◌, arith, find_key, find_key-append,
  find_key-update_where, revise, Bool-cases, inl, inr,
}
use fork_agent.Launch.Entity.{
  LaunchStatus, AgentLaunch, status_eq-eq, is_in, valid_transitions, can_transition_to, is_terminal,
}
use fork_agent.Launch.Registry.{
  Table, Claim, CasFields, launch_key, claimed_row, claim, apply_cas, is_target, breaks_index,
  cas_update_status,
}
use fork_agent.Launch.Registry.Unique.{insertable, claim_rows, cas_update_status_rows}

-- The columns that no statement changes after the INSERT.
pub record SameOrigin (l m : AgentLaunch) : Type 0 where
  pub launch_id : l.launch_id ≡ m.launch_id
  pub canonical_key : l.canonical_key ≡ m.canonical_key
  pub surface : l.surface ≡ m.surface
  pub owner_type : l.owner_type ≡ m.owner_type
  pub owner_id : l.owner_id ≡ m.owner_id
  pub created_at : l.created_at ≡ m.created_at
  pub reserved_at : l.reserved_at ≡ m.reserved_at
  pub parent_launch_id : l.parent_launch_id ≡ m.parent_launch_id
  pub role : l.role ≡ m.role
  pub model : l.model ≡ m.model

-- `m` is `l` after some allowed transitions, in a row.
pub data Advances (l : AgentLaunch) : AgentLaunch → Type 0 where
  unchanged : Advances l l
  moved :
      {m n : AgentLaunch}
      → Advances l m
      → can_transition_to m n.status ≡ true
      → SameOrigin m n
      → Advances l n

pub Advances-trans : {l m n : AgentLaunch} → Advances l m → Advances m n → Advances l n
Advances-trans a unchanged = a
Advances-trans a (moved b t o) = moved (Advances-trans a b) t o

-- Every record of the table before is in the table after, advanced.
abbrev pub Evolves : Table → Table → Type 0
Evolves rows rows' =
    (id : String) (l : AgentLaunch)
    → find_key launch_key id rows ≡ some l
    → (m : AgentLaunch) × (find_key launch_key id rows' ≡ some m) × Advances l m

pub Evolves-refl : (rows : Table) → Evolves rows rows
Evolves-refl rows id l h = (l, h, unchanged)

pub Evolves-trans : (s t u : Table) → Evolves s t → Evolves t u → Evolves s u
Evolves-trans s t u a b id l h =
    let (m, found, first) = a id l h in
    let (n, found', second) = b id m found in (n, found', Advances-trans first second)

Evolves-append : (rows : Table) (r : AgentLaunch) → Evolves rows (rows ++ r ∷ [])
Evolves-append rows r id l h = (l, ground (arith, find_key-append launch_key id rows r), unchanged)

pub claim-Evolves : (c : Claim) (now : ℕ) (rows : Table) → Evolves rows (claim c now rows).1
claim-Evolves c now rows = elim (Bool-cases (insertable c rows)) [
  | inl e ↦ rw (claim_rows c now rows, e) (Evolves-append rows (claimed_row c now))
  | inr e ↦ rw (claim_rows c now rows, e) (Evolves-refl rows)
]

apply_cas-SameOrigin :
    (t : LaunchStatus) (f : CasFields) (now : ℕ) (r : AgentLaunch)
    → SameOrigin r (apply_cas t f now r)
unfolding apply_cas
apply_cas-SameOrigin t f now r = ground arith

is_target-status :
    (id : String) (s : LaunchStatus) (r : AgentLaunch) → is_target id s r ≡ true → r.status ≡ s
unfolding is_target
is_target-status id s r h = status_eq-eq r.status s (ground arith)

revised-Advances :
    (id : String) (s t : LaunchStatus) (f : CasFields) (now : ℕ) (r : AgentLaunch)
    → is_in t (valid_transitions s) ≡ true
    → Advances r (revise (is_target id s) (apply_cas t f now) r)
revised-Advances id s t f now r allowed = elim (Bool-cases (is_target id s r)) [
  | inl e ↦ rw e (moved unchanged (new_allowed e) (apply_cas-SameOrigin t f now r))
  | inr e ↦ rw e unchanged
]
  where
    new_allowed : is_target id s r ≡ true → can_transition_to r (apply_cas t f now r).status ≡ true
    new_allowed e = unfold apply_cas can_transition_to in rw (is_target-status id s r e) allowed

pub cas_update_status-Evolves :
    (id : String) (s t : LaunchStatus) (f : CasFields) (now : ℕ) (rows : Table)
    → is_in t (valid_transitions s) ≡ true
    → Evolves rows (cas_update_status id s t f now rows).1
cas_update_status-Evolves id s t f now rows allowed = elim (Bool-cases (breaks_index id s t rows)) [
  | inl e ↦ rw (cas_update_status_rows id s t f now rows, e) (Evolves-refl rows)
  | inr e ↦
      rw (cas_update_status_rows id s t f now rows, e)
        λ i l h. (
          revise (is_target id s) (apply_cas t f now) l,
          find_key-update_where launch_key _ _ (λ r. sym (apply_cas-SameOrigin t f now r).launch_id)
                i rows
              ∙ rw h,
          revised-Advances id s t f now l allowed,
        )
]

no_exit :
    (r : AgentLaunch) (s : LaunchStatus) → is_terminal r ≡ true → can_transition_to r s ≡ true → ⊥
unfolding is_terminal can_transition_to
no_exit r s h k = ground arith

-- A record in a terminal status never changes again.
pub Advances-terminal : {l m : AgentLaunch} → Advances l m → is_terminal l ≡ true → m ≡ l
Advances-terminal unchanged h = refl
Advances-terminal {l} (moved {m} {n} a t o) h =
    absurd (no_exit m n.status (rw (Advances-terminal a h) h) t)
