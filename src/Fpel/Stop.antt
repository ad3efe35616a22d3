-- ===== src/Fpel/Stop.antt =====
-- `mark_fail` stops a target.
use fork_agent.Prelude.{
  String, true, Option, none, some, List, [], ◌∷◌, ◌++◌, ◌≡◌, refl, ap, ◌∙◌, Result, ok, err, pure,
  raise, ◌>>=◌, ◌>>◌, proceed, arith, Bool-cases, inl, inr, str_eq_self, integrity_error,
  ok-injective, subst,
}
use fork_agent.Fpel.Entity.{Hasher, FrozenProposal, terminal_fail, terminal_fail_reason}
use fork_agent.Fpel.Repository.{
  Tables, FailureRow, has_proposal, get_active_frozen_proposal, active_row, has_failed, is_failed,
  mark_failed,
}
use fork_agent.Fpel.Service.{
  check_sealed, judge_frozen, judge_failed, denied_on, mark_fail, mark_found,
}

-- What a successful marking leaves.
record Marked (f : FrozenProposal) (t u : Tables) : Type 0 where
  proposals : u.proposals ≡ t.proposals
  failed : has_failed f.frozen_proposal_id u.failures ≡ true

has_failed-new :
    (id : String) (reason : Option String) (rows : List FailureRow)
    → has_failed id (rows ++ record { frozen_proposal_id = id; reason = reason } ∷ []) ≡ true
unfolding has_failed
has_failed-new id reason [] = ground (arith, str_eq_self id)
has_failed-new id reason (r ∷ rows) = ground (arith, has_failed-new id reason rows)

mark_failed-Marked :
    (f g : FrozenProposal) (reason : Option String) (t : Tables)
    → ((mark_failed f.frozen_proposal_id reason >> pure f) t).0 ≡ ok g
    → (f ≡ g) × Marked f t ((mark_failed f.frozen_proposal_id reason >> pure f) t).1
unfolding mark_failed ◌>>=◌ pure
mark_failed-Marked f g reason t e = elim (Bool-cases (has_failed f.frozen_proposal_id t.failures)) [
  | inl a ↦ rw a (ok-injective (rw a at e), record { proposals = refl; failed = a })
  | inr a ↦ elim (Bool-cases (has_proposal f.frozen_proposal_id t.proposals)) [
    | inl b ↦
        rw (a, b)
          (
            ok-injective (rw (a, b) at e),
            record {
              proposals = refl;
              failed = has_failed-new f.frozen_proposal_id reason t.failures;
            },
          )
    | inr b ↦ absurd (refused (rw (a, b) at e))
  ]
]
  where
    broken : Result FrozenProposal
    broken = err integrity_error

    refused : broken ≡ ok g → ⊥
    refused x = cc

check_failed :
    (h : Hasher) (target : String) (current : Option String) (f : FrozenProposal) (t : Tables)
    → (get_active_frozen_proposal h target t).0 ≡ ok (some f)
    → has_failed f.frozen_proposal_id t.failures ≡ true
    → check_sealed h target current t
      ≡ (ok (denied_on terminal_fail f (some terminal_fail_reason)), t)
unfolding check_sealed get_active_frozen_proposal judge_frozen judge_failed is_failed ◌>>=◌ pure
check_failed h target current f t found failed = rw found (rw failed refl)

mark_found-Marked :
    (reason : Option String) (r : Result (Option FrozenProposal)) (f : FrozenProposal) (t : Tables)
    → (proceed r (mark_found reason) t).0 ≡ ok f
    → (r ≡ ok (some f)) × Marked f t (proceed r (mark_found reason) t).1
unfolding raise
mark_found-Marked reason (err x) f t e = absurd (cc)
mark_found-Marked reason (ok none) f t e = absurd (cc)
mark_found-Marked reason (ok (some g)) f t e =
    let (same, m) = mark_failed-Marked g f reason t e in
    (
      ap (λ x. ok (some x)) same,
      subst (λ x. Marked x t ((mark_failed g.frozen_proposal_id reason >> pure g) t).1) same m,
    )

get_active_proposals :
    (h : Hasher) (target : String) (t u : Tables)
    → u.proposals ≡ t.proposals
    → (get_active_frozen_proposal h target u).0 ≡ (get_active_frozen_proposal h target t).0
unfolding get_active_frozen_proposal active_row
get_active_proposals h target t u e = rw e refl

-- If `mark_fail` returns a proposal, then it is the active one of the target, and `check_sealed` of
-- the target denies on the tables that it left with TERMINAL_FAIL, whatever the hash.
pub mark_fail_closes :
    (h : Hasher) (target : String) (reason current : Option String) (t : Tables)
    (f : FrozenProposal)
    → (mark_fail h target reason t).0 ≡ ok f
    → ((get_active_frozen_proposal h target t).0 ≡ ok (some f))
      × (check_sealed h target current (mark_fail h target reason t).1 ≡ (
        ok (denied_on terminal_fail f (some terminal_fail_reason)),
        (mark_fail h target reason t).1,
      ))
unfolding mark_fail get_active_frozen_proposal ◌>>=◌
mark_fail_closes h target reason current t f e =
    let (found, m) = mark_found-Marked reason _ f t e in
    (
      found,
      check_failed h target current f _ (get_active_proposals h target t _ m.proposals ∙ found)
          m.failed,
    )
