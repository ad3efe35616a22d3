-- ===== src/Fpel/Seal.antt =====
-- When `seal` writes a verdict.
use mathlib.Core.Bool.{false≢true}
use fork_agent.Prelude.{
  all, ◌≢◌, sym, arith, ℕ, String, Bool, true, false, Option, none, some, List, [], ◌∷◌, ◌++◌, ◌≡◌,
  ◌⊎◌, inl, inr, refl, Result, ok, err, value_error, pure, ◌>>=◌, ◌>>◌, proceed, Bool-cases,
  if◌then◌else◌,
}
use fork_agent.Fpel.Entity.{
  Hasher, FrozenProposal, SealedVerdict, construct_verdict, verdict_passes,
}
use fork_agent.Fpel.Repository.{
  Tables, CheckerReport, get_active_frozen_proposal, get_sealed_verdict, has_failed, is_failed,
  save_sealed_verdict, breaks_verdict, get_checkers_for, get_reports_for, get_current_content_hash,
  get_fpel_status,
}
use fork_agent.Fpel.Service.{
  says, SealResult, sealed_as, seal, seal_found, seal_unfailed, seal_unsealed, seal_live,
  seal_checked, write_seal, new_verdict, lacks_pass,
}

-- The tables with one more verdict, and that verdict as the answer.
abbrev pub written : FrozenProposal → ℕ → Tables → Result SealResult × Tables
written f sealed_at t = (
  ok (sealed_as (new_verdict f sealed_at none)),
  record t { verdicts = t.verdicts ++ new_verdict f sealed_at none ∷ [] },
)

-- A verdict is written for an active proposal that is not marked failed and has none yet, where
-- there are checkers and each reported PASS.
pub record Seals (h : Hasher) (target : String) (sealed_at : ℕ) (t : Tables)
    (m : Result SealResult × Tables) : Type 0 where
  pub proposal : FrozenProposal
  pub checkers : List String
  pub reports : List CheckerReport
  pub found : (get_active_frozen_proposal h target t).0 ≡ ok (some proposal)
  pub unfailed : has_failed proposal.frozen_proposal_id t.failures ≡ false
  pub unsealed : (get_sealed_verdict proposal.frozen_proposal_id t).0 ≡ ok none
  pub checked : (get_checkers_for target t).0 ≡ ok checkers
  pub reported : (get_reports_for proposal.frozen_proposal_id t).0 ≡ ok reports
  pub nonempty : checkers ≢ []
  pub passed : all (says "PASS" reports) checkers ≡ true
  pub result : m ≡ written proposal sealed_at t

pass_all :
    (checkers : List String) (reports : List CheckerReport)
    → lacks_pass checkers reports ≡ false
    → (checkers ≢ []) × (all (says "PASS" reports) checkers ≡ true)
unfolding lacks_pass
pass_all [] reports h = absurd (false≢true (sym h))
pass_all (c ∷ cs) reports h = ((λ e. cc), ground arith)

module _ (f : FrozenProposal) (sealed_at : ℕ) (t : Tables) where
  save_effect :
      ((save_sealed_verdict (new_verdict f sealed_at none)
            >> pure (sealed_as (new_verdict f sealed_at none)))
          t).1
        ≡ t
      ⊎ ((save_sealed_verdict (new_verdict f sealed_at none)
              >> pure (sealed_as (new_verdict f sealed_at none)))
            t
          ≡ written f sealed_at t)
  unfolding save_sealed_verdict ◌>>=◌ pure
  save_effect =
      elim (Bool-cases (breaks_verdict (new_verdict f sealed_at none) t.verdicts t.proposals)) [
        | inl broken ↦ inl (rw broken refl)
        | inr free ↦ inr (rw free refl)
      ]

  construct_effect :
      (b : Bool)
      → (proceed
            (if b then ok (new_verdict f sealed_at none) else err value_error)
            (λ sealed. save_sealed_verdict sealed >> pure (sealed_as sealed))
            t).1
          ≡ t
        ⊎ (proceed
              (if b then ok (new_verdict f sealed_at none) else err value_error)
              (λ sealed. save_sealed_verdict sealed >> pure (sealed_as sealed))
              t
            ≡ written f sealed_at t)
  construct_effect true = save_effect
  construct_effect false = inl refl

  write_effect :
      (b : Bool)
      → (write_seal f sealed_at b t).1 ≡ t
        ⊎ ((b ≡ false) × (write_seal f sealed_at b t ≡ written f sealed_at t))
  unfolding write_seal construct_verdict ◌>>=◌ pure
  write_effect true = inl refl
  write_effect false = elim (construct_effect (verdict_passes (new_verdict f sealed_at none))) [
    | inl e ↦ inl e
    | inr e ↦ inr (refl, e)
  ]

-- The checkers and the reports that let `seal` write.
pub record Passes (target : String) (f : FrozenProposal) (t : Tables) : Type 0 where
  pub checkers : List String
  pub reports : List CheckerReport
  pub checked : (get_checkers_for target t).0 ≡ ok checkers
  pub reported : (get_reports_for f.frozen_proposal_id t).0 ≡ ok reports
  pub passed : lacks_pass checkers reports ≡ false

module _ (target : String) (f : FrozenProposal) (sealed_at : ℕ) (t : Tables) where
  checked_effect :
      (b : Bool)
      → (seal_checked target f sealed_at b t).1 ≡ t
        ⊎ (Passes target f t × (seal_checked target f sealed_at b t ≡ written f sealed_at t))
  unfolding seal_checked get_checkers_for get_reports_for ◌>>=◌ pure
  checked_effect true = inl refl
  checked_effect false = elim (write_effect f sealed_at t _) [
    | inl e ↦ inl e
    | inr (p, e) ↦
        inr (record { checkers = _; reports = _; checked = refl; reported = refl; passed = p }, e)
  ]

  live_effect :
      (b : Bool)
      → (seal_live target f sealed_at b t).1 ≡ t
        ⊎ (Passes target f t × (seal_live target f sealed_at b t ≡ written f sealed_at t))
  unfolding seal_live get_current_content_hash ◌>>=◌ pure
  live_effect true = inl refl
  live_effect false = checked_effect _

  unsealed_effect :
      (r : Result (Option SealedVerdict))
      → (proceed r (seal_unsealed target f sealed_at) t).1 ≡ t
        ⊎ ((r ≡ ok none)
            × Passes target f t
            × (proceed r (seal_unsealed target f sealed_at) t ≡ written f sealed_at t))
  unfolding seal_unsealed get_fpel_status ◌>>=◌ pure
  unsealed_effect (err e) = inl refl
  unsealed_effect (ok (some v)) = inl refl
  unsealed_effect (ok none) = elim (live_effect _) [ inl e ↦ inl e | inr (p, e) ↦ inr (refl, p, e) ]

  unfailed_effect :
      (b : Bool)
      → (seal_unfailed target f sealed_at b t).1 ≡ t
        ⊎ ((b ≡ false)
            × ((get_sealed_verdict f.frozen_proposal_id t).0 ≡ ok none)
            × Passes target f t
            × (seal_unfailed target f sealed_at b t ≡ written f sealed_at t))
  unfolding seal_unfailed get_sealed_verdict ◌>>=◌ pure
  unfailed_effect true = inl refl
  unfailed_effect false = elim (unsealed_effect _) [
    | inl e ↦ inl e
    | inr (n, p, e) ↦ inr (refl, n, p, e)
  ]

module _ (h : Hasher) (target : String) (sealed_at : ℕ) (t : Tables) where
  found_effect :
      (r : Result (Option FrozenProposal))
      → (get_active_frozen_proposal h target t).0 ≡ r
      → (proceed r (seal_found target sealed_at) t).1 ≡ t
        ⊎ Seals h target sealed_at t (proceed r (seal_found target sealed_at) t)
  unfolding seal_found is_failed ◌>>=◌ pure
  found_effect (err e) found = inl refl
  found_effect (ok none) found = inl refl
  found_effect (ok (some f)) found = elim (unfailed_effect target f sealed_at t _) [
    | inl e ↦ inl e
    | inr (unfailed, unsealed, p, e) ↦ inr (record {
      proposal = f;
      checkers = p.checkers;
      reports = p.reports;
      found = found;
      unfailed = unfailed;
      unsealed = unsealed;
      checked = p.checked;
      reported = p.reported;
      nonempty = (pass_all p.checkers p.reports p.passed).0;
      passed = (pass_all p.checkers p.reports p.passed).1;
      result = e;
    })
  ]

  -- `seal` either leaves the tables as they are, or it adds one verdict, for the hash of the frozen
  -- content, and returns it; then the target has an active proposal that is not marked failed and
  -- has no verdict yet, there are checkers, and each of them reported PASS.
  pub seal_needs_passes :
      ((seal h sealed_at target t).1 ≡ t) ⊎ Seals h target sealed_at t (seal h sealed_at target t)
  unfolding seal get_active_frozen_proposal ◌>>=◌
  seal_needs_passes = found_effect _ refl
