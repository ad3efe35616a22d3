-- ===== src/Fpel/Service/Legacy.antt =====
-- src/application/services/fpel_authorization_service.py: evaluate_legacy and the legacy snapshots.
use fork_agent.Prelude.{
  ℕ, String, Bool, true, false, not, ◌&&◌, Option, none, some, List, [], ◌∷◌, if◌then◌else◌, any,
  given_eq, opt_eq, Exec, value_error, pure, raise, ◌>>=◌, ◌>>◌,
}
use fork_agent.Fpel.Entity.{
  SealFailureReason, missing_reports, no_frozen_proposal, FpelStatus, not_frozen,
  needs_human_decision, not_evaluated, Hasher, PlanTask, FrozenProposal, construct_proposal,
  SealedVerdict, construct_verdict, AuthorizationDecision,
}
use fork_agent.Fpel.Hash.{task_content}
use fork_agent.Fpel.Repository.{
  Tables, get_active_frozen_proposal, get_all_frozen_proposals, get_sealed_verdict,
  save_fpel_status, is_failed, save_frozen_with_sealed_verdict,
}
use fork_agent.Fpel.Service.Gatekeeping.{lifted, denied}
use fork_agent.Fpel.Service.Freezing.{supersede_ids, new_proposal}
use fork_agent.Fpel.Service.Sealing.{new_verdict}

-- _ACTIONS_REQUIRING_FREEZE
abbrev pub actions_requiring_freeze : List String
actions_requiring_freeze = "retry" ∷ "resume" ∷ "next_phase" ∷ "major_scope_change" ∷ []

unfoldable pub requires_freeze : Bool → Option String → Bool
requires_freeze is_running action = is_running && any (given_eq action) actions_requiring_freeze

abbrev pub legacy_denied : FpelStatus → Option String → SealFailureReason → AuthorizationDecision
legacy_denied status current reason = denied status none current (some reason)

-- `approved_content_hash is None`, or the current hash is another
unfoldable pub is_unverified : Option String → Option String → Bool
is_unverified none current = true
is_unverified (some approved) current = not (opt_eq current (some approved))

unfoldable pub evaluate_legacy :
    String
    → Option String
    → Option String
    → Bool
    → Option String
    → Exec Tables AuthorizationDecision
evaluate_legacy target approved current is_running action =
    if requires_freeze is_running action
    then pure (legacy_denied not_frozen current no_frozen_proposal)
    else if is_unverified approved current
    then pure (legacy_denied needs_human_decision current missing_reports)
    else do
      save_fpel_status target "NOT_EVALUATED"
      pure (legacy_denied not_evaluated current missing_reports)

abbrev pub snapshot_sealed :
    FrozenProposal → Option SealedVerdict → Exec Tables (FrozenProposal × SealedVerdict)
snapshot_sealed f none = raise value_error
snapshot_sealed f (some sealed) = pure (f, sealed)

unfoldable pub snapshot_unfailed :
    FrozenProposal → Bool → Exec Tables (FrozenProposal × SealedVerdict)
snapshot_unfailed f true = raise value_error
snapshot_unfailed f false = do
  sealed ← get_sealed_verdict f.frozen_proposal_id
  snapshot_sealed f sealed

-- _snapshot_legacy_inner, by the active proposal; its content_hash is that of the content.
unfoldable pub snapshot_found :
    Hasher
    → String
    → ℕ
    → ℕ
    → String
    → String
    → Option FrozenProposal
    → Exec Tables (FrozenProposal × SealedVerdict)
snapshot_found h id now sealed_at target content (some f) = do
  failed ← is_failed f.frozen_proposal_id
  snapshot_unfailed f failed
snapshot_found h id now sealed_at target content none = do
  existing ← get_all_frozen_proposals h target
  proposal ← lifted (construct_proposal h (new_proposal h id target content))
  sealed ← lifted (construct_verdict (new_verdict proposal sealed_at (some "LEGACY_APPROVED")))
  save_frozen_with_sealed_verdict proposal sealed (supersede_ids existing) now
  pure (proposal, sealed)

unfoldable pub snapshot_legacy :
    Hasher → String → ℕ → ℕ → String → String → Exec Tables (FrozenProposal × SealedVerdict)
snapshot_legacy h id now sealed_at target content = do
  found ← get_active_frozen_proposal h target
  snapshot_found h id now sealed_at target content found

unfoldable pub snapshot_legacy_task :
    Hasher
    → String
    → ℕ
    → ℕ
    → String
    → Option String
    → String
    → Option String
    → Exec Tables (FrozenProposal × SealedVerdict)
snapshot_legacy_task h id now sealed_at target plan_text subject description =
    snapshot_legacy h id now sealed_at target (task_content plan_text subject description)

unfoldable pub snapshot_legacy_plan :
    Hasher → String → ℕ → ℕ → String → List PlanTask → Exec Tables (FrozenProposal × SealedVerdict)
snapshot_legacy_plan h id now sealed_at target tasks =
    snapshot_legacy h id now sealed_at target (h.dumps_tasks tasks)
