-- ===== src/Fpel/Service/Gatekeeping.antt =====
-- src/application/services/fpel_authorization_service.py: check_sealed and mark_fail.
use fork_agent.Prelude.{
  String, Bool, true, false, Option, none, some, if◌then◌else◌, given_eq, Exec, Result, value_error,
  pure, raise, ◌>>=◌, ◌>>◌,
}
use fork_agent.Fpel.Entity.{
  SealFailureReason, hash_mismatch, missing_reports, terminal_fail_reason, no_frozen_proposal,
  FpelStatus, not_frozen, frozen, check_passed, sealed_pass, terminal_fail, Hasher,
  detect_scope_change, FrozenProposal, SealedVerdict, AuthorizationDecision,
}
use fork_agent.Fpel.Repository.{
  Tables, get_active_frozen_proposal, get_sealed_verdict, get_candidate_verdict,
  get_current_content_hash, mark_failed, is_failed,
}

abbrev pub lifted : {A : Type 0} → Result A → Exec Tables A
lifted r t = (r, t)

-- AuthorizationDecision(allowed=False, …)
abbrev pub denied :
    FpelStatus → Option String → Option String → Option SealFailureReason → AuthorizationDecision
denied status id hash reason = record {
  allowed = false;
  status = status;
  frozen_proposal_id = id;
  content_hash = hash;
  reason = reason;
  seal_id = none;
  sealed_at = none;
}

abbrev pub denied_on :
    FpelStatus → FrozenProposal → Option SealFailureReason → AuthorizationDecision
denied_on status f reason = denied status (some f.frozen_proposal_id) (some f.content_hash) reason

abbrev pub granted : FrozenProposal → SealedVerdict → AuthorizationDecision
granted f v = record {
  allowed = true;
  status = sealed_pass;
  frozen_proposal_id = some f.frozen_proposal_id;
  content_hash = some f.content_hash;
  reason = none;
  seal_id = some v.frozen_proposal_id;
  sealed_at = some v.sealed_at;
}

-- `current_hash if current_hash is not None else self._repo.get_current_content_hash(target_id)`
unfoldable pub effective_hash : String → Option String → Exec Tables (Option String)
effective_hash target none = get_current_content_hash target
effective_hash target (some current) = pure (some current)

-- `hash is not None and detect_scope_change(sealed, hash)`
unfoldable pub has_drifted : String → Option String → Bool
has_drifted sealed none = false
has_drifted sealed (some current) = detect_scope_change sealed current

-- The end of `check_sealed`, by the verdict that was read.
unfoldable pub judge_verdict :
    String
    → Option String
    → FrozenProposal
    → Option SealedVerdict
    → Exec Tables AuthorizationDecision
judge_verdict target current f none = do
  candidate ← get_candidate_verdict f.frozen_proposal_id
  pure (
      denied_on (if given_eq candidate "PASS" then check_passed else frozen) f
        (some missing_reports))
judge_verdict target current f (some sealed) = do
  hash ← effective_hash target current
  pure (
      if has_drifted sealed.content_hash hash
      then denied sealed_pass (some f.frozen_proposal_id) current (some hash_mismatch)
      else granted f sealed)

unfoldable pub judge_failed :
    String → Option String → FrozenProposal → Bool → Exec Tables AuthorizationDecision
judge_failed target current f true = pure (denied_on terminal_fail f (some terminal_fail_reason))
judge_failed target current f false = do
  sealed ← get_sealed_verdict f.frozen_proposal_id
  judge_verdict target current f sealed

unfoldable pub judge_frozen :
    String → Option String → Option FrozenProposal → Exec Tables AuthorizationDecision
judge_frozen target current none = pure (denied not_frozen none none (some no_frozen_proposal))
judge_frozen target current (some f) = do
  failed ← is_failed f.frozen_proposal_id
  judge_failed target current f failed

unfoldable pub check_sealed : Hasher → String → Option String → Exec Tables AuthorizationDecision
check_sealed h target current = do
  found ← get_active_frozen_proposal h target
  judge_frozen target current found

abbrev pub mark_found : Option String → Option FrozenProposal → Exec Tables FrozenProposal
mark_found reason none = raise value_error
mark_found reason (some f) = do mark_failed f.frozen_proposal_id reason; pure f

unfoldable pub mark_fail : Hasher → String → Option String → Exec Tables FrozenProposal
mark_fail h target reason = do found ← get_active_frozen_proposal h target; mark_found reason found
