-- ===== src/Fpel/Service/Sealing.antt =====
-- src/application/services/fpel_authorization_service.py: check and seal.
use fork_agent.Prelude.{
  ℕ, String, Bool, true, false, not, Option, none, some, List, [], ◌∷◌, if◌then◌else◌, any, all,
  str_eq, given_eq, Exec, pure, ◌>>=◌, ◌>>◌,
}
use fork_agent.Fpel.Entity.{
  SealFailureReason, hash_mismatch, missing_reports, terminal_fail_reason, no_frozen_proposal,
  not_frozen, frozen, check_passed, needs_human_decision, terminal_fail, Hasher, FrozenProposal,
  SealedVerdict, construct_verdict, AuthorizationDecision,
}
use fork_agent.Fpel.Repository.{
  Tables, CheckerReport, get_active_frozen_proposal, get_sealed_verdict, save_sealed_verdict,
  get_checkers_for, get_reports_for, get_current_content_hash, get_fpel_status, is_failed,
}
use fork_agent.Fpel.Service.Gatekeeping.{lifted, denied, denied_on, has_drifted}

-- The verdict of a checker in the dict of the reports, where a later report overrides.
unfoldable pub verdict_of : String → List CheckerReport → Option String
verdict_of checker [] = none
verdict_of checker (r ∷ rs) = elim (verdict_of checker rs) [
  | some v ↦ some v
  | none ↦ if str_eq r.checker_id checker then some r.verdict else none
]

abbrev pub says : String → List CheckerReport → String → Bool
says verdict reports checker = given_eq (verdict_of checker reports) verdict

-- The end of `check`, by the checkers and their reports.
unfoldable pub judge_reports :
    FrozenProposal → List String → List CheckerReport → AuthorizationDecision
judge_reports f [] reports = denied_on frozen f (some missing_reports)
judge_reports f (c ∷ cs) reports =
    if any (says "FAIL" reports) (c ∷ cs)
    then denied_on needs_human_decision f (some missing_reports)
    else if all (says "PASS" reports) (c ∷ cs)
    then denied_on check_passed f none
    else denied_on frozen f (some missing_reports)

unfoldable pub check_found : String → Option FrozenProposal → Exec Tables AuthorizationDecision
check_found target none = pure (denied not_frozen none none (some no_frozen_proposal))
check_found target (some f) = do
  checkers ← get_checkers_for target
  reports ← get_reports_for f.frozen_proposal_id
  pure (judge_reports f checkers reports)

abbrev pub terminal_decision : Option FrozenProposal → AuthorizationDecision
terminal_decision none = denied terminal_fail none none (some terminal_fail_reason)
terminal_decision (some f) = denied_on terminal_fail f (some terminal_fail_reason)

unfoldable pub check_status : Hasher → String → Bool → Exec Tables AuthorizationDecision
check_status h target true = do
  found ← get_active_frozen_proposal h target
  pure (terminal_decision found)
check_status h target false = do
  found ← get_active_frozen_proposal h target
  check_found target found

unfoldable pub check : Hasher → String → Exec Tables AuthorizationDecision
check h target = do
  status ← get_fpel_status target
  check_status h target (given_eq status "TERMINAL_FAIL")

-- SealedVerdict | SealFailureReason
pub data SealResult : Type 0 where
  sealed_as : SealedVerdict → SealResult
  seal_refused : SealFailureReason → SealResult

abbrev pub new_verdict : FrozenProposal → ℕ → Option String → SealedVerdict
new_verdict f sealed_at source = record {
  frozen_proposal_id = f.frozen_proposal_id;
  verdict = "SEALED_PASS";
  sealed_at = sealed_at;
  content_hash = f.content_hash;
  source = source;
}

-- `len(checkers) == 0`, or some checker's verdict is not PASS
unfoldable pub lacks_pass : List String → List CheckerReport → Bool
lacks_pass [] reports = true
lacks_pass (c ∷ cs) reports = not (all (says "PASS" reports) (c ∷ cs))

-- The end of `seal`, by whether a report is missing.
unfoldable pub write_seal : FrozenProposal → ℕ → Bool → Exec Tables SealResult
write_seal f sealed_at true = pure (seal_refused missing_reports)
write_seal f sealed_at false = do
  sealed ← lifted (construct_verdict (new_verdict f sealed_at none))
  save_sealed_verdict sealed
  pure (sealed_as sealed)

unfoldable pub seal_checked : String → FrozenProposal → ℕ → Bool → Exec Tables SealResult
seal_checked target f sealed_at true = pure (seal_refused hash_mismatch)
seal_checked target f sealed_at false = do
  checkers ← get_checkers_for target
  reports ← get_reports_for f.frozen_proposal_id
  write_seal f sealed_at (lacks_pass checkers reports)

unfoldable pub seal_live : String → FrozenProposal → ℕ → Bool → Exec Tables SealResult
seal_live target f sealed_at true = pure (seal_refused terminal_fail_reason)
seal_live target f sealed_at false = do
  current ← get_current_content_hash target
  seal_checked target f sealed_at (has_drifted f.content_hash current)

unfoldable pub seal_unsealed :
    String → FrozenProposal → ℕ → Option SealedVerdict → Exec Tables SealResult
seal_unsealed target f sealed_at (some existing) = pure (sealed_as existing)
seal_unsealed target f sealed_at none = do
  status ← get_fpel_status target
  seal_live target f sealed_at (given_eq status "TERMINAL_FAIL")

unfoldable pub seal_unfailed : String → FrozenProposal → ℕ → Bool → Exec Tables SealResult
seal_unfailed target f sealed_at true = pure (seal_refused terminal_fail_reason)
seal_unfailed target f sealed_at false = do
  existing ← get_sealed_verdict f.frozen_proposal_id
  seal_unsealed target f sealed_at existing

unfoldable pub seal_found : String → ℕ → Option FrozenProposal → Exec Tables SealResult
seal_found target sealed_at none = pure (seal_refused no_frozen_proposal)
seal_found target sealed_at (some f) = do
  failed ← is_failed f.frozen_proposal_id
  seal_unfailed target f sealed_at failed

unfoldable pub seal : Hasher → ℕ → String → Exec Tables SealResult
seal h sealed_at target = do
  found ← get_active_frozen_proposal h target
  seal_found target sealed_at found
