-- ===== src/Fpel/Tests.antt =====
-- FPEL on small tables.
use fork_agent.Prelude.{
  ◌≤◌, String, true, none, some, List, [], ◌∷◌, ◌≡◌, ◌≢◌, ◌⊎◌, refl, ok, count_where, find_key,
  latest, ◌>>=◌, pure, is_empty, arith,
}
use fork_agent.Task.Entity.{OrchestrationTask, approved}
use fork_agent.Task.Board.{start}
use fork_agent.Task.Board.Outcome.{Outcome}
use fork_agent.Fpel.Entity.{
  Hasher, FrozenProposal, active, SealedVerdict, terminal_fail, terminal_fail_reason,
  compute_content_hash, canonicalize, proposal_passes, construct_proposal, construct_verdict,
  verdict_passes, is_active, detect_scope_change, is_valid_source,
}
use fork_agent.Fpel.Repository.{
  Tables, get_active_frozen_proposal, active_row, row_to_proposal, is_active_for, has_failed,
  get_sealed_verdict, row_to_verdict, is_failed, mark_failed,
}
use fork_agent.Fpel.Service.{
  check_sealed, judge_frozen, judge_failed, judge_verdict, effective_hash, has_drifted, seal,
  mark_fail, denied_on,
}
use fork_agent.Fpel.Gate.{
  IsAuthorized, StartsSealed, allows, sealed_gate, check_sealed-IsAuthorized, start_is_sealed,
}
use fork_agent.Fpel.Seal.{Seals, seal_needs_passes}
use fork_agent.Fpel.History.{Call, run, failing, freezing, sealing}
use fork_agent.Fpel.Safety.{
  IsSingle, one_active_proposal, failed_proposal_stays_closed, seal_without_reports,
}
use fork_agent.Fpel.Mismatch.{seal_never_mismatches}
use fork_agent.Fpel.Entity.{hash_mismatch}
use fork_agent.Fpel.Service.{seal_refused}
use fork_agent.Fpel.Stop.{mark_fail_closes}

-- A stand-in for the hash: the text itself.
abbrev hasher : Hasher
hasher = record {
  reserialize = λ s. none;
  sha256_hex = λ s. s;
  dumps_task = λ t. t.slug;
  dumps_tasks = λ ts. "plan";
}

abbrev proposal : String → FrozenProposal
proposal id = record {
  frozen_proposal_id = id;
  target_id = "t";
  content_hash = "plan";
  content = "plan";
  lifecycle = active;
}

abbrev verdict : SealedVerdict
verdict = record {
  frozen_proposal_id = "fp";
  verdict = "SEALED_PASS";
  sealed_at = 3;
  content_hash = "plan";
  source = none;
}

abbrev sealed_tables : Tables
sealed_tables = record {
  proposals = record { proposal = proposal "fp"; created_at = 1 } ∷ [];
  verdicts = verdict ∷ [];
  reports = [];
  statuses = [];
  failures = record { frozen_proposal_id = "old"; reason = none } ∷ [];
}

abbrev empty_tables : Tables
empty_tables = record { proposals = []; verdicts = []; reports = []; statuses = []; failures = [] }

sealed_allows : allows (check_sealed hasher "t" (some "plan") sealed_tables).0 ≡ true
unfolding check_sealed get_active_frozen_proposal active_row is_active_for is_active latest
    row_to_proposal construct_proposal proposal_passes compute_content_hash canonicalize is_empty
    judge_frozen is_failed has_failed judge_failed get_sealed_verdict find_key row_to_verdict
    construct_verdict verdict_passes is_valid_source judge_verdict effective_hash has_drifted
    detect_scope_change ◌>>=◌ pure
sealed_allows = refl

check_sealed-IsAuthorized_example : IsAuthorized hasher "t" "plan" sealed_tables
check_sealed-IsAuthorized_example =
    check_sealed-IsAuthorized hasher "t" "plan" sealed_tables sealed_allows

abbrev task : OrchestrationTask
task = record {
  id = "t";
  subject = "write";
  description = none;
  status = approved;
  owner = none;
  blocked_by = [];
  plan_text = some "plan";
  created_at = 1;
  updated_at = 2;
  approved_by = none;
  approved_at = none;
  requested_by = none;
}

start_is_sealed_example :
    Outcome
      (StartsSealed hasher sealed_tables)
      "t"
      (task ∷ [])
      (start (some (sealed_gate hasher sealed_tables)) "t" "me" none 9 (task ∷ []))
start_is_sealed_example = start_is_sealed hasher sealed_tables "t" "me" none 9 (task ∷ [])

seal_needs_passes_example :
    ((seal hasher 5 "t" sealed_tables).1 ≡ sealed_tables)
    ⊎ Seals hasher "t" 5 sealed_tables (seal hasher 5 "t" sealed_tables)
seal_needs_passes_example = seal_needs_passes hasher "t" 5 sealed_tables

abbrev calls : List Call
calls =
    freezing "a" 1 "t" "plan" ∷ sealing 2 "t" ∷ freezing "b" 3 "t" "other" ∷ failing "t" none ∷ []

empty-IsSingle : IsSingle []
empty-IsSingle target = omega arith

one_active_proposal_example :
    count_where (is_active_for "t") (run hasher calls empty_tables).proposals ≤ 1
one_active_proposal_example = one_active_proposal hasher calls empty_tables "t" empty-IsSingle

seal_without_reports_example :
    (seal hasher 9 "t" (run hasher calls empty_tables)).1 ≡ run hasher calls empty_tables
seal_without_reports_example = seal_without_reports hasher calls empty_tables 9 "t" refl

old_failed : has_failed "old" sealed_tables.failures ≡ true
unfolding has_failed
old_failed = refl

run_nothing : allows (check_sealed hasher "t" (some "plan") (run hasher [] sealed_tables)).0 ≡ true
unfolding run
run_nothing = sealed_allows

failed_proposal_stays_closed_example :
    (a : IsAuthorized hasher "t" "plan" (run hasher [] sealed_tables))
    × (a.proposal.frozen_proposal_id ≢ "old")
failed_proposal_stays_closed_example =
    failed_proposal_stays_closed hasher [] sealed_tables "old" "t" "plan" old_failed run_nothing

fails_fp : (mark_fail hasher "t" none sealed_tables).0 ≡ ok (proposal "fp")
unfolding mark_fail get_active_frozen_proposal active_row is_active_for is_active latest
    row_to_proposal construct_proposal proposal_passes compute_content_hash canonicalize is_empty
    mark_failed has_failed ◌>>=◌ pure
fails_fp = refl

mark_fail_closes_example :
    ((get_active_frozen_proposal hasher "t" sealed_tables).0 ≡ ok (some (proposal "fp")))
    × (check_sealed hasher "t" (some "plan") (mark_fail hasher "t" none sealed_tables).1 ≡ (
      ok (denied_on terminal_fail (proposal "fp") (some terminal_fail_reason)),
      (mark_fail hasher "t" none sealed_tables).1,
    ))
mark_fail_closes_example =
    mark_fail_closes hasher "t" none (some "plan") sealed_tables (proposal "fp") fails_fp

seal_never_mismatches_example :
    (seal hasher 5 "t" sealed_tables).0 ≢ ok (seal_refused hash_mismatch)
seal_never_mismatches_example = seal_never_mismatches hasher "t" 5 sealed_tables
