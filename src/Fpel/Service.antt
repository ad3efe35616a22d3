-- ===== src/Fpel/Service.antt =====
-- src/application/services/fpel_authorization_service.py. New UUIDs and clock readings are
-- arguments: the id of a new proposal, the time of its row, and the time of a seal.
mod Gatekeeping
mod Freezing
mod Sealing
mod Legacy
pub use Gatekeeping.{lifted, denied, denied_on, granted, mark_found}
unfoldable pub use Gatekeeping.{
  effective_hash, has_drifted, judge_verdict, judge_failed, judge_frozen, check_sealed, mark_fail,
}
pub use Freezing.{new_proposal}
unfoldable pub use Freezing.{supersede_ids, freeze, freeze_task, freeze_plan}
pub use Sealing.{says, terminal_decision, SealResult, new_verdict, sealed_as, seal_refused}
unfoldable pub use Sealing.{
  verdict_of, judge_reports, check_found, check_status, check, lacks_pass, write_seal, seal_checked,
  seal_live, seal_unsealed, seal_unfailed, seal_found, seal,
}
pub use Legacy.{actions_requiring_freeze, legacy_denied, snapshot_sealed}
unfoldable pub use Legacy.{
  requires_freeze, is_unverified, evaluate_legacy, snapshot_unfailed, snapshot_found,
  snapshot_legacy, snapshot_legacy_task, snapshot_legacy_plan,
}
