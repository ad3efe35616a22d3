-- ===== src/Fpel/Service/Freezing.antt =====
-- src/application/services/fpel_authorization_service.py: freeze and its variants.
use fork_agent.Prelude.{ℕ, String, Option, List, map, select, Exec, pure, ◌>>=◌, ◌>>◌}
use fork_agent.Fpel.Entity.{
  active, Hasher, PlanTask, compute_content_hash, FrozenProposal, construct_proposal, is_active,
}
use fork_agent.Fpel.Hash.{task_content}
use fork_agent.Fpel.Repository.{Tables, get_all_frozen_proposals, save_frozen_proposal}
use fork_agent.Fpel.Service.Gatekeeping.{lifted}

-- [fp.frozen_proposal_id for fp in existing if fp.is_active]
unfoldable pub supersede_ids : List FrozenProposal → List String
supersede_ids existing =
    map (λ (f : FrozenProposal). f.frozen_proposal_id) (select is_active existing)

abbrev pub new_proposal : Hasher → String → String → String → FrozenProposal
new_proposal h id target content = record {
  frozen_proposal_id = id;
  target_id = target;
  content_hash = compute_content_hash h content;
  content = content;
  lifecycle = active;
}

unfoldable pub freeze : Hasher → String → ℕ → String → String → Exec Tables FrozenProposal
freeze h id now target content = do
  existing ← get_all_frozen_proposals h target
  proposal ← lifted (construct_proposal h (new_proposal h id target content))
  save_frozen_proposal proposal (supersede_ids existing) now
  pure proposal

unfoldable pub freeze_task :
    Hasher
    → String
    → ℕ
    → String
    → Option String
    → String
    → Option String
    → Exec Tables FrozenProposal
freeze_task h id now target plan_text subject description =
    freeze h id now target (task_content plan_text subject description)

unfoldable pub freeze_plan :
    Hasher → String → ℕ → String → List PlanTask → Exec Tables FrozenProposal
freeze_plan h id now target tasks = freeze h id now target (h.dumps_tasks tasks)
