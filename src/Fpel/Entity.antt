-- ===== src/Fpel/Entity.antt =====
-- src/domain/entities/fpel.py: the enums and records of FPEL with the checks of `__post_init__`,
-- and the canonical hash of a content. The JSON parser and SHA-256 are arguments.
use fork_agent.Prelude.{
  ℕ, String, Bool, true, false, not, ◌&&◌, ◌||◌, Option, none, some, List, if◌then◌else◌, is_empty,
  str_eq, Result, ok, err, value_error,
}

pub data SealFailureReason : Type 0 where
  hash_mismatch missing_reports terminal_fail_reason post_freeze_change no_frozen_proposal :
      SealFailureReason

pub data FpelStatus : Type 0 where
  not_frozen frozen check_passed check_failed needs_human_decision sealed_pass terminal_fail
        not_evaluated :
      FpelStatus

pub data FrozenProposalLifecycle : Type 0 where
  active superseded : FrozenProposalLifecycle

-- A task of a plan: the dict with these keys.
pub record PlanTask : Type 0 where
  pub id : String
  pub slug : String
  pub description : String

-- The functions of Python's libraries that hashing uses: `json.loads` followed by `json.dumps` with
-- sorted keys and compact separators, where the text is JSON, and the hex digest of SHA-256;
-- and `json.dumps` with sorted keys of one task of a plan and of a list of them.
pub record Hasher : Type 0 where
  pub reserialize : String → Option String
  pub sha256_hex : String → String
  pub dumps_task : PlanTask → String
  pub dumps_tasks : List PlanTask → String

-- _canonicalize
unfoldable pub canonicalize : Hasher → String → String
canonicalize h content = elim (h.reserialize content) [
  | some canonical ↦ canonical
  | none ↦ content
]

unfoldable pub compute_content_hash : Hasher → String → String
compute_content_hash h content = h.sha256_hex (canonicalize h content)

unfoldable pub detect_scope_change : String → String → Bool
detect_scope_change frozen_hash current_hash = not (str_eq frozen_hash current_hash)

pub record FrozenProposal : Type 0 where
  pub frozen_proposal_id : String
  pub target_id : String
  pub content_hash : String
  pub content : String
  pub lifecycle : FrozenProposalLifecycle

-- __post_init__ of FrozenProposal passes.
unfoldable pub proposal_passes : Hasher → FrozenProposal → Bool
proposal_passes h p =
    not (is_empty p.frozen_proposal_id)
    && not (is_empty p.target_id)
    && not (is_empty p.content_hash)
    && str_eq p.content_hash (compute_content_hash h p.content)

unfoldable pub construct_proposal : Hasher → FrozenProposal → Result FrozenProposal
construct_proposal h p = if proposal_passes h p then ok p else err value_error

unfoldable pub is_active : FrozenProposal → Bool
is_active p = elim p.lifecycle [ active ↦ true | superseded ↦ false ]

pub record SealedVerdict : Type 0 where
  pub frozen_proposal_id : String
  pub verdict : String
  pub sealed_at : ℕ
  pub content_hash : String
  pub source : Option String

-- _VALID_SOURCES
unfoldable pub is_valid_source : Option String → Bool
is_valid_source none = true
is_valid_source (some s) =
    str_eq s "LEGACY_APPROVED" || str_eq s "MANUAL_OVERRIDE" || str_eq s "AUTO_SEAL"

-- __post_init__ of SealedVerdict passes.
unfoldable pub verdict_passes : SealedVerdict → Bool
verdict_passes v =
    not (is_empty v.frozen_proposal_id)
    && str_eq v.verdict "SEALED_PASS"
    && not (is_empty v.content_hash)
    && is_valid_source v.source

unfoldable pub construct_verdict : SealedVerdict → Result SealedVerdict
construct_verdict v = if verdict_passes v then ok v else err value_error

pub record AuthorizationDecision : Type 0 where
  pub allowed : Bool
  pub status : FpelStatus
  pub frozen_proposal_id : Option String
  pub content_hash : Option String
  pub reason : Option SealFailureReason
  pub seal_id : Option String
  pub sealed_at : Option ℕ
