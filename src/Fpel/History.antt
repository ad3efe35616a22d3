-- ===== src/Fpel/History.antt =====
-- Sequences of calls of the FPEL service, each raising or not: what every such history keeps.
use fork_agent.Prelude.{
  ℕ, String, Bool, true, false, Option, none, some, List, [], ◌∷◌, Result, Preorder, Follows,
  follow_rules,
}
use fork_agent.Fpel.Entity.{Hasher, FrozenProposal, SealedVerdict}
use fork_agent.Fpel.Repository.{
  Tables, get_active_frozen_proposal, get_all_frozen_proposals, get_sealed_verdict,
  get_checkers_for, get_reports_for, get_current_content_hash, get_fpel_status, is_failed,
  save_frozen_proposal, save_sealed_verdict, save_fpel_status, mark_failed,
  save_frozen_with_sealed_verdict,
}
use fork_agent.Fpel.Service.{
  lifted, mark_fail, mark_found, freeze, seal, seal_found, seal_unfailed, seal_unsealed, seal_live,
  seal_checked, write_seal, evaluate_legacy, snapshot_legacy, snapshot_found, snapshot_unfailed,
  snapshot_sealed,
}

-- What the methods of the repository that write owe to a relation between tables.
pub record Obeys (R : Preorder Tables) : Type 0 where
  pub freezes :
      (p : FrozenProposal) (ids : List String) (now : ℕ)
      → Follows R (save_frozen_proposal p ids now)
  pub seals : (v : SealedVerdict) → Follows R (save_sealed_verdict v)
  pub snapshots :
      (p : FrozenProposal) (v : SealedVerdict) (ids : List String) (now : ℕ)
      → Follows R (save_frozen_with_sealed_verdict p v ids now)
  pub fails : (id : String) (reason : Option String) → Follows R (mark_failed id reason)
  pub evaluates : (target status : String) → Follows R (save_fpel_status target status)

module _ {R : Preorder Tables} where
  lifted-Follows : {A : Type 0} (r : Result A) → Follows R (lifted r)
  lifted-Follows r = record { at = R.rel_refl }

  get_active-Follows :
      (h : Hasher) (target : String) → Follows R (get_active_frozen_proposal h target)
  unfolding get_active_frozen_proposal
  get_active-Follows h target = record { at = R.rel_refl }

  get_all-Follows : (h : Hasher) (target : String) → Follows R (get_all_frozen_proposals h target)
  unfolding get_all_frozen_proposals
  get_all-Follows h target = record { at = R.rel_refl }

  get_sealed_verdict-Follows : (id : String) → Follows R (get_sealed_verdict id)
  unfolding get_sealed_verdict
  get_sealed_verdict-Follows id = record { at = R.rel_refl }

  get_checkers_for-Follows : (target : String) → Follows R (get_checkers_for target)
  unfolding get_checkers_for
  get_checkers_for-Follows target = record { at = R.rel_refl }

  get_reports_for-Follows : (id : String) → Follows R (get_reports_for id)
  unfolding get_reports_for
  get_reports_for-Follows id = record { at = R.rel_refl }

  get_current_content_hash-Follows : (target : String) → Follows R (get_current_content_hash target)
  unfolding get_current_content_hash
  get_current_content_hash-Follows target = record { at = R.rel_refl }

  get_fpel_status-Follows : (target : String) → Follows R (get_fpel_status target)
  unfolding get_fpel_status
  get_fpel_status-Follows target = record { at = R.rel_refl }

  is_failed-Follows : (id : String) → Follows R (is_failed id)
  unfolding is_failed
  is_failed-Follows id = record { at = R.rel_refl }

ruleset read_rules = (
  follow_rules, lifted-Follows, get_active-Follows, get_all-Follows, get_sealed_verdict-Follows,
  get_checkers_for-Follows, get_reports_for-Follows, get_current_content_hash-Follows,
  get_fpel_status-Follows, is_failed-Follows,
)

module _ (R : Preorder Tables) (laws : Obeys R) where
  open laws use {freezes, seals, snapshots, fails, evaluates}

  mark_found-Follows :
      (reason : Option String) (o : Option FrozenProposal) → Follows R (mark_found reason o)
  mark_found-Follows reason none = search read_rules
  mark_found-Follows reason (some f) = search (read_rules, fails)

  mark_fail-Follows :
      (h : Hasher) (target : String) (reason : Option String)
      → Follows R (mark_fail h target reason)
  unfolding mark_fail
  mark_fail-Follows h target reason = search (read_rules, mark_found-Follows)

  freeze-Follows :
      (h : Hasher) (id : String) (now : ℕ) (target content : String)
      → Follows R (freeze h id now target content)
  unfolding freeze
  freeze-Follows h id now target content = search (read_rules, freezes)

  write_seal-Follows : (f : FrozenProposal) (at : ℕ) (b : Bool) → Follows R (write_seal f at b)
  unfolding write_seal
  write_seal-Follows f at true = search read_rules
  write_seal-Follows f at false = search (read_rules, seals)

  seal_checked-Follows :
      (target : String) (f : FrozenProposal) (at : ℕ) (b : Bool)
      → Follows R (seal_checked target f at b)
  unfolding seal_checked
  seal_checked-Follows target f at true = search read_rules
  seal_checked-Follows target f at false = search (read_rules, write_seal-Follows)

  seal_live-Follows :
      (target : String) (f : FrozenProposal) (at : ℕ) (b : Bool)
      → Follows R (seal_live target f at b)
  unfolding seal_live
  seal_live-Follows target f at true = search read_rules
  seal_live-Follows target f at false = search (read_rules, seal_checked-Follows)

  seal_unsealed-Follows :
      (target : String) (f : FrozenProposal) (at : ℕ) (o : Option SealedVerdict)
      → Follows R (seal_unsealed target f at o)
  unfolding seal_unsealed
  seal_unsealed-Follows target f at none = search (read_rules, seal_live-Follows)
  seal_unsealed-Follows target f at (some v) = search read_rules

  seal_unfailed-Follows :
      (target : String) (f : FrozenProposal) (at : ℕ) (b : Bool)
      → Follows R (seal_unfailed target f at b)
  unfolding seal_unfailed
  seal_unfailed-Follows target f at true = search read_rules
  seal_unfailed-Follows target f at false = search (read_rules, seal_unsealed-Follows)

  seal_found-Follows :
      (target : String) (at : ℕ) (o : Option FrozenProposal) → Follows R (seal_found target at o)
  unfolding seal_found
  seal_found-Follows target at none = search read_rules
  seal_found-Follows target at (some f) = search (read_rules, seal_unfailed-Follows)

  seal-Follows : (h : Hasher) (at : ℕ) (target : String) → Follows R (seal h at target)
  unfolding seal
  seal-Follows h at target = search (read_rules, seal_found-Follows)

  evaluate_legacy-Follows :
      (target : String) (approved current : Option String) (is_running : Bool)
      (action : Option String)
      → Follows R (evaluate_legacy target approved current is_running action)
  unfolding evaluate_legacy
  evaluate_legacy-Follows target approved current is_running action = search (read_rules, evaluates)

  snapshot_sealed-Follows :
      (f : FrozenProposal) (o : Option SealedVerdict) → Follows R (snapshot_sealed f o)
  snapshot_sealed-Follows f none = search read_rules
  snapshot_sealed-Follows f (some v) = search read_rules

  snapshot_unfailed-Follows : (f : FrozenProposal) (b : Bool) → Follows R (snapshot_unfailed f b)
  unfolding snapshot_unfailed
  snapshot_unfailed-Follows f true = search read_rules
  snapshot_unfailed-Follows f false = search (read_rules, snapshot_sealed-Follows)

  snapshot_found-Follows :
      (h : Hasher) (id : String) (now at : ℕ) (target content : String) (o : Option FrozenProposal)
      → Follows R (snapshot_found h id now at target content o)
  unfolding snapshot_found
  snapshot_found-Follows h id now at target content (some f) =
      search (read_rules, snapshot_unfailed-Follows)
  snapshot_found-Follows h id now at target content none = search (read_rules, snapshots)

  snapshot_legacy-Follows :
      (h : Hasher) (id : String) (now at : ℕ) (target content : String)
      → Follows R (snapshot_legacy h id now at target content)
  unfolding snapshot_legacy
  snapshot_legacy-Follows h id now at target content = search (read_rules, snapshot_found-Follows)

-- The calls of the service that write. The variants for tasks and plans are calls with their
-- content.
pub data Call : Type 0 where
  failing : String → Option String → Call
  freezing : String → ℕ → String → String → Call
  sealing : ℕ → String → Call
  evaluating : String → Option String → Option String → Bool → Option String → Call
  snapshotting : String → ℕ → ℕ → String → String → Call

-- The tables after one call, whatever the call returns or raises.
unfoldable pub perform : Hasher → Call → Tables → Tables
perform h (failing target reason) t = (mark_fail h target reason t).1
perform h (freezing id now target content) t = (freeze h id now target content t).1
perform h (sealing at target) t = (seal h at target t).1
perform h (evaluating target approved current is_running action) t =
    (evaluate_legacy target approved current is_running action t).1
perform h (snapshotting id now at target content) t =
    (snapshot_legacy h id now at target content t).1

unfoldable pub run : Hasher → List Call → Tables → Tables
run h [] t = t
run h (c ∷ cs) t = run h cs (perform h c t)

module _ (R : Preorder Tables) (laws : Obeys R) (h : Hasher) where
  perform-follows : (c : Call) (t : Tables) → R.rel t (perform h c t)
  unfolding perform
  perform-follows (failing target reason) = (mark_fail-Follows R laws h target reason).at
  perform-follows (freezing id now target content) =
      (freeze-Follows R laws h id now target content).at
  perform-follows (sealing at target) = (seal-Follows R laws h at target).at
  perform-follows (evaluating target approved current is_running action) =
      (evaluate_legacy-Follows R laws target approved current is_running action).at
  perform-follows (snapshotting id now at target content) =
      (snapshot_legacy-Follows R laws h id now at target content).at

  pub run-follows : (cs : List Call) (t : Tables) → R.rel t (run h cs t)
  unfolding run
  run-follows [] t = R.rel_refl t
  run-follows (c ∷ cs) t =
      R.rel_trans t (perform h c t) _ (perform-follows c t) (run-follows cs (perform h c t))
