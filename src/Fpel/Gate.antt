-- ===== src/Fpel/Gate.antt =====
-- What `check_sealed` allows, and what it means for the start of a task.
use fork_agent.Prelude.{
  ℕ, String, Bool, true, false, Option, none, some, ◌≡◌, refl, ap, Result, ok, err, pure, ◌>>=◌,
  proceed, arith, str_eq_iff, Bool-cases, inl, inr,
}
use mathlib.Core.Bool.{false≢true}
use fork_agent.Task.Entity.{OrchestrationTask, approved, in_progress, is_blocked}
use fork_agent.Task.Repository.{Table}
use fork_agent.Task.Board.{Gate, start}
use fork_agent.Task.Board.Outcome.{Outcome, refused, stored}
use fork_agent.Task.Board.Moves.{Starts, start_is_gated}
use fork_agent.Fpel.Hash.{compute_task_hash}
use fork_agent.Fpel.Entity.{
  Hasher, FrozenProposal, SealedVerdict, AuthorizationDecision, detect_scope_change,
}
use fork_agent.Fpel.Repository.{
  Tables, get_active_frozen_proposal, get_sealed_verdict, has_failed, is_failed,
  get_candidate_verdict,
}
use fork_agent.Fpel.Service.{
  check_sealed, judge_frozen, judge_failed, judge_verdict, effective_hash, has_drifted,
}

-- The target has an active proposal that is not marked failed and is sealed, and the seal is for
-- the given hash.
pub record IsAuthorized (h : Hasher) (target current : String) (t : Tables) : Type 0 where
  pub proposal : FrozenProposal
  pub verdict : SealedVerdict
  pub found : (get_active_frozen_proposal h target t).0 ≡ ok (some proposal)
  pub unfailed : has_failed proposal.frozen_proposal_id t.failures ≡ false
  pub sealed : (get_sealed_verdict proposal.frozen_proposal_id t).0 ≡ ok (some verdict)
  pub matches : verdict.content_hash ≡ current

undrifted : (s t : String) → has_drifted s (some t) ≡ false → s ≡ t
unfolding has_drifted detect_scope_change
undrifted s t h = (str_eq_iff s t).0 (ground arith)

-- The answer allows the action.
abbrev pub allows : Result AuthorizationDecision → Bool
allows (ok d) = d.allowed
allows (err e) = false

module _ (target current : String) (f : FrozenProposal) (t : Tables) where
  verdict_allows :
      (o : Option SealedVerdict)
      → allows (judge_verdict target (some current) f o t).0 ≡ true
      → (v : SealedVerdict) × (o ≡ some v) × (v.content_hash ≡ current)
  unfolding judge_verdict get_candidate_verdict effective_hash ◌>>=◌ pure
  verdict_allows none h = absurd (false≢true h)
  verdict_allows (some v) h = elim (Bool-cases (has_drifted v.content_hash (some current))) [
    | inl drifted ↦ absurd (false≢true (rw drifted at h))
    | inr same ↦ (v, refl, undrifted v.content_hash current same)
  ]

  read_allows :
      (r : Result (Option SealedVerdict))
      → allows (proceed r (judge_verdict target (some current) f) t).0 ≡ true
      → (v : SealedVerdict) × (r ≡ ok (some v)) × (v.content_hash ≡ current)
  read_allows (err e) h = absurd (false≢true h)
  read_allows (ok o) h = let (v, e, same) = verdict_allows o h in (v, ap ok e, same)

  failed_allows :
      (b : Bool)
      → allows (judge_failed target (some current) f b t).0 ≡ true
      → (b ≡ false)
        × ((v : SealedVerdict) × ((get_sealed_verdict f.frozen_proposal_id t).0 ≡ ok (some v))
            × (v.content_hash ≡ current))
  unfolding judge_failed get_sealed_verdict ◌>>=◌ pure
  failed_allows true h = absurd (false≢true h)
  failed_allows false h = (refl, read_allows _ h)

module _ (h : Hasher) (target current : String) (t : Tables) where
  frozen_allows :
      (r : Result (Option FrozenProposal))
      → (get_active_frozen_proposal h target t).0 ≡ r
      → allows (proceed r (judge_frozen target (some current)) t).0 ≡ true
      → IsAuthorized h target current t
  unfolding judge_frozen is_failed ◌>>=◌ pure
  frozen_allows (err e) found a = absurd (false≢true a)
  frozen_allows (ok none) found a = absurd (false≢true a)
  frozen_allows (ok (some f)) found a =
      let (unfailed, seal) =
        failed_allows target current f t (has_failed f.frozen_proposal_id t.failures) a in
      let (v, sealed, same) = seal in
      record {
        proposal = f;
        verdict = v;
        found = found;
        unfailed = unfailed;
        sealed = sealed;
        matches = same;
      }

  -- `check_sealed` with the hash of the current content allows the action only if the target has an
  -- active proposal that is not marked failed, whose sealed verdict is for exactly that hash.
  pub check_sealed-IsAuthorized :
      allows (check_sealed h target (some current) t).0 ≡ true → IsAuthorized h target current t
  unfolding check_sealed get_active_frozen_proposal ◌>>=◌
  check_sealed-IsAuthorized a = frozen_allows _ refl a

-- The port that the board asks, over the tables of FPEL.
abbrev pub allowed_of : Result AuthorizationDecision → Result Bool
allowed_of (ok d) = ok d.allowed
allowed_of (err e) = err e

unfoldable pub sealed_gate : Hasher → Tables → Gate
sealed_gate h t = record {
  check_sealed = λ target current. allowed_of (check_sealed h target (some current) t).0;
  hasher = h;
}

allowed_allows : (r : Result AuthorizationDecision) → allowed_of r ≡ ok true → allows r ≡ true
allowed_allows (ok d) e = ground arith
allowed_allows (err x) e = absurd (cc)

-- The change of a start under FPEL: the task had no blockers, was APPROVED, and FPEL authorized it
-- under the hash of its content.
pub record StartsSealed (h : Hasher) (t : Tables) (old new : OrchestrationTask) : Type 0 where
  pub unblocked : is_blocked old ≡ false
  pub authorized : IsAuthorized h old.id (compute_task_hash h old) t
  pub ready : old.status ≡ approved
  pub started : new.status ≡ in_progress

Outcome-weaken :
    {C D : OrchestrationTask → OrchestrationTask → Type 0} {id : String} {rows : Table}
    {m : Result OrchestrationTask × Table}
    → ((old new : OrchestrationTask) → C old new → D old new)
    → Outcome C id rows m
    → Outcome D id rows m
Outcome-weaken f (Outcome.refused e h) = refused e h
Outcome-weaken f (Outcome.stored old new found same fine change h) =
    stored old new found same fine (f old new change) h

Starts-StartsSealed :
    (h : Hasher) (t : Tables) (owner : String) (requested_by : Option String) (now : ℕ)
    (old new : OrchestrationTask)
    → Starts (some (sealed_gate h t)) owner requested_by now old new
    → StartsSealed h t old new
unfolding sealed_gate
Starts-StartsSealed h t owner requested_by now old new s = record {
  unblocked = s.unblocked;
  authorized =
      check_sealed-IsAuthorized h old.id (compute_task_hash h old) t (allowed_allows _ s.admitted);
  ready = s.ready;
  started = ap (λ (x : OrchestrationTask). x.status) s.moves.result;
}

-- With FPEL as the board's gate, a start either refuses and leaves the board as it was, or it stores
-- the task as IN_PROGRESS, and then the task had no blockers, was APPROVED, and
-- has an active proposal that is not marked failed and is sealed for exactly the hash of the
-- content that the board holds.
pub start_is_sealed :
    (h : Hasher) (t : Tables) (id owner : String) (requested_by : Option String) (now : ℕ)
    (rows : Table)
    → Outcome
        (StartsSealed h t)
        id
        rows
        (start (some (sealed_gate h t)) id owner requested_by now rows)
start_is_sealed h t id owner requested_by now rows =
    Outcome-weaken (Starts-StartsSealed h t owner requested_by now)
      (start_is_gated (some (sealed_gate h t)) id owner requested_by now rows)
