-- ===== src/Fpel/Mismatch.antt =====
-- `seal` and the hash of the content.
use mathlib.Core.Option
use fork_agent.Prelude.{
  ℕ, String, Bool, true, false, Option, none, some, ◌≡◌, ◌≢◌, refl, Result, ok, err, pure, ◌>>=◌,
  proceed, arith, Yields, Yields-pure, Yields-bind, str_eq_self,
}
use fork_agent.Fpel.Entity.{
  Hasher, FrozenProposal, SealedVerdict, hash_mismatch, missing_reports, detect_scope_change,
  construct_proposal,
}
use fork_agent.Fpel.Repository.{
  Tables, FrozenRow, get_active_frozen_proposal, active_row, row_to_proposal, is_failed,
  get_sealed_verdict, get_current_content_hash, get_fpel_status,
}
use fork_agent.Fpel.Service.{
  SealResult, sealed_as, seal_refused, seal, seal_found, seal_unfailed, seal_unsealed, seal_live,
  seal_checked, write_seal, has_drifted,
}

abbrev Other : SealResult → Type 0
Other r = r ≢ seal_refused hash_mismatch

Other-missing : Other (seal_refused missing_reports)
Other-missing e = cc

Other-sealed : (v : SealedVerdict) → Other (sealed_as v)
Other-sealed v e = cc

write_seal-Yields : (f : FrozenProposal) (at : ℕ) (b : Bool) → Yields Other (write_seal f at b)
unfolding write_seal
write_seal-Yields f at true = Yields-pure _ Other-missing
write_seal-Yields f at false =
    Yields-bind _ _ (λ v. Yields-bind _ _ (λ _. Yields-pure _ (Other-sealed v)))

seal_checked-Yields :
    (target : String) (f : FrozenProposal) (at : ℕ) → Yields Other (seal_checked target f at false)
unfolding seal_checked
seal_checked-Yields target f at =
    Yields-bind _ _ (λ cs. Yields-bind _ _ (λ rs. write_seal-Yields f at _))

same_hash : (s : String) → has_drifted s (some s) ≡ false
unfolding has_drifted detect_scope_change
same_hash s = rw (str_eq_self s) refl

-- The active proposal and its hash are read from the same row.
current_is_frozen :
    (h : Hasher) (o : Option FrozenRow) (f : FrozenProposal)
    → row_to_proposal h o ≡ ok (some f)
    → Option.map (λ (r : FrozenRow). r.proposal.content_hash) o ≡ some f.content_hash
unfolding row_to_proposal construct_proposal
current_is_frozen h none f e = absurd (cc)
current_is_frozen h (some r) f e = ground arith

module _ (target : String) (f : FrozenProposal) (at : ℕ) (t : Tables)
    (current : Option.map (λ (r : FrozenRow). r.proposal.content_hash) (active_row target t)
      ≡ some f.content_hash) where
  live_other : (b : Bool) → (seal_live target f at b t).0 ≢ ok (seal_refused hash_mismatch)
  unfolding seal_live get_current_content_hash ◌>>=◌ pure
  live_other true = λ e. cc
  live_other false =
      rw current
        (rw (same_hash f.content_hash) (λ e. (seal_checked-Yields target f at).at t _ e refl))

  unsealed_other :
      (r : Result (Option SealedVerdict))
      → (proceed r (seal_unsealed target f at) t).0 ≢ ok (seal_refused hash_mismatch)
  unfolding seal_unsealed get_fpel_status ◌>>=◌ pure
  unsealed_other (err x) = λ e. cc
  unsealed_other (ok (some v)) = λ e. cc
  unsealed_other (ok none) = live_other _

  unfailed_other : (b : Bool) → (seal_unfailed target f at b t).0 ≢ ok (seal_refused hash_mismatch)
  unfolding seal_unfailed get_sealed_verdict ◌>>=◌ pure
  unfailed_other true = λ e. cc
  unfailed_other false = unsealed_other _

module _ (h : Hasher) (target : String) (at : ℕ) (t : Tables) where
  found_other :
      (r : Result (Option FrozenProposal))
      → row_to_proposal h (active_row target t) ≡ r
      → (proceed r (seal_found target at) t).0 ≢ ok (seal_refused hash_mismatch)
  unfolding seal_found is_failed get_current_content_hash ◌>>=◌ pure
  found_other (err x) found = λ e. cc
  found_other (ok none) found = λ e. cc
  found_other (ok (some f)) found = unfailed_other target f at t (current_is_frozen h _ f found) _

  -- `seal` never answers HASH_MISMATCH: the current hash that it compares with that of the active
  -- proposal is read from the row of that proposal.
  pub seal_never_mismatches : (seal h at target t).0 ≢ ok (seal_refused hash_mismatch)
  unfolding seal get_active_frozen_proposal ◌>>=◌
  seal_never_mismatches = found_other _ refl
