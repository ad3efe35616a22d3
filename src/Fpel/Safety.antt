-- ===== src/Fpel/Safety.antt =====
-- What every history of calls of the FPEL service keeps.
use mathlib.Core.Bool.{false≢true}
use fork_agent.Prelude.{
  ok-injective, ℕ, ◌≤◌, String, Bool, true, false, ◌||◌, some, List, [], ◌∷◌, ◌++◌, ◌≡◌, ◌≢◌, refl,
  sym, ap, ◌∙◌, Result, ok, err, integrity_error, arith, Preorder, if◌then◌else◌, count_where,
  count_where-append, count_where-none, count_where-update_le, Bool-cases, inl, inr, str_eq_iff,
}
use fork_agent.Fpel.Entity.{Hasher, FrozenProposal, is_active, SealedVerdict}
use fork_agent.Fpel.Repository.{
  Tables, FrozenRow, FailureRow, has_failed, save_frozen_proposal, save_sealed_verdict,
  save_fpel_status, mark_failed, save_frozen_with_sealed_verdict, is_active_for, supersede,
  breaks_proposal, breaks_verdict, get_checkers_for, distinct,
}
use fork_agent.Fpel.Service.{check_sealed, seal}
use fork_agent.Fpel.Gate.{IsAuthorized, allows, check_sealed-IsAuthorized}
use fork_agent.Fpel.Seal.{seal_needs_passes}
use fork_agent.Fpel.History.{Obeys, Call, run, run-follows}

-- The partial unique index holds.
abbrev pub IsSingle : List FrozenRow → Type 0
IsSingle rows = (target : String) → count_where (is_active_for target) rows ≤ 1

supersede_le :
    (target : String) (ids : List String) (rows : List FrozenRow)
    → count_where (is_active_for target) (supersede ids rows)
      ≤ count_where (is_active_for target) rows
unfolding supersede is_active_for is_active
supersede_le target ids rows = count_where-update_le _ _ _ (λ r h e. ground arith) rows

-- Where the INSERT of an active row is accepted, no other row of its target is active.
inserted_alone :
    (p : FrozenProposal) (now : ℕ) (target : String) (rows : List FrozenRow)
    → breaks_proposal p rows ≡ false
    → is_active_for target (record { proposal = p; created_at = now }) ≡ true
    → count_where (is_active_for target) rows ≡ 0
unfolding breaks_proposal is_active_for
inserted_alone p now target rows free same =
    let e = (str_eq_iff p.target_id target).0 (ground arith) in
    rw (← e) (count_where-none (is_active_for p.target_id) rows (ground arith))

inserted-IsSingle :
    (p : FrozenProposal) (now : ℕ) (ids : List String) (rows : List FrozenRow)
    → breaks_proposal p (supersede ids rows) ≡ false
    → IsSingle rows
    → IsSingle (supersede ids rows ++ record { proposal = p; created_at = now } ∷ [])
inserted-IsSingle p now ids rows free single target = ground (
  arith,
  supersede_le target ids rows,
  single target,
  inserted_alone p now target (supersede ids rows) free,
  count_where-append (is_active_for target) (supersede ids rows)
      (record { proposal = p; created_at = now } ∷ []),
)

abbrev single_order : Preorder Tables
single_order = record {
  rel = λ s t. IsSingle s.proposals → IsSingle t.proposals;
  rel_refl = λ s u. u;
  rel_trans = λ s t v f g u. g (f u);
}

IsSingle-frozen :
    (p : FrozenProposal) (ids : List String) (now : ℕ) (t : Tables)
    → IsSingle t.proposals
    → IsSingle (save_frozen_proposal p ids now t).1.proposals
unfolding save_frozen_proposal
IsSingle-frozen p ids now t single =
    elim (Bool-cases (breaks_proposal p (supersede ids t.proposals))) [
      | inl broken ↦ rw broken single
      | inr free ↦ rw free (inserted-IsSingle p now ids t.proposals free single)
    ]

IsSingle-snapshot :
    (p : FrozenProposal) (v : SealedVerdict) (ids : List String) (now : ℕ) (t : Tables)
    → IsSingle t.proposals
    → IsSingle (save_frozen_with_sealed_verdict p v ids now t).1.proposals
unfolding save_frozen_with_sealed_verdict
IsSingle-snapshot p v ids now t single = by_check _ refl
  where
    branch : Bool → Result (Unit {0}) × Tables
    branch b = if b then (err integrity_error, t) else (
      ok tt,
      record t {
        proposals = supersede ids t.proposals ++ record { proposal = p; created_at = now } ∷ [];
        verdicts = t.verdicts ++ v ∷ [];
      },
    )

    by_check :
        (b : Bool)
        → (breaks_proposal p (supersede ids t.proposals)
            || breaks_verdict v t.verdicts
                (supersede ids t.proposals ++ record { proposal = p; created_at = now } ∷ []))
          ≡ b
        → IsSingle (branch b).1.proposals
    by_check true e = single
    by_check false e = inserted-IsSingle p now ids t.proposals (ground (arith, e)) single

single-Obeys : Obeys single_order
unfolding save_sealed_verdict mark_failed save_fpel_status
single-Obeys = record {
  freezes = λ p ids now. record { at = IsSingle-frozen p ids now };
  seals = λ v. record { at = λ t u target. ground (arith, u target) };
  snapshots = λ p v ids now. record { at = IsSingle-snapshot p v ids now };
  fails = λ id reason. record { at = λ t u target. ground (arith, u target) };
  evaluates = λ target status. record { at = λ t u. u };
}

abbrev same_reports : Preorder Tables
same_reports = record {
  rel = λ s t. t.reports ≡ s.reports;
  rel_refl = λ s. refl;
  rel_trans = λ s t u a b. b ∙ a;
}

same_reports-Obeys : Obeys same_reports
unfolding save_frozen_proposal save_sealed_verdict save_frozen_with_sealed_verdict mark_failed
    save_fpel_status
same_reports-Obeys = record {
  freezes = λ p ids now. record { at = λ t. ground arith };
  seals = λ v. record { at = λ t. ground arith };
  snapshots = λ p v ids now. record { at = λ t. ground arith };
  fails = λ id reason. record { at = λ t. ground arith };
  evaluates = λ target status. record { at = λ t. refl };
}

-- Marks of failure stay.
abbrev keeps_failed : Preorder Tables
keeps_failed = record {
  rel = λ s t. (id : String) → has_failed id s.failures ≡ true → has_failed id t.failures ≡ true;
  rel_refl = λ s id h. h;
  rel_trans = λ s t u a b id h. b id (a id h);
}

has_failed-append :
    (id : String) (rows : List FailureRow) (r : FailureRow)
    → has_failed id rows ≡ true
    → has_failed id (rows ++ r ∷ []) ≡ true
unfolding has_failed
has_failed-append id [] r h = absurd (false≢true h)
has_failed-append id (s ∷ rows) r h = ground (arith, has_failed-append id rows r)

keeps_failed-Obeys : Obeys keeps_failed
unfolding save_frozen_proposal save_sealed_verdict save_frozen_with_sealed_verdict mark_failed
    save_fpel_status
keeps_failed-Obeys = record {
  freezes = λ p ids now. record { at = λ t id h. ground arith };
  seals = λ v. record { at = λ t id h. ground arith };
  snapshots = λ p v ids now. record { at = λ t id h. ground arith };
  fails = λ i reason. record {
    at = λ t id h. ground (
      arith,
      has_failed-append id t.failures (record { frozen_proposal_id = i; reason = reason }),
    );
  };
  evaluates = λ target status. record { at = λ t id h. h };
}

-- From tables where each target has at most one active proposal, after any calls of the service each
-- target still has at most one.
pub one_active_proposal :
    (h : Hasher) (cs : List Call) (t : Tables) (target : String)
    → IsSingle t.proposals
    → count_where (is_active_for target) (run h cs t).proposals ≤ 1
one_active_proposal h cs t target single =
    run-follows single_order single-Obeys h cs t single target

-- A proposal that is marked failed is never authorized again: whatever calls of the service follow,
-- where `check_sealed` then allows a hash, it is by the seal of another proposal.
pub failed_proposal_stays_closed :
    (h : Hasher) (cs : List Call) (t : Tables) (id target current : String)
    → has_failed id t.failures ≡ true
    → allows (check_sealed h target (some current) (run h cs t)).0 ≡ true
    → (a : IsAuthorized h target current (run h cs t)) × (a.proposal.frozen_proposal_id ≢ id)
failed_proposal_stays_closed h cs t id target current failed allowed =
    let a = check_sealed-IsAuthorized h target current (run h cs t) allowed in
    (
      a,
      λ e. false≢true (
          sym a.unfailed
          ∙ (ap (λ i. has_failed i (run h cs t).failures) e
              ∙ run-follows keeps_failed keeps_failed-Obeys h cs t id failed)),
    )

no_checkers :
    (target : String) (t : Tables) → t.reports ≡ [] → (get_checkers_for target t).0 ≡ ok []
unfolding get_checkers_for distinct
no_checkers target t h = rw h refl

seal_reads :
    (h : Hasher) (at : ℕ) (target : String) (t : Tables)
    → t.reports ≡ []
    → (seal h at target t).1 ≡ t
seal_reads h at target t none_reported = elim (seal_needs_passes h target at t) [
  | inl same ↦ same
  | inr s ↦ absurd (s.nonempty (ok-injective (sym s.checked ∙ no_checkers target t none_reported)))
]

-- No method of the service adds a checker report: from tables without reports, whatever calls of the
-- service were made, `seal` leaves the tables as they are, so it writes no verdict.
pub seal_without_reports :
    (h : Hasher) (cs : List Call) (t : Tables) (at : ℕ) (target : String)
    → t.reports ≡ []
    → (seal h at target (run h cs t)).1 ≡ run h cs t
seal_without_reports h cs t at target none_reported =
    seal_reads h at target (run h cs t)
      (run-follows same_reports same_reports-Obeys h cs t ∙ none_reported)
