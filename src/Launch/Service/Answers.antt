-- ===== src/Launch/Service/Answers.antt =====
-- What `request_launch` answers: over any registry, and over the SQLite registry branch by branch.
use fork_agent.Prelude.{
  ℕ, String, true, false, Option, none, some, [], ◌∷◌, ◌++◌, ◌≡◌, ◌≢◌, refl, Yields, Yields-pure,
  Yields-bind, Yields-if, Result, ok, err, pure, ◌>>=◌, arith, is_empty, find_key, find_key-append,
  latest, select, any, str_eq_self, inl, inr, ◌⊎◌,
}
use fork_agent.Launch.Entity.{
  quarantined, AgentLaunch, lease_is_valid, construct, post_init_passes, is_in, key_nonempty,
}
use fork_agent.Launch.Registry.{
  Table, Claim, LaunchRegistry, launch_key, holds_key, claimed_row, breaks_unique, breaks_parent,
  row_to_launch, blocks_key, get_by_launch_id, claim, find_active_by_canonical_key, sqlite,
}
use fork_agent.Launch.Registry.Unique.{has_id}
use fork_agent.Launch.Service.{
  LaunchAttempt, AttemptReason, claimed, concurrent_claim, Request, Fresh, claim_of, LineageError,
  claimed_attempt, suppressed_attempt, error_attempt, registry_error, bad_parent, active_launch,
  fail_closed, check_parent, answer_claim, claim_on, claim_slot, quarantine_expired, after_look,
  try_launch, request_launch,
}

-- A launch is handed out exactly with the decision "claimed".
abbrev pub IsSound : LaunchAttempt → Type 0
IsSound a =
    ((a.decision ≡ claimed) × ((l : AgentLaunch) × (a.launch ≡ some l)))
    ⊎ ((a.decision ≢ claimed) × (a.launch ≡ none))

suppressed-IsSound :
    (existing : Option AgentLaunch) (reason : AttemptReason)
    → IsSound (suppressed_attempt existing reason)
suppressed-IsSound existing reason = inr ((λ e. cc), refl)

error-IsSound : (reason : AttemptReason) → IsSound (error_attempt reason)
error-IsSound reason = inr ((λ e. cc), refl)

module _ {S : Type 0} (registry : LaunchRegistry S) where
  answer_claim-Yields :
      (key : String) (r : Option AgentLaunch) → Yields IsSound (answer_claim registry key r)
  unfolding answer_claim
  answer_claim-Yields key (some l) = Yields-pure _ (inl (refl, (l, refl)))
  answer_claim-Yields key none =
      Yields-bind _ _ (λ w. Yields-pure _ (suppressed-IsSound w concurrent_claim))

  claim_on-Yields :
      (d : ℕ) (q : Request) (f : Fresh) (refused : Option LineageError)
      → Yields IsSound (claim_on registry d q f refused)
  claim_on-Yields d q f (some e) = Yields-pure _ (error-IsSound (bad_parent e))
  claim_on-Yields d q f none = Yields-bind _ _ (answer_claim-Yields q.canonical_key)

  after_look-Yields :
      (d : ℕ) (q : Request) (f : Fresh) (existing : Option AgentLaunch)
      → Yields IsSound (after_look registry d q f existing)
  unfolding after_look claim_slot
  after_look-Yields d q f none = Yields-bind _ _ (claim_on-Yields d q f)
  after_look-Yields d q f (some l) =
      Yields-if _ _ _
        (Yields-pure _ (suppressed-IsSound (some l) (active_launch l.launch_id l.status)))
        (Yields-bind _ _ (λ _. Yields-bind _ _ (claim_on-Yields d q f)))

  fail_closed-IsSound :
      (r : Result LaunchAttempt)
      → ((a : LaunchAttempt) → r ≡ ok a → IsSound a)
      → IsSound (fail_closed r)
  unfolding fail_closed
  fail_closed-IsSound (ok a) h = h a refl
  fail_closed-IsSound (err e) h = error-IsSound (registry_error e)

  -- Over any registry, whatever it raises, `request_launch` returns an attempt, and the attempt
  -- carries a launch exactly if its decision is "claimed".
  pub request_launch_total :
      (d : ℕ) (q : Request) (f : Fresh) (s : S)
      → (a : LaunchAttempt) × ((request_launch registry d q f s).0 ≡ ok a) × IsSound a
  unfolding request_launch try_launch
  request_launch_total d q f s = (
    fail_closed (try_launch registry d q f s).0,
    refl,
    fail_closed-IsSound _ ((Yields-bind _ _ (after_look-Yields d q f)).at s),
  )

latest-none : (time : AgentLaunch → ℕ) (rows : Table) → latest time rows ≡ none → rows ≡ []
unfolding latest
latest-none time [] h = refl
latest-none time (r ∷ rows) h = absurd (ground arith)

-- A key that no launch blocks is not in the partial index.
pub unblocked_unindexed :
    (key : String) (rows : Table)
    → select (blocks_key key) rows ≡ []
    → any (holds_key key) rows ≡ false
unfolding blocks_key holds_key
unblocked_unindexed key [] h = refl
unblocked_unindexed key (r ∷ rows) h = ground (arith, unblocked_unindexed key rows)

row_to_launch-none : (o : Option AgentLaunch) → row_to_launch o ≡ ok none → o ≡ none
unfolding row_to_launch construct
row_to_launch-none none h = refl
row_to_launch-none (some r) h = absurd (ground arith)

find_active_none :
    (key : String) (rows : Table)
    → (find_active_by_canonical_key key rows).0 ≡ ok none
    → any (holds_key key) rows ≡ false
unfolding find_active_by_canonical_key
find_active_none key rows h =
    unblocked_unindexed key rows (latest-none _ _ (row_to_launch-none _ h))

pub find_absent :
    (id : String) (rows : Table) → any (has_id id) rows ≡ false → find_key launch_key id rows ≡ none
unfolding find_key
find_absent id [] h = refl
find_absent id (r ∷ rows) h = ground (arith, find_absent id rows)

claimed_row-id : (c : Claim) (now : ℕ) → (claimed_row c now).launch_id ≡ c.launch_id
unfolding claimed_row
claimed_row-id c now = refl

-- The constructor's checks include the table's CHECK constraint.
valid_key :
    (c : Claim) (now : ℕ)
    → post_init_passes (claimed_row c now) ≡ true
    → is_empty c.canonical_key ≡ false
unfolding claimed_row
valid_key c now h = key_nonempty (claimed_row c now) h

module _ (c : Claim) (now : ℕ) (rows : Table) (free : any (holds_key c.canonical_key) rows ≡ false)
    (new : any (has_id c.launch_id) rows ≡ false) where
  find_new :
      find_key launch_key c.launch_id (rows ++ claimed_row c now ∷ []) ≡ some (claimed_row c now)
  find_new = ground (
    arith,
    find_key-append launch_key c.launch_id rows (claimed_row c now),
    find_absent _ rows new,
    claimed_row-id c now,
    str_eq_self c.launch_id,
  )

  claim_inserts :
      c.parent_launch_id ≡ none
      → post_init_passes (claimed_row c now) ≡ true
      → claim c now rows ≡ (ok (some (claimed_row c now)), rows ++ claimed_row c now ∷ [])
  unfolding claim get_by_launch_id breaks_unique breaks_parent row_to_launch construct
  claim_inserts orphan valid = ground (arith, find_new, valid_key c now valid)

check_orphan :
    (parent : Option String) (id : String) (rows : Table)
    → parent ≡ none
    → check_parent sqlite parent id rows ≡ (ok none, rows)
unfolding check_parent pure
check_orphan none id rows h = refl
check_orphan (some p) id rows h = absurd (cc)

pub claim_slot_claims :
    (d : ℕ) (q : Request) (f : Fresh) (rows : Table)
    → any (holds_key q.canonical_key) rows ≡ false
    → any (has_id f.launch_id) rows ≡ false
    → q.parent_launch_id ≡ none
    → post_init_passes (claimed_row (claim_of d q f) f.stamped_at) ≡ true
    → claim_slot sqlite d q f rows ≡ (
      ok (claimed_attempt (claimed_row (claim_of d q f) f.stamped_at)),
      rows ++ claimed_row (claim_of d q f) f.stamped_at ∷ [],
    )
unfolding claim_slot answer_claim claim_of ◌>>=◌
claim_slot_claims d q f rows free new orphan valid =
    rw (check_orphan q.parent_launch_id f.launch_id rows orphan)
      (rw (claim_inserts (claim_of d q f) f.stamped_at rows free new orphan valid))

module _ (d : ℕ) (q : Request) (f : Fresh) (rows : Table) where
  -- Where the launch that blocks the key is QUARANTINED and its lease has run out, the quarantine
  -- does not stop a new launch: with a new id, no parent and a valid record the slot is claimed, if
  -- no launch of the key is in flight.
  pub quarantined_lapsed_relaunches :
      (l : AgentLaunch)
      → (find_active_by_canonical_key q.canonical_key rows).0 ≡ ok (some l)
      → l.status ≡ quarantined
      → lease_is_valid l f.tested_at ≡ false
      → any (holds_key q.canonical_key) rows ≡ false
      → any (has_id f.launch_id) rows ≡ false
      → q.parent_launch_id ≡ none
      → post_init_passes (claimed_row (claim_of d q f) f.stamped_at) ≡ true
      → request_launch sqlite d q f rows ≡ (
        ok (claimed_attempt (claimed_row (claim_of d q f) f.stamped_at)),
        rows ++ claimed_row (claim_of d q f) f.stamped_at ∷ [],
      )
  unfolding request_launch try_launch after_look fail_closed find_active_by_canonical_key
      quarantine_expired is_in claimed_row ◌>>=◌
  quarantined_lapsed_relaunches l found status lapsed free new orphan valid =
      rw found (rw lapsed (rw status (rw (claim_slot_claims d q f rows free new orphan valid))))
