-- ===== src/Launch/Service/Again.antt =====
-- What the next request of a key finds in the SQLite registry.
use fork_agent.Prelude.{
  ℕ, ◌+◌, true, false, none, some, [], ◌∷◌, ◌++◌, ◌≡◌, ◌≢◌, refl, sym, ap, subst, ◌∙◌, Result, ok,
  ◌>>=◌, any, str_eq_self, str_eq_apart, ltb, if◌then◌else◌, Bool-cases, inl, inr,
}
use fork_agent.Launch.Entity.{
  reserved, quarantined, AgentLaunch, lease_expired_at, lease_is_valid, post_init_passes, is_in,
  status_eq,
}
use fork_agent.Launch.Registry.{
  Table, holds_key, claimed_row, blocks_key, find_active_by_canonical_key, is_indexed, sqlite,
}
use fork_agent.Launch.Registry.Unique.{has_id}
use fork_agent.Launch.Service.{
  LaunchAttempt, claimed, suppressed, active_launch, Request, Fresh, claim_of, effective_role,
  fail_closed, claim_slot, quarantine_expired, after_look, try_launch, request_launch,
}
use fork_agent.Launch.Service.Answers.{claim_slot_claims, unblocked_unindexed}
use fork_agent.Launch.Service.Last.{select-none, any-append, find_active_last, quarantine_last}
use fork_agent.Launch.Service.Reserve.{reservation, request_launch_reserves}

-- The service's lease duration, a first request, and a table that has no launch which blocks its
-- key, nor one with its id.
module _ (duration : ℕ) (q : Request) (f : Fresh) (rows : Table)
    (free : any (blocks_key q.canonical_key) rows ≡ false)
    (new : any (has_id f.launch_id) rows ≡ false) (orphan : q.parent_launch_id ≡ none)
    (valid : post_init_passes (reservation duration q f) ≡ true) where
  -- The launch, QUARANTINED because its lease has run out.
  abbrev pub lapsed : AgentLaunch
  lapsed = record (reservation duration q f) {
    status = quarantined;
    quarantine_reason = some (lease_expired_at (some (f.leased_at + duration)));
  }

  module _ (q' : Request) (f' : Fresh) (same : q'.canonical_key ≡ q.canonical_key)
      (new' : any (has_id f'.launch_id) rows ≡ false) (apart : f.launch_id ≢ f'.launch_id)
      (orphan' : q'.parent_launch_id ≡ none)
      (valid' : post_init_passes (reservation duration q' f') ≡ true) where
    found_again :
        find_active_by_canonical_key q'.canonical_key (rows ++ reservation duration q f ∷ [])
        ≡ (ok (some (reservation duration q f)), rows ++ reservation duration q f ∷ [])
    found_again =
        subst
          (λ key.
            find_active_by_canonical_key key (rows ++ reservation duration q f ∷ [])
            ≡ (ok (some (reservation duration q f)), rows ++ reservation duration q f ∷ []))
          (sym same) (find_active_last (reservation duration q f) rows free new valid refl)

    claimed_again : claim_slot sqlite duration q' f' (rows ++ lapsed ∷ []) ≡ (
      ok (record {
        launch = some (reservation duration q' f');
        decision = claimed;
        existing_launch = none;
        reason = none;
      }),
      (rows ++ lapsed ∷ []) ++ reservation duration q' f' ∷ [],
    )
    unfolding claimed_row claim_of effective_role holds_key is_indexed is_in status_eq
    claimed_again =
        claim_slot_claims duration q' f' (rows ++ lapsed ∷ []) unindexed unnamed orphan' valid'
      where
        unindexed : any (holds_key q'.canonical_key) (rows ++ lapsed ∷ []) ≡ false
        unindexed =
            subst (λ key. any (holds_key key) (rows ++ lapsed ∷ []) ≡ false) (sym same)
              (any-append (holds_key q.canonical_key) rows lapsed (
                  unblocked_unindexed q.canonical_key rows
                    (select-none (blocks_key q.canonical_key) rows free))
                ∙ rw (str_eq_self q.canonical_key) refl)

        unnamed : any (has_id f'.launch_id) (rows ++ lapsed ∷ []) ≡ false
        unnamed =
            any-append (has_id f'.launch_id) rows lapsed new'
            ∙ str_eq_apart f.launch_id f'.launch_id apart

    -- While the first lease runs the answer is "suppressed" with the first launch; then the first
    -- launch is QUARANTINED and the second one is claimed.
    abbrev pub next_answer : Result LaunchAttempt × Table
    next_answer =
        if ltb f'.tested_at (f.leased_at + duration)
        then (
          ok (record {
            launch = none;
            decision = suppressed;
            existing_launch = some (reservation duration q f);
            reason = some (active_launch f.launch_id reserved);
          }),
          rows ++ reservation duration q f ∷ [],
        )
        else (
          ok (record {
            launch = some (reservation duration q' f');
            decision = claimed;
            existing_launch = none;
            reason = none;
          }),
          (rows ++ lapsed ∷ []) ++ reservation duration q' f' ∷ [],
        )

    next_from_table :
        request_launch sqlite duration q' f' (rows ++ reservation duration q f ∷ []) ≡ next_answer
    unfolding request_launch try_launch after_look fail_closed lease_is_valid quarantine_expired
        is_in status_eq ◌>>=◌
    next_from_table =
        rw found_again (elim (Bool-cases (ltb f'.tested_at (f.leased_at + duration))) [
          | inl held ↦ rw held refl
          | inr past ↦ rw past (
              rw
                (quarantine_last (reservation duration q f) rows free new valid refl
                  (lease_expired_at (some (f.leased_at + duration))) f'.tested_at)
                (rw claimed_again refl))
        ])

    -- A request for a key that no launch blocks, with a new id, no parent and a launch that passes
    -- the checks, and then one for the same key, with another new id, no parent and a launch that
    -- passes the checks: read before the first lease ends, the second request is "suppressed" with the
    -- first launch, with its id and status as the reason, and the registry is left as it was; read
    -- later, the first launch is put under quarantine for its lease, with nothing else of it changed,
    -- and the second launch is claimed and added.
    pub second_request :
        request_launch sqlite duration q' f' (request_launch sqlite duration q f rows).1
        ≡ next_answer
    second_request =
        ap (λ m. request_launch sqlite duration q' f' m.1)
          (request_launch_reserves duration q f rows free new orphan valid)
        ∙ next_from_table
