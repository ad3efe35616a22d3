-- ===== src/Launch/Service/Reserve.antt =====
-- The launch that a request reserves in the SQLite registry.
use fork_agent.Prelude.{
  ℕ, ◌+◌, String, true, false, none, some, [], ◌∷◌, ◌++◌, ◌≡◌, refl, ok, ◌>>=◌, any,
}
use fork_agent.Launch.Entity.{reserved, AgentLaunch, post_init_passes}
use fork_agent.Launch.Registry.{Table, claimed_row, blocks_key, sqlite}
use fork_agent.Launch.Registry.Unique.{has_id}
use fork_agent.Launch.Service.{
  claimed, Request, Fresh, claim_of, default_role, effective_role, fail_closed, after_look,
  try_launch, request_launch,
}
use fork_agent.Launch.Service.Answers.{claim_slot_claims, unblocked_unindexed}
use fork_agent.Launch.Service.Last.{select-none, find_active_none}

-- The launch that a request asks for: RESERVED, stamped, with a lease of the service's duration,
-- and with the role of its surface where it names none.
abbrev pub reservation : ℕ → Request → Fresh → AgentLaunch
reservation duration q f = record {
  launch_id = f.launch_id;
  canonical_key = q.canonical_key;
  surface = q.surface;
  owner_type = q.owner_type;
  owner_id = q.owner_id;
  status = reserved;
  backend = none;
  created_at = some f.stamped_at;
  reserved_at = some f.stamped_at;
  spawn_started_at = none;
  spawn_confirmed_at = none;
  ended_at = none;
  lease_expires_at = some (f.leased_at + duration);
  termination_handle_type = none;
  termination_handle_value = none;
  process_pid = none;
  process_pgid = none;
  tmux_session = none;
  tmux_pane_id = none;
  prompt_digest = none;
  request_fingerprint = none;
  last_error = none;
  quarantine_reason = none;
  parent_launch_id = q.parent_launch_id;
  role = some (elim q.role as (λ _. String) [ some role ↦ role | none ↦ default_role q.surface ]);
  model = q.model;
  output_artifact = none;
}

-- The service's lease duration, a first request, and a table that has no launch which blocks its
-- key, nor one with its id.
module _ (duration : ℕ) (q : Request) (f : Fresh) (rows : Table)
    (free : any (blocks_key q.canonical_key) rows ≡ false)
    (new : any (has_id f.launch_id) rows ≡ false) (orphan : q.parent_launch_id ≡ none)
    (valid : post_init_passes (reservation duration q f) ≡ true) where
  -- Where no launch blocks the key, the id is new, the request names no parent, and the launch that
  -- it asks for passes the entity's checks, the answer is "claimed" with that launch and with
  -- neither another launch nor a reason, and the launch is added to the registry, which is otherwise
  -- unchanged. It is RESERVED under the key for the owner, its lease ends the service's duration
  -- after the clock reading of the claim, and its role is the one of the request, or the one of the
  -- surface where it names none.
  pub request_launch_reserves : request_launch sqlite duration q f rows ≡ (
    ok (record {
      launch = some (reservation duration q f);
      decision = claimed;
      existing_launch = none;
      reason = none;
    }),
    rows ++ reservation duration q f ∷ [],
  )
  unfolding request_launch try_launch after_look fail_closed claimed_row claim_of effective_role
      ◌>>=◌
  request_launch_reserves = rw (find_active_none q.canonical_key rows free) (
      rw
        (claim_slot_claims duration q f rows
          (unblocked_unindexed q.canonical_key rows
            (select-none (blocks_key q.canonical_key) rows free))
          new orphan valid)
        refl)
