-- ===== src/Launch/Tests.antt =====
-- The lifecycle service on small registries.
use fork_agent.Prelude.{
  ℕ, String, Bool, true, false, Option, none, some, List, [], ◌∷◌, ◌≡◌, ◌≢◌, ◌↔◌, ◌≤◌, refl, arith,
  any, count_where, find_key, ok, latest, str_eq, is_empty, is_blank, is_blank_opt, some_eq, codes,
  update_where, order_by, pure, ◌>>=◌, given_eq, if◌then◌else◌,
}
use fork_agent.Launch.Entity.{
  LaunchStatus, reserved, active, terminated, quarantined, AgentLaunch, is_terminal, lease_is_valid,
  post_init_passes, matches_codes, key_matches, is_in, construct, is_blocking, is_key_char,
  can_transition_to,
}
use fork_agent.Launch.Entity.Key.{IsKey, matches_codes_iff}
use fork_agent.Launch.Registry.{
  Table, launch_key, holds_key, is_expired, is_indexed, find_active_by_canonical_key, sqlite,
  claimed_row, blocks_key, row_to_launch, get_by_launch_id, list_expired_leases, cas_update_status,
  breaks_index, is_target, apply_cas, is_crowded, lease_is_past,
}
use fork_agent.Launch.Registry.Unique.{IsUnique}
use fork_agent.Launch.Registry.Advance.{Advances}
use fork_agent.Launch.Service.{
  Request, Fresh, LaunchAttempt, claim_of, request_launch, claimed_attempt,
  reconcile_expired_leases, sweep, quarantine, unless_terminal, move_from, if_found,
  validate_parent_launch_id, effective_role, default_role, walk,
}
use fork_agent.Launch.Service.Safety.{
  Call, request, failing, expiring, run, one_launch_per_key, launches_follow_transitions,
  terminal_is_final,
}
use fork_agent.Launch.Service.Answers.{IsSound, request_launch_total, quarantined_lapsed_relaunches}
use fork_agent.Launch.Service.Quarantine.{IsClean}
use fork_agent.Launch.Service.Reconcile.{reconcile_leaves_no_expired}
use fork_agent.Launch.Service.Lineage.{accepted_lineage, climb}

abbrev pub launch : String → LaunchStatus → Option ℕ → AgentLaunch
launch id status lease = record {
  launch_id = id;
  canonical_key = "task:1";
  surface = "api";
  owner_type = "task";
  owner_id = "1";
  status = status;
  backend = none;
  created_at = some 5;
  reserved_at = some 5;
  spawn_started_at = none;
  spawn_confirmed_at = none;
  ended_at = none;
  lease_expires_at = lease;
  termination_handle_type = none;
  termination_handle_value = none;
  process_pid = none;
  process_pgid = none;
  tmux_session = none;
  tmux_pane_id = none;
  prompt_digest = none;
  request_fingerprint = none;
  last_error = none;
  quarantine_reason = none;
  parent_launch_id = none;
  role = none;
  model = none;
  output_artifact = none;
}

abbrev pub sample_request : Request
sample_request = record {
  canonical_key = "task:1";
  surface = "api";
  owner_type = "task";
  owner_id = "1";
  role = none;
  parent_launch_id = none;
  model = none;
}

abbrev pub fresh : Fresh
fresh = record { launch_id = "b"; tested_at = 20; leased_at = 21; stamped_at = 22 }

abbrev calls : List Call
calls = request 100 sample_request fresh ∷ failing "b" "stopped" 30 ∷ expiring 40 ∷ []

empty-IsUnique : IsUnique []
empty-IsUnique = record { ids = λ id. omega arith; keys = λ key. omega arith }

one_launch_per_key_example : count_where (holds_key "task:1") (run calls []) ≤ 1
one_launch_per_key_example = one_launch_per_key calls [] "task:1" empty-IsUnique

abbrev pub ended : AgentLaunch
ended = launch "a" terminated none

found_ended : find_key launch_key "a" (ended ∷ []) ≡ some ended
unfolding find_key
found_ended = refl

ended-is_terminal : is_terminal ended ≡ true
unfolding is_terminal is_in
ended-is_terminal = refl

terminal_is_final_example : find_key launch_key "a" (run calls (ended ∷ [])) ≡ some ended
terminal_is_final_example =
    terminal_is_final calls (ended ∷ []) "a" ended found_ended ended-is_terminal

launches_follow_transitions_example :
    (m : AgentLaunch) × (find_key launch_key "a" (run calls (ended ∷ [])) ≡ some m)
    × Advances ended m
launches_follow_transitions_example =
    launches_follow_transitions calls (ended ∷ []) "a" ended found_ended

request_launch_total_example :
    (a : LaunchAttempt) × ((request_launch sqlite 100 sample_request fresh []).0 ≡ ok a) × IsSound a
request_launch_total_example = request_launch_total sqlite 100 sample_request fresh []

valid_row : post_init_passes (claimed_row (claim_of 100 sample_request fresh) 22) ≡ true
unfolding post_init_passes claimed_row claim_of effective_role default_role is_blank is_blank_opt
    is_empty key_matches matches_codes is_key_char given_eq
valid_row = refl

abbrev working : AgentLaunch
working = launch "a" active none

abbrev stuck : AgentLaunch
stuck = launch "a" quarantined (some 10)

found_stuck : (find_active_by_canonical_key "task:1" (stuck ∷ [])).0 ≡ ok (some stuck)
unfolding find_active_by_canonical_key blocks_key is_blocking is_in latest row_to_launch construct
    post_init_passes is_blank is_blank_opt is_empty key_matches matches_codes is_key_char given_eq
found_stuck = refl

stuck_lapsed : lease_is_valid stuck 20 ≡ false
unfolding lease_is_valid
stuck_lapsed = refl

stuck_free : any (holds_key "task:1") (stuck ∷ []) ≡ false
unfolding holds_key is_indexed is_in
stuck_free = refl

quarantined_lapsed_relaunches_example :
    request_launch sqlite 100 sample_request fresh (stuck ∷ []) ≡ (
      ok (claimed_attempt (claimed_row (claim_of 100 sample_request fresh) 22)),
      stuck ∷ claimed_row (claim_of 100 sample_request fresh) 22 ∷ [],
    )
quarantined_lapsed_relaunches_example =
    quarantined_lapsed_relaunches 100 sample_request fresh (stuck ∷ []) stuck found_stuck refl
      stuck_lapsed stuck_free refl refl valid_row

accepted_by_walk : (validate_parent_launch_id sqlite "a" "b" (working ∷ [])).0 ≡ ok none
unfolding validate_parent_launch_id walk get_by_launch_id find_key row_to_launch construct
    post_init_passes is_blank is_blank_opt is_empty key_matches matches_codes is_key_char given_eq
    ◌>>=◌ pure
accepted_by_walk = refl

accepted_lineage_example :
    (◌≢◌ {A = String} "a" "b")
    × ((p : AgentLaunch) × (find_key launch_key "a" (working ∷ []) ≡ some p))
    × (climb (working ∷ []) 15 (some "a") ≡ none)
accepted_lineage_example = accepted_lineage "a" "b" (working ∷ []) accepted_by_walk

matches_codes_iff_example : (matches_codes (codes "task:1") ≡ true) ↔ IsKey (codes "task:1")
matches_codes_iff_example = matches_codes_iff (codes "task:1")

abbrev expired : AgentLaunch
expired = launch "b" reserved (some 10)

working_clean : post_init_passes working ≡ true
unfolding post_init_passes is_blank is_blank_opt is_empty key_matches matches_codes is_key_char
    given_eq
working_clean = refl

expired_clean : post_init_passes expired ≡ true
unfolding post_init_passes is_blank is_blank_opt is_empty key_matches matches_codes is_key_char
    given_eq
expired_clean = refl

IsClean-cons :
    (l : AgentLaunch) (ls : Table) → post_init_passes l ≡ true → IsClean ls → IsClean (l ∷ ls)
unfolding find_key
IsClean-cons l ls h k id r found = by_head (str_eq l.launch_id id) found
  where
    by_head :
        (b : Bool)
        → (if b then some l else find_key launch_key id ls) ≡ some r
        → post_init_passes r ≡ true
    by_head true e = rw (← some_eq e) h
    by_head false e = k id r e

IsClean-nil : IsClean []
unfolding find_key
IsClean-nil id r found = absurd (cc)

swept_working :
    find_key launch_key "a" (reconcile_expired_leases sqlite 40 (expired ∷ working ∷ [])).1
    ≡ some working
unfolding reconcile_expired_leases find_key ◌>>=◌ pure list_expired_leases sweep order_by is_expired
    quarantine get_by_launch_id row_to_launch construct unless_terminal move_from can_transition_to
    is_terminal is_in post_init_passes is_empty is_blank is_blank_opt key_matches matches_codes
    is_key_char given_eq cas_update_status update_where breaks_index is_target apply_cas is_crowded
    is_indexed if_found lease_is_past
swept_working = refl

reconcile_leaves_no_expired_example : is_expired 40 working ≡ false
reconcile_leaves_no_expired_example =
    reconcile_leaves_no_expired 40 (expired ∷ working ∷ []) "a" working
      (IsClean-cons expired (working ∷ []) expired_clean
        (IsClean-cons working [] working_clean IsClean-nil))
      swept_working
