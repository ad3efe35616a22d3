-- ===== src/Launch/Service/Tests.antt =====
-- Requests on small registries.
use fork_agent.Prelude.{
  ℕ, ◌+◌, String, true, false, none, some, [], ◌∷◌, ◌≡◌, ◌≢◌, refl, any, ok, err, repository_error,
  ltb, if◌then◌else◌, is_empty, is_blank, is_blank_opt, given_eq, str_eq_iff,
}
use mathlib.Core.Bool.{false≢true}
use fork_agent.Launch.Entity.{
  quarantined, lease_expired_at, post_init_passes, key_matches, matches_codes, is_key_char, is_in,
  status_eq,
}
use fork_agent.Launch.Registry.{LaunchRegistry, blocks_key, sqlite}
use fork_agent.Launch.Service.{claimed, Fresh, default_role, request_launch}
use fork_agent.Launch.Service.Reserve.{reservation, request_launch_reserves}
use fork_agent.Launch.Service.Again.{second_request}
use fork_agent.Launch.Tests.{sample_request, fresh, ended}

unblocked : any (blocks_key "task:1") (ended ∷ []) ≡ false
unfolding blocks_key is_in status_eq
unblocked = refl

reservation_clean : post_init_passes (reservation 100 sample_request fresh) ≡ true
unfolding post_init_passes default_role is_blank is_blank_opt is_empty key_matches matches_codes
    is_key_char given_eq
reservation_clean = refl

request_launch_reserves_example : request_launch sqlite 100 sample_request fresh (ended ∷ []) ≡ (
  ok (record {
    launch = some (reservation 100 sample_request fresh);
    decision = claimed;
    existing_launch = none;
    reason = none;
  }),
  ended ∷ reservation 100 sample_request fresh ∷ [],
)
request_launch_reserves_example =
    request_launch_reserves 100 sample_request fresh (ended ∷ []) unblocked refl refl
      reservation_clean

-- After the lease, which ends at 121.
abbrev late : Fresh
late = record { launch_id = "c"; tested_at = 121; leased_at = 130; stamped_at = 131 }

late_clean : post_init_passes (reservation 100 sample_request late) ≡ true
unfolding post_init_passes default_role is_blank is_blank_opt is_empty key_matches matches_codes
    is_key_char given_eq
late_clean = refl

b_not_c : ◌≢◌ {A = String} "b" "c"
b_not_c e = false≢true ((str_eq_iff "b" "c").1 e)

second_request_example :
    request_launch sqlite 100 sample_request late
      (request_launch sqlite 100 sample_request fresh (ended ∷ [])).1
    ≡ (
      ok (record {
        launch = some (reservation 100 sample_request late);
        decision = claimed;
        existing_launch = none;
        reason = none;
      }),
      ended
          ∷ record (reservation 100 sample_request fresh) {
            status = quarantined;
            quarantine_reason = some (lease_expired_at (some 121));
          }
          ∷ reservation 100 sample_request late
          ∷ [],
    )
second_request_example =
    second_request 100 sample_request fresh (ended ∷ []) unblocked refl refl reservation_clean
      sample_request late refl refl b_not_c refl late_clean

-- A registry whose claims are lost and whose second look-up raises: the store counts the calls.
abbrev flaky : LaunchRegistry ℕ
flaky = record {
  claim = λ c now calls. (ok none, calls + 1);
  get_by_launch_id = λ id calls. (err repository_error, calls + 1);
  find_active_by_canonical_key =
      λ key calls. (if ltb 0 calls then err repository_error else ok none, calls + 1);
  cas_update_status = λ id s t f now calls. (err repository_error, calls + 1);
  list_by_status = λ s calls. (err repository_error, calls + 1);
  list_expired_leases = λ now calls. (err repository_error, calls + 1);
  count_by_status = λ calls. (err repository_error, calls + 1);
}
