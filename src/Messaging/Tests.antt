-- ===== src/Messaging/Tests.antt =====
-- The limiter on a small sequence of requests.
use fork_agent.Prelude.{
  ℕ, refl, String, List, [], ◌∷◌, ◌≡◌, ◌≤◌, ◌-◌, ltb, if◌then◌else◌, count_where, arith, find_key,
  update_where,
}
use fork_agent.Messaging.RateLimiter.{
  RateLimiter, Entries, is_allowed, get_remaining, timestamps_of, put_timestamps,
}
use fork_agent.Messaging.RateLimiter.Window.{
  Request, IsChronological, next, done, granted, is_in_window, window_is_bounded,
  is_allowed-get_remaining,
}

abbrev limiter : RateLimiter
limiter = record { max_requests = 2; window = 10 }

abbrev request : String → ℕ → Request
request key time = record { key = key; time = time }

abbrev requests : List Request
requests = request "a" 1 ∷ request "a" 2 ∷ request "a" 3 ∷ request "b" 4 ∷ request "a" 12 ∷ []

requests-IsChronological : IsChronological 0 requests
requests-IsChronological =
    next (omega arith)
      (next (omega arith) (next (omega arith) (next (omega arith) (next (omega arith) done))))

-- The third request is refused, and the last one comes after the window of the first.
granted_here :
    granted limiter requests []
    ≡ request "a" 1 ∷ request "a" 2 ∷ request "b" 4 ∷ request "a" 12 ∷ []
unfolding granted is_allowed timestamps_of put_timestamps find_key update_where
granted_here = refl

window_is_bounded_example :
    count_where (is_in_window limiter "a" 3) (granted limiter requests []) ≤ 2
window_is_bounded_example = window_is_bounded limiter requests "a" 3 requests-IsChronological

abbrev entries : Entries
entries = record { key = "a"; timestamps = 1 ∷ [] } ∷ []

is_allowed-get_remaining_example :
    ((is_allowed limiter "a" 5 entries).0 ≡ ltb 0 (get_remaining limiter "a" 5 entries))
    × (get_remaining limiter "a" 5 (is_allowed limiter "a" 5 entries).1
        ≡ get_remaining limiter "a" 5 entries
          - (if (is_allowed limiter "a" 5 entries).0 then 1 else 0))
is_allowed-get_remaining_example = is_allowed-get_remaining limiter "a" 5 entries (omega arith)
