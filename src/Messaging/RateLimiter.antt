-- ===== src/Messaging/RateLimiter.antt =====
-- src/application/services/messaging/rate_limiter.py. Times are natural numbers in some unit; a
-- reading of the clock is an argument. The dict of entries is the list of its entries.
pub mod Window
use fork_agent.Prelude.{
  ℕ, ◌+◌, ◌-◌, String, Bool, true, false, not, Option, none, some, List, [], ◌∷◌, ◌++◌,
  if◌then◌else◌, ltb, leb, length, select, count_where, any, str_eq, find_key, update_where,
}

pub record RateLimitEntry : Type 0 where
  pub key : String
  pub timestamps : List ℕ

-- What the constructor is given.
pub record RateLimiter : Type 0 where
  pub max_requests : ℕ
  pub window : ℕ

abbrev pub Entries : Type 0
Entries = List RateLimitEntry

abbrev pub entry_key : RateLimitEntry → String
entry_key e = e.key

abbrev pub is_entry : String → RateLimitEntry → Bool
is_entry key e = str_eq e.key key

-- self._entries[key].timestamps, where a missing entry is an empty one.
unfoldable pub timestamps_of : String → Entries → List ℕ
timestamps_of key entries = elim (find_key entry_key key entries) [
  | none ↦ []
  | some e ↦ e.timestamps
]

-- The write to the entry of the key, which the read has made if it was missing.
unfoldable pub put_timestamps : String → List ℕ → Entries → Entries
put_timestamps key ts entries =
    if any (is_entry key) entries
    then update_where (is_entry key) (λ e. record e { timestamps = ts }) entries
    else entries ++ record { key = key; timestamps = ts } ∷ []

-- `ts > now - window`
abbrev pub is_recent : ℕ → ℕ → ℕ → Bool
is_recent window now ts = ltb now (ts + window)

-- The answer, and the entries after the call.
unfoldable pub is_allowed : RateLimiter → String → ℕ → Entries → Bool × Entries
is_allowed r key now entries =
    let recent = select (is_recent r.window now) (timestamps_of key entries) in
    if leb r.max_requests (length recent)
    then (false, put_timestamps key recent entries)
    else (true, put_timestamps key (recent ++ now ∷ []) entries)

-- `None` resets every key.
unfoldable pub reset : Option String → Entries → Entries
reset none entries = []
reset (some key) entries = select (λ e. not (is_entry key e)) entries

unfoldable pub get_remaining : RateLimiter → String → ℕ → Entries → ℕ
get_remaining r key now entries = elim (find_key entry_key key entries) [
  | none ↦ r.max_requests
  | some e ↦ r.max_requests - count_where (is_recent r.window now) e.timestamps
]
