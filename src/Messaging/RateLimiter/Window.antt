-- ===== src/Messaging/RateLimiter/Window.antt =====
-- What the limiter promises: never more than max_requests requests of a key in a window.
use fork_agent.Prelude.{
  ℕ, ◌+◌, ◌-◌, ◌≤◌, ◌<◌, String, Bool, true, false, ◌&&◌, Option, none, some, List, [], ◌∷◌, ◌++◌,
  ◌≡◌, ◌≢◌, inl, inr, refl, sym, ◌∙◌, arith, if◌then◌else◌, ltb, leb, length, length-select, select,
  count_where, count_where-append, any, str_eq, str_eq_iff, str_eq_self, str_eq_apart, find_key,
  update_where, Bool-cases,
}
use mathlib.Core.Bool.{false≢true}
use fork_agent.Messaging.RateLimiter.{
  RateLimiter, RateLimitEntry, Entries, entry_key, is_entry, timestamps_of, put_timestamps,
  is_recent, is_allowed, get_remaining,
}

-- Reading an entry after a write to it.
update_same :
    (key : String) (ts : List ℕ) (entries : Entries)
    → any (is_entry key) entries ≡ true
    → timestamps_of key (update_where (is_entry key) (λ e. record e { timestamps = ts }) entries)
      ≡ ts
unfolding timestamps_of find_key update_where
update_same key ts [] h = absurd (cc)
update_same key ts (e ∷ es) h = ground (arith, update_same key ts es)

append_same :
    (key : String) (ts : List ℕ) (entries : Entries)
    → any (is_entry key) entries ≡ false
    → timestamps_of key (entries ++ record { key = key; timestamps = ts } ∷ []) ≡ ts
unfolding timestamps_of find_key
append_same key ts [] h = ground (arith, str_eq_self key)
append_same key ts (e ∷ es) h = ground (arith, append_same key ts es)

timestamps-put_same :
    (key : String) (ts : List ℕ) (entries : Entries)
    → timestamps_of key (put_timestamps key ts entries) ≡ ts
unfolding put_timestamps
timestamps-put_same key ts entries = elim (Bool-cases (any (is_entry key) entries)) [
  | inl hit ↦ rw hit (update_same key ts entries hit)
  | inr miss ↦ rw miss (append_same key ts entries miss)
]

-- Reading the entry of another key.
update_other :
    (key k : String) (ts : List ℕ) (entries : Entries)
    → key ≢ k
    → timestamps_of k (update_where (is_entry key) (λ e. record e { timestamps = ts }) entries)
      ≡ timestamps_of k entries
unfolding timestamps_of find_key update_where
update_other key k ts [] apart = refl
update_other key k ts (e ∷ es) apart = elim (Bool-cases (str_eq e.key k)) [
  | inr far ↦ ground (arith, update_other key k ts es apart)
  | inl same ↦
      let other = str_eq_apart e.key key λ hit. apart (sym hit ∙ (str_eq_iff e.key k).0 same) in
      ground (arith, other, same)
]

append_other :
    (key k : String) (ts : List ℕ) (entries : Entries)
    → key ≢ k
    → timestamps_of k (entries ++ record { key = key; timestamps = ts } ∷ [])
      ≡ timestamps_of k entries
unfolding timestamps_of find_key
append_other key k ts [] apart = ground (arith, str_eq_apart key k apart)
append_other key k ts (e ∷ es) apart = ground (arith, append_other key k ts es apart)

timestamps-put_other :
    (key k : String) (ts : List ℕ) (entries : Entries)
    → key ≢ k
    → timestamps_of k (put_timestamps key ts entries) ≡ timestamps_of k entries
unfolding put_timestamps
timestamps-put_other key k ts entries apart = elim (Bool-cases (any (is_entry key) entries)) [
  | inl hit ↦ rw hit (update_other key k ts entries apart)
  | inr miss ↦ rw miss (append_other key k ts entries apart)
]

-- The requests of a key that a moment still counts.
abbrev pub recent_of : RateLimiter → String → ℕ → Entries → ℕ
recent_of r key now entries = count_where (is_recent r.window now) (timestamps_of key entries)

get_remaining-eq :
    (r : RateLimiter) (key : String) (now : ℕ) (entries : Entries)
    → get_remaining r key now entries ≡ r.max_requests - recent_of r key now entries
unfolding get_remaining timestamps_of
get_remaining-eq r key now entries = by_find (find_key entry_key key entries)
  where
    by_find :
        (o : Option RateLimitEntry)
        → (elim o as (λ _. ℕ) [
          | none ↦ r.max_requests
          | some e ↦ r.max_requests - count_where (is_recent r.window now) e.timestamps
        ])
          ≡ r.max_requests
            - count_where (is_recent r.window now) (elim o [ none ↦ [] | some e ↦ e.timestamps ])
    by_find none = omega arith
    by_find (some e) = refl

-- Counting with a later moment what an earlier one has left.
count-select_recent :
    (window now later : ℕ) (ts : List ℕ)
    → now ≤ later
    → count_where (is_recent window later) (select (is_recent window now) ts)
      ≡ count_where (is_recent window later) ts
count-select_recent window now later [] le = refl
count-select_recent window now later (t ∷ ts) le =
    ground (arith, count-select_recent window now later ts)

module _ (r : RateLimiter) (key : String) (now : ℕ) (entries : Entries) where
  -- The answer is whether the moment still counts fewer requests than allowed.
  is_allowed-answer :
      (is_allowed r key now entries).0 ≡ ltb (recent_of r key now entries) r.max_requests
  unfolding is_allowed
  is_allowed-answer =
      ground (arith, length-select (is_recent r.window now) (timestamps_of key entries))

  -- What a later moment counts: what it counted before, and the new request if there is one.
  recent-is_allowed :
      (later : ℕ)
      → now ≤ later
      → recent_of r key later (is_allowed r key now entries).1
        ≡ recent_of r key later entries
          + (if (is_allowed r key now entries).0 && is_recent r.window later now then 1 else 0)
  unfolding is_allowed
  recent-is_allowed later le =
      let recent = select (is_recent r.window now) (timestamps_of key entries) in
      let left = count-select_recent r.window now later (timestamps_of key entries) le in
      elim (Bool-cases (leb r.max_requests (length recent))) [
        | inl full ↦ rw (full, timestamps-put_same key recent entries) (ground (arith, left))
        | inr free ↦
            rw (free, timestamps-put_same key (recent ++ now ∷ []) entries)
              (ground
                (arith, left, count_where-append (is_recent r.window later) recent (now ∷ [])))
      ]

  -- Another key is not touched.
  other-is_allowed :
      (k : String)
      → key ≢ k
      → timestamps_of k (is_allowed r key now entries).1 ≡ timestamps_of k entries
  unfolding is_allowed
  other-is_allowed k apart =
      let recent = select (is_recent r.window now) (timestamps_of key entries) in
      elim (Bool-cases (leb r.max_requests (length recent))) [
        | inl full ↦ rw full (timestamps-put_other key k _ entries apart)
        | inr free ↦ rw free (timestamps-put_other key k _ entries apart)
      ]

-- Where the window is not empty, a request is allowed exactly if `get_remaining` at that moment is
-- not 0; an allowed request makes it one less, and a refused one leaves it.
pub is_allowed-get_remaining :
    (r : RateLimiter) (key : String) (now : ℕ) (entries : Entries)
    → 0 < r.window
    → ((is_allowed r key now entries).0 ≡ ltb 0 (get_remaining r key now entries))
      × (get_remaining r key now (is_allowed r key now entries).1
          ≡ get_remaining r key now entries - (if (is_allowed r key now entries).0 then 1 else 0))
is_allowed-get_remaining r key now entries open_window =
    rw
      (
        get_remaining-eq r key now entries,
        get_remaining-eq r key now (is_allowed r key now entries).1,
      )
      (ground (
        arith,
        is_allowed-answer r key now entries,
        recent-is_allowed r key now entries now (omega arith),
      ))

-- A request: its key, and the reading of the clock.
pub record Request : Type 0 where
  pub key : String
  pub time : ℕ

-- The requests of a sequence that are allowed.
unfoldable pub granted : RateLimiter → List Request → Entries → List Request
granted r [] entries = []
granted r (q ∷ qs) entries =
    let (allowed, after) = is_allowed r q.key q.time entries in
    let rest = granted r qs after in if allowed then q ∷ rest else rest

-- The clock does not go back.
pub data IsChronological : ℕ → List Request → Type 0 where
  done : {now : ℕ} → IsChronological now []
  next :
      {now : ℕ} {q : Request} {qs : List Request}
      → now ≤ q.time
      → IsChronological q.time qs
      → IsChronological now (q ∷ qs)

-- A request of the key in the window that ends at `now`.
abbrev pub is_in_window : RateLimiter → String → ℕ → Request → Bool
is_in_window r key now q = str_eq q.key key && leb q.time now && is_recent r.window now q.time

count-recent_later :
    (window now later : ℕ) (ts : List ℕ)
    → now ≤ later
    → count_where (is_recent window later) ts ≤ count_where (is_recent window now) ts
count-recent_later window now later [] le = omega arith
count-recent_later window now later (t ∷ ts) le =
    ground (arith, count-recent_later window now later ts)

module _ (r : RateLimiter) (key : String) where
  -- The requests that were allowed before, by the end of a window: no window has too many, and the
  -- entry has all that a later moment counts.
  record IsCovered (past : ℕ → ℕ) (now : ℕ) (entries : Entries) : Type 0 where
    bounded : (t : ℕ) → past t ≤ r.max_requests
    held : (t : ℕ) → now ≤ t → past t ≤ recent_of r key t entries

  -- One more.
  abbrev with_request : (ℕ → ℕ) → Bool → Request → ℕ → ℕ
  with_request past allowed q t = past t + (if allowed && is_in_window r key t q then 1 else 0)

  IsCovered-here :
      (past : ℕ → ℕ) (now : ℕ) (entries : Entries) (time : ℕ)
      → now ≤ time
      → IsCovered past now entries
      → IsCovered
          (λ t.
            past t
            + (if (is_allowed r key time entries).0 && (leb time t && is_recent r.window t time)
                then 1
                else 0))
          time
          (is_allowed r key time entries).1
  IsCovered-here past now entries time le c = record {
    bounded = λ t. ground (
      arith,
      le,
      c.bounded t,
      c.held t,
      is_allowed-answer r key time entries,
      count-recent_later r.window time t (timestamps_of key entries),
    );
    held = λ t later.
        ground (arith, le, later, c.held t, recent-is_allowed r key time entries t later);
  }

  IsCovered-step :
      (past : ℕ → ℕ) (now : ℕ) (entries : Entries) (q : Request)
      → now ≤ q.time
      → IsCovered past now entries
      → IsCovered
          (with_request past (is_allowed r q.key q.time entries).0 q)
          q.time
          (is_allowed r q.key q.time entries).1
  IsCovered-step past now entries q le c = elim (Bool-cases (str_eq q.key key)) [
    | inl same ↦
        let g = IsCovered-here past now entries q.time le c in
        let e = (str_eq_iff q.key key).0 same in
        record {
          bounded = λ t. rw (same, e) (g.bounded t);
          held = λ t later. rw (same, e) (g.held t later);
        }
    | inr apart ↦ record {
      bounded = λ t. rw apart (ground (arith, c.bounded t));
      held = λ t later.
          rw (apart, other-is_allowed r q.key q.time entries key (apart_keys apart))
            (ground (arith, le, later, c.held t));
    }
  ]
    where
      apart_keys : str_eq q.key key ≡ false → q.key ≢ key
      apart_keys apart e = false≢true (sym apart ∙ (str_eq_iff q.key key).1 e)

  granted-covered :
      (past : ℕ → ℕ) (now : ℕ) (entries : Entries) (qs : List Request)
      → IsChronological now qs
      → IsCovered past now entries
      → (t : ℕ)
      → past t + count_where (is_in_window r key t) (granted r qs entries) ≤ r.max_requests
  unfolding granted
  granted-covered past now entries [] chrono c t = ground (arith, c.bounded t)
  granted-covered past now entries (q ∷ qs) (next le chrono) c t = ground (
    arith,
    granted-covered (with_request past (is_allowed r q.key q.time entries).0 q) q.time
        (is_allowed r q.key q.time entries).1 qs chrono (IsCovered-step past now entries q le c) t,
  )

-- From no entries and with a clock that does not go back, whatever is asked for, the requests of a
-- key that are allowed in any window, up to a moment, are at most max_requests.
pub window_is_bounded :
    (r : RateLimiter) (qs : List Request) (key : String) (now : ℕ)
    → IsChronological 0 qs
    → count_where (is_in_window r key now) (granted r qs []) ≤ r.max_requests
window_is_bounded r qs key now chrono = ground (
  arith,
  granted-covered r key (λ t. 0) 0 [] qs chrono
      (record { bounded = λ t. omega arith; held = λ t later. omega arith }) now,
)
