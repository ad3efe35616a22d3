-- ===== src/Launch/Entity.antt =====
-- src/domain/entities/agent_launch.py: the status enum with its tables, the launch record, and the
-- checks of `__post_init__`. Texts are native strings; times are milliseconds since the epoch.
pub mod Key
use fork_agent.Prelude.{
  ℕ, suc, String, Bool, true, false, not, ◌&&◌, ◌||◌, Option, none, some, List, [], ◌∷◌, ◌≡◌, refl,
  ltb, leb, ◌==◌, if◌then◌else◌, length, any, codes, is_empty, is_blank_opt, given_eq, str_eq,
  arith, Result, ok, err, value_error,
}

pub data LaunchStatus : Type 0 where
  reserved spawning active terminating terminated failed suppressed_duplicate quarantined :
      LaunchStatus

-- The place of a status in the enum; two statuses are equal exactly if their places are.
unfoldable pub status_no : LaunchStatus → ℕ
status_no reserved = 0
status_no spawning = 1
status_no active = 2
status_no terminating = 3
status_no terminated = 4
status_no failed = 5
status_no suppressed_duplicate = 6
status_no quarantined = 7

unfoldable pub status_eq : LaunchStatus → LaunchStatus → Bool
unfolding status_no
status_eq s t = status_no s == status_no t

pub status_eq-eq : (s t : LaunchStatus) → status_eq s t ≡ true → s ≡ t
unfolding status_eq
status_eq-eq s t h = ground arith

-- `target in statuses`
unfoldable pub is_in : LaunchStatus → List LaunchStatus → Bool
unfolding status_eq
is_in s statuses = any (status_eq s) statuses

abbrev pub blocking_statuses : List LaunchStatus
blocking_statuses = reserved ∷ spawning ∷ active ∷ terminating ∷ quarantined ∷ []

abbrev pub terminal_statuses : List LaunchStatus
terminal_statuses = terminated ∷ failed ∷ suppressed_duplicate ∷ []

abbrev pub valid_transitions : LaunchStatus → List LaunchStatus
valid_transitions reserved = spawning ∷ failed ∷ quarantined ∷ []
valid_transitions spawning = active ∷ failed ∷ quarantined ∷ []
valid_transitions active = terminating ∷ failed ∷ quarantined ∷ []
valid_transitions terminating = terminated ∷ failed ∷ []
valid_transitions quarantined = failed ∷ terminated ∷ []
valid_transitions terminated = []
valid_transitions failed = []
valid_transitions suppressed_duplicate = []

-- The texts that the lifecycle service writes as a quarantine reason: its two f-strings, and any
-- other text.
pub data QuarantineReason : Type 0 where
  lease_expired_at : Option ℕ → QuarantineReason
  reason_text : String → QuarantineReason

pub record AgentLaunch : Type 0 where
  pub launch_id : String
  pub canonical_key : String
  pub surface : String
  pub owner_type : String
  pub owner_id : String
  pub status : LaunchStatus
  pub backend : Option String
  pub created_at : Option ℕ
  pub reserved_at : Option ℕ
  pub spawn_started_at : Option ℕ
  pub spawn_confirmed_at : Option ℕ
  pub ended_at : Option ℕ
  pub lease_expires_at : Option ℕ
  pub termination_handle_type : Option String
  pub termination_handle_value : Option String
  pub process_pid : Option ℕ
  pub process_pgid : Option ℕ
  pub tmux_session : Option String
  pub tmux_pane_id : Option String
  pub prompt_digest : Option String
  pub request_fingerprint : Option String
  pub last_error : Option String
  pub quarantine_reason : Option QuarantineReason
  pub parent_launch_id : Option String
  pub role : Option String
  pub model : Option String
  pub output_artifact : Option String

-- [a-zA-Z0-9._:/-]
unfoldable pub is_key_char : ℕ → Bool
is_key_char c =
    (leb b'a' c && leb c b'z')
    || (leb b'A' c && leb c b'Z')
    || (leb b'0' c && leb c b'9')
    || (c == b'.')
    || (c == b'_')
    || (c == b':')
    || (c == b'/')
    || (c == b'-')

abbrev pub newline : ℕ
newline = 10

-- [a-zA-Z0-9._:/-]{n,n+room}$ after n characters: `$` of Python's `re` also matches just before a
-- newline that ends the text.
unfoldable pub key_rest : List ℕ → Bool
key_rest [] = true
key_rest (c ∷ cs) =
    let rest = key_rest cs in
    elim cs [ [] ↦ is_key_char c || c == newline | d ∷ ds ↦ is_key_char c && rest ]

-- The characters before a final newline.
unfoldable pub body_length : List ℕ → ℕ
body_length [] = 0
body_length (c ∷ cs) =
    let rest = body_length cs in elim cs [ [] ↦ if c == newline then 0 else 1 | d ∷ ds ↦ suc rest ]

-- _CANONICAL_KEY_RE.match on the code points of a key
unfoldable pub matches_codes : List ℕ → Bool
unfolding key_rest body_length
matches_codes cs = key_rest cs && leb 1 (body_length cs) && leb (body_length cs) 256

-- _CANONICAL_KEY_RE.match(key)
unfoldable pub key_matches : String → Bool
unfolding matches_codes
key_matches key = matches_codes (codes key)

abbrev pub max_owner_id_length : ℕ
max_owner_id_length = 1024

abbrev pub valid_owner_types : List String
valid_owner_types = "agent" ∷ "session" ∷ "task" ∷ "run" ∷ "batch" ∷ []

-- __post_init__ passes. The isinstance tests hold by typing.
unfoldable pub post_init_passes : AgentLaunch → Bool
post_init_passes l =
    not (is_empty l.launch_id)
    && not (is_empty l.canonical_key)
    && key_matches l.canonical_key
    && not (is_empty l.owner_id)
    && leb (length (codes l.owner_id)) max_owner_id_length
    && any (str_eq l.owner_type) valid_owner_types
    && not (is_blank_opt l.parent_launch_id)
    && not (given_eq l.parent_launch_id l.launch_id)
    && not (is_blank_opt l.role)
    && not (is_blank_opt l.model)
    && not (is_blank_opt l.output_artifact)

-- AgentLaunch(…)
unfoldable pub construct : AgentLaunch → Result AgentLaunch
construct l = if post_init_passes l then ok l else err value_error

unfoldable pub can_transition_to : AgentLaunch → LaunchStatus → Bool
unfolding is_in
can_transition_to l target = is_in target (valid_transitions l.status)

unfoldable pub is_blocking : AgentLaunch → Bool
unfolding is_in
is_blocking l = is_in l.status blocking_statuses

unfoldable pub is_terminal : AgentLaunch → Bool
unfolding is_in
is_terminal l = is_in l.status terminal_statuses

-- `now` is the reading of the clock at the call.
unfoldable pub lease_is_valid : AgentLaunch → ℕ → Bool
lease_is_valid l now = elim l.lease_expires_at [ none ↦ true | some t ↦ ltb now t ]

-- A record that passes has a key that is not empty.
pub key_nonempty : (l : AgentLaunch) → post_init_passes l ≡ true → is_empty l.canonical_key ≡ false
unfolding post_init_passes
key_nonempty l h = ground arith
