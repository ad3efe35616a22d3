-- ===== src/Launch/Registry.antt =====
-- src/infrastructure/persistence/repositories/agent_launch_repository.py over the table of
-- migrations 028, 030 and 031, and the port src/domain/ports/agent_launch_repository.py through
-- which the lifecycle service uses it. The table is the list of its rows in the order of insertion.
pub mod Unique
pub mod Advance
use fork_agent.Prelude.{
  ℕ, String, Bool, false, not, ◌&&◌, ◌||◌, Option, none, some, List, [], ◌∷◌, ◌++◌, map, ltb, leb,
  if◌then◌else◌, any, select, count_where, is_empty, str_eq, Exec, Result, ok, err,
  repository_error, coalesce, update_where, latest, order_by, order_desc, order_asc, find_key,
}
use fork_agent.Launch.Entity.{
  LaunchStatus, reserved, spawning, active, terminating, terminated, failed, suppressed_duplicate,
  quarantined, status_eq, is_in, blocking_statuses, terminal_statuses, QuarantineReason,
  AgentLaunch, post_init_passes, construct,
}

abbrev pub Table : Type 0
Table = List AgentLaunch

abbrev pub launch_key : AgentLaunch → String
launch_key r = r.launch_id

-- The arguments of `claim`.
pub record Claim : Type 0 where
  pub launch_id : String
  pub canonical_key : String
  pub surface : String
  pub owner_type : String
  pub owner_id : String
  pub lease_expires_at : ℕ
  pub role : Option String
  pub parent_launch_id : Option String
  pub model : Option String

-- The keyword arguments of `cas_update_status`.
pub record CasFields : Type 0 where
  pub error : Option String
  pub quarantine_reason : Option QuarantineReason
  pub backend : Option String
  pub termination_handle_type : Option String
  pub termination_handle_value : Option String
  pub process_pid : Option ℕ
  pub process_pgid : Option ℕ
  pub tmux_session : Option String
  pub tmux_pane_id : Option String
  pub output_artifact : Option String
  pub clear_lease : Bool

-- Their defaults.
abbrev pub no_fields : CasFields
no_fields = record {
  error = none;
  quarantine_reason = none;
  backend = none;
  termination_handle_type = none;
  termination_handle_value = none;
  process_pid = none;
  process_pgid = none;
  tmux_session = none;
  tmux_pane_id = none;
  output_artifact = none;
  clear_lease = false;
}

-- What the lifecycle service asks of a registry. Times are the clock readings that the call makes.
pub record LaunchRegistry (S : Type 0) : Type 0 where
  pub claim : Claim → ℕ → Exec S (Option AgentLaunch)
  pub get_by_launch_id : String → Exec S (Option AgentLaunch)
  pub find_active_by_canonical_key : String → Exec S (Option AgentLaunch)
  pub cas_update_status : String → LaunchStatus → LaunchStatus → CasFields → ℕ → Exec S Bool
  pub list_by_status : LaunchStatus → Exec S (List AgentLaunch)
  pub list_expired_leases : ℕ → Exec S (List AgentLaunch)
  pub count_by_status : Exec S (List (LaunchStatus × ℕ))

-- The WHERE of the partial unique index idx_one_active_launch_per_key.
unfoldable pub is_indexed : LaunchStatus → Bool
unfolding is_in
is_indexed s = is_in s (reserved ∷ spawning ∷ active ∷ terminating ∷ [])

-- A row in the index under this key.
unfoldable pub holds_key : String → AgentLaunch → Bool
unfolding is_indexed
holds_key key r = str_eq r.canonical_key key && is_indexed r.status

-- The row that `claim` inserts.
unfoldable pub claimed_row : Claim → ℕ → AgentLaunch
claimed_row c now = record {
  launch_id = c.launch_id;
  canonical_key = c.canonical_key;
  surface = c.surface;
  owner_type = c.owner_type;
  owner_id = c.owner_id;
  status = reserved;
  backend = none;
  created_at = some now;
  reserved_at = some now;
  spawn_started_at = none;
  spawn_confirmed_at = none;
  ended_at = none;
  lease_expires_at = some c.lease_expires_at;
  termination_handle_type = none;
  termination_handle_value = none;
  process_pid = none;
  process_pgid = none;
  tmux_session = none;
  tmux_pane_id = none;
  prompt_digest = none;
  request_fingerprint = none;
  last_error = none;
  quarantine_reason = none;
  parent_launch_id = c.parent_launch_id;
  role = c.role;
  model = c.model;
  output_artifact = none;
}

-- The two unique constraints that an INSERT can violate: the primary key and the partial index.
unfoldable pub breaks_unique : Claim → Table → Bool
breaks_unique c rows =
    any (λ r. str_eq r.launch_id c.launch_id) rows || any (holds_key c.canonical_key) rows

-- The foreign key on parent_launch_id, which may also name the new row itself.
unfoldable pub breaks_parent : Claim → Table → Bool
breaks_parent c rows = elim c.parent_launch_id [
  | none ↦ false
  | some parent ↦ not (str_eq c.launch_id parent || any (λ r. str_eq r.launch_id parent) rows)
]

-- The row of a `fetchone`, passed through the entity's constructor.
unfoldable pub row_to_launch : Option AgentLaunch → Result (Option AgentLaunch)
row_to_launch none = ok none
row_to_launch (some r) = elim (construct r) [ ok l ↦ ok (some l) | err e ↦ err e ]

unfoldable pub get_by_launch_id : String → Exec Table (Option AgentLaunch)
get_by_launch_id launch_id rows = (row_to_launch (find_key launch_key launch_id rows), rows)

-- An INSERT; a violated unique constraint gives None, any other violated constraint raises. `now`
-- is the reading of the clock.
unfoldable pub claim : Claim → ℕ → Exec Table (Option AgentLaunch)
claim c now rows =
    if is_empty c.canonical_key
    then (err repository_error, rows)
    else if breaks_unique c rows
    then (ok none, rows)
    else if breaks_parent c rows
    then (err repository_error, rows)
    else get_by_launch_id c.launch_id (rows ++ claimed_row c now ∷ [])

abbrev pub or_zero : Option ℕ → ℕ
or_zero none = 0
or_zero (some t) = t

-- A row that blocks its key for the query of `find_active_by_canonical_key`.
unfoldable pub blocks_key : String → AgentLaunch → Bool
unfolding is_in
blocks_key key r = str_eq r.canonical_key key && is_in r.status blocking_statuses

unfoldable pub find_active_by_canonical_key : String → Exec Table (Option AgentLaunch)
find_active_by_canonical_key key rows =
    (row_to_launch (latest (λ r. or_zero r.created_at) (select (blocks_key key) rows)), rows)

-- The three time columns that `cas_update_status` sets by the new status.
abbrev pub stamp_if : Bool → ℕ → Option ℕ
stamp_if b now = if b then some now else none

-- The SET clause.
unfoldable pub apply_cas : LaunchStatus → CasFields → ℕ → AgentLaunch → AgentLaunch
unfolding is_in
apply_cas new_status f now r =
    let ends = is_in new_status terminal_statuses in
    record r {
      status = new_status;
      ended_at = coalesce (stamp_if ends now) r.ended_at;
      spawn_started_at = coalesce (stamp_if (status_eq new_status spawning) now) r.spawn_started_at;
      spawn_confirmed_at =
          coalesce (stamp_if (status_eq new_status active) now) r.spawn_confirmed_at;
      last_error = coalesce f.error r.last_error;
      quarantine_reason = coalesce f.quarantine_reason r.quarantine_reason;
      backend = coalesce f.backend r.backend;
      termination_handle_type = coalesce f.termination_handle_type r.termination_handle_type;
      termination_handle_value = coalesce f.termination_handle_value r.termination_handle_value;
      process_pid = coalesce f.process_pid r.process_pid;
      process_pgid = coalesce f.process_pgid r.process_pgid;
      tmux_session = coalesce f.tmux_session r.tmux_session;
      tmux_pane_id = coalesce f.tmux_pane_id r.tmux_pane_id;
      output_artifact = coalesce f.output_artifact r.output_artifact;
      lease_expires_at = if f.clear_lease then none else r.lease_expires_at;
    }

-- WHERE launch_id = ? AND status = ?
unfoldable pub is_target : String → LaunchStatus → AgentLaunch → Bool
unfolding status_eq
is_target launch_id expected r = str_eq r.launch_id launch_id && status_eq r.status expected

-- A row that the UPDATE changes, with another row of its key in the partial index.
abbrev pub is_crowded : String → LaunchStatus → Table → AgentLaunch → Bool
is_crowded launch_id expected rows r =
    is_target launch_id expected r
    && any (λ s. holds_key r.canonical_key s && not (str_eq s.launch_id r.launch_id)) rows

-- The UPDATE would put a second row of a key into the partial index.
unfoldable pub breaks_index : String → LaunchStatus → LaunchStatus → Table → Bool
breaks_index launch_id expected new_status rows =
    is_indexed new_status && any (is_crowded launch_id expected rows) rows

-- UPDATE … WHERE launch_id = ? AND status = ?, and whether a row was updated.
unfoldable pub cas_update_status :
    String → LaunchStatus → LaunchStatus → CasFields → ℕ → Exec Table Bool
cas_update_status launch_id expected new_status f now rows =
    if breaks_index launch_id expected new_status rows then (err repository_error, rows) else (
      ok (any (is_target launch_id expected) rows),
      update_where (is_target launch_id expected) (apply_cas new_status f now) rows,
    )

-- Malformed rows are skipped.
unfoldable pub list_by_status : LaunchStatus → Exec Table (List AgentLaunch)
list_by_status status rows =
    let chosen = select (λ r. status_eq r.status status) rows in
    (ok (select post_init_passes (order_desc (λ r. or_zero r.created_at) chosen)), rows)

-- lease_expires_at IS NOT NULL AND lease_expires_at <= ?
abbrev pub lease_is_past : ℕ → AgentLaunch → Bool
lease_is_past now r = elim r.lease_expires_at [ none ↦ false | some t ↦ leb t now ]

unfoldable pub is_expired : ℕ → AgentLaunch → Bool
unfolding is_in
is_expired now r = is_in r.status (reserved ∷ spawning ∷ []) && lease_is_past now r

unfoldable pub list_expired_leases : ℕ → Exec Table (List AgentLaunch)
list_expired_leases now rows =
    let chosen = select (is_expired now) rows in
    (ok (select post_init_passes (order_asc (λ r. or_zero r.lease_expires_at) chosen)), rows)

abbrev pub all_statuses : List LaunchStatus
all_statuses =
    reserved ∷ spawning ∷ active ∷ terminating ∷ terminated ∷ failed ∷ suppressed_duplicate
    ∷ quarantined ∷ []

-- The groups of GROUP BY status that are not empty.
unfoldable pub count_by_status : Exec Table (List (LaunchStatus × ℕ))
unfolding status_eq
count_by_status rows =
    let counted = map (λ s. (s, count_where (λ r. status_eq r.status s) rows)) all_statuses in
    (ok (select (λ g. ltb 0 g.1) counted), rows)

-- The SQLite registry as the port sees it.
abbrev pub sqlite : LaunchRegistry Table
sqlite = record {
  claim = claim;
  get_by_launch_id = get_by_launch_id;
  find_active_by_canonical_key = find_active_by_canonical_key;
  cas_update_status = cas_update_status;
  list_by_status = list_by_status;
  list_expired_leases = list_expired_leases;
  count_by_status = count_by_status;
}
