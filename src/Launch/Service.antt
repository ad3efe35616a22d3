-- ===== src/Launch/Service.antt =====
-- src/application/services/agent_launch_lifecycle_service.py over any registry. Fresh UUIDs, clock
-- readings and the answer of tmux are arguments; logging is left out.
pub mod Follows
pub mod Safety
pub mod Answers
pub mod Last
pub mod Reserve
pub mod Again
pub mod Failures
mod Tests
pub mod Quarantine
pub mod Reconcile
pub mod Lineage
use fork_agent.Prelude.{
  ℕ, zero, suc, ◌+◌, ◌-◌, String, Bool, true, false, not, Option, none, some, List, [], ◌∷◌, ◌++◌,
  if◌then◌else◌, any, select, str_eq, Exec, Exn, Result, ok, err, pure, ◌>>=◌, ◌>>◌, order_by,
  order_desc,
}
use fork_agent.Launch.Entity.{
  LaunchStatus, reserved, spawning, active, terminating, terminated, failed, quarantined, is_in,
  QuarantineReason, lease_expired_at, reason_text, AgentLaunch, can_transition_to, is_terminal,
  lease_is_valid,
}
use fork_agent.Launch.Registry.{Claim, CasFields, no_fields, LaunchRegistry, or_zero}

pub data LaunchDecision : Type 0 where
  claimed suppressed error : LaunchDecision

-- Why a parent launch is refused: the f-strings of `_validate_parent_launch_id`.
pub data LineageError : Type 0 where
  self_referential not_found too_deep cycle_detected : LineageError

-- The reason of an attempt: one constructor for each f-string.
pub data AttemptReason : Type 0 where
  active_launch : String → LaunchStatus → AttemptReason
  concurrent_claim : AttemptReason
  bad_parent : LineageError → AttemptReason
  registry_error : Exn → AttemptReason

pub record LaunchAttempt : Type 0 where
  pub launch : Option AgentLaunch
  pub decision : LaunchDecision
  pub existing_launch : Option AgentLaunch
  pub reason : Option AttemptReason

abbrev pub default_lease_duration_ms : ℕ
default_lease_duration_ms = 300000

abbrev pub max_lineage_depth : ℕ
max_lineage_depth = 16

-- SURFACE_ROLE_DEFAULTS.get(surface, DEFAULT_ROLE)
unfoldable pub default_role : String → String
default_role surface =
    if str_eq surface "polling"
    then "poll-agent"
    else if str_eq surface "workflow"
    then "workflow-agent"
    else if str_eq surface "api"
    then "api-agent"
    else if str_eq surface "manager"
    then "manager-agent"
    else if str_eq surface "bug_hunt"
    then "hunter-agent"
    else "agent"

-- The arguments of `request_launch`.
pub record Request : Type 0 where
  pub canonical_key : String
  pub surface : String
  pub owner_type : String
  pub owner_id : String
  pub role : Option String
  pub parent_launch_id : Option String
  pub model : Option String

-- What one call of `request_launch` reads from outside: the new UUID, and the clock when it tests
-- the lease, when it sets the new lease and when the registry stamps the row.
pub record Fresh : Type 0 where
  pub launch_id : String
  pub tested_at : ℕ
  pub leased_at : ℕ
  pub stamped_at : ℕ

-- The arguments of `confirm_active`.
pub record Handle : Type 0 where
  pub backend : String
  pub termination_handle_type : String
  pub termination_handle_value : String
  pub tmux_pane_id : Option String
  pub tmux_session : Option String
  pub process_pid : Option ℕ
  pub process_pgid : Option ℕ

-- `launch_id in visited`
abbrev pub visits : String → List String → Bool
visits id visited = any (str_eq id) visited

abbrev pub handle_fields : Handle → CasFields
handle_fields h = record no_fields {
  backend = some h.backend;
  termination_handle_type = some h.termination_handle_type;
  termination_handle_value = some h.termination_handle_value;
  tmux_pane_id = h.tmux_pane_id;
  tmux_session = h.tmux_session;
  process_pid = h.process_pid;
  process_pgid = h.process_pgid;
  clear_lease = true;
}

abbrev pub claimed_attempt : AgentLaunch → LaunchAttempt
claimed_attempt launch = record {
  launch = some launch;
  decision = claimed;
  existing_launch = none;
  reason = none;
}

abbrev pub suppressed_attempt : Option AgentLaunch → AttemptReason → LaunchAttempt
suppressed_attempt existing reason = record {
  launch = none;
  decision = suppressed;
  existing_launch = existing;
  reason = some reason;
}

abbrev pub error_attempt : AttemptReason → LaunchAttempt
error_attempt reason = record {
  launch = none;
  decision = error;
  existing_launch = none;
  reason = some reason;
}

-- `except Exception as e`
unfoldable pub fail_closed : Result LaunchAttempt → LaunchAttempt
fail_closed (ok attempt) = attempt
fail_closed (err e) = error_attempt (registry_error e)

-- `role if role is not None else …`
unfoldable pub effective_role : Request → String
effective_role q = elim q.role [ some role ↦ role | none ↦ default_role q.surface ]

-- The arguments that `request_launch` hands to `claim`.
unfoldable pub claim_of : ℕ → Request → Fresh → Claim
claim_of duration q fresh = record {
  launch_id = fresh.launch_id;
  canonical_key = q.canonical_key;
  surface = q.surface;
  owner_type = q.owner_type;
  owner_id = q.owner_id;
  lease_expires_at = fresh.leased_at + duration;
  role = some (effective_role q);
  parent_launch_id = q.parent_launch_id;
  model = q.model;
}

-- `launch.tmux_pane_id is not None and launch.tmux_pane_id not in alive_panes`
unfoldable pub lost_pane : List String → AgentLaunch → Bool
lost_pane panes launch = elim launch.tmux_pane_id [
  | none ↦ false
  | some pane ↦ not (any (str_eq pane) panes)
]

module _ {S : Type 0} (registry : LaunchRegistry S) where
  open registry use {
    claim, get_by_launch_id, find_active_by_canonical_key, cas_update_status, list_by_status,
    list_expired_leases,
  }

  -- A move to `target` of the launch that was read, if the transition map has it.
  unfoldable pub move_from : String → AgentLaunch → LaunchStatus → CasFields → ℕ → Exec S Bool
  move_from launch_id launch target fields now =
      if can_transition_to launch target
      then cas_update_status launch_id launch.status target fields now
      else pure false

  unfoldable pub confirm_spawning : String → ℕ → Exec S Bool
  confirm_spawning launch_id now = cas_update_status launch_id reserved spawning no_fields now

  unfoldable pub confirm_active : String → Handle → ℕ → Exec S Bool
  confirm_active launch_id handle now =
      cas_update_status launch_id spawning active (handle_fields handle) now

  unfoldable pub unless_terminal :
      String → Option AgentLaunch → LaunchStatus → CasFields → ℕ → Exec S Bool
  unless_terminal launch_id none target fields now = pure false
  unless_terminal launch_id (some launch) target fields now =
      if is_terminal launch then pure false else move_from launch_id launch target fields now

  unfoldable pub mark_failed : String → String → ℕ → Exec S Bool
  mark_failed launch_id message now = do
    found ← get_by_launch_id launch_id
    unless_terminal launch_id found failed (record no_fields { error = some message }) now

  unfoldable pub if_found : String → Option AgentLaunch → LaunchStatus → CasFields → ℕ → Exec S Bool
  if_found launch_id none target fields now = pure false
  if_found launch_id (some launch) target fields now = move_from launch_id launch target fields now

  unfoldable pub begin_termination : String → ℕ → Exec S Bool
  begin_termination launch_id now = do
    found ← get_by_launch_id launch_id
    if_found launch_id found terminating no_fields now

  unfoldable pub confirm_terminated : String → ℕ → Exec S Bool
  confirm_terminated launch_id now =
      cas_update_status launch_id terminating terminated no_fields now

  unfoldable pub quarantine : String → QuarantineReason → ℕ → Exec S Bool
  quarantine launch_id reason now = do
    found ← get_by_launch_id launch_id
    unless_terminal launch_id found quarantined
        (record no_fields { quarantine_reason = some reason }) now

  -- The loop of the two reconcilers: quarantine each launch, return those where it took effect.
  unfoldable pub sweep :
      (AgentLaunch → QuarantineReason) → List AgentLaunch → ℕ → Exec S (List AgentLaunch)
  sweep reason [] now = pure []
  sweep reason (launch ∷ launches) now = do
    done ← quarantine launch.launch_id (reason launch) now
    rest ← sweep reason launches now
    pure (if done then launch ∷ rest else rest)

  unfoldable pub reconcile_expired_leases : ℕ → Exec S (List AgentLaunch)
  reconcile_expired_leases now = do
    expired ← list_expired_leases now
    sweep (λ launch. lease_expired_at launch.lease_expires_at) expired now

  -- The rest of `reconcile_lost_panes`, on the ACTIVE launches.
  unfoldable pub sweep_panes :
      Option (List String) → ℕ → List AgentLaunch → Exec S (List AgentLaunch)
  sweep_panes none now launches = pure []
  sweep_panes (some panes) now launches =
      sweep (λ _. reason_text "pane_lost") (select (lost_pane panes) launches) now

  -- `alive` is the answer of tmux: the pane ids, or None where tmux is not available.
  unfoldable pub reconcile_lost_panes : Option (List String) → ℕ → Exec S (List AgentLaunch)
  reconcile_lost_panes alive now = do
    launches ← list_by_status active
    sweep_panes alive now launches

  unfoldable pub list_active_launches : Exec S (List AgentLaunch)
  list_active_launches = do
    in_reserved ← list_by_status reserved
    in_spawning ← list_by_status spawning
    in_active ← list_by_status active
    in_terminating ← list_by_status terminating
    pure (
        order_desc (λ launch. or_zero launch.created_at)
          (in_reserved ++ (in_spawning ++ (in_active ++ in_terminating))))

  -- The end of a round of `walk`: `next` goes on with the ancestor's parent.
  abbrev pub walk_on :
      (Option String → Exec S (Option LineageError))
      → Option AgentLaunch
      → Exec S (Option LineageError)
  walk_on next none = pure none
  walk_on next (some ancestor) = next ancestor.parent_launch_id

  -- A round of `walk` at `id`, after the test whether it was visited.
  abbrev pub walk_step :
      (Option String → Exec S (Option LineageError)) → String → Bool → Exec S (Option LineageError)
  walk_step next id true = pure (some cycle_detected)
  walk_step next id false = do ancestor ← get_by_launch_id id; walk_on next ancestor

  -- The loop of `_validate_parent_launch_id`; `room` is how many more ancestors may be visited
  -- before the depth reaches its limit. The result is None for a valid chain.
  unfoldable pub walk : ℕ → List String → Option String → Exec S (Option LineageError)
  walk zero visited none = pure none
  walk zero visited (some id) = pure (some too_deep)
  walk (suc room) visited none = pure none
  walk (suc room) visited (some id) = walk_step (walk room (id ∷ visited)) id (visits id visited)

  -- What follows the look-up of the parent.
  abbrev pub walk_from : String → String → Option AgentLaunch → Exec S (Option LineageError)
  walk_from parent_launch_id proposed none = pure (some not_found)
  walk_from parent_launch_id proposed (some parent) =
      walk (max_lineage_depth - 2) (proposed ∷ parent_launch_id ∷ []) parent.parent_launch_id

  unfoldable pub validate_parent_launch_id : String → String → Exec S (Option LineageError)
  validate_parent_launch_id parent_launch_id proposed =
      if str_eq parent_launch_id proposed
      then pure (some self_referential)
      else do parent ← get_by_launch_id parent_launch_id; walk_from parent_launch_id proposed parent

  unfoldable pub quarantine_expired : AgentLaunch → ℕ → Exec S Bool
  quarantine_expired launch now =
      if is_in launch.status (reserved ∷ spawning ∷ [])
      then quarantine launch.launch_id (lease_expired_at launch.lease_expires_at) now
      else pure false

  -- `if parent_launch_id is not None: …`
  unfoldable pub check_parent : Option String → String → Exec S (Option LineageError)
  check_parent none launch_id = pure none
  check_parent (some parent) launch_id = validate_parent_launch_id parent launch_id

  -- What is returned after `claim`.
  unfoldable pub answer_claim : String → Option AgentLaunch → Exec S LaunchAttempt
  answer_claim key (some launch) = pure (claimed_attempt launch)
  answer_claim key none = do
    winner ← find_active_by_canonical_key key
    pure (suppressed_attempt winner concurrent_claim)

  -- What follows the lineage check.
  abbrev pub claim_on : ℕ → Request → Fresh → Option LineageError → Exec S LaunchAttempt
  claim_on duration q fresh (some e) = pure (error_attempt (bad_parent e))
  claim_on duration q fresh none = do
    result ← claim (claim_of duration q fresh) fresh.stamped_at
    answer_claim q.canonical_key result

  -- From the role on: lineage, claim, answer.
  unfoldable pub claim_slot : ℕ → Request → Fresh → Exec S LaunchAttempt
  claim_slot duration q fresh = do
    refused ← check_parent q.parent_launch_id fresh.launch_id
    claim_on duration q fresh refused

  -- What follows the first look at the registry.
  unfoldable pub after_look : ℕ → Request → Fresh → Option AgentLaunch → Exec S LaunchAttempt
  after_look duration q fresh none = claim_slot duration q fresh
  after_look duration q fresh (some existing) =
      if lease_is_valid existing fresh.tested_at
      then pure
          (suppressed_attempt (some existing) (active_launch existing.launch_id existing.status))
      else do quarantine_expired existing fresh.tested_at; claim_slot duration q fresh

  -- The body of the `try`.
  unfoldable pub try_launch : ℕ → Request → Fresh → Exec S LaunchAttempt
  try_launch duration q fresh = do
    existing ← find_active_by_canonical_key q.canonical_key
    after_look duration q fresh existing

  -- `duration` is the service's lease duration. Any exception fails closed.
  unfoldable pub request_launch : ℕ → Request → Fresh → Exec S LaunchAttempt
  request_launch duration q fresh s =
      let (result, s') = try_launch duration q fresh s in (ok (fail_closed result), s')
