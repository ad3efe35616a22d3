-- ===== src/Launch/Service/Follows.antt =====
-- Every operation of the lifecycle service, over any registry: if reading leaves the store alone,
-- and claiming and the compare-and-swap of an allowed transition follow a relation, then so does
-- the operation. The theorems about the SQLite registry are instances.
use fork_agent.Prelude.{
  ℕ, zero, suc, String, Bool, true, false, Option, none, some, List, [], ◌∷◌, ◌≡◌, refl, Exec,
  Preorder, Follows, follow_rules, Follows-bind,
}
use fork_agent.Launch.Entity.{
  LaunchStatus, reserved, spawning, active, terminating, terminated, is_in, valid_transitions,
  QuarantineReason, AgentLaunch, can_transition_to,
}
use fork_agent.Launch.Registry.{Claim, CasFields, LaunchRegistry}
use fork_agent.Launch.Service.{
  Request, Fresh, Handle, confirm_spawning, confirm_active, mark_failed, begin_termination,
  confirm_terminated, quarantine, sweep, reconcile_expired_leases, reconcile_lost_panes, walk,
  validate_parent_launch_id, request_launch, move_from, unless_terminal, if_found, LineageError,
  visits, sweep_panes, walk_on, walk_step, walk_from, claim_on, quarantine_expired, check_parent,
  answer_claim, claim_slot, after_look, try_launch,
}

-- The transition map, as a test on two statuses.
abbrev pub Allowed : LaunchStatus → LaunchStatus → Type 0
Allowed s t = is_in t (valid_transitions s) ≡ true

module _ {S : Type 0} (registry : LaunchRegistry S) (R : Preorder S) where
  open registry use {
    claim, get_by_launch_id, find_active_by_canonical_key, cas_update_status, list_by_status,
    list_expired_leases,
  }

  -- What a registry owes.
  pub record Obeys : Type 0 where
    pub claims : (c : Claim) (now : ℕ) → Follows R (claim c now)
    pub swaps :
        (id : String) (s t : LaunchStatus) (f : CasFields) (now : ℕ)
        → Allowed s t
        → Follows R (cas_update_status id s t f now)
    pub gets : (id : String) → Follows R (get_by_launch_id id)
    pub finds : (key : String) → Follows R (find_active_by_canonical_key key)
    pub lists : (s : LaunchStatus) → Follows R (list_by_status s)
    pub expires : (now : ℕ) → Follows R (list_expired_leases now)

module _ {S : Type 0} (registry : LaunchRegistry S) (R : Preorder S) (laws : Obeys registry R) where
  open laws use {claims, swaps, gets, finds, lists, expires}

  move_from-Follows :
      (id : String) (l : AgentLaunch) (t : LaunchStatus) (f : CasFields) (now : ℕ)
      → Follows R (move_from registry id l t f now)
  unfolding move_from can_transition_to
  move_from-Follows id l t f now = search (follow_rules, swaps)

  unless_terminal-Follows :
      (id : String) (found : Option AgentLaunch) (t : LaunchStatus) (f : CasFields) (now : ℕ)
      → Follows R (unless_terminal registry id found t f now)
  unfolding unless_terminal
  unless_terminal-Follows id none t f now = search follow_rules
  unless_terminal-Follows id (some l) t f now = search (follow_rules, move_from-Follows)

  if_found-Follows :
      (id : String) (found : Option AgentLaunch) (t : LaunchStatus) (f : CasFields) (now : ℕ)
      → Follows R (if_found registry id found t f now)
  unfolding if_found
  if_found-Follows id none t f now = search follow_rules
  if_found-Follows id (some l) t f now = move_from-Follows id l t f now

  pub confirm_spawning-Follows :
      (id : String) (now : ℕ) → Follows R (confirm_spawning registry id now)
  unfolding confirm_spawning is_in
  confirm_spawning-Follows id now = swaps id reserved spawning _ now refl

  pub confirm_active-Follows :
      (id : String) (h : Handle) (now : ℕ) → Follows R (confirm_active registry id h now)
  unfolding confirm_active is_in
  confirm_active-Follows id h now = swaps id spawning active _ now refl

  pub mark_failed-Follows :
      (id message : String) (now : ℕ) → Follows R (mark_failed registry id message now)
  unfolding mark_failed
  mark_failed-Follows id message now = search (follow_rules, gets, unless_terminal-Follows)

  pub begin_termination-Follows :
      (id : String) (now : ℕ) → Follows R (begin_termination registry id now)
  unfolding begin_termination
  begin_termination-Follows id now = search (follow_rules, gets, if_found-Follows)

  pub confirm_terminated-Follows :
      (id : String) (now : ℕ) → Follows R (confirm_terminated registry id now)
  unfolding confirm_terminated is_in
  confirm_terminated-Follows id now = swaps id terminating terminated _ now refl

  pub quarantine-Follows :
      (id : String) (reason : QuarantineReason) (now : ℕ)
      → Follows R (quarantine registry id reason now)
  unfolding quarantine
  quarantine-Follows id reason now = search (follow_rules, gets, unless_terminal-Follows)

  pub sweep-Follows :
      (reason : AgentLaunch → QuarantineReason) (ls : List AgentLaunch) (now : ℕ)
      → Follows R (sweep registry reason ls now)
  unfolding sweep
  sweep-Follows reason [] now = search follow_rules
  sweep-Follows reason (l ∷ ls) now =
      Follows-bind _ _ (quarantine-Follows _ _ now)
        λ done. Follows-bind _ _ (sweep-Follows reason ls now) (λ rest. search follow_rules)

  pub reconcile_expired_leases-Follows :
      (now : ℕ) → Follows R (reconcile_expired_leases registry now)
  unfolding reconcile_expired_leases
  reconcile_expired_leases-Follows now = search (follow_rules, expires, sweep-Follows)

  sweep_panes-Follows :
      (alive : Option (List String)) (now : ℕ) (ls : List AgentLaunch)
      → Follows R (sweep_panes registry alive now ls)
  unfolding sweep_panes
  sweep_panes-Follows none now ls = search follow_rules
  sweep_panes-Follows (some panes) now ls = search sweep-Follows

  pub reconcile_lost_panes-Follows :
      (alive : Option (List String)) (now : ℕ) → Follows R (reconcile_lost_panes registry alive now)
  unfolding reconcile_lost_panes
  reconcile_lost_panes-Follows alive now = search (follow_rules, lists, sweep_panes-Follows)

  walk_on-Follows :
      (next : Option String → Exec S (Option LineageError)) (found : Option AgentLaunch)
      → ((parent : Option String) → Follows R (next parent))
      → Follows R (walk_on registry next found)
  walk_on-Follows next none h = search follow_rules
  walk_on-Follows next (some a) h = h a.parent_launch_id

  walk_step-Follows :
      (next : Option String → Exec S (Option LineageError)) (id : String) (seen : Bool)
      → ((parent : Option String) → Follows R (next parent))
      → Follows R (walk_step registry next id seen)
  walk_step-Follows next id true h = search follow_rules
  walk_step-Follows next id false h =
      Follows-bind _ _ (gets id) (λ found. walk_on-Follows next found h)

  walk-Follows :
      (room : ℕ) (visited : List String) (current : Option String)
      → Follows R (walk registry room visited current)
  unfolding walk
  walk-Follows zero visited none = search follow_rules
  walk-Follows zero visited (some id) = search follow_rules
  walk-Follows (suc room) visited none = search follow_rules
  walk-Follows (suc room) visited (some id) =
      walk_step-Follows _ id (visits id visited) (walk-Follows room (id ∷ visited))

  walk_from-Follows :
      (parent id : String) (found : Option AgentLaunch)
      → Follows R (walk_from registry parent id found)
  walk_from-Follows parent id none = search follow_rules
  walk_from-Follows parent id (some p) = walk-Follows _ _ p.parent_launch_id

  check_parent-Follows :
      (parent : Option String) (id : String) → Follows R (check_parent registry parent id)
  unfolding check_parent validate_parent_launch_id
  check_parent-Follows none id = search follow_rules
  check_parent-Follows (some parent) id = search (follow_rules, gets, walk_from-Follows)

  answer_claim-Follows :
      (key : String) (result : Option AgentLaunch) → Follows R (answer_claim registry key result)
  unfolding answer_claim
  answer_claim-Follows key (some l) = search follow_rules
  answer_claim-Follows key none = search (follow_rules, finds)

  claim_on-Follows :
      (duration : ℕ) (q : Request) (fresh : Fresh) (refused : Option LineageError)
      → Follows R (claim_on registry duration q fresh refused)
  claim_on-Follows duration q fresh (some e) = search follow_rules
  claim_on-Follows duration q fresh none = search (follow_rules, claims, answer_claim-Follows)

  claim_slot-Follows :
      (duration : ℕ) (q : Request) (fresh : Fresh)
      → Follows R (claim_slot registry duration q fresh)
  unfolding claim_slot
  claim_slot-Follows duration q fresh =
      search (follow_rules, check_parent-Follows, claim_on-Follows)

  quarantine_expired-Follows :
      (l : AgentLaunch) (now : ℕ) → Follows R (quarantine_expired registry l now)
  unfolding quarantine_expired
  quarantine_expired-Follows l now = search (follow_rules, quarantine-Follows)

  after_look-Follows :
      (duration : ℕ) (q : Request) (fresh : Fresh) (existing : Option AgentLaunch)
      → Follows R (after_look registry duration q fresh existing)
  unfolding after_look
  after_look-Follows duration q fresh none = claim_slot-Follows duration q fresh
  after_look-Follows duration q fresh (some l) =
      search (follow_rules, quarantine_expired-Follows, claim_slot-Follows)

  pub request_launch-Follows :
      (duration : ℕ) (q : Request) (fresh : Fresh)
      → Follows R (request_launch registry duration q fresh)
  unfolding request_launch try_launch
  request_launch-Follows duration q fresh = record {
    at = (Follows-bind _ _ (finds q.canonical_key) (after_look-Follows duration q fresh)).at;
  }
