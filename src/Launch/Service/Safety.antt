-- ===== src/Launch/Service/Safety.antt =====
-- What any sequence of calls of the lifecycle service, in any order and with any arguments, does to
-- the SQLite registry. Each call is one step, as it is under SQLite's transactions where a call has
-- one statement that writes; a call that writes twice is taken as a whole.
use fork_agent.Prelude.{
  ℕ, String, true, Option, List, [], ◌∷◌, ◌≡◌, ◌≤◌, some, ap, ◌∙◌, Preorder, count_where, find_key,
}
use fork_agent.Launch.Entity.{AgentLaunch, QuarantineReason, is_terminal}
use fork_agent.Launch.Registry.{
  Table, launch_key, holds_key, get_by_launch_id, find_active_by_canonical_key, list_by_status,
  list_expired_leases, sqlite,
}
use fork_agent.Launch.Registry.Unique.{IsUnique, claim-IsUnique, cas_update_status-IsUnique}
use fork_agent.Launch.Registry.Advance.{
  Advances, Evolves, Evolves-refl, Evolves-trans, claim-Evolves, cas_update_status-Evolves,
  Advances-terminal,
}
use fork_agent.Launch.Service.{
  Request, Fresh, Handle, confirm_spawning, confirm_active, mark_failed, begin_termination,
  confirm_terminated, quarantine, reconcile_expired_leases, reconcile_lost_panes, request_launch,
}
use fork_agent.Launch.Service.Follows.{
  Obeys, confirm_spawning-Follows, confirm_active-Follows, mark_failed-Follows,
  begin_termination-Follows, confirm_terminated-Follows, quarantine-Follows,
  reconcile_expired_leases-Follows, reconcile_lost_panes-Follows, request_launch-Follows,
}

-- The calls of the service that write, with their arguments and what they read from outside.
pub data Call : Type 0 where
  request : ℕ → Request → Fresh → Call
  spawning : String → ℕ → Call
  activated : String → Handle → ℕ → Call
  failing : String → String → ℕ → Call
  terminating : String → ℕ → Call
  terminated : String → ℕ → Call
  quarantining : String → QuarantineReason → ℕ → Call
  expiring : ℕ → Call
  losing : Option (List String) → ℕ → Call

-- The registry after one call, whatever the call returns or raises.
unfoldable pub perform : Call → Table → Table
perform (request duration q fresh) rows = (request_launch sqlite duration q fresh rows).1
perform (spawning id now) rows = (confirm_spawning sqlite id now rows).1
perform (activated id h now) rows = (confirm_active sqlite id h now rows).1
perform (failing id message now) rows = (mark_failed sqlite id message now rows).1
perform (terminating id now) rows = (begin_termination sqlite id now rows).1
perform (terminated id now) rows = (confirm_terminated sqlite id now rows).1
perform (quarantining id reason now) rows = (quarantine sqlite id reason now rows).1
perform (expiring now) rows = (reconcile_expired_leases sqlite now rows).1
perform (losing alive now) rows = (reconcile_lost_panes sqlite alive now rows).1

unfoldable pub run : List Call → Table → Table
unfolding perform
run [] rows = rows
run (c ∷ cs) rows = run cs (perform c rows)

module _ (R : Preorder Table) (laws : Obeys sqlite R) where
  perform-follows : (c : Call) (rows : Table) → R.rel rows (perform c rows)
  unfolding perform
  perform-follows (request duration q fresh) =
      (request_launch-Follows sqlite R laws duration q fresh).at
  perform-follows (spawning id now) = (confirm_spawning-Follows sqlite R laws id now).at
  perform-follows (activated id h now) = (confirm_active-Follows sqlite R laws id h now).at
  perform-follows (failing id message now) = (mark_failed-Follows sqlite R laws id message now).at
  perform-follows (terminating id now) = (begin_termination-Follows sqlite R laws id now).at
  perform-follows (terminated id now) = (confirm_terminated-Follows sqlite R laws id now).at
  perform-follows (quarantining id reason now) = (quarantine-Follows sqlite R laws id reason now).at
  perform-follows (expiring now) = (reconcile_expired_leases-Follows sqlite R laws now).at
  perform-follows (losing alive now) = (reconcile_lost_panes-Follows sqlite R laws alive now).at

  run-follows : (cs : List Call) (rows : Table) → R.rel rows (run cs rows)
  unfolding run
  run-follows [] rows = R.rel_refl rows
  run-follows (c ∷ cs) rows =
      R.rel_trans rows (perform c rows) _ (perform-follows c rows) (run-follows cs (perform c rows))

abbrev pub unique_order : Preorder Table
unique_order = record {
  rel = λ s t. IsUnique s → IsUnique t;
  rel_refl = λ s u. u;
  rel_trans = λ s t v f g u. g (f u);
}

pub unique_laws : Obeys sqlite unique_order
unfolding get_by_launch_id find_active_by_canonical_key list_by_status list_expired_leases
unique_laws = record {
  claims = λ c now. record { at = claim-IsUnique c now };
  swaps = λ id s t f now _. record { at = cas_update_status-IsUnique id s t f now };
  gets = λ id. record { at = λ s u. u };
  finds = λ key. record { at = λ s u. u };
  lists = λ status. record { at = λ s u. u };
  expires = λ now. record { at = λ s u. u };
}

abbrev pub evolve_order : Preorder Table
evolve_order = record { rel = Evolves; rel_refl = Evolves-refl; rel_trans = Evolves-trans }

pub evolve_laws : Obeys sqlite evolve_order
unfolding get_by_launch_id find_active_by_canonical_key list_by_status list_expired_leases
evolve_laws = record {
  claims = λ c now. record { at = claim-Evolves c now };
  swaps = λ id s t f now h. record { at = λ s'. cas_update_status-Evolves id s t f now s' h };
  gets = λ id. record { at = Evolves-refl };
  finds = λ key. record { at = Evolves-refl };
  lists = λ status. record { at = Evolves-refl };
  expires = λ now. record { at = Evolves-refl };
}

-- From a registry whose unique constraints hold, after any calls of the service at most one launch
-- of each canonical key is RESERVED, SPAWNING, ACTIVE or TERMINATING.
pub one_launch_per_key :
    (cs : List Call) (rows : Table) (key : String)
    → IsUnique rows
    → count_where (holds_key key) (run cs rows) ≤ 1
one_launch_per_key cs rows key u = (run-follows unique_order unique_laws cs rows u).keys key

run-Evolves : (cs : List Call) (rows : Table) → Evolves rows (run cs rows)
run-Evolves = run-follows evolve_order evolve_laws

-- Any calls of the service keep every launch record that the registry holds, with its origin
-- unchanged, and take its status only along the transition map.
pub launches_follow_transitions :
    (cs : List Call) (rows : Table) (id : String) (l : AgentLaunch)
    → find_key launch_key id rows ≡ some l
    → (m : AgentLaunch) × (find_key launch_key id (run cs rows) ≡ some m) × Advances l m
launches_follow_transitions cs rows id l found = run-Evolves cs rows id l found

-- A launch that is TERMINATED, FAILED or SUPPRESSED_DUPLICATE is left exactly as it is by any calls
-- of the service.
pub terminal_is_final :
    (cs : List Call) (rows : Table) (id : String) (l : AgentLaunch)
    → find_key launch_key id rows ≡ some l
    → is_terminal l ≡ true
    → find_key launch_key id (run cs rows) ≡ some l
terminal_is_final cs rows id l found ended =
    let (m, found', a) = run-Evolves cs rows id l found in
    found' ∙ ap some (Advances-terminal a ended)
