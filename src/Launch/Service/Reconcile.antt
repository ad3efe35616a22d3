-- ===== src/Launch/Service/Reconcile.antt =====
-- `reconcile_expired_leases` leaves no expired lease behind.
use mathlib.Core.Bool.{false≢true}
use fork_agent.Prelude.{
  ℕ, String, Bool, true, false, ◌&&◌, some, List, [], ◌∷◌, ◌≡◌, ◌∙◌, ok, pure, ◌>>=◌, arith,
  find_key, find_key-key, order_by, any-order_by, any-select, any-find_key, select, str_eq_iff,
  Bool-cases, inl, inr,
}
use fork_agent.Launch.Entity.{AgentLaunch, QuarantineReason, post_init_passes}
use fork_agent.Launch.Registry.{Table, launch_key, is_expired, list_expired_leases, sqlite}
use fork_agent.Launch.Registry.Unique.{has_id}
use fork_agent.Launch.Service.{quarantine, sweep, reconcile_expired_leases}
use fork_agent.Launch.Service.Quarantine.{IsClean, Pending, Cleared, quarantine-Effect}

-- Once the id at the head is cleared, the rest of the list covers what is pending.
Pending-tail :
    (now : ℕ) (l : AgentLaunch) (ls : List AgentLaunch) (rows rows' : Table)
    → Cleared now l.launch_id rows rows'
    → Pending now (l ∷ ls) rows
    → Pending now ls rows'
Pending-tail now l ls rows rows' c pending id r found expired =
    let (before, other) = c.others id r found expired in
    ground
      (arith, pending id r before expired, str_eq_iff id l.launch_id, str_eq_iff l.launch_id id)

-- No record that a look-up finds has an expired lease.
abbrev pub NoneExpired : ℕ → Table → Type 0
NoneExpired now rows =
    (id : String) (r : AgentLaunch)
    → find_key launch_key id rows ≡ some r
    → is_expired now r ≡ false

-- The table of a sweep whose first quarantine returns is that of the rest of the sweep.
sweep_rest :
    (reason : AgentLaunch → QuarantineReason) (l : AgentLaunch) (ls : List AgentLaunch) (now : ℕ)
    (rows : Table) (done : Bool)
    → (quarantine sqlite l.launch_id (reason l) now rows).0 ≡ ok done
    → (sweep sqlite reason (l ∷ ls) now rows).1
      ≡ (sweep sqlite reason ls now (quarantine sqlite l.launch_id (reason l) now rows).1).1
unfolding sweep ◌>>=◌
sweep_rest reason l ls now rows done e = rw e (ground arith)

sweep_clears :
    (reason : AgentLaunch → QuarantineReason) (ls : List AgentLaunch) (now : ℕ) (rows : Table)
    → IsClean rows
    → Pending now ls rows
    → NoneExpired now (sweep sqlite reason ls now rows).1
sweep_clears reason [] now rows clean pending =
    unfold sweep pure in
    λ id r found. elim (Bool-cases (is_expired now r)) [
      | inl e ↦ absurd (false≢true (pending id r found e))
      | inr e ↦ e
    ]
sweep_clears reason (l ∷ ls) now rows clean pending =
    let ((done, e), c) = quarantine-Effect l.launch_id (reason l) now rows clean in
    rw (sweep_rest reason l ls now rows done e)
      (sweep_clears reason ls now _ c.clean (Pending-tail now l ls rows _ c pending))

-- The ids of the listed launches cover the records with an expired lease.
listed-Pending :
    (now : ℕ) (rows : Table) (precedes : AgentLaunch → AgentLaunch → Bool)
    → IsClean rows
    → Pending now (select post_init_passes (order_by precedes (select (is_expired now) rows))) rows
listed-Pending now rows precedes clean id r found expired =
    any-select (has_id id) post_init_passes _
    ∙ (any-order_by _ precedes (select (is_expired now) rows)
        ∙ (any-select _ (is_expired now) rows ∙ any-find_key launch_key _ id rows r found chosen))
  where
    chosen : (is_expired now r && (post_init_passes r && has_id id r)) ≡ true
    chosen = ground (
      arith,
      expired,
      clean id r found,
      find_key-key launch_key id rows r found,
      str_eq_iff r.launch_id id,
    )

-- After `reconcile_expired_leases` at a time, no launch that a look-up finds is RESERVED or SPAWNING
-- with a lease that is past at that time, if the records passed the entity's checks before.
pub reconcile_leaves_no_expired :
    (now : ℕ) (rows : Table) (id : String) (r : AgentLaunch)
    → IsClean rows
    → find_key launch_key id (reconcile_expired_leases sqlite now rows).1 ≡ some r
    → is_expired now r ≡ false
unfolding reconcile_expired_leases list_expired_leases ◌>>=◌
reconcile_leaves_no_expired now rows id r clean found =
    sweep_clears _ _ now rows clean (listed-Pending now rows _ clean) id r found
