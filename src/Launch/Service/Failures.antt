-- ===== src/Launch/Service/Failures.antt =====
-- What an exception of the registry becomes, at each of the calls that a request makes of it.
use fork_agent.Prelude.{ℕ, ◌+◌, ◌≤◌, String, none, some, ◌≡◌, ◌≢◌, ◌⊎◌, Exn, ok, err}
use fork_agent.Launch.Entity.{reserved, spawning, AgentLaunch}
use fork_agent.Launch.Registry.{Claim, LaunchRegistry}
use fork_agent.Launch.Service.{Request, Fresh, default_role}

-- What a request asks the registry to claim.
abbrev pub asked : ℕ → Request → Fresh → Claim
asked duration q f = record {
  launch_id = f.launch_id;
  canonical_key = q.canonical_key;
  surface = q.surface;
  owner_type = q.owner_type;
  owner_id = q.owner_id;
  lease_expires_at = f.leased_at + duration;
  role = some (elim q.role as (λ _. String) [ some role ↦ role | none ↦ default_role q.surface ]);
  parent_launch_id = q.parent_launch_id;
  model = q.model;
}

-- The lease has run out.
abbrev pub HasLapsed : AgentLaunch → ℕ → Type 0
HasLapsed l now = (t : ℕ) × (l.lease_expires_at ≡ some t) × (t ≤ now)

module _ {S : Type 0} (registry : LaunchRegistry S) (duration : ℕ) (q : Request) (f : Fresh) where
  open registry use {claim, get_by_launch_id, find_active_by_canonical_key}

  -- A request that begins in `s` comes to a call of the registry that raises `e` and leaves `s'`: the
  -- look-up of the key, that of a launch before it is put under quarantine, that of the parent, the
  -- claim, or the look-up of the launch that was there first.
  pub data Meets (s : S) (e : Exn) (s' : S) : Type 0 where
    looking : find_active_by_canonical_key q.canonical_key s ≡ (err e, s') → Meets s e s'
    setting_aside :
        (s₁ : S) (l : AgentLaunch)
        → find_active_by_canonical_key q.canonical_key s ≡ (ok (some l), s₁)
        → HasLapsed l f.tested_at
        → (l.status ≡ reserved) ⊎ (l.status ≡ spawning)
        → get_by_launch_id l.launch_id s₁ ≡ (err e, s')
        → Meets s e s'
    tracing :
        (s₁ : S) (parent : String)
        → find_active_by_canonical_key q.canonical_key s ≡ (ok none, s₁)
        → q.parent_launch_id ≡ some parent
        → parent ≢ f.launch_id
        → get_by_launch_id parent s₁ ≡ (err e, s')
        → Meets s e s'
    claiming :
        (s₁ : S)
        → find_active_by_canonical_key q.canonical_key s ≡ (ok none, s₁)
        → q.parent_launch_id ≡ none
        → claim (asked duration q f) f.stamped_at s₁ ≡ (err e, s')
        → Meets s e s'
    losing :
        (s₁ s₂ : S)
        → find_active_by_canonical_key q.canonical_key s ≡ (ok none, s₁)
        → q.parent_launch_id ≡ none
        → claim (asked duration q f) f.stamped_at s₁ ≡ (ok none, s₂)
        → find_active_by_canonical_key q.canonical_key s₂ ≡ (err e, s')
        → Meets s e s'
