-- ===== src/Poll/History/Launches.antt =====
-- What polling does to the registry of launches: only what the lifecycle service does.
use fork_agent.Prelude.{
  Option, free_order, String, true, some, List, ◌≡◌, ◌≤◌, Preorder, Follows, Follows-bind,
  count_where, find_key, ◌>>=◌,
}
use fork_agent.Launch.Entity.{AgentLaunch, is_terminal}
use fork_agent.Launch.Registry.{sqlite, launch_key, holds_key}
use fork_agent.Launch.Registry.{Table as LaunchTable}
use fork_agent.Launch.Registry.Unique.{IsUnique}
use fork_agent.Launch.Registry.Advance.{Advances, Advances-terminal}
use fork_agent.Launch.Service.Follows.{Obeys}
use fork_agent.Launch.Service.Safety.{unique_order, unique_laws, evolve_order, evolve_laws}
use fork_agent.Task.Board.{Gate}
use fork_agent.Poll.World.{World, new_uuid, save_run, on_runs}
use fork_agent.Poll.Host.{Service, Host}
use fork_agent.Poll.Spawn.{spawn_with, record_metadata}
use fork_agent.Poll.Frame.{Frame, new_uuid-Follows, stamped-Follows}
use fork_agent.Poll.Spawn.Follows.{spawn_with-Follows}
use fork_agent.Poll.History.{Call, run, run-follows}

module _ (L : Preorder LaunchTable) (laws : Obeys sqlite L) where
  -- A relation of launch tables, between worlds.
  abbrev launches_order : Preorder World
  launches_order = record {
    rel = λ v w. L.rel v.launches w.launches;
    rel_refl = λ w. L.rel_refl w.launches;
    rel_trans = λ u v w. L.rel_trans u.launches v.launches w.launches;
  }

  launches-Frame : {gate : Option Gate} → Frame gate launches_order
  unfolding on_runs
  launches-Frame = record {
    launch_order = L;
    obeys = laws;
    task_order = free_order;
    starts = λ id owner requested_by now. record { at = λ s. tt };
    completes = λ id requested_by now. record { at = λ s. tt };
    retries = λ id. record { at = λ s. tt };
    lists = λ status. record { at = λ s. tt };
    launches = λ w t r. r;
    tasks = λ w t r. L.rel_refl w.launches;
    dirs = λ w ds. L.rel_refl w.launches;
    signals = λ w ss. L.rel_refl w.launches;
    clock = λ w. L.rel_refl w.launches;
    mint = λ w. L.rel_refl w.launches;
    updates = λ id status error now. record { at = λ w. L.rel_refl w.launches };
  }

  launches_mints :
      (s : Service) (h : Host) (task_id : String)
      → Follows launches_order (new_uuid >>= spawn_with s h task_id)
  unfolding record_metadata save_run on_runs
  launches_mints s h task_id =
      Follows-bind _ _ (new_uuid-Follows launches_order {gate = s.gate} launches-Frame) λ id.
        spawn_with-Follows launches_order s launches-Frame id
          (λ handle launch_id.
            stamped-Follows launches_order {gate = s.gate} launches-Frame _
              λ now. record { at = λ w. L.rel_refl w.launches })
          (λ run same. record { at = λ w. L.rel_refl w.launches }) h task_id

  launches_follow :
      (s : Service) (h : Host) (cs : List Call) (w : World)
      → L.rel w.launches (run s h cs w).launches
  launches_follow s h cs w = run-follows launches_order s launches-Frame h (launches_mints s h) cs w

-- From a registry whose unique constraints hold, after any calls of the polling service at most one
-- launch of each canonical key is RESERVED, SPAWNING, ACTIVE or TERMINATING.
pub polling_one_launch_per_key :
    (s : Service) (h : Host) (cs : List Call) (w : World) (key : String)
    → IsUnique w.launches
    → count_where (holds_key key) (run s h cs w).launches ≤ 1
polling_one_launch_per_key s h cs w key u =
    (launches_follow unique_order unique_laws s h cs w u).keys key

-- Any calls of the polling service keep every launch record that the registry holds, with its
-- origin unchanged, and take its status only along the transition map; a launch that has ended is
-- left exactly as it is.
pub polling_follows_launch_transitions :
    (s : Service) (h : Host) (cs : List Call) (w : World) (id : String) (l : AgentLaunch)
    → find_key launch_key id w.launches ≡ some l
    → (m : AgentLaunch) × (find_key launch_key id (run s h cs w).launches ≡ some m)
      × Advances l m
      × (is_terminal l ≡ true → m ≡ l)
polling_follows_launch_transitions s h cs w id l found =
    let (m, found', a) = launches_follow evolve_order evolve_laws s h cs w id l found in
    (m, found', a, Advances-terminal a)
