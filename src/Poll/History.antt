-- ===== src/Poll/History.antt =====
-- Sequences of calls of the polling service, in any order and whether they raise or not. Each call
-- is taken as a whole; nobody else writes in between.
pub mod Launches
pub mod Tasks
pub mod Places
pub mod Runs
use fork_agent.Prelude.{String, List, [], ◌∷◌, Preorder, Follows, Exec}
use fork_agent.Poll.World.{World, new_uuid}
use fork_agent.Poll.Host.{Service, Host}
use fork_agent.Poll.Stop.{cancel_run}
use fork_agent.Poll.Spawn.{spawn_with}
use fork_agent.Poll.Cycle.{poll_once, check_runs}
use fork_agent.Poll.Frame.{Frame}
use fork_agent.Poll.Follows.{cancel_run-Follows, check_runs-Follows}
use fork_agent.Poll.Cycle.Follows.{poll_once-Follows}
use fork_agent.Prelude.{◌>>=◌}

-- The calls that write.
pub data Call : Type 0 where
  polling : Call
  checking : Call
  cancelling : String → Call

unfoldable pub perform : Service → Host → Call → World → World
perform s h polling w = (poll_once s h w).1
perform s h checking w = (check_runs s h w).1
perform s h (cancelling id) w = (cancel_run h id w).1

unfoldable pub run : Service → Host → List Call → World → World
unfolding perform
run s h [] w = w
run s h (c ∷ cs) w = run s h cs (perform s h c w)

module _ (R : Preorder World) (s : Service) (frame : Frame s.gate R) (h : Host)
    (mints : (task_id : String) → Follows R (new_uuid >>= spawn_with s h task_id)) where
  perform-follows : (c : Call) (w : World) → R.rel w (perform s h c w)
  unfolding perform
  perform-follows polling = (poll_once-Follows R s frame h mints).at
  perform-follows checking = (check_runs-Follows R frame s h).at
  perform-follows (cancelling id) = (cancel_run-Follows R frame h id).at

  pub run-follows : (cs : List Call) (w : World) → R.rel w (run s h cs w)
  unfolding run
  run-follows [] w = R.rel_refl w
  run-follows (c ∷ cs) w = R.rel_trans w _ _ (perform-follows c w) (run-follows cs _)
