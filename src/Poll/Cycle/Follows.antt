-- ===== src/Poll/Cycle/Follows.antt =====
-- `poll_once` follows each relation that has the laws of a frame and that the making of a run under
-- a new id follows.
use fork_agent.Prelude.{
  ℕ, String, List, [], ◌∷◌, Preorder, Follows, follow_rules, Follows-bind, ◌>>=◌,
}
use fork_agent.Task.Entity.{OrchestrationTask}
use fork_agent.Poll.Entity.{PollRun}
use fork_agent.Poll.World.{World, new_uuid}
use fork_agent.Poll.Host.{Service, Host}
use fork_agent.Poll.Spawn.{spawn_with, spawn_run}
use fork_agent.Poll.Cycle.{spawn_each, fill, fill_up, poll_once}
use fork_agent.Poll.Frame.{Frame, on_tasks-Follows, now_ms-Follows, list_launch_blocking-Follows}
use fork_agent.Poll.Follows.{reconcile-Follows, candidates-Follows}

module _ (R : Preorder World) (s : Service) (frame : Frame s.gate R) (h : Host)
    (mints : (task_id : String) → Follows R (new_uuid >>= spawn_with s h task_id)) where
  spawn_run-Follows : (task_id : String) → Follows R (spawn_run s h task_id)
  unfolding spawn_run
  spawn_run-Follows task_id = Follows-bind _ _ (now_ms-Follows R frame) λ _. mints task_id

  spawn_each-Follows : (ts : List OrchestrationTask) → Follows R (spawn_each s h ts)
  unfolding spawn_each
  spawn_each-Follows [] = search follow_rules
  spawn_each-Follows (t ∷ ts) =
      Follows-bind _ _ (spawn_run-Follows t.id)
        λ _. Follows-bind _ _ (spawn_each-Follows ts) λ _. search follow_rules

  fill-Follows : (n : ℕ) (blocking : List PollRun) → Follows R (fill s h n blocking)
  unfolding fill
  fill-Follows n blocking = Follows-bind _ _ (on_tasks-Follows R frame _ (frame.lists _)) λ tasks.
      Follows-bind _ _ (candidates-Follows R frame s blocking tasks) λ chosen. spawn_each-Follows _

  fill_up-Follows : (blocking : List PollRun) → Follows R (fill_up s h blocking)
  unfolding fill_up
  fill_up-Follows blocking = search (follow_rules, fill-Follows)

  pub poll_once-Follows : Follows R (poll_once s h)
  unfolding poll_once
  poll_once-Follows =
      Follows-bind _ _ (reconcile-Follows R frame s)
        λ _. Follows-bind _ _ (list_launch_blocking-Follows R frame) fill_up-Follows
