-- ===== src/Poll/Frame.antt =====
-- Every method of the polling service: if the statements that it is made of follow a relation
-- between worlds, then so does the method. The theorems on runs, launches and tasks are instances.
use fork_agent.Prelude.{
  ℕ, suc, String, Bool, true, false, Option, none, some, List, Exec, Result, Preorder, Follows,
  follow_rules, Follows-bind, if◌then◌else◌,
}
use fork_agent.Launch.Registry.{sqlite}
use fork_agent.Launch.Registry.{Table as LaunchTable}
use fork_agent.Launch.Service.Follows.{Obeys}
use fork_agent.Task.Entity.{OrchestrationTaskStatus}
use fork_agent.Task.Repository.{Table as TaskTable}
use fork_agent.Task.Board.{Gate, start, complete, retry, list_tasks}
use fork_agent.Poll.Entity.{PollRun, PollRunStatus}
use fork_agent.Poll.Repository.{
  LaunchHandle, get_by_id, update_status, list_active, list_launch_blocking,
}
use fork_agent.Poll.World.{
  World, RunDir, RunStatus, Event, Signal, Target, on_runs, on_tasks, on_launches, now_ms, new_uuid,
  send, create_run_dir, write_status, read_status, append_event, read_events, suppressed, swallowed,
}
use fork_agent.Poll.Host.{
  Host, lifted, stamped, get_run, update_run, require_run, or_missing, note, signal,
  terminate_target, terminate_process, terminate_launch_handle,
}

-- What a relation between worlds owes: the statements on the launches and on the tasks follow
-- relations on those tables that it contains, for the board under one gate; what the service writes elsewhere, and the change of
-- a run's status, are in it.
pub record Frame (gate : Option Gate) (R : Preorder World) : Type 1 where
  pub launch_order : Preorder LaunchTable
  pub obeys : Obeys sqlite launch_order
  pub task_order : Preorder TaskTable
  pub starts :
      (id owner : String) (requested_by : Option String) (now : ℕ)
      → Follows task_order (start gate id owner requested_by now)
  pub completes :
      (id : String) (requested_by : Option String) (now : ℕ)
      → Follows task_order (complete id requested_by now)
  pub retries : (id : String) → Follows task_order (retry id)
  pub lists :
      (status : OrchestrationTaskStatus) → Follows task_order (list_tasks (some status) none false)
  pub launches :
      (w : World) (t : LaunchTable)
      → launch_order.rel w.launches t
      → R.rel w (record w { launches = t })
  pub tasks :
      (w : World) (t : TaskTable) → task_order.rel w.tasks t → R.rel w (record w { tasks = t })
  pub dirs : (w : World) (ds : List RunDir) → R.rel w (record w { dirs = ds })
  pub signals : (w : World) (ss : List Signal) → R.rel w (record w { signals = ss })
  pub clock : (w : World) → R.rel w (record w { readings = suc w.readings })
  pub mint : (w : World) → R.rel w (record w { minted = suc w.minted })
  pub updates :
      (id : String) (status : PollRunStatus) (error : Option String) (now : ℕ)
      → Follows R (on_runs (update_status id status error now))

module _ (R : Preorder World) {gate : Option Gate} (frame : Frame gate R) where
  open frame use {
    launch_order, obeys, task_order, starts, completes, retries, lists, launches, tasks, dirs,
    signals, clock, mint, updates,
  }

  module _ {A : Type 0} where
    pub on_launches-Follows :
        (m : Exec LaunchTable A) → Follows launch_order m → Follows R (on_launches m)
    unfolding on_launches
    on_launches-Follows m f = record { at = λ w. launches w _ (f.at w.launches) }

    pub on_tasks-Follows : (m : Exec TaskTable A) → Follows task_order m → Follows R (on_tasks m)
    unfolding on_tasks
    on_tasks-Follows m f = record { at = λ w. tasks w _ (f.at w.tasks) }

    pub lifted-Follows : (r : Result A) → Follows R (lifted r)
    lifted-Follows r = record { at = R.rel_refl }

    pub suppressed-Follows : (m : Exec World A) → Follows R m → Follows R (suppressed m)
    unfolding suppressed
    suppressed-Follows m f = record { at = f.at }

    pub swallowed-Follows : (m : Exec World A) → Follows R m → Follows R (swallowed m)
    unfolding swallowed
    swallowed-Follows m f = record { at = f.at }

  pub now_ms-Follows : Follows R now_ms
  unfolding now_ms
  now_ms-Follows = record { at = clock }

  pub new_uuid-Follows : Follows R new_uuid
  unfolding new_uuid
  new_uuid-Follows = record { at = mint }

  pub stamped-Follows :
      {A : Type 0} (m : ℕ → Exec World A) → ((now : ℕ) → Follows R (m now)) → Follows R (stamped m)
  unfolding stamped
  stamped-Follows m f = Follows-bind _ _ now_ms-Follows f

  pub send-Follows : (s : Signal) → Follows R (send s)
  unfolding send
  send-Follows s = record { at = λ w. signals w _ }

  pub rel_if :
      {A : Type 0} (w : World) (b : Bool) (x y : Result A × World)
      → R.rel w x.1
      → R.rel w y.1
      → R.rel w (if b then x else y).1
  rel_if w true x y rx ry = rx
  rel_if w false x y rx ry = ry

  pub create_run_dir-Follows : (id : String) → Follows R (create_run_dir id)
  unfolding create_run_dir
  create_run_dir-Follows id = record { at = λ w. rel_if w _ _ _ (R.rel_refl w) (dirs w _) }

  pub write_status-Follows : (id : String) (d : RunStatus) → Follows R (write_status id d)
  unfolding write_status
  write_status-Follows id d = record {
    at = λ w. R.rel_trans w _ _ ((create_run_dir-Follows id).at w) (dirs _ _);
  }

  pub append_event-Follows : (id : String) (e : Event) → Follows R (append_event id e)
  unfolding append_event
  append_event-Follows id e = record { at = λ w. rel_if w _ _ _ (dirs w _) (R.rel_refl w) }

  pub read_status-Follows : (id : String) → Follows R (read_status id)
  unfolding read_status
  read_status-Follows id = record { at = R.rel_refl }

  pub read_events-Follows : (id : String) → Follows R (read_events id)
  unfolding read_events
  read_events-Follows id = record { at = R.rel_refl }

  pub get_run-Follows : (id : String) → Follows R (get_run id)
  unfolding get_run on_runs get_by_id
  get_run-Follows id = record { at = R.rel_refl }

  pub list_active-Follows : Follows R (on_runs list_active)
  unfolding on_runs list_active
  list_active-Follows = record { at = R.rel_refl }

  pub list_launch_blocking-Follows : Follows R (on_runs list_launch_blocking)
  unfolding on_runs list_launch_blocking
  list_launch_blocking-Follows = record { at = R.rel_refl }

  pub update_run-Follows :
      (id : String) (status : PollRunStatus) (error : Option String)
      → Follows R (update_run id status error)
  unfolding update_run
  update_run-Follows id status error = stamped-Follows _ (updates id status error)

  or_missing-Follows : (found : Option PollRun) → Follows R (or_missing found)
  unfolding or_missing
  or_missing-Follows none = search follow_rules
  or_missing-Follows (some run) = search follow_rules

  pub require_run-Follows : (id : String) → Follows R (require_run id)
  unfolding require_run
  require_run-Follows id = Follows-bind _ _ (get_run-Follows id) or_missing-Follows

  pub note-Follows : (id type : String) → Follows R (note id type)
  unfolding note
  note-Follows id type = stamped-Follows _ λ _. append_event-Follows id _

  signal-Follows : (h : Host) (s : Signal) → Follows R (signal h s)
  unfolding signal
  signal-Follows h s = search (follow_rules, send-Follows)

  terminate_target-Follows : (h : Host) (target : Target) → Follows R (terminate_target h target)
  unfolding terminate_target
  terminate_target-Follows h target = search (follow_rules, signal-Follows)

  terminate_process-Follows :
      (h : Host) (pgid pid : Option ℕ) → Follows R (terminate_process h pgid pid)
  unfolding terminate_process
  terminate_process-Follows h (some pgid) pid = terminate_target-Follows h _
  terminate_process-Follows h none (some pid) = terminate_target-Follows h _
  terminate_process-Follows h none none = search follow_rules

  pub terminate_launch_handle-Follows :
      (h : Host) (handle : LaunchHandle) → Follows R (terminate_launch_handle h handle)
  unfolding terminate_launch_handle
  terminate_launch_handle-Follows h handle =
      search (follow_rules, send-Follows, terminate_process-Follows)
