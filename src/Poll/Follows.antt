-- ===== src/Poll/Follows.antt =====
-- Every method of the polling service follows each relation that has the laws of a frame; the
-- methods that make runs need that saving a run and recording its handle follow it too.
use fork_agent.Prelude.{
  ℕ, String, Bool, true, false, Option, none, some, List, [], ◌∷◌, Preorder, Follows, follow_rules,
  Follows-bind, Follows-if, if◌then◌else◌, pure, ◌>>=◌, ◌>>◌,
}
use fork_agent.Launch.Entity.{AgentLaunch}
use fork_agent.Launch.Registry.{sqlite, get_by_launch_id, find_active_by_canonical_key}
use fork_agent.Launch.Service.{reconcile_expired_leases}
use fork_agent.Poll.Key.{build_task_key}
use fork_agent.Launch.Service.Follows.{
  mark_failed-Follows, begin_termination-Follows, confirm_terminated-Follows,
  reconcile_expired_leases-Follows,
}
use fork_agent.Task.Board.{Gate}
use fork_agent.Task.Entity.{OrchestrationTask}
use fork_agent.Task.Board.{Gate}
use fork_agent.Poll.Entity.{PollRun}
use fork_agent.Poll.Repository.{LaunchHandle}
use fork_agent.Poll.World.{World, RunStatus, on_launches, swallowed}
use fork_agent.Poll.Host.{Service, Host, stamped}
use fork_agent.Poll.Stop.{
  terminate_if, settle, terminate_found, terminate_spawned_agent, linked_launch, keyed_launch,
  fail_launch, end_launch, finish_launch, try_finalize, finalize_launch, finalize_if, complete_task,
  retry_task, complete_run, retry_of, fail_run, cancel_found, cancel_if, cancel_run,
}
use fork_agent.Poll.Cycle.{
  reconcile, active_launch_of, is_blocked_by, candidates, reread, reread_if_there, quarantine_late,
  quarantine_if_late, check_missing, check_late, check_pending, check_status, check_run, check_each,
  check_runs, is_none,
}
use fork_agent.Poll.Frame.{
  Frame, on_launches-Follows, on_tasks-Follows, suppressed-Follows, swallowed-Follows,
  stamped-Follows, read_status-Follows, read_events-Follows, get_run-Follows, list_active-Follows,
  update_run-Follows, require_run-Follows, note-Follows, terminate_launch_handle-Follows,
}

module _ (R : Preorder World) {gate : Option Gate} (frame : Frame gate R) where
  open frame use {launch_order, obeys, task_order, completes, retries}

  terminate_if-Follows :
      (h : Host) (handle : Option LaunchHandle) → Follows R (terminate_if h handle)
  unfolding terminate_if
  terminate_if-Follows h none = search follow_rules
  terminate_if-Follows h (some handle) = terminate_launch_handle-Follows R frame h handle

  settle-Follows : (id : String) (run : Option PollRun) → Follows R (settle id run)
  unfolding settle
  settle-Follows id none = search follow_rules
  settle-Follows id (some run) = search (follow_rules, update_run-Follows R frame)

  terminate_found-Follows :
      (h : Host) (id : String) (handle : Option LaunchHandle)
      → Follows R (terminate_found h id handle)
  unfolding terminate_found
  terminate_found-Follows h id (some handle) = terminate_launch_handle-Follows R frame h handle
  terminate_found-Follows h id none =
      Follows-bind _ _ (read_events-Follows R frame id) λ events. terminate_if-Follows h _

  pub terminate_spawned_agent-Follows :
      (h : Host) (id : String) → Follows R (terminate_spawned_agent h id)
  unfolding terminate_spawned_agent
  terminate_spawned_agent-Follows h id =
      Follows-bind _ _ (get_run-Follows R frame id)
        λ run. Follows-bind _ _ (settle-Follows id run) λ _. terminate_found-Follows h id _

  get_launch-Follows : (id : String) → Follows R (on_launches (get_by_launch_id id))
  get_launch-Follows id = on_launches-Follows R frame _ (obeys.gets id)

  linked_launch-Follows : (id : Option String) → Follows R (linked_launch id)
  unfolding linked_launch
  linked_launch-Follows none = search follow_rules
  linked_launch-Follows (some id) = get_launch-Follows id

  find_active-Follows : (key : String) → Follows R (on_launches (find_active_by_canonical_key key))
  find_active-Follows key = on_launches-Follows R frame _ (frame.obeys.finds key)

  keyed_launch-Follows :
      (found : Option AgentLaunch) (key : Option String) → Follows R (keyed_launch found key)
  unfolding keyed_launch
  keyed_launch-Follows (some l) key = search follow_rules
  keyed_launch-Follows none none = search follow_rules
  keyed_launch-Follows none (some key) = find_active-Follows key

  pub fail_launch-Follows : (id message : String) → Follows R (fail_launch id message)
  unfolding fail_launch
  fail_launch-Follows id message = stamped-Follows R frame _ λ now.
      on_launches-Follows R frame _
        (mark_failed-Follows sqlite frame.launch_order frame.obeys id message now)

  end_launch-Follows : (id : String) → Follows R (end_launch id)
  unfolding end_launch
  end_launch-Follows id =
      Follows-bind _ _
        (stamped-Follows R frame _ λ now.
          on_launches-Follows R frame _
            (begin_termination-Follows sqlite frame.launch_order frame.obeys id now))
        λ _. stamped-Follows R frame _ λ now.
          on_launches-Follows R frame _
            (confirm_terminated-Follows sqlite frame.launch_order frame.obeys id now)

  finish_launch-Follows :
      (failure : Option String) (found : Option AgentLaunch)
      → Follows R (finish_launch failure found)
  unfolding finish_launch
  finish_launch-Follows failure none = search follow_rules
  finish_launch-Follows none (some l) = end_launch-Follows _
  finish_launch-Follows (some message) (some l) = fail_launch-Follows _ _

  try_finalize-Follows :
      (failure : Option String) (run : PollRun) → Follows R (try_finalize failure run)
  unfolding try_finalize
  try_finalize-Follows failure run = Follows-bind _ _ (linked_launch-Follows _) λ linked.
      Follows-bind _ _ (keyed_launch-Follows linked _) λ found. finish_launch-Follows failure found

  finalize_launch-Follows :
      (s : Service) (failure : Option String) (run : PollRun)
      → Follows R (finalize_launch s failure run)
  unfolding finalize_launch
  finalize_launch-Follows s failure run = by_lifecycle s.lifecycle
    where
      by_lifecycle :
          (o : Option ℕ)
          → Follows R (elim o [ none ↦ pure tt | some d ↦ swallowed (try_finalize failure run) ])
      by_lifecycle none = search follow_rules
      by_lifecycle (some d) = swallowed-Follows R frame _ (try_finalize-Follows failure run)

  finalize_if-Follows :
      (s : Service) (failure : Option String) (run : Option PollRun)
      → Follows R (finalize_if s failure run)
  unfolding finalize_if
  finalize_if-Follows s failure none = search follow_rules
  finalize_if-Follows s failure (some run) = finalize_launch-Follows s failure run

  complete_task-Follows : (id : String) → Follows R (complete_task id)
  unfolding complete_task
  complete_task-Follows id =
      suppressed-Follows R frame _
        (stamped-Follows R frame _ λ now. on_tasks-Follows R frame _ (frame.completes id none now))

  retry_task-Follows : (id : String) → Follows R (retry_task id)
  unfolding retry_task
  retry_task-Follows id =
      suppressed-Follows R frame _ (on_tasks-Follows R frame _ (frame.retries id))

  complete_run-Follows :
      (s : Service) (h : Host) (id task_id : String) → Follows R (complete_run s h id task_id)
  unfolding complete_run
  complete_run-Follows s h id task_id = Follows-bind _ _ (terminate_spawned_agent-Follows h id) λ _.
      Follows-bind _ _ (complete_task-Follows task_id) λ _.
        Follows-bind _ _ (update_run-Follows R frame _ _ _) λ _.
          Follows-bind _ _ (get_run-Follows R frame id)
            λ run. Follows-bind _ _ (finalize_if-Follows s none run) λ _. note-Follows R frame _ _

  retry_of-Follows : (run : Option PollRun) → Follows R (retry_of run)
  unfolding retry_of
  retry_of-Follows none = search follow_rules
  retry_of-Follows (some run) = search (follow_rules, retry_task-Follows)

  fail_run-Follows : (s : Service) (h : Host) (id e : String) → Follows R (fail_run s h id e)
  unfolding fail_run
  fail_run-Follows s h id e = Follows-bind _ _ (get_run-Follows R frame id) λ run.
      Follows-bind _ _ (terminate_spawned_agent-Follows h id) λ _.
        Follows-bind _ _ (update_run-Follows R frame _ _ _) λ _.
          Follows-bind _ _ (finalize_if-Follows s _ run)
            λ _. Follows-bind _ _ (note-Follows R frame _ _) λ _. retry_of-Follows run

  cancel_found-Follows :
      (h : Host) (id : String) (run : PollRun) → Follows R (cancel_found h id run)
  unfolding cancel_found
  cancel_found-Follows h id run = Follows-bind _ _ (update_run-Follows R frame _ _ _) λ _.
      Follows-bind _ _ (note-Follows R frame _ _) λ _.
        Follows-bind _ _ (terminate_spawned_agent-Follows h id)
          λ _. Follows-bind _ _ (retry_of-Follows _) λ _. require_run-Follows R frame id

  cancel_if-Follows : (h : Host) (id : String) (run : PollRun) → Follows R (cancel_if h id run)
  unfolding cancel_if
  cancel_if-Follows h id run = search (follow_rules, cancel_found-Follows)

  pub cancel_run-Follows : (h : Host) (id : String) → Follows R (cancel_run h id)
  unfolding cancel_run
  cancel_run-Follows h id =
      Follows-bind _ _ (require_run-Follows R frame id) (cancel_if-Follows h id)

  reread-Follows : (run : PollRun) → Follows R (reread run)
  unfolding reread
  reread-Follows run = search (follow_rules, get_run-Follows R frame)

  reread_if_there-Follows : (run : PollRun) → Follows R (reread_if_there run)
  unfolding reread_if_there
  reread_if_there-Follows run = search (follow_rules, get_run-Follows R frame)

  quarantine_late-Follows :
      (h : Host) (run : PollRun) (now : ℕ) → Follows R (quarantine_late h run now)
  unfolding quarantine_late
  quarantine_late-Follows h run now =
      search (follow_rules, update_run-Follows R frame, note-Follows R frame)

  quarantine_if_late-Follows :
      (h : Host) (run : PollRun) (now : ℕ) → Follows R (quarantine_if_late h run now)
  unfolding quarantine_if_late
  quarantine_if_late-Follows h run now = search (follow_rules, quarantine_late-Follows)

  check_missing-Follows :
      (s : Service) (h : Host) (run : PollRun) → Follows R (check_missing s h run)
  unfolding check_missing
  check_missing-Follows s h run =
      Follows-if _ _ _
        (λ _.
          Follows-bind _ _ (stamped-Follows R frame _ (quarantine_if_late-Follows h run))
            λ _. reread-Follows run)
        (Follows-bind _ _ (fail_run-Follows s h _ _) λ _. reread-Follows run)

  check_late-Follows : (h : Host) (run : PollRun) (now : ℕ) → Follows R (check_late h run now)
  unfolding check_late
  check_late-Follows h run now =
      search (follow_rules, quarantine_late-Follows, reread-Follows, reread_if_there-Follows)

  check_pending-Follows : (h : Host) (run : PollRun) → Follows R (check_pending h run)
  unfolding check_pending
  check_pending-Follows h run =
      Follows-if _ _ _ (λ _. stamped-Follows R frame _ (check_late-Follows h run))
        (reread_if_there-Follows run)

  check_status-Follows :
      (s : Service) (h : Host) (run : PollRun) (d : RunStatus) → Follows R (check_status s h run d)
  unfolding check_status
  check_status-Follows s h run d = search (
    follow_rules, complete_run-Follows, fail_run-Follows, reread_if_there-Follows,
    check_pending-Follows,
  )

  check_run-Follows :
      (s : Service) (h : Host) (run : PollRun) (d : Option RunStatus)
      → Follows R (check_run s h run d)
  unfolding check_run
  check_run-Follows s h run none = check_missing-Follows s h run
  check_run-Follows s h run (some d) = check_status-Follows s h run d

  check_each-Follows :
      (s : Service) (h : Host) (runs : List PollRun) → Follows R (check_each s h runs)
  unfolding check_each
  check_each-Follows s h [] = search follow_rules
  check_each-Follows s h (run ∷ runs) = Follows-bind _ _ (read_status-Follows R frame _) λ d.
      Follows-bind _ _ (check_run-Follows s h run d)
        λ _. Follows-bind _ _ (check_each-Follows s h runs) λ _. search follow_rules

  pub check_runs-Follows : (s : Service) (h : Host) → Follows R (check_runs s h)
  unfolding check_runs
  check_runs-Follows s h = Follows-bind _ _ (list_active-Follows R frame) (check_each-Follows s h)

  pub reconcile-Follows : (s : Service) → Follows R (reconcile s)
  unfolding reconcile
  reconcile-Follows s = by_lifecycle s.lifecycle
    where
      by_lifecycle :
          (o : Option ℕ)
          → Follows R (elim o [
            | none ↦ pure tt
            | some d ↦ stamped (λ now. on_launches (reconcile_expired_leases sqlite now)) >> pure tt
          ])
      by_lifecycle none = search follow_rules
      by_lifecycle (some d) =
          Follows-bind _ _
            (stamped-Follows R frame _ λ now.
              on_launches-Follows R frame _
                (reconcile_expired_leases-Follows sqlite frame.launch_order frame.obeys now))
            λ _. search follow_rules

  active_launch_of-Follows : (s : Service) (id : String) → Follows R (active_launch_of s id)
  unfolding active_launch_of
  active_launch_of-Follows s id = by_lifecycle s.lifecycle
    where
      by_lifecycle :
          (o : Option ℕ)
          → Follows {A = Option AgentLaunch} R (elim o [
            | none ↦ pure none
            | some d ↦ on_launches (find_active_by_canonical_key (build_task_key id))
          ])
      by_lifecycle none = search follow_rules
      by_lifecycle (some d) = find_active-Follows _

  pub candidates-Follows :
      (s : Service) (blocking : List PollRun) (ts : List OrchestrationTask)
      → Follows R (candidates s blocking ts)
  unfolding candidates
  candidates-Follows s blocking [] = search follow_rules
  candidates-Follows s blocking (t ∷ ts) =
      by_run (is_blocked_by blocking t) (candidates-Follows s blocking ts)
    where
      by_run :
          (b : Bool)
          → Follows R (candidates s blocking ts)
          → Follows R (elim b [
            | true ↦ candidates s blocking ts
            | false ↦ do
              active ← active_launch_of s t.id
              rest ← candidates s blocking ts
              pure (if is_none active then t ∷ rest else rest)
          ])
      by_run true rest = rest
      by_run false rest =
          Follows-bind _ _ (active_launch_of-Follows s t.id)
            λ active. Follows-bind _ _ rest λ _. search follow_rules
