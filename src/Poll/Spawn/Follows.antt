-- ===== src/Poll/Spawn/Follows.antt =====
-- The methods of the polling service that make runs follow each relation that has the laws of a
-- frame and that recording a handle, and for the whole of `_spawn_run` saving a run, follow too.
use fork_agent.Prelude.{
  ℕ, String, Bool, true, false, Option, none, some, ◌≡◌, refl, Exec, Exn, Result, ok, err,
  value_error, Preorder, Follows, follow_rules, Follows-bind, if◌then◌else◌, pure, ◌>>=◌, any,
}
use fork_agent.Launch.Registry.{sqlite}
use fork_agent.Launch.Service.Follows.{
  confirm_spawning-Follows, confirm_active-Follows, quarantine-Follows, request_launch-Follows,
}
use fork_agent.Poll.Entity.{PollRun, construct, post_init_passes}
use fork_agent.Poll.Repository.{LaunchHandle}
use fork_agent.Poll.World.{World, save_run, is_dir}
use fork_agent.Poll.Host.{Service, Host, lifted}
use fork_agent.Poll.Spawn.{
  spawn_agent, when_launched, Slot, denied, granted, claim_launch, slot_of, take_slot, try_start,
  quarantine_run, confirm_run, record_metadata, record_handle, spawn_found, launch_run, begin_run,
  spawn_in, spawn_with,
}
use fork_agent.Poll.Frame.{
  Frame, on_launches-Follows, on_tasks-Follows, now_ms-Follows, new_uuid-Follows, stamped-Follows,
  create_run_dir-Follows, write_status-Follows, append_event-Follows, get_run-Follows,
  update_run-Follows, require_run-Follows, note-Follows, terminate_launch_handle-Follows,
}
use fork_agent.Poll.Follows.{fail_launch-Follows}

module _ (R : Preorder World) (s : Service) (frame : Frame s.gate R) where
  spawn_agent-Follows : (h : Host) (run : PollRun) → Follows R (spawn_agent s h run)
  unfolding spawn_agent
  spawn_agent-Follows h run = record { at = λ w. by_dir w (any (is_dir run.id) w.dirs) _ _ }
    where
      by_dir :
          (w : World) (b : Bool) (x y : Result (Option LaunchHandle))
          → R.rel w (if◌then◌else◌ {A = Result (Option LaunchHandle) × World} b (x, w) (y, w)).1
      by_dir w true x y = R.rel_refl w
      by_dir w false x y = R.rel_refl w

  spawn_found-Follows : (h : Host) (found : Option PollRun) → Follows R (spawn_found s h found)
  unfolding spawn_found
  spawn_found-Follows h none = search follow_rules
  spawn_found-Follows h (some run) = spawn_agent-Follows h run

  when_launched-Follows :
      (id : Option String) (call : String → Exec World Bool)
      → ((l : String) → Follows R (call l))
      → Follows R (when_launched id call)
  unfolding when_launched
  when_launched-Follows none call f = search follow_rules
  when_launched-Follows (some l) call f = Follows-bind _ _ (f l) λ _. search follow_rules

  claim_launch-Follows : (d : ℕ) (task_id : String) → Follows R (claim_launch d task_id)
  unfolding claim_launch
  claim_launch-Follows d task_id = Follows-bind _ _ (new_uuid-Follows R frame) λ launch_id.
      Follows-bind _ _ (now_ms-Follows R frame) λ tested_at.
        Follows-bind _ _ (now_ms-Follows R frame) λ leased_at. stamped-Follows R frame _ λ now.
          on_launches-Follows R frame _
            (request_launch-Follows sqlite frame.launch_order frame.obeys d _ _)

  pub take_slot-Follows : (h : Host) (task_id : String) → Follows R (take_slot s h task_id)
  unfolding take_slot
  take_slot-Follows h task_id = by_lifecycle s.lifecycle
    where
      by_lifecycle :
          (o : Option ℕ)
          → Follows R (elim o [
            | none ↦ pure (granted none)
            | some d ↦ do attempt ← claim_launch d task_id; pure (slot_of h attempt)
          ])
      by_lifecycle none = search follow_rules
      by_lifecycle (some d) =
          Follows-bind _ _ (claim_launch-Follows d task_id) λ _. search follow_rules

  try_start-Follows : (task_id : String) → Follows R (try_start s task_id)
  unfolding try_start
  try_start-Follows task_id = record {
    at =
        (stamped-Follows R frame _
          λ now. on_tasks-Follows R frame _ (frame.starts task_id _ none now)).at;
  }

  quarantine_run-Follows :
      (id : String) (launch_id : Option String) (message reason : String)
      → Follows R (quarantine_run id launch_id message reason)
  unfolding quarantine_run
  quarantine_run-Follows id launch_id message reason =
      Follows-bind _ _ (update_run-Follows R frame _ _ _) λ _.
        Follows-bind _ _
          (when_launched-Follows launch_id _ λ l. stamped-Follows R frame _ λ now.
            on_launches-Follows R frame _
              (quarantine-Follows sqlite frame.launch_order frame.obeys l _ now))
          λ _. Follows-bind _ _ (note-Follows R frame _ _) λ _. require_run-Follows R frame id

  confirm_run-Follows :
      (h : Host) (id : String) (launch_id : Option String) (handle : LaunchHandle) (saved : Bool)
      → Follows R (confirm_run h id launch_id handle saved)
  unfolding confirm_run
  confirm_run-Follows h id launch_id handle false =
      Follows-bind _ _ (terminate_launch_handle-Follows R frame h handle)
        λ _. quarantine_run-Follows id launch_id _ _
  confirm_run-Follows h id launch_id handle true =
      Follows-bind _ _ (append_event-Follows R frame _ _) λ _.
        Follows-bind _ _
          (when_launched-Follows launch_id _ λ l. stamped-Follows R frame _ λ now.
            on_launches-Follows R frame _
              (confirm_active-Follows sqlite frame.launch_order frame.obeys l _ now))
          λ _. Follows-bind _ _ (update_run-Follows R frame _ _ _) λ _.
            Follows-bind _ _ (write_status-Follows R frame _ _) λ _.
              Follows-bind _ _ (append_event-Follows R frame _ _)
                λ _. require_run-Follows R frame id

  module _ (id : String)
      (records : (handle : LaunchHandle) (launch_id : Option String)
        → Follows R (record_metadata id handle launch_id)) where
    record_handle-Follows :
        (h : Host) (launch_id : Option String) (found : Option LaunchHandle)
        → Follows R (record_handle h id launch_id found)
    unfolding record_handle
    record_handle-Follows h launch_id none = quarantine_run-Follows id launch_id _ _
    record_handle-Follows h launch_id (some handle) =
        Follows-bind _ _ (records handle launch_id) (confirm_run-Follows h id launch_id handle)

    launch_run-Follows :
        (h : Host) (launch_id : Option String) (refused : Option Exn)
        → Follows R (launch_run s h id launch_id refused)
    unfolding launch_run
    launch_run-Follows h launch_id (some e) =
        Follows-bind _ _ (update_run-Follows R frame _ _ _) λ _.
          Follows-bind _ _ (when_launched-Follows launch_id _ λ l. fail_launch-Follows R frame l _)
            λ _. require_run-Follows R frame id
    launch_run-Follows h launch_id none = Follows-bind _ _ (update_run-Follows R frame _ _ _) λ _.
        Follows-bind _ _
          (when_launched-Follows launch_id _ λ l. stamped-Follows R frame _ λ now.
            on_launches-Follows R frame _
              (confirm_spawning-Follows sqlite frame.launch_order frame.obeys l now))
          λ _. Follows-bind _ _ (get_run-Follows R frame id) λ current.
            Follows-bind _ _ (spawn_found-Follows h current)
              λ found. record_handle-Follows h launch_id found

    pub begin_run-Follows :
        (h : Host) (task_id : String) (launch_id : Option String)
        → Follows R (begin_run s h id task_id launch_id)
    unfolding begin_run
    begin_run-Follows h task_id launch_id =
        Follows-bind _ _ (try_start-Follows task_id) (launch_run-Follows h launch_id)

    -- What follows the constructor works on the run that it was given.
    construct-Follows :
        {A : Type 0} (run : PollRun) (k : PollRun → Exec World A)
        → Follows R (k run)
        → Follows R (lifted (construct run) >>= k)
    unfolding construct ◌>>=◌
    construct-Follows run k f = by_check (post_init_passes run)
      where
        by_check : (b : Bool) → Follows R (lifted (if b then ok run else err value_error) >>= k)
        by_check true = record { at = f.at }
        by_check false = record { at = R.rel_refl }

    module _ (saves : (run : PollRun) → run.id ≡ id → Follows R (save_run run)) where
      spawn_in-Follows :
          (h : Host) (task_id : String) (slot : Slot) → Follows R (spawn_in s h id task_id slot)
      unfolding spawn_in
      spawn_in-Follows h task_id (denied reason) =
          construct-Follows _ _ (Follows-bind _ _ (saves _ refl) λ _. search follow_rules)
      spawn_in-Follows h task_id (granted launch_id) =
          Follows-bind _ _ (create_run_dir-Follows R frame id) λ _.
            construct-Follows _ _
              (Follows-bind _ _ (saves _ refl) λ _. begin_run-Follows h task_id launch_id)

      pub spawn_with-Follows : (h : Host) (task_id : String) → Follows R (spawn_with s h task_id id)
      unfolding spawn_with
      spawn_with-Follows h task_id =
          Follows-bind _ _ (take_slot-Follows h task_id) (spawn_in-Follows h task_id)
