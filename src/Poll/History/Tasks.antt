-- ===== src/Poll/History/Tasks.antt =====
-- What polling does to the task board: it starts tasks that the board's own gate lets start, and
-- completes or retries tasks that are in progress.
use fork_agent.Prelude.{
  none, false, free_order, ℕ, String, true, false, Option, some, List, ◌≡◌, ◌≢◌, inl, inr, refl,
  sym, subst, ap, ◌∙◌, arith, Result, Preorder, Follows, Follows-bind, find_key, find_key-key,
  find_key-update_where, str_eq, str_eq_iff, Bool-cases, some_eq, ◌>>=◌,
}
use fork_agent.Launch.Registry.{sqlite}
use fork_agent.Launch.Service.Follows.{Obeys}
use fork_agent.Task.Entity.{
  OrchestrationTaskStatus, OrchestrationTask, planning, approved, in_progress, completed, status_eq,
  leads_to, is_blocked,
}
use fork_agent.Task.Repository.{list_by_status, task_key, is_target, overwrite}
use fork_agent.Task.Repository.{Table as TaskTable}
use fork_agent.Task.Board.{Gate, start, complete, retry, list_tasks}
use fork_agent.Task.Board.Outcome.{Outcome, refused, stored}
use fork_agent.Task.Board.Moves.{Admits, start_is_gated, retry-Outcome}
use fork_agent.Task.Board.Evolve.{complete_rows, complete-Outcome}
use fork_agent.Poll.World.{World, new_uuid, save_run, on_runs}
use fork_agent.Poll.Host.{Service, Host}
use fork_agent.Poll.Spawn.{spawn_with, record_metadata}
use fork_agent.Poll.Frame.{Frame, new_uuid-Follows, stamped-Follows}
use fork_agent.Poll.Spawn.Follows.{spawn_with-Follows}
use fork_agent.Poll.History.{Call, run, run-follows}

-- `start` stores the task.
pub record IsStartable (gate : Option Gate) (t : OrchestrationTask) : Type 0 where
  pub ready : t.status ≡ approved
  pub unblocked : is_blocked t ≡ false
  pub admitted : Admits gate t

-- Neither `start` nor `complete` nor `retry` stores the task.
pub record IsResting (gate : Option Gate) (t : OrchestrationTask) : Type 0 where
  pub unstartable : ¬ IsStartable gate t
  pub unstarted : t.status ≢ in_progress
  pub unplanned : t.status ≢ planning

-- Every statement on the launches relates any two tables.
pub free_laws : Obeys sqlite free_order
free_laws = record {
  claims = λ c now. record { at = λ s. tt };
  swaps = λ id s t f now h. record { at = λ s. tt };
  gets = λ id. record { at = λ s. tt };
  finds = λ key. record { at = λ s. tt };
  lists = λ status. record { at = λ s. tt };
  expires = λ now. record { at = λ s. tt };
}

module _ (gate : Option Gate) where
  abbrev Rests : TaskTable → TaskTable → Type 0
  Rests rows rows' =
      (id : String) (t : OrchestrationTask)
      → IsResting gate t
      → find_key task_key id rows ≡ some t
      → find_key task_key id rows' ≡ some t

  abbrev rests_order : Preorder TaskTable
  rests_order = record {
    rel = Rests;
    rel_refl = λ s id t r h. h;
    rel_trans = λ s t u a b id l r h. b id l r (a id l r h);
  }

  -- The UPDATE of a task that is not resting misses one that is.
  misses :
      (id : String) (old new t : OrchestrationTask) (rows : TaskTable)
      → find_key task_key id rows ≡ some old
      → new.id ≡ id
      → find_key task_key t.id rows ≡ some t
      → IsResting gate t
      → ¬ IsResting gate old
      → is_target new.id old.status t ≡ false
  unfolding is_target
  misses id old new t rows found same found' resting active =
      elim (Bool-cases (str_eq t.id new.id)) [
        | inr apart ↦ rw apart
        | inl e ↦ absurd (
            active (
              subst (IsResting gate)
                (some_eq (
                  sym found'
                  ∙ ap (λ k. find_key task_key k rows) ((str_eq_iff t.id new.id).0 e ∙ same)
                  ∙ found))
                resting))
      ]

  -- A call that stores a version of a task that is not resting.
  Outcome-Rests :
      {Change : OrchestrationTask → OrchestrationTask → Type 0} {id : String} {rows : TaskTable}
      {m : Result OrchestrationTask × TaskTable}
      → ((old new : OrchestrationTask) → Change old new → ¬ IsResting gate old)
      → Outcome Change id rows m
      → Rests rows m.1
  Outcome-Rests {rows = rows} active (refused e h) =
      subst (Rests rows) (sym (ap (λ x. x.1) h)) (rests_order.rel_refl rows)
  Outcome-Rests {id = id} {rows = rows} active (stored old new found same fine change h) =
      subst (Rests rows) (sym (ap (λ x. x.1) h)) λ x t resting found'.
        let e = find_key-key task_key x rows t found' in
        find_key-update_where task_key (is_target new.id old.status) (overwrite new) (λ r. refl) x
          rows
        ∙ rw found' (
            rw
              (misses id old new t rows found same
                (subst (λ k. find_key task_key k rows ≡ some t) (sym e) found') resting
                (active old new change))
              refl)

  start-Rests :
      (id owner : String) (requested_by : Option String) (now : ℕ)
      → Follows rests_order (start gate id owner requested_by now)
  start-Rests id owner requested_by now = record {
    at = λ rows.
        Outcome-Rests
          (λ old new c resting.
            resting.unstartable
              (record { ready = c.ready; unblocked = c.unblocked; admitted = c.admitted }))
          (start_is_gated gate id owner requested_by now rows);
  }

  leads_completed : (s : OrchestrationTaskStatus) → leads_to s completed ≡ true → s ≡ in_progress
  unfolding leads_to status_eq
  leads_completed s h = ground arith

  leads_approved :
      (s : OrchestrationTaskStatus) → leads_to s approved ≡ true → s ≢ in_progress → s ≡ planning
  unfolding leads_to status_eq
  leads_approved s h n = ground arith

  complete-Rests :
      (id : String) (requested_by : Option String) (now : ℕ)
      → Follows rests_order (complete id requested_by now)
  complete-Rests id requested_by now = record {
    at = λ rows. subst (Rests rows) (sym (complete_rows id requested_by now rows)) (
        Outcome-Rests (λ old new c resting. resting.unstarted (leads_completed old.status c.along))
          (complete-Outcome id requested_by now rows));
  }

  retry-Rests : (id : String) → Follows rests_order (retry id)
  retry-Rests id = record {
    at = λ rows.
        Outcome-Rests
          (λ old new c resting.
            resting.unplanned (leads_approved old.status c.along resting.unstarted))
          (retry-Outcome id rows);
  }

  list_tasks-Rests :
      (status : OrchestrationTaskStatus) → Follows rests_order (list_tasks (some status) none false)
  unfolding list_tasks list_by_status
  list_tasks-Rests status = record { at = rests_order.rel_refl }

  -- `Rests`, between worlds.
  abbrev tasks_order : Preorder World
  tasks_order = record {
    rel = λ v w. Rests v.tasks w.tasks;
    rel_refl = λ w. rests_order.rel_refl w.tasks;
    rel_trans = λ u v w. rests_order.rel_trans u.tasks v.tasks w.tasks;
  }

  tasks-Frame : Frame gate tasks_order
  unfolding on_runs
  tasks-Frame = record {
    launch_order = free_order;
    obeys = free_laws;
    task_order = rests_order;
    starts = start-Rests;
    completes = complete-Rests;
    retries = retry-Rests;
    lists = list_tasks-Rests;
    launches = λ w t r. tasks_order.rel_refl w;
    tasks = λ w t r. r;
    dirs = λ w ds. tasks_order.rel_refl w;
    signals = λ w ss. tasks_order.rel_refl w;
    clock = tasks_order.rel_refl;
    mint = tasks_order.rel_refl;
    updates = λ id status error now. record { at = tasks_order.rel_refl };
  }

tasks_mints :
    (s : Service) (h : Host) (task_id : String)
    → Follows (tasks_order s.gate) (new_uuid >>= spawn_with s h task_id)
unfolding record_metadata save_run on_runs
tasks_mints s h task_id =
    let R = tasks_order s.gate in
    Follows-bind _ _ (new_uuid-Follows R (tasks-Frame s.gate)) λ id.
      spawn_with-Follows R s (tasks-Frame s.gate) id
        (λ handle launch_id.
          stamped-Follows R (tasks-Frame s.gate) _ λ now. record { at = R.rel_refl })
        (λ run same. record { at = R.rel_refl }) h task_id

-- Any calls of the polling service leave a task exactly as it is that is neither IN_PROGRESS nor
-- PLANNING and that is not startable: it is not APPROVED, or it has blockers, or the gate of the
-- board does not admit its content.
pub polling_starts_only_startable :
    (s : Service) (h : Host) (cs : List Call) (w : World) (id : String) (t : OrchestrationTask)
    → IsResting s.gate t
    → find_key task_key id w.tasks ≡ some t
    → find_key task_key id (run s h cs w).tasks ≡ some t
polling_starts_only_startable s h cs w id t resting found =
    run-follows (tasks_order s.gate) s (tasks-Frame s.gate) h (tasks_mints s h) cs w id t resting
      found
