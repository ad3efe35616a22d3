-- ===== src/Poll/History/Places.antt =====
-- How many runs hold a place: the limit of concurrent runs.
use fork_agent.Prelude.{
  ℕ, suc, ◌+◌, ◌≤◌, String, Bool, true, false, Option, List, [], ◌∷◌, ◌≡◌, inl, inr, refl, sym, ap,
  ◌∙◌, arith, length, take, length-take-le, length-select, length-order_by, count_where, select,
  Exec, Result, ok, err, pure, ◌>>=◌, proceed, Preorder, Follows, free_order, leb, Bool-cases,
  if◌then◌else◌, value_error, ok-injective,
}
use fork_agent.Task.Entity.{OrchestrationTask}
use fork_agent.Task.Board.{Gate}
use fork_agent.Poll.Entity.{PollRun, construct, post_init_passes}
use fork_agent.Poll.Repository.{
  LaunchHandle, blocks_launch, list_launch_blocking, rows_to_runs, newest_first,
}
use fork_agent.Poll.Repository.Unique.{
  IsUnique, Holds, kept-Holds, update_status-Holds, Holds-le, record_launch_metadata-Holds,
  save-Holds,
}
use fork_agent.Poll.World.{World, save_run, on_runs}
use fork_agent.Poll.Host.{Service, Host, lifted}
use fork_agent.Poll.Spawn.{denied, granted, Slot, spawn_in, spawn_with, spawn_run, record_metadata}
use fork_agent.Poll.Cycle.{spawn_each, fill, fill_up, poll_once, reconcile}
use fork_agent.Poll.Frame.{
  Frame, new_uuid-Follows, now_ms-Follows, stamped-Follows, create_run_dir-Follows,
  on_tasks-Follows,
}
use fork_agent.Poll.History.Tasks.{free_laws}
use fork_agent.Poll.Follows.{
  check_runs-Follows, cancel_run-Follows, reconcile-Follows, candidates-Follows,
}
use fork_agent.Poll.Spawn.Follows.{take_slot-Follows, begin_run-Follows}
use fork_agent.Poll.History.{Call, polling, checking, cancelling, perform, run}

abbrev places : World → ℕ
places w = count_where blocks_launch w.runs

-- A method that takes at most `n` places, from a table with its primary key.
record Takes {A : Type 0} (n : ℕ) (m : Exec World A) : Type 0 where
  at : (w : World) → IsUnique w.runs → Holds (places w + n) (m w).1.runs

module _ {A : Type 0} where
  Takes-le : {n k : ℕ} {m : Exec World A} → n ≤ k → Takes n m → Takes k m
  Takes-le le t = record { at = λ w u. Holds-le (omega (arith, le)) (t.at w u) }

  Takes-pure : (a : A) → Takes 0 (pure {S = World} a)
  unfolding pure
  Takes-pure a = record { at = λ w u. Holds-le (omega arith) (kept-Holds w.runs u) }

module _ {A B : Type 0} where
  Takes-bind :
      {n k : ℕ} (m : Exec World A) (f : A → Exec World B)
      → Takes n m
      → ((a : A) → Takes k (f a))
      → Takes (n + k) (m >>= f)
  unfolding ◌>>=◌
  Takes-bind {n} {k} m f tm tf = record { at = λ w u. by_result w (m w).0 (m w).1 (tm.at w u) }
    where
      by_result :
          (w : World) (r : Result A) (v : World)
          → Holds (places w + n) v.runs
          → Holds (places w + (n + k)) (proceed r f v).1.runs
      by_result w (ok a) v g = Holds-le (omega (arith, g.places)) ((tf a).at v g.unique)
      by_result w (err e) v g = Holds-le (omega arith) g

  Takes-after :
      {n : ℕ} (m : Exec World A) (f : A → Exec World B)
      → Takes 0 m
      → ((a : A) → Takes n (f a))
      → Takes n (m >>= f)
  Takes-after {n} m f tm tf = Takes-le {n = 0 + n} (omega arith) (Takes-bind m f tm tf)

-- No place is taken.
abbrev steady_order : Preorder World
steady_order = record {
  rel = λ v w. IsUnique v.runs → Holds (places v) w.runs;
  rel_refl = λ w u. kept-Holds w.runs u;
  rel_trans = λ u v w a b q. let g = a q in Holds-le g.places (b g.unique);
}

Follows-Takes : {A : Type 0} {m : Exec World A} → Follows steady_order m → Takes 0 m
Follows-Takes f = record { at = λ w u. Holds-le (omega arith) (f.at w u) }

-- The launches and the tasks do not matter.
steady-Frame : {gate : Option Gate} → Frame gate steady_order
unfolding on_runs
steady-Frame = record {
  launch_order = free_order;
  obeys = free_laws;
  task_order = free_order;
  starts = λ id owner requested_by now. record { at = λ s. tt };
  completes = λ id requested_by now. record { at = λ s. tt };
  retries = λ id. record { at = λ s. tt };
  lists = λ status. record { at = λ s. tt };
  launches = λ w t r. steady_order.rel_refl w;
  tasks = λ w t r. steady_order.rel_refl w;
  dirs = λ w ds. steady_order.rel_refl w;
  signals = λ w ss. steady_order.rel_refl w;
  clock = steady_order.rel_refl;
  mint = steady_order.rel_refl;
  updates = λ id status error now. record {
    at = λ w u. update_status-Holds w.runs u id status error now;
  };
}

module _ (s : Service) (h : Host) where
  records-Follows :
      (id : String) (handle : LaunchHandle) (launch_id : Option String)
      → Follows steady_order (record_metadata id handle launch_id)
  unfolding record_metadata on_runs
  records-Follows id handle launch_id =
      stamped-Follows steady_order {gate = s.gate} steady-Frame _ λ now. record {
        at = λ w u. record_launch_metadata-Holds w.runs u _ id handle launch_id now;
      }

  save_run-Takes : (run : PollRun) → Takes 1 (save_run run)
  unfolding save_run on_runs
  save_run-Takes run = record { at = λ w u. Holds-le (omega arith) (save-Holds w.runs u _ run) }

  lifted-Takes : {A : Type 0} (r : Result A) → Takes 0 (lifted r)
  lifted-Takes r = record { at = λ w u. Holds-le (omega arith) (kept-Holds w.runs u) }

  spawn_in-Takes : (id task_id : String) (slot : Slot) → Takes 1 (spawn_in s h id task_id slot)
  unfolding spawn_in
  spawn_in-Takes id task_id (denied reason) =
      Takes-after _ _ (lifted-Takes _)
        λ r. Takes-bind {k = 0} _ _ (save_run-Takes r) λ _. Takes-pure r
  spawn_in-Takes id task_id (granted launch_id) =
      Takes-after _ _
        (Follows-Takes (create_run_dir-Follows steady_order {gate = s.gate} steady-Frame id))
        λ _. Takes-after _ _ (lifted-Takes _) λ r. Takes-bind {k = 0} _ _ (save_run-Takes r) λ _.
          Follows-Takes (
            begin_run-Follows steady_order s steady-Frame id (records-Follows id) h task_id
              launch_id)

  spawn_run-Takes : (task_id : String) → Takes 1 (spawn_run s h task_id)
  unfolding spawn_run spawn_with
  spawn_run-Takes task_id =
      Takes-after _ _ (Follows-Takes (now_ms-Follows steady_order {gate = s.gate} steady-Frame))
        λ _.
          Takes-after _ _
            (Follows-Takes (new_uuid-Follows steady_order {gate = s.gate} steady-Frame))
            λ id.
              Takes-after _ _
                (Follows-Takes (take_slot-Follows steady_order s steady-Frame h task_id))
                λ slot. spawn_in-Takes id task_id slot

  spawn_each-Takes : (ts : List OrchestrationTask) → Takes (length ts) (spawn_each s h ts)
  unfolding spawn_each
  spawn_each-Takes [] = Takes-pure []
  spawn_each-Takes (t ∷ ts) = Takes-le {n = 1 + (length ts + 0)} (omega arith) (
      Takes-bind _ _ (spawn_run-Takes t.id)
        λ r. Takes-bind _ _ (spawn_each-Takes ts) λ rest. Takes-pure (r ∷ rest))

  fill-Takes : (n : ℕ) (blocking : List PollRun) → Takes n (fill s h n blocking)
  unfolding fill
  fill-Takes n blocking =
      Takes-after _ _
        (Follows-Takes
          (on_tasks-Follows steady_order {gate = s.gate} steady-Frame _ (steady-Frame.lists _)))
        λ tasks.
          Takes-after _ _
            (Follows-Takes
              (candidates-Follows steady_order {gate = s.gate} steady-Frame s blocking tasks))
            λ chosen. Takes-le (length-take-le n chosen) (spawn_each-Takes (take n chosen))

  fill_up-Within :
      (n : ℕ) (blocking : List PollRun) (w : World)
      → s.max_concurrent ≤ n
      → length blocking ≡ places w
      → Holds n w.runs
      → Holds n (fill_up s h blocking w).1.runs
  unfolding fill_up pure
  fill_up-Within n blocking w le e g = elim (Bool-cases (leb s.max_concurrent (length blocking))) [
    | inl full ↦ rw full g
    | inr free ↦ rw free (Holds-le (ground (arith, le, e)) ((fill-Takes _ blocking).at w g.unique))
  ]

-- What `rows_to_runs` gives, if it does not raise, is one run for each row.
rows_to_runs-length :
    (rows runs : List PollRun) → rows_to_runs rows ≡ ok runs → length runs ≡ length rows
unfolding rows_to_runs construct
rows_to_runs-length [] runs e = ap length (sym (ok-injective e))
rows_to_runs-length (r ∷ rs) runs e =
    by_rest (post_init_passes r) (rows_to_runs rs) (rows_to_runs-length rs) e
  where
    by_rest :
        (b : Bool) (rest : Result (List PollRun))
        → ((qs : List PollRun) → rest ≡ ok qs → length qs ≡ length rs)
        → (elim (if◌then◌else◌ {A = Result PollRun} b (ok r) (err value_error)) [
          | err x ↦ err x
          | ok q ↦ elim rest [ ok qs ↦ ok (q ∷ qs) | err x ↦ err x ]
        ])
          ≡ ok runs
        → length runs ≡ suc (length rs)
    by_rest true (ok qs) h e = ap length (sym (ok-injective e)) ∙ ap suc (h qs refl)
    by_rest true (err x) h e = absurd (cc)
    by_rest false rest h e = absurd (cc)

blocking-length :
    (rows runs : List PollRun)
    → (list_launch_blocking rows).0 ≡ ok runs
    → length runs ≡ count_where blocks_launch rows
unfolding list_launch_blocking
blocking-length rows runs e =
    rows_to_runs-length (newest_first blocks_launch rows) runs e
    ∙ length-order_by _ (select blocks_launch rows)
    ∙ length-select blocks_launch rows

module _ (s : Service) (h : Host) where
  -- From the answer of `list_launch_blocking` on.
  answered-Within :
      (n : ℕ) (r : Result (List PollRun)) (w : World)
      → s.max_concurrent ≤ n
      → ((runs : List PollRun) → r ≡ ok runs → length runs ≡ places w)
      → Holds n w.runs
      → Holds n (proceed r (fill_up s h) w).1.runs
  answered-Within n (ok blocking) w le e g = fill_up-Within s h n blocking w le (e blocking refl) g
  answered-Within n (err x) w le e g = g

  poll_once-Within :
      (n : ℕ) (w : World) → s.max_concurrent ≤ n → Holds n w.runs → Holds n (poll_once s h w).1.runs
  unfolding poll_once on_runs list_launch_blocking ◌>>=◌
  poll_once-Within n w le g = by_reconcile (reconcile s w).0 (reconcile s w).1 (
      Holds-le g.places
        ((reconcile-Follows steady_order {gate = s.gate} steady-Frame s).at w g.unique))
    where
      by_reconcile :
          (r : Result (Unit {0})) (v : World)
          → Holds n v.runs
          → Holds n (proceed r (λ _. on_runs list_launch_blocking >>= fill_up s h) v).1.runs
      by_reconcile (ok _) v g = answered-Within n _ v le (blocking-length v.runs) g
      by_reconcile (err x) v g = g

  perform-Within :
      (n : ℕ) (c : Call) (w : World)
      → s.max_concurrent ≤ n
      → Holds n w.runs
      → Holds n (perform s h c w).runs
  unfolding perform
  perform-Within n polling w le g = poll_once-Within n w le g
  perform-Within n checking w le g =
      Holds-le g.places
        ((check_runs-Follows steady_order {gate = s.gate} steady-Frame s h).at w g.unique)
  perform-Within n (cancelling id) w le g =
      Holds-le g.places
        ((cancel_run-Follows steady_order {gate = s.gate} steady-Frame h id).at w g.unique)

  run-Within :
      (n : ℕ) (cs : List Call) (w : World)
      → s.max_concurrent ≤ n
      → Holds n w.runs
      → Holds n (run s h cs w).runs
  unfolding run
  run-Within n [] w le g = g
  run-Within n (c ∷ cs) w le g = run-Within n cs (perform s h c w) le (perform-Within n c w le g)

-- For a limit that is at least the service's max_concurrent: where the run ids are unique and the
-- runs that are QUEUED, SPAWNING, RUNNING, TERMINATING or QUARANTINED are within the limit, they
-- stay within it through any calls of the polling service, whether they raise or not.
pub concurrency_is_bounded :
    (s : Service) (h : Host) (limit : ℕ) (cs : List Call) (w : World)
    → s.max_concurrent ≤ limit
    → IsUnique w.runs
    → count_where blocks_launch w.runs ≤ limit
    → count_where blocks_launch (run s h cs w).runs ≤ limit
concurrency_is_bounded s h limit cs w le u within =
    (run-Within s h limit cs w le (record { unique = u; places = within })).places
