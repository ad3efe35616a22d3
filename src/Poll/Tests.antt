-- ===== src/Poll/Tests.antt =====
-- The polling service on a small world.
use fork_agent.Prelude.{
  ℕ, zero, suc, String, true, false, none, some, List, [], ◌∷◌, ◌≡◌, ◌≢◌, ◌≤◌, refl, arith,
  count_where, find_key, str_eq, str_eq_iff, sym, subst, ◌∙◌,
}
use mathlib.Core.Bool.{false≢true}
use fork_agent.Launch.Entity.{AgentLaunch, active, is_terminal}
use fork_agent.Launch.Registry.{holds_key, launch_key, Claim, claimed_row}
use fork_agent.Launch.Registry.Unique.{IsUnique}
use fork_agent.Launch.Registry.Advance.{Advances}
use fork_agent.Task.Entity.{
  OrchestrationTask, OrchestrationTaskStatus, status_eq, planning, pending, approved, in_progress,
}
use fork_agent.Task.Repository.{task_key}
use fork_agent.Poll.Entity.{is_in, PollRun, completed}
use fork_agent.Poll.Repository.{run_key, blocks_launch, is_terminal as is_ended}
use fork_agent.Poll.Repository.Fate.{Fate}
use fork_agent.Poll.World.{World}
use fork_agent.Poll.Host.{Service, Host}
use fork_agent.Poll.Spawn.{fresh_run}
use fork_agent.Poll.History.{Call, polling, checking, cancelling, run}
use fork_agent.Poll.History.Launches.{
  polling_one_launch_per_key, polling_follows_launch_transitions,
}
use fork_agent.Poll.History.Tasks.{IsResting, polling_starts_only_startable}
use fork_agent.Poll.History.Places.{concurrency_is_bounded}
use fork_agent.Poll.History.Runs.{IsSpent, polling_follows_run_transitions, ended_run_is_final}
use fork_agent.Poll.Repository.Unique as Runs

abbrev host : Host
host = record {
  in_tmux = true;
  split_window = λ id. some "%7\n";
  popen = λ id. none;
  getpgid = λ pid. none;
  outlives = λ target. false;
  forbids = λ signal. false;
  dir_path = λ id. id;
  digits = λ s. none;
  decimal = λ n. "";
  str_exn = λ e. "refused";
  denial_text = λ a. "denied";
  timeout_text = λ n. "late";
}

abbrev service : Service
service = record {
  max_concurrent = 2;
  allow_subprocess_fallback = false;
  lifecycle = some 300000;
  gate = none;
}

abbrev task : String → OrchestrationTaskStatus → OrchestrationTask
task id status = record {
  id = id;
  subject = "write";
  description = none;
  status = status;
  owner = none;
  blocked_by = [];
  plan_text = some "plan";
  created_at = 1;
  updated_at = 2;
  approved_by = none;
  approved_at = none;
  requested_by = none;
}

abbrev old_run : PollRun
old_run = record (fresh_run "old" "t0") { status = completed }

-- The ids that are minted: a run's, a launch's, and then one for ever.
uuids : ℕ → String
uuids zero = "run"
uuids (suc zero) = "launch"
uuids (suc (suc n)) = "later"

abbrev world : World
world = record {
  runs = old_run ∷ [];
  tasks = task "t1" approved ∷ task "t2" pending ∷ [];
  launches = [];
  dirs = [];
  signals = [];
  clock = λ n. n;
  readings = 0;
  uuid = uuids;
  minted = 0;
}

abbrev calls : List Call
calls = polling ∷ checking ∷ cancelling "run" ∷ []

launches-IsUnique : IsUnique world.launches
launches-IsUnique = record { ids = λ id. omega arith; keys = λ key. omega arith }

polling_one_launch_per_key_example :
    count_where (holds_key "task:t1") (run service host calls world).launches ≤ 1
polling_one_launch_per_key_example =
    polling_one_launch_per_key service host calls world "task:t1" launches-IsUnique

runs-IsUnique : Runs.IsUnique world.runs
runs-IsUnique = record { ids = λ id. ground arith }

uuids-old : (k : ℕ) → str_eq (uuids k) "old" ≡ false
unfolding uuids
uuids-old zero = refl
uuids-old (suc zero) = refl
uuids-old (suc (suc n)) = refl

old-IsSpent : IsSpent "old" world
old-IsSpent = record {
  unminted = λ k later e. false≢true (sym (uuids-old k) ∙ (str_eq_iff (uuids k) "old").1 e);
}

concurrency_is_bounded_example : count_where blocks_launch (run service host calls world).runs ≤ 2
concurrency_is_bounded_example =
    concurrency_is_bounded service host 2 calls world (omega arith) runs-IsUnique within
  where
    within : count_where blocks_launch world.runs ≤ 2
    within = ground arith

found_old : find_key run_key "old" world.runs ≡ some old_run
unfolding find_key
found_old = refl

old-is_ended : is_ended old_run.status ≡ true
unfolding is_ended is_in
old-is_ended = refl

polling_follows_run_transitions_example :
    Fate (some old_run) (find_key run_key "old" (run service host calls world).runs)
polling_follows_run_transitions_example =
    polling_follows_run_transitions service host calls world "old" old_run runs-IsUnique old-IsSpent
      found_old

ended_run_is_final_example :
    find_key run_key "old" (run service host calls world).runs ≡ some old_run
ended_run_is_final_example =
    ended_run_is_final service host calls world "old" old_run runs-IsUnique old-IsSpent found_old
      old-is_ended

waiting-IsResting : IsResting none (task "t2" pending)
unfolding status_eq
waiting-IsResting = record {
  unstartable = λ c. pending_apart approved refl c.ready;
  unstarted = pending_apart in_progress refl;
  unplanned = pending_apart planning refl;
}
  where
    pending_apart : (t : OrchestrationTaskStatus) → status_eq pending t ≡ false → pending ≢ t
    pending_apart t apart e =
        false≢true (sym apart ∙ subst (λ u. status_eq pending u ≡ true) e refl)

found_waiting : find_key task_key "t2" world.tasks ≡ some (task "t2" pending)
unfolding find_key
found_waiting = refl

polling_starts_only_startable_example :
    find_key task_key "t2" (run service host calls world).tasks ≡ some (task "t2" pending)
polling_starts_only_startable_example =
    polling_starts_only_startable service host calls world "t2" (task "t2" pending)
      waiting-IsResting found_waiting

-- A launch that another surface made.
abbrev other_launch : AgentLaunch
other_launch = record (claimed_row claim 3) { status = active; lease_expires_at = none }
  where
    claim : Claim
    claim = record {
      launch_id = "api";
      canonical_key = "task:t1";
      surface = "api";
      owner_type = "task";
      owner_id = "t1";
      lease_expires_at = 9;
      role = none;
      parent_launch_id = none;
      model = none;
    }

abbrev busy : World
busy = record world { launches = other_launch ∷ [] }

found_launch : find_key launch_key "api" busy.launches ≡ some other_launch
unfolding find_key claimed_row
found_launch = refl

polling_follows_launch_transitions_example :
    (m : AgentLaunch) × (find_key launch_key "api" (run service host calls busy).launches ≡ some m)
    × Advances other_launch m
    × (is_terminal other_launch ≡ true → m ≡ other_launch)
polling_follows_launch_transitions_example =
    polling_follows_launch_transitions service host calls busy "api" other_launch found_launch
