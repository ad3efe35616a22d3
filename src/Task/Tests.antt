-- ===== src/Task/Tests.antt =====
-- The task board on small tables.
use fork_agent.Prelude.{
  is_empty, ◌>>=◌, String, true, none, some, List, [], ◌∷◌, ◌≡◌, refl, Exn, ok, err, find_key,
}
use fork_agent.Task.Entity.{
  construct, status_eq, OrchestrationTaskStatus, OrchestrationTask, approved, in_progress, deleted,
  is_blocked, post_init_passes,
}
use fork_agent.Task.Repository.{Table, task_key, get_by_id, row_to_task, cas_save, is_target}
use fork_agent.Task.Repository.Advance.{Advances}
use fork_agent.Task.Board.{Gate, start, retry, update, require_task, store}
use fork_agent.Task.Board.Outcome.{Outcome}
use fork_agent.Task.Board.Moves.{Moves, Starts, start_is_gated, retry-Outcome}
use fork_agent.Task.Board.Edit.{EditsOrRaises, update-EditsOrRaises}
use fork_agent.Task.Board.History.{
  Reaches, here, called, perform, retry_call, delete_call, history_follows_transitions,
  deleted_task_is_final, blocked_task_never_starts,
}

abbrev task : String → OrchestrationTaskStatus → List String → OrchestrationTask
task id status blocked_by = record {
  id = id;
  subject = "write";
  description = none;
  status = status;
  owner = none;
  blocked_by = blocked_by;
  plan_text = some "plan";
  created_at = 1;
  updated_at = 2;
  approved_by = none;
  approved_at = none;
  requested_by = none;
}

-- A gate that admits every content.
abbrev gate : Gate
gate = record {
  check_sealed = λ id hash. ok true;
  hasher = record {
    reserialize = λ s. none;
    sha256_hex = λ s. s;
    dumps_task = λ t. t.slug;
    dumps_tasks = λ ts. "plan";
  };
}

abbrev table : Table
table = task "a" approved ("b" ∷ []) ∷ task "b" in_progress [] ∷ task "c" deleted [] ∷ []

abbrev later : Table
later = (perform (retry_call "b") (perform (delete_call "b" none 5) table).1).1

reached : Reaches table later
reached = called (retry_call "b") (called (delete_call "b" none 5) here)

start_is_gated_example :
    Outcome (Starts (some gate) "me" none 9) "a" table (start (some gate) "a" "me" none 9 table)
start_is_gated_example = start_is_gated (some gate) "a" "me" none 9 table

retry-Outcome_example :
    Outcome (Moves approved (λ t. record t { status = approved })) "b" table (retry "b" table)
retry-Outcome_example = retry-Outcome "b" table

found_b : find_key task_key "b" table ≡ some (task "b" in_progress [])
unfolding find_key
found_b = refl

b_clean : post_init_passes (task "b" in_progress []) ≡ true
unfolding post_init_passes is_empty
b_clean = refl

update-EditsOrRaises_example :
    EditsOrRaises
      (some (some "new"))
      none
      (some (some "me"))
      9
      (task "b" in_progress [])
      table
      (update "b" (some (some "new")) none (some (some "me")) 9 table)
update-EditsOrRaises_example =
    update-EditsOrRaises "b" (some (some "new")) none (some (some "me")) 9 table
      (task "b" in_progress []) found_b b_clean

-- The update is stored, with the description that it was not given.
updated_here :
    (update "b" (some (some "new")) none (some (some "me")) 9 table).0
    ≡ ok (record (task "b" in_progress []) { subject = "new"; owner = some "me"; updated_at = 9 })
unfolding update ◌>>=◌ require_task get_by_id row_to_task find_key construct post_init_passes
    is_empty status_eq store cas_save is_target
updated_here = refl

found_a : find_key task_key "a" table ≡ some (task "a" approved ("b" ∷ []))
unfolding find_key
found_a = refl

found_c : find_key task_key "c" table ≡ some (task "c" deleted [])
unfolding find_key
found_c = refl

a_blocked : is_blocked (task "a" approved ("b" ∷ [])) ≡ true
unfolding is_blocked
a_blocked = refl

history_follows_transitions_example :
    (m : OrchestrationTask) × (find_key task_key "a" later ≡ some m)
    × Advances (task "a" approved ("b" ∷ [])) m
history_follows_transitions_example =
    history_follows_transitions table later "a" (task "a" approved ("b" ∷ [])) reached found_a

deleted_task_is_final_example : find_key task_key "c" later ≡ some (task "c" deleted [])
deleted_task_is_final_example =
    deleted_task_is_final table later "c" (task "c" deleted []) reached found_c refl

blocked_task_never_starts_example : (e : Exn) × (start none "a" "me" none 9 later ≡ (err e, later))
blocked_task_never_starts_example =
    blocked_task_never_starts table later "a" (task "a" approved ("b" ∷ [])) reached found_a
      a_blocked none "me" none 9
