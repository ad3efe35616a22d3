-- ===== src/Poll/Repository.antt =====
-- src/infrastructure/persistence/repositories/poll_run_repository.py over the table poll_runs. The
-- table is the list of its rows in the order of insertion. `known` says which launch ids the
-- registry holds: the foreign key on launch_id.
pub mod Unique
pub mod Fate
use fork_agent.Prelude.{
  ℕ, suc, String, Bool, true, false, not, ◌&&◌, ◌||◌, Option, none, some, List, [], ◌∷◌, ◌++◌, map,
  if◌then◌else◌, any, select, str_eq, Exec, Exn, Result, ok, err, value_error, repository_error,
  pure, raise, ◌>>=◌, ◌>>◌, ltb, update_where, order_desc, find_key, count_where, coalesce,
}
use fork_agent.Poll.Entity.{
  PollRunStatus, queued, spawning, running, terminating, quarantined, completed, failed, cancelled,
  status_eq, is_in, PollRun, construct, can_transition_to,
}

abbrev pub Table : Type 0
Table = List PollRun

abbrev pub run_key : PollRun → String
run_key r = r.id

-- The WHERE of idx_poll_runs_unique_active_task.
unfoldable pub is_indexed : PollRunStatus → Bool
unfolding is_in
is_indexed s = is_in s (queued ∷ running ∷ [])

unfoldable pub holds_task : String → PollRun → Bool
unfolding is_indexed
holds_task task_id r = str_eq r.task_id task_id && is_indexed r.status

-- INSERT OR REPLACE deletes the rows that the new one conflicts with: by the primary key, and by
-- the partial unique index.
unfoldable pub is_replaced : PollRun → PollRun → Bool
unfolding holds_task is_indexed
is_replaced run r = str_eq r.id run.id || (is_indexed run.status && holds_task run.task_id r)

unfoldable pub breaks_launch : (String → Bool) → Option String → Bool
breaks_launch known none = false
breaks_launch known (some launch_id) = not (known launch_id)

unfoldable pub save : (String → Bool) → PollRun → Exec Table (Unit {0})
save known run rows =
    if breaks_launch known run.launch_id
    then (err repository_error, rows)
    else (ok tt, select (λ r. not (is_replaced run r)) rows ++ run ∷ [])

-- The row of a `fetchone`, passed through the entity's constructor.
unfoldable pub row_to_run : Option PollRun → Result (Option PollRun)
row_to_run none = ok none
row_to_run (some r) = elim (construct r) [ ok run ↦ ok (some run) | err e ↦ err e ]

unfoldable pub get_by_id : String → Exec Table (Option PollRun)
get_by_id id rows = (row_to_run (find_key run_key id rows), rows)

-- [self._row_to_run(row) for row in rows]
unfoldable pub rows_to_runs : List PollRun → Result (List PollRun)
rows_to_runs [] = ok []
rows_to_runs (r ∷ rs) =
    let rest = rows_to_runs rs in
    elim (construct r) [
      | err e ↦ err e
      | ok run ↦ elim rest [ ok runs ↦ ok (run ∷ runs) | err e ↦ err e ]
    ]

-- ORDER BY started_at: NULL comes before every number.
abbrev pub started_rank : PollRun → ℕ
started_rank r = elim r.started_at [ none ↦ 0 | some t ↦ suc t ]

-- SELECT … WHERE p ORDER BY started_at DESC
abbrev pub newest_first : (PollRun → Bool) → Table → List PollRun
newest_first p rows = order_desc started_rank (select p rows)

unfoldable pub list_by_status : PollRunStatus → Exec Table (List PollRun)
list_by_status s rows = (rows_to_runs (newest_first (λ r. status_eq r.status s) rows), rows)

unfoldable pub is_live : PollRun → Bool
is_live r = is_in r.status (queued ∷ spawning ∷ running ∷ terminating ∷ [])

unfoldable pub list_active : Exec Table (List PollRun)
list_active rows = (rows_to_runs (newest_first is_live rows), rows)

unfoldable pub blocks_launch : PollRun → Bool
blocks_launch r = is_in r.status (queued ∷ spawning ∷ running ∷ terminating ∷ quarantined ∷ [])

unfoldable pub list_launch_blocking : Exec Table (List PollRun)
list_launch_blocking rows = (rows_to_runs (newest_first blocks_launch rows), rows)

-- The statuses that end a run.
unfoldable pub is_terminal : PollRunStatus → Bool
unfolding is_in
is_terminal s = is_in s (completed ∷ failed ∷ cancelled ∷ [])

-- An UPDATE of the status of the rows that `p` selects would put two rows of a task into the index.
unfoldable pub breaks_index : (PollRun → Bool) → PollRunStatus → Table → Bool
breaks_index p status rows =
    is_indexed status
    && any (λ r. p r && any (λ s. holds_task r.task_id s && not (str_eq s.id r.id)) rows) rows

-- The SET clause of `update_status`.
unfoldable pub apply_status : PollRunStatus → Option String → ℕ → PollRun → PollRun
apply_status status error now r =
    if is_terminal status
    then record r { status = status; ended_at = some now; error_message = error }
    else record r { status = status; started_at = some now; error_message = error }

abbrev pub has_id : String → PollRun → Bool
has_id id r = str_eq r.id id

-- The UPDATE of `update_status`.
unfoldable pub write_status : String → PollRunStatus → Option String → ℕ → Exec Table (Unit {0})
write_status id status error now rows =
    if breaks_index (has_id id) status rows
    then (err repository_error, rows)
    else (ok tt, update_where (has_id id) (apply_status status error now) rows)

-- `current is not None and not current.can_transition_to(status)`
unfoldable pub is_barred : Option PollRun → PollRunStatus → Bool
is_barred none status = false
is_barred (some current) status = not (can_transition_to current status)

unfoldable pub update_status : String → PollRunStatus → Option String → ℕ → Exec Table (Unit {0})
update_status id status error now = do
  current ← get_by_id id
  if is_barred current status then raise value_error else write_status id status error now

-- WHERE id = ? AND status = ?
unfoldable pub is_target : String → PollRunStatus → PollRun → Bool
is_target id expected r = str_eq r.id id && status_eq r.status expected

abbrev pub or_now : Option ℕ → ℕ → ℕ
or_now none now = now
or_now (some t) now = t

-- The SET clause of `cas_update_status`.
unfoldable pub apply_cas : PollRunStatus → Option String → Option ℕ → ℕ → PollRun → PollRun
apply_cas status error started now r =
    let begun = coalesce r.started_at (some (or_now started now)) in
    if is_terminal status
    then record r {
      status = status;
      ended_at = some now;
      error_message = error;
      started_at = begun;
    }
    else record r { status = status; started_at = begun }

unfoldable pub cas_update_status :
    String → PollRunStatus → PollRunStatus → Option String → Option ℕ → ℕ → Exec Table Bool
cas_update_status id expected status error started now rows =
    if breaks_index (is_target id expected) status rows then (err repository_error, rows) else (
      ok (any (is_target id expected) rows),
      update_where (is_target id expected) (apply_cas status error started now) rows,
    )

abbrev pub all_statuses : List PollRunStatus
all_statuses =
    queued ∷ spawning ∷ running ∷ terminating ∷ quarantined ∷ completed ∷ failed ∷ cancelled ∷ []

-- The groups of GROUP BY status that are not empty.
unfoldable pub count_by_status : Exec Table (List (PollRunStatus × ℕ))
count_by_status rows =
    let counted =
      map (λ s. (s, count_where (λ (r : PollRun). status_eq r.status s) rows)) all_statuses in
    (ok (select (λ g. ltb 0 g.1) counted), rows)

-- How an agent was launched, as `record_launch_metadata` takes it.
pub record LaunchHandle : Type 0 where
  pub method : String
  pub pane_id : Option String
  pub pid : Option ℕ
  pub pgid : Option ℕ

-- Its SET clause.
abbrev pub apply_metadata : LaunchHandle → Option String → ℕ → PollRun → PollRun
apply_metadata h launch_id now r = record r {
  launch_method = some h.method;
  launch_pane_id = h.pane_id;
  launch_pid = h.pid;
  launch_pgid = h.pgid;
  launch_recorded_at = some now;
  launch_id = coalesce launch_id r.launch_id;
}

unfoldable pub record_launch_metadata :
    (String → Bool) → String → LaunchHandle → Option String → ℕ → Exec Table Bool
record_launch_metadata known id h launch_id now rows =
    if breaks_launch known launch_id && any (has_id id) rows
    then (err repository_error, rows)
    else (ok (any (has_id id) rows), update_where (has_id id) (apply_metadata h launch_id now) rows)

-- Hard delete.
unfoldable pub remove : String → Exec Table (Unit {0})
remove id rows = (ok tt, select (λ r. not (has_id id r)) rows)
