-- ===== src/Task/Repository.antt =====
-- src/infrastructure/persistence/repositories/orchestration_task_repository.py over the table of
-- migration 023. The table is the list of its rows in the order of insertion; the column
-- blocked_by, a JSON array of texts, is the list that it encodes.
pub mod Advance
use fork_agent.Prelude.{
  ℕ, String, Bool, true, false, not, ◌&&◌, Option, none, some, List, [], ◌∷◌, ◌++◌, if◌then◌else◌,
  any, select, str_eq, Exec, Result, ok, err, repository_error, ltb, update_where, order_by,
  order_desc, find_key, count_where, length, given_eq,
}
use fork_agent.Task.Entity.{
  OrchestrationTaskStatus, OrchestrationTask, status_eq, construct, is_blocked,
}

abbrev pub Table : Type 0
Table = List OrchestrationTask

abbrev pub task_key : OrchestrationTask → String
task_key t = t.id

-- INSERT OR REPLACE
unfoldable pub save : OrchestrationTask → Exec Table (Unit {0})
save task rows = (ok tt, select (λ r. not (str_eq r.id task.id)) rows ++ task ∷ [])

-- WHERE id = ? AND status = ?
unfoldable pub is_target : String → OrchestrationTaskStatus → OrchestrationTask → Bool
is_target id expected r = str_eq r.id id && status_eq r.status expected

-- The SET clause: every column but the id.
abbrev pub overwrite : OrchestrationTask → OrchestrationTask → OrchestrationTask
overwrite task r = record task { id = r.id }

-- Whether a row was updated.
unfoldable pub cas_save : OrchestrationTask → OrchestrationTaskStatus → Exec Table Bool
cas_save task expected rows = (
  ok (any (is_target task.id expected) rows),
  update_where (is_target task.id expected) (overwrite task) rows,
)

-- The row of a `fetchone`, passed through the entity's constructor.
unfoldable pub row_to_task : Option OrchestrationTask → Result (Option OrchestrationTask)
row_to_task none = ok none
row_to_task (some r) = elim (construct r) [ ok t ↦ ok (some t) | err e ↦ err e ]

unfoldable pub get_by_id : String → Exec Table (Option OrchestrationTask)
get_by_id id rows = (row_to_task (find_key task_key id rows), rows)

-- [self._row_to_task(row) for row in rows]
unfoldable pub rows_to_tasks : List OrchestrationTask → Result (List OrchestrationTask)
rows_to_tasks [] = ok []
rows_to_tasks (r ∷ rs) =
    let rest = rows_to_tasks rs in
    elim (construct r) [ err e ↦ err e | ok t ↦ elim rest [ ok ts ↦ ok (t ∷ ts) | err e ↦ err e ] ]

-- SELECT … WHERE p ORDER BY created_at DESC
abbrev pub newest_first : (OrchestrationTask → Bool) → Table → List OrchestrationTask
newest_first p rows = order_desc (λ r. r.created_at) (select p rows)

unfoldable pub get_by_ids : List String → Exec Table (List OrchestrationTask)
get_by_ids ids rows = (rows_to_tasks (select (λ r. any (str_eq r.id) ids) rows), rows)

unfoldable pub list_by_status : OrchestrationTaskStatus → Exec Table (List OrchestrationTask)
list_by_status s rows = (rows_to_tasks (newest_first (λ r. status_eq r.status s) rows), rows)

unfoldable pub list_by_owner : String → Exec Table (List OrchestrationTask)
list_by_owner owner rows = (rows_to_tasks (newest_first (λ r. given_eq r.owner owner) rows), rows)

unfoldable pub list_all : Exec Table (List OrchestrationTask)
list_all rows = (rows_to_tasks (newest_first (λ r. true) rows), rows)

unfoldable pub list_blocked : Exec Table (List OrchestrationTask)
list_blocked rows = (rows_to_tasks (newest_first is_blocked rows), rows)

-- Hard delete.
unfoldable pub remove : String → Exec Table (Unit {0})
remove id rows =
    if any (λ r. str_eq r.id id) rows
    then (ok tt, select (λ r. not (str_eq r.id id)) rows)
    else (err repository_error, rows)
