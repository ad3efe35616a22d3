-- ===== src/Workflow/Task.antt =====
-- The tasks of a workflow and their JSON form: `Task` of
-- src/application/services/workflow/state.py, and the comprehensions over tasks that the three states
-- share.
use fork_agent.Prelude.{ℕ, String, Option, List, [], ◌∷◌, ◌≡◌, refl, Result, ok, map, All}
use fork_agent.Workflow.Json.{
  Json, null, text, array, object, Fields, end, field, ◌>>=◌, each, each-inverse, need, get_or,
  lookup, as_text, as_text_or_none, as_number_or_none, as_texts, as_list, as_object, of_texts,
  of_text_or_none, of_number_or_none, from_list, as_texts-of_texts, as_text-of_text_or_none,
  as_number-of_number_or_none, nil,
}

pub record Task : Type 0 where
  pub id : String
  pub slug : String
  pub description : String
  pub status : String
  pub branch : Option String
  pub worktree_path : Option String
  pub session_name : Option String
  pub agent_pid : Option ℕ
  pub depends_on : List String
  pub requirement_ids : List String

unfoldable pub task_to_json : Task → Json
task_to_json t = object (
    field "id" (text t.id) (
      field "slug" (text t.slug) (
        field "description" (text t.description) (
          field "status" (text t.status) (
            field "branch" (of_text_or_none t.branch) (
              field "worktree_path" (of_text_or_none t.worktree_path) (
                field "session_name" (of_text_or_none t.session_name) (
                  field "agent_pid" (of_number_or_none t.agent_pid) (
                    field "depends_on" (of_texts t.depends_on)
                      (field "requirement_ids" (of_texts t.requirement_ids) end))))))))))

abbrev pub no_items : Json
no_items = array nil

-- Task(…) on the fields of one element.
unfoldable pub task_of_fields : Fields → Result Task
task_of_fields t = do
  id_value ← need "id" t
  id ← as_text id_value
  slug_value ← need "slug" t
  slug ← as_text slug_value
  description_value ← need "description" t
  description ← as_text description_value
  status ← as_text (get_or "status" (text "pending") t)
  branch ← as_text_or_none (get_or "branch" null t)
  worktree_path ← as_text_or_none (get_or "worktree_path" null t)
  session_name ← as_text_or_none (get_or "session_name" null t)
  agent_pid ← as_number_or_none (get_or "agent_pid" null t)
  depends_on ← as_texts (get_or "depends_on" no_items t)
  requirement_ids ← as_texts (get_or "requirement_ids" no_items t)
  ok (record {
    id = id;
    slug = slug;
    description = description;
    status = status;
    branch = branch;
    worktree_path = worktree_path;
    session_name = session_name;
    agent_pid = agent_pid;
    depends_on = depends_on;
    requirement_ids = requirement_ids;
  })

unfoldable pub task_from_json : Json → Result Task
task_from_json j = do t ← as_object j; task_of_fields t

-- [… for t in self.tasks]
unfoldable pub tasks_to_json : List Task → Json
tasks_to_json ts = array (from_list (map task_to_json ts))

-- [… for t in data.get("tasks", [])]
unfoldable pub tasks_from_json : Fields → Result (List Task)
tasks_from_json data_fields = do
  items ← as_list (get_or "tasks" no_items data_fields)
  each task_from_json items

task-roundtrip : (t : Task) → task_from_json (task_to_json t) ≡ ok t
unfolding task_from_json task_to_json task_of_fields as_object need get_or lookup as_text ◌>>=◌
task-roundtrip t =
    rw
      (
        as_text-of_text_or_none t.branch,
        as_text-of_text_or_none t.worktree_path,
        as_text-of_text_or_none t.session_name,
        as_number-of_number_or_none t.agent_pid,
        as_texts-of_texts t.depends_on,
        as_texts-of_texts t.requirement_ids,
      )
      refl

-- Reading back the tasks that were written.
pub tasks-roundtrip : (ts : List Task) → each task_from_json (map task_to_json ts) ≡ ok ts
tasks-roundtrip ts = each-inverse task_from_json task_to_json ts (all_back ts)
  where
    all_back : (ts : List Task) → All (λ t. task_from_json (task_to_json t) ≡ ok t) ts
    all_back [] = tt
    all_back (t ∷ ts) = (task-roundtrip t, all_back ts)
