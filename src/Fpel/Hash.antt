-- ===== src/Fpel/Hash.antt =====
-- src/domain/services/fpel_content_hash.py: the hash of what a task or a plan
-- says.
use fork_agent.Prelude.{String, List, Option, none, some, if◌then◌else◌, is_empty}
use Prim.Native.String.{◌++◌ as join}
use fork_agent.Task.Entity.{OrchestrationTask}
use fork_agent.Fpel.Entity.{Hasher, PlanTask, compute_content_hash}

-- What stands for a task without a plan: the subject, and a description that is not empty.
unfoldable pub described : String → Option String → String
described subject none = subject
described subject (some description) =
    if is_empty description then subject else join subject (join "\n" description)

-- The content of a task.
unfoldable pub task_content : Option String → String → Option String → String
task_content none subject description = described subject description
task_content (some plan_text) subject description = plan_text

unfoldable pub compute_task_hash : Hasher → OrchestrationTask → String
compute_task_hash h task =
    compute_content_hash h (task_content task.plan_text task.subject task.description)

unfoldable pub compute_plan_task_hash : Hasher → PlanTask → String
compute_plan_task_hash h task = compute_content_hash h (h.dumps_task task)

unfoldable pub compute_plan_hash_from_tasks : Hasher → List PlanTask → String
compute_plan_hash_from_tasks h tasks = compute_content_hash h (h.dumps_tasks tasks)
