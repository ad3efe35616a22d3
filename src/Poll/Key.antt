-- ===== src/Poll/Key.antt =====
-- src/domain/services/canonical_key.py: the keys under which launches are registered.
pub mod Matches
mod Tests
use Prim.Native.Char.{code}
use Prim.Native.String.{◌++◌ as join}
use fork_agent.Prelude.{
  ℕ, zero, suc, String, Bool, false, ◌&&◌, Option, none, some, if◌then◌else◌, is_empty, is_space,
}
use fork_agent.Fpel.Entity.{Hasher}

-- str.strip, from the left and from the right
unfoldable pub strip_left : String → String
strip_left String.[] = ""
strip_left (String.◌∷◌ c s) =
    let rest = strip_left s in if is_space (code c) then rest else String.◌∷◌ c s

unfoldable pub strip_right : String → String
strip_right String.[] = ""
strip_right (String.◌∷◌ c s) =
    let rest = strip_right s in if is_space (code c) && is_empty rest then "" else String.◌∷◌ c rest

unfoldable pub strip : String → String
strip s = strip_left (strip_right s)

unfoldable pub starts_with_space : String → Bool
starts_with_space String.[] = false
starts_with_space (String.◌∷◌ c s) = is_space (code c)

-- re.sub(r"\s+", "-", s): the last space of each run gives the hyphen.
unfoldable pub hyphenate : String → String
hyphenate String.[] = ""
hyphenate (String.◌∷◌ c s) =
    let rest = hyphenate s in
    if is_space (code c)
    then if starts_with_space s then rest else String.◌∷◌ "-" rest
    else String.◌∷◌ c rest

-- s[:n]
unfoldable pub prefix : ℕ → String → String
prefix zero s = ""
prefix (suc n) String.[] = ""
prefix (suc n) (String.◌∷◌ c s) = String.◌∷◌ c (prefix n s)

-- _sanitize
unfoldable pub sanitize : ℕ → String → String
sanitize max_length value = prefix max_length (hyphenate (strip value))

abbrev pub or_empty : Option String → String
or_empty none = ""
or_empty (some s) = s

-- `sha256(…).hexdigest()[:12] if normalized_task else "untitled"`
unfoldable pub task_digest : Hasher → String → String
task_digest h normalized =
    if is_empty normalized then "untitled" else prefix 12 (h.sha256_hex normalized)

unfoldable pub build_api_key : Hasher → String → Option String → String
build_api_key h agent_type task =
    join "api:"
      (join (sanitize 64 agent_type) (join ":" (task_digest h (sanitize 4096 (or_empty task)))))

unfoldable pub build_task_key : String → String
build_task_key task_id = join "task:" (sanitize 128 task_id)

unfoldable pub build_manager_key : String → String
build_manager_key agent_name = join "manager:" (sanitize 128 agent_name)

unfoldable pub build_workflow_key : String → String
build_workflow_key task_id = join "workflow:" (sanitize 128 task_id)
