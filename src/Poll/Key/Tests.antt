-- ===== src/Poll/Key/Tests.antt =====
-- The builders on a small id.
use fork_agent.Prelude.{String, some, none, ◌≡◌, true, refl, codes, all, is_space, is_empty}
use fork_agent.Fpel.Entity.{Hasher}
use fork_agent.Launch.Entity.{is_key_char, key_matches}
use fork_agent.Poll.Key.{
  strip_left, strip_right, strip, hyphenate, starts_with_space, prefix, sanitize, build_task_key,
  build_manager_key, build_workflow_key, build_api_key,
}
use fork_agent.Poll.Key.Matches.{is_key_text, built_keys-match}

abbrev hasher : Hasher
hasher = record {
  reserialize = λ s. none;
  sha256_hex = λ s. "0123456789abcdef";
  dumps_task = λ t. "";
  dumps_tasks = λ ts. "";
}

abbrev id : String
id = "  task one\t2 "

id-all : all is_key_text (codes id) ≡ true
unfolding is_key_text is_key_char is_space
id-all = refl

digest-all : all is_key_char (codes "0123456789abcdef") ≡ true
unfolding is_key_char
digest-all = refl

sanitized_here : sanitize 128 id ≡ "task-one-2"
unfolding sanitize strip strip_left strip_right hyphenate starts_with_space prefix is_space is_empty
sanitized_here = refl

built_keys-match_example :
    (key_matches (build_task_key id) ≡ true)
    × (key_matches (build_manager_key id) ≡ true)
    × (key_matches (build_workflow_key id) ≡ true)
    × (key_matches (build_api_key hasher id (some "run it")) ≡ true)
built_keys-match_example = built_keys-match hasher id (some "run it") (λ t. digest-all) id-all
