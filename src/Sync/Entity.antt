-- ===== src/Sync/Entity.antt =====
-- src/domain/entities/sync.py. Integers of the program that its checks keep from being negative are
-- natural numbers; an argument of the wrong type is left out.
use fork_agent.Prelude.{
  ℕ, String, Bool, not, ◌&&◌, ◌||◌, Option, none, str_eq, is_empty, Exec, pure, raise, value_error,
  if◌then◌else◌,
}

pub record SyncChunk : Type 0 where
  pub chunk_id : String
  pub source : String
  pub imported_at : ℕ
  pub observation_count : ℕ
  pub checksum : String

pub record SyncMutation : Type 0 where
  pub seq : ℕ
  pub entity : String
  pub entity_key : String
  pub op : String
  pub payload : String
  pub source : String
  pub project : String
  pub created_at : ℕ

pub record SyncStatus : Type 0 where
  pub last_export_at : Option ℕ
  pub last_import_at : Option ℕ
  pub last_export_seq : ℕ
  pub mutation_count : ℕ

-- SyncStatus()
abbrev pub default_status : SyncStatus
default_status = record {
  last_export_at = none;
  last_import_at = none;
  last_export_seq = 0;
  mutation_count = 0;
}

-- `op in ("insert", "update", "delete")`
unfoldable pub is_op : String → Bool
is_op op = str_eq op "insert" || str_eq op "update" || str_eq op "delete"

unfoldable pub chunk_passes : SyncChunk → Bool
unfolding is_empty
chunk_passes c = not (is_empty c.chunk_id) && not (is_empty c.source) && not (is_empty c.checksum)

unfoldable pub mutation_passes : SyncMutation → Bool
unfolding is_empty is_op
mutation_passes m =
    not (is_empty m.entity) && not (is_empty m.entity_key) && is_op m.op && not (is_empty m.source)

module _ {S : Type 0} where
  unfoldable pub construct_chunk : SyncChunk → Exec S SyncChunk
  unfolding pure raise chunk_passes
  construct_chunk c = if chunk_passes c then pure c else raise value_error

  unfoldable pub construct_mutation : SyncMutation → Exec S SyncMutation
  unfolding pure raise mutation_passes
  construct_mutation m = if mutation_passes m then pure m else raise value_error
