-- ===== src/Sync/Repository.antt =====
-- src/infrastructure/persistence/repositories/sync_repository.py, over the tables that
-- src/infrastructure/persistence/migrations/016_add_sync_tables.sql declares. The readings of
-- SQLite's clock are arguments. `sequence` is the last number that AUTOINCREMENT gave; its end at
-- 2^63 is left out.
pub mod Order
use fork_agent.Prelude.{
  ℕ, suc, String, Bool, true, ◌&&◌, ◌||◌, Option, none, some, List, [], ◌∷◌, ◌++◌, if◌then◌else◌,
  ltb, str_eq, is_empty, any, select, take, coalesce, find_key, order_asc, order_desc, Exec, pure,
  raise, ◌>>=◌, repository_error,
}
use mathlib.Core.Option
use fork_agent.Sync.Entity.{
  SyncChunk, SyncMutation, SyncStatus, default_status, is_op, construct_chunk, construct_mutation,
}

pub record SyncTables : Type 0 where
  pub chunks : List SyncChunk
  pub mutations : List SyncMutation
  pub sequence : ℕ
  pub status : Option SyncStatus

abbrev pub chunk_key : SyncChunk → String
chunk_key c = c.chunk_id

-- The primary key is the chunk's id.
unfoldable pub record_chunk : SyncChunk → Exec SyncTables (Unit {0})
unfolding pure raise
record_chunk c s =
    if any (λ d. str_eq (chunk_key d) (chunk_key c)) s.chunks
    then raise repository_error s
    else pure tt (record s { chunks = s.chunks ++ c ∷ [] })

-- The rows as objects, up to the first one that its class refuses.
unfoldable pub rows_to_chunks : List SyncChunk → Exec SyncTables (List SyncChunk)
unfolding pure ◌>>=◌ construct_chunk
rows_to_chunks [] = pure []
rows_to_chunks (c ∷ cs) = do d ← construct_chunk c; ds ← rows_to_chunks cs; pure (d ∷ ds)

unfoldable pub rows_to_mutations : List SyncMutation → Exec SyncTables (List SyncMutation)
unfolding pure ◌>>=◌ construct_mutation
rows_to_mutations [] = pure []
rows_to_mutations (m ∷ ms) = do n ← construct_mutation m; ns ← rows_to_mutations ms; pure (n ∷ ns)

unfoldable pub get_chunk_by_id : String → Exec SyncTables (Option SyncChunk)
unfolding pure ◌>>=◌ construct_chunk
get_chunk_by_id id s = elim (find_key chunk_key id s.chunks) [
  | none ↦ pure none s
  | some c ↦ (construct_chunk c >>= λ d. pure (some d)) s
]

-- `WHERE source = ?`, which an empty source leaves out.
unfoldable pub has_source : Option String → SyncChunk → Bool
unfolding is_empty
has_source none c = true
has_source (some source) c = is_empty source || str_eq c.source source

unfoldable pub list_chunks : Option String → Exec SyncTables (List SyncChunk)
unfolding has_source rows_to_chunks
list_chunks source s =
    rows_to_chunks (order_desc (λ c. c.imported_at) (select (has_source source) s.chunks)) s

abbrev pub counted : SyncStatus → SyncStatus
counted st = record st { mutation_count = suc st.mutation_count }

-- The CHECK constraint of the table refuses another operation.
unfoldable pub record_mutation :
    String → String → String → String → String → String → ℕ → Exec SyncTables ℕ
unfolding pure raise is_op
record_mutation entity entity_key op payload source project created_at s =
    if is_op op
    then pure (suc s.sequence) (record s {
      mutations =
          s.mutations
          ++ record {
            seq = suc s.sequence;
            entity = entity;
            entity_key = entity_key;
            op = op;
            payload = payload;
            source = source;
            project = project;
            created_at = created_at;
          }
            ∷ [];
      sequence = suc s.sequence;
      status = Option.map counted s.status;
    })
    else raise repository_error s

-- `LIMIT ?`, which no limit and 0 leave out.
unfoldable pub limited : Option ℕ → List SyncMutation → List SyncMutation
limited none ms = ms
limited (some limit) ms = if ltb 0 limit then take limit ms else ms

abbrev pub is_after : ℕ → SyncMutation → Bool
is_after seq m = ltb seq m.seq

unfoldable pub get_mutations_since : ℕ → Option ℕ → Exec SyncTables (List SyncMutation)
unfolding limited rows_to_mutations
get_mutations_since seq limit s =
    rows_to_mutations (limited limit (order_asc (λ m. m.seq) (select (is_after seq) s.mutations))) s

-- MAX(seq), or 0
abbrev pub max_seq : List SyncMutation → ℕ
max_seq [] = 0
max_seq (m ∷ ms) = let rest = max_seq ms in if ltb rest m.seq then m.seq else rest

unfoldable pub get_latest_seq : Exec SyncTables ℕ
unfolding pure
get_latest_seq s = pure (max_seq s.mutations) s

unfoldable pub get_status : Exec SyncTables SyncStatus
unfolding pure
get_status s = elim s.status [ none ↦ pure default_status s | some st ↦ pure st s ]

abbrev pub or_keep : Option ℕ → ℕ → ℕ
or_keep none old = old
or_keep (some n) old = n

abbrev pub apply_status : Option ℕ → Option ℕ → Option ℕ → Option ℕ → SyncStatus → SyncStatus
apply_status exported_at imported_at export_seq count st = record {
  last_export_at = coalesce exported_at st.last_export_at;
  last_import_at = coalesce imported_at st.last_import_at;
  last_export_seq = or_keep export_seq st.last_export_seq;
  mutation_count = or_keep count st.mutation_count;
}

-- A column is set where its argument is given; with none given there is no statement.
unfoldable pub update_status :
    Option ℕ → Option ℕ → Option ℕ → Option ℕ → Exec SyncTables (Unit {0})
unfolding pure
update_status exported_at imported_at export_seq count s = pure tt (record s {
  status = Option.map (apply_status exported_at imported_at export_seq count) s.status;
})
