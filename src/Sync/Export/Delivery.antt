-- ===== src/Sync/Export/Delivery.antt =====
-- Sequences of calls of the export, in any order and whether they raise or not, and what a caller
-- delivers that hands a chunk on when the watermark is committed. A chunk is what was written to it
-- by the export that gave it: a later export in the same millisecond would write over its path.
use fork_agent.Prelude.{
  ℕ, Bool, true, false, String, none, some, List, [], ◌∷◌, ◌++◌, Result, ok, err,
}
use fork_agent.Sync.Entity.{SyncMutation, default_status}
use fork_agent.Sync.Repository.{record_mutation}
use fork_agent.Sync.Export.{
  MutationChunk, ExportHost, SyncState, on_tables, export_incremental, commit_export_watermark,
}
use fork_agent.Sync.Export.Batches.{lines_of}

pub data Call : Type 0 where
  recording : String → String → String → String → String → String → ℕ → Call
  exporting : ℕ → Bool → ℕ → Call
  committing : ℕ → Call

-- `delivered` is what the chunks held that were handed on; `unconfirmed` is what the last export
-- that did not commit gave.
pub record Delivery : Type 0 where
  pub state : SyncState
  pub delivered : List SyncMutation
  pub unconfirmed : List SyncMutation

unfoldable pub receive : Bool → Result (List MutationChunk) × SyncState → Delivery → Delivery
receive true (ok chunks, s) d = record {
  state = s;
  delivered = d.delivered ++ lines_of chunks;
  unconfirmed = [];
}
receive false (ok chunks, s) d = record d { state = s; unconfirmed = lines_of chunks }
receive commit (err e, s) d = record d { state = s }

unfoldable pub perform : ExportHost → Call → Delivery → Delivery
unfolding receive export_incremental commit_export_watermark on_tables record_mutation
perform h (recording entity key op payload source project at) d = record d {
  state = (on_tables (record_mutation entity key op payload source project at) d.state).1;
}
perform h (exporting size commit now) d =
    receive commit (export_incremental h size commit now d.state) d
perform h (committing now) d = record {
  state = (commit_export_watermark now d.state).1;
  delivered = d.delivered ++ d.unconfirmed;
  unconfirmed = [];
}

unfoldable pub run : ExportHost → List Call → Delivery → Delivery
unfolding perform
run h [] d = d
run h (c ∷ cs) d = run h cs (perform h c d)

abbrev pub journal : Delivery → List SyncMutation
journal d = d.state.tables.mutations

-- The status row's `last_export_seq`.
unfoldable pub watermark : Delivery → ℕ
watermark d = elim d.state.tables.status [ none ↦ 0 | some st ↦ st.last_export_seq ]

-- The tables as the migration leaves them, and nothing exported.
abbrev pub start : Delivery
start = record {
  state = record {
    tables = record { chunks = []; mutations = []; sequence = 0; status = some default_status };
    files = [];
    manifests = [];
    last_export_max_seq = 0;
    last_export_timestamp = 0;
  };
  delivered = [];
  unconfirmed = [];
}
