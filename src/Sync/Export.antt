-- ===== src/Sync/Export.antt =====
-- src/application/services/sync/sync_service.py: the export of the mutations since the last one.
-- The directory is the list of its chunk files, each with the mutations of its lines; compression
-- and JSON are left out, and writing a file succeeds. A reading of the clock is an argument.
pub mod Batches
pub mod Delivery
pub mod Kept
pub mod Answers
pub mod History
use fork_agent.Prelude.{
  ℕ, zero, suc, ◌+◌, String, Bool, true, false, not, ◌&&◌, Option, none, some, List, [], ◌∷◌, ◌++◌,
  if◌then◌else◌, ltb, ◌==◌, select, take, drop, length, Result, ok, err, Exec, pure, raise, ◌>>=◌,
  proceed, value_error,
}
use fork_agent.Sync.Entity.{SyncMutation, SyncStatus}
use fork_agent.Sync.Repository.{
  SyncTables, max_seq, get_status, get_mutations_since, get_latest_seq, update_status,
}

-- `mutation_{timestamp}_{index:03d}.jsonl.gz`, with what was written to it.
pub record MutationChunk : Type 0 where
  pub timestamp : ℕ
  pub index : ℕ
  pub lines : List SyncMutation

pub record Manifest : Type 0 where
  pub chunk_count : ℕ
  pub total_observations : ℕ
  pub checksum : String
  pub created_at : ℕ
  pub export_version : ℕ

-- The digest of the bytes of the files, and the version that the constructor is given.
pub record ExportHost : Type 0 where
  pub digest : List MutationChunk → String
  pub export_version : ℕ

-- `_last_export_max_seq` and `_last_export_timestamp` are read as 0 before they are set.
pub record SyncState : Type 0 where
  pub tables : SyncTables
  pub files : List MutationChunk
  pub manifests : List Manifest
  pub last_export_max_seq : ℕ
  pub last_export_timestamp : ℕ

module _ {A : Type 0} where
  back : SyncState → Result A × SyncTables → Result A × SyncState
  back s (r, t) = (r, record s { tables = t })

  unfoldable pub on_tables : Exec SyncTables A → Exec SyncState A
  unfolding back
  on_tables m s = back s (m s.tables)

abbrev same_path : MutationChunk → MutationChunk → Bool
same_path c d = (c.timestamp == d.timestamp) && (c.index == d.index)

-- A file with the same path is written over.
unfoldable pub write_file : MutationChunk → List MutationChunk → List MutationChunk
write_file c files = select (λ d. not (same_path c d)) files ++ c ∷ []

unfoldable pub write_files : List MutationChunk → List MutationChunk → List MutationChunk
unfolding write_file
write_files [] files = files
write_files (c ∷ cs) files = write_files cs (write_file c files)

-- The chunks that the loop writes from the index `index` on, where `rest` is what the list has from
-- there, and `max_seq` when it ends. The first argument bounds the number of rounds.
unfoldable pub batches : ℕ → ℕ → ℕ → ℕ → ℕ → List SyncMutation → List MutationChunk × ℕ
batches zero size now index top rest = ([], top)
batches (suc fuel) size now index top [] = ([], top)
batches (suc fuel) size now index top (m ∷ ms) =
    let batch = take size (m ∷ ms) in
    let (chunks, last) = batches fuel size now (suc index) (max_seq batch) (drop size (m ∷ ms)) in
    (record { timestamp = now; index = index; lines = batch } ∷ chunks, last)

abbrev pub manifest_of : ExportHost → List MutationChunk → ℕ → ℕ → Manifest
manifest_of h chunks total now = record {
  chunk_count = length chunks;
  total_observations = total;
  checksum = h.digest chunks;
  created_at = now;
  export_version = h.export_version;
}

-- What an export leaves behind but for the watermark.
abbrev pub exported : ExportHost → ℕ → ℕ → List MutationChunk → ℕ → SyncState → SyncState
exported h now total chunks top s = record s {
  files = write_files chunks s.files;
  manifests = s.manifests ++ manifest_of h chunks total now ∷ [];
  last_export_max_seq = top;
  last_export_timestamp = now;
}

-- `update_status(last_export_at=…, last_export_seq=…)`
unfoldable pub set_watermark : ℕ → ℕ → Exec SyncState (Unit {0})
unfolding on_tables update_status
set_watermark at seq = on_tables (update_status (some at) none (some seq) none)

-- A step of 0 is refused by `range`. The answer is the paths, each with what was written to it.
unfoldable pub export_pending :
    ExportHost → ℕ → Bool → ℕ → ℕ → List SyncMutation → Exec SyncState (List MutationChunk)
unfolding pure raise ◌>>=◌ set_watermark
export_pending h size commit now last_seq [] s = pure [] (record s { last_export_max_seq = 0 })
export_pending h zero commit now last_seq (m ∷ ms) s = raise value_error s
export_pending h (suc size) commit now last_seq (m ∷ ms) s =
    let total = length (m ∷ ms) in
    let (chunks, top) = batches total (suc size) now 0 last_seq (m ∷ ms) in
    let after = exported h now total chunks top s in
    if commit then (set_watermark now top >>= λ u. pure chunks) after else pure chunks after

unfoldable pub export_since :
    ExportHost → ℕ → Bool → ℕ → SyncStatus → Exec SyncState (List MutationChunk)
unfolding ◌>>=◌ on_tables export_pending
export_since h size commit now status = do
  ms ← on_tables (get_mutations_since status.last_export_seq none)
  export_pending h size commit now status.last_export_seq ms

unfoldable pub export_incremental : ExportHost → ℕ → Bool → ℕ → Exec SyncState (List MutationChunk)
unfolding ◌>>=◌ on_tables export_since
export_incremental h size commit now = on_tables get_status >>= export_since h size commit now

-- `timestamp or now`
abbrev or_now : ℕ → ℕ → ℕ
or_now zero now = now
or_now (suc n) now = suc n

unfoldable pub commit_export_watermark : ℕ → Exec SyncState (Unit {0})
unfolding pure set_watermark
commit_export_watermark now s =
    if ltb 0 s.last_export_max_seq
    then set_watermark (or_now s.last_export_timestamp now) s.last_export_max_seq s
    else pure tt s

-- The dictionary that `get_status` of the service gives; the count of observations is an argument.
pub record SyncReport : Type 0 where
  pub total_observations : ℕ
  pub status : SyncStatus
  pub latest_seq : ℕ

unfoldable pub report : ℕ → Exec SyncState SyncReport
unfolding pure ◌>>=◌ on_tables
report total = do
  status ← on_tables get_status
  latest ← on_tables get_latest_seq
  pure (record { total_observations = total; status = status; latest_seq = latest })
