-- ===== src/Sync/Tests.antt =====
-- The export on a small journal.
use fork_agent.Prelude.{
  ℕ, refl, String, true, false, List, [], ◌∷◌, ◌++◌, ◌≡◌, map, select, arith, ok, All, order_by,
}
use fork_agent.Sync.Entity.{SyncMutation}
use fork_agent.Sync.Repository.{is_after, get_status, get_mutations_since}
use fork_agent.Sync.Export.{MutationChunk, ExportHost, batches, export_pending}
use fork_agent.Sync.Export.Batches.{lines_of, Fits, export_pending-chunks}
use fork_agent.Sync.Export.Delivery.{
  Call, recording, exporting, committing, run, start, journal, watermark,
}
use fork_agent.Sync.Export.History.{delivery_is_journal}

abbrev host : ExportHost
host = record { digest = λ chunks. "sha256:0"; export_version = 1 }

abbrev recorded : String → Call
recorded key = recording "observation" key "insert" "{}" "local" "" 7

-- Two exports of which the second is not delivered before a third mutation, and a commit.
abbrev calls : List Call
calls =
    recorded "a"
    ∷ recorded "b"
    ∷ recorded "c"
    ∷ exporting 2 true 10
    ∷ recorded "d"
    ∷ exporting 2 false 20
    ∷ recorded "e"
    ∷ committing 30
    ∷ []

abbrev seqs : List SyncMutation → List ℕ
seqs ms = map (λ m. m.seq) ms

delivered_here : seqs (run host calls start).delivered ≡ 1 ∷ 2 ∷ 3 ∷ 4 ∷ []
unfolding run get_status get_mutations_since order_by batches
delivered_here = refl

watermark_here : watermark (run host calls start) ≡ 4
unfolding run watermark get_status get_mutations_since order_by batches
watermark_here = refl

delivery_is_journal_example :
    (run host calls start).delivered
      ++ select (is_after (watermark (run host calls start))) (journal (run host calls start))
    ≡ journal (run host calls start)
delivery_is_journal_example = delivery_is_journal host calls

abbrev pending : List SyncMutation
pending = journal (run host calls start)

export_pending-chunks_example :
    (chunks : List MutationChunk) × ((export_pending host 2 true 40 0 pending start.state).0
      ≡ ok chunks)
    × (lines_of chunks ≡ pending)
    × All (Fits 2) chunks
export_pending-chunks_example =
    export_pending-chunks host 2 true 40 0 pending start.state (omega arith)
