-- ===== src/Sync/Export/Batches.antt =====
-- The chunks of an export.
use fork_agent.Prelude.{
  Bool, true, false, ok, pure, ◌>>=◌, ℕ, zero, suc, ◌≤◌, ◌<◌, ◌≡◌, List, [], ◌∷◌, ◌++◌, refl, sym,
  ap, subst, ◌∙◌, arith, length, take, drop, take-append-drop, length-take-le, length-drop-le, All,
}
use fork_agent.Sync.Entity.{SyncMutation}
use fork_agent.Sync.Repository.{max_seq}
use fork_agent.Sync.Repository.Order.{
  Ascends, Ascends-max, Ascends-append, last_seq, last_seq-append,
}
use fork_agent.Sync.Export.{
  MutationChunk, ExportHost, SyncState, batches, export_pending, set_watermark, on_tables,
}
use fork_agent.Sync.Repository.{update_status}

-- The lines of the files, in order.
abbrev pub lines_of : List MutationChunk → List SyncMutation
lines_of [] = []
lines_of (c ∷ cs) = c.lines ++ lines_of cs

-- A chunk of an export with this size.
abbrev pub Fits : ℕ → MutationChunk → Type 0
Fits size c = (0 < length c.lines) × (length c.lines ≤ size)

-- With chunks of at least one line, a round for each mutation is enough: the chunks hold all the
-- mutations in their order, each at least one and at most as many as asked for.
pub batches-All :
    (fuel size now index top : ℕ) (ms : List SyncMutation)
    → length ms ≤ fuel
    → (lines_of (batches fuel (suc size) now index top ms).0 ≡ ms)
      × All (Fits (suc size)) (batches fuel (suc size) now index top ms).0
unfolding batches
batches-All zero size now index top [] le = (refl, tt)
batches-All zero size now index top (m ∷ ms) le = absurd (omega (arith, le))
batches-All (suc fuel) size now index top [] le = (refl, tt)
batches-All (suc fuel) size now index top (m ∷ ms) le =
    let shorter = length-drop-le size ms in
    let (lines, fit) =
      batches-All fuel size now (suc index) (max_seq (take (suc size) (m ∷ ms))) (drop size ms)
        (omega (arith, shorter, le)) in
    let few = length-take-le size ms in
    (
      ap (λ rest. take (suc size) (m ∷ ms) ++ rest) lines ∙ take-append-drop (suc size) (m ∷ ms),
      ((omega arith, omega (arith, few)), fit),
    )

-- The number that an export remembers is the last one.
pub batches-last :
    (fuel size now index low : ℕ) (ms : List SyncMutation) (high : ℕ)
    → length ms ≤ fuel
    → Ascends low ms high
    → (batches fuel (suc size) now index low ms).1 ≡ last_seq low ms
unfolding batches
batches-last zero size now index low [] high le a = refl
batches-last zero size now index low (m ∷ ms) high le a = absurd (omega (arith, le))
batches-last (suc fuel) size now index low [] high le a = refl
batches-last (suc fuel) size now index low (m ∷ ms) high le a =
    let shorter = length-drop-le size ms in
    let split = take-append-drop (suc size) (m ∷ ms) in
    let (front, back) =
      Ascends-append low (take (suc size) (m ∷ ms)) (drop size ms) high
        (subst (λ ns. Ascends low ns high) (sym split) a) in
    let top = Ascends-max low m (take size ms) _ front in
    ap (λ n. (batches fuel (suc size) now (suc index) n (drop size ms)).1) top
    ∙ batches-last fuel size now (suc index) _ (drop size ms) high (omega (arith, shorter, le)) back
    ∙ sym (last_seq-append low (take (suc size) (m ∷ ms)) (drop size ms))
    ∙ ap (last_seq low) split

-- With a chunk size that is not 0, an export of pending mutations returns: its chunks hold all of
-- them in their order, each chunk at least one and at most as many as the size.
pub export_pending-chunks :
    (h : ExportHost) (size : ℕ) (commit : Bool) (now last : ℕ) (ms : List SyncMutation)
    (s : SyncState)
    → 0 < size
    → (chunks : List MutationChunk) × ((export_pending h size commit now last ms s).0 ≡ ok chunks)
      × (lines_of chunks ≡ ms)
      × All (Fits size) chunks
unfolding export_pending set_watermark on_tables update_status pure ◌>>=◌
export_pending-chunks h zero commit now last ms s lt = absurd (omega (arith, lt))
export_pending-chunks h (suc size) commit now last [] s lt = ([], refl, refl, tt)
export_pending-chunks h (suc size) true now last (m ∷ ms) s lt =
    let (lines, fit) = batches-All (length (m ∷ ms)) size now 0 last (m ∷ ms) (omega arith) in
    (_, refl, lines, fit)
export_pending-chunks h (suc size) false now last (m ∷ ms) s lt =
    let (lines, fit) = batches-All (length (m ∷ ms)) size now 0 last (m ∷ ms) (omega arith) in
    (_, refl, lines, fit)
