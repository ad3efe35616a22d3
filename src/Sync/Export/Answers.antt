-- ===== src/Sync/Export/Answers.antt =====
-- What one export reads and writes.
use fork_agent.Prelude.{
  ℕ, suc, ◌≤◌, true, none, some, List, [], ◌∷◌, ◌++◌, ◌≡◌, sym, ap, ◌∙◌, subst, arith, ltb, length,
  Result, ok, pure, ◌>>=◌, Exec, proceed,
}
use mathlib.Core.List.{append-nil}
use fork_agent.Sync.Entity.{SyncMutation, SyncStatus, default_status}
use fork_agent.Sync.Repository.{SyncTables, get_status}
use fork_agent.Sync.Repository.Order.{
  Ascends, Ascends-last, Ascends-last-le, Ascends-last-ge, last_seq, after, after-Ascends,
  after-beyond, after-after,
}
use fork_agent.Sync.Export.{SyncState, on_tables, batches}
use fork_agent.Sync.Export.Batches.{lines_of, batches-All, batches-last}

-- What the chunks of an export hold, and the number that it remembers.
pub record IsBatch (mark : ℕ) (ms lines : List SyncMutation) (sequence top : ℕ) : Type 0 where
  pub more : ltb 0 top ≡ true
  pub le : top ≤ sequence
  pub all : lines ++ after top ms ≡ after mark ms

pub batches-IsBatch :
    (low mark sequence size now : ℕ) (mutations : List SyncMutation) (m : SyncMutation)
    (ms : List SyncMutation)
    → Ascends low mutations sequence
    → mark ≤ sequence
    → after mark mutations ≡ m ∷ ms
    → IsBatch mark mutations
        (lines_of (batches (length (m ∷ ms)) (suc size) now 0 mark (m ∷ ms)).0)
        sequence
        (batches (length (m ∷ ms)) (suc size) now 0 mark (m ∷ ms)).1
batches-IsBatch low mark sequence size now mutations m ms a le e =
    let fuel = length (m ∷ ms) in
    let up =
      subst (λ ns. Ascends mark ns sequence) e (after-Ascends mark low mutations sequence le a) in
    let written = lines_of (batches fuel (suc size) now 0 mark (m ∷ ms)).0 in
    let lines = (batches-All fuel size now 0 mark (m ∷ ms) (omega arith)).0 in
    let top = batches-last fuel size now 0 mark (m ∷ ms) sequence (omega arith) up in
    let last = last_seq mark (m ∷ ms) in
    let least = Ascends-last-ge m.seq ms sequence up.1 in
    let empty : after last mutations ≡ [] =
      sym (after-after mark last mutations (omega (arith, up.0, least)))
      ∙ ap (after last) e
      ∙ after-beyond last mark (m ∷ ms) last (omega arith)
          (Ascends-last mark (m ∷ ms) sequence up) in
    rw top (record {
      more = ground (arith, up.0, least);
      le = Ascends-last-le mark (m ∷ ms) sequence up;
      all = ap (λ ns. written ++ ns) empty ∙ append-nil written ∙ lines ∙ sym e;
    })

pub get_status-some :
    (t : SyncTables) (st : SyncStatus) → t.status ≡ some st → get_status t ≡ (ok st, t)
unfolding get_status pure
get_status-some t st e =
    ap
      (λ o. elim o as (λ _. Result SyncStatus × SyncTables) [
        | none ↦ (ok default_status, t)
        | some st ↦ (ok st, t)
      ])
      e

-- A method of the tables that does not write, and what comes after a method that does not.
module _ {A : Type 0} where
  pub on_tables-answer :
      (m : Exec SyncTables A) (s : SyncState) (r : Result A)
      → m s.tables ≡ (r, s.tables)
      → on_tables m s ≡ (r, s)
  unfolding on_tables
  on_tables-answer m s r e = ap (λ rt. (rt.0, record s { tables = rt.1 })) e

  pub bind-answer :
      {B : Type 0} (m : Exec SyncState A) (f : A → Exec SyncState B) (s : SyncState) (r : Result A)
      → m s ≡ (r, s)
      → (m >>= f) s ≡ proceed r f s
  unfolding ◌>>=◌
  bind-answer m f s r e = ap (λ rs. proceed rs.0 f rs.1) e
