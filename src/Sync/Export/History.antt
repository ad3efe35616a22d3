-- ===== src/Sync/Export/History.antt =====
-- Sequences of calls of the export, and what they deliver.
use fork_agent.Prelude.{
  ℕ, zero, suc, ◌≤◌, Bool, true, false, none, some, List, [], ◌∷◌, ◌++◌, ◌≡◌, refl, sym, ap, ◌∙◌,
  subst, arith, inl, inr, length, select, Result, ok, err, value_error, pure, raise, ◌>>=◌, proceed,
}
use mathlib.Core.Option
use fork_agent.Sync.Entity.{SyncMutation, default_status}
use fork_agent.Sync.Repository.{
  get_mutations_since, get_status, update_status, apply_status, is_after,
}
use fork_agent.Sync.Repository.Order.{after, get_mutations_since-cases}
use fork_agent.Sync.Export.{
  ExportHost, on_tables, batches, export_pending, export_since, export_incremental, set_watermark,
}
use fork_agent.Sync.Export.Batches.{lines_of}
use fork_agent.Sync.Export.Delivery.{
  Call, recording, exporting, committing, Delivery, receive, perform, run, journal, watermark,
  start,
}
use fork_agent.Sync.Export.Kept.{
  next_mark, next_mark-more, IsKept, shift, recording-IsKept, committing-IsKept,
}
use fork_agent.Sync.Export.Answers.{batches-IsBatch, get_status-some, on_tables-answer, bind-answer}

module _ (h : ExportHost) (d : Delivery) (k : IsKept d) where
  pending-IsKept :
      (size : ℕ) (commit : Bool) (now : ℕ) (ms : List SyncMutation)
      → after k.status.last_export_seq (journal d) ≡ ms
      → IsKept
          (receive commit (export_pending h size commit now k.status.last_export_seq ms d.state) d)
  unfolding receive export_pending set_watermark on_tables update_status next_mark pure raise ◌>>=◌
  pending-IsKept size true now [] e = record {
    status = k.status;
    is_status = k.is_status;
    ascends = k.ascends;
    marked = k.marked;
    reached = k.marked;
    covered = shift d.delivered [] _ _ _ refl k.covered;
    waiting = refl;
  }
  pending-IsKept size false now [] e = record {
    status = k.status;
    is_status = k.is_status;
    ascends = k.ascends;
    marked = k.marked;
    reached = k.marked;
    covered = k.covered;
    waiting = refl;
  }
  pending-IsKept zero true now (m ∷ ms) e = k
  pending-IsKept zero false now (m ∷ ms) e = k
  pending-IsKept (suc size) true now (m ∷ ms) e =
      let b =
        batches-IsBatch 0 k.status.last_export_seq d.state.tables.sequence size now (journal d) m ms
          k.ascends k.marked e in
      let same = next_mark-more _ _ b.more in
      record {
        status = apply_status (some now) none (some _) none k.status;
        is_status = ap (Option.map _) k.is_status;
        ascends = k.ascends;
        marked = b.le;
        reached = subst (λ n. n ≤ d.state.tables.sequence) (sym same) b.le;
        covered = shift d.delivered _ _ _ _ b.all k.covered;
        waiting = ap (λ n. after n (journal d)) same;
      }
  pending-IsKept (suc size) false now (m ∷ ms) e =
      let b =
        batches-IsBatch 0 k.status.last_export_seq d.state.tables.sequence size now (journal d) m ms
          k.ascends k.marked e in
      let same = next_mark-more _ k.status.last_export_seq b.more in
      let written =
        lines_of (batches (length (m ∷ ms)) (suc size) now 0 k.status.last_export_seq (m ∷ ms)).0 in
      record {
        status = k.status;
        is_status = k.is_status;
        ascends = k.ascends;
        marked = k.marked;
        reached = subst (λ n. n ≤ d.state.tables.sequence) (sym same) b.le;
        covered = k.covered;
        waiting = ap (λ n. written ++ after n (journal d)) same ∙ b.all;
      }

  refused-IsKept : (commit : Bool) → IsKept (receive commit (err value_error, d.state) d)
  unfolding receive
  refused-IsKept true = k
  refused-IsKept false = k

  export_incremental-answer :
      (size : ℕ) (commit : Bool) (now : ℕ) (r : Result (List SyncMutation))
      → get_mutations_since k.status.last_export_seq none d.state.tables ≡ (r, d.state.tables)
      → export_incremental h size commit now d.state
        ≡ proceed r (export_pending h size commit now k.status.last_export_seq) d.state
  unfolding export_incremental export_since
  export_incremental-answer size commit now r e =
      let t = d.state.tables in
      bind-answer (on_tables get_status) (export_since h size commit now) d.state (ok k.status)
        (on_tables-answer get_status d.state (ok k.status) (get_status-some t k.status k.is_status))
      ∙ bind-answer (on_tables (get_mutations_since k.status.last_export_seq none))
          (export_pending h size commit now k.status.last_export_seq) d.state r
          (on_tables-answer (get_mutations_since k.status.last_export_seq none) d.state r e)

  exporting-IsKept :
      (size : ℕ) (commit : Bool) (now : ℕ) → IsKept (perform h (exporting size commit now) d)
  unfolding perform
  exporting-IsKept size commit now =
      elim (get_mutations_since-cases k.status.last_export_seq d.state.tables k.marked k.ascends) [
        | inl read ↦
            subst (λ rs. IsKept (receive commit rs d))
              (sym (export_incremental-answer size commit now _ read))
              (pending-IsKept size commit now _ refl)
        | inr fails ↦
            subst (λ rs. IsKept (receive commit rs d))
              (sym (export_incremental-answer size commit now _ fails)) (refused-IsKept commit)
      ]

  perform-IsKept : (c : Call) → IsKept (perform h c d)
  perform-IsKept (recording entity key op payload source project at) =
      recording-IsKept h d k entity key op payload source project at
  perform-IsKept (exporting size commit now) = exporting-IsKept size commit now
  perform-IsKept (committing now) = committing-IsKept h d k now

run-IsKept : (h : ExportHost) (cs : List Call) (d : Delivery) → IsKept d → IsKept (run h cs d)
unfolding run
run-IsKept h [] d k = k
run-IsKept h (c ∷ cs) d k = run-IsKept h cs (perform h c d) (perform-IsKept h d k c)

start-IsKept : IsKept start
unfolding next_mark
start-IsKept = record {
  status = default_status;
  is_status = refl;
  ascends = omega arith;
  marked = omega arith;
  reached = omega arith;
  covered = refl;
  waiting = refl;
}

-- From the tables of a fresh database, whatever mutations are recorded and however they are
-- exported, in chunks of any size, committed at once, later or never: what was delivered and what
-- stands after the watermark are together the journal, in its order, so nothing is delivered twice
-- and nothing is lost.
pub delivery_is_journal :
    (h : ExportHost) (cs : List Call)
    → (run h cs start).delivered
        ++ select (is_after (watermark (run h cs start))) (journal (run h cs start))
      ≡ journal (run h cs start)
unfolding watermark
delivery_is_journal h cs = let k = run-IsKept h cs start start-IsKept in rw k.is_status k.covered
