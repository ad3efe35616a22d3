-- ===== src/Sync/Export/Kept.antt =====
-- What the calls of the export keep, and that recording and committing keep it.
use fork_agent.Prelude.{
  ℕ, suc, ◌≤◌, true, String, none, some, List, [], ◌∷◌, ◌++◌, ◌≡◌, refl, sym, ap, ◌∙◌, subst, arith,
  inl, inr, Bool-cases, if◌then◌else◌, ltb, pure, raise,
}
use mathlib.Core.Option
use mathlib.Core.List.{append_assoc}
use fork_agent.Sync.Entity.{SyncMutation, SyncStatus, is_op}
use fork_agent.Sync.Repository.{record_mutation, update_status, apply_status, counted}
use fork_agent.Sync.Repository.Order.{Ascends, Ascends-snoc, after, after-snoc}
use fork_agent.Sync.Export.{ExportHost, on_tables, commit_export_watermark, set_watermark, or_now}
use fork_agent.Sync.Export.Delivery.{recording, committing, Delivery, perform, journal}

-- The watermark after a commit.
unfoldable pub next_mark : ℕ → ℕ → ℕ
next_mark top mark = if ltb 0 top then top else mark

pub record IsKept (d : Delivery) : Type 0 where
  pub status : SyncStatus
  pub is_status : d.state.tables.status ≡ some status
  pub ascends : Ascends 0 (journal d) d.state.tables.sequence
  pub marked : status.last_export_seq ≤ d.state.tables.sequence
  pub reached :
      next_mark d.state.last_export_max_seq status.last_export_seq ≤ d.state.tables.sequence
  pub covered : d.delivered ++ after status.last_export_seq (journal d) ≡ journal d
  pub waiting :
      d.unconfirmed
        ++ after (next_mark d.state.last_export_max_seq status.last_export_seq) (journal d)
      ≡ after status.last_export_seq (journal d)

-- Moving the middle part to the front one.
pub shift :
    (done middle rest pending all : List SyncMutation)
    → middle ++ rest ≡ pending
    → done ++ pending ≡ all
    → (done ++ middle) ++ rest ≡ all
shift done middle rest pending all h k = append_assoc done middle rest ∙ ap (λ ms. done ++ ms) h ∙ k

snoc :
    (done pending all later : List SyncMutation) (m : SyncMutation)
    → later ≡ pending ++ m ∷ []
    → done ++ pending ≡ all
    → done ++ later ≡ all ++ m ∷ []
snoc done pending all later m e h =
    ap (λ ms. done ++ ms) e ∙ sym (append_assoc done pending (m ∷ [])) ∙ ap (λ ms. ms ++ m ∷ []) h

module _ (h : ExportHost) (d : Delivery) (k : IsKept d) where
  pub recording-IsKept :
      (entity key op payload source project : String) (at : ℕ)
      → IsKept (perform h (recording entity key op payload source project at) d)
  unfolding perform on_tables record_mutation next_mark raise pure
  recording-IsKept entity key op payload source project at = elim (Bool-cases (is_op op)) [
    | inr refused ↦ rw refused k
    | inl known ↦
        let m : SyncMutation = record {
          seq = suc d.state.tables.sequence;
          entity = entity;
          entity_key = key;
          op = op;
          payload = payload;
          source = source;
          project = project;
          created_at = at;
        } in
        let mark = k.status.last_export_seq in
        let low = after-snoc mark (journal d) m (omega (arith, k.marked)) in
        let next = next_mark d.state.last_export_max_seq mark in
        let high = after-snoc next (journal d) m (omega (arith, k.reached)) in
        rw known (record {
          status = counted k.status;
          is_status = ap (Option.map counted) k.is_status;
          ascends = Ascends-snoc 0 (journal d) d.state.tables.sequence m k.ascends (omega arith);
          marked = omega (arith, k.marked);
          reached = omega (arith, k.reached);
          covered = snoc d.delivered _ _ _ m low k.covered;
          waiting =
              snoc d.unconfirmed (after next (journal d)) (after mark (journal d)) _ m high
                k.waiting
              ∙ sym low;
        })
  ]

  pub committing-IsKept : (now : ℕ) → IsKept (perform h (committing now) d)
  unfolding perform commit_export_watermark set_watermark on_tables update_status next_mark pure
  committing-IsKept now =
      let top = d.state.last_export_max_seq in
      let mark = k.status.last_export_seq in
      elim (Bool-cases (ltb 0 top)) [
        | inr nothing ↦
            let same : next_mark top mark ≡ mark = rw nothing refl in
            let idle =
              subst (λ n. d.unconfirmed ++ after n (journal d) ≡ after mark (journal d)) same
                k.waiting in
            rw nothing (record {
              status = k.status;
              is_status = k.is_status;
              ascends = k.ascends;
              marked = k.marked;
              reached = k.reached;
              covered = shift d.delivered d.unconfirmed _ _ _ idle k.covered;
              waiting = ap (λ n. after n (journal d)) same;
            })
        | inl more ↦
            let moved : next_mark top mark ≡ top = rw more refl in
            let same : next_mark top top ≡ top = rw more refl in
            let held =
              subst (λ n. d.unconfirmed ++ after n (journal d) ≡ after mark (journal d)) moved
                k.waiting in
            let le = subst (λ n. n ≤ d.state.tables.sequence) moved k.reached in
            rw more (record {
              status =
                  apply_status (some (or_now d.state.last_export_timestamp now)) none (some top)
                    none k.status;
              is_status = ap (Option.map _) k.is_status;
              ascends = k.ascends;
              marked = le;
              reached = subst (λ n. n ≤ d.state.tables.sequence) (sym same) le;
              covered = shift d.delivered d.unconfirmed _ _ _ held k.covered;
              waiting = ap (λ n. after n (journal d)) same;
            })
      ]

pub next_mark-more : (top mark : ℕ) → ltb 0 top ≡ true → next_mark top mark ≡ top
unfolding next_mark
next_mark-more top mark more = rw more refl
