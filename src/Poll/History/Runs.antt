-- ===== src/Poll/History/Runs.antt =====
-- What becomes of one run in any calls of the polling service.
use fork_agent.Prelude.{
  ℕ, ◌≤◌, String, Bool, true, false, Option, some, List, ◌≡◌, ◌≢◌, refl, sym, ap, ◌∙◌, subst, arith,
  inl, inr, Preorder, Follows, Follows-bind, free_order, find_key, str_eq, str_eq_iff, Bool-cases,
  ◌>>=◌,
}
use mathlib.Core.Bool.{false≢true}
use fork_agent.Task.Board.{Gate}
use fork_agent.Poll.Entity.{PollRun}
use fork_agent.Poll.Repository.{run_key, is_terminal}
use fork_agent.Poll.Repository.Unique.{
  IsUnique, update_status-Holds, record_launch_metadata-Holds, save-Holds,
}
use fork_agent.Poll.Repository.Fate.{
  Fate, stays, replaced, Fate-refl, Fate-trans, update_status-Fate, record_launch_metadata-Fate,
  save-Fate,
}
use fork_agent.Poll.World.{World, new_uuid, save_run, on_runs}
use fork_agent.Poll.Host.{Service, Host}
use fork_agent.Poll.Spawn.{spawn_with, record_metadata}
use fork_agent.Poll.Frame.{Frame, new_uuid-Follows, stamped-Follows}
use fork_agent.Poll.Spawn.Follows.{spawn_with-Follows}
use fork_agent.Poll.History.{Call, run, run-follows}
use fork_agent.Poll.History.Tasks.{free_laws}

-- The id is not made again.
pub record IsSpent (x : String) (w : World) : Type 0 where
  pub unminted : (k : ℕ) → w.minted ≤ k → w.uuid k ≢ x

-- The UUIDs are taken in order, the primary key holds, and, where the id is `watched`, what becomes
-- of the run with it.
record Watches (watched : Bool) (x : String) (v w : World) : Type 0 where
  uuid : w.uuid ≡ v.uuid
  minted : v.minted ≤ w.minted
  unique : IsUnique w.runs
  fate : watched ≡ true → IsSpent x v → Fate (find_key run_key x v.runs) (find_key run_key x w.runs)

IsSpent-later :
    {x : String} {v w : World} → w.uuid ≡ v.uuid → v.minted ≤ w.minted → IsSpent x v → IsSpent x w
IsSpent-later {x} e le spent = record {
  unminted =
      λ k later same. spent.unminted k (omega (arith, le, later)) (sym (ap (λ f. f k) e) ∙ same);
}

module _ (watched : Bool) (x : String) where
  abbrev watches_order : Preorder World
  watches_order = record {
    rel = λ v w. IsUnique v.runs → Watches watched x v w;
    rel_refl = λ w u. record {
      uuid = refl;
      minted = omega arith;
      unique = u;
      fate = λ b spent. Fate-refl _;
    };
    rel_trans = λ u v w f g q.
        let a = f q in
        let b = g a.unique in
        record {
          uuid = b.uuid ∙ a.uuid;
          minted = omega (arith, a.minted, b.minted);
          unique = b.unique;
          fate = λ on spent.
              Fate-trans (a.fate on spent) (b.fate on (IsSpent-later a.uuid a.minted spent));
        };
  }

  -- The table of the runs is as it was.
  same_runs :
      (v w : World)
      → w.runs ≡ v.runs
      → w.uuid ≡ v.uuid
      → v.minted ≤ w.minted
      → IsUnique v.runs
      → Watches watched x v w
  same_runs v w e same le u = record {
    uuid = same;
    minted = le;
    unique = subst IsUnique (sym e) u;
    fate = λ on spent.
        subst (λ rows. Fate (find_key run_key x v.runs) (find_key run_key x rows)) (sym e)
          (Fate-refl _);
  }

  watches-Frame : {gate : Option Gate} → Frame gate watches_order
  unfolding on_runs
  watches-Frame = record {
    launch_order = free_order;
    obeys = free_laws;
    task_order = free_order;
    starts = λ id owner requested_by now. record { at = λ s. tt };
    completes = λ id requested_by now. record { at = λ s. tt };
    retries = λ id. record { at = λ s. tt };
    lists = λ status. record { at = λ s. tt };
    launches = λ w t r. same_runs w _ refl refl (omega arith);
    tasks = λ w t r. same_runs w _ refl refl (omega arith);
    dirs = λ w ds. same_runs w _ refl refl (omega arith);
    signals = λ w ss. same_runs w _ refl refl (omega arith);
    clock = λ w. same_runs w _ refl refl (omega arith);
    mint = λ w. same_runs w _ refl refl (omega arith);
    updates = λ id status error now. record {
      at = λ w u. record {
        uuid = refl;
        minted = omega arith;
        unique = (update_status-Holds w.runs u id status error now).unique;
        fate = λ on spent. update_status-Fate x w.runs id status error now;
      };
    };
  }

  -- Making a run under another id, or under any id if none is watched.
  spawn_with-watches :
      (s : Service) (h : Host) (id task_id : String)
      → (watched ≡ true → id ≢ x)
      → Follows watches_order (spawn_with s h task_id id)
  unfolding record_metadata save_run on_runs
  spawn_with-watches s h id task_id other =
      spawn_with-Follows watches_order s watches-Frame id
        (λ handle launch_id. stamped-Follows watches_order {gate = s.gate} watches-Frame _ λ now.
          record {
            at = λ w u. record {
              uuid = refl;
              minted = omega arith;
              unique = (record_launch_metadata-Holds w.runs u _ id handle launch_id now).unique;
              fate = λ on spent.
                  record_launch_metadata-Fate x w.runs _ id handle launch_id now (other on);
            };
          })
        (λ q same. record {
          at = λ w u. record {
            uuid = refl;
            minted = omega arith;
            unique = (save-Holds w.runs u _ q).unique;
            fate = λ on spent. save-Fate x w.runs _ q u (λ e. other on (sym same ∙ e));
          };
        })
        h task_id

module _ (x : String) (s : Service) (h : Host) where
  unwatched_mints :
      (task_id : String) → Follows (watches_order false x) (new_uuid >>= spawn_with s h task_id)
  unwatched_mints task_id =
      Follows-bind _ _
        (new_uuid-Follows (watches_order false x) {gate = s.gate} (watches-Frame false x))
        λ id. spawn_with-watches false x s h id task_id (λ e. absurd (false≢true e))

  -- The new id is another one, or the watched one was not spent.
  watched_mints :
      (task_id : String) → Follows (watches_order true x) (new_uuid >>= spawn_with s h task_id)
  unfolding new_uuid ◌>>=◌
  watched_mints task_id = record {
    at = λ w u. elim (Bool-cases (str_eq (w.uuid w.minted) x)) [
      | inl same ↦
          let a = (unwatched_mints task_id).at w u in
          record {
            uuid = a.uuid;
            minted = a.minted;
            unique = a.unique;
            fate = λ on spent.
                absurd
                  (spent.unminted w.minted (omega arith) ((str_eq_iff (w.uuid w.minted) x).0 same));
          }
      | inr other ↦
          (watches_order true x).rel_trans w _ _
            ((new_uuid-Follows (watches_order true x) {gate = s.gate} (watches-Frame true x)).at w)
            ((spawn_with-watches true x s h (w.uuid w.minted) task_id
                λ on e. false≢true (sym other ∙ (str_eq_iff (w.uuid w.minted) x).1 e)).at
              _)
            u
    ];
  }

  run-Watches : (cs : List Call) (w : World) → IsUnique w.runs → Watches true x w (run s h cs w)
  run-Watches = run-follows (watches_order true x) s (watches-Frame true x) h watched_mints

-- Where the run ids are unique and the id of a run is not made again, through any calls of the
-- polling service, whether they raise or not, the run stays, with its task, on a status that its
-- own leads to along the transition map; or, where it had not ended, its row may be replaced.
pub polling_follows_run_transitions :
    (s : Service) (h : Host) (cs : List Call) (w : World) (id : String) (r : PollRun)
    → IsUnique w.runs
    → IsSpent id w
    → find_key run_key id w.runs ≡ some r
    → Fate (some r) (find_key run_key id (run s h cs w).runs)
polling_follows_run_transitions s h cs w id r u spent found =
    subst (λ o. Fate o (find_key run_key id (run s h cs w).runs)) found
      ((run-Watches id s h cs w u).fate refl spent)

ended-Fate :
    {r : PollRun} {o : Option PollRun} → Fate (some r) o → is_terminal r.status ≡ true → o ≡ some r
ended-Fate (stays a same end) h = ap some (end h)
ended-Fate (replaced live) h = absurd (false≢true (sym live ∙ h))

-- Under the same conditions, a run that is COMPLETED, FAILED or CANCELLED is left exactly as it is.
pub ended_run_is_final :
    (s : Service) (h : Host) (cs : List Call) (w : World) (id : String) (r : PollRun)
    → IsUnique w.runs
    → IsSpent id w
    → find_key run_key id w.runs ≡ some r
    → is_terminal r.status ≡ true
    → find_key run_key id (run s h cs w).runs ≡ some r
ended_run_is_final s h cs w id r u spent found ended =
    ended-Fate (polling_follows_run_transitions s h cs w id r u spent found) ended
