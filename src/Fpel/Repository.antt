-- ===== src/Fpel/Repository.antt =====
-- src/infrastructure/persistence/repositories/fpel_repository.py over the tables of the migrations
-- 033 to 036. A table is the list of its rows in the order of insertion. A method is one
-- transaction: where a constraint fails it raises and leaves the tables as they were.
use mathlib.Core.Option
use fork_agent.Prelude.{
  ℕ, String, Bool, not, ◌&&◌, ◌||◌, Option, none, some, List, [], ◌∷◌, ◌++◌, map, if◌then◌else◌,
  any, select, str_eq, Exec, Result, ok, err, integrity_error, update_where, latest, order_desc,
  find_key,
}
use fork_agent.Fpel.Entity.{
  FrozenProposal, superseded, Hasher, construct_proposal, is_active, SealedVerdict,
  construct_verdict,
}

pub record FrozenRow : Type 0 where
  pub proposal : FrozenProposal
  pub created_at : ℕ

pub record CheckerReport : Type 0 where
  pub frozen_proposal_id : String
  pub checker_id : String
  pub verdict : String
  pub report_content : Option String
  pub created_at : ℕ

pub record StatusRow : Type 0 where
  pub target_id : String
  pub status : String

pub record FailureRow : Type 0 where
  pub frozen_proposal_id : String
  pub reason : Option String

-- frozen_proposals, sealed_verdicts, fpel_checker_reports, fpel_status, fpel_proposal_failures
pub record Tables : Type 0 where
  pub proposals : List FrozenRow
  pub verdicts : List SealedVerdict
  pub reports : List CheckerReport
  pub statuses : List StatusRow
  pub failures : List FailureRow

-- WHERE target_id = ?
unfoldable pub is_for : String → FrozenRow → Bool
is_for target r = str_eq r.proposal.target_id target

-- WHERE target_id = ? AND lifecycle = 'ACTIVE': also a row of idx_one_active_proposal_per_target.
unfoldable pub is_active_for : String → FrozenRow → Bool
is_active_for target r = str_eq r.proposal.target_id target && is_active r.proposal

-- The row that get_active_frozen_proposal and get_current_content_hash select.
unfoldable pub active_row : String → Tables → Option FrozenRow
active_row target t = latest (λ r. r.created_at) (select (is_active_for target) t.proposals)

unfoldable pub row_to_proposal : Hasher → Option FrozenRow → Result (Option FrozenProposal)
row_to_proposal h none = ok none
row_to_proposal h (some r) = elim (construct_proposal h r.proposal) [
  | ok p ↦ ok (some p)
  | err e ↦ err e
]

unfoldable pub get_active_frozen_proposal : Hasher → String → Exec Tables (Option FrozenProposal)
get_active_frozen_proposal h target t = (row_to_proposal h (active_row target t), t)

-- [FrozenProposal(…) for row in rows]
unfoldable pub rows_to_proposals : Hasher → List FrozenRow → Result (List FrozenProposal)
rows_to_proposals h [] = ok []
rows_to_proposals h (r ∷ rs) =
    let rest = rows_to_proposals h rs in
    elim (construct_proposal h r.proposal) [
      | err e ↦ err e
      | ok p ↦ elim rest [ ok ps ↦ ok (p ∷ ps) | err e ↦ err e ]
    ]

unfoldable pub get_all_frozen_proposals : Hasher → String → Exec Tables (List FrozenProposal)
get_all_frozen_proposals h target t =
    (rows_to_proposals h (order_desc (λ r. r.created_at) (select (is_for target) t.proposals)), t)

abbrev pub has_proposal : String → List FrozenRow → Bool
has_proposal id rows = any (λ r. str_eq r.proposal.frozen_proposal_id id) rows

-- UPDATE frozen_proposals SET lifecycle = 'SUPERSEDED' WHERE frozen_proposal_id IN (…)
unfoldable pub supersede : List String → List FrozenRow → List FrozenRow
supersede ids rows =
    update_where (λ r. any (str_eq r.proposal.frozen_proposal_id) ids)
      (λ r. record r { proposal = record r.proposal { lifecycle = superseded } }) rows

-- The primary key or the partial unique index refuses the INSERT.
unfoldable pub breaks_proposal : FrozenProposal → List FrozenRow → Bool
breaks_proposal p rows =
    has_proposal p.frozen_proposal_id rows || (is_active p && any (is_active_for p.target_id) rows)

unfoldable pub save_frozen_proposal : FrozenProposal → List String → ℕ → Exec Tables (Unit {0})
save_frozen_proposal p supersede_ids now t =
    if breaks_proposal p (supersede supersede_ids t.proposals) then (err integrity_error, t) else (
      ok tt,
      record t {
        proposals =
            supersede supersede_ids t.proposals ++ record { proposal = p; created_at = now } ∷ [];
      },
    )

unfoldable pub mark_superseded : String → Exec Tables (Unit {0})
mark_superseded id t = (ok tt, record t { proposals = supersede (id ∷ []) t.proposals })

abbrev pub verdict_key : SealedVerdict → String
verdict_key v = v.frozen_proposal_id

unfoldable pub row_to_verdict : Option SealedVerdict → Result (Option SealedVerdict)
row_to_verdict none = ok none
row_to_verdict (some r) = elim (construct_verdict r) [ ok v ↦ ok (some v) | err e ↦ err e ]

unfoldable pub get_sealed_verdict : String → Exec Tables (Option SealedVerdict)
get_sealed_verdict id t = (row_to_verdict (find_key verdict_key id t.verdicts), t)

-- The primary key refuses the INSERT, or the foreign key does.
unfoldable pub breaks_verdict : SealedVerdict → List SealedVerdict → List FrozenRow → Bool
breaks_verdict v verdicts proposals =
    any (λ w. str_eq w.frozen_proposal_id v.frozen_proposal_id) verdicts
    || not (has_proposal v.frozen_proposal_id proposals)

unfoldable pub save_sealed_verdict : SealedVerdict → Exec Tables (Unit {0})
save_sealed_verdict v t =
    if breaks_verdict v t.verdicts t.proposals
    then (err integrity_error, t)
    else (ok tt, record t { verdicts = t.verdicts ++ v ∷ [] })

-- SELECT DISTINCT
unfoldable pub distinct : List String → List String
distinct [] = []
distinct (x ∷ xs) = x ∷ select (λ y. not (str_eq y x)) (distinct xs)

unfoldable pub get_checkers_for : String → Exec Tables (List String)
get_checkers_for target t = (
  ok (
      distinct (
        map (λ (c : CheckerReport). c.checker_id)
          (select
            (λ c.
              any
                (λ r.
                  str_eq c.frozen_proposal_id r.proposal.frozen_proposal_id
                  && is_active_for target r)
                t.proposals)
            t.reports))),
  t,
)

-- WHERE frozen_proposal_id = ?
unfoldable pub is_report_on : String → CheckerReport → Bool
is_report_on id c = str_eq c.frozen_proposal_id id

unfoldable pub get_reports_for : String → Exec Tables (List CheckerReport)
get_reports_for id t = (ok (select (is_report_on id) t.reports), t)

unfoldable pub get_candidate_verdict : String → Exec Tables (Option String)
get_candidate_verdict id t = (
  ok (
      Option.map (λ (c : CheckerReport). c.verdict)
        (latest (λ c. c.created_at) (select (is_report_on id) t.reports))),
  t,
)

unfoldable pub get_current_content_hash : String → Exec Tables (Option String)
get_current_content_hash target t =
    (ok (Option.map (λ (r : FrozenRow). r.proposal.content_hash) (active_row target t)), t)

abbrev pub status_key : StatusRow → String
status_key r = r.target_id

unfoldable pub get_fpel_status : String → Exec Tables (Option String)
get_fpel_status target t =
    (ok (Option.map (λ (r : StatusRow). r.status) (find_key status_key target t.statuses)), t)

-- INSERT … ON CONFLICT DO UPDATE
unfoldable pub save_fpel_status : String → String → Exec Tables (Unit {0})
save_fpel_status target status t = (
  ok tt,
  record t {
    statuses =
        if any (λ r. str_eq r.target_id target) t.statuses
        then update_where (λ r. str_eq r.target_id target) (λ r. record r { status = status })
            t.statuses
        else t.statuses ++ record { target_id = target; status = status } ∷ [];
  },
)

unfoldable pub has_failed : String → List FailureRow → Bool
has_failed id rows = any (λ r. str_eq r.frozen_proposal_id id) rows

-- INSERT OR IGNORE, which still raises where the foreign key fails.
unfoldable pub mark_failed : String → Option String → Exec Tables (Unit {0})
mark_failed id reason t =
    if has_failed id t.failures
    then (ok tt, t)
    else if has_proposal id t.proposals
    then (
      ok tt,
      record t {
        failures = t.failures ++ record { frozen_proposal_id = id; reason = reason } ∷ [];
      },
    )
    else (err integrity_error, t)

unfoldable pub is_failed : String → Exec Tables Bool
is_failed id t = (ok (has_failed id t.failures), t)

unfoldable pub save_frozen_with_sealed_verdict :
    FrozenProposal → SealedVerdict → List String → ℕ → Exec Tables (Unit {0})
save_frozen_with_sealed_verdict p v supersede_ids now t =
    let rows =
      supersede supersede_ids t.proposals ++ record { proposal = p; created_at = now } ∷ [] in
    if breaks_proposal p (supersede supersede_ids t.proposals) || breaks_verdict v t.verdicts rows
    then (err integrity_error, t)
    else (ok tt, record t { proposals = rows; verdicts = t.verdicts ++ v ∷ [] })
