-- ===== src/Workflow/Plan/Decisions.antt =====
-- Decisions of a plan that are added and looked up.
use fork_agent.Prelude.{
  String, Bool, true, false, Option, none, some, List, [], ◌∷◌, ◌++◌, ◌≡◌, ◌≢◌, refl, sym, ap, ◌∙◌,
  inl, inr, arith, if◌then◌else◌, any, is_empty, str_eq, str_eq_iff, str_eq_self, ok, err,
  Bool-cases, Exn, ok-injective, subst, revise, str_eq_apart, find_key-append, find_key-key,
  find_key-update_where, find_key, update_where,
}
use mathlib.Core.Option
use fork_agent.Workflow.Json.{◌>>=◌}
use fork_agent.Workflow.Entity.{DecisionStatus, UserDecision, construct_decision}
use fork_agent.Workflow.Plan.{
  PlanState, decision_key, put_decision, add_decision, get_decision, decision_of,
}

update_same :
    (key : String) (d : UserDecision) (es : List (String × UserDecision))
    → any (λ e. str_eq (decision_key e) key) es ≡ true
    → find_key decision_key key (update_where (λ e. str_eq (decision_key e) key) (λ e. (e.0, d)) es)
      ≡ some (key, d)
unfolding find_key update_where
update_same key d [] h = absurd (cc)
update_same key d (e ∷ es) h = elim (Bool-cases (str_eq e.0 key)) [
  | inr far ↦ ground (arith, update_same key d es)
  | inl hit ↦ rw hit (rw hit (ap (λ k. some (k, d)) ((str_eq_iff e.0 key).0 hit)))
]

append_same :
    (key : String) (d : UserDecision) (es : List (String × UserDecision))
    → any (λ e. str_eq (decision_key e) key) es ≡ false
    → find_key decision_key key (es ++ (key, d) ∷ []) ≡ some (key, d)
unfolding find_key
append_same key d [] h = ground (arith, str_eq_self key)
append_same key d (e ∷ es) h = ground (arith, append_same key d es)

put_same :
    (key : String) (d : UserDecision) (es : List (String × UserDecision))
    → find_key decision_key key (put_decision key d es) ≡ some (key, d)
unfolding put_decision
put_same key d es = elim (Bool-cases (any (λ e. str_eq (decision_key e) key) es)) [
  | inl hit ↦ rw hit (update_same key d es hit)
  | inr miss ↦ rw miss (append_same key d es miss)
]

put_other :
    (key k : String) (d : UserDecision) (es : List (String × UserDecision))
    → key ≢ k
    → find_key decision_key k (put_decision key d es) ≡ find_key decision_key k es
unfolding put_decision
put_other key k d es apart = elim (Bool-cases (any (λ e. str_eq (decision_key e) key) es)) [
  | inl hit ↦ rw hit (
      find_key-update_where decision_key (λ e. str_eq (decision_key e) key) (λ e. (e.0, d))
        (λ e. refl) k es
      ∙ missed (find_key decision_key k es) refl)
  | inr miss ↦ rw miss (
      find_key-append decision_key k es (key, d)
      ∙ added (find_key decision_key k es) (str_eq key k) (str_eq_apart key k apart))
]
  where
    missed :
        (o : Option (String × UserDecision))
        → find_key decision_key k es ≡ o
        → Option.map (revise (λ e. str_eq (decision_key e) key) (λ e. (e.0, d))) o ≡ o
    missed none e = refl
    missed (some x) e =
        rw (str_eq_apart x.0 key λ same. apart (sym same ∙ find_key-key decision_key k es x e)) refl

    added :
        (o : Option (String × UserDecision)) (b : Bool)
        → b ≡ false
        → (elim o as (λ _. Option (String × UserDecision)) [
          | some found ↦ some found
          | none ↦ if b then some (key, d) else none
        ])
          ≡ o
    added none b h = ground arith
    added (some x) b h = refl

-- A decision that was added is the one that is found under its key, and under every other key the
-- same decision is found as before.
pub add_decision-get_decision :
    (key value : String) (status : DecisionStatus) (rationale : Option String) (s t : PlanState)
    → add_decision key value status rationale s ≡ ok t
    → (get_decision key t
        ≡ some (record { key = key; value = value; status = status; rationale = rationale }))
      × ((k : String) → key ≢ k → get_decision k t ≡ get_decision k s)
unfolding add_decision construct_decision get_decision ◌>>=◌
add_decision-get_decision key value status rationale s t h = elim (Bool-cases (is_empty key)) [
  | inl nameless ↦ absurd (err≢ok (rw nameless at h))
  | inr named ↦
      subst
        (λ t.
          (get_decision key t ≡ some d)
          × ((k : String) → key ≢ k → get_decision k t ≡ get_decision k s))
        (ok-injective (rw named at h))
        (
          ap decision_of (put_same key d s.decisions),
          λ k apart. ap decision_of (put_other key k d s.decisions apart),
        )
]
  where
    d : UserDecision
    d = record { key = key; value = value; status = status; rationale = rationale }

    err≢ok : {e : Exn} {a : PlanState} → err e ≡ ok a → ⊥
    err≢ok h = absurd (cc)
