-- ===== src/Prelude/Relate.antt =====
-- What every run of a method does to the store: a reflexive and transitive relation from the store
-- before to the store after, whether the method returns or raises.
use mathlib.Core.Path.{◌≡◌, refl}
use mathlib.Core.Bool.{Bool, true, false}
use fork_agent.Prelude.Tests.{if◌then◌else◌}
use fork_agent.Prelude.Monad.{Exec, Exn, Result, ok, err, pure, raise, ◌>>=◌, proceed}

pub record Preorder (S : Type 0) : Type 1 where
  pub rel : S → S → Type 0
  pub rel_refl : (s : S) → rel s s
  pub rel_trans : (s t u : S) → rel s t → rel t u → rel s u

-- Any two stores.
abbrev pub free_order : {S : Type 0} → Preorder S
free_order = record { rel = λ s t. Unit {0}; rel_refl = λ s. tt; rel_trans = λ s t u a b. tt }

-- `m` relates each store to the one that it leaves.
pub record Follows {S A : Type 0} (R : Preorder S) (m : Exec S A) : Type 0 where
  pub at : (s : S) → R.rel s (m s).1

module _ {S A : Type 0} {R : Preorder S} where
  pub Follows-pure : (a : A) → Follows R (pure {S = S} a)
  unfolding pure
  Follows-pure a = record { at = R.rel_refl }

  pub Follows-raise : (e : Exn) → Follows R (raise {S = S} {A = A} e)
  unfolding raise
  Follows-raise e = record { at = R.rel_refl }

  pub Follows-if :
      (b : Bool) (m n : Exec S A)
      → (b ≡ true → Follows R m)
      → Follows R n
      → Follows R (if b then m else n)
  Follows-if true m n fm fn = fm refl
  Follows-if false m n fm fn = fn

module _ {S A B : Type 0} {R : Preorder S} where
  Follows-proceed :
      (r : Result A) (k : A → Exec S B)
      → ((a : A) → Follows R (k a))
      → (s : S) → R.rel s (proceed r k s).1
  Follows-proceed (ok a) k fk s = (fk a).at s
  Follows-proceed (err e) k fk s = R.rel_refl s

  pub Follows-bind :
      (m : Exec S A) (k : A → Exec S B)
      → Follows R m
      → ((a : A) → Follows R (k a))
      → Follows R (m >>= k)
  unfolding ◌>>=◌
  Follows-bind m k fm fk = record {
    at = λ s.
        let (r, t) = m s in R.rel_trans s t (proceed r k t).1 (fm.at s) (Follows-proceed r k fk t);
  }

pub ruleset follow_rules = (Follows-pure, Follows-raise, Follows-if, Follows-bind)
