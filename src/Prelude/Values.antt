-- ===== src/Prelude/Values.antt =====
-- What holds of every value that a method returns, whatever the store.
use mathlib.Core.Path.{◌≡◌, subst}
use mathlib.Core.Bool.{Bool, true, false}
use fork_agent.Prelude.Tests.{if◌then◌else◌}
use fork_agent.Prelude.Monad.{Exec, Exn, Result, ok, err, pure, raise, ◌>>=◌, proceed}

pub record Yields {S A : Type 0} (P : A → Type 0) (m : Exec S A) : Type 0 where
  pub at : (s : S) (a : A) → (m s).0 ≡ ok a → P a

value_of : {A : Type 0} → A → Result A → A
value_of a (ok b) = b
value_of a (err e) = a

pub ok-injective : {A : Type 0} {a b : A} → ok a ≡ ok b → a ≡ b
unfolding value_of
ok-injective {A} {a} e = λ i. value_of a (e i)

module _ {S A : Type 0} {P : A → Type 0} where
  pub Yields-pure : (a : A) → P a → Yields P (pure {S = S} a)
  unfolding pure
  Yields-pure a h = record { at = λ s b e. subst P (ok-injective e) h }

  pub Yields-raise : (e : Exn) → Yields P (raise {S = S} {A = A} e)
  unfolding raise
  Yields-raise e = record { at = λ s b h. absurd (cc) }

  pub Yields-if :
      (b : Bool) (m n : Exec S A) → Yields P m → Yields P n → Yields P (if b then m else n)
  Yields-if true m n ym yn = ym
  Yields-if false m n ym yn = yn

module _ {S A B : Type 0} {P : B → Type 0} where
  Yields-proceed :
      (r : Result A) (k : A → Exec S B)
      → ((a : A) → Yields P (k a))
      → (s : S) (b : B) → (proceed r k s).0 ≡ ok b
      → P b
  Yields-proceed (ok a) k y s b h = (y a).at s b h
  Yields-proceed (err e) k y s b h = absurd (cc)

  pub Yields-bind :
      (m : Exec S A) (k : A → Exec S B) → ((a : A) → Yields P (k a)) → Yields P (m >>= k)
  unfolding ◌>>=◌
  Yields-bind m k y = record { at = λ s. let (r, t) = m s in Yields-proceed r k y t }

pub ruleset yield_rules = (Yields-pure, Yields-raise, Yields-if, Yields-bind)
