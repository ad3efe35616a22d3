-- ===== src/Prelude/Monad.antt =====
-- Methods that read and write a store and may raise. What was written before a raise stays
-- written, so the store comes back beside the exception. Messages of exceptions are left out.

-- The exception classes that the modelled code raises. `os_error` is OSError; `integrity_error` is
-- sqlite3.IntegrityError where a repository does not wrap it.
pub data Exn : Type 0 where
  value_error type_error key_error attribute_error task_transition_error repository_error : Exn
  integrity_error os_error unsupported_schema_error invalid_state_error : Exn

pub data Result {ℓ} (A : Type ℓ) : Type ℓ where
  ok : A → Result A
  err : Exn → Result A

abbrev pub Exec : Type 0 → Type 0 → Type 0
Exec S A = S → Result A × S

module _ {S A : Type 0} where
  unfoldable pub pure : A → Exec S A
  pure a s = (ok a, s)

  unfoldable pub raise : Exn → Exec S A
  raise e s = (err e, s)

module _ {S A B : Type 0} where
  -- What comes after a method that gave this result.
  abbrev pub proceed : Result A → (A → Exec S B) → Exec S B
  proceed (ok a) k s = k a s
  proceed (err e) k s = (err e, s)

  infixl 10 ◌>>=◌ ◌>>◌
  unfoldable pub ◌>>=◌ : Exec S A → (A → Exec S B) → Exec S B
  unfolding pure raise
  ◌>>=◌ m k s = let (r, s') = m s in proceed r k s'

  abbrev pub ◌>>◌ : Exec S A → Exec S B → Exec S B
  m >> k = m >>= λ _. k
