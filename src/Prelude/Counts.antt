-- ===== src/Prelude/Counts.antt =====
-- Counting the rows of a table that pass a test, before and after an UPDATE.
use Prim.Native.Nat.{◌+◌, ◌≤◌}
use mathlib.Core.Path.{◌≡◌, refl}
use mathlib.Core.Logic.{inl, inr}
use mathlib.Core.Bool.{Bool, true, false, not, ◌&&◌}
use mathlib.Core.List.{List, [], ◌∷◌, ◌++◌}
use native.Mathlib.Omega.{arith}
use fork_agent.Prelude.Tests.{Bool-cases}
use fork_agent.Prelude.Lists.{any, select, count_where}
use fork_agent.Prelude.Table.{update_where}

module _ {ℓ} {A : Type ℓ} where
  pub count_where-append :
      (p : A → Bool) (xs ys : List A)
      → count_where p (xs ++ ys) ≡ count_where p xs + count_where p ys
  count_where-append p [] ys = omega arith
  count_where-append p (x ∷ xs) ys = ground (arith, count_where-append p xs ys)

  pub count_where-none : (p : A → Bool) (xs : List A) → any p xs ≡ false → count_where p xs ≡ 0
  count_where-none p [] h = refl
  count_where-none p (x ∷ xs) h = ground (arith, count_where-none p xs)

  -- A test that some row passes and another that none passes: a row that tells them apart.
  pub any_apart :
      (p q : A → Bool) (xs : List A)
      → any p xs ≡ true
      → any q xs ≡ false
      → (x : A) × (p x ≡ true) × (q x ≡ false)
  any_apart p q [] h k = absurd (cc)
  any_apart p q (x ∷ xs) h k = elim (Bool-cases (p x)) [
    | inl e ↦ (x, e, ground arith)
    | inr e ↦ any_apart p q xs (ground arith) (ground arith)
  ]

  -- An UPDATE after which no row passes that did not pass before.
  pub count_where-update_le :
      (p t : A → Bool) (f : A → A)
      → ((r : A) → t r ≡ true → p (f r) ≡ true → p r ≡ true)
      → (rs : List A) → count_where p (update_where t f rs) ≤ count_where p rs
  unfolding update_where
  count_where-update_le p t f h [] = omega arith
  count_where-update_le p t f h (r ∷ rs) = ground (arith, h r, count_where-update_le p t f h rs)

  -- The same where no row has a mark, for rows without the mark.
  pub count_where-update_unmarked :
      (p t m : A → Bool) (f : A → A)
      → ((r : A) → t r ≡ true → m r ≡ false → p (f r) ≡ true → p r ≡ true)
      → (rs : List A) → any m rs ≡ false
      → count_where p (update_where t f rs) ≤ count_where p rs
  unfolding update_where
  count_where-update_unmarked p t m f h [] e = omega arith
  count_where-update_unmarked p t m f h (r ∷ rs) e =
      ground (arith, h r, count_where-update_unmarked p t m f h rs)

  -- Rows that pass after an UPDATE of rows with mark `m` have the mark or passed before without it.
  pub count_where-update_marked :
      (p t m : A → Bool) (f : A → A)
      → ((r : A) → t r ≡ true → m r ≡ true)
      → (rs : List A)
      → count_where p (update_where t f rs)
        ≤ count_where (λ r. p r && not (m r)) rs + count_where m rs
  unfolding update_where
  count_where-update_marked p t m f h [] = omega arith
  count_where-update_marked p t m f h (r ∷ rs) =
      ground (arith, h r, count_where-update_marked p t m f h rs)

  pub count_where-update_same :
      (p t : A → Bool) (f : A → A)
      → ((r : A) → t r ≡ true → p (f r) ≡ p r)
      → (rs : List A) → count_where p (update_where t f rs) ≡ count_where p rs
  unfolding update_where
  count_where-update_same p t f h [] = refl
  count_where-update_same p t f h (r ∷ rs) = ground (arith, h r, count_where-update_same p t f h rs)

  pub any-count_where : (p : A → Bool) (xs : List A) → count_where p xs ≡ 0 → any p xs ≡ false
  any-count_where p [] h = refl
  any-count_where p (x ∷ xs) h = ground (arith, any-count_where p xs)

  -- An UPDATE that no row matches.
  pub update_where-none :
      (t : A → Bool) (f : A → A) (rs : List A) → any t rs ≡ false → update_where t f rs ≡ rs
  unfolding update_where
  update_where-none t f [] e = refl
  update_where-none t f (r ∷ rs) e = ground (arith, update_where-none t f rs)

  -- Rows that a SELECT leaves out.
  pub count_where-select_le :
      (p q : A → Bool) (rs : List A) → count_where p (select q rs) ≤ count_where p rs
  count_where-select_le p q [] = omega arith
  count_where-select_le p q (r ∷ rs) = ground (arith, count_where-select_le p q rs)

  pub any-select_none :
      (p q : A → Bool) (rs : List A)
      → ((r : A) → p r ≡ true → q r ≡ false)
      → any p (select q rs) ≡ false
  any-select_none p q [] h = refl
  any-select_none p q (r ∷ rs) h = ground (arith, h r, any-select_none p q rs)
