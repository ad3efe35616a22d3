-- ===== src/Prelude/Table.antt =====
-- SQLite tables as lists of rows in the order of insertion, under the documented meaning of the
-- statements that the repositories send: SELECT by key or by test, UPDATE … WHERE, ORDER BY.
-- Rows that an ORDER BY leaves tied stand in the order of insertion.
use Prim.Native.Nat.{ℕ, suc}
use Prim.Native.String.{String}
use mathlib.Core.Path.{◌≡◌, refl, ap, ◌∙◌}
use mathlib.Core.Bool.{Bool, true, not, ◌&&◌, ◌||◌}
use mathlib.Core.Option.{Option, none, some}
use mathlib.Core.Option
use mathlib.Core.List.{List, [], ◌∷◌, ◌++◌}
use native.Mathlib.Omega.{arith}
use text.Mathlib.Text.{◌==◌ as str_eq}
use text.Mathlib.TextEquality.{eq_iff}
use fork_agent.Prelude.Tests.{if◌then◌else◌, ltb}
use fork_agent.Prelude.Lists.{any, select, length}

-- COALESCE(?, column)
abbrev pub coalesce {ℓ} : {A : Type ℓ} → Option A → Option A → Option A
coalesce none old = old
coalesce (some a) old = some a

module _ {ℓ} {A : Type ℓ} where
  -- What an UPDATE makes of one row.
  abbrev pub revise : (A → Bool) → (A → A) → A → A
  revise p f r = if p r then f r else r

  -- UPDATE … SET f WHERE p
  unfoldable pub update_where : (A → Bool) → (A → A) → List A → List A
  update_where p f [] = []
  update_where p f (r ∷ rs) = revise p f r ∷ update_where p f rs

  -- ORDER BY time DESC LIMIT 1
  unfoldable pub latest : (A → ℕ) → List A → Option A
  latest time [] = none
  latest time (r ∷ rs) = elim (latest time rs) [
    | none ↦ some r
    | some b ↦ if ltb (time r) (time b) then some b else some r
  ]

  -- One row into a list that is in order; a row that precedes it strictly stays in front.
  insert_by : (A → A → Bool) → A → List A → List A
  insert_by precedes r [] = r ∷ []
  insert_by precedes r (s ∷ rs) =
      let rest = insert_by precedes r rs in if precedes s r then s ∷ rest else r ∷ s ∷ rs

  -- ORDER BY, for the order in which one row strictly precedes another.
  unfoldable pub order_by : (A → A → Bool) → List A → List A
  unfolding insert_by
  order_by precedes [] = []
  order_by precedes (r ∷ rs) = insert_by precedes r (order_by precedes rs)

  -- ORDER BY time DESC
  abbrev pub order_desc : (A → ℕ) → List A → List A
  order_desc time rs = order_by (λ s r. ltb (time r) (time s)) rs

  -- ORDER BY time ASC
  abbrev pub order_asc : (A → ℕ) → List A → List A
  order_asc time rs = order_by (λ s r. ltb (time s) (time r)) rs

module _ {ℓ} {A : Type ℓ} where
  any-insert_by :
      (p : A → Bool) (precedes : A → A → Bool) (r : A) (rs : List A)
      → any p (insert_by precedes r rs) ≡ (p r || any p rs)
  unfolding insert_by
  any-insert_by p precedes r [] = refl
  any-insert_by p precedes r (s ∷ rs) = ground (arith, any-insert_by p precedes r rs)

  -- Sorting keeps which tests some row passes.
  pub any-order_by :
      (p : A → Bool) (precedes : A → A → Bool) (rs : List A)
      → any p (order_by precedes rs) ≡ any p rs
  unfolding order_by
  any-order_by p precedes [] = refl
  any-order_by p precedes (r ∷ rs) =
      any-insert_by p precedes r (order_by precedes rs)
      ∙ ap (◌||◌ (p r)) (any-order_by p precedes rs)

  -- No row of a list precedes the one before it.
  abbrev pub is_ordered : (A → A → Bool) → List A → Bool
  is_ordered precedes [] = true
  is_ordered precedes (r ∷ []) = true
  is_ordered precedes (r ∷ s ∷ rs) = not (precedes s r) && is_ordered precedes (s ∷ rs)

  -- ORDER BY keeps such a list.
  pub order_by-ordered :
      (precedes : A → A → Bool) (rs : List A)
      → is_ordered precedes rs ≡ true
      → order_by precedes rs ≡ rs
  unfolding order_by insert_by
  order_by-ordered precedes [] h = refl
  order_by-ordered precedes (r ∷ []) h = refl
  order_by-ordered precedes (r ∷ s ∷ rs) h =
      ap (insert_by precedes r) (order_by-ordered precedes (s ∷ rs) (ground arith)) ∙ ground arith

  length-insert_by :
      (precedes : A → A → Bool) (r : A) (rs : List A)
      → length (insert_by precedes r rs) ≡ suc (length rs)
  unfolding insert_by
  length-insert_by precedes r [] = refl
  length-insert_by precedes r (s ∷ rs) = ground (arith, length-insert_by precedes r rs)

  pub length-order_by :
      (precedes : A → A → Bool) (rs : List A) → length (order_by precedes rs) ≡ length rs
  unfolding order_by
  length-order_by precedes [] = refl
  length-order_by precedes (r ∷ rs) =
      length-insert_by precedes r (order_by precedes rs) ∙ ap suc (length-order_by precedes rs)

  pub any-select : (p q : A → Bool) (rs : List A) → any p (select q rs) ≡ any (λ r. q r && p r) rs
  any-select p q [] = refl
  any-select p q (r ∷ rs) = ground (arith, any-select p q rs)

module _ {ℓ} {A : Type ℓ} (key : A → String) where
  -- SELECT … WHERE key = ?
  unfoldable pub find_key : String → List A → Option A
  find_key k [] = none
  find_key k (r ∷ rs) = if str_eq (key r) k then some r else find_key k rs

  pub find_key-append :
      (k : String) (rs : List A) (r : A)
      → find_key k (rs ++ r ∷ []) ≡ elim (find_key k rs) [
        | some found ↦ some found
        | none ↦ if str_eq (key r) k then some r else none
      ]
  unfolding find_key
  find_key-append k [] r = refl
  find_key-append k (s ∷ rs) r = ground (arith, find_key-append k rs r)

  -- An UPDATE that leaves the key alone is an update of the row that a SELECT by key finds.
  pub find_key-update_where :
      (p : A → Bool) (f : A → A)
      → ((r : A) → key (f r) ≡ key r)
      → (k : String) (rs : List A)
      → find_key k (update_where p f rs) ≡ Option.map (revise p f) (find_key k rs)
  unfolding find_key update_where
  find_key-update_where p f same k [] = refl
  find_key-update_where p f same k (r ∷ rs) =
      ground (arith, same r, find_key-update_where p f same k rs)

  pub find_key-key : (k : String) (rs : List A) (r : A) → find_key k rs ≡ some r → key r ≡ k
  unfolding find_key
  find_key-key k [] r h = ground arith
  find_key-key k (s ∷ rs) r h = ground (arith, find_key-key k rs r, eq_iff (key s) k)

  -- A row that a SELECT by key finds is a row of the table.
  pub any-find_key :
      (p : A → Bool) (k : String) (rs : List A) (r : A)
      → find_key k rs ≡ some r
      → p r ≡ true
      → any p rs ≡ true
  unfolding find_key
  any-find_key p k [] r h e = absurd (ground arith)
  any-find_key p k (s ∷ rs) r h e = ground (arith, any-find_key p k rs r)
