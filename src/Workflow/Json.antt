-- ===== src/Workflow/Json.antt =====
-- JSON values as Python's `json` gives them, with numbers that are natural, and reading them: what
-- `data[key]`, `data.get(key, default)` and the declared types of the fields come to. Python keeps
-- a value of another type than the declared one unseen; here reading it raises TypeError.
use fork_agent.Prelude.{
  ℕ, String, Bool, true, false, Option, none, some, List, [], ◌∷◌, ◌≡◌, refl, if◌then◌else◌, str_eq,
  Result, ok, err, type_error, key_error, attribute_error, map, ap, All, not, ltb, is_empty,
}

mutual
  pub data Json : Type 0 where
    null : Json
    bool : Bool → Json
    number : ℕ → Json
    text : String → Json
    array : Items → Json
    object : Fields → Json

  pub data Items : Type 0 where
    nil : Items
    cons : Json → Items → Items

  pub data Fields : Type 0 where
    end : Fields
    field : String → Json → Fields → Fields

module _ {A B : Type 0} where
  -- One computation that may raise after another.
  infixl 10 ◌>>=◌
  unfoldable pub ◌>>=◌ : Result A → (A → Result B) → Result B
  ◌>>=◌ (ok a) k = k a
  ◌>>=◌ (err e) k = err e

  -- [f(x) for x in xs]
  unfoldable pub each : (A → Result B) → List A → Result (List B)
  each f [] = ok []
  each f (x ∷ xs) =
      let rest = each f xs in
      elim (f x) [ err e ↦ err e | ok y ↦ elim rest [ ok ys ↦ ok (y ∷ ys) | err e ↦ err e ] ]

  pub each-inverse :
      (f : A → Result B) (g : B → A) (ys : List B)
      → All (λ y. f (g y) ≡ ok y) ys
      → each f (map g ys) ≡ ok ys
  unfolding each
  each-inverse f g [] h = refl
  each-inverse f g (y ∷ ys) h = rw (h.0, each-inverse f g ys h.1)

-- The value under a key, if there is one.
unfoldable pub lookup : String → Fields → Option Json
lookup key end = none
lookup key (field k v fs) = if str_eq k key then some v else lookup key fs

-- data[key]
unfoldable pub need : String → Fields → Result Json
need key fs = elim (lookup key fs) [ some v ↦ ok v | none ↦ err key_error ]

-- data.get(key, default)
unfoldable pub get_or : String → Json → Fields → Json
get_or key default fs = elim (lookup key fs) [ some v ↦ v | none ↦ default ]

unfoldable pub as_text : Json → Result String
as_text (text s) = ok s
as_text j = err type_error

unfoldable pub as_number : Json → Result ℕ
as_number (number n) = ok n
as_number j = err type_error

unfoldable pub as_bool : Json → Result Bool
as_bool (bool b) = ok b
as_bool j = err type_error

-- A value that may be None.
unfoldable pub as_text_or_none : Json → Result (Option String)
as_text_or_none null = ok none
as_text_or_none (text s) = ok (some s)
as_text_or_none j = err type_error

unfoldable pub as_number_or_none : Json → Result (Option ℕ)
as_number_or_none null = ok none
as_number_or_none (number n) = ok (some n)
as_number_or_none j = err type_error

abbrev pub to_list : Items → List Json
to_list nil = []
to_list (cons j js) = j ∷ to_list js

abbrev pub from_list : List Json → Items
from_list [] = nil
from_list (j ∷ js) = cons j (from_list js)

unfoldable pub as_list : Json → Result (List Json)
as_list (array js) = ok (to_list js)
as_list j = err type_error

abbrev pub to_pairs : Fields → List (String × Json)
to_pairs end = []
to_pairs (field k v fs) = (k, v) ∷ to_pairs fs

abbrev pub from_pairs : List (String × Json) → Fields
from_pairs [] = end
from_pairs (p ∷ ps) = field p.0 p.1 (from_pairs ps)

-- `j.items()`
unfoldable pub as_items : Json → Result (List (String × Json))
as_items (object fs) = ok (to_pairs fs)
as_items j = err attribute_error

-- A value that is indexed by keys.
unfoldable pub as_object : Json → Result Fields
as_object (object fs) = ok fs
as_object j = err type_error

-- tuple(j), for a tuple of texts
unfoldable pub as_texts : Json → Result (List String)
as_texts j = do js ← as_list j; each as_text js

unfoldable pub of_texts : List String → Json
of_texts ss = array (from_list (map text ss))

unfoldable pub of_text_or_none : Option String → Json
of_text_or_none none = null
of_text_or_none (some s) = text s

unfoldable pub of_number_or_none : Option ℕ → Json
of_number_or_none none = null
of_number_or_none (some n) = number n

pub to_list-from_list : (js : List Json) → to_list (from_list js) ≡ js
to_list-from_list [] = refl
to_list-from_list (j ∷ js) = ap (◌∷◌ j) (to_list-from_list js)

pub to_pairs-from_pairs : (ps : List (String × Json)) → to_pairs (from_pairs ps) ≡ ps
to_pairs-from_pairs [] = refl
to_pairs-from_pairs (p ∷ ps) = ap (◌∷◌ p) (to_pairs-from_pairs ps)

pub as_texts-of_texts : (ss : List String) → as_texts (of_texts ss) ≡ ok ss
unfolding as_texts of_texts as_list ◌>>=◌ as_text
as_texts-of_texts ss =
    rw (to_list-from_list (map text ss)) (each-inverse as_text text ss (each_text ss))
  where
    each_text : (ss : List String) → All (λ s. as_text (text s) ≡ ok s) ss
    each_text [] = tt
    each_text (s ∷ ss) = (refl, each_text ss)

pub as_text-of_text_or_none : (o : Option String) → as_text_or_none (of_text_or_none o) ≡ ok o
unfolding as_text_or_none of_text_or_none
as_text-of_text_or_none none = refl
as_text-of_text_or_none (some s) = refl

pub as_number-of_number_or_none : (o : Option ℕ) → as_number_or_none (of_number_or_none o) ≡ ok o
unfolding as_number_or_none of_number_or_none
as_number-of_number_or_none none = refl
as_number-of_number_or_none (some n) = refl

-- bool(j)
unfoldable pub is_truthy : Json → Bool
is_truthy null = false
is_truthy (bool b) = b
is_truthy (number n) = ltb 0 n
is_truthy (text s) = not (is_empty s)
is_truthy (array nil) = false
is_truthy (array (cons j js)) = true
is_truthy (object end) = false
is_truthy (object (field k v fs)) = true

-- `data.get("schema_version")`, where None is version 0.
abbrev pub or_zero : Json → Json
or_zero null = number 0
or_zero j = j
