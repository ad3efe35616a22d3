-- ===== src/Launch/Entity/Key.antt =====
-- The texts that the pattern of canonical keys accepts.
use fork_agent.Prelude.{
  ℕ, suc, ◌≤◌, true, false, ◌&&◌, List, [], ◌∷◌, ◌++◌, ◌≡◌, ◌↔◌, ◌⊎◌, inl, inr, refl, ap, arith,
  leb, ◌==◌, if◌then◌else◌, all, length, Bool-cases, ==_iff,
}
use fork_agent.Launch.Entity.{is_key_char, newline, key_rest, body_length, matches_codes}

-- A body of 1 to 256 key characters, with or without one newline after it.
pub record IsKey (cs : List ℕ) : Type 0 where
  pub body : List ℕ
  pub chars : all is_key_char body ≡ true
  pub nonempty : 1 ≤ length body
  pub short : length body ≤ 256
  pub text : (cs ≡ body) ⊎ (cs ≡ body ++ newline ∷ [])

newline_no_key_char : (c : ℕ) → is_key_char c ≡ true → (c == newline) ≡ false
unfolding is_key_char
newline_no_key_char c h = ground arith

-- What the pattern makes of a text of key characters, and of such a text with a newline after it.
record Accepts (cs : List ℕ) (n : ℕ) : Type 0 where
  rest : key_rest cs ≡ true
  size : body_length cs ≡ n

plain_accepted : (cs : List ℕ) → all is_key_char cs ≡ true → Accepts cs (length cs)
unfolding key_rest body_length
plain_accepted [] h = record { rest = refl; size = refl }
plain_accepted (c ∷ []) h = ground (arith, newline_no_key_char c)
plain_accepted (c ∷ d ∷ ds) h = ground (arith, plain_accepted (d ∷ ds))

newline_accepted :
    (cs : List ℕ) → all is_key_char cs ≡ true → Accepts (cs ++ newline ∷ []) (length cs)
unfolding key_rest body_length
newline_accepted [] h = ground arith
newline_accepted (c ∷ []) h = ground (arith, newline_no_key_char c)
newline_accepted (c ∷ d ∷ ds) h = ground (arith, newline_accepted (d ∷ ds))

-- The text before a final newline.
body_of : List ℕ → List ℕ
body_of [] = []
body_of (c ∷ cs) =
    let rest = body_of cs in
    elim cs [ [] ↦ if c == newline then [] else c ∷ [] | d ∷ ds ↦ c ∷ rest ]

record Splits (cs : List ℕ) : Type 0 where
  chars : all is_key_char (body_of cs) ≡ true
  size : length (body_of cs) ≡ body_length cs
  text : (cs ≡ body_of cs) ⊎ (cs ≡ body_of cs ++ newline ∷ [])

cons_text :
    (c : ℕ) {cs body : List ℕ}
    → (cs ≡ body) ⊎ (cs ≡ body ++ newline ∷ [])
    → (c ∷ cs ≡ c ∷ body) ⊎ (c ∷ cs ≡ c ∷ (body ++ newline ∷ []))
cons_text c (inl e) = inl (ap (◌∷◌ c) e)
cons_text c (inr e) = inr (ap (◌∷◌ c) e)

rest-Splits : (cs : List ℕ) → key_rest cs ≡ true → Splits cs
unfolding key_rest body_length body_of
rest-Splits [] h = record { chars = refl; size = refl; text = inl refl }
rest-Splits (c ∷ []) h = elim (Bool-cases (c == newline)) [
  | inl e ↦ record {
    chars = rw e;
    size = rw e;
    text = rw e (inr (ap (λ x. x ∷ []) ((==_iff c newline).0 e)));
  }
  | inr e ↦ record { chars = ground arith; size = ground arith; text = rw e (inl refl) }
]
rest-Splits (c ∷ d ∷ ds) h =
    let below = rest-Splits (d ∷ ds) (ground arith) in
    record {
      chars = ground (arith, below.chars);
      size = ap suc below.size;
      text = cons_text c below.text;
    }

fits :
    (cs : List ℕ) {n : ℕ}
    → Accepts cs n
    → 1 ≤ n
    → n ≤ 256
    → (key_rest cs && leb 1 (body_length cs) && leb (body_length cs) 256) ≡ true
fits cs a h k = rw (a.rest, a.size) (ground arith)

-- The pattern of canonical keys accepts a text exactly if it is 1 to 256 letters, digits, dots,
-- underscores, colons, slashes and hyphens, possibly with one newline at the end.
pub matches_codes_iff : (cs : List ℕ) → (matches_codes cs ≡ true) ↔ IsKey cs
unfolding matches_codes
matches_codes_iff cs = (sound, complete)
  where
    sound : (key_rest cs && leb 1 (body_length cs) && leb (body_length cs) 256) ≡ true → IsKey cs
    sound h =
        let s = rest-Splits cs (ground arith) in
        record {
          body = body_of cs;
          chars = s.chars;
          nonempty = ground (arith, s.size);
          short = ground (arith, s.size);
          text = s.text;
        }

    complete : IsKey cs → (key_rest cs && leb 1 (body_length cs) && leb (body_length cs) 256) ≡ true
    complete k = elim k.text [
      | inl e ↦ rw e (fits k.body (plain_accepted k.body k.chars) k.nonempty k.short)
      | inr e ↦ rw e (fits _ (newline_accepted k.body k.chars) k.nonempty k.short)
    ]
