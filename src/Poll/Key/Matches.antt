-- ===== src/Poll/Key/Matches.antt =====
-- The keys that the builders make, against the pattern that a launch record asks for.
use Prim.Native.String.{◌++◌ as join}
use Prim.Native.String.append
use Prim.Native.Char.{code}
use fork_agent.Prelude.{
  Option, ap, sym, subst, ◌∙◌, length-append, [], ◌∷◌, ℕ, zero, suc, ◌+◌, ◌≤◌, ◌≡◌, refl, inl, inr,
  Bool-cases, arith, String, Bool, true, ◌&&◌, ◌||◌, List, ◌++◌, all, length, codes, is_space,
  is_empty,
}
use fork_agent.Launch.Entity.{is_key_char, key_matches}
use fork_agent.Launch.Entity.Key.{matches_codes_iff}
use fork_agent.Fpel.Entity.{Hasher}
use fork_agent.Poll.Key.{
  strip_left, strip_right, strip, hyphenate, prefix, sanitize, build_task_key, build_manager_key,
  build_workflow_key, build_api_key, task_digest, or_empty,
}

-- A character that a key may have, or whitespace.
unfoldable pub is_key_text : ℕ → Bool
is_key_text c = is_key_char c || is_space c

module _ (p : ℕ → Bool) where
  strip_left-all : (s : String) → all p (codes s) ≡ true → all p (codes (strip_left s)) ≡ true
  unfolding strip_left
  strip_left-all String.[] h = refl
  strip_left-all (String.◌∷◌ c s) h = ground (arith, strip_left-all s)

  strip_right-all : (s : String) → all p (codes s) ≡ true → all p (codes (strip_right s)) ≡ true
  unfolding strip_right
  strip_right-all String.[] h = refl
  strip_right-all (String.◌∷◌ c s) h =
      elim (Bool-cases (is_space (code c) && is_empty (strip_right s))) [
        | inl last ↦ rw last refl
        | inr kept ↦ rw kept (ground (arith, strip_right-all s))
      ]

  prefix-all : (n : ℕ) (s : String) → all p (codes s) ≡ true → all p (codes (prefix n s)) ≡ true
  unfolding prefix
  prefix-all zero s h = refl
  prefix-all (suc n) String.[] h = refl
  prefix-all (suc n) (String.◌∷◌ c s) h = ground (arith, prefix-all n s)

length-prefix : (n : ℕ) (s : String) → length (codes (prefix n s)) ≤ n
unfolding prefix
length-prefix zero s = omega arith
length-prefix (suc n) String.[] = omega arith
length-prefix (suc n) (String.◌∷◌ c s) = omega (arith, length-prefix n s)

hyphen_is_key_char : is_key_char (code "-") ≡ true
unfolding is_key_char
hyphen_is_key_char = refl

-- Without whitespace, characters of a key are left.
hyphenate-all :
    (s : String) → all is_key_text (codes s) ≡ true → all is_key_char (codes (hyphenate s)) ≡ true
unfolding hyphenate is_key_text
hyphenate-all String.[] h = refl
hyphenate-all (String.◌∷◌ c s) h = ground (arith, hyphenate-all s, hyphen_is_key_char)

sanitize-all :
    (n : ℕ) (s : String)
    → all is_key_text (codes s) ≡ true
    → all is_key_char (codes (sanitize n s)) ≡ true
unfolding sanitize strip
sanitize-all n s h = prefix-all is_key_char n (hyphenate (strip s)) (
    hyphenate-all (strip s)
      (strip_left-all is_key_text (strip_right s) (strip_right-all is_key_text s h)))

-- A body of key characters that is not too long passes the pattern.
key_matches-all :
    (s : String)
    → all is_key_char (codes s) ≡ true
    → 1 ≤ length (codes s)
    → length (codes s) ≤ 256
    → key_matches s ≡ true
unfolding key_matches
key_matches-all s chars nonempty short =
    (matches_codes_iff (codes s)).1 (record {
      body = codes s;
      chars = chars;
      nonempty = nonempty;
      short = short;
      text = inl refl;
    })

codes-join : (s t : String) → codes (join s t) ≡ codes s ++ codes t
codes-join String.[] t = λ i. codes (append.nil t i)
codes-join (String.◌∷◌ c s) t =
    (λ i. codes (append.cons c s t i)) ∙ ap (◌∷◌ (code c)) (codes-join s t)

all-append :
    (xs ys : List ℕ)
    → all is_key_char xs ≡ true
    → all is_key_char ys ≡ true
    → all is_key_char (xs ++ ys) ≡ true
all-append [] ys h k = k
all-append (x ∷ xs) ys h k = ground (arith, all-append xs ys)

-- Key characters, at most so many.
abbrev IsPart : ℕ → String → Type 0
IsPart n s = (all is_key_char (codes s) ≡ true) × (length (codes s) ≤ n)

join-IsPart : (m n : ℕ) (s t : String) → IsPart m s → IsPart n t → IsPart (m + n) (join s t)
join-IsPart m n s t (chars, short) (chars', short') =
    let e = codes-join s t in
    let size = ap length e ∙ length-append (codes s) (codes t) in
    (
      subst (λ cs. all is_key_char cs ≡ true) (sym e) (all-append (codes s) (codes t) chars chars'),
      omega (arith, size, short, short'),
    )

sanitize-IsPart : (n : ℕ) (s : String) → all is_key_text (codes s) ≡ true → IsPart n (sanitize n s)
unfolding sanitize
sanitize-IsPart n s h = (sanitize-all n s h, length-prefix n (hyphenate (strip s)))

-- A namespace before a part.
join-matches :
    (namespace s : String)
    → IsPart 128 namespace
    → 1 ≤ length (codes namespace)
    → IsPart 128 s
    → key_matches (join namespace s) ≡ true
join-matches namespace s front nonempty back =
    let (chars, short) = join-IsPart 128 128 namespace s front back in
    let size = ap length (codes-join namespace s) ∙ length-append (codes namespace) (codes s) in
    key_matches-all (join namespace s) chars (omega (arith, size, nonempty)) short

task_digest-IsPart :
    (h : Hasher) (normalized : String)
    → ((s : String) → all is_key_char (codes (h.sha256_hex s)) ≡ true)
    → IsPart 12 (task_digest h normalized)
unfolding task_digest is_key_char
task_digest-IsPart h normalized hex = elim (Bool-cases (is_empty normalized)) [
  | inl e ↦ rw e (refl, omega arith)
  | inr e ↦ rw e (
    prefix-all is_key_char 12 (h.sha256_hex normalized) (hex normalized),
    length-prefix 12 (h.sha256_hex normalized),
  )
]

-- The keys that the builders make of an id, a name or a type of key characters and whitespace,
-- however long, and of any task, pass the pattern that the registry asks for, if digests are of key
-- characters.
pub built_keys-match :
    (h : Hasher) (s : String) (task : Option String)
    → ((t : String) → all is_key_char (codes (h.sha256_hex t)) ≡ true)
    → all is_key_text (codes s) ≡ true
    → (key_matches (build_task_key s) ≡ true)
      × (key_matches (build_manager_key s) ≡ true)
      × (key_matches (build_workflow_key s) ≡ true)
      × (key_matches (build_api_key h s task) ≡ true)
unfolding build_task_key build_manager_key build_workflow_key build_api_key is_key_char
built_keys-match h s task hex ok_text =
    let part = sanitize-IsPart 128 s ok_text in
    let digest = sanitize 4096 (or_empty task) in
    let (chars, short) =
      join-IsPart 64 13 (sanitize 64 s) (join ":" (task_digest h digest))
        (sanitize-IsPart 64 s ok_text)
        (join-IsPart 1 12 ":" (task_digest h digest) (refl, omega arith)
          (task_digest-IsPart h digest hex)) in
    (
      join-matches "task:" _ (refl, omega arith) (omega arith) part,
      join-matches "manager:" _ (refl, omega arith) (omega arith) part,
      join-matches "workflow:" _ (refl, omega arith) (omega arith) part,
      join-matches "api:" _ (refl, omega arith) (omega arith) (chars, omega (arith, short)),
    )
