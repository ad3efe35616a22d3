-- ===== src/Sync/Repository/Order.antt =====
-- What the sequence numbers say of the journal.
use fork_agent.Prelude.{
  ap, ◌∙◌, select-append, ℕ, ◌≤◌, ◌<◌, true, none, List, [], ◌∷◌, ◌++◌, ◌≡◌, ◌⊎◌, inl, inr, refl,
  arith, ltb, select, is_ordered, order_by-ordered, ok, err, value_error, pure, raise, ◌>>=◌,
  Bool-cases,
}
use fork_agent.Sync.Entity.{SyncMutation, construct_mutation, mutation_passes}
use fork_agent.Sync.Repository.{
  SyncTables, is_after, max_seq, limited, rows_to_mutations, get_mutations_since,
}

-- The numbers ascend from above the first bound, up to the second.
abbrev pub Ascends : ℕ → List SyncMutation → ℕ → Type 0
Ascends low [] high = low ≤ high
Ascends low (m ∷ ms) high = (low < m.seq) × Ascends m.seq ms high

abbrev pub last_seq : ℕ → List SyncMutation → ℕ
last_seq low [] = low
last_seq low (m ∷ ms) = last_seq m.seq ms

abbrev pub after : ℕ → List SyncMutation → List SyncMutation
after seq ms = select (is_after seq) ms

pub Ascends-le : (low : ℕ) (ms : List SyncMutation) (high : ℕ) → Ascends low ms high → low ≤ high
Ascends-le low [] high a = a
Ascends-le low (m ∷ ms) high (lt, a) = omega (arith, lt, Ascends-le m.seq ms high a)

pub Ascends-lower :
    (low less : ℕ) (ms : List SyncMutation) (high : ℕ)
    → less ≤ low
    → Ascends low ms high
    → Ascends less ms high
Ascends-lower low less [] high le a = omega (arith, le, a)
Ascends-lower low less (m ∷ ms) high le (lt, a) = (omega (arith, le, lt), a)

pub Ascends-snoc :
    (low : ℕ) (ms : List SyncMutation) (high : ℕ) (m : SyncMutation)
    → Ascends low ms high
    → high < m.seq
    → Ascends low (ms ++ m ∷ []) m.seq
Ascends-snoc low [] high m a lt = (omega (arith, a, lt), omega arith)
Ascends-snoc low (n ∷ ms) high m (l, a) lt = (l, Ascends-snoc n.seq ms high m a lt)

pub Ascends-last-le :
    (low : ℕ) (ms : List SyncMutation) (high : ℕ) → Ascends low ms high → last_seq low ms ≤ high
Ascends-last-le low [] high a = a
Ascends-last-le low (m ∷ ms) high (lt, a) = Ascends-last-le m.seq ms high a

pub Ascends-last-ge :
    (low : ℕ) (ms : List SyncMutation) (high : ℕ) → Ascends low ms high → low ≤ last_seq low ms
Ascends-last-ge low [] high a = omega arith
Ascends-last-ge low (m ∷ ms) high (lt, a) = omega (arith, lt, Ascends-last-ge m.seq ms high a)

pub Ascends-last :
    (low : ℕ) (ms : List SyncMutation) (high : ℕ)
    → Ascends low ms high
    → Ascends low ms (last_seq low ms)
Ascends-last low [] high a = omega arith
Ascends-last low (m ∷ ms) high (lt, a) = (lt, Ascends-last m.seq ms high a)

-- Both parts of a list that ascends.
pub Ascends-append :
    (low : ℕ) (ms ns : List SyncMutation) (high : ℕ)
    → Ascends low (ms ++ ns) high
    → Ascends low ms (last_seq low ms) × Ascends (last_seq low ms) ns high
Ascends-append low [] ns high a = (omega arith, a)
Ascends-append low (m ∷ ms) ns high (lt, a) =
    let (front, back) = Ascends-append m.seq ms ns high a in ((lt, front), back)

pub last_seq-append :
    (low : ℕ) (ms ns : List SyncMutation) → last_seq low (ms ++ ns) ≡ last_seq (last_seq low ms) ns
last_seq-append low [] ns = refl
last_seq-append low (m ∷ ms) ns = last_seq-append m.seq ms ns

pub Ascends-max :
    (low : ℕ) (m : SyncMutation) (ms : List SyncMutation) (high : ℕ)
    → Ascends low (m ∷ ms) high
    → max_seq (m ∷ ms) ≡ last_seq low (m ∷ ms)
Ascends-max low m [] high (lt, a) = ground (arith, lt)
Ascends-max low m (n ∷ ms) high (lt, (k, a)) =
    let e = Ascends-max m.seq n ms high (k, a) in
    let le = Ascends-last-ge n.seq ms high a in ground (arith, e, le, k)

-- All that stand after a bound.
after-Ascends-all :
    (seq low : ℕ) (ms : List SyncMutation) (high : ℕ)
    → seq ≤ low
    → Ascends low ms high
    → after seq ms ≡ ms
after-Ascends-all seq low [] high le a = refl
after-Ascends-all seq low (m ∷ ms) high le (lt, a) =
    let rest = after-Ascends-all seq m.seq ms high (omega (arith, le, lt)) a in
    ground (arith, rest, lt, le)

pub after-Ascends :
    (seq low : ℕ) (ms : List SyncMutation) (high : ℕ)
    → seq ≤ high
    → Ascends low ms high
    → Ascends seq (after seq ms) high
after-Ascends seq low [] high le a = le
after-Ascends seq low (m ∷ ms) high le (lt, a) = elim (Bool-cases (ltb seq m.seq)) [
  | inl later ↦ rw (later, after-Ascends-all seq m.seq ms high (ground arith) a) (ground arith, a)
  | inr earlier ↦ rw earlier (after-Ascends seq m.seq ms high le a)
]

pub after-beyond :
    (seq low : ℕ) (ms : List SyncMutation) (high : ℕ)
    → high ≤ seq
    → Ascends low ms high
    → after seq ms ≡ []
after-beyond seq low [] high le a = refl
after-beyond seq low (m ∷ ms) high le (lt, a) =
    let rest = after-beyond seq m.seq ms high le a in
    let top = Ascends-le m.seq ms high a in ground (arith, rest, top, le)

pub after-after :
    (seq later : ℕ) (ms : List SyncMutation)
    → seq ≤ later
    → after later (after seq ms) ≡ after later ms
after-after seq later [] le = refl
after-after seq later (m ∷ ms) le = ground (arith, after-after seq later ms le)

-- A mutation that comes later stands behind the others.
pub after-snoc :
    (seq : ℕ) (ms : List SyncMutation) (m : SyncMutation)
    → seq < m.seq
    → after seq (ms ++ m ∷ []) ≡ after seq ms ++ m ∷ []
after-snoc seq ms m lt =
    select-append (is_after seq) ms (m ∷ []) ∙ ap (λ ns. after seq ms ++ ns) (ground (arith, lt))

pub Ascends-is_ordered :
    (low : ℕ) (ms : List SyncMutation) (high : ℕ)
    → Ascends low ms high
    → is_ordered (λ n m. ltb n.seq m.seq) ms ≡ true
Ascends-is_ordered low [] high a = refl
Ascends-is_ordered low (m ∷ []) high a = refl
Ascends-is_ordered low (m ∷ n ∷ ms) high (lt, (k, a)) =
    ground (arith, k, Ascends-is_ordered m.seq (n ∷ ms) high (k, a))

-- Reading the rows gives them as they are, or raises, and does not write.
rows_to_mutations-cases :
    (ms : List SyncMutation) (s : SyncTables)
    → (rows_to_mutations ms s ≡ (ok ms, s)) ⊎ (rows_to_mutations ms s ≡ (err value_error, s))
unfolding rows_to_mutations construct_mutation ◌>>=◌ pure raise
rows_to_mutations-cases [] s = inl refl
rows_to_mutations-cases (m ∷ ms) s = elim (Bool-cases (mutation_passes m)) [
  | inr fails ↦ inr (rw fails refl)
  | inl passes ↦ elim (rows_to_mutations-cases ms s) [
    | inl e ↦ inl (rw (passes, e) refl)
    | inr e ↦ inr (rw (passes, e) refl)
  ]
]

pub get_mutations_since-cases :
    (seq : ℕ) (s : SyncTables)
    → seq ≤ s.sequence
    → Ascends 0 s.mutations s.sequence
    → (get_mutations_since seq none s ≡ (ok (after seq s.mutations), s))
      ⊎ (get_mutations_since seq none s ≡ (err value_error, s))
unfolding get_mutations_since limited
get_mutations_since-cases seq s le a =
    let sorted =
      order_by-ordered (λ n m. ltb n.seq m.seq) (after seq s.mutations)
        (Ascends-is_ordered seq _ _ (after-Ascends seq 0 s.mutations s.sequence le a)) in
    rw sorted (rows_to_mutations-cases (after seq s.mutations) s)
