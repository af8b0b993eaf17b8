-- ===== src/Acquisition/Quota/Window.antt =====
-- The starts of an ascending list that lie in the rate window of an instant.
use peas_engine.Prelude.{
  ℕ, zero, suc, ◌+◌, ◌-◌, ◌≤◌, ◌<◌, ◌≡◌, refl, false, List, [], ◌∷◌, ◌++◌, some, arith, All, length,
  get_elem?, sym, ◌∙◌, inl, inr, Bool-cases,
}
use native.Mathlib.Decide.{dec_le}
use peas_engine.Acquisition.Limits.{rate_window_ms}
use peas_engine.Acquisition.Quota.{some_after, in_window, active_starts}
use peas_engine.Acquisition.Quota.Sorting.{IsSorted}

pub some_after-eq-false :
    (now : ℕ) (xs : List ℕ) → some_after now xs ≡ false → All (λ s. s ≤ now) xs
unfolding some_after
some_after-eq-false now [] h = tt
some_after-eq-false now (x ∷ xs) h = (ground arith, some_after-eq-false now xs (ground arith))

pub some_after-of_All : (now : ℕ) (xs : List ℕ) → All (λ s. s ≤ now) xs → some_after now xs ≡ false
unfolding some_after
some_after-of_All now [] h = refl
some_after-of_All now (x ∷ xs) h = ground (arith, some_after-of_All now xs h.1)

pub All-le_mono : (a b : ℕ) (xs : List ℕ) → a ≤ b → All (λ s. s ≤ a) xs → All (λ s. s ≤ b) xs
All-le_mono a b [] h p = tt
All-le_mono a b (x ∷ xs) h p = (omega arith, All-le_mono a b xs h p.1)

-- From a start in the window on, all are.
active_starts-All :
    (now : ℕ) (x : ℕ) (xs : List ℕ)
    → now < x + rate_window_ms
    → All (λ y. x ≤ y) xs
    → active_starts now xs ≡ xs
unfolding active_starts
active_starts-All now x [] w a = refl
active_starts-All now x (y ∷ ys) w a = ground (arith, active_starts-All now x ys w a.1)

pub active_starts-append_last :
    (now : ℕ) (xs : List ℕ) → active_starts now (xs ++ now ∷ []) ≡ active_starts now xs ++ now ∷ []
unfolding active_starts
active_starts-append_last now [] = ground arith
active_starts-append_last now (x ∷ xs) = ground (arith, active_starts-append_last now xs)

-- A later window of the starts in an earlier one.
pub active_starts-later :
    (p u : ℕ) (xs : List ℕ) → p ≤ u → active_starts u (active_starts p xs) ≡ active_starts u xs
unfolding active_starts
active_starts-later p u [] h = refl
active_starts-later p u (x ∷ xs) h = ground (arith, active_starts-later p u xs h)

All-active_starts :
    (z now : ℕ) (xs : List ℕ) → All (λ y. z ≤ y) xs → All (λ y. z ≤ y) (active_starts now xs)
unfolding active_starts
All-active_starts z now [] a = tt
All-active_starts z now (x ∷ xs) a = ground (arith, All-active_starts z now xs a.1)

pub active_starts-IsSorted : (now : ℕ) (xs : List ℕ) → IsSorted xs → IsSorted (active_starts now xs)
unfolding active_starts
active_starts-IsSorted now [] s = tt
active_starts-IsSorted now (x ∷ xs) s =
    ground (arith, active_starts-IsSorted now xs s.1, All-active_starts x now xs s.0)

pub length-active_starts : (now : ℕ) (xs : List ℕ) → length (active_starts now xs) ≤ length xs
unfolding active_starts
length-active_starts now [] = omega arith
length-active_starts now (x ∷ xs) = ground (arith, length-active_starts now xs)

pub get_elem?-lt : (xs : List ℕ) (i : ℕ) → i < length xs → (x : ℕ) × (get_elem? xs i ≡ some x)
get_elem?-lt [] i h = absurd (omega arith)
get_elem?-lt (x ∷ xs) zero h = (x, refl)
get_elem?-lt (x ∷ xs) (suc i) h = get_elem?-lt xs i (omega arith)

get_elem?-ge_head :
    (z : ℕ) (xs : List ℕ) (i : ℕ) {b : ℕ} → All (λ y. z ≤ y) xs → get_elem? xs i ≡ some b → z ≤ b
get_elem?-ge_head z [] i a e = cc
get_elem?-ge_head z (x ∷ xs) zero a e = ground arith
get_elem?-ge_head z (x ∷ xs) (suc i) a e = get_elem?-ge_head z xs i a.1 e

-- The index of the blocking start, at a list with one more start in front.
get_elem?-cons_sub :
    (x : ℕ) (xs : List ℕ) (k : ℕ)
    → k ≤ length xs
    → get_elem? (x ∷ xs) (suc (length xs) - k) ≡ get_elem? xs (length xs - k)
get_elem?-cons_sub x xs k h =
    let e : suc (length xs) - k ≡ suc (length xs - k) = omega arith in rw e refl

-- When the window of the start that is `limit` from the end has passed, fewer than `limit` remain.
pub active_starts-after_block :
    (limit : ℕ) (xs : List ℕ) {b : ℕ}
    → 1 ≤ limit
    → limit ≤ length xs
    → IsSorted xs
    → get_elem? xs (length xs - limit) ≡ some b
    → length (active_starts (b + rate_window_ms) xs) < limit
unfolding active_starts
active_starts-after_block limit [] one le s e = absurd (omega arith)
active_starts-after_block limit (x ∷ xs) {b} one le s e = elim (dec_le limit (length xs)) [
  | yes inside ↦
      let e' : get_elem? xs (length xs - limit) ≡ some b =
        sym (get_elem?-cons_sub x xs limit inside) ∙ e in
      ground (
        arith,
        active_starts-after_block limit xs one inside s.1 e',
        get_elem?-ge_head x xs (length xs - limit) s.0 e',
      )
  | no first ↦
      let here : suc (length xs) - limit ≡ 0 = omega arith in
      let same : some x ≡ some b = rw here at e in
      ground (arith, length-active_starts (b + rate_window_ms) xs)
]

-- Until then at least `limit` remain, and the same start is `limit` from the end.
pub active_starts-before_block :
    (limit u : ℕ) (xs : List ℕ) {b : ℕ}
    → 1 ≤ limit
    → limit ≤ length xs
    → IsSorted xs
    → get_elem? xs (length xs - limit) ≡ some b
    → u < b + rate_window_ms
    → (limit ≤ length (active_starts u xs))
      × (get_elem? (active_starts u xs) (length (active_starts u xs) - limit) ≡ some b)
unfolding active_starts
active_starts-before_block limit u [] one le s e w = absurd (omega arith)
active_starts-before_block limit u (x ∷ xs) {b} one le s e w = elim (Bool-cases (in_window u x)) [
  | inl fits ↦ rw (fits, active_starts-All u x xs (ground arith) s.0) (le, e)
  | inr passed ↦ elim (dec_le limit (length xs)) [
    | yes inside ↦ rw passed (
        active_starts-before_block limit u xs one inside s.1
          (sym (get_elem?-cons_sub x xs limit inside) ∙ e) w)
    | no first ↦
        let here : suc (length xs) - limit ≡ 0 = omega arith in
        let same : some x ≡ some b = rw here at e in absurd (ground arith)
  ]
]

head_or_tail :
    (now x : ℕ) (xs : List ℕ) (i : ℕ) {b : ℕ}
    → now < x + rate_window_ms
    → get_elem? (x ∷ active_starts now xs) i ≡ some b
    → ((j : ℕ) → get_elem? (active_starts now xs) j ≡ some b → now < b + rate_window_ms)
    → now < b + rate_window_ms
head_or_tail now x xs zero w e later = ground arith
head_or_tail now x xs (suc i) w e later = later i e

pub active_starts-in_window :
    (now : ℕ) (xs : List ℕ) (i : ℕ) {b : ℕ}
    → get_elem? (active_starts now xs) i ≡ some b
    → now < b + rate_window_ms
unfolding active_starts
active_starts-in_window now [] i e = cc
active_starts-in_window now (x ∷ xs) i e = elim (Bool-cases (in_window now x)) [
  | inl here ↦
      head_or_tail now x xs i (ground arith) (rw here at e)
        (λ j e'. active_starts-in_window now xs j e')
  | inr passed ↦ active_starts-in_window now xs i (rw passed at e)
]
