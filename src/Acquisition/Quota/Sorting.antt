-- ===== src/Acquisition/Quota/Sorting.antt =====
-- The ascending sort of the quota evidence.
use peas_engine.Prelude.{ℕ, ◌≤◌, ◌≡◌, refl, List, [], ◌∷◌, ◌++◌, arith, All, All-append_last}
use peas_engine.Acquisition.Quota.{insert_start, sort_starts}

-- Ascending, equal neighbours allowed.
abbrev pub IsSorted : List ℕ → Type 0
IsSorted [] = Unit
IsSorted (x ∷ xs) = All (λ y. x ≤ y) xs × IsSorted xs

pub All-le_trans : (x y : ℕ) (xs : List ℕ) → x ≤ y → All (λ z. y ≤ z) xs → All (λ z. x ≤ z) xs
All-le_trans x y [] h a = tt
All-le_trans x y (z ∷ zs) h a = (omega arith, All-le_trans x y zs h a.1)

All-insert_start :
    (z x : ℕ) (xs : List ℕ) → z ≤ x → All (λ y. z ≤ y) xs → All (λ y. z ≤ y) (insert_start x xs)
unfolding insert_start
All-insert_start z x [] h a = (h, tt)
All-insert_start z x (y ∷ ys) h a = ground (arith, All-insert_start z x ys h a.1)

insert_start-IsSorted : (x : ℕ) (xs : List ℕ) → IsSorted xs → IsSorted (insert_start x xs)
unfolding insert_start
insert_start-IsSorted x [] s = (tt, tt)
insert_start-IsSorted x (y ∷ ys) s =
    ground (arith, insert_start-IsSorted x ys s.1, All-insert_start y x ys, All-le_trans x y ys)

pub sort_starts-IsSorted : (xs : List ℕ) → IsSorted (sort_starts xs)
unfolding sort_starts
sort_starts-IsSorted [] = tt
sort_starts-IsSorted (x ∷ xs) = insert_start-IsSorted x (sort_starts xs) (sort_starts-IsSorted xs)

insert_start-least : (x : ℕ) (xs : List ℕ) → All (λ y. x ≤ y) xs → insert_start x xs ≡ x ∷ xs
unfolding insert_start
insert_start-least x [] a = refl
insert_start-least x (y ∷ ys) a = ground arith

-- Sorting changes nothing in a sorted list.
pub sort_starts-of_IsSorted : (xs : List ℕ) → IsSorted xs → sort_starts xs ≡ xs
unfolding sort_starts
sort_starts-of_IsSorted [] s = refl
sort_starts-of_IsSorted (x ∷ xs) (a, s) =
    ground (arith, sort_starts-of_IsSorted xs s, insert_start-least x xs a)

-- A latest element may be put at the end.
pub IsSorted-append_last :
    (xs : List ℕ) (x : ℕ) → IsSorted xs → All (λ y. y ≤ x) xs → IsSorted (xs ++ x ∷ [])
IsSorted-append_last [] x s a = (tt, tt)
IsSorted-append_last (y ∷ ys) x (below, s) (p, a) =
    (All-append_last (λ z. y ≤ z) ys x below p, IsSorted-append_last ys x s a)
