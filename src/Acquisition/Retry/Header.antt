-- ===== src/Acquisition/Retry/Header.antt =====
-- The Retry-After header: which texts are accepted, and what they mean.
use peas_engine.Prelude.{ℕ, ◌+◌, ◌-◌, ◌*◌, ◌≤◌, ◌≡◌, List, [], ◌∷◌, ok, arith, true}
use peas_engine.Acquisition.Retry.{is_canonical, decimal, parse_seconds}

-- An accepted header is a whole number of seconds, at most 30.
pub parse_seconds-le :
    (cs : List ℕ) (ms : ℕ)
    → parse_seconds cs ≡ ok ms
    → (ms ≡ decimal 0 cs * 1000) × (decimal 0 cs ≤ 30) × (is_canonical cs ≡ true)
unfolding parse_seconds
parse_seconds-le cs ms h = ground arith

decimal-ge : (acc : ℕ) (cs : List ℕ) → acc ≤ decimal acc cs
unfolding decimal
decimal-ge acc [] = omega arith
decimal-ge acc (c ∷ cs) = omega (arith, decimal-ge (10 * acc + (c - b'0')) cs)

long_is_large :
    (c d e : ℕ) (cs : List ℕ)
    → is_canonical (c ∷ d ∷ e ∷ cs) ≡ true
    → 100 ≤ decimal 0 (c ∷ d ∷ e ∷ cs)
unfolding is_canonical decimal
long_is_large c d e cs h =
    ground (arith, decimal-ge (10 * (10 * (10 * 0 + (c - b'0')) + (d - b'0')) + (e - b'0')) cs)

-- One number of seconds up to 30 has one canonical text.
canonical_unique :
    (cs ds : List ℕ)
    → is_canonical cs ≡ true
    → is_canonical ds ≡ true
    → decimal 0 cs ≤ 30
    → decimal 0 cs ≡ decimal 0 ds
    → cs ≡ ds
unfolding is_canonical decimal
canonical_unique [] ds p q le e = cc
canonical_unique (c ∷ cs) [] p q le e = cc
canonical_unique (c ∷ []) (d ∷ []) p q le e = ground arith
canonical_unique (c ∷ []) (d ∷ d' ∷ []) p q le e = ground arith
canonical_unique (c ∷ []) (d ∷ d' ∷ d'' ∷ ds) p q le e =
    absurd (ground (arith, long_is_large d d' d'' ds q))
canonical_unique (c ∷ c' ∷ []) (d ∷ []) p q le e = ground arith
canonical_unique (c ∷ c' ∷ []) (d ∷ d' ∷ []) p q le e = ground arith
canonical_unique (c ∷ c' ∷ []) (d ∷ d' ∷ d'' ∷ ds) p q le e =
    absurd (ground (arith, long_is_large d d' d'' ds q))
canonical_unique (c ∷ c' ∷ c'' ∷ cs) (d ∷ ds) p q le e =
    absurd (ground (arith, long_is_large c c' c'' cs p))

-- Two accepted headers with the same delay are the same text: the grammar admits one spelling of
-- each delay.
pub parse_seconds_injective :
    (cs ds : List ℕ) (ms : ℕ) → parse_seconds cs ≡ ok ms → parse_seconds ds ≡ ok ms → cs ≡ ds
parse_seconds_injective cs ds ms h k =
    let (a, le, p) = parse_seconds-le cs ms h in
    let (b, _, q) = parse_seconds-le ds ms k in canonical_unique cs ds p q le (omega arith)

-- A canonical number of seconds up to 30 is accepted.
pub parse_seconds-of_canonical :
    (cs : List ℕ)
    → is_canonical cs ≡ true
    → decimal 0 cs ≤ 30
    → parse_seconds cs ≡ ok (decimal 0 cs * 1000)
unfolding parse_seconds
parse_seconds-of_canonical cs p le = ground arith
