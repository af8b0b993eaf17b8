-- ===== src/Study/Bootstrap.antt =====
-- study/market-reference/algorithms.ts: bootstrapPoolIndex, which turns a 64-bit word into an index of
-- a pool, or rejects the word.
use native.Mathlib.Nat.{
  mod-lt, mod-eq_of_lt, mul-add-mod_self_right, div-add-mod', mul-le-mul_right,
  lt_of_mul-lt-mul_right, div-mul-le_self,
}
use peas_engine.Prelude.{
  ℕ, ◌+◌, ◌*◌, ◌/◌, ◌%◌, ◌^◌, ◌≤◌, ◌<◌, ◌≡◌, ◌∙◌, ◌&&◌, Option, none, some, Result, ok, ◌>>◌, guard,
  leb, if◌then◌else◌, arith,
}
use peas_engine.Json.{max_safe}

-- bootstrapPoolIndex
unfoldable pub bootstrap_pool_index : ℕ → ℕ → Result (Option ℕ)
bootstrap_pool_index word pool = do
  guard (leb 1 pool && leb pool max_safe) "bootstrap pool size must be positive"
  let limit = 2 ^ 64 / pool * pool
  ok (if leb limit word then none else some (word % pool))

next_round : (q pool : ℕ) → (q + 1) * pool ≡ q * pool + pool
next_round q pool = omega arith

-- A word below the limit is a round and an index within it.
round_below : (rounds pool q i : ℕ) → q < rounds → i < pool → q * pool + i < rounds * pool
round_below rounds pool q i lt lt' =
    omega (arith, mul-le-mul_right {m = q + 1} {n = rounds} pool (omega arith), next_round q pool)

-- For a pool of 1 to MAX_SAFE_INTEGER members, the words that are turned into an index i of the pool
-- are exactly q * pool + i for the q below the quotient of 2^64 by the pool: as many for each index, so
-- that the draw has no bias; and no word is turned into anything else.
pub bootstrap_pool_index-unbiased :
    (pool i : ℕ)
    → 1 ≤ pool
    → pool ≤ max_safe
    → ((q : ℕ)
        → i < pool
        → q < 2 ^ 64 / pool
        → bootstrap_pool_index (q * pool + i) pool ≡ ok (some i))
      × ((word : ℕ)
          → bootstrap_pool_index word pool ≡ ok (some i)
          → (i < pool) × ((q : ℕ) × (q < 2 ^ 64 / pool) × (word ≡ q * pool + i)))
unfolding bootstrap_pool_index
bootstrap_pool_index-unbiased pool i one safe = (
  λ q lt few.
      let below = round_below (2 ^ 64 / pool) pool q i few lt in
      let index = mul-add-mod_self_right q pool i ∙ mod-eq_of_lt lt in ground arith,
  λ word h.
      let index : word % pool ≡ i = ground arith in
      let below : word < 2 ^ 64 / pool * pool = ground arith in
      let parts = div-add-mod' word pool in
      (
        omega (arith, mod-lt word {m = pool} one, index),
        (
          word / pool,
          lt_of_mul-lt-mul_right pool (omega (arith, div-mul-le_self word pool, below)),
          omega (arith, parts, index),
        ),
      ),
)
