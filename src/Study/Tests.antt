-- ===== src/Study/Tests.antt =====
-- The bootstrap index at a pool of three.
use peas_engine.Prelude.{ℕ, ◌+◌, ◌*◌, ◌/◌, ◌^◌, ◌<◌, ◌≡◌, some, ok, arith}
use peas_engine.Study.Bootstrap.{bootstrap_pool_index, bootstrap_pool_index-unbiased}

bootstrap_pool_index-unbiased_example :
    ((q : ℕ) → 2 < 3 → q < 2 ^ 64 / 3 → bootstrap_pool_index (q * 3 + 2) 3 ≡ ok (some 2))
    × ((word : ℕ)
        → bootstrap_pool_index word 3 ≡ ok (some 2)
        → (2 < 3) × ((q : ℕ) × (q < 2 ^ 64 / 3) × (word ≡ q * 3 + 2)))
bootstrap_pool_index-unbiased_example =
    bootstrap_pool_index-unbiased 3 2 (omega arith) (omega arith)
