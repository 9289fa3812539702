-- ===== src/Stats/Order.antt =====
-- stats_compare of wrk2/src/stats.c, the order that stats_summarize sorts by.
use weaver_dsb.Prelude.{ℕ, ◌+◌, ◌^◌, ◌≤◌, ◌<◌, ◌≡◌, arith, true}
use weaver_dsb.Prelude.Int.{ℤ, pos, sub_ℕ, as_int, sub64, ltb_ℤ}

-- The difference, a uint64_t, becomes the `int` that is returned.
unfoldable pub stats_compare : ℕ → ℕ → ℤ
stats_compare x y = as_int (sub64 x y)

-- Of two uint64_t that differ by less than 2^31, stats_compare gives the difference.
pub stats_compare-near :
    (x y : ℕ)
    → x < 2 ^ 64
    → y < 2 ^ 64
    → x < y + 2 ^ 31
    → y < x + 2 ^ 31
    → stats_compare x y ≡ sub_ℕ x y
unfolding stats_compare
stats_compare-near x y sx sy near near' = ground arith

-- If `x`, a uint64_t, is more than `y` by 2^31 or more, but less than 2^32, stats_compare says
-- that it is less.
pub stats_compare-far :
    (x y : ℕ)
    → x < 2 ^ 64
    → y + 2 ^ 31 ≤ x
    → x < y + 2 ^ 32
    → ltb_ℤ (stats_compare x y) (pos 0) ≡ true
unfolding stats_compare
stats_compare-far x y sx far near = ground arith
