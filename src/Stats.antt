-- ===== src/Stats.antt =====
-- wrk2/src/stats.c: `stats`, a ring of samples or a histogram, with the least and greatest value.
pub mod Ring
pub mod Newest
pub mod Order
pub mod Sampling
pub mod Summary
pub mod Within
use weaver_dsb.Prelude.{
  ℕ, zero, suc, ◌+◌, ◌-◌, ◌*◌, ◌%◌, ◌^◌, Bool, true, false, Option, none, some, List, [], ◌∷◌,
}
use weaver_dsb.Prelude.Tests.{ltb, ◌==◌, if◌then◌else◌}
use weaver_dsb.Prelude.Lists.{replicate, set}
use weaver_dsb.Prelude.Int.{ℤ, pos, negsuc, add64, as_int64}
use weaver_dsb.Prelude.Checked.{Checked, returned, aborted, out_of_fuel, ◌>>=◌}
use weaver_dsb.Hdr.{Histogram}
use weaver_dsb.Hdr.Record.{hdr_record_value}

-- `stats`; `histogram` is NULL at first, and main of wrk.c sets it.
pub record Stats : Type 0 where
  pub samples : ℕ
  pub index : ℕ
  pub limit : ℕ
  pub least : ℕ
  pub greatest : ℕ
  pub histogram : Option Histogram
  pub values : List ℕ

abbrev pub uint64_max : ℕ
uint64_max = 2 ^ 64 - 1

-- zcalloc gives zeros.
pub stats_alloc : ℕ → Stats
stats_alloc samples = record {
  samples = samples;
  index = 0;
  limit = 0;
  least = uint64_max;
  greatest = 0;
  histogram = none;
  values = replicate samples 0;
}

unfoldable stats_reset : Stats → Stats
stats_reset s = record s { limit = 0; index = 0; least = uint64_max; greatest = 0 }

unfoldable stats_rewind : Stats → Stats
stats_rewind s = record s { limit = 0; index = 0 }

-- the first two statements of stats_record
unfoldable pub extremes : Stats → ℕ → Stats
extremes s x = record s {
  least = if ltb x s.least then x else s.least;
  greatest = if ltb s.greatest x then x else s.greatest;
}

-- The rest, where there is no histogram.
unfoldable pub put_sample : Stats → ℕ → Stats
put_sample s x =
    let index = add64 s.index 1 in
    record s {
      values = set s.values s.index x;
      limit = if ltb s.limit s.samples then add64 s.limit 1 else s.limit;
      index = if index == s.samples then 0 else index;
    }

-- The uint64_t goes to hdr_record_value as an int64_t, and its result is dropped.
pub stats_record : Stats → ℕ → Checked Stats
unfolding extremes put_sample
stats_record s x =
    let bounded = extremes s x in
    elim s.histogram [
      | none ↦ returned (put_sample bounded x)
      | some h ↦ hdr_record_value h (as_int64 x) >>= λ r.
          returned (record bounded { histogram = some r.0 })
    ]
