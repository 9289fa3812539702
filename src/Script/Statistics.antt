-- ===== src/Script/Statistics.antt =====
-- The statistics as a script reads them: script_stats_get, script_stats_len and
-- script_stats_percentile of wrk2/src/script.c.
use weaver_dsb.Prelude.{ℕ, zero, suc, none, some, List}
use weaver_dsb.Prelude.Tests.{ltb, if◌then◌else◌}
use weaver_dsb.Prelude.Lists.{length, get_or}
use weaver_dsb.Prelude.Text.{codes, same_text}
use weaver_dsb.Prelude.Int.{ℤ, pos, negsuc, as_int64}
use weaver_dsb.Prelude.Float.{Float}
use weaver_dsb.Prelude.Checked.{Checked, returned, aborted, ◌>>=◌}
use weaver_dsb.Hdr.{Histogram}
use weaver_dsb.Hdr.Query.{hdr_value_at_percentile}
use weaver_dsb.Stats.{Stats}
use weaver_dsb.Stats.Summary.{stats_mean, stats_stdev, stats_percentile}
use weaver_dsb.Script.{CFunction, script_stats_percentile}

-- the second argument: a number, as an int, a string, or another value
pub data Key : Type 0 where
  index_key : ℤ → Key
  text_key : List ℕ → Key
  other_key : Key

-- What is pushed: a number, or a function; `key_itself` is where nothing is pushed, and the one
-- result is the argument on top.
pub data Answer (D : Type 0) : Type 0 where
  a_number : D → Answer D
  a_function : CFunction → Answer D
  key_itself : Answer D

-- The samples are read without a test of the index: outside the array is out of bounds.
unfoldable pub sample_at : List ℕ → ℤ → Checked ℕ
sample_at values (negsuc n) = aborted
sample_at values (pos zero) = aborted
sample_at values (pos (suc n)) =
    if ltb n (length values) then returned (get_or values n 0) else aborted

module _ (f : Float) where
  open f use {Double, of_ℕ, times, over}

  unfoldable pub percentile_at : ℤ → Histogram → Double
  percentile_at index h = over (times (of_ℕ 100) (f.of_ℤ index)) (of_ℕ h.total_count)

  unfoldable pub entry_at : ℤ → Stats → Checked (Answer Double)
  entry_at index s = elim s.histogram [
    | some h ↦ hdr_value_at_percentile f h (percentile_at index h) >>= λ value.
        returned (a_number (of_ℕ value))
    | none ↦ sample_at s.values index >>= λ value. returned (a_number (of_ℕ value))
  ]

  unfoldable pub method_of : List ℕ → Stats → Checked (Answer Double)
  method_of name s =
      if same_text (codes "min") name
      then returned (a_number (of_ℕ s.least))
      else (if same_text (codes "max") name
          then returned (a_number (of_ℕ s.greatest))
          else (if same_text (codes "mean") name
              then (do mean ← stats_mean f s; returned (a_number mean))
              else (if same_text (codes "stdev") name
                  then (do
                    mean ← stats_mean f s
                    stdev ← stats_stdev f s mean
                    returned (a_number stdev))
                  else returned (
                      if same_text (codes "percentile") name
                      then a_function script_stats_percentile
                      else key_itself))))

  unfoldable script_stats_get : Key → Stats → Checked (Answer Double)
  script_stats_get (index_key index) s = entry_at index s
  script_stats_get (text_key name) s = method_of name s
  script_stats_get other_key s = returned key_itself

  -- the function that a script gets as `percentile`
  unfoldable stats_percentile_answer : Stats → Double → Checked (Answer Double)
  stats_percentile_answer s p = stats_percentile f s p >>= λ value. returned (a_number (of_ℕ value))

-- lua_pushinteger of an int64_t, and of a uint64_t
unfoldable script_stats_len : Stats → ℤ
script_stats_len s = elim s.histogram [ some h ↦ pos h.total_count | none ↦ as_int64 s.limit ]
