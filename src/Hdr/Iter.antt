-- ===== src/Hdr/Iter.antt =====
-- The iterators of wrk2/src/hdr_histogram.c: `struct hdr_iter` and the recorded iterator. The
-- histogram that an iterator points to is an argument. Loops over an iterator run on fuel.
pub mod Values
pub mod Places
pub mod Loops
pub mod Recorded
use weaver_dsb.Prelude.{ℕ, zero, suc, ◌+◌, Bool, true, false}
use weaver_dsb.Prelude.Tests.{ltb, leb, ◌==◌, if◌then◌else◌}
use weaver_dsb.Prelude.Int.{ℤ, pos, negsuc, pos_part, ◌+ℤ◌, leb_ℤ}
use weaver_dsb.Prelude.Checked.{Checked, returned, aborted, out_of_fuel, ◌>>=◌}
use weaver_dsb.Hdr.{Histogram, get_count_at_index, value_from_index, highest_equivalent_value}

pub record Iter : Type 0 where
  pub bucket_index : ℕ
  pub sub_bucket_index : ℤ
  pub count_at_index : ℕ
  pub count_to_index : ℕ
  pub value_from_index : ℕ
  pub highest_equivalent_value : ℕ

pub has_buckets : Histogram → Iter → Bool
has_buckets h iter = ltb iter.bucket_index h.bucket_count

unfoldable pub has_next : Histogram → Iter → Bool
has_next h iter = ltb iter.count_to_index h.total_count

-- the two indices, which the code updates in place
unfoldable pub increment_bucket : Histogram → ℕ × ℤ → ℕ × ℤ
increment_bucket h (bucket_index, sub_bucket_index) =
    if leb_ℤ (pos h.sub_bucket_count) (sub_bucket_index +ℤ pos 1)
    then (bucket_index + 1, pos h.sub_bucket_half_count)
    else (bucket_index, sub_bucket_index +ℤ pos 1)

-- The fields that move_next sets once it has found a bucket.
filled : Histogram → Iter → ℕ → Iter
filled h iter count =
    let value =
      value_from_index iter.bucket_index (pos_part iter.sub_bucket_index) h.unit_magnitude in
    record iter {
      count_at_index = count;
      count_to_index = iter.count_to_index + count;
      value_from_index = value;
      highest_equivalent_value = highest_equivalent_value h value;
    }

pub move_next : Histogram → Iter → Checked (Iter × Bool)
unfolding has_buckets filled
move_next h iter =
    let (b, s) = increment_bucket h (iter.bucket_index, iter.sub_bucket_index) in
    let moved = record iter { bucket_index = b; sub_bucket_index = s } in
    if has_buckets h moved
    then (get_count_at_index h b s >>= λ count. returned (filled h moved count, true))
    else returned (moved, false)

pub peek_next_value_from_index : Histogram → Iter → ℕ
peek_next_value_from_index h iter =
    let (b, s) = increment_bucket h (iter.bucket_index, iter.sub_bucket_index) in
    value_from_index b (pos_part s) h.unit_magnitude

abbrev pub hdr_iter_init : Iter
hdr_iter_init = record {
  bucket_index = 0;
  sub_bucket_index = negsuc 0;
  count_at_index = 0;
  count_to_index = 0;
  value_from_index = 0;
  highest_equivalent_value = 0;
}

-- The result of move_next is dropped.
pub hdr_iter_next : Histogram → Iter → Checked (Iter × Bool)
unfolding has_next
hdr_iter_next h iter =
    if has_next h iter
    then (move_next h iter >>= λ r. returned (r.0, true))
    else returned (iter, false)

-- How the body of a loop ends: with the next round, or by `break` or `return`.
pub data Flow {ℓ} (S : Type ℓ) : Type ℓ where
  next : S → Flow S
  stop : S → Flow S

-- `while (hdr_iter_next(&iter)) body`, over the variables `S` of the body
pub iter_loop {ℓ} : {S : Type ℓ} → ℕ → Histogram → (Iter → S → Flow S) → Iter → S → Checked S
iter_loop zero h body iter s = out_of_fuel
iter_loop (suc fuel) h body iter s = hdr_iter_next h iter >>= λ r. elim r.1 [
  | false ↦ returned s
  | true ↦ elim (body r.0 s) [ next s' ↦ iter_loop fuel h body r.0 s' | stop s' ↦ returned s' ]
]

-- Enough fuel for any loop: a round for each counter, and the test that ends the loop.
abbrev pub rounds : Histogram → ℕ
rounds h = h.counts_len + 1

-- the iterator of `struct hdr_recorded_iter`, whose other field starts as 0
abbrev hdr_recorded_iter_init : Iter
hdr_recorded_iter_init = hdr_iter_init

-- hdr_recorded_iter_next: on to the next counter that is not zero. The struct's other field,
-- `count_added_in_this_iteration_step`, is that count.
pub hdr_recorded_iter_next : ℕ → Histogram → Iter → Checked (Iter × Bool)
hdr_recorded_iter_next zero h iter = out_of_fuel
hdr_recorded_iter_next (suc fuel) h iter = hdr_iter_next h iter >>= λ r. elim r.1 [
  | false ↦ returned (r.0, false)
  | true ↦
      let rest = hdr_recorded_iter_next fuel h r.0 in
      if r.0.count_at_index == 0 then rest else returned (r.0, true)
]
