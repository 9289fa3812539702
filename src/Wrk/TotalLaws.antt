-- ===== src/Wrk/TotalLaws.antt =====
-- main of wrk2/src/wrk.c reports what the threads have counted together.
use weaver_dsb.Prelude.{ℕ, ◌+◌, ◌%◌, ◌^◌, ◌≡◌, refl, List, [], ◌∷◌, arith}
use weaver_dsb.Prelude.Lists.{get_or}
use weaver_dsb.Prelude.Int.{add64}
use weaver_dsb.Prelude.Checked.{returned}
use weaver_dsb.Hdr.{Histogram}
use weaver_dsb.Hdr.Init.Laws.{IsValid}
use weaver_dsb.Hdr.Add.{hdr_add}
use weaver_dsb.Hdr.Add.Alike.{IsAlike, IsAlike-sym, IsAlike-trans}
use weaver_dsb.Hdr.Add.Laws.{hdr_add_lem}
use weaver_dsb.Wrk.{Thread}
use weaver_dsb.Wrk.Total.{Total, add_errors, add_thread, add_threads}

-- `h` is valid, and has the configuration of `g`.
pub record IsLike (g h : Histogram) : Type 0 where
  pub valid : IsValid h
  pub alike : IsAlike h g

-- All threads have histograms of the configuration of `g`.
pub data AreLike (g : Histogram) : List Thread → Type 0 where
  none_left : AreLike g []
  one_more :
      {t : Thread} {ts : List Thread}
      → IsLike g t.latency_histogram
      → IsLike g t.real_latency_histogram
      → AreLike g ts
      → AreLike g (t ∷ ts)

-- the latencies counted by the threads at index `k`, and in all, and their responses
abbrev pub counted_at : ℕ → List Thread → ℕ
counted_at k [] = 0
counted_at k (t ∷ ts) = get_or t.latency_histogram.counts k 0 + counted_at k ts

abbrev pub counted_in_all : List Thread → ℕ
counted_in_all [] = 0
counted_in_all (t ∷ ts) = t.latency_histogram.total_count + counted_in_all ts

abbrev pub completed : List Thread → ℕ
completed [] = 0
completed (t ∷ ts) = t.complete + completed ts

add-IsLike :
    {g h k : Histogram}
    → IsLike g h
    → IsLike g k
    → (r : Histogram) × (hdr_add h k ≡ returned (r, 0))
      × IsLike g r
      × ((i : ℕ) → get_or r.counts i 0 ≡ get_or h.counts i 0 + get_or k.counts i 0)
      × (r.total_count ≡ h.total_count + k.total_count)
add-IsLike v w =
    let (r, ran, valid, each, total, alike) =
      hdr_add_lem v.valid w.valid (IsAlike-trans v.alike (IsAlike-sym w.alike)) in
    (r, ran, record { valid = valid; alike = IsAlike-trans alike w.alike }, each, total)

-- The loop of main, over threads with valid histograms of one configuration, returns. The merged
-- histogram is valid; it has in each counter, and in all, what it had and what the threads' have;
-- and the responses are those of the threads, modulo 2^64.
pub add_threads_lem :
    {g : Histogram} (ts : List Thread) (total : Total)
    → IsLike g total.latency_histogram
    → IsLike g total.real_latency_histogram
    → AreLike g ts
    → (r : Total) × (add_threads total ts ≡ returned r)
      × IsValid r.latency_histogram
      × ((k : ℕ)
          → get_or r.latency_histogram.counts k 0
            ≡ get_or total.latency_histogram.counts k 0 + counted_at k ts)
      × (r.latency_histogram.total_count ≡ total.latency_histogram.total_count + counted_in_all ts)
      × (r.complete % 2 ^ 64 ≡ (total.complete + completed ts) % 2 ^ 64)
unfolding add_threads add_thread
add_threads_lem [] total v w none_left =
    (total, refl, v.valid, λ k. omega arith, omega arith, omega arith)
add_threads_lem (t ∷ ts) total v w (one_more a b rest) =
    let (h, ran, like, each, sum) = add-IsLike v a in
    let (q, ran', like', each', sum') = add-IsLike w b in
    let next : Total = record {
      complete = add64 total.complete t.complete;
      bytes = add64 total.bytes t.bytes;
      errors = add_errors total.errors t.errors;
      latency_histogram = h;
      real_latency_histogram = q;
    } in
    let (r, went, valid, counts, all, complete) = add_threads_lem ts next like like' rest in
    (
      r,
      rw (ran, ran') went,
      valid,
      λ k. omega (arith, counts k, each k),
      omega (arith, all, sum),
      omega (arith, complete),
    )
