-- ===== src/Hdr/Query/Deviation.antt =====
-- hdr_stddev of wrk2/src/hdr_histogram.c always comes back.
use weaver_dsb.Prelude.{◌≡◌, refl}
use weaver_dsb.Prelude.Float.{Float}
use weaver_dsb.Prelude.Checked.{returned}
use weaver_dsb.Hdr.{Histogram}
use weaver_dsb.Hdr.Init.Laws.{IsValid}
use weaver_dsb.Hdr.Iter.Loops.{iter_loop_lem}
use weaver_dsb.Hdr.Query.{hdr_stddev, stddev_body}
use weaver_dsb.Hdr.Query.Mean.{mean_of, hdr_mean-returns}

pub hdr_stddev-returns :
    (f : Float) {h : Histogram} → IsValid h → (d : f.Double) × (hdr_stddev f h ≡ returned d)
unfolding hdr_stddev stddev_body
hdr_stddev-returns f {h} v =
    let mean = mean_of f h in
    let (total, ran, _) =
      iter_loop_lem v (stddev_body f h mean) (λ i s. Unit {0}) (λ s. Unit {0}) (λ i s lt more p. tt)
        (λ i s le done p. tt) (f.of_ℕ 0) tt in
    (f.sqrt (f.over total (f.of_ℕ h.total_count)), rw (hdr_mean-returns v f, ran) refl)
