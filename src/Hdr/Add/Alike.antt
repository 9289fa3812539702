-- ===== src/Hdr/Add/Alike.antt =====
-- Histograms of one configuration, which hdr_add of wrk2/src/hdr_histogram.c merges.
use weaver_dsb.Prelude.{ℕ, ◌≡◌, sym, ◌∙◌}
use weaver_dsb.Hdr.{Histogram, get_bucket_index}
use weaver_dsb.Hdr.Index.{index_of}

-- One configuration, so that a value has the same place in both.
pub record IsAlike (g h : Histogram) : Type 0 where
  pub unit : g.unit_magnitude ≡ h.unit_magnitude
  pub magnitude : g.sub_bucket_half_count_magnitude ≡ h.sub_bucket_half_count_magnitude
  pub mask : g.sub_bucket_mask ≡ h.sub_bucket_mask
  pub half : g.sub_bucket_half_count ≡ h.sub_bucket_half_count
  pub len : g.counts_len ≡ h.counts_len

pub IsAlike-sym : {g h : Histogram} → IsAlike g h → IsAlike h g
IsAlike-sym a = record {
  unit = sym a.unit;
  magnitude = sym a.magnitude;
  mask = sym a.mask;
  half = sym a.half;
  len = sym a.len;
}

pub IsAlike-trans : {g h k : Histogram} → IsAlike g h → IsAlike h k → IsAlike g k
IsAlike-trans a b = record {
  unit = a.unit ∙ b.unit;
  magnitude = a.magnitude ∙ b.magnitude;
  mask = a.mask ∙ b.mask;
  half = a.half ∙ b.half;
  len = a.len ∙ b.len;
}

pub index_of-alike : {g h : Histogram} → IsAlike g h → (x : ℕ) → index_of g x ≡ index_of h x
unfolding get_bucket_index
index_of-alike a x = simp (a.unit, a.magnitude, a.mask, a.half)
