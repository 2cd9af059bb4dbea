-- ===== src/Dsp/OdfBuffer.antt =====
-- src/audio/dsp/beat/odf_buffer.{h,cpp}: the ring of onset values, and its resampled window.
pub mod Recent
pub mod Tests
use listeningway.Prelude.{
  ℕ, ◌+◌, ◌-◌, ◌/◌, ◌%◌, min, Bool, true, false, not, ◌||◌, List, map, ltb, leb, ◌==◌,
  if◌then◌else◌, length, get_or, set, replicate, tabulate,
}
use listeningway.Float.{Float, ◌⊕◌, ◌⊖◌, ◌⊗◌, ◌⊘◌, lit, zero_f, one_f}

abbrev pub capacity : ℕ
capacity = 1024

abbrev pub snapshot_length : ℕ
snapshot_length = 512

pub record OdfBuffer (F : Type 0) : Type 0 where
  pub ring : List F
  -- The next index to write.
  pub head : ℕ
  -- How many samples are valid.
  pub size : ℕ

module _ {F : Type 0} ⦃fl : Float F⦄ where
  pub make : OdfBuffer F
  make = record { ring = replicate capacity zero_f; head = 0; size = 0 }

  pub push : OdfBuffer F → F → OdfBuffer F
  push b odf_value = record {
    ring = set b.ring b.head odf_value;
    head = (b.head + 1) % capacity;
    size = if ltb b.size capacity then b.size + 1 else b.size;
  }

  pub reset : OdfBuffer F → OdfBuffer F
  reset b = record { ring = map (λ x. zero_f) b.ring; head = 0; size = 0 }

  -- The newest `avail_in` samples in the order of time.
  pub linearise : OdfBuffer F → ℕ → List F
  linearise b avail_in =
      let start = (b.head + capacity - avail_in) % capacity in
      tabulate (λ i. get_or b.ring ((start + i) % capacity) zero_f) 0 avail_in

  -- Output `j` of `n` between its two neighbours in `linear`.
  abbrev pub resample : List F → ℕ → ℕ → F
  resample linear n j =
      let avail_in = length linear in
      let scale = fl.of_nat (avail_in - 1) ⊘ fl.of_nat (n - 1) in
      let src = fl.of_nat j ⊗ scale in
      let src_0 = fl.to_nat (fl.floor src) in
      let src_1 = min (src_0 + 1) (avail_in - 1) in
      let frac = src ⊖ fl.of_nat src_0 in
      get_or linear src_0 zero_f ⊗ (one_f ⊖ frac) ⊕ get_or linear src_1 zero_f ⊗ frac

  -- The cast's result for a rate that no index fits is left open.
  abbrev pub wanted : F → ℕ
  wanted hop_rate_hz = fl.to_nat (fl.round (lit 595 100 ⊗ hop_rate_hz))

  abbrev pub available : OdfBuffer F → F → ℕ
  available b hop_rate_hz = min (wanted hop_rate_hz) (min b.size capacity)

  -- The result, and the `n` samples of `out`.
  pub snapshot_to : OdfBuffer F → ℕ → F → Bool × List F
  snapshot_to b n hop_rate_hz =
      let linear = linearise b (available b hop_rate_hz) in
      if not (n == snapshot_length)
        || fl.le hop_rate_hz zero_f
        || (wanted hop_rate_hz == 0 || b.size == 0)
      then (false, replicate n zero_f)
      else if available b hop_rate_hz == 1
      then (true, replicate n (get_or linear 0 zero_f))
      else (leb (snapshot_length / 2) (available b hop_rate_hz), tabulate (resample linear n) 0 n)
