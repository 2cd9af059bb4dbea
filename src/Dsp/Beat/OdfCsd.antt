-- ===== src/Dsp/Beat/OdfCsd.antt =====
-- src/audio/dsp/beat/odf_csd.h and odf_csd.cpp: the onset function, from the spectra of three frames.
pub mod Window
use listeningway.Prelude.{
  ℕ, zero, suc, ◌+◌, min, Bool, false, not, ◌||◌, List, [], map, leb, ◌==◌, if◌then◌else◌, length,
  get_or, take, replicate,
}
use listeningway.Float.{Float, ◌⊕◌, ◌⊖◌, ◌⊗◌, ◌≺◌, lit, zero_f}

pub record OdfCsd (F : Type 0) : Type 0 where
  pub prev_mag : List F
  pub prev_phase : List F
  pub prev_phase2 : List F
  pub warmed_up : Bool
  pub frames_seen : ℕ

module _ {F : Type 0} ⦃fl : Float F⦄ where
  abbrev pub make : OdfCsd F
  make = record {
    prev_mag = [];
    prev_phase = [];
    prev_phase2 = [];
    warmed_up = false;
    frames_seen = 0;
  }

  abbrev pub reset : OdfCsd F → OdfCsd F
  reset s = record {
    prev_mag = map (λ x. zero_f) s.prev_mag;
    prev_phase = map (λ x. zero_f) s.prev_phase;
    prev_phase2 = map (λ x. zero_f) s.prev_phase2;
    warmed_up = false;
    frames_seen = 0;
  }

  unfoldable pub ensure_size : OdfCsd F → ℕ → OdfCsd F
  ensure_size s n = if length s.prev_mag == n then s else record {
    prev_mag = replicate n zero_f;
    prev_phase = replicate n zero_f;
    prev_phase2 = replicate n zero_f;
    warmed_up = false;
    frames_seen = 0;
  }

  -- The three arrays after a frame, each of the frame's `n` bins written.
  abbrev pub remember : OdfCsd F → List F → List F → ℕ → OdfCsd F
  remember s magnitudes phases n = record s {
    prev_mag = take n magnitudes;
    prev_phase = take n phases;
    prev_phase2 = s.prev_phase;
  }

  -- What bin `k` adds, against the arrays of the frames before: nothing unless its magnitude rose.
  abbrev pub add_bin : List F × (List F × List F) → List F → List F → ℕ → F → F
  add_bin (mags, (phases1, phases2)) magnitudes phases k sum =
      let mag = get_or magnitudes k zero_f in
      let prev_mag = get_or mags k zero_f in
      let phase_dev =
        get_or phases k zero_f ⊖ lit 2 1 ⊗ get_or phases1 k zero_f ⊕ get_or phases2 k zero_f in
      let square = mag ⊗ mag ⊕ prev_mag ⊗ prev_mag ⊖ lit 2 1 ⊗ mag ⊗ prev_mag ⊗ fl.cos phase_dev in
      if zero_f ≺ (mag ⊖ prev_mag) then sum ⊕ fl.sqrt square else sum

  abbrev pub sum_bins : List F × (List F × List F) → List F → List F → ℕ → ℕ → F → F
  sum_bins past magnitudes phases k zero sum = sum
  sum_bins past magnitudes phases k (suc n) sum =
      sum_bins past magnitudes phases (suc k) n (add_bin past magnitudes phases k sum)

  abbrev pub warm_up : OdfCsd F → OdfCsd F
  warm_up s = record s {
    warmed_up = s.warmed_up || leb 2 (s.frames_seen + 1);
    frames_seen = s.frames_seen + 1;
  }

  unfoldable pub process : OdfCsd F → List F → List F → F × OdfCsd F
  process s magnitudes phases =
      let n = min (length magnitudes) (length phases) in
      let sized = ensure_size s n in
      if n == 0
      then (zero_f, s)
      else if not sized.warmed_up
      then (zero_f, warm_up (remember sized magnitudes phases n))
      else (
        sum_bins (sized.prev_mag, (sized.prev_phase, sized.prev_phase2)) magnitudes phases 0 n
            zero_f,
        remember sized magnitudes phases n,
      )
