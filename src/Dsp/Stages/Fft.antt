-- ===== src/Dsp/Stages/Fft.antt =====
-- src/audio/dsp/stages/fft_stage.h and fft_stage.cpp. kiss_fft is a parameter: `alloc` gives the
-- transform of a size, on lists of real and imaginary parts, or none.
pub mod Sizes
use listeningway.Prelude.{
  ℕ, zero, suc, ◌-◌, ◌*◌, ◌/◌, min, max, Option, none, some, List, [], map, ltb, ◌==◌,
  if◌then◌else◌, length, get_or, replicate, tabulate,
}
use listeningway.Prelude.Int.{pos_part}
use listeningway.Float.{Float, ◌⊕◌, ◌⊖◌, ◌⊗◌, ◌⊘◌, lit, zero_f, one_f}
use listeningway.Config.Settings.{Settings}
use listeningway.Dsp.Frame.{AnalysisFrame}

abbrev pub Transform : Type 0 → Type 0
Transform F = List (F × F) → List (F × F)

pub record FftStage (F : Type 0) : Type 0 where
  pub fft_size : ℕ
  pub fft_cfg : Option (Transform F)
  pub hann : List F
  pub magnitudes : List F
  pub phases : List F

module _ {F : Type 0} ⦃fl : Float F⦄ where
  abbrev pub make : FftStage F
  make = record { fft_size = 0; fft_cfg = none; hann = []; magnitudes = []; phases = [] }

  abbrev pub reset : FftStage F → FftStage F
  reset st = record st {
    magnitudes = map (λ x. zero_f) st.magnitudes;
    phases = map (λ x. zero_f) st.phases;
  }

  abbrev pub hann_at : ℕ → ℕ → F
  hann_at fft_size n =
      let two_pi = lit 2 1 ⊗ lit 3_141_592_653 1_000_000_000 in
      lit 5 10 ⊗ (one_f ⊖ fl.cos (two_pi ⊗ fl.of_nat n ⊘ fl.of_nat (fft_size - 1)))

  -- A size of zero, which `process` never asks for, frees the transform and stops there.
  unfoldable pub configure : (ℕ → Option (Transform F)) → FftStage F → ℕ → FftStage F
  configure alloc st fft_size =
      if fft_size == st.fft_size
      then st
      else if fft_size == 0
      then record st { fft_size = 0; fft_cfg = none }
      else record {
        fft_size = fft_size;
        fft_cfg = alloc fft_size;
        hann = tabulate (hann_at fft_size) 0 fft_size;
        magnitudes = replicate (fft_size / 2) zero_f;
        phases = replicate (fft_size / 2) zero_f;
      }

  abbrev sum_channels : List F → ℕ → ℕ → F → F
  sum_channels samples k zero s = s
  sum_channels samples k (suc n) s = sum_channels samples (suc k) n (s ⊕ get_or samples k zero_f)

  -- Sample `i` of the transform's input: the windowed mean of the channels, and zeros after the end.
  abbrev pub input_at : FftStage F → AnalysisFrame F → ℕ → F × F
  input_at st frame i =
      let channels = max frame.format.channels 1 in
      let frames_used = min (length frame.samples / channels) st.fft_size in
      let s = sum_channels frame.samples (i * channels) channels zero_f ⊘ fl.of_nat channels in
      if ltb i frames_used then (s ⊗ get_or st.hann i zero_f, zero_f) else (zero_f, zero_f)

  abbrev pub magnitude_at : List (F × F) → ℕ → F
  magnitude_at out k = let (re, im) = get_or out k (zero_f, zero_f) in fl.sqrt (re ⊗ re ⊕ im ⊗ im)

  abbrev pub phase_at : List (F × F) → ℕ → F
  phase_at out k = let (re, im) = get_or out k (zero_f, zero_f) in fl.atan2 im re

  abbrev pub transform :
      FftStage F → AnalysisFrame F → Option (Transform F) → FftStage F × AnalysisFrame F
  transform st frame none = (st, frame)
  transform st frame (some fft) =
      let out = fft (tabulate (input_at st frame) 0 st.fft_size) in
      let half = st.fft_size / 2 in
      let magnitudes = tabulate (magnitude_at out) 0 half in
      let phases = tabulate (phase_at out) 0 half in
      (
        record st { magnitudes = magnitudes; phases = phases },
        record frame { magnitudes = some magnitudes; phases = some phases },
      )

  unfoldable pub process :
      (ℕ → Option (Transform F))
      → FftStage F
      → AnalysisFrame F
      → Settings F
      → FftStage F × AnalysisFrame F
  process alloc st frame cfg =
      let ready = configure alloc st (max 64 (pos_part cfg.frequency.fft_size)) in
      transform ready frame ready.fft_cfg
