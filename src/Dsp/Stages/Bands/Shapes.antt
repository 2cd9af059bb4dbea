-- ===== src/Dsp/Stages/Bands/Shapes.antt =====
-- src/audio/dsp/stages/bands_stage.cpp: what a frame with a spectrum gets.
use listeningway.Prelude.{ℕ, ◌<◌, ◌≡◌, false, some, List, [], length, get_elem?, get_or, All}
use listeningway.Float.{Float, ◌≺◌, one_f}
use listeningway.Config.Settings.{Settings}
use listeningway.Dsp.Frame.{AnalysisFrame}
use listeningway.Dsp.Stages.Bands.{Cache, band_value, downsample_at}
use listeningway.Dsp.Stages.Bands.Covering.{IsCovering}

module _ {F : Type 0} ⦃fl : Float F⦄ where
  -- `size` entries, each the mean of the entries of `src` that fall on it.
  abbrev pub IsDownsampled : List F → ℕ → List F → Type 0
  IsDownsampled src size out =
      (length out ≡ size) × ((i : ℕ) → i < size → get_elem? out i ≡ some (downsample_at src size i))

  -- The cache fits the spectrum `mags` and `n` bands; the frame has `n` bands, each the scaled mean of
  -- the magnitudes at its bins, cut off at one, and two shorter forms of them.
  abbrev pub HasBands : List F → F → ℕ → Cache F × AnalysisFrame F → Type 0
  HasBands mags band_norm n (cache, frame) =
      (IsCovering cache × ((cache.fft_half ≡ length mags) × (cache.band_count ≡ n)))
      × ((length frame.raw_bands ≡ n)
          × (((b : ℕ)
                → b < n
                → get_elem? frame.raw_bands b
                  ≡ some (band_value mags band_norm (get_or cache.bins b [])))
              × (All (λ v. (one_f ≺ v) ≡ false) frame.raw_bands
                  × ((frame.band_count ≡ some n)
                      × (IsDownsampled frame.raw_bands 16 frame.bands_16
                          × IsDownsampled frame.raw_bands 32 frame.bands_32)))))
