-- ===== src/Dsp/Stages/Centroid.antt =====
-- src/audio/dsp/stages/spectral_centroid_stage.h, a stage without state.
pub mod Bounds
use listeningway.Prelude.{ℕ, suc, Option, none, some, List, [], ◌∷◌, ◌==◌, if◌then◌else◌, length}
use listeningway.Float.{Float, Casts, ◌⊕◌, ◌⊗◌, ◌⊘◌, lit, zero_f, one_f, clamp_f}
use listeningway.Dsp.Frame.{AnalysisFrame}

module _ {F D : Type 0} ⦃fl : Float F⦄ ⦃fd : Float D⦄ (casts : Casts F D) where
  -- The weighted and the plain sum over the bins from `k` on.
  abbrev pub weigh : F → ℕ → List F → D × D → D × D
  weigh bin_hz k [] a = a
  weigh bin_hz k (x ∷ xs) a =
      weigh bin_hz (suc k) xs
        (a.0 ⊕ casts.widen (fl.of_nat k ⊗ bin_hz) ⊗ casts.widen x, a.1 ⊕ casts.widen x)

  abbrev pub centroid : ℕ → List F → F
  centroid sample_rate mags =
      let nyquist = fl.of_nat sample_rate ⊗ lit 5 10 in
      let bin_hz = nyquist ⊘ fl.of_nat (length mags) in
      let sums = weigh bin_hz 0 mags (zero_f, zero_f) in
      let centroid_hz =
        if fd.lt (casts.widen (lit 1 10_000_000_000)) sums.1
        then casts.narrow (sums.0 ⊘ sums.1)
        else zero_f in
      clamp_f (centroid_hz ⊘ nyquist) zero_f one_f

  -- Behind the two tests of the early return.
  abbrev pub level : ℕ → Option (List F) → F
  level sample_rate none = zero_f
  level sample_rate (some mags) = if sample_rate == 0 then zero_f else centroid sample_rate mags

  pub process : AnalysisFrame F → AnalysisFrame F
  process frame = record frame {
    spectral_centroid = some (level frame.format.sample_rate frame.magnitudes);
  }
