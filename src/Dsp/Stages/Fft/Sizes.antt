-- ===== src/Dsp/Stages/Fft/Sizes.antt =====
-- src/audio/dsp/stages/fft_stage.cpp: the sizes of the spectrum.
use listeningway.Prelude.{
  ℕ, ◌/◌, max, ◌≡◌, refl, ap, ◌∙◌, ◌⊎◌, inl, inr, Option, none, some, arith, length, tabulate,
  length-tabulate,
}
use listeningway.Prelude.Int.{pos_part}
use listeningway.Float.{Float}
use listeningway.Config.Settings.{Settings}
use listeningway.Dsp.Frame.{AnalysisFrame}
use listeningway.Dsp.Stages.Fft.{
  Transform, FftStage, configure, input_at, magnitude_at, phase_at, transform, process,
}

module _ {F : Type 0} ⦃fl : Float F⦄ where
  -- A spectrum of `half` bins, alike in the frame and in the stage.
  abbrev pub HasSpectrum : ℕ → FftStage F × AnalysisFrame F → Type 0
  HasSpectrum half (st, frame) =
      (frame.magnitudes ≡ some st.magnitudes)
      × ((frame.phases ≡ some st.phases)
          × ((length st.magnitudes ≡ half) × (length st.phases ≡ half)))

  configure-size :
      (alloc : ℕ → Option (Transform F)) (st : FftStage F) (n : ℕ)
      → (configure alloc st n).fft_size ≡ n
  unfolding configure
  configure-size alloc st n = ground arith

  transform_cases :
      (st : FftStage F) (frame : AnalysisFrame F) (plan : Option (Transform F)) (half : ℕ)
      → st.fft_size / 2 ≡ half
      → ((transform st frame plan).1 ≡ frame) ⊎ HasSpectrum half (transform st frame plan)
  transform_cases st frame none half e = inl refl
  transform_cases st frame (some fft) half e =
      let out = fft (tabulate (input_at st frame) 0 st.fft_size) in
      inr (
        refl,
        (
          refl,
          (
            length-tabulate (magnitude_at out) 0 (st.fft_size / 2) ∙ e,
            length-tabulate (phase_at out) 0 (st.fft_size / 2) ∙ e,
          ),
        ),
      )

  -- Either kiss_fft has no transform of the size and the frame goes through as it came, or the frame
  -- gets as many magnitudes as phases: half of the size, which is the setting but at least 64.
  pub process_sizes :
      (alloc : ℕ → Option (Transform F)) (st : FftStage F) (frame : AnalysisFrame F)
      (cfg : Settings F)
      → ((process alloc st frame cfg).1 ≡ frame)
        ⊎ HasSpectrum (max 64 (pos_part cfg.frequency.fft_size) / 2) (process alloc st frame cfg)
  unfolding process
  process_sizes alloc st frame cfg =
      let n = max 64 (pos_part cfg.frequency.fft_size) in
      let ready = configure alloc st n in
      transform_cases ready frame ready.fft_cfg _ (ap (λ k. k / 2) (configure-size alloc st n))
