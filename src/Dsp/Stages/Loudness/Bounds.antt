-- ===== src/Dsp/Stages/Loudness/Bounds.antt =====
-- src/audio/dsp/stages/loudness_stage.h: the window stays a ring, and the level is not above one.
use native.Mathlib.Nat.{mod-lt}
use listeningway.Prelude.{
  ℕ, zero, suc, ◌+◌, ◌*◌, ◌/◌, ◌<◌, ◌≡◌, refl, ◌∙◌, ◌⊎◌, inl, inr, false, some, List, arith, ◌==◌,
  Bool-cases, length, length-set, length-replicate, for_range-Keeps,
}
use listeningway.Float.{Float, IsOrdered, Casts, ◌≺◌, zero_f, one_f, min_f-left}
use listeningway.Config.Settings.{Settings}
use listeningway.Dsp.Frame.{AnalysisFrame}
use listeningway.Dsp.Stages.Loudness.{
  ChState, LoudnessStage, blank, configure, window_samples, is_configured, weigh_channels, slide,
  level, listen, process,
}

-- The window has room, its next place is inside, and every channel has its filters.
abbrev pub IsWindow : {F D : Type 0} → ℕ → LoudnessStage F D → Type 0
IsWindow channels st = (st.ring_pos < length st.ring) × (length st.ch_state ≡ channels)

-- Before the first frame and after a reset nothing is configured for a rate.
abbrev pub IsSound : {F D : Type 0} → LoudnessStage F D → Type 0
IsSound st = (st.configured_for ≡ 0) ⊎ (st.ring_pos < length st.ring)

module _ {F D : Type 0} ⦃fl : Float F⦄ ⦃dl : Float D⦄ where
  configure-IsWindow :
      (st : LoudnessStage F D) (sr channels : ℕ) (window_ms : F)
      → 0 < sr
      → IsSound st
      → IsWindow channels (configure st sr channels window_ms)
  unfolding configure
  configure-IsWindow st sr channels window_ms h sound =
      elim (Bool-cases (is_configured st sr channels window_ms)) [
        | inl e ↦ rw e (ground (arith, e, sound, h), ground (arith, e))
        | inr e ↦ rw e (
          omega (arith, length-replicate (window_samples sr window_ms) (zero_f {F = D})),
          length-replicate channels (blank {F = F}),
        )
      ]

module _ {F D : Type 0} ⦃fl : Float F⦄ ⦃dl : Float D⦄ (casts : Casts F D) where
  length-weigh_channels :
      (st : LoudnessStage F D) (samples : List F) (base c n : ℕ) (states : List (ChState F))
      (sq : D)
      → length (weigh_channels casts st samples base c n states sq).0 ≡ length states
  length-weigh_channels st samples base c zero states sq = refl
  length-weigh_channels st samples base c (suc n) states sq =
      length-weigh_channels st samples base (suc c) n _ _ ∙ length-set states c _

  slide-IsWindow :
      (st : LoudnessStage F D) (samples : List F) (channels i : ℕ)
      → IsWindow channels st
      → IsWindow channels (slide casts st samples channels i)
  unfolding slide
  slide-IsWindow st samples channels i (inside, states) = (
    rw (length-set st.ring st.ring_pos _) (mod-lt (st.ring_pos + 1) (omega (arith, inside))),
    length-weigh_channels st samples (i * channels) 0 channels st.ch_state zero_f ∙ states,
  )

  process-split :
      (st : LoudnessStage F D) (frame : AnalysisFrame F) (cfg : Settings F)
      → 0 < frame.format.sample_rate
      → 0 < frame.format.channels
      → 0 < length frame.samples
      → process casts st frame cfg ≡ (
        listen casts st frame cfg,
        record frame {
          loudness = some (level casts (listen casts st frame cfg) frame.format.channels);
        },
      )
  unfolding process
  process-split st frame cfg h k l =
      let some_rate : (frame.format.sample_rate == 0) ≡ false = ground (arith, h) in
      let some_channels : (frame.format.channels == 0) ≡ false = ground (arith, k) in
      let some_samples : (length frame.samples == 0) ≡ false = ground (arith, l) in
      rw (some_rate, some_channels, some_samples) refl

  -- Under the laws of IEEE comparison, for a frame with a rate, channels and samples, from a stage
  -- that is new, reset or has run: the window's next place is inside it, every channel has its
  -- filters, and the frame gets a loudness that is not above one and no other field.
  pub process-IsWindow :
      (laws : IsOrdered F) (st : LoudnessStage F D) (frame : AnalysisFrame F) (cfg : Settings F)
      → 0 < frame.format.sample_rate
      → 0 < frame.format.channels
      → 0 < length frame.samples
      → IsSound st
      → IsWindow frame.format.channels (process casts st frame cfg).0
        × ((l : F) × (((process casts st frame cfg).1 ≡ record frame { loudness = some l })
              × ((one_f ≺ l) ≡ false)))
  process-IsWindow laws st frame cfg h k l sound =
      let channels = frame.format.channels in
      let ready = configure st frame.format.sample_rate channels cfg.loudness.window_ms in
      let kept =
        for_range-Keeps (IsWindow channels) (λ i s. slide casts s frame.samples channels i) 0
          (length frame.samples / channels) ready
          (λ i s w. slide-IsWindow s frame.samples channels i w)
          (configure-IsWindow st frame.format.sample_rate channels cfg.loudness.window_ms h
            sound) in
      let split = process-split st frame cfg h k l in
      rw split
        (kept, (level casts (listen casts st frame cfg) channels, (refl, min_f-left laws one_f _)))
