-- ===== src/Dsp/Stages/Loudness.antt =====
-- src/audio/dsp/stages/loudness_stage.h: the K-weighted level over a sliding window. The filters'
-- coefficients and the window are of `double`, `D`; the samples and the filters' memory of `float`.
pub mod Bounds
use listeningway.Prelude.{
  ℕ, zero, suc, ◌+◌, ◌*◌, ◌/◌, ◌%◌, max, Bool, ◌&&◌, ◌||◌, some, List, [], ◌==◌, if◌then◌else◌,
  length, get_or, set, replicate, for_range, ◌%◌,
}
use listeningway.Float.{Float, Casts, ◌⊕◌, ◌⊖◌, ◌⊗◌, ◌⊘◌, ◌≺◌, lit, zero_f, one_f, min_f}
use listeningway.Config.Settings.{Settings}
use listeningway.Dsp.Frame.{AnalysisFrame}

pub record Biquad (D : Type 0) : Type 0 where
  pub b0 : D
  pub b1 : D
  pub b2 : D
  pub a1 : D
  pub a2 : D

-- The memory of a channel, of the shelf and of the high-pass.
pub record ChState (F : Type 0) : Type 0 where
  pub x1_s1 : F
  pub x2_s1 : F
  pub y1_s1 : F
  pub y2_s1 : F
  pub x1_s2 : F
  pub x2_s2 : F
  pub y1_s2 : F
  pub y2_s2 : F

pub record LoudnessStage (F D : Type 0) : Type 0 where
  pub cs : Biquad D
  pub ch : Biquad D
  pub ch_state : List (ChState F)
  pub ring : List D
  pub ring_pos : ℕ
  pub running_sum : D
  pub configured_for : ℕ
  pub configured_window : F

module _ {F : Type 0} ⦃fl : Float F⦄ where
  abbrev blank : ChState F
  blank = record {
    x1_s1 = zero_f;
    x2_s1 = zero_f;
    y1_s1 = zero_f;
    y2_s1 = zero_f;
    x1_s2 = zero_f;
    x2_s2 = zero_f;
    y1_s2 = zero_f;
    y2_s2 = zero_f;
  }

  abbrev pub window_samples : ℕ → F → ℕ
  window_samples sr window_ms = max 32 (fl.to_nat (fl.of_nat sr ⊗ window_ms ⊘ lit 1000 1))

module _ {D : Type 0} ⦃dl : Float D⦄ where
  abbrev no_filter : Biquad D
  no_filter = record { b0 = zero_f; b1 = zero_f; b2 = zero_f; a1 = zero_f; a2 = zero_f }

  -- The angle `2 * pi * f0 / fs`.
  abbrev angle : D → D → D
  angle f0 fs = lit 2 1 ⊗ lit 3_141_592_653_589_793 1_000_000_000_000_000 ⊗ f0 ⊘ fs

  abbrev pub shelf : D → D → D → D → Biquad D
  shelf f0 q gain_db fs =
      let a = dl.pow (lit 10 1) (gain_db ⊘ lit 40 1) in
      let cw = dl.cos (angle f0 fs) in
      let alpha = dl.sin (angle f0 fs) ⊘ (lit 2 1 ⊗ q) in
      let sqrt_a = dl.sqrt a in
      let up = a ⊕ one_f in
      let down = a ⊖ one_f in
      let a0 = up ⊕ down ⊗ cw ⊕ lit 2 1 ⊗ sqrt_a ⊗ alpha in
      record {
        b0 = a ⊗ (up ⊖ down ⊗ cw ⊕ lit 2 1 ⊗ sqrt_a ⊗ alpha) ⊘ a0;
        b1 = lit 2 1 ⊗ a ⊗ (down ⊖ up ⊗ cw) ⊘ a0;
        b2 = a ⊗ (up ⊖ down ⊗ cw ⊖ lit 2 1 ⊗ sqrt_a ⊗ alpha) ⊘ a0;
        a1 = dl.neg (lit 2 1) ⊗ (down ⊕ up ⊗ cw) ⊘ a0;
        a2 = (up ⊕ down ⊗ cw ⊖ lit 2 1 ⊗ sqrt_a ⊗ alpha) ⊘ a0;
      }

  abbrev pub highpass : D → D → D → Biquad D
  highpass f0 q fs =
      let cw = dl.cos (angle f0 fs) in
      let alpha = dl.sin (angle f0 fs) ⊘ (lit 2 1 ⊗ q) in
      let a0 = one_f ⊕ alpha in
      record {
        b0 = (one_f ⊕ cw) ⊘ lit 2 1 ⊘ a0;
        b1 = dl.neg (one_f ⊕ cw) ⊘ a0;
        b2 = (one_f ⊕ cw) ⊘ lit 2 1 ⊘ a0;
        a1 = dl.neg (lit 2 1) ⊗ cw ⊘ a0;
        a2 = (one_f ⊖ alpha) ⊘ a0;
      }

module _ {F D : Type 0} ⦃fl : Float F⦄ ⦃dl : Float D⦄ where
  abbrev pub make : LoudnessStage F D
  make = record {
    cs = no_filter;
    ch = no_filter;
    ch_state = [];
    ring = [];
    ring_pos = 0;
    running_sum = zero_f;
    configured_for = 0;
    configured_window = zero_f;
  }

  abbrev pub reset : LoudnessStage F D → LoudnessStage F D
  reset st = record st {
    ch_state = [];
    ring = [];
    ring_pos = 0;
    running_sum = zero_f;
    configured_for = 0;
    configured_window = zero_f;
  }

  abbrev is_configured : LoudnessStage F D → ℕ → ℕ → F → Bool
  is_configured st sr channels window_ms =
      (sr == st.configured_for)
      && (fl.abs (window_ms ⊖ st.configured_window) ≺ lit 5 10)
      && (length st.ch_state == channels)

  unfoldable pub configure : LoudnessStage F D → ℕ → ℕ → F → LoudnessStage F D
  configure st sr channels window_ms =
      if is_configured st sr channels window_ms then st else record {
        cs = shelf (lit 16_819_744 10_000) (lit 7071 10_000) (lit 399_984 100_000) (dl.of_nat sr);
        ch = highpass (lit 3_813_547 100_000) (lit 5 10) (dl.of_nat sr);
        ring = replicate (window_samples sr window_ms) zero_f;
        ring_pos = 0;
        running_sum = zero_f;
        ch_state = replicate channels blank;
        configured_for = sr;
        configured_window = window_ms;
      }

module _ {F D : Type 0} ⦃fl : Float F⦄ ⦃dl : Float D⦄ (casts : Casts F D) where
  -- One output of a filter, from its input and its memory.
  abbrev filter : Biquad D → F → F → F → F → F → F
  filter q x x1 x2 y1 y2 = casts.narrow (
      q.b0 ⊗ casts.widen x
      ⊕ q.b1 ⊗ casts.widen x1
      ⊕ q.b2 ⊗ casts.widen x2
      ⊖ q.a1 ⊗ casts.widen y1
      ⊖ q.a2 ⊗ casts.widen y2)

  -- A sample of a channel through both filters.
  abbrev pub weigh : LoudnessStage F D → ChState F → F → F × ChState F
  weigh st m x =
      let y1 = filter st.cs x m.x1_s1 m.x2_s1 m.y1_s1 m.y2_s1 in
      let y2 = filter st.ch y1 m.x1_s2 m.x2_s2 m.y1_s2 m.y2_s2 in
      (
        y2,
        record {
          x2_s1 = m.x1_s1;
          x1_s1 = x;
          y2_s1 = m.y1_s1;
          y1_s1 = y1;
          x2_s2 = m.x1_s2;
          x1_s2 = y1;
          y2_s2 = m.y1_s2;
          y1_s2 = y2;
        },
      )

  -- The channels from `c` of a frame, with the sum of their squares.
  abbrev pub weigh_channels :
      LoudnessStage F D → List F → ℕ → ℕ → ℕ → List (ChState F) → D → List (ChState F) × D
  weigh_channels st samples base c zero states frame_sq = (states, frame_sq)
  weigh_channels st samples base c (suc n) states frame_sq =
      let (y2, m) = weigh st (get_or states c blank) (get_or samples (base + c) zero_f) in
      weigh_channels st samples base (suc c) n (set states c m)
        (frame_sq ⊕ casts.widen y2 ⊗ casts.widen y2)

  -- A frame's turn: its sum enters the window, and the oldest leaves.
  unfoldable pub slide : LoudnessStage F D → List F → ℕ → ℕ → LoudnessStage F D
  slide st samples channels i =
      let (states, frame_sq) =
        weigh_channels st samples (i * channels) 0 channels st.ch_state zero_f in
      let leaving = get_or st.ring st.ring_pos zero_f in
      record st {
        ch_state = states;
        ring = set st.ring st.ring_pos frame_sq;
        ring_pos = (st.ring_pos + 1) % length st.ring;
        running_sum = st.running_sum ⊖ leaving ⊕ frame_sq;
      }

  abbrev pub level : LoudnessStage F D → ℕ → F
  level st channels =
      let n_active = max 1 (length st.ring * channels) in
      let mean_sq = st.running_sum ⊘ dl.of_nat n_active in
      min_f one_f (casts.narrow (dl.sqrt mean_sq))

  -- The stage after the samples of a frame.
  abbrev pub listen : LoudnessStage F D → AnalysisFrame F → Settings F → LoudnessStage F D
  listen st frame cfg =
      let channels = frame.format.channels in
      let ready = configure st frame.format.sample_rate channels cfg.loudness.window_ms in
      for_range 0 (length frame.samples / channels) (λ i s. slide s frame.samples channels i) ready

  unfoldable pub process :
      LoudnessStage F D → AnalysisFrame F → Settings F → LoudnessStage F D × AnalysisFrame F
  process st frame cfg =
      let next = listen st frame cfg in
      if frame.format.sample_rate == 0 || frame.format.channels == 0 || (length frame.samples == 0)
      then (st, record frame { loudness = some zero_f })
      else (next, record frame { loudness = some (level next frame.format.channels) })
