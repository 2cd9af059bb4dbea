-- ===== src/Dsp/Stages/Volume.antt =====
-- src/audio/dsp/stages/volume_stage.h.
pub mod Bounds
use listeningway.Prelude.{
  ℕ, zero, suc, ◌+◌, ◌*◌, ◌/◌, Bool, ◌||◌, some, List, [], ◌∷◌, leb, ◌==◌, if◌then◌else◌, length,
  get_or,
}
use listeningway.Float.{Float, Casts, ◌⊕◌, ◌⊗◌, ◌⊘◌, lit, zero_f, one_f, min_f, max_f}
use listeningway.Config.Settings.{Settings}
use listeningway.Dsp.Frame.{AnalysisFrame}
use listeningway.Dsp.Pipeline.{FieldId}
use listeningway.Dsp.Stages.{delta, mean_step, att_step}

abbrev pub reads : List FieldId
reads = FieldId.samples ∷ FieldId.format ∷ []

abbrev pub writes : List FieldId
writes =
    FieldId.volume ∷ FieldId.volume_left ∷ FieldId.volume_right ∷ FieldId.volume_norm
    ∷ FieldId.volume_att ∷ []

pub record VolumeStage (F : Type 0) : Type 0 where
  pub running_mean : F
  pub att : F
  pub last_t : ℕ

-- The sums of the pass: of absolute values, and of the squares of the first two channels.
pub record Sums (D : Type 0) : Type 0 where
  pub abs_sum : D
  pub sum_l : D
  pub sum_r : D

module _ {F : Type 0} ⦃fl : Float F⦄ where
  abbrev pub make : VolumeStage F
  make = record { running_mean = zero_f; att = one_f; last_t = 0 }

  pub reset : VolumeStage F → VolumeStage F
  reset s = make

  -- The three early returns: no channels, no samples, or not one whole sample frame.
  abbrev pub is_silent : AnalysisFrame F → Bool
  is_silent frame =
      frame.format.channels == 0
      || length frame.samples == 0
      || length frame.samples / frame.format.channels == 0

  -- What a frame without samples gets.
  abbrev pub silence : AnalysisFrame F → AnalysisFrame F
  silence frame = record frame {
    volume = some zero_f;
    volume_left = some zero_f;
    volume_right = some zero_f;
    volume_norm = some one_f;
    volume_att = some one_f;
  }

module _ {F D : Type 0} ⦃fl : Float F⦄ ⦃fd : Float D⦄ (casts : Casts F D) where
  abbrev pub add_sample : Sums D → ℕ → F → Sums D
  add_sample a c x =
      let square = casts.widen x ⊗ casts.widen x in
      record {
        abs_sum = a.abs_sum ⊕ casts.widen (fl.abs x);
        sum_l = if c == 0 then a.sum_l ⊕ square else a.sum_l;
        sum_r = if c == 1 then a.sum_r ⊕ square else a.sum_r;
      }

  -- The inner loop, over the channels from `c` on, `left` of them.
  abbrev pub add_frame : List F → ℕ → ℕ → ℕ → Sums D → Sums D
  add_frame xs base c zero a = a
  add_frame xs base c (suc left) a =
      add_frame xs base (suc c) left (add_sample a c (get_or xs (base + c) zero_f))

  -- The outer loop, over the sample frames.
  abbrev pub add_frames : List F → ℕ → ℕ → ℕ → Sums D → Sums D
  add_frames xs channels i zero a = a
  add_frames xs channels i (suc left) a =
      add_frames xs channels (suc i) left (add_frame xs (i * channels) 0 channels a)

  abbrev pub measure :
      VolumeStage F → AnalysisFrame F → Settings F → VolumeStage F × AnalysisFrame F
  measure s frame cfg =
      let channels = frame.format.channels in
      let total = length frame.samples in
      let frames = total / channels in
      let a =
        add_frames frame.samples channels 0 frames
          (record { abs_sum = zero_f; sum_l = zero_f; sum_r = zero_f }) in
      let mean_abs = casts.narrow (a.abs_sum ⊘ fd.of_nat total) in
      let volume = min_f one_f (mean_abs ⊗ cfg.frequency.amplifier_volume) in
      let left = fl.sqrt (casts.narrow (a.sum_l ⊘ fd.of_nat frames)) in
      let right =
        if leb 2 channels then fl.sqrt (casts.narrow (a.sum_r ⊘ fd.of_nat frames)) else left in
      let dt = delta frame.captured_at s.last_t in
      let mean = mean_step cfg.agc dt s.running_mean volume in
      let norm = min_f (volume ⊘ max_f mean (lit 1 1_000_000)) cfg.agc.clamp_max in
      let att = att_step cfg.agc dt s.att norm in
      (
        record { running_mean = mean; att = att; last_t = frame.captured_at },
        record frame {
          volume = some volume;
          volume_left = some left;
          volume_right = some right;
          volume_norm = some norm;
          volume_att = some att;
        },
      )

  pub process : VolumeStage F → AnalysisFrame F → Settings F → VolumeStage F × AnalysisFrame F
  process s frame cfg = if is_silent frame then (s, silence frame) else measure s frame cfg
