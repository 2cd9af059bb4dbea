-- ===== src/Dsp/Stages/Pan.antt =====
-- src/audio/dsp/stages/pan_stage.h.
pub mod Bounds
use listeningway.Prelude.{
  Bool, true, false, ◌&&◌, Option, none, some, List, [], ◌∷◌, leb, if◌then◌else◌,
}
use listeningway.Float.{Float, ◌⊕◌, ◌⊖◌, ◌⊗◌, ◌⊘◌, lit, zero_f, one_f, clamp_f}
use listeningway.Config.Settings.{Settings}
use listeningway.Dsp.Frame.{AnalysisFrame}
use listeningway.Dsp.Pipeline.{FieldId}
use listeningway.Dsp.Stages.{blend}

abbrev pub reads : List FieldId
reads = FieldId.samples ∷ FieldId.format ∷ FieldId.volume_left ∷ FieldId.volume_right ∷ []

abbrev pub writes : List FieldId
writes = FieldId.audio_pan ∷ []

pub record PanStage (F : Type 0) : Type 0 where
  pub smoothed_pan : F
  pub is_initialized : Bool

abbrev channel_or : {F : Type 0} → F → Option F → F
channel_or d none = d
channel_or d (some x) = x

module _ {F : Type 0} ⦃fl : Float F⦄ where
  abbrev pub make : PanStage F
  make = record { smoothed_pan = zero_f; is_initialized = false }

  pub reset : PanStage F → PanStage F
  reset s = make

  -- The balance of two levels: centred in the dead zone, hard to a side when the other is silent.
  pub balance : F → F → F
  balance l r =
      let sum = l ⊕ r in
      if fl.lt (fl.abs (r ⊖ l) ⊘ sum) (lit 2 100)
      then zero_f
      else if fl.lt l (lit 1 100_000) && fl.lt (lit 5 100) r
      then one_f
      else if fl.lt r (lit 1 100_000) && fl.lt (lit 5 100) l
      then fl.neg one_f
      else clamp_f ((r ⊖ l) ⊘ sum) (fl.neg one_f) one_f

  -- The pan of a frame before smoothing: without two channels or a level, zero; then the user's bias.
  pub target : AnalysisFrame F → Settings F → F
  target frame cfg =
      let l = channel_or zero_f frame.volume_left in
      let r = channel_or zero_f frame.volume_right in
      let pan =
        if leb 2 frame.format.channels && fl.lt (lit 1 10_000) (l ⊕ r)
        then balance l r
        else zero_f in
      clamp_f (pan ⊕ clamp_f cfg.audio.pan_offset (fl.neg one_f) one_f) (fl.neg one_f) one_f

  pub process : PanStage F → AnalysisFrame F → Settings F → PanStage F × AnalysisFrame F
  process st frame cfg =
      let pan = target frame cfg in
      let s = clamp_f cfg.audio.pan_smoothing zero_f one_f in
      let alpha = one_f ⊘ (one_f ⊕ s ⊗ lit 10 1) in
      let smoothed = if st.is_initialized then blend alpha st.smoothed_pan pan else pan in
      if fl.lt zero_f s
      then (
        record { smoothed_pan = smoothed; is_initialized = true },
        record frame { audio_pan = some smoothed },
      )
      else (record st { is_initialized = false }, record frame { audio_pan = some pan })
