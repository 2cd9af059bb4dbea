-- ===== src/Dsp/Stages/Volume/Bounds.antt =====
-- The ranges of what the volume stage writes, and that it writes nothing else.
use listeningway.Prelude.{◌≡◌, refl, inl, inr, false, Option, none, some, arith, Bool-cases}
use listeningway.Float.{Float, Casts, IsOrdered, one_f, min_f-left, min_f-right}
use listeningway.Config.Settings.{Settings}
use listeningway.Dsp.Frame.{AnalysisFrame}
use listeningway.Dsp.Stages.Volume.{VolumeStage, is_silent, process}

module _ {F D : Type 0} ⦃fl : Float F⦄ ⦃fd : Float D⦄ (casts : Casts F D) (laws : IsOrdered F) where
  -- An optional field is filled with a value that is not above a bound.
  abbrev pub AtMost : F → Option F → Type 0
  AtMost hi none = ⊥
  AtMost hi (some x) = fl.lt hi x ≡ false

  -- The bounds of the two fields that have one, and that the fields not declared are as they were.
  abbrev pub Measured : Settings F → AnalysisFrame F → AnalysisFrame F → Type 0
  Measured cfg frame out =
      AtMost one_f out.volume
      × AtMost cfg.agc.clamp_max out.volume_norm
      × (record out {
        volume = frame.volume;
        volume_left = frame.volume_left;
        volume_right = frame.volume_right;
        volume_norm = frame.volume_norm;
        volume_att = frame.volume_att;
      }
          ≡ frame)

  -- Under the laws of IEEE comparison, and if the AGC's ceiling is not below one, then on a frame
  -- with samples or without the volume is not above one, its normalised form not above the ceiling,
  -- and every field but the five that the stage declares is as it was.
  pub process-Measured :
      (s : VolumeStage F) (frame : AnalysisFrame F) (cfg : Settings F)
      → fl.lt cfg.agc.clamp_max one_f ≡ false
      → Measured cfg frame (process casts s frame cfg).1
  unfolding process
  process-Measured s frame cfg h = elim (Bool-cases (is_silent frame)) [
    | inl e ↦
        rw (e, process) (laws.lit_ge 1 1 0 1 (omega arith) (omega arith) (omega arith), h, refl)
    | inr e ↦ rw (e, process) (min_f-left laws one_f _, min_f-right laws _ cfg.agc.clamp_max, refl)
  ]
