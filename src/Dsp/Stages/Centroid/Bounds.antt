-- ===== src/Dsp/Stages/Centroid/Bounds.antt =====
-- The centroid is within [0, 1].
use listeningway.Prelude.{
  ℕ, ◌≡◌, refl, inl, inr, false, Option, none, some, List, arith, ◌==◌, Bool-cases,
}
use listeningway.Float.{Float, Casts, IsOrdered, Within, zero_f, one_f, clamp_f-Within}
use listeningway.Dsp.Frame.{AnalysisFrame}
use listeningway.Dsp.Stages.Centroid.{level, process}

module _ {F D : Type 0} ⦃fl : Float F⦄ ⦃fd : Float D⦄ (casts : Casts F D) (laws : IsOrdered F) where
  unit_order : fl.lt one_f zero_f ≡ false
  unit_order = laws.lit_ge 1 1 0 1 (omega arith) (omega arith) (omega arith)

  level-Within : (rate : ℕ) (mags : Option (List F)) → Within zero_f one_f (level casts rate mags)
  level-Within rate none = (laws.lt_irrefl zero_f, unit_order)
  level-Within rate (some mags) = elim (Bool-cases (rate == 0)) [
    | inl e ↦ rw e (laws.lt_irrefl zero_f, unit_order)
    | inr e ↦ rw e (clamp_f-Within laws _ zero_f one_f unit_order)
  ]

  -- Under the laws of IEEE comparison, the stage writes a centroid neither below 0 nor above 1,
  -- with or without a spectrum, and no other field.
  pub centroid-Within :
      (frame : AnalysisFrame F)
      → (c : F) × (process casts frame ≡ record frame { spectral_centroid = some c })
        × Within zero_f one_f c
  unfolding process
  centroid-Within frame = (_, refl, level-Within frame.format.sample_rate frame.magnitudes)
