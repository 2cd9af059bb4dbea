-- ===== src/Dsp/Stages/BandNorm/Bounds.antt =====
-- The ranges of what the band normalisation writes, and that it writes nothing else.
use listeningway.Prelude.{
  ◌<◌, ◌≡◌, refl, ◌⊎◌, inl, inr, false, some, arith, ◌==◌, Bool-cases, length,
}
use listeningway.Float.{Float, IsOrdered, min_f-right}
use listeningway.Config.Settings.{Settings}
use listeningway.Dsp.Frame.{AnalysisFrame}
use listeningway.Dsp.Stages.BandNorm.{BandNormStage, process}

module _ {F : Type 0} ⦃fl : Float F⦄ (laws : IsOrdered F) where
  -- The six fields that the stage declares, put back.
  abbrev pub restored : AnalysisFrame F → AnalysisFrame F → AnalysisFrame F
  restored frame out = record out {
    bass_norm = frame.bass_norm;
    mid_norm = frame.mid_norm;
    treb_norm = frame.treb_norm;
    bass_att = frame.bass_att;
    mid_att = frame.mid_att;
    treb_att = frame.treb_att;
  }

  -- Three ratios, each at most the ceiling.
  abbrev pub Normalised : Settings F → AnalysisFrame F → Type 0
  Normalised cfg out =
      (b m t : F) × (out.bass_norm ≡ some b)
      × (out.mid_norm ≡ some m)
      × (out.treb_norm ≡ some t)
      × (fl.lt cfg.agc.clamp_max b ≡ false)
      × (fl.lt cfg.agc.clamp_max m ≡ false)
      × (fl.lt cfg.agc.clamp_max t ≡ false)

  -- Without bands the stage does nothing. With them, under the laws of IEEE comparison, it writes
  -- three ratios that are not above the ceiling of the AGC. In both cases the fields that it does
  -- not declare are as they were.
  pub process_cases :
      (s : BandNormStage F) (frame : AnalysisFrame F) (cfg : Settings F)
      → ((length frame.bands ≡ 0) × (process s frame cfg ≡ (s, frame))
          ⊎ (0 < length frame.bands) × Normalised cfg (process s frame cfg).1)
        × (restored frame (process s frame cfg).1 ≡ frame)
  unfolding process
  process_cases s frame cfg = elim (Bool-cases (length frame.bands == 0)) [
    | inl e ↦ rw (e, process) (inl (ground (arith, e), refl), refl)
    | inr e ↦
        rw (e, process)
          (
            inr (
              ground (arith, e),
              (
                _,
                _,
                _,
                refl,
                refl,
                refl,
                min_f-right laws _ cfg.agc.clamp_max,
                min_f-right laws _ cfg.agc.clamp_max,
                min_f-right laws _ cfg.agc.clamp_max,
              ),
            ),
            refl,
          )
  ]
