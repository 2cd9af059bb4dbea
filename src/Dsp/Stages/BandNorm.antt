-- ===== src/Dsp/Stages/BandNorm.antt =====
-- src/audio/dsp/stages/band_norm_stage.h.
pub mod Bounds
use listeningway.Prelude.{
  ℕ, suc, ◌-◌, ◌*◌, ◌/◌, max, some, List, [], ◌∷◌, ltb, ◌==◌, if◌then◌else◌, length,
}
use listeningway.Float.{Float, ◌⊕◌, ◌⊘◌, lit, zero_f, one_f, min_f, max_f}
use listeningway.Config.Settings.{AgcConfig, Settings}
use listeningway.Dsp.Frame.{AnalysisFrame}
use listeningway.Dsp.Pipeline.{FieldId}
use listeningway.Dsp.Stages.{delta, mean_step, att_step}

abbrev pub reads : List FieldId
reads = FieldId.bands ∷ FieldId.format ∷ []

abbrev pub writes : List FieldId
writes =
    FieldId.bass_norm ∷ FieldId.mid_norm ∷ FieldId.treb_norm ∷ FieldId.bass_att ∷ FieldId.mid_att
    ∷ FieldId.treb_att ∷ []

pub record BandNormStage (F : Type 0) : Type 0 where
  pub bass_mean : F
  pub mid_mean : F
  pub treb_mean : F
  pub bass_att : F
  pub mid_att : F
  pub treb_att : F
  pub last_t : ℕ

module _ {F : Type 0} ⦃fl : Float F⦄ where
  abbrev pub make : BandNormStage F
  make = record {
    bass_mean = zero_f;
    mid_mean = zero_f;
    treb_mean = zero_f;
    bass_att = one_f;
    mid_att = one_f;
    treb_att = one_f;
    last_t = 0;
  }

  pub reset : BandNormStage F → BandNormStage F
  reset s = make

  -- The sums of the three thirds, by index.
  abbrev pub split : ℕ → ℕ → ℕ → List F → F × (F × F) → F × (F × F)
  split a b i [] e = e
  split a b i (v ∷ vs) e = split a b (suc i) vs (
      if ltb i a
      then (e.0 ⊕ v, e.1)
      else if ltb i b
      then (e.0, (e.1.0 ⊕ v, e.1.1))
      else (e.0, (e.1.0, e.1.1 ⊕ v)))

  -- A band's energy over its running mean, cut at the AGC's ceiling.
  abbrev pub norm_of : AgcConfig F → F → F → F
  norm_of agc energy mean = min_f (energy ⊘ max_f mean (lit 1 1_000_000)) agc.clamp_max

  abbrev pub normalise :
      BandNormStage F → AnalysisFrame F → Settings F → BandNormStage F × AnalysisFrame F
  normalise s frame cfg =
      let n = length frame.bands in
      let a = n / 3 in
      let b = n * 2 / 3 in
      let e = split a b 0 frame.bands (zero_f, (zero_f, zero_f)) in
      let bass_e = e.0 ⊘ fl.of_nat (max 1 a) in
      let mid_e = e.1.0 ⊘ fl.of_nat (max 1 (b - a)) in
      let treb_e = e.1.1 ⊘ fl.of_nat (max 1 (n - b)) in
      let dt = delta frame.captured_at s.last_t in
      let bass_mean = mean_step cfg.agc dt s.bass_mean bass_e in
      let mid_mean = mean_step cfg.agc dt s.mid_mean mid_e in
      let treb_mean = mean_step cfg.agc dt s.treb_mean treb_e in
      let bn = norm_of cfg.agc bass_e bass_mean in
      let mn = norm_of cfg.agc mid_e mid_mean in
      let tn = norm_of cfg.agc treb_e treb_mean in
      let bass_att = att_step cfg.agc dt s.bass_att bn in
      let mid_att = att_step cfg.agc dt s.mid_att mn in
      let treb_att = att_step cfg.agc dt s.treb_att tn in
      (
        record {
          bass_mean = bass_mean;
          mid_mean = mid_mean;
          treb_mean = treb_mean;
          bass_att = bass_att;
          mid_att = mid_att;
          treb_att = treb_att;
          last_t = frame.captured_at;
        },
        record frame {
          bass_norm = some bn;
          mid_norm = some mn;
          treb_norm = some tn;
          bass_att = some bass_att;
          mid_att = some mid_att;
          treb_att = some treb_att;
        },
      )

  pub process : BandNormStage F → AnalysisFrame F → Settings F → BandNormStage F × AnalysisFrame F
  process s frame cfg = if length frame.bands == 0 then (s, frame) else normalise s frame cfg
