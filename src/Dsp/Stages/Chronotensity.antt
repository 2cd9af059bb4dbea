-- ===== src/Dsp/Stages/Chronotensity.antt =====
-- src/audio/dsp/stages/chronotensity_stage.h: three phases that advance with the energy of a band.
use listeningway.Prelude.{ℕ, some}
use listeningway.Float.{Float, ◌⊕◌, ◌⊖◌, ◌⊗◌, zero_f, one_f, max_f}
use listeningway.Config.Settings.{Settings}
use listeningway.Dsp.Frame.{AnalysisFrame}
use listeningway.Dsp.Loop.{value_or}
use listeningway.Dsp.Stages.{delta}

pub record ChronotensityStage (F : Type 0) : Type 0 where
  pub phase_v : F
  pub phase_b : F
  pub phase_t : F
  pub last_t : ℕ

module _ {F : Type 0} ⦃fl : Float F⦄ where
  abbrev pub make : ChronotensityStage F
  make = record { phase_v = zero_f; phase_b = zero_f; phase_t = zero_f; last_t = 0 }

  abbrev pub reset : ChronotensityStage F → ChronotensityStage F
  reset st = make

  -- The phase after a step, without its whole turns.
  abbrev pub advance : F → F → F → F → F
  advance dt phase norm k =
      let next = phase ⊕ dt ⊗ max_f zero_f (one_f ⊕ k ⊗ (norm ⊖ one_f)) in next ⊖ fl.floor next

  unfoldable pub process :
      ChronotensityStage F → AnalysisFrame F → Settings F → ChronotensityStage F × AnalysisFrame F
  process st frame cfg =
      let dt = delta frame.captured_at st.last_t in
      let gains = cfg.chronotensity in
      let next : ChronotensityStage F = record {
        phase_v = advance dt st.phase_v (value_or frame.volume_norm one_f) gains.gain_volume;
        phase_b = advance dt st.phase_b (value_or frame.bass_norm one_f) gains.gain_bass;
        phase_t = advance dt st.phase_t (value_or frame.treb_norm one_f) gains.gain_treble;
        last_t = frame.captured_at;
      } in
      (
        next,
        record frame {
          phase_volume = some next.phase_v;
          phase_bass = some next.phase_b;
          phase_treble = some next.phase_t;
        },
      )
