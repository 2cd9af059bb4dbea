-- ===== src/Dsp/Stages/Pan/Bounds.antt =====
-- The pan that is written without smoothing, or on the first smoothed frame, is within [-1, 1].
use listeningway.Prelude.{◌≡◌, refl, ◌⊎◌, inl, inr, false, some, arith, Bool-cases}
use listeningway.Float.{Float, IsOrdered, Within, zero_f, one_f, clamp_f, clamp_f-Within}
use listeningway.Config.Settings.{Settings}
use listeningway.Dsp.Frame.{AnalysisFrame}
use listeningway.Dsp.Stages.Pan.{PanStage, target, process}

module _ {F : Type 0} ⦃fl : Float F⦄ (laws : IsOrdered F) where
  one_order : fl.lt one_f (fl.neg one_f) ≡ false
  one_order = laws.neg_lit 1 1 1 1 (omega arith) (omega arith)

  target-Within :
      (frame : AnalysisFrame F) (cfg : Settings F) → Within (fl.neg one_f) one_f (target frame cfg)
  unfolding target
  target-Within frame cfg = clamp_f-Within laws _ (fl.neg one_f) one_f one_order

  -- Under the laws of IEEE comparison, a stage that is not initialised, or that runs without
  -- smoothing, writes a pan neither below -1 nor above 1, whatever the levels and the user's offset
  -- are, and no other field.
  pub process-Within :
      (st : PanStage F) (frame : AnalysisFrame F) (cfg : Settings F)
      → (fl.lt zero_f (clamp_f cfg.audio.pan_smoothing zero_f one_f) ≡ false)
        ⊎ (st.is_initialized ≡ false)
      → (p : F) × ((process st frame cfg).1 ≡ record frame { audio_pan = some p })
        × Within (fl.neg one_f) one_f p
  unfolding process
  process-Within st frame cfg (inl e) =
      (target frame cfg, rw (e, process) refl, target-Within frame cfg)
  process-Within st frame cfg (inr e) =
      elim (Bool-cases (fl.lt zero_f (clamp_f cfg.audio.pan_smoothing zero_f one_f))) [
        | inl b ↦ (target frame cfg, rw (b, e, process) refl, target-Within frame cfg)
        | inr b ↦ (target frame cfg, rw (b, process) refl, target-Within frame cfg)
      ]
