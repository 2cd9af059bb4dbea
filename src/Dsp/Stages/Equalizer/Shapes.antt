-- ===== src/Dsp/Stages/Equalizer/Shapes.antt =====
-- The two gains keep the number of bands.
use listeningway.Prelude.{
  ℕ, suc, ◌≡◌, refl, sym, ap, ◌∙◌, inl, inr, not, ◌||◌, List, [], ◌∷◌, ◌==◌, ==_iff, Bool-cases,
  length,
}
use listeningway.Float.{Float}
use listeningway.Config.Settings.{Settings}
use listeningway.Dsp.Frame.{AnalysisFrame}
use listeningway.Dsp.Stages.Equalizer.{boost_from, equalize_from, log_boost, equalize, is_log}

module _ {F : Type 0} ⦃fl : Float F⦄ where
  length-boost_from : (ls : F) (b : ℕ) (xs : List F) → length (boost_from ls b xs) ≡ length xs
  length-boost_from ls b [] = refl
  length-boost_from ls b (x ∷ xs) = ap suc (length-boost_from ls (suc b) xs)

  length-equalize_from :
      (cfg : Settings F) (n b : ℕ) (xs : List F) → length (equalize_from cfg n b xs) ≡ length xs
  length-equalize_from cfg n b [] = refl
  length-equalize_from cfg n b (x ∷ xs) = ap suc (length-equalize_from cfg n (suc b) xs)

  length-log_boost :
      (frame : AnalysisFrame F) (cfg : Settings F)
      → length (log_boost frame cfg).raw_bands ≡ length frame.raw_bands
  unfolding log_boost
  length-log_boost frame cfg =
      elim (Bool-cases
        (not (is_log cfg.frequency.band_scale) || fl.eq cfg.frequency.log_strength (fl.lit 0 1))) [
          | inl e ↦ rw (e, log_boost) refl
          | inr e ↦ rw (e, log_boost) (length-boost_from _ 0 frame.raw_bands)
        ]

  log_boost_frame :
      (frame : AnalysisFrame F) (cfg : Settings F)
      → record (log_boost frame cfg) { raw_bands = frame.raw_bands } ≡ frame
  unfolding log_boost
  log_boost_frame frame cfg =
      elim (Bool-cases
        (not (is_log cfg.frequency.band_scale) || fl.eq cfg.frequency.log_strength (fl.lit 0 1))) [
          | inl e ↦ rw (e, log_boost) refl
          | inr e ↦ rw (e, log_boost) refl
        ]

  -- The equalizer writes the bands only, as many as there are raw bands.
  equalize_lem :
      (frame : AnalysisFrame F) (cfg : Settings F)
      → (bs : List F) × (equalize frame cfg ≡ record frame { bands = bs })
        × (length bs ≡ length frame.raw_bands)
  unfolding equalize
  equalize_lem frame cfg = elim (Bool-cases (length frame.raw_bands == 0)) [
    | inl e ↦ ([], rw (e, equalize) refl, sym ((==_iff (length frame.raw_bands) 0).0 e))
    | inr e ↦ (
      equalize_from cfg (length frame.raw_bands) 0 frame.raw_bands,
      rw (e, equalize) refl,
      length-equalize_from cfg _ 0 frame.raw_bands,
    )
  ]

  -- Behind the boost and the equalizer there are as many bands as there were raw bands, and as many
  -- raw bands as before; the boost writes the raw bands only, the equalizer the bands only.
  pub equalize-log_boost :
      (frame : AnalysisFrame F) (cfg : Settings F)
      → (length (equalize (log_boost frame cfg) cfg).bands ≡ length frame.raw_bands)
        × (length (equalize (log_boost frame cfg) cfg).raw_bands ≡ length frame.raw_bands)
        × (record (equalize (log_boost frame cfg) cfg) {
          raw_bands = frame.raw_bands;
          bands = frame.bands;
        }
            ≡ frame)
  equalize-log_boost frame cfg =
      let (bs, e, n) = equalize_lem (log_boost frame cfg) cfg in
      let kept = length-log_boost frame cfg in
      rw e (
        n ∙ kept,
        kept,
        ap (λ (f : AnalysisFrame F). record f { bands = frame.bands }) (log_boost_frame frame cfg),
      )
