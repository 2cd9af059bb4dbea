-- ===== src/Dsp/Stages/Equalizer.antt =====
-- src/audio/dsp/stages/log_boost_stage.h and equalizer_stage.h: the two gains between the raw bands
-- and the bands.
pub mod Shapes
use listeningway.Prelude.{
  ℕ, suc, ◌+◌, ◌-◌, Bool, true, false, not, ◌||◌, List, [], ◌∷◌, ltb, ◌==◌, if◌then◌else◌, length,
}
use listeningway.Float.{Float, ◌⊕◌, ◌⊖◌, ◌⊗◌, ◌⊘◌, lit, zero_f, one_f, max_f}
use listeningway.Config.Settings.{Settings, BandScale}
use listeningway.Dsp.Frame.{AnalysisFrame}

pub is_log : BandScale → Bool
is_log BandScale.log = true
is_log _ = false

module _ {F : Type 0} ⦃fl : Float F⦄ where
  -- The boost of band `b` and those after it.
  abbrev pub boost_from : F → ℕ → List F → List F
  boost_from ls b [] = []
  boost_from ls b (x ∷ xs) = x ⊗ fl.exp (fl.of_nat (b + 1) ⊗ ls) ∷ boost_from ls (suc b) xs

  pub log_boost : AnalysisFrame F → Settings F → AnalysisFrame F
  log_boost frame cfg =
      if not (is_log cfg.frequency.band_scale) || fl.eq cfg.frequency.log_strength zero_f
      then frame
      else record frame {
        raw_bands = boost_from (cfg.frequency.log_strength ⊘ lit 3 1) 0 frame.raw_bands;
      }

  abbrev pub centers : List F
  centers = zero_f ∷ lit 25 100 ∷ lit 5 10 ∷ lit 75 100 ∷ one_f ∷ []

  -- The weighted sum of the user's gains, and the sum of the weights.
  abbrev pub weigh_gains : F → F → List F → List F → F × F → F × F
  weigh_gains width pos [] gains a = a
  weigh_gains width pos (c ∷ cs) [] a = a
  weigh_gains width pos (c ∷ cs) (g ∷ gains) a =
      let d = pos ⊖ c in
      let w = fl.exp (fl.neg (d ⊗ d) ⊘ (lit 2 1 ⊗ width ⊗ width)) in
      weigh_gains width pos cs gains (a.0 ⊕ w ⊗ g, a.1 ⊕ w)

  -- The multiplier of band `b` of `n`.
  abbrev pub multiplier : Settings F → ℕ → ℕ → F
  multiplier cfg n b =
      let width = max_f (lit 1 1000) cfg.frequency.equalizer_width in
      let pos = if ltb 1 n then fl.of_nat b ⊘ fl.of_nat (n - 1) else zero_f in
      let sums = weigh_gains width pos centers cfg.frequency.equalizer_bands (zero_f, zero_f) in
      if fl.lt zero_f sums.1 then sums.0 ⊘ sums.1 else one_f

  abbrev pub equalize_from : Settings F → ℕ → ℕ → List F → List F
  equalize_from cfg n b [] = []
  equalize_from cfg n b (x ∷ xs) = x ⊗ multiplier cfg n b ∷ equalize_from cfg n (suc b) xs

  -- Without raw bands the bands are cleared, which the loop over none does too.
  pub equalize : AnalysisFrame F → Settings F → AnalysisFrame F
  equalize frame cfg =
      if length frame.raw_bands == 0
      then record frame { bands = [] }
      else record frame { bands = equalize_from cfg (length frame.raw_bands) 0 frame.raw_bands }
