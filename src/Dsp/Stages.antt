-- ===== src/Dsp/Stages.antt =====
-- src/audio/dsp/stages: the stages of the pipeline, with what they share.
pub mod Volume
pub mod BandNorm
pub mod Pan
pub mod Directional
pub mod Centroid
pub mod Flux
pub mod Equalizer
pub mod Beat
pub mod Chronotensity
pub mod Fft
pub mod Bands
pub mod Loudness
pub mod Composition
pub mod Tests
use listeningway.Prelude.{ℕ, ◌-◌, ltb, ◌==◌, if◌then◌else◌}
use listeningway.Float.{Float, ◌⊕◌, ◌⊖◌, ◌⊗◌, ◌⊘◌, lit, zero_f, one_f, max_f, clamp_f}
use listeningway.Config.Settings.{AgcConfig}

module _ {F : Type 0} ⦃fl : Float F⦄ where
  -- `duration<float>(now - last).count()`, of nanoseconds in seconds.
  abbrev pub seconds : ℕ → ℕ → F
  seconds now last =
      let ns = if ltb now last then fl.neg (fl.of_nat (last - now)) else fl.of_nat (now - last) in
      ns ⊘ lit 1_000_000_000 1

  -- The time since the last frame; a sixtieth of a second on the first, whose `last_t` is zero.
  abbrev pub delta : ℕ → ℕ → F
  delta now last = if last == 0 then one_f ⊘ lit 60 1 else seconds now last

  -- `(1 - alpha) * slow + alpha * fast`.
  abbrev pub blend : F → F → F → F
  blend alpha slow fast = (one_f ⊖ alpha) ⊗ slow ⊕ alpha ⊗ fast

  -- The running mean of the AGC, first set from the value itself.
  abbrev pub mean_start : F → F → F
  mean_start mean value = if fl.le mean zero_f then max_f value (lit 1 10_000) else mean

  abbrev pub mean_step : AgcConfig F → F → F → F → F
  mean_step agc dt mean value =
      let window = max_f (lit 1 10) agc.window_seconds in
      let alpha = clamp_f (dt ⊘ window) zero_f one_f in
      blend alpha (mean_start mean value) (max_f value (lit 1 1_000_000))

  -- The smoothed sibling, with its own times for rising and falling.
  abbrev pub att_step : AgcConfig F → F → F → F → F
  att_step agc dt att target =
      let ms = if fl.lt att target then agc.att_attack_ms else agc.att_release_ms in
      let alpha = clamp_f (dt ⊘ max_f (lit 1 1000) (ms ⊗ lit 1 1000)) zero_f one_f in
      blend alpha att target
