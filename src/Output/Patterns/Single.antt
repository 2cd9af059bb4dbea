-- ===== src/Output/Patterns/Single.antt =====
-- src/output/openrgb_patterns/single_patterns.cpp: the one colour of a single-LED zone.
use listeningway.Float.{Float, ◌⊖◌, lit, one_f}
use listeningway.Dsp.Frame.{AudioSnapshot}
use listeningway.Config.Settings.{SinglePattern}
use listeningway.Output.Patterns.Common.{
  ColorRgb, PatternState, black, lerp, clamp01, hsv_to_rgb, centroid_to_hue, apply_brightness,
  noise_gate, compress_volume,
}

module _ {F : Type 0} ⦃fl : Float F⦄ where
  -- The colour before the brightness, for a pattern that is not off.
  abbrev pub single_colour : SinglePattern → AudioSnapshot F → ColorRgb
  single_colour SinglePattern.off snap = black
  single_colour SinglePattern.static snap =
      hsv_to_rgb {F = F} (lit 50 100) (lit 85 100) (lit 60 100)
  single_colour SinglePattern.spectral_hue snap =
      let vol = noise_gate (compress_volume snap.volume_att) (lit 2 100) (lit 5 100) in
      hsv_to_rgb (centroid_to_hue snap.spectral_centroid) one_f (lerp (lit 5 100) one_f vol)
  single_colour SinglePattern.chronotensity_cycle snap =
      let h = snap.phase_volume ⊖ fl.floor snap.phase_volume in
      let vol = compress_volume snap.volume_att in
      hsv_to_rgb h (lit 85 100) (lerp (lit 30 100) one_f (clamp01 vol))
  single_colour SinglePattern.volume_pulse snap =
      let vol = noise_gate (compress_volume snap.volume_att) (lit 2 100) (lit 5 100) in
      hsv_to_rgb {F = F} (lit 50 100) (lit 85 100) (lerp (lit 5 100) one_f vol)
  single_colour SinglePattern.beat_flash snap =
      hsv_to_rgb {F = F} (lit 50 100) (lit 85 100)
        (lerp (lit 20 100) (lit 100 100) (clamp01 snap.beat))

  abbrev pub show_single : ColorRgb → PatternState F → F → ColorRgb × PatternState F
  show_single c state brightness = (apply_brightness c brightness, record state { idle_colour = c })

  abbrev pub render_single :
      SinglePattern → AudioSnapshot F → PatternState F → F → ColorRgb × PatternState F
  render_single SinglePattern.off snap state brightness = (black, state)
  render_single SinglePattern.static snap state brightness =
      show_single (single_colour SinglePattern.static snap) state brightness
  render_single SinglePattern.spectral_hue snap state brightness =
      show_single (single_colour SinglePattern.spectral_hue snap) state brightness
  render_single SinglePattern.chronotensity_cycle snap state brightness =
      show_single (single_colour SinglePattern.chronotensity_cycle snap) state brightness
  render_single SinglePattern.volume_pulse snap state brightness =
      show_single (single_colour SinglePattern.volume_pulse snap) state brightness
  render_single SinglePattern.beat_flash snap state brightness =
      show_single (single_colour SinglePattern.beat_flash snap) state brightness
