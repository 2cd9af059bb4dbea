-- ===== src/Output/Patterns/Linear.antt =====
-- src/output/openrgb_patterns/linear_patterns.cpp: the colours of a strip of LEDs, in order.
pub mod Fill
use listeningway.Prelude.{
  ℕ, ◌-◌, ◌/◌, min, Bool, false, ◌&&◌, List, [], ◌∷◌, ltb, ◌==◌, if◌then◌else◌, length, set,
  for_range,
}
use listeningway.Prelude.Int.{ℤ, pos, negsuc}
use listeningway.Float.{Float, ◌⊕◌, ◌⊖◌, ◌⊗◌, ◌⊘◌, ◌≺◌, lit, zero_f, one_f, max_f}
use listeningway.Dsp.Frame.{AudioSnapshot, max_bands}
use listeningway.Config.Settings.{LinearPattern}
use listeningway.Output.Patterns.Common.{
  ColorRgb, PatternState, rgb, black, lerp, clamp01, hsv_to_rgb, spectrum_ramp, centroid_to_hue,
  dim, apply_brightness, noise_gate, compress_volume, band_between, place,
}

-- `for (i = 0; i < out.size(); ++i) out[i] = f(i);`, in place.
abbrev pub each_led : List ColorRgb → (ℕ → ColorRgb) → List ColorRgb
each_led out f = for_range 0 (length out) (λ i leds. set leds i (f i)) out

-- `std::fill`.
abbrev pub fill : List ColorRgb → ColorRgb → List ColorRgb
fill out c = each_led out (λ i. c)

abbrev pub render_off : List ColorRgb → List ColorRgb
render_off out = fill out black

abbrev is_index : ℤ → ℕ → ℕ → Bool
is_index (pos k) i n = (i == k) && ltb k n
is_index (negsuc k) i n = false

module _ {F : Type 0} ⦃fl : Float F⦄ where
  abbrev pub sample_band : AudioSnapshot F → F → F
  sample_band snap t =
      let nb = min snap.freq_band_count max_bands in
      if nb == 0 then zero_f else band_between snap.freq_bands nb (clamp01 t ⊗ fl.of_nat (nb - 1))

  abbrev pub render_static : List ColorRgb → F → List ColorRgb
  render_static out brightness =
      fill out
        (apply_brightness (hsv_to_rgb {F = F} (lit 50 100) (lit 85 100) (lit 45 100)) brightness)

  abbrev pub render_color_wash : AudioSnapshot F → List ColorRgb → F → List ColorRgb
  render_color_wash snap out brightness =
      let vol = noise_gate (compress_volume snap.volume_att) (lit 2 100) (lit 5 100) in
      let h = centroid_to_hue snap.spectral_centroid in
      fill out (apply_brightness (hsv_to_rgb h one_f (lerp (lit 10 100) one_f vol)) brightness)

  -- The LED `i` of `n`, of each pattern that writes them one by one.
  abbrev pub spectrum_led : AudioSnapshot F → F → ℕ → ℕ → ColorRgb
  spectrum_led snap brightness n i =
      let vol = clamp01 (snap.volume_norm ⊗ lit 5 10) in
      let beat = clamp01 snap.beat in
      let t = place i n in
      let intensity = clamp01 (sample_band snap t ⊗ lit 15 10 ⊕ vol ⊗ lit 3 10 ⊕ beat ⊗ lit 4 10) in
      apply_brightness (dim (spectrum_ramp t) intensity) brightness

  abbrev pub render_spectrum_bar : AudioSnapshot F → List ColorRgb → F → List ColorRgb
  render_spectrum_bar snap out brightness = each_led out (spectrum_led snap brightness (length out))

  -- The peak that is held for 0.6 s and then decays.
  abbrev pub hold_peak : F → F → PatternState F → PatternState F
  hold_peak v dt_sec state =
      if state.vu_peak_pos ≺ v
      then record state { vu_peak_pos = v; vu_peak_decay_seconds = lit 6 10 }
      else if zero_f ≺ state.vu_peak_decay_seconds
      then record state {
        vu_peak_decay_seconds = max_f zero_f (state.vu_peak_decay_seconds ⊖ dt_sec);
      }
      else record state { vu_peak_pos = max_f v (state.vu_peak_pos ⊖ dt_sec ⊗ lit 6 10) }

  -- Green, then yellow, then red, as far as the level reaches.
  abbrev pub vu_fill : F → ℕ → ℕ → ColorRgb
  vu_fill fill_n n i =
      let t = place {F = F} i n in
      let h =
        if t ≺ lit 60 100 then lit 33 100 else if t ≺ lit 85 100 then lit 16 100 else zero_f in
      if fl.of_nat i ≺ fill_n then hsv_to_rgb {F = F} h one_f one_f else black

  abbrev pub vu_led : F → F → F → ℕ → ℕ → ColorRgb
  vu_led v peak_pos brightness n i =
      let fill_n = v ⊗ fl.of_nat n in
      let peak_n = peak_pos ⊗ fl.of_nat n in
      let is_peak = is_index (fl.to_int (fl.round (peak_n ⊖ lit 5 10))) i n in
      apply_brightness (if is_peak then rgb 255 255 255 else vu_fill fill_n n i) brightness

  -- The level that the meter fills to.
  abbrev pub vu_level : AudioSnapshot F → F
  vu_level snap = noise_gate (clamp01 (snap.volume_norm ⊗ lit 40 100)) (lit 2 100) (lit 4 100)

  abbrev pub render_vu_meter :
      AudioSnapshot F → List ColorRgb → PatternState F → F → F → List ColorRgb × PatternState F
  render_vu_meter snap [] state brightness dt_sec = ([], state)
  render_vu_meter snap (c ∷ out) state brightness dt_sec =
      let n = length (c ∷ out) in
      let v = vu_level snap in
      let st = hold_peak v dt_sec state in
      (each_led (c ∷ out) (vu_led v st.vu_peak_pos brightness n), st)

  abbrev pub chase_led : AudioSnapshot F → F → ℕ → ℕ → ColorRgb
  chase_led snap brightness n i =
      let phase = snap.phase_volume ⊖ fl.floor snap.phase_volume in
      let head_pos = phase ⊗ fl.of_nat n in
      let d0 = head_pos ⊖ fl.of_nat i in
      let d = if d0 ≺ zero_f then d0 ⊕ fl.of_nat n else d0 in
      let falloff = clamp01 (one_f ⊖ d ⊘ lit 4 1) in
      if lit 4 1 ≺ d
      then black
      else apply_brightness (hsv_to_rgb {F = F} (lit 55 100) (lit 85 100) falloff) brightness

  abbrev pub render_chase_orbit : AudioSnapshot F → List ColorRgb → F → List ColorRgb
  render_chase_orbit snap out brightness = each_led out (chase_led snap brightness (length out))

  abbrev pub pulse_led : AudioSnapshot F → F → ℕ → ℕ → ColorRgb
  pulse_led snap brightness n i =
      let pulse = clamp01 (snap.bass_norm ⊗ lit 5 10 ⊕ snap.beat ⊗ lit 6 10) in
      let center = fl.of_nat (n - 1) ⊗ lit 5 10 in
      let radius = pulse ⊗ fl.of_nat n ⊗ lit 5 10 in
      let d = fl.abs (fl.of_nat i ⊖ center) in
      let intensity = clamp01 (one_f ⊖ d ⊘ max_f radius (lit 5 10)) in
      apply_brightness (hsv_to_rgb {F = F} (lit 5 100) (lit 85 100) intensity) brightness

  abbrev pub render_pulse_from_center : AudioSnapshot F → List ColorRgb → F → List ColorRgb
  render_pulse_from_center snap out brightness =
      each_led out (pulse_led snap brightness (length out))

  abbrev pub split_led : AudioSnapshot F → F → ℕ → ℕ → ColorRgb
  split_led snap brightness n i =
      let left = noise_gate (clamp01 (snap.volume_left ⊗ lit 15 10)) (lit 2 100) (lit 4 100) in
      let right = noise_gate (clamp01 (snap.volume_right ⊗ lit 15 10)) (lit 2 100) (lit 4 100) in
      let is_left = ltb i (n / 2) in
      let v = if is_left then left else right in
      let h = if is_left then lit 50 100 else lit 85 100 in
      apply_brightness (hsv_to_rgb {F = F} h (lit 85 100) (lerp (lit 5 100) one_f v)) brightness

  abbrev pub render_stereo_split : AudioSnapshot F → List ColorRgb → F → List ColorRgb
  render_stereo_split snap out brightness = each_led out (split_led snap brightness (length out))

  abbrev pub render_linear :
      LinearPattern
      → AudioSnapshot F
      → List ColorRgb
      → PatternState F
      → F
      → F
      → List ColorRgb × PatternState F
  render_linear LinearPattern.spectrum_bar snap out state brightness dt_sec =
      (render_spectrum_bar snap out brightness, state)
  render_linear LinearPattern.vu_meter snap out state brightness dt_sec =
      render_vu_meter snap out state brightness dt_sec
  render_linear LinearPattern.chase_orbit snap out state brightness dt_sec =
      (render_chase_orbit snap out brightness, state)
  render_linear LinearPattern.pulse_from_center snap out state brightness dt_sec =
      (render_pulse_from_center snap out brightness, state)
  render_linear LinearPattern.stereo_split snap out state brightness dt_sec =
      (render_stereo_split snap out brightness, state)
  render_linear LinearPattern.color_wash snap out state brightness dt_sec =
      (render_color_wash snap out brightness, state)
  render_linear LinearPattern.static snap out state brightness dt_sec =
      (render_static out brightness, state)
  render_linear LinearPattern.off snap out state brightness dt_sec = (render_off out, state)
