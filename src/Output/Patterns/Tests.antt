-- ===== src/Output/Patterns/Tests.antt =====
-- A grid of two rows and two columns, and a strip of three LEDs.
use listeningway.Prelude.{
  ℕ, zero, suc, ◌≡◌, refl, inl, false, some, List, [], ◌∷◌, arith, get_elem?, replicate,
}
use listeningway.Prelude.Int.{pos}
use listeningway.Float.{◌⊗◌, lit, zero_f}
use listeningway.Float.Fixed.{Fixed, fixed_float, Fixed-IsOrdered}
use listeningway.Float.Fixed.Rounding.{Fixed-IsTruncating}
use listeningway.Dsp.Frame.{AudioSnapshot}
use listeningway.Config.Settings.{SinglePattern, LinearPattern, MatrixPattern}
use listeningway.Output.Patterns.Common.{
  ColorRgb, PatternState, rgb, black, clamp01, spectrum_ramp, dim, apply_brightness, place,
}
use listeningway.Output.Patterns.Single.{render_single}
use listeningway.Output.Patterns.Linear.{render_linear}
use listeningway.Output.Patterns.Linear.Fill.{render_linear-fresh}
use listeningway.Output.Patterns.Grid.{MatrixGeometry, cell_to_led}
use listeningway.Output.Patterns.Matrix.{sample_cell, render_matrix}
use listeningway.Output.Patterns.Matrix.Waterfall.{after}
use listeningway.Output.Patterns.Matrix.Cells.{waterfall_led}
use listeningway.Output.Patterns.Unlit.{IsDark, brightness-off}

abbrev pub half_f : Fixed
half_f = some (pos 500_000)

-- A snapshot with two bands.
abbrev pub snap : Fixed → AudioSnapshot Fixed
snap v = record {
  volume = v;
  volume_left = v;
  volume_right = v;
  volume_norm = v;
  volume_att = v;
  freq_bands = v ∷ half_f ∷ [];
  freq_bands_raw = v ∷ half_f ∷ [];
  freq_band_count = 2;
  freq_bands_16 = [];
  freq_bands_32 = [];
  bass_norm = v;
  mid_norm = v;
  treb_norm = v;
  bass_att = v;
  mid_att = v;
  treb_att = v;
  spectral_centroid = half_f;
  loudness = v;
  beat = v;
  beat_phase = zero_f;
  tempo_bpm = zero_f;
  tempo_confidence = zero_f;
  tempo_detected = false;
  beat_pulse_strength = zero_f;
  beat_auto_locked = false;
  phase_volume = half_f;
  phase_bass = zero_f;
  phase_treble = zero_f;
  audio_pan = zero_f;
  audio_format = zero_f;
  direction_8 = [];
  volume_history = [];
  volume_history_head = 0;
  freq_bands_history = [];
  freq_bands_history_head = 0;
  stage_timings = [];
  stage_count = 0;
  pipeline_micros = zero_f;
  frame_index = 0;
  captured_at = 0;
}

abbrev state : PatternState Fixed
state = record {
  vu_peak_pos = zero_f;
  vu_peak_decay_seconds = zero_f;
  waterfall_rows = [];
  waterfall_head = 0;
  idle_colour = black;
}

abbrev grid : MatrixGeometry
grid = record { width = 2; height = 2; values = [] }

abbrev leds : List ColorRgb
leds = rgb 1 2 3 ∷ rgb 4 5 6 ∷ rgb 7 8 9 ∷ rgb 10 11 12 ∷ []

-- Cell (1, 0) is the only one of LED 2.
only_cell : (row col : ℕ) → cell_to_led grid row col ≡ some 2 → (row ≡ 1) × (col ≡ 0)
unfolding cell_to_led
only_cell zero zero e = absurd cc
only_cell zero (suc zero) e = absurd cc
only_cell zero (suc (suc col)) e = absurd (ground (arith, e))
only_cell (suc zero) zero e = (refl, refl)
only_cell (suc zero) (suc zero) e = absurd cc
only_cell (suc zero) (suc (suc col)) e = absurd (ground (arith, e))
only_cell (suc (suc row)) col e = absurd (ground (arith, e))

waterfall_led_example :
    get_elem?
      ((render_matrix MatrixPattern.spectrogram_waterfall
        (snap zero_f)
        grid
        leds
        (after grid leds half_f (snap half_f ∷ []) state)
        half_f).0)
      2
    ≡ some (
        apply_brightness
          (dim
            (spectrum_ramp (place {F = Fixed} 0 2))
            (clamp01 (sample_cell (snap half_f) 2 0 ⊗ lit 14 10)))
          half_f)
unfolding cell_to_led
waterfall_led_example =
    waterfall_led grid leds half_f state (snap zero_f) (snap half_f ∷ []) (snap half_f) 1 0 2
      (λ h. absurd (omega (arith, h))) (omega arith) (omega arith) (omega arith) refl only_cell refl

brightness-off_example :
    ((p : SinglePattern) → (render_single p (snap half_f) state zero_f).0 ≡ black)
    × (((p : LinearPattern) (out : List ColorRgb)
          → IsDark ((render_linear p (snap half_f) out state zero_f half_f).0))
        × ((p : MatrixPattern) (geom : MatrixGeometry) (out : List ColorRgb)
            → IsDark out
            → IsDark ((render_matrix p (snap half_f) geom out state zero_f).0)))
brightness-off_example =
    brightness-off Fixed-IsOrdered Fixed-IsTruncating zero_f (inl refl) (snap half_f) state half_f

render_linear-fresh_example :
    render_linear LinearPattern.vu_meter (snap half_f) leds state half_f half_f
    ≡ render_linear LinearPattern.vu_meter (snap half_f) (replicate 4 black) state half_f half_f
render_linear-fresh_example =
    render_linear-fresh LinearPattern.vu_meter (snap half_f) leds (replicate 4 black) state half_f
      half_f refl
