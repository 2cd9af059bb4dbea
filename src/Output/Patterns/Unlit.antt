-- ===== src/Output/Patterns/Unlit.antt =====
-- src/output/openrgb_patterns: what the three kinds of pattern show at no brightness.
use listeningway.Prelude.{
  ℕ, min, ◌≡◌, refl, ◌⊎◌, inl, inr, Bool, true, false, Option, none, some, List, [], ◌∷◌, leb, ◌==◌,
  if◌then◌else◌, Bool-cases, length, All, All-set, All-tabulate, for_range-Keeps,
}
use listeningway.Float.{Float, IsOrdered, ◌≺◌, ◌⊗◌, zero_f}
use listeningway.Dsp.Frame.{AudioSnapshot, max_bands}
use listeningway.Config.Settings.{SinglePattern, LinearPattern, MatrixPattern}
use listeningway.Output.Patterns.Common.{
  ColorRgb, PatternState, IsBytes, black, rgb, hsv_to_rgb, apply_brightness,
}
use listeningway.Output.Patterns.Darkness.{
  IsTruncating, hsv_to_rgb-IsBytes, dim-IsBytes, apply_brightness-off,
}
use listeningway.Output.Patterns.Single.{render_single}
use listeningway.Output.Patterns.Linear.{
  each_led, hold_peak, vu_level, vu_led, spectrum_led, chase_led, pulse_led, split_led,
  render_linear,
}
use listeningway.Output.Patterns.Linear.Fill.{each_led_lem}
use listeningway.Output.Patterns.Grid.{
  MatrixGeometry, cell_to_led, set_pixel, is_empty, clear_all, show, by_rows, by_columns,
}
use listeningway.Output.Patterns.Matrix.{
  spatial_colour, column_colour, region_colour, waterfall_colour, latest, render_matrix,
}
use listeningway.Output.Patterns.Bytes.{
  AreBytes, if-IsBytes, white-IsBytes, vu_fill-IsBytes, spatial_colour-AreBytes,
  column_colour-AreBytes, region_colour-AreBytes,
}

-- Every LED is off.
abbrev pub IsDark : List ColorRgb → Type 0
IsDark out = All (λ c. c ≡ black) out

each_led-IsDark :
    (out : List ColorRgb) (f : ℕ → ColorRgb) → ((i : ℕ) → f i ≡ black) → IsDark (each_led out f)
each_led-IsDark out f e = rw (each_led_lem out f) (All-tabulate (λ c. c ≡ black) f 0 (length out) e)

set_pixel-IsDark :
    (out : List ColorRgb) (led : ℕ) (c : ColorRgb)
    → IsDark out
    → c ≡ black
    → IsDark (set_pixel out led c)
set_pixel-IsDark out led c d e = elim (Bool-cases (leb (length out) led)) [
  | inl f ↦ rw f d
  | inr f ↦ rw f (All-set (λ x. x ≡ black) out led c d e)
]

if-black : (t : Bool) (c : ColorRgb) → c ≡ black → (if t then black else c) ≡ black
if-black true c e = refl
if-black false c e = e

module _ {F : Type 0} ⦃fl : Float F⦄ (laws : IsOrdered F) (cast : IsTruncating F) (b : F)
    (off : (b ≡ zero_f) ⊎ ((b ≺ zero_f) ≡ true)) where
  unlit : (c : ColorRgb) → IsBytes c → apply_brightness c b ≡ black
  unlit = apply_brightness-off laws cast b off

  hsv_unlit : (h s v : F) → apply_brightness (hsv_to_rgb h s v) b ≡ black
  hsv_unlit h s v = unlit (hsv_to_rgb h s v) (hsv_to_rgb-IsBytes h s v)

  show-IsDark :
      (cell : Option ℕ) (c : Option ColorRgb) (out : List ColorRgb)
      → AreBytes c
      → IsDark out
      → IsDark (show cell c b out)
  show-IsDark cell none out p d = d
  show-IsDark none (some c) out p d = d
  show-IsDark (some led) (some c) out p d =
      set_pixel-IsDark out led (apply_brightness c b) d (unlit c p)

  by_rows-IsDark :
      (geom : MatrixGeometry) (colour : ℕ → ℕ → Option ColorRgb) (out : List ColorRgb)
      → ((row col : ℕ) → AreBytes (colour row col))
      → IsDark out
      → IsDark (by_rows geom colour b out)
  by_rows-IsDark geom colour out p d =
      for_range-Keeps IsDark _ 0 geom.height out
        (λ row t e.
          for_range-Keeps IsDark _ 0 geom.width t
            (λ col u f. show-IsDark (cell_to_led geom row col) (colour row col) u (p row col) f) e)
        d

  by_columns-IsDark :
      (geom : MatrixGeometry) (colour : ℕ → ℕ → Option ColorRgb) (out : List ColorRgb)
      → ((row col : ℕ) → AreBytes (colour row col))
      → IsDark out
      → IsDark (by_columns geom colour b out)
  by_columns-IsDark geom colour out p d =
      for_range-Keeps IsDark _ 0 geom.width out
        (λ col t e.
          for_range-Keeps IsDark _ 0 geom.height t
            (λ row u f. show-IsDark (cell_to_led geom row col) (colour row col) u (p row col) f) e)
        d

  render_single-off :
      (p : SinglePattern) (snap : AudioSnapshot F) (st : PatternState F)
      → (render_single p snap st b).0 ≡ black
  render_single-off SinglePattern.off snap st = refl
  render_single-off SinglePattern.static snap st = hsv_unlit _ _ _
  render_single-off SinglePattern.spectral_hue snap st = hsv_unlit _ _ _
  render_single-off SinglePattern.chronotensity_cycle snap st = hsv_unlit _ _ _
  render_single-off SinglePattern.volume_pulse snap st = hsv_unlit _ _ _
  render_single-off SinglePattern.beat_flash snap st = hsv_unlit _ _ _

  vu_led-off : (v peak : F) (n i : ℕ) → vu_led v peak b n i ≡ black
  vu_led-off v peak n i =
      unlit _
        (if-IsBytes _ (rgb 255 255 255) _ white-IsBytes (vu_fill-IsBytes (v ⊗ fl.of_nat n) n i))

  chase_led-off : (snap : AudioSnapshot F) (n i : ℕ) → chase_led snap b n i ≡ black
  chase_led-off snap n i = if-black _ _ (hsv_unlit _ _ _)

  render_linear-off :
      (p : LinearPattern) (snap : AudioSnapshot F) (out : List ColorRgb) (st : PatternState F)
      (dt : F)
      → IsDark ((render_linear p snap out st b dt).0)
  render_linear-off LinearPattern.spectrum_bar snap out st dt =
      each_led-IsDark out (spectrum_led snap b (length out)) (λ i. unlit _ (dim-IsBytes _ _))
  render_linear-off LinearPattern.vu_meter snap [] st dt = tt
  render_linear-off LinearPattern.vu_meter snap (c ∷ out) st dt =
      each_led-IsDark (c ∷ out) _ (
        vu_led-off (vu_level snap) (hold_peak (vu_level snap) dt st).vu_peak_pos (length (c ∷ out)))
  render_linear-off LinearPattern.chase_orbit snap out st dt =
      each_led-IsDark out (chase_led snap b (length out)) (chase_led-off snap (length out))
  render_linear-off LinearPattern.pulse_from_center snap out st dt =
      each_led-IsDark out (pulse_led snap b (length out)) (λ i. hsv_unlit _ _ _)
  render_linear-off LinearPattern.stereo_split snap out st dt =
      each_led-IsDark out (split_led snap b (length out)) (λ i. hsv_unlit _ _ _)
  render_linear-off LinearPattern.color_wash snap out st dt =
      each_led-IsDark out _ (λ i. hsv_unlit _ _ _)
  render_linear-off LinearPattern.static snap out st dt =
      each_led-IsDark out _ (λ i. hsv_unlit _ _ _)
  render_linear-off LinearPattern.off snap out st dt = each_led-IsDark out _ (λ i. refl)

  clear_all-IsDark : (out : List ColorRgb) → IsDark (clear_all out)
  clear_all-IsDark out = each_led-IsDark out _ (λ i. refl)

  -- The grid's loops, on a grid that may be empty.
  grid-IsDark :
      (geom : MatrixGeometry) (out painted : List ColorRgb)
      → IsDark painted
      → IsDark (if is_empty geom then clear_all out else painted)
  grid-IsDark geom out painted d = elim (Bool-cases (is_empty geom)) [
    | inl e ↦ rw e (clear_all-IsDark out)
    | inr e ↦ rw e d
  ]

  render_matrix-off :
      (p : MatrixPattern) (snap : AudioSnapshot F) (geom : MatrixGeometry) (out : List ColorRgb)
      (st : PatternState F)
      → IsDark out
      → IsDark ((render_matrix p snap geom out st b).0)
  render_matrix-off MatrixPattern.spatial_map snap geom out st d = grid-IsDark geom out _ (
      by_rows-IsDark geom (spatial_colour snap geom) (clear_all out)
        (spatial_colour-AreBytes snap geom) (clear_all-IsDark out))
  render_matrix-off MatrixPattern.equalizer_columns snap geom out st d =
      grid-IsDark geom out _ (elim (Bool-cases (min snap.freq_band_count max_bands == 0)) [
        | inl e ↦ rw e (clear_all-IsDark out)
        | inr e ↦ rw e (
            by_columns-IsDark geom (column_colour snap (min snap.freq_band_count max_bands) geom)
              (clear_all out)
              (column_colour-AreBytes snap (min snap.freq_band_count max_bands) geom)
              (clear_all-IsDark out))
      ])
  render_matrix-off MatrixPattern.per_region snap geom out st d =
      grid-IsDark geom out _
        (by_rows-IsDark geom (region_colour snap geom) out (region_colour-AreBytes snap geom) d)
  render_matrix-off MatrixPattern.spectrogram_waterfall snap geom out st d =
      elim (Bool-cases (is_empty geom)) [
        | inl e ↦ rw e (clear_all-IsDark out)
        | inr e ↦ rw e (
            by_rows-IsDark geom (waterfall_colour (latest snap geom st) geom) out
              (λ row col. dim-IsBytes _ _) d)
      ]
  render_matrix-off MatrixPattern.beat_flash snap geom out st d =
      each_led-IsDark out _ (λ i. hsv_unlit _ _ _)
  render_matrix-off MatrixPattern.color_wash snap geom out st d =
      each_led-IsDark out _ (λ i. hsv_unlit _ _ _)
  render_matrix-off MatrixPattern.static snap geom out st d =
      each_led-IsDark out _ (λ i. hsv_unlit _ _ _)
  render_matrix-off MatrixPattern.off snap geom out st d = clear_all-IsDark out

  -- With a brightness of zero or below: every single-LED pattern gives black, every linear pattern
  -- turns the whole strip off, and every matrix pattern leaves no LED of a dark grid on.
  pub brightness-off :
      (snap : AudioSnapshot F) (st : PatternState F) (dt : F)
      → ((p : SinglePattern) → (render_single p snap st b).0 ≡ black)
        × (((p : LinearPattern) (out : List ColorRgb)
              → IsDark ((render_linear p snap out st b dt).0))
            × ((p : MatrixPattern) (geom : MatrixGeometry) (out : List ColorRgb)
                → IsDark out
                → IsDark ((render_matrix p snap geom out st b).0)))
  brightness-off snap st dt = (
    (λ p. render_single-off p snap st),
    (
      (λ p out. render_linear-off p snap out st dt),
      (λ p geom out d. render_matrix-off p snap geom out st d),
    ),
  )
