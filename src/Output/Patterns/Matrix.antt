-- ===== src/Output/Patterns/Matrix.antt =====
-- src/output/openrgb_patterns/matrix_patterns.cpp: the colours of a grid of LEDs.
pub mod Slots
pub mod Waterfall
pub mod Cells
use listeningway.Prelude.{
  for_range, ℕ, ◌+◌, ◌-◌, ◌%◌, min, not, Option, none, some, List, [], ◌∷◌, ◌==◌, if◌then◌else◌,
  length, get_or, set, replicate, tabulate,
}
use listeningway.Float.{Float, ◌⊕◌, ◌⊖◌, ◌⊗◌, ◌⊘◌, ◌≺◌, ◌≼◌, lit, zero_f, one_f, min_f, max_f}
use listeningway.Dsp.Frame.{AudioSnapshot, max_bands}
use listeningway.Config.Settings.{MatrixPattern}
use listeningway.Output.Patterns.Common.{
  ColorRgb, PatternState, rgb, black, lerp, clamp01, cast_byte, hsv_to_rgb, spectrum_ramp,
  centroid_to_hue, dim, apply_brightness, noise_gate, compress_volume, band_between, place,
}
use listeningway.Output.Patterns.Linear.{fill}
use listeningway.Output.Patterns.Grid.{
  MatrixGeometry, cell_to_led, clear_all, is_empty, by_rows, by_columns,
}

abbrev pub render_off : List ColorRgb → List ColorRgb
render_off out = clear_all out

-- `uint8_t(std::min(255, a + b))` of each channel.
abbrev pub add_flash : ColorRgb → ColorRgb → ColorRgb
add_flash c flash =
    rgb (min 255 (c.r + flash.r)) (min 255 (c.g + flash.g)) (min 255 (c.b + flash.b))

module _ {F : Type 0} ⦃fl : Float F⦄ where
  abbrev pub render_static : List ColorRgb → F → List ColorRgb
  render_static out brightness =
      fill out
        (apply_brightness (hsv_to_rgb {F = F} (lit 50 100) (lit 85 100) (lit 40 100)) brightness)

  abbrev pub render_color_wash : AudioSnapshot F → List ColorRgb → F → List ColorRgb
  render_color_wash snap out brightness =
      let vol = noise_gate (compress_volume snap.volume_att) (lit 2 100) (lit 5 100) in
      let h = centroid_to_hue snap.spectral_centroid in
      fill out (apply_brightness (hsv_to_rgb h one_f (lerp (lit 10 100) one_f vol)) brightness)

  abbrev pub render_beat_flash : AudioSnapshot F → List ColorRgb → F → List ColorRgb
  render_beat_flash snap out brightness =
      let v = lerp (lit 10 100) one_f (clamp01 snap.beat) in
      fill out (apply_brightness (hsv_to_rgb (lit 50 100) (lit 85 100) v) brightness)

  -- The places of the eight directions, front first and clockwise.
  abbrev anchors : List (F × F)
  anchors =
      (lit 50 100, zero_f)
      ∷ (one_f, zero_f)
      ∷ (one_f, lit 50 100)
      ∷ (one_f, one_f)
      ∷ (lit 50 100, one_f)
      ∷ (zero_f, one_f)
      ∷ (zero_f, lit 50 100)
      ∷ (zero_f, zero_f)
      ∷ []

  -- Red, green, blue and weight, summed over the directions.
  abbrev add_direction : List F → F → F → ℕ → F × (F × (F × F)) → F × (F × (F × F))
  add_direction direction_8 nx ny i (r_acc, (g_acc, (b_acc, w_acc))) =
      let anchor = get_or anchors i (zero_f, zero_f) in
      let dx = nx ⊖ anchor.0 in
      let dy = ny ⊖ anchor.1 in
      let dist = fl.sqrt (dx ⊗ dx ⊕ dy ⊗ dy) in
      let w = fl.exp (fl.neg dist ⊗ lit 4 1) in
      let v = clamp01 (get_or direction_8 i zero_f) in
      let c = hsv_to_rgb (fl.of_nat i ⊘ lit 8 1) (lit 85 100) v in
      (
        r_acc ⊕ fl.of_nat c.r ⊗ w,
        (g_acc ⊕ fl.of_nat c.g ⊗ w, (b_acc ⊕ fl.of_nat c.b ⊗ w, w_acc ⊕ w)),
      )

  abbrev pub mean_colour : F × (F × (F × F)) → Option ColorRgb
  mean_colour (r_acc, (g_acc, (b_acc, w_acc))) =
      if zero_f ≺ w_acc
      then some (
          rgb (cast_byte (min_f (lit 255 1) (r_acc ⊘ w_acc)))
            (cast_byte (min_f (lit 255 1) (g_acc ⊘ w_acc)))
            (cast_byte (min_f (lit 255 1) (b_acc ⊘ w_acc))))
      else none

  abbrev pub spatial_colour : AudioSnapshot F → MatrixGeometry → ℕ → ℕ → Option ColorRgb
  spatial_colour snap geom row col =
      let ny = place row geom.height in
      let nx = place col geom.width in
      mean_colour
        (for_range 0 8 (add_direction snap.direction_8 nx ny) (zero_f, (zero_f, (zero_f, zero_f))))

  abbrev pub render_spatial_map :
      AudioSnapshot F → MatrixGeometry → List ColorRgb → F → List ColorRgb
  render_spatial_map snap geom out brightness =
      if is_empty geom
      then clear_all out
      else by_rows geom (spatial_colour snap geom) brightness (clear_all out)

  -- Bars that grow from the bottom row, the top of each a little brighter.
  abbrev pub column_colour : AudioSnapshot F → ℕ → MatrixGeometry → ℕ → ℕ → Option ColorRgb
  column_colour snap nb geom row col =
      let t = place col geom.width in
      let band = clamp01 (band_between snap.freq_bands nb (t ⊗ fl.of_nat (nb - 1))) in
      let bar_height = band ⊗ fl.of_nat geom.height in
      let inv_row = geom.height - 1 - row in
      let intensity = one_f ⊖ lit 4 10 ⊗ (fl.of_nat inv_row ⊘ max_f bar_height one_f) in
      if bar_height ≼ fl.of_nat inv_row then none else some (dim (spectrum_ramp t) intensity)

  abbrev pub render_equalizer_columns :
      AudioSnapshot F → MatrixGeometry → List ColorRgb → F → List ColorRgb
  render_equalizer_columns snap geom out brightness =
      let nb = min snap.freq_band_count max_bands in
      if is_empty geom
      then clear_all out
      else if nb == 0
      then clear_all out
      else by_columns geom (column_colour snap nb geom) brightness (clear_all out)

  -- Treble at the top, bass at the bottom, and the beat's flash on the last row.
  abbrev pub region_colour : AudioSnapshot F → MatrixGeometry → ℕ → ℕ → Option ColorRgb
  region_colour snap geom row col =
      let bass = clamp01 (snap.bass_norm ⊗ lit 5 10) in
      let mid = clamp01 (snap.mid_norm ⊗ lit 5 10) in
      let treb = clamp01 (snap.treb_norm ⊗ lit 5 10) in
      let t_pos = place row geom.height in
      let w_treb = max_f zero_f (one_f ⊖ lit 2 1 ⊗ t_pos) in
      let w_bass = max_f zero_f (lit 2 1 ⊗ t_pos ⊖ one_f) in
      let w_mid = one_f ⊖ w_treb ⊖ w_bass in
      let intensity = clamp01 (treb ⊗ w_treb ⊕ mid ⊗ w_mid ⊕ bass ⊗ w_bass) in
      let cell = dim (spectrum_ramp (one_f ⊖ t_pos)) intensity in
      let flash = hsv_to_rgb zero_f zero_f (clamp01 snap.beat) in
      some (if row + 1 == geom.height then add_flash cell flash else cell)

  abbrev pub render_per_region :
      AudioSnapshot F → MatrixGeometry → List ColorRgb → F → List ColorRgb
  render_per_region snap geom out brightness =
      if is_empty geom then clear_all out else by_rows geom (region_colour snap geom) brightness out

  -- The ring of recent rows of bands, laid out anew for a new size of the grid.
  unfoldable pub size_rows : MatrixGeometry → PatternState F → PatternState F
  size_rows geom state =
      let rows = state.waterfall_rows in
      let resized = record state {
        waterfall_rows = replicate geom.height (replicate geom.width zero_f);
        waterfall_head = 0;
      } in
      if not (length rows == geom.height)
      then resized
      else if length rows == 0
      then state
      else if length (get_or rows 0 []) == geom.width
      then state
      else resized

  abbrev pub sample_cell : AudioSnapshot F → ℕ → ℕ → F
  sample_cell snap width col =
      let nb = min snap.freq_band_count max_bands in
      if nb == 0
      then zero_f
      else band_between snap.freq_bands nb (place col width ⊗ fl.of_nat (nb - 1))

  -- The loop writes every element of the row.
  unfoldable pub sample_row : AudioSnapshot F → ℕ → List F
  sample_row snap width = tabulate (sample_cell snap width) 0 width

  unfoldable pub write_head : AudioSnapshot F → MatrixGeometry → PatternState F → PatternState F
  write_head snap geom state = record state {
    waterfall_rows = set state.waterfall_rows state.waterfall_head (sample_row snap geom.width);
  }

  -- The ring once a frame has put its row in.
  abbrev pub latest : AudioSnapshot F → MatrixGeometry → PatternState F → PatternState F
  latest snap geom state = write_head snap geom (size_rows geom state)

  -- The row that the grid's row `row` shows: the head's first, then ever older.
  unfoldable pub source_row : PatternState F → ℕ → List F
  source_row state row =
      let size = length state.waterfall_rows in
      get_or state.waterfall_rows ((state.waterfall_head + size - row) % size) []

  abbrev pub waterfall_colour : PatternState F → MatrixGeometry → ℕ → ℕ → Option ColorRgb
  waterfall_colour state geom row col =
      let v = clamp01 (get_or (source_row state row) col zero_f ⊗ lit 14 10) in
      some (dim (spectrum_ramp (place {F = F} col geom.width)) v)

  unfoldable pub advance_head : PatternState F → PatternState F
  advance_head state = record state {
    waterfall_head = (state.waterfall_head + 1) % length state.waterfall_rows;
  }

  abbrev pub render_spectrogram_waterfall :
      AudioSnapshot F
      → MatrixGeometry
      → List ColorRgb
      → PatternState F
      → F
      → List ColorRgb × PatternState F
  render_spectrogram_waterfall snap geom out state brightness =
      if is_empty geom
      then (clear_all out, state)
      else (let written = latest snap geom state in
          (by_rows geom (waterfall_colour written geom) brightness out, advance_head written))

  abbrev pub render_matrix :
      MatrixPattern
      → AudioSnapshot F
      → MatrixGeometry
      → List ColorRgb
      → PatternState F
      → F
      → List ColorRgb × PatternState F
  render_matrix MatrixPattern.spatial_map snap geom out state brightness =
      (render_spatial_map snap geom out brightness, state)
  render_matrix MatrixPattern.equalizer_columns snap geom out state brightness =
      (render_equalizer_columns snap geom out brightness, state)
  render_matrix MatrixPattern.per_region snap geom out state brightness =
      (render_per_region snap geom out brightness, state)
  render_matrix MatrixPattern.spectrogram_waterfall snap geom out state brightness =
      render_spectrogram_waterfall snap geom out state brightness
  render_matrix MatrixPattern.beat_flash snap geom out state brightness =
      (render_beat_flash snap out brightness, state)
  render_matrix MatrixPattern.color_wash snap geom out state brightness =
      (render_color_wash snap out brightness, state)
  render_matrix MatrixPattern.static snap geom out state brightness =
      (render_static out brightness, state)
  render_matrix MatrixPattern.off snap geom out state brightness = (render_off out, state)
