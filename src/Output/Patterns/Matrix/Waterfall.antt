-- ===== src/Output/Patterns/Matrix/Waterfall.antt =====
-- src/output/openrgb_patterns/matrix_patterns.cpp: the waterfall's ring of rows, read newest first.
use native.Mathlib.Nat.{mod-eq_of_lt, mod-lt, add-mod_right}
use mathlib.Core.Option.{some_inj}
use listeningway.Prelude.{
  ℕ, zero, suc, ◌+◌, ◌-◌, ◌%◌, ◌<◌, ◌≡◌, sym, ap, ◌∙◌, false, some, List, [], ◌∷◌, arith, length,
  get_elem?, get_or, set, replicate, length-set, length-replicate, length-tabulate, get_or-set,
  get_or-set_ne, get_or-replicate, ◌%◌,
}
use listeningway.Float.{Float, zero_f}
use listeningway.Dsp.Frame.{AudioSnapshot}
use listeningway.Config.Settings.{MatrixPattern}
use listeningway.Output.Patterns.Common.{ColorRgb, PatternState}
use listeningway.Output.Patterns.Grid.{MatrixGeometry, is_empty}
use listeningway.Output.Patterns.Matrix.{
  size_rows, sample_row, write_head, latest, source_row, advance_head, render_matrix,
}
use listeningway.Output.Patterns.Matrix.Slots.{slot_step, slot_ne}

length-first_row :
    {A : Type 0} (rows : List (List A)) (i n : ℕ) (row : List A)
    → length (get_or rows 0 []) ≡ n
    → length row ≡ n
    → length (get_or (set rows i row) 0 []) ≡ n
length-first_row [] i n row e f = e
length-first_row (r ∷ rows) zero n row e f = f
length-first_row (r ∷ rows) (suc i) n row e f = e

-- The head of a ring that has rows is one of them.
abbrev pub IsRing : {F : Type 0} → PatternState F → Type 0
IsRing st = 0 < length st.waterfall_rows → st.waterfall_head < length st.waterfall_rows

-- The ring has the size of the grid.
abbrev IsLaid : {F : Type 0} → MatrixGeometry → PatternState F → Type 0
IsLaid geom st =
    (length st.waterfall_rows ≡ geom.height)
    × ((st.waterfall_head < geom.height) × (length (get_or st.waterfall_rows 0 []) ≡ geom.width))

module _ {F : Type 0} ⦃fl : Float F⦄ where
  size_rows-IsLaid :
      (geom : MatrixGeometry) (st : PatternState F)
      → 0 < geom.height
      → IsRing st
      → IsLaid geom (size_rows geom st)
  unfolding size_rows
  size_rows-IsLaid geom st h inv =
      let rows = length-replicate geom.height (replicate geom.width (zero_f {F = F})) in
      let row = get_or-replicate geom.height 0 (replicate geom.width (zero_f {F = F})) [] h in
      let width = ap length row ∙ length-replicate geom.width (zero_f {F = F}) in
      (ground (arith, rows), (ground (arith, inv), ground (arith, width)))

  size_rows_self :
      (geom : MatrixGeometry) (st : PatternState F) → IsLaid geom st → size_rows geom st ≡ st
  unfolding size_rows
  size_rows_self geom st inv = ground (arith, inv.0, inv.1.1)

  write_head-IsLaid :
      (snap : AudioSnapshot F) (geom : MatrixGeometry) (st : PatternState F)
      → IsLaid geom st
      → IsLaid geom (write_head snap geom st)
  unfolding write_head sample_row
  write_head-IsLaid snap geom st (len, (inside, width)) = (
    length-set st.waterfall_rows st.waterfall_head (sample_row snap geom.width) ∙ len,
    (
      inside,
      length-first_row st.waterfall_rows st.waterfall_head geom.width _ width
          (length-tabulate _ 0 geom.width),
    ),
  )

  advance_head-IsLaid :
      (geom : MatrixGeometry) (st : PatternState F) → IsLaid geom st → IsLaid geom (advance_head st)
  unfolding advance_head
  advance_head-IsLaid geom st (len, (inside, width)) =
      (len, (rw len (mod-lt (st.waterfall_head + 1) (omega (arith, inside))), width))

  latest-IsLaid :
      (snap : AudioSnapshot F) (geom : MatrixGeometry) (st : PatternState F)
      → 0 < geom.height
      → IsRing st
      → IsLaid geom (latest snap geom st)
  latest-IsLaid snap geom st h inv =
      write_head-IsLaid snap geom (size_rows geom st) (size_rows-IsLaid geom st h inv)

  -- The head's row is the newest, and is shown first.
  source_row-newest :
      (snap : AudioSnapshot F) (geom : MatrixGeometry) (st : PatternState F)
      → IsLaid geom st
      → source_row (write_head snap geom st) 0 ≡ sample_row snap geom.width
  unfolding source_row write_head
  source_row-newest snap geom st (len, (inside, width)) =
      let rows = st.waterfall_rows in
      let row = sample_row snap geom.width in
      let size = length-set rows st.waterfall_head row in
      let slot : (st.waterfall_head + length rows - 0) % length rows ≡ st.waterfall_head =
        ap (λ n. n % length rows) (omega arith)
        ∙ add-mod_right st.waterfall_head (length rows)
        ∙ mod-eq_of_lt {n = st.waterfall_head} {m = length rows} (omega (arith, len, inside)) in
      rw (size, slot) (get_or-set rows st.waterfall_head row [] (omega (arith, len, inside)))

  -- A new frame moves every row down by one.
  source_row-older :
      (snap : AudioSnapshot F) (geom : MatrixGeometry) (st : PatternState F) (j : ℕ)
      → IsLaid geom st
      → suc j < geom.height
      → source_row (write_head snap geom (advance_head st)) (suc j) ≡ source_row st j
  unfolding source_row write_head advance_head
  source_row-older snap geom st j (len, (inside, width)) h =
      let rows = st.waterfall_rows in
      let row = sample_row snap geom.width in
      let next = (st.waterfall_head + 1) % length rows in
      let size = length-set rows next row in
      let low : suc j < length rows = omega (arith, len, h) in
      let held : st.waterfall_head < length rows = omega (arith, len, inside) in
      let slot = slot_step st.waterfall_head (length rows) j held low in
      let other = slot_ne st.waterfall_head (length rows) j held low in
      rw (size, slot)
        (get_or-set_ne rows next ((st.waterfall_head + length rows - j) % length rows) row [] other)

  -- The state after frames of the waterfall on one grid, the newest frame first.
  abbrev pub after :
      MatrixGeometry → List ColorRgb → F → List (AudioSnapshot F) → PatternState F → PatternState F
  after geom out b [] st = st
  after geom out b (snap ∷ older) st =
      (render_matrix MatrixPattern.spectrogram_waterfall snap geom out (after geom out b older st)
        b).1

  after-cons :
      (geom : MatrixGeometry) (out : List ColorRgb) (b : F) (snap : AudioSnapshot F)
      (older : List (AudioSnapshot F)) (st : PatternState F)
      → is_empty geom ≡ false
      → after geom out b (snap ∷ older) st
        ≡ advance_head (latest snap geom (after geom out b older st))
  after-cons geom out b snap older st h = rw (h, after)

  after-IsRing :
      (geom : MatrixGeometry) (out : List ColorRgb) (b : F) (snaps : List (AudioSnapshot F))
      (st : PatternState F)
      → is_empty geom ≡ false
      → IsRing st
      → IsRing (after geom out b snaps st)
  after-IsRing geom out b [] st h inv = inv
  after-IsRing geom out b (snap ∷ older) st h inv =
      let before = after geom out b older st in
      let laid = advance_head-IsLaid geom (latest snap geom before) (
        latest-IsLaid snap geom before (ground (arith, h))
          (after-IsRing geom out b older st h inv)) in
      rw (after-cons geom out b snap older st h) (λ some_row. omega (arith, laid.0, laid.1.0))

  -- On a grid that is not empty, whatever the ring held for another size: row `j` of the grid shows
  -- the bands of the frame `j` frames ago, for as many frames as there are rows.
  pub source_row_history :
      (geom : MatrixGeometry) (out : List ColorRgb) (b : F) (st : PatternState F)
      (snap : AudioSnapshot F) (older : List (AudioSnapshot F)) (j : ℕ) (shown : AudioSnapshot F)
      → is_empty geom ≡ false
      → IsRing st
      → j < geom.height
      → get_elem? (snap ∷ older) j ≡ some shown
      → source_row (latest snap geom (after geom out b older st)) j ≡ sample_row shown geom.width
  source_row_history geom out b st snap older zero shown h inv k e =
      let before = after geom out b older st in
      let ring = after-IsRing geom out b older st h inv in
      rw (sym (some_inj.0 e)) (
        source_row-newest snap geom (size_rows geom before)
          (size_rows-IsLaid geom before (omega arith) ring))
  source_row_history geom out b st snap [] (suc j) shown h inv k e = absurd (cc e)
  source_row_history geom out b st snap (snap2 ∷ older) (suc j) shown h inv k e =
      let before = after geom out b older st in
      let ring = after-IsRing geom out b older st h inv in
      let laid = latest-IsLaid snap2 geom before (omega arith) ring in
      let same =
        size_rows_self geom (advance_head (latest snap2 geom before))
          (advance_head-IsLaid geom (latest snap2 geom before) laid) in
      rw (after-cons geom out b snap2 older st h, same)
        (source_row-older snap geom (latest snap2 geom before) j laid k
          ∙ source_row_history geom out b st snap2 older j shown h inv (omega arith) e)
