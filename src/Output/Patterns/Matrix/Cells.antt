-- ===== src/Output/Patterns/Matrix/Cells.antt =====
-- src/output/openrgb_patterns/matrix_patterns.cpp: what the loops over the grid leave on the LEDs.
use mathlib.Core.Option.{some_inj}
use listeningway.Prelude.{
  for_range, for_range-Keeps, ℕ, zero, suc, ◌+◌, ◌≤◌, ◌<◌, ◌≡◌, refl, ap, ◌∙◌, ◌≢◌, inl, inr, false,
  Option, none, some, List, ◌∷◌, arith, ◌==◌, Bool-cases, length, get_elem?, get_or, length-set,
  get_elem?-set, get_elem?-set_ne, get_or-tabulate,
}
use listeningway.Float.{Float, ◌⊗◌, lit, zero_f}
use listeningway.Dsp.Frame.{AudioSnapshot}
use listeningway.Config.Settings.{MatrixPattern}
use listeningway.Output.Patterns.Common.{
  ColorRgb, PatternState, clamp01, spectrum_ramp, dim, apply_brightness, place,
}
use listeningway.Output.Patterns.Grid.{
  MatrixGeometry, cell_to_led, set_pixel, is_empty, show, by_rows,
}
use listeningway.Output.Patterns.Matrix.{
  sample_row, sample_cell, latest, waterfall_colour, render_matrix,
}
use listeningway.Output.Patterns.Matrix.Waterfall.{IsRing, after, source_row_history}

-- A turn that brings `Q` about, which every turn keeps.
module _ {S : Type 0} (P Q : S → Type 0) (body : ℕ → S → S) (k : ℕ)
    (inv : (j : ℕ) (t : S) → P t → P (body j t))
    (keep : (j : ℕ) (t : S) → P t × Q t → P (body j t) × Q (body j t))
    (hit : (t : S) → P t → Q (body k t)) where
  for_range-Reaches :
      (i n : ℕ) (s : S)
      → i ≤ k
      → k < i + n
      → P s
      → P (for_range i n body s) × Q (for_range i n body s)
  for_range-Reaches i zero s low high p = absurd (omega arith)
  for_range-Reaches i (suc n) s low high p = elim (Bool-cases (i == k)) [
    | inl e ↦
        let here : i ≡ k = ground (arith, e) in
        for_range-Keeps (λ t. P t × Q t) body (suc i) n (body i s) keep
          (inv i s p, rw here (hit s p))
    | inr e ↦
        let later : suc i ≤ k = ground (arith, e) in
        for_range-Reaches (suc i) n (body i s) later (omega arith) (inv i s p)
  ]

length-set_pixel :
    (out : List ColorRgb) (led : ℕ) (c : ColorRgb) → length (set_pixel out led c) ≡ length out
length-set_pixel out led c = ground (arith, length-set out led c)

get_elem?-set_pixel :
    (out : List ColorRgb) (led : ℕ) (c : ColorRgb)
    → led < length out
    → get_elem? (set_pixel out led c) led ≡ some c
get_elem?-set_pixel out led c h = ground (arith, get_elem?-set out led c h)

get_elem?-set_pixel_ne :
    (out : List ColorRgb) (i led : ℕ) (c : ColorRgb)
    → i ≢ led
    → get_elem? (set_pixel out i c) led ≡ get_elem? out led
get_elem?-set_pixel_ne out i led c h = ground (arith, get_elem?-set_ne out i led c h)

module _ {F : Type 0} ⦃fl : Float F⦄ where
  length-show :
      (cell : Option ℕ) (c : Option ColorRgb) (b : F) (out : List ColorRgb)
      → length (show cell c b out) ≡ length out
  length-show cell none b out = refl
  length-show none (some c) b out = refl
  length-show (some led) (some c) b out = length-set_pixel out led _

  -- A cell of another LED changes nothing; a cell of this LED with the same colour keeps it.
  show-keeps :
      (cell : Option ℕ) (c : Option ColorRgb) (b : F) (out : List ColorRgb) (led : ℕ) (k : ColorRgb)
      → led < length out
      → (cell ≡ some led → c ≡ some k)
      → get_elem? out led ≡ some (apply_brightness k b)
      → get_elem? (show cell c b out) led ≡ some (apply_brightness k b)
  show-keeps cell none b out led k h same e = e
  show-keeps none (some c) b out led k h same e = e
  show-keeps (some i) (some c) b out led k h same e = elim (Bool-cases (i == led)) [
    | inl f ↦
        let here : i ≡ led = ground (arith, f) in
        let colour = some_inj.0 (same (ap some here)) in
        rw (here, colour) (get_elem?-set_pixel out led (apply_brightness k b) h)
    | inr f ↦ get_elem?-set_pixel_ne out i led _ (λ p. absurd (ground (arith, f, p))) ∙ e
  ]

  show-hit :
      (cell : Option ℕ) (c : Option ColorRgb) (b : F) (out : List ColorRgb) (led : ℕ) (k : ColorRgb)
      → led < length out
      → cell ≡ some led
      → c ≡ some k
      → get_elem? (show cell c b out) led ≡ some (apply_brightness k b)
  show-hit cell c b out led k h e f =
      rw (e, f) (get_elem?-set_pixel out led (apply_brightness k b) h)

module _ {F : Type 0} ⦃fl : Float F⦄ (geom : MatrixGeometry) (colour : ℕ → ℕ → Option ColorRgb)
    (b : F) (n row col led : ℕ) (k : ColorRgb) (inside : led < n)
    (named : cell_to_led geom row col ≡ some led)
    (only : (row2 col2 : ℕ) → cell_to_led geom row2 col2 ≡ some led → (row2 ≡ row) × (col2 ≡ col))
    (shown : colour row col ≡ some k) where
  abbrev HasLength : List ColorRgb → Type 0
  HasLength t = length t ≡ n

  abbrev Shows : List ColorRgb → Type 0
  Shows t = get_elem? t led ≡ some (apply_brightness k b)

  abbrev step : ℕ → ℕ → List ColorRgb → List ColorRgb
  step r c t = show (cell_to_led geom r c) (colour r c) b t

  step-HasLength : (r c : ℕ) (t : List ColorRgb) → HasLength t → HasLength (step r c t)
  step-HasLength r c t e = length-show (cell_to_led geom r c) (colour r c) b t ∙ e

  step-Shows :
      (r c : ℕ) (t : List ColorRgb)
      → HasLength t × Shows t
      → HasLength (step r c t) × Shows (step r c t)
  step-Shows r c t (e, f) =
      let same : cell_to_led geom r c ≡ some led → colour r c ≡ some k = λ g.
        let place = only r c g in
        ap (λ x. colour x c) place.0 ∙ ap (λ y. colour row y) place.1 ∙ shown in
      (
        step-HasLength r c t e,
        show-keeps (cell_to_led geom r c) (colour r c) b t led k (omega (arith, inside, e)) same f,
      )

  row-HasLength :
      (r : ℕ) (t : List ColorRgb) → HasLength t → HasLength (for_range 0 geom.width (step r) t)
  row-HasLength r t e = for_range-Keeps HasLength (step r) 0 geom.width t (step-HasLength r) e

  row-Shows :
      (r : ℕ) (t : List ColorRgb)
      → HasLength t × Shows t
      → HasLength (for_range 0 geom.width (step r) t) × Shows (for_range 0 geom.width (step r) t)
  row-Shows r t p =
      for_range-Keeps (λ u. HasLength u × Shows u) (step r) 0 geom.width t (step-Shows r) p

  -- The LED that exactly one cell names shows this cell's colour after the loops by rows.
  by_rows-Shows :
      (out : List ColorRgb)
      → row < geom.height
      → col < geom.width
      → HasLength out
      → Shows (by_rows geom colour b out)
  by_rows-Shows out hr hc e =
      let cell : (t : List ColorRgb) → HasLength t → Shows (step row col t) = λ t p.
        show-hit (cell_to_led geom row col) (colour row col) b t led k (omega (arith, inside, p))
          named shown in
      let line : (t : List ColorRgb) → HasLength t → Shows (for_range 0 geom.width (step row) t) =
        λ t p.
          (for_range-Reaches HasLength Shows (step row) col (step-HasLength row) (step-Shows row)
            cell 0 geom.width t (omega arith) (omega (arith, hc)) p).1 in
      (for_range-Reaches HasLength Shows (λ r. for_range 0 geom.width (step r)) row row-HasLength
        row-Shows line 0 geom.height out (omega arith) (omega (arith, hr)) e).1

module _ {F : Type 0} ⦃fl : Float F⦄ where
  sample_row_lem :
      (snap : AudioSnapshot F) (width col : ℕ)
      → col < width
      → get_or (sample_row snap width) col zero_f ≡ sample_cell snap width col
  unfolding sample_row
  sample_row_lem snap width col h =
      get_or-tabulate (sample_cell snap width) 0 width col zero_f h
      ∙ ap (sample_cell snap width) (omega arith)

  -- On the waterfall, an LED that exactly one cell of the grid names, at row `row` and column `col`,
  -- shows the frame `row` frames ago: the colour of the column, dimmed by that frame's band there,
  -- under the user's brightness. The ring may have held rows for another size of the grid.
  pub waterfall_led :
      (geom : MatrixGeometry) (out : List ColorRgb) (b : F) (st : PatternState F)
      (snap : AudioSnapshot F) (older : List (AudioSnapshot F)) (seen : AudioSnapshot F)
      (row col led : ℕ)
      → IsRing st
      → row < geom.height
      → col < geom.width
      → led < length out
      → cell_to_led geom row col ≡ some led
      → ((row2 col2 : ℕ) → cell_to_led geom row2 col2 ≡ some led → (row2 ≡ row) × (col2 ≡ col))
      → get_elem? (snap ∷ older) row ≡ some seen
      → get_elem?
          ((render_matrix MatrixPattern.spectrogram_waterfall snap geom out
            (after geom out b older st)
            b).0)
          led
        ≡ some (
            apply_brightness
              (dim
                (spectrum_ramp (place {F = F} col geom.width))
                (clamp01 (sample_cell seen geom.width col ⊗ lit 14 10)))
              b)
  waterfall_led geom out b st snap older seen row col led inv hr hc h named only e =
      let full : is_empty geom ≡ false = ground (arith, hr, hc) in
      let before = after geom out b older st in
      let k =
        dim (spectrum_ramp (place {F = F} col geom.width))
          (clamp01 (sample_cell seen geom.width col ⊗ lit 14 10)) in
      let line = source_row_history geom out b st snap older row seen full inv hr e in
      let shown : waterfall_colour (latest snap geom before) geom row col ≡ some k =
        rw (line, sample_row_lem seen geom.width col hc) refl in
      rw (full) (
        by_rows-Shows geom (waterfall_colour (latest snap geom before) geom) b (length out) row col
          led k h named only shown out hr hc refl)
