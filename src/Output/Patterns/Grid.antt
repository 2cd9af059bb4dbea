-- ===== src/Output/Patterns/Grid.antt =====
-- src/output/openrgb_patterns/matrix_patterns.cpp and MatrixGeometry of matrix_patterns.h: the
-- cells of a grid of LEDs and the loops over them. `none` stands for SIZE_MAX, a cell without an
-- LED.
use listeningway.Prelude.{
  ℕ, ◌+◌, ◌*◌, Bool, ◌||◌, Option, none, some, List, leb, ◌==◌, if◌then◌else◌, length, get_elem?,
  set, for_range,
}
use listeningway.Float.{Float}
use listeningway.Output.Patterns.Common.{ColorRgb, black, apply_brightness}
use listeningway.Output.Patterns.Linear.{fill}

pub record MatrixGeometry : Type 0 where
  pub width : ℕ
  pub height : ℕ
  pub values : List ℕ

abbrev looked_up : Option ℕ → Option ℕ
looked_up none = none
looked_up (some v) = if v == 4_294_967_295 then none else some v

-- With no table, the LEDs stand row by row.
unfoldable pub cell_to_led : MatrixGeometry → ℕ → ℕ → Option ℕ
cell_to_led geom row col =
    let idx = row * geom.width + col in
    if leb geom.height row || leb geom.width col
    then none
    else if length geom.values == 0
    then some idx
    else looked_up (get_elem? geom.values idx)

-- `set_pixel` guards the index; `set` changes nothing past the end.
abbrev pub set_pixel : List ColorRgb → ℕ → ColorRgb → List ColorRgb
set_pixel out led c = if leb (length out) led then out else set out led c

abbrev pub set_cell : Option ℕ → ColorRgb → List ColorRgb → List ColorRgb
set_cell none c out = out
set_cell (some led) c out = set_pixel out led c

abbrev pub clear_all : List ColorRgb → List ColorRgb
clear_all out = fill out black

abbrev pub is_empty : MatrixGeometry → Bool
is_empty geom = geom.width == 0 || geom.height == 0

module _ {F : Type 0} ⦃fl : Float F⦄ where
  -- What a pattern shows in a cell, when it writes there at all, under the user's brightness.
  abbrev pub show : Option ℕ → Option ColorRgb → F → List ColorRgb → List ColorRgb
  show led none brightness out = out
  show led (some c) brightness out = set_cell led (apply_brightness c brightness) out

  -- The double loops over the grid, row by row and column by column.
  abbrev pub by_rows :
      MatrixGeometry → (ℕ → ℕ → Option ColorRgb) → F → List ColorRgb → List ColorRgb
  by_rows geom colour brightness out =
      for_range 0 geom.height
        (λ row.
          for_range 0 geom.width
            (λ col. show (cell_to_led geom row col) (colour row col) brightness))
        out

  abbrev pub by_columns :
      MatrixGeometry → (ℕ → ℕ → Option ColorRgb) → F → List ColorRgb → List ColorRgb
  by_columns geom colour brightness out =
      for_range 0 geom.width
        (λ col.
          for_range 0 geom.height
            (λ row. show (cell_to_led geom row col) (colour row col) brightness))
        out
