-- ===== src/Output/Patterns/Bytes.antt =====
-- src/output/openrgb_patterns: the channels of every colour that the patterns compute are bytes.
use listeningway.Prelude.{
  ℕ, ◌+◌, inl, inr, Bool, true, false, Option, none, some, arith, ◌==◌, if◌then◌else◌, Bool-cases,
}
use listeningway.Float.{Float, ◌≺◌, ◌⊘◌, lit, zero_f, min_f}
use listeningway.Dsp.Frame.{AudioSnapshot}
use listeningway.Output.Patterns.Common.{ColorRgb, IsBytes, black, rgb}
use listeningway.Output.Patterns.Darkness.{cast_byte_lt, hsv_to_rgb-IsBytes, dim-IsBytes}
use listeningway.Output.Patterns.Linear.{vu_fill}
use listeningway.Output.Patterns.Grid.{MatrixGeometry}
use listeningway.Output.Patterns.Matrix.{
  add_flash, mean_colour, spatial_colour, column_colour, region_colour,
}

-- The colour of a cell, where there is one, has bytes for channels.
abbrev pub AreBytes : Option ColorRgb → Type 0
AreBytes none = Unit
AreBytes (some c) = IsBytes c

add_flash-IsBytes : (c flash : ColorRgb) → IsBytes (add_flash c flash)
add_flash-IsBytes c flash = (omega arith, (omega arith, omega arith))

guard-AreBytes : (t : Bool) (c : ColorRgb) → IsBytes c → AreBytes (if t then none else some c)
guard-AreBytes true c p = tt
guard-AreBytes false c p = p

pub if-IsBytes : (t : Bool) (c d : ColorRgb) → IsBytes c → IsBytes d → IsBytes (if t then c else d)
if-IsBytes true c d p q = p
if-IsBytes false c d p q = q

pub white-IsBytes : IsBytes (rgb 255 255 255)
white-IsBytes = (omega arith, (omega arith, omega arith))

black-IsBytes : IsBytes black
black-IsBytes = (omega arith, (omega arith, omega arith))

module _ {F : Type 0} ⦃fl : Float F⦄ where
  pub vu_fill-IsBytes : (level : F) (n i : ℕ) → IsBytes (vu_fill level n i)
  vu_fill-IsBytes level n i = if-IsBytes _ _ black (hsv_to_rgb-IsBytes _ _ _) black-IsBytes

  mean_colour-AreBytes : (acc : F × (F × (F × F))) → AreBytes (mean_colour acc)
  mean_colour-AreBytes (r, (g, (b, w))) = elim (Bool-cases (zero_f ≺ w)) [
    | inl e ↦ rw e (
      cast_byte_lt (min_f (lit 255 1) (r ⊘ w)),
      (cast_byte_lt (min_f (lit 255 1) (g ⊘ w)), cast_byte_lt (min_f (lit 255 1) (b ⊘ w))),
    )
    | inr e ↦ rw e tt
  ]

  pub spatial_colour-AreBytes :
      (snap : AudioSnapshot F) (geom : MatrixGeometry) (row col : ℕ)
      → AreBytes (spatial_colour snap geom row col)
  spatial_colour-AreBytes snap geom row col = mean_colour-AreBytes _

  pub column_colour-AreBytes :
      (snap : AudioSnapshot F) (nb : ℕ) (geom : MatrixGeometry) (row col : ℕ)
      → AreBytes (column_colour snap nb geom row col)
  column_colour-AreBytes snap nb geom row col = guard-AreBytes _ _ (dim-IsBytes _ _)

  pub region_colour-AreBytes :
      (snap : AudioSnapshot F) (geom : MatrixGeometry) (row col : ℕ)
      → AreBytes (region_colour snap geom row col)
  region_colour-AreBytes snap geom row col = elim (Bool-cases (row + 1 == geom.height)) [
    | inl e ↦ rw e (add_flash-IsBytes _ _)
    | inr e ↦ rw e (dim-IsBytes _ _)
  ]
