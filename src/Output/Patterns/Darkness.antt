-- ===== src/Output/Patterns/Darkness.antt =====
-- src/output/openrgb_patterns: a brightness of zero or below turns the LEDs off, whatever the
-- pattern.
use native.Mathlib.Nat.{mod-lt}
use listeningway.Prelude.{ℕ, ◌<◌, ◌≡◌, refl, ap, ◌∙◌, ◌⊎◌, inl, inr, true, arith}
use listeningway.Float.{Float, IsOrdered, ◌⊗◌, ◌≺◌, lit, zero_f, min_f}
use listeningway.Output.Patterns.Common.{
  ColorRgb, IsBytes, black, clamp01, cast_byte, to_byte, bytes, hsv_to_rgb, spectrum_ramp, dim,
  apply_brightness,
}

pub cast_byte_lt : {F : Type 0} ⦃fl : Float F⦄ (x : F) → cast_byte x < 256
cast_byte_lt x = mod-lt _ (omega arith)

module _ {F : Type 0} ⦃fl : Float F⦄ where
  to_byte_lt : (x : F) → to_byte x < 256
  unfolding to_byte
  to_byte_lt x = ground (arith, cast_byte_lt (x ⊗ lit 255 1))

  bytes-IsBytes : (c : F × (F × F)) → IsBytes (bytes c)
  bytes-IsBytes (r, (g, b)) = (to_byte_lt r, (to_byte_lt g, to_byte_lt b))

  pub hsv_to_rgb-IsBytes : (h s v : F) → IsBytes (hsv_to_rgb h s v)
  unfolding hsv_to_rgb
  hsv_to_rgb-IsBytes h s v = bytes-IsBytes _

  pub spectrum_ramp-IsBytes : (t : F) → IsBytes (spectrum_ramp t)
  unfolding spectrum_ramp
  spectrum_ramp-IsBytes t = bytes-IsBytes _

  pub dim-IsBytes : (c : ColorRgb) (i : F) → IsBytes (dim c i)
  unfolding dim
  dim-IsBytes c i = (
    cast_byte_lt (fl.of_nat c.r ⊗ clamp01 i),
    (cast_byte_lt (fl.of_nat c.g ⊗ clamp01 i), cast_byte_lt (fl.of_nat c.b ⊗ clamp01 i)),
  )

-- A byte times zero is zero, and truncates to it.
pub record IsTruncating (F : Type 0) ⦃fl : Float F⦄ : Type 0 where
  pub byte_by_zero : (n : ℕ) → n < 256 → fl.to_nat (fl.mul (fl.of_nat n) (fl.lit 0 1)) ≡ 0

module _ {F : Type 0} ⦃fl : Float F⦄ (laws : IsOrdered F) where
  clamp01_zero : clamp01 (zero_f {F = F}) ≡ zero_f
  clamp01_zero =
      let low = laws.lt_irrefl (zero_f {F = F}) in
      let high = laws.lit_ge 1 1 0 1 (omega arith) (omega arith) (omega arith) in
      ground (arith, low, high)

  min_f_cap : min_f (zero_f {F = F}) (lit 95 100) ≡ zero_f
  min_f_cap =
      let cap = laws.lit_ge 95 100 0 1 (omega arith) (omega arith) (omega arith) in
      ground (arith, cap)

module _ {F : Type 0} ⦃fl : Float F⦄ (laws : IsOrdered F) (cast : IsTruncating F) (b : F)
    (off : (b ≡ zero_f) ⊎ ((b ≺ zero_f) ≡ true)) where
  clamp01_off : clamp01 b ≡ zero_f
  clamp01_off = elim off [ inl e ↦ rw e (clamp01_zero laws) | inr e ↦ ground (arith, e) ]

  intensity_off : clamp01 (min_f (clamp01 b) (lit 95 100)) ≡ zero_f
  intensity_off =
      ap (λ x. clamp01 (min_f x (lit 95 100))) clamp01_off
      ∙ ap (λ x. clamp01 x) (min_f_cap laws)
      ∙ clamp01_zero laws

  pub apply_brightness-off : (c : ColorRgb) → IsBytes c → apply_brightness c b ≡ black
  unfolding dim
  apply_brightness-off c (r, (g, bl)) =
      rw (intensity_off, cast.byte_by_zero c.r r, cast.byte_by_zero c.g g, cast.byte_by_zero c.b bl)
        refl
