-- ===== src/Output/Patterns/Common.antt =====
-- src/output/openrgb_patterns/pattern_common.h and pattern_common.cpp: colours, the state of a zone
-- between frames, and the shaping that the patterns share. A cast to `uint8_t` keeps the low eight
-- bits; the language leaves it open when the number has no such value.
use listeningway.Prelude.{
  ℕ, suc, ◌+◌, ◌-◌, ◌%◌, ◌<◌, min, List, [], ◌∷◌, ◌==◌, if◌then◌else◌, get_or, ◌%◌,
}
use listeningway.Prelude.Int.{ℤ, pos, negsuc, pos_part}
use listeningway.Float.{Float, ◌⊕◌, ◌⊖◌, ◌⊗◌, ◌⊘◌, ◌≺◌, ◌≼◌, lit, zero_f, one_f, min_f}

pub record ColorRgb : Type 0 where
  pub r : ℕ
  pub g : ℕ
  pub b : ℕ

abbrev pub rgb : ℕ → ℕ → ℕ → ColorRgb
rgb r g b = record { r = r; g = g; b = b }

abbrev pub black : ColorRgb
black = rgb 0 0 0

pub record PatternState (F : Type 0) : Type 0 where
  pub vu_peak_pos : F
  pub vu_peak_decay_seconds : F
  pub waterfall_rows : List (List F)
  pub waterfall_head : ℕ
  pub idle_colour : ColorRgb

-- Each channel is a value of `uint8_t`.
abbrev pub IsBytes : ColorRgb → Type 0
IsBytes c = (c.r < 256) × ((c.g < 256) × (c.b < 256))

-- The case of `int(x) % 6`; a negative remainder is no case of the switch.
abbrev pub sector : ℤ → ℕ
sector (pos n) = n % 6
sector (negsuc n) = if suc n % 6 == 0 then 0 else 6

module _ {F : Type 0} ⦃fl : Float F⦄ where
  abbrev pub lerp : F → F → F → F
  lerp a b t = a ⊕ (b ⊖ a) ⊗ t

  abbrev pub clamp01 : F → F
  clamp01 x = if x ≺ zero_f then zero_f else if one_f ≺ x then one_f else x

  abbrev pub cast_byte : F → ℕ
  cast_byte x = fl.to_nat x % 256

  unfoldable pub to_byte : F → ℕ
  to_byte v =
      let scaled = v ⊗ lit 255 1 in
      if scaled ≼ zero_f then 0 else if lit 255 1 ≼ scaled then 255 else cast_byte scaled

  abbrev pub hsv_channels : ℕ → F → F → F → F → F × (F × F)
  hsv_channels i v p q t =
      if i == 0
      then (v, (t, p))
      else if i == 1
      then (q, (v, p))
      else if i == 2
      then (p, (v, t))
      else if i == 3
      then (p, (q, v))
      else if i == 4
      then (t, (p, v))
      else if i == 5
      then (v, (p, q))
      else (zero_f, (zero_f, zero_f))

  abbrev pub bytes : F × (F × F) → ColorRgb
  bytes (r, (g, b)) = rgb (to_byte r) (to_byte g) (to_byte b)

  unfoldable pub hsv_to_rgb : F → F → F → ColorRgb
  hsv_to_rgb h s v =
      let h1 = h ⊖ fl.floor h in
      let s1 = clamp01 s in
      let v1 = clamp01 v in
      let h6 = h1 ⊗ lit 6 1 in
      let f = h6 ⊖ fl.floor h6 in
      let p = v1 ⊗ (one_f ⊖ s1) in
      let q = v1 ⊗ (one_f ⊖ s1 ⊗ f) in
      let t = v1 ⊗ (one_f ⊖ s1 ⊗ (one_f ⊖ f)) in
      bytes (hsv_channels (sector (fl.to_int (fl.floor h6))) v1 p q t)

  -- The five stops: blue, cyan, green, yellow and red.
  abbrev pub stops : List (F × (F × F))
  stops =
      (lit 10 100, (lit 20 100, lit 100 100))
      ∷ (lit 10 100, (lit 100 100, lit 100 100))
      ∷ (lit 10 100, (lit 100 100, lit 30 100))
      ∷ (lit 100 100, (lit 100 100, lit 10 100))
      ∷ (lit 100 100, (lit 20 100, lit 10 100))
      ∷ []

  abbrev pub mix_stops : F → F × (F × F) → F × (F × F) → F × (F × F)
  mix_stops frac (r0, (g0, b0)) (r1, (g1, b1)) = (
    r0 ⊗ (one_f ⊖ frac) ⊕ r1 ⊗ frac,
    (g0 ⊗ (one_f ⊖ frac) ⊕ g1 ⊗ frac, b0 ⊗ (one_f ⊖ frac) ⊕ b1 ⊗ frac),
  )

  abbrev pub stop_at : ℕ → F × (F × F)
  stop_at i = get_or stops i (zero_f, (zero_f, zero_f))

  unfoldable pub spectrum_ramp : F → ColorRgb
  spectrum_ramp t =
      let scaled = clamp01 t ⊗ lit 4 1 in
      let lo = min 4 (pos_part (fl.to_int (fl.floor scaled))) in
      let hi = min 4 (lo + 1) in bytes (mix_stops (scaled ⊖ fl.of_nat lo) (stop_at lo) (stop_at hi))

  abbrev pub centroid_to_hue : F → F
  centroid_to_hue centroid = lerp (lit 66 100) zero_f (clamp01 centroid)

  unfoldable pub dim : ColorRgb → F → ColorRgb
  dim c intensity =
      let i = clamp01 intensity in
      rgb (cast_byte (fl.of_nat c.r ⊗ i)) (cast_byte (fl.of_nat c.g ⊗ i))
        (cast_byte (fl.of_nat c.b ⊗ i))

  abbrev pub apply_brightness : ColorRgb → F → ColorRgb
  apply_brightness c brightness = dim c (min_f (clamp01 brightness) (lit 95 100))

  abbrev pub noise_gate : F → F → F → F
  noise_gate level floor window =
      if level ≼ floor
      then zero_f
      else if floor ⊕ window ≼ level
      then level
      else level ⊗ ((level ⊖ floor) ⊘ window)

  -- The same helper of the three files of patterns.
  abbrev pub compress_volume : F → F
  compress_volume v = clamp01 (v ⊗ lit 5 10)

  -- `nb`, and the band at a position between two of them.
  abbrev pub band_between : List F → ℕ → F → F
  band_between bands nb fpos =
      let lo = fl.to_nat (fl.floor fpos) in
      let hi = min (lo + 1) (nb - 1) in
      let frac = fpos ⊖ fl.of_nat lo in
      get_or bands lo zero_f ⊗ (one_f ⊖ frac) ⊕ get_or bands hi zero_f ⊗ frac

  -- A place from 0 to 1 among `n`; the middle of one.
  abbrev pub place : ℕ → ℕ → F
  place i n = if n == 1 then lit 5 10 else fl.of_nat i ⊘ fl.of_nat (n - 1)
