-- ===== src/Output/Patterns/Linear/Fill.antt =====
-- src/output/openrgb_patterns/linear_patterns.cpp: every pattern writes the whole strip.
use listeningway.Prelude.{
  ℕ, zero, suc, ◌≡◌, refl, sym, ap, ◌∙◌, List, [], ◌∷◌, ◌++◌, arith, length, set, tabulate,
  length-append, length-tabulate, for_range,
}
use mathlib.Core.List.{append_assoc}
use listeningway.Float.{Float}
use listeningway.Dsp.Frame.{AudioSnapshot}
use listeningway.Config.Settings.{LinearPattern}
use listeningway.Output.Patterns.Common.{ColorRgb, PatternState}
use listeningway.Output.Patterns.Linear.{
  fill, each_led, hold_peak, vu_level, vu_led, spectrum_led, chase_led, pulse_led, split_led,
  render_linear,
}

set_at :
    (k : ℕ) (pre : List ColorRgb) (x a : ColorRgb) (xs : List ColorRgb)
    → length pre ≡ k
    → set (pre ++ (x ∷ xs)) k a ≡ (pre ++ (a ∷ [])) ++ xs
set_at zero [] x a xs e = refl
set_at (suc k) [] x a xs e = absurd (omega (arith, e))
set_at zero (y ∷ pre) x a xs e = absurd (omega (arith, e))
set_at (suc k) (y ∷ pre) x a xs e = ap (λ rest. y ∷ rest) (set_at k pre x a xs (omega (arith, e)))

-- What the loop leaves from index `k` on, behind what it has written.
write_from :
    (f : ℕ → ColorRgb) (k : ℕ) (pre xs : List ColorRgb)
    → length pre ≡ k
    → for_range k (length xs) (λ i leds. set leds i (f i)) (pre ++ xs)
      ≡ pre ++ tabulate f k (length xs)
write_from f k pre [] e = refl
write_from f k pre (x ∷ xs) e =
    let written = pre ++ (f k ∷ []) in
    ap (λ (leds : List ColorRgb). for_range (suc k) (length xs) (λ i t. set t i (f i)) leds)
      (set_at k pre x (f k) xs e)
    ∙ write_from f (suc k) written xs (omega (arith, length-append pre (f k ∷ []), e))
    ∙ append_assoc pre (f k ∷ []) (tabulate f (suc k) (length xs))

-- The loop over a strip leaves nothing of what the LEDs held.
pub each_led_lem :
    (out : List ColorRgb) (f : ℕ → ColorRgb) → each_led out f ≡ tabulate f 0 (length out)
each_led_lem out f = write_from f 0 [] out refl

length-each_led : (out : List ColorRgb) (f : ℕ → ColorRgb) → length (each_led out f) ≡ length out
length-each_led out f = ap length (each_led_lem out f) ∙ length-tabulate f 0 (length out)

each_led-fresh :
    (g : ℕ → ℕ → ColorRgb) (out out2 : List ColorRgb)
    → length out ≡ length out2
    → each_led out (g (length out)) ≡ each_led out2 (g (length out2))
each_led-fresh g out out2 e =
    each_led_lem out _ ∙ ap (λ n. tabulate (g n) 0 n) e ∙ sym (each_led_lem out2 _)

fill-fresh :
    (c : ColorRgb) (out out2 : List ColorRgb) → length out ≡ length out2 → fill out c ≡ fill out2 c
fill-fresh c = each_led-fresh (λ n i. c)

module _ {F : Type 0} ⦃fl : Float F⦄ where
  -- Whatever the pattern, it shows as many LEDs as the strip has.
  pub length-render_linear :
      (p : LinearPattern) (snap : AudioSnapshot F) (out : List ColorRgb) (st : PatternState F)
      (b dt : F)
      → length ((render_linear p snap out st b dt).0) ≡ length out
  length-render_linear LinearPattern.spectrum_bar snap out st b dt = length-each_led out _
  length-render_linear LinearPattern.vu_meter snap [] st b dt = refl
  length-render_linear LinearPattern.vu_meter snap (c ∷ out) st b dt = length-each_led (c ∷ out) _
  length-render_linear LinearPattern.chase_orbit snap out st b dt = length-each_led out _
  length-render_linear LinearPattern.pulse_from_center snap out st b dt = length-each_led out _
  length-render_linear LinearPattern.stereo_split snap out st b dt = length-each_led out _
  length-render_linear LinearPattern.color_wash snap out st b dt = length-each_led out _
  length-render_linear LinearPattern.static snap out st b dt = length-each_led out _
  length-render_linear LinearPattern.off snap out st b dt = length-each_led out _

  -- Two buffers that agree in length: what they held before shows in no pattern, neither in the
  -- colours nor in the state.
  pub render_linear-fresh :
      (p : LinearPattern) (snap : AudioSnapshot F) (out out2 : List ColorRgb) (st : PatternState F)
      (b dt : F)
      → length out ≡ length out2
      → render_linear p snap out st b dt ≡ render_linear p snap out2 st b dt
  render_linear-fresh LinearPattern.spectrum_bar snap out out2 st b dt e =
      ap (λ leds. (leds, st)) (each_led-fresh (spectrum_led snap b) out out2 e)
  render_linear-fresh LinearPattern.chase_orbit snap out out2 st b dt e =
      ap (λ leds. (leds, st)) (each_led-fresh (chase_led snap b) out out2 e)
  render_linear-fresh LinearPattern.pulse_from_center snap out out2 st b dt e =
      ap (λ leds. (leds, st)) (each_led-fresh (pulse_led snap b) out out2 e)
  render_linear-fresh LinearPattern.stereo_split snap out out2 st b dt e =
      ap (λ leds. (leds, st)) (each_led-fresh (split_led snap b) out out2 e)
  render_linear-fresh LinearPattern.color_wash snap out out2 st b dt e =
      ap (λ leds. (leds, st)) (fill-fresh _ out out2 e)
  render_linear-fresh LinearPattern.static snap out out2 st b dt e =
      ap (λ leds. (leds, st)) (fill-fresh _ out out2 e)
  render_linear-fresh LinearPattern.off snap out out2 st b dt e =
      ap (λ leds. (leds, st)) (fill-fresh _ out out2 e)
  render_linear-fresh LinearPattern.vu_meter snap [] [] st b dt e = refl
  render_linear-fresh LinearPattern.vu_meter snap [] (c2 ∷ out2) st b dt e =
      absurd (omega (arith, e))
  render_linear-fresh LinearPattern.vu_meter snap (c ∷ out) [] st b dt e = absurd (omega (arith, e))
  render_linear-fresh LinearPattern.vu_meter snap (c ∷ out) (c2 ∷ out2) st b dt e =
      let peak = hold_peak (vu_level snap) dt st in
      ap (λ leds. (leds, peak))
        (each_led-fresh (vu_led (vu_level snap) peak.vu_peak_pos b) (c ∷ out) (c2 ∷ out2) e)
