-- ===== src/Float/Fixed/Rounding.antt =====
-- The fixed-point numbers round and truncate as the laws of the components ask.
use listeningway.Prelude.{
  ℕ, ◌+◌, ◌*◌, ◌/◌, ◌^◌, ◌≤◌, ◌<◌, ◌≡◌, ap, ◌∙◌, inl, inr, true, none, some, arith, ltb, Bool-cases,
}
use listeningway.Prelude.Int.{pos, negsuc}
use listeningway.Float.{clamp_f}
use listeningway.Float.Fixed.{Fixed, fixed_float}
use listeningway.Dsp.Beat.BeatTracker.Counters.{IsRounding}
use listeningway.Output.Patterns.Darkness.{IsTruncating}

fixed_half :
    (n : ℕ)
    → n < 2 ^ 23
    → fixed_float.mul (fixed_float.lit (2 * n) 1) (fixed_float.lit 5 10) ≡ fixed_float.lit n 1
fixed_half n h = ground arith

fixed_byte :
    (n : ℕ)
    → n < 256
    → fixed_float.to_nat (fixed_float.mul (fixed_float.of_nat n) (fixed_float.lit 0 1)) ≡ 0
fixed_byte n h = ground arith

pub Fixed-IsTruncating : IsTruncating Fixed
Fixed-IsTruncating = record { byte_by_zero = fixed_byte }

-- A clamped number is one from the lower to the upper bound, in millionths.
fixed_clamp :
    (x : Fixed) (a b : ℕ)
    → a ≤ b
    → fixed_float.eq x x ≡ true
    → (v : ℕ) × ((clamp_f x (fixed_float.lit a 1) (fixed_float.lit b 1) ≡ some (pos v))
        × ((a * 1_000_000 ≤ v) × (v ≤ b * 1_000_000)))
fixed_clamp none a b h e = absurd cc
fixed_clamp (some (negsuc v)) a b h e =
    (a * 1_000_000, (ground arith, (omega arith, omega (arith, h))))
fixed_clamp (some (pos v)) a b h e = elim (Bool-cases (ltb v (a * 1_000_000))) [
  | inl f ↦ (a * 1_000_000, (ground (arith, f), (omega arith, omega (arith, h))))
  | inr f ↦ elim (Bool-cases (ltb (b * 1_000_000) v)) [
    | inl g ↦ (b * 1_000_000, (ground (arith, f, g), (omega (arith, h), omega arith)))
    | inr g ↦ (v, (ground (arith, f, g), (ground (arith, f), ground (arith, g))))
  ]
]

rounded :
    (v : ℕ)
    → fixed_float.to_int (fixed_float.round (some (pos v))) ≡ pos ((v + 500_000) / 1_000_000)
rounded v = ground arith

fixed_round :
    (x : Fixed) (a b : ℕ)
    → a ≤ b
    → b < 2 ^ 23
    → fixed_float.eq x x ≡ true
    → (n : ℕ) × ((fixed_float.to_int
            (fixed_float.round (clamp_f x (fixed_float.lit a 1) (fixed_float.lit b 1)))
          ≡ pos n)
        × ((a ≤ n) × (n ≤ b)))
fixed_round x a b h k e =
    let (v, (same, (low, high))) = fixed_clamp x a b h e in
    (
      (v + 500_000) / 1_000_000,
      (
        ap (λ y. fixed_float.to_int (fixed_float.round y)) same ∙ rounded v,
        (omega (arith, low), omega (arith, high)),
      ),
    )

halved : (v : ℕ) → fixed_float.mul (some (pos v)) (fixed_float.lit 5 10) ≡ some (pos (v / 2))
halved v = ground arith

fixed_round_half :
    (x : Fixed) (a b : ℕ)
    → a ≤ b
    → b < 2 ^ 23
    → fixed_float.eq x x ≡ true
    → (n : ℕ) × ((fixed_float.to_int (
            fixed_float.round (
              fixed_float.mul
                (clamp_f x (fixed_float.lit a 1) (fixed_float.lit b 1))
                (fixed_float.lit 5 10)))
          ≡ pos n)
        × ((a ≤ 2 * n + 1) × (2 * n ≤ b + 1)))
fixed_round_half x a b h k e =
    let (v, (same, (low, high))) = fixed_clamp x a b h e in
    (
      (v / 2 + 500_000) / 1_000_000,
      (
        ap (λ y. fixed_float.to_int (fixed_float.round (fixed_float.mul y (fixed_float.lit 5 10))))
              same
            ∙ ap (λ y. fixed_float.to_int (fixed_float.round y)) (halved v)
            ∙ rounded (v / 2),
        (omega (arith, low), omega (arith, high)),
      ),
    )

pub Fixed-IsRounding : IsRounding Fixed
Fixed-IsRounding = record {
  half = fixed_half;
  round_clamp = fixed_round;
  round_half = fixed_round_half;
}
