-- ===== src/Float/Fixed.antt =====
-- An instance of the laws: fixed-point numbers in millionths, with `none` for NaN. It rounds the
-- transcendental functions to constants, and serves the tests only.
pub mod Rounding
use native.Mathlib.Nat.{mul-le-mul_right, div-mul-le_self, le-div_iff_mul-le, mul-div_cancel}
use listeningway.Prelude.{
  ℕ, suc, ◌+◌, ◌-◌, ◌*◌, ◌/◌, ◌^◌, ◌≤◌, ◌<◌, ◌≡◌, refl, Bool, true, false, not, ◌&&◌, Option, none,
  some, arith, ltb, if◌then◌else◌,
}
use listeningway.Prelude.Int.{ℤ, pos, negsuc, pos_part, neg_part, sub_ℕ, ◌+ℤ◌, ◌-ℤ◌, ltb_ℤ}
use listeningway.Float.{Float, IsOrdered, Casts}

abbrev scale : ℕ
scale = 1_000_000

abbrev pub Fixed : Type 0
Fixed = Option ℤ

abbrev lift : (ℤ → ℤ) → Fixed → Fixed
lift f none = none
lift f (some a) = some (f a)

abbrev lift₂ : (ℤ → ℤ → ℤ) → Fixed → Fixed → Fixed
lift₂ f (some a) (some b) = some (f a b)
lift₂ f _ _ = none

abbrev test₂ : (ℤ → ℤ → Bool) → Fixed → Fixed → Bool
test₂ f (some a) (some b) = f a b
test₂ f _ _ = false

abbrev times : ℤ → ℤ → ℤ
times a b =
    sub_ℕ ((pos_part a * pos_part b + neg_part a * neg_part b) / scale)
      ((pos_part a * neg_part b + neg_part a * pos_part b) / scale)

abbrev over : ℤ → ℤ → ℤ
over a b =
    let m = pos_part b + neg_part b in
    sub_ℕ (if ltb 0 (pos_part b) then pos_part a * scale / m else neg_part a * scale / m)
      (if ltb 0 (pos_part b) then neg_part a * scale / m else pos_part a * scale / m)

abbrev floor_int : ℤ → ℤ
floor_int (pos n) = pos (n / scale * scale)
floor_int (negsuc n) = negsuc ((n / scale + 1) * scale - 1)

abbrev abs_int : ℤ → ℤ
abs_int a = pos (pos_part a + neg_part a)

abbrev nat_of : Fixed → ℕ
nat_of none = 0
nat_of (some a) = pos_part a / scale

abbrev int_of : Fixed → ℤ
int_of none = pos 0
int_of (some (pos n)) = pos (n / scale)
int_of (some (negsuc n)) = sub_ℕ 0 (suc n / scale)

instance abbrev pub fixed_float : Float Fixed
fixed_float = record {
  lit = λ n d. some (pos (n * scale / d));
  neg = lift (λ a. sub_ℕ (neg_part a) (pos_part a));
  abs = lift abs_int;
  add = lift₂ ◌+ℤ◌;
  sub = lift₂ ◌-ℤ◌;
  mul = lift₂ times;
  div = lift₂ over;
  lt = test₂ ltb_ℤ;
  le = test₂ (λ a b. not (ltb_ℤ b a));
  eq = test₂ (λ a b. not (ltb_ℤ a b) && not (ltb_ℤ b a));
  sqrt = λ x. x;
  exp = λ x. some (pos scale);
  log = λ x. x;
  log10 = λ x. x;
  pow = λ x y. x;
  cos = λ x. some (pos scale);
  sin = λ x. x;
  atan2 = λ x y. x;
  floor = lift floor_int;
  round = lift (λ a. floor_int (a +ℤ pos (scale / 2)));
  of_nat = λ n. some (pos (n * scale));
  to_nat = nat_of;
  of_int = λ a. some (sub_ℕ (pos_part a * scale) (neg_part a * scale));
  to_int = int_of;
}

fixed_irrefl : (x : Fixed) → fixed_float.lt x x ≡ false
fixed_irrefl none = refl
fixed_irrefl (some a) = ground arith

fixed_asymm : (x y : Fixed) → fixed_float.lt x y ≡ true → fixed_float.lt y x ≡ false
fixed_asymm (some a) (some b) e = ground arith
fixed_asymm none y e = cc
fixed_asymm (some a) none e = cc

-- Rounding down is monotone.
div_mono : (a b c d : ℕ) → 0 < b → 0 < d → c * b ≤ a * d → c * scale / d ≤ a * scale / b
div_mono a b c d hb hd h =
    let q = c * scale / d in
    let below : q * d ≤ c * scale = div-mul-le_self (c * scale) d in
    let scaled : q * d * b ≤ c * scale * b = mul-le-mul_right b below in
    let crossed : c * b * scale ≤ a * d * scale = mul-le-mul_right scale h in
    let both : q * b * d ≤ a * scale * d = omega (arith, scaled, crossed) in
    let cut : q * b ≤ a * scale * d / d = (le-div_iff_mul-le hd).1 both in
    (le-div_iff_mul-le hb).1 (rw (mul-div_cancel (a * scale) hd) at cut)

fixed_lit_ge :
    (a b c d : ℕ)
    → 0 < b
    → 0 < d
    → c * b ≤ a * d
    → fixed_float.lt (fixed_float.lit a b) (fixed_float.lit c d) ≡ false
fixed_lit_ge a b c d hb hd h = ground (arith, div_mono a b c d hb hd h)

fixed_neg_lit :
    (a b c d : ℕ)
    → 0 < b
    → 0 < d
    → fixed_float.lt (fixed_float.lit c d) (fixed_float.neg (fixed_float.lit a b)) ≡ false
fixed_neg_lit a b c d hb hd = ground arith

fixed_lit_lt :
    (a c : ℕ)
    → a < c
    → c < 2 ^ 24
    → fixed_float.lt (fixed_float.lit a 1) (fixed_float.lit c 1) ≡ true
fixed_lit_lt a c h b = ground arith

fixed_lt_between :
    (a b x y : Fixed)
    → fixed_float.le y x ≡ true
    → fixed_float.lt y b ≡ false
    → fixed_float.lt a x ≡ false
    → fixed_float.lt a b ≡ false
fixed_lt_between (some a) (some b) (some x) (some y) p q r = ground arith
fixed_lt_between none b x y p q r = ground arith
fixed_lt_between (some a) none x y p q r = ground arith
fixed_lt_between (some a) (some b) none none p q r = cc
fixed_lt_between (some a) (some b) none (some y) p q r = cc
fixed_lt_between (some a) (some b) (some x) none p q r = cc

pub Fixed-IsOrdered : IsOrdered Fixed
Fixed-IsOrdered = record {
  lt_irrefl = fixed_irrefl;
  lt_asymm = fixed_asymm;
  lit_ge = fixed_lit_ge;
  neg_lit = fixed_neg_lit;
  lit_lt = fixed_lit_lt;
  lt_between = fixed_lt_between;
}

-- Both widths are the same here.
abbrev pub fixed_casts : Casts Fixed Fixed
fixed_casts = record { widen = λ x. x; narrow = λ x. x }
