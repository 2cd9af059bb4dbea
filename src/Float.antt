-- ===== src/Float.antt =====
-- `float` as a parameter: the operations that the code uses, with their C++ meaning, and the laws
-- of IEEE comparison that the theorems need. NaN is not excluded: a comparison with it is false.
pub mod Fixed
use listeningway.Prelude.{ℕ, ◌*◌, ◌^◌, ◌≤◌, ◌<◌, ◌≡◌, Bool, true, false, arith, if◌then◌else◌}
use listeningway.Prelude.Int.{ℤ}

-- `lit n d` is the constant nearest to n / d; `of_nat`, `to_nat`, `of_int` and `to_int` are the
-- casts, whose result out of range the language leaves open.
pub record Float (F : Type 0) : Type 0 where
  pub lit : ℕ → ℕ → F
  pub neg : F → F
  pub abs : F → F
  pub add : F → F → F
  pub sub : F → F → F
  pub mul : F → F → F
  pub div : F → F → F
  pub lt : F → F → Bool
  pub le : F → F → Bool
  pub eq : F → F → Bool
  pub sqrt : F → F
  pub exp : F → F
  pub log : F → F
  pub log10 : F → F
  pub pow : F → F → F
  pub cos : F → F
  pub sin : F → F
  pub atan2 : F → F → F
  pub floor : F → F
  pub round : F → F
  pub of_nat : ℕ → F
  pub to_nat : F → ℕ
  pub of_int : ℤ → F
  pub to_int : F → ℤ

module _ {F : Type 0} ⦃fl : Float F⦄ where
  infixl 65 ◌⊕◌ ◌⊖◌
  infixl 70 ◌⊗◌ ◌⊘◌
  infix 50 ◌≺◌ ◌≼◌
  abbrev pub ◌⊕◌ : F → F → F
  x ⊕ y = fl.add x y

  abbrev pub ◌⊖◌ : F → F → F
  x ⊖ y = fl.sub x y

  abbrev pub ◌⊗◌ : F → F → F
  x ⊗ y = fl.mul x y

  abbrev pub ◌⊘◌ : F → F → F
  x ⊘ y = fl.div x y

  abbrev pub ◌≺◌ : F → F → Bool
  x ≺ y = fl.lt x y

  abbrev pub ◌≼◌ : F → F → Bool
  x ≼ y = fl.le x y

  -- A constant of the source, `n / d`.
  abbrev pub lit : ℕ → ℕ → F
  lit n d = fl.lit n d

  abbrev pub zero_f : F
  zero_f = fl.lit 0 1

  abbrev pub one_f : F
  one_f = fl.lit 1 1

  -- `std::min`, `std::max` and `std::clamp`, by their comparisons.
  abbrev pub min_f : F → F → F
  min_f x y = if fl.lt y x then y else x

  abbrev pub max_f : F → F → F
  max_f x y = if fl.lt x y then y else x

  abbrev pub clamp_f : F → F → F → F
  clamp_f x lo hi = if fl.lt x lo then lo else if fl.lt hi x then hi else x

  -- Neither below nor above: what a clamp guarantees, NaN included.
  abbrev pub Within : F → F → F → Type 0
  Within lo hi x = (fl.lt x lo ≡ false) × (fl.lt hi x ≡ false)

-- Laws of comparison and of rounded constants, true of IEEE arithmetic with NaN and infinities.
pub record IsOrdered (F : Type 0) ⦃fl : Float F⦄ : Type 0 where
  pub lt_irrefl : (x : F) → fl.lt x x ≡ false
  pub lt_asymm : (x y : F) → fl.lt x y ≡ true → fl.lt y x ≡ false
  pub lit_ge :
      (a b c d : ℕ) → 0 < b → 0 < d → c * b ≤ a * d → fl.lt (fl.lit a b) (fl.lit c d) ≡ false
  pub neg_lit : (a b c d : ℕ) → 0 < b → 0 < d → fl.lt (fl.lit c d) (fl.neg (fl.lit a b)) ≡ false
  pub lit_lt : (a c : ℕ) → a < c → c < 2 ^ 24 → fl.lt (fl.lit a 1) (fl.lit c 1) ≡ true
  pub lt_between :
      (a b x y : F) → fl.le y x ≡ true → fl.lt y b ≡ false → fl.lt a x ≡ false → fl.lt a b ≡ false

module _ {F : Type 0} ⦃fl : Float F⦄ (laws : IsOrdered F) where
  pub clamp_f-Within : (x lo hi : F) → fl.lt hi lo ≡ false → Within lo hi (clamp_f x lo hi)
  clamp_f-Within x lo hi h = ground (arith, laws.lt_irrefl lo, laws.lt_irrefl hi)

  pub min_f-left : (x y : F) → fl.lt x (min_f x y) ≡ false
  min_f-left x y = ground (arith, laws.lt_irrefl x, laws.lt_asymm y x)

  pub min_f-right : (x y : F) → fl.lt y (min_f x y) ≡ false
  min_f-right x y = ground (arith, laws.lt_irrefl y)

  pub max_f-left : (x y : F) → fl.lt (max_f x y) x ≡ false
  max_f-left x y = ground (arith, laws.lt_irrefl x, laws.lt_asymm x y)

module _ {F : Type 0} ⦃fl : Float F⦄ where
  pub clamp_f_self : (x lo hi : F) → Within lo hi x → clamp_f x lo hi ≡ x
  clamp_f_self x lo hi h = ground arith

-- The casts between `float` and `double`.
pub record Casts (F D : Type 0) : Type 0 where
  pub widen : F → D
  pub narrow : D → F
