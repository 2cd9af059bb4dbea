-- ===== src/Snapshot/Agreement.antt =====
-- Lists of words that agree up to an index, as a copy under way does with its source.
use listeningway.Prelude.{
  ℕ, zero, suc, ◌<◌, ◌≡◌, refl, sym, some, List, [], ◌∷◌, arith, length, get_elem?, set,
}

module _ {V : Type 0} where
  -- Two lists agree below `i`.
  abbrev pub Agree : ℕ → List V → List V → Type 0
  Agree i xs ys = (j : ℕ) → j < i → get_elem? xs j ≡ get_elem? ys j

  pub Agree-eq : (xs ys : List V) → length xs ≡ length ys → Agree (length ys) xs ys → xs ≡ ys
  Agree-eq [] [] e a = refl
  Agree-eq [] (y ∷ ys) e a = absurd (omega arith)
  Agree-eq (x ∷ xs) [] e a = absurd (omega arith)
  Agree-eq (x ∷ xs) (y ∷ ys) e a =
      let tails = Agree-eq xs ys (omega arith) (λ j h. a (suc j) (omega arith)) in
      let heads = a 0 (omega arith) in cc

  -- The new word extends the agreement.
  pub Agree-set :
      (xs ys : List V) (i : ℕ) (v : V)
      → Agree i xs ys
      → get_elem? ys i ≡ some v
      → i < length xs
      → Agree (suc i) (set xs i v) ys
  Agree-set [] ys i v a e h = elim h [ ]
  Agree-set (x ∷ xs) [] i v a e h = cc
  Agree-set (x ∷ xs) (y ∷ ys) zero v a e h = λ j.
      elim j as (λ j. j < 1 → get_elem? (v ∷ xs) j ≡ get_elem? (y ∷ ys) j) [
        | zero ↦ λ b. sym e
        | suc j ↦ λ b. absurd (omega arith)
      ]
  Agree-set (x ∷ xs) (y ∷ ys) (suc i) v a e h =
      let rest = Agree-set xs ys i v (λ j b. a (suc j) (omega arith)) e (omega arith) in
      λ j. elim j as (λ j. j < suc (suc i) → get_elem? (x ∷ set xs i v) j ≡ get_elem? (y ∷ ys) j) [
        | zero ↦ λ b. a 0 (omega arith)
        | suc j ↦ λ b. rest j (omega arith)
      ]

  pub get_elem?-some : (xs : List V) (i : ℕ) (v : V) → get_elem? xs i ≡ some v → i < length xs
  get_elem?-some [] i v e = cc
  get_elem?-some (x ∷ xs) zero v e = omega arith
  get_elem?-some (x ∷ xs) (suc i) v e = omega (arith, get_elem?-some xs i v e)
