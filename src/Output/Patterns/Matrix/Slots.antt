-- ===== src/Output/Patterns/Matrix/Slots.antt =====
-- The slots of the waterfall's ring, from one frame to the next.
use native.Mathlib.Nat.{mod-eq_of_lt, add-mod_right, mod_self}
use listeningway.Prelude.{
  ℕ, suc, ◌+◌, ◌-◌, ◌%◌, ◌≤◌, ◌<◌, ◌≡◌, sym, ap, ◌∙◌, ◌≢◌, inl, inr, arith, ltb, ltb→lt, tests,
  Bool-cases, ◌%◌,
}

-- The slot a row back from the next head is the slot of the row above, back from this head.
pub slot_step :
    (head size j : ℕ)
    → head < size
    → suc j < size
    → ((head + 1) % size + size - suc j) % size ≡ (head + size - j) % size
slot_step head size j h k = elim (Bool-cases (ltb (head + 1) size)) [
  | inl e ↦
      let next = mod-eq_of_lt {n = head + 1} {m = size} (ltb→lt (head + 1) size e) in
      rw next (ap (λ n. n % size) (omega arith))
  | inr e ↦
      let last : head + 1 ≡ size = ground (arith, e) in
      let next : (head + 1) % size ≡ 0 = rw last (mod_self size) in
      let before = mod-eq_of_lt {n = 0 + size - suc j} {m = size} (omega arith) in
      let around : head + size - j ≡ (0 + size - suc j) + size = omega (arith, last) in
      rw (next, around) (sym (add-mod_right (0 + size - suc j) size))
]

-- The next head is not a slot that the new frame reads for an older row.
pub slot_ne :
    (head size j : ℕ) → head < size → suc j < size → (head + 1) % size ≢ (head + size - j) % size
slot_ne head size j h k = elim (Bool-cases (ltb (head + 1) size)) [
  | inl e ↦
      let small = ltb→lt (head + 1) size e in
      let next = mod-eq_of_lt {n = head + 1} {m = size} small in
      elim (Bool-cases (ltb head j)) [
        | inl f ↦
            let wrapped = mod-eq_of_lt {n = head + size - j} {m = size} (omega (tests, f)) in
            λ p. absurd (omega (tests, f, next, wrapped, p))
        | inr f ↦
            let back : j ≤ head = ground (arith, f) in
            let split : head + size - j ≡ (head - j) + size = omega (arith, back) in
            let direct =
              ap (λ n. n % size) split
              ∙ add-mod_right (head - j) size
              ∙ mod-eq_of_lt {n = head - j} {m = size} (omega arith) in
            λ p. absurd (omega (arith, next, direct, p))
      ]
  | inr e ↦
      let last : head + 1 ≡ size = ground (arith, e) in
      let next : (head + 1) % size ≡ 0 = rw last (mod_self size) in
      let around : head + size - j ≡ (size - suc j) + size = omega (arith, last) in
      let direct =
        ap (λ n. n % size) around
        ∙ add-mod_right (size - suc j) size
        ∙ mod-eq_of_lt {n = size - suc j} {m = size} (omega arith) in
      λ p. absurd (omega (arith, next, direct, p))
]
