-- ===== src/Dsp/History/Unroll.antt =====
-- Where a stored sample appears in the unrolled history.
use native.Mathlib.Nat.{
  mod-eq_of_lt, mod-lt, mod-add-mod, add-mod-mod, mod-eq-sub-mod, add-mod_right, mod_self,
}
use listeningway.Prelude.{
  ℕ, suc, ◌+◌, ◌-◌, ◌%◌, ◌≤◌, ◌<◌, ◌≡◌, sym, ap, ◌∙◌, ◌≢◌, inl, inr, Option, some, arith, ltb,
  ltb→lt, Bool-cases, length, get_elem?, length-set, get_elem?-set, get_elem?-set_ne,
  get_elem?-tabulate, get_or-get_elem?,
}
use listeningway.Dsp.History.{History, store, unroll}

-- A slot less than a full turn ahead of the head is another slot.
turn_ne : (n h i : ℕ) → h < n → suc i < n → (h + suc i) % n ≢ h
turn_ne n h i p q e = elim (Bool-cases (ltb (h + suc i) n)) [
  | inl b ↦ absurd (omega (arith, e, mod-eq_of_lt (ltb→lt (h + suc i) n b)))
  | inr b ↦
      let over : n ≤ h + suc i = ground (arith, b) in
      absurd (omega (arith, e, mod-eq-sub-mod over, mod-eq_of_lt (the_rest over)))
]
  where
    the_rest : n ≤ h + suc i → h + suc i - n < n
    the_rest o = omega arith

advance : (n h i : ℕ) → ((h + 1) % n + i) % n ≡ (h + suc i) % n
advance n h i = mod-add-mod (h + 1) n i ∙ ap (λ k. k % n) (omega arith)

full_turn : (n h i : ℕ) → h < n → suc i ≡ n → (h + suc i) % n ≡ h
full_turn n h i p e = ap (λ k. (h + k) % n) e ∙ add-mod_right h n ∙ mod-eq_of_lt p

module _ {A : Type 0} where
  abbrev pub IsValid : ℕ → History A → Type 0
  IsValid n h = (length h.ring ≡ n) × (h.head < n)

  -- The sample of age rank `i`: the oldest is at the head, where the next one is written.
  abbrev pub at_rank : ℕ → History A → ℕ → Option A
  at_rank n h i = get_elem? h.ring ((h.head + i) % n)

  pub store-IsValid : (n : ℕ) (h : History A) (a : A) → IsValid n h → IsValid n (store h n a)
  unfolding store
  store-IsValid n h a v =
      (length-set h.ring h.head a ∙ v.0, mod-lt (h.head + 1) (omega (arith, v.1)))

  -- Storing makes the oldest sample's slot the newest, and every other sample one rank older.
  pub at_rank-store :
      (n : ℕ) (h : History A) (a : A)
      → IsValid n h
      → ((i : ℕ) → suc i < n → at_rank n (store h n a) i ≡ at_rank n h (suc i))
        × ((i : ℕ) → suc i ≡ n → at_rank n (store h n a) i ≡ some a)
  unfolding store
  at_rank-store n h a v = (older, newest)
    where
      older : (i : ℕ) → suc i < n → at_rank n (store h n a) i ≡ at_rank n h (suc i)
      older i p = rw (advance n h.head i) (
          get_elem?-set_ne h.ring h.head ((h.head + suc i) % n) a
            (λ e. turn_ne n h.head i v.1 p (sym e)))

      newest : (i : ℕ) → suc i ≡ n → at_rank n (store h n a) i ≡ some a
      newest i e =
          rw (advance n h.head i, full_turn n h.head i v.1 e)
            (get_elem?-set h.ring h.head a (omega (arith, v.0, v.1)))

  -- The unrolled history starts at rank one: its last slot holds the oldest sample, rank zero.
  pub unroll-at_rank :
      (n : ℕ) (h : History A) (d : A)
      → IsValid n h
      → (i : ℕ) → i < n
      → get_elem? (unroll h n d) i ≡ at_rank n h ((1 + i) % n)
  unfolding unroll
  unroll-at_rank n h d v i p =
      let slot : (h.head + 1 + (0 + i)) % n ≡ (h.head + (1 + i) % n) % n =
        ap (λ k. k % n) (omega arith) ∙ sym (add-mod-mod h.head (1 + i) n) in
      let inside : (h.head + 1 + (0 + i)) % n < n =
        mod-lt (h.head + 1 + (0 + i)) (omega (arith, p)) in
      get_elem?-tabulate _ 0 n i p
      ∙ sym (get_or-get_elem? h.ring _ d (omega (arith, v.0, inside)))
      ∙ ap (get_elem? h.ring) slot

  -- In a history of `2 + n` slots with its head inside, after a sample is stored, the unrolled
  -- history holds that sample in the last slot but one, and in the last slot the oldest sample,
  -- which the next store overwrites.
  pub unroll-store :
      (n : ℕ) (h : History A) (a d : A)
      → IsValid (2 + n) h
      → (get_elem? (unroll (store h (2 + n) a) (2 + n) d) n ≡ some a)
        × (get_elem? (unroll (store h (2 + n) a) (2 + n) d) (1 + n) ≡ at_rank (2 + n) h 1)
  unroll-store n h a d v =
      let w = store-IsValid (2 + n) h a v in
      let kept = at_rank-store (2 + n) h a v in
      (
        unroll-at_rank (2 + n) (store h (2 + n) a) d w n (omega arith)
            ∙ ap (at_rank (2 + n) (store h (2 + n) a)) (mod-eq_of_lt (omega arith))
            ∙ kept.1 (1 + n) (omega arith),
        unroll-at_rank (2 + n) (store h (2 + n) a) d w (1 + n) (omega arith)
            ∙ ap (at_rank (2 + n) (store h (2 + n) a))
                (ap (λ k. k % (2 + n)) (omega arith) ∙ mod_self (2 + n))
            ∙ kept.0 0 (omega arith),
      )
