-- ===== src/Dsp/OdfBuffer/Recent.antt =====
-- The onset buffer holds the newest samples: the window it gives is the end of what was pushed.
use native.Mathlib.Nat.{mod-lt}
use listeningway.Prelude.{
  ℕ, zero, suc, ◌+◌, ◌-◌, ◌%◌, ◌≤◌, ◌<◌, min, ◌≡◌, refl, sym, ap, ◌∙◌, ◌≢◌, ◌↔◌, ◌⊎◌, inl, inr,
  true, false, not, ◌||◌, some, List, [], ◌∷◌, arith, ltb, ◌==◌, if◌then◌else◌, Bool-cases, length,
  get_elem?, set, length-set, length-replicate, length-tabulate, get_elem?-set, get_elem?-set_ne,
  get_elem?-tabulate, get_or-get_elem?,
}
use listeningway.Float.{Float, zero_f}
use listeningway.Dsp.OdfBuffer.{
  OdfBuffer, capacity, make, push, linearise, snapshot_length, available, wanted, snapshot_to,
}

module _ {F : Type 0} ⦃fl : Float F⦄ where
  -- The pushes of a list whose first element is the newest.
  abbrev pub push_all : List F → OdfBuffer F
  push_all [] = make
  push_all (x ∷ xs) = push (push_all xs) x

  -- The buffer against the list of all that was pushed, newest first.
  abbrev pub Holds : OdfBuffer F → List F → Type 0
  Holds b xs =
      (length b.ring ≡ capacity)
      × (b.head < capacity)
      × (b.size ≡ min (length xs) capacity)
      × ((j : ℕ)
          → j < b.size
          → get_elem? b.ring ((b.head + capacity - 1 - j) % capacity) ≡ get_elem? xs j)

  push-Holds : (b : OdfBuffer F) (xs : List F) (x : F) → Holds b xs → Holds (push b x) (x ∷ xs)
  unfolding push
  push-Holds b xs x (len, inside, count, old) = (
    length-set b.ring b.head x ∙ len,
    mod-lt (b.head + 1) (omega arith),
    ground (arith, count),
    kept,
  )
    where
      newest :
          get_elem? (set b.ring b.head x) (((b.head + 1) % capacity + capacity - 1 - 0) % capacity)
          ≡ some x
      newest = rw (slot) (get_elem?-set b.ring b.head x (omega (arith, len, inside)))
        where
          slot : ((b.head + 1) % capacity + capacity - 1 - 0) % capacity ≡ b.head
          slot = omega (arith, inside)

      kept :
          (j : ℕ)
          → j < (if ltb b.size capacity then b.size + 1 else b.size)
          → get_elem?
              (set b.ring b.head x)
              (((b.head + 1) % capacity + capacity - 1 - j) % capacity)
            ≡ get_elem? (x ∷ xs) j
      kept zero h = newest
      kept (suc j) h =
          let bound : j < b.size = ground (arith, h) in
          let low : j < 1023 = ground (arith, h, count) in
          let slot : ((b.head + 1) % capacity + capacity - 1 - suc j) % capacity
              ≡ (b.head + capacity - 1 - j) % capacity =
            omega (arith, inside, low) in
          let other : b.head ≢ (b.head + capacity - 1 - j) % capacity =
            λ e. absurd (omega (arith, inside, low, e)) in
          rw slot (
            get_elem?-set_ne b.ring b.head ((b.head + capacity - 1 - j) % capacity) x other
            ∙ old j bound)

  pub push_all-Holds : (xs : List F) → Holds (push_all xs) xs
  unfolding make
  push_all-Holds [] = (refl, omega arith, refl, λ j h. absurd (omega arith))
  push_all-Holds (x ∷ xs) = push-Holds (push_all xs) xs x (push_all-Holds xs)

  -- However many samples were pushed, the window of the newest `k`, at most as many as are valid,
  -- holds them in the order of time: its last element is the newest.
  pub linearise_recent :
      (xs : List F) (k i : ℕ)
      → k ≤ (push_all xs).size
      → i < k
      → get_elem? (linearise (push_all xs) k) i ≡ get_elem? xs (k - 1 - i)
  unfolding linearise
  linearise_recent xs k i h p =
      let b = push_all xs in
      let held = push_all-Holds xs in
      let slot : ((b.head + capacity - k) % capacity + (0 + i)) % capacity
          ≡ (b.head + capacity - 1 - (k - 1 - i)) % capacity =
        omega (arith, h, p, held.1, held.2) in
      let inside : ((b.head + capacity - k) % capacity + (0 + i)) % capacity < length b.ring =
        omega (arith, held.0) in
      get_elem?-tabulate _ 0 k i p
      ∙ sym (get_or-get_elem? b.ring _ zero_f inside)
      ∙ ap (get_elem? b.ring) slot
      ∙ held.3 (k - 1 - i) (omega (arith, h, p))

module _ {F : Type 0} ⦃fl : Float F⦄ where
  -- The window is called ready when `out` has 512 places, the rate is above zero, and the buffer
  -- covers one sample exactly, or at least 256. In every case `out` keeps its length.
  pub snapshot_to_ready :
      (b : OdfBuffer F) (n : ℕ) (hop : F)
      → (((snapshot_to b n hop).0 ≡ true)
          ↔ (n ≡ snapshot_length)
            × (fl.le hop zero_f ≡ false)
            × ((available b hop ≡ 1) ⊎ (256 ≤ available b hop)))
        × (length (snapshot_to b n hop).1 ≡ n)
  unfolding snapshot_to
  snapshot_to_ready b n hop =
      elim (Bool-cases
        (not (n == snapshot_length) || fl.le hop zero_f || (wanted hop == 0 || b.size == 0))) [
          | inl e ↦
              rw (e, snapshot_to)
                ((λ h. ground (arith, e, h), λ h. ground (arith, e, h)), length-replicate n zero_f)
          | inr e ↦ elim (Bool-cases (available b hop == 1)) [
            | inl one ↦
                rw (e, one, snapshot_to)
                  ((λ h. ground (arith, e, one), λ h. refl), length-replicate n _)
            | inr more ↦
                rw (e, more, snapshot_to)
                  (
                    (λ h. ground (arith, e, more, h), λ h. ground (arith, e, more, h)),
                    length-tabulate _ 0 n,
                  )
          ]
        ]
