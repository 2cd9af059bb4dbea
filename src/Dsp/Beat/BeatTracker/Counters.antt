-- ===== src/Dsp/Beat/BeatTracker/Counters.antt =====
-- src/audio/dsp/beat/beat_tracker.cpp: the two counters, how far they reach, and that beats go on.
use listeningway.Prelude.{
  ℕ, ◌+◌, ◌*◌, ◌^◌, ◌≤◌, ◌<◌, ◌≡◌, refl, ap, ◌∙◌, ◌⊎◌, inl, inr, true, false, arith, Bool-cases,
  get_or,
}
use listeningway.Prelude.Int.{ℤ, pos, negsuc, ◌+ℤ◌, ◌-ℤ◌, ◌≤ℤ◌, ltb_ℤ}
use listeningway.Float.{Float, ◌⊗◌, lit, zero_f, clamp_f}
use listeningway.Dsp.Beat.{argmax_from_lt}
use listeningway.Dsp.Beat.BeatTracker.{
  BeatTracker, buffer_size, future_score, expectation, beat_window, best_beat, predict_beat,
  add_score, maybe_predict,
}

-- `int(std::round(x))` of a number between two small integers, and of its half; the half of an even
-- constant is exact. A number is its own equal, and NaN is not.
pub record IsRounding (F : Type 0) ⦃fl : Float F⦄ : Type 0 where
  pub half : (n : ℕ) → n < 2 ^ 23 → fl.mul (fl.lit (2 * n) 1) (fl.lit 5 10) ≡ fl.lit n 1
  pub round_clamp :
      (x : F) (a b : ℕ)
      → a ≤ b
      → b < 2 ^ 23
      → fl.eq x x ≡ true
      → (n : ℕ) × ((fl.to_int (fl.round (clamp_f x (fl.lit a 1) (fl.lit b 1))) ≡ pos n)
          × ((a ≤ n) × (n ≤ b)))
  pub round_half :
      (x : F) (a b : ℕ)
      → a ≤ b
      → b < 2 ^ 23
      → fl.eq x x ≡ true
      → (n : ℕ) × ((fl.to_int
              (fl.round (fl.mul (clamp_f x (fl.lit a 1) (fl.lit b 1)) (fl.lit 5 10)))
            ≡ pos n)
          × ((a ≤ 2 * n + 1) × (2 * n ≤ b + 1)))

-- The counters are at most what a prediction can set.
abbrev pub IsBounded : {F : Type 0} → BeatTracker F → Type 0
IsBounded s = (s.time_to_next_beat ≤ℤ pos 256) × (s.time_to_next_prediction ≤ℤ pos 384)

-- Both counters run: from 1 to 256 hops to the next beat, from 1 to 384 to the next prediction.
abbrev pub IsCounting : {F : Type 0} → BeatTracker F → Type 0
IsCounting s =
    ((t : ℕ) × ((s.time_to_next_beat ≡ pos t) × ((1 ≤ t) × (t ≤ 256))))
    × ((p : ℕ) × ((s.time_to_next_prediction ≡ pos p) × ((1 ≤ p) × (p ≤ 384))))

pub positive :
    (a : ℤ) (n : ℕ)
    → ltb_ℤ (pos 0) a ≡ true
    → a ≤ℤ pos n
    → (k : ℕ) × ((a ≡ pos k) × ((1 ≤ k) × (k ≤ n)))
positive (pos k) n h b = (k, (refl, (ground (arith, h), omega (arith, b))))
positive (negsuc k) n h b = absurd (ground (arith, h))

add_pos : (a b : ℕ) → pos a +ℤ pos b ≡ pos (a + b)
add_pos a b = ground arith

pub before_bound : (a : ℤ) (n : ℕ) → a ≤ℤ pos n → (a -ℤ pos 1) ≤ℤ pos n
before_bound (pos k) n b = ground (arith, b)
before_bound (negsuc k) n b = ground (arith, b)

module _ {F : Type 0} ⦃fl : Float F⦄ (rounding : IsRounding F) where
  -- The period that a hop uses.
  abbrev pub period : F → F
  period x = clamp_f x (lit 10 1) (lit 512 1 ⊗ lit 5 10)

  pub round-period :
      (x : F)
      → fl.eq x x ≡ true
      → (n : ℕ) × ((fl.to_int (fl.round (period x)) ≡ pos n) × ((10 ≤ n) × (n ≤ 256)))
  round-period x e =
      rw (rounding.half 256 (omega arith))
        (rounding.round_clamp x 10 256 (omega arith) (omega arith) e)

  round-half_period :
      (x : F)
      → fl.eq x x ≡ true
      → (n : ℕ) × ((fl.to_int (fl.round (period x ⊗ lit 5 10)) ≡ pos n) × ((5 ≤ n) × (n ≤ 128)))
  round-half_period x e =
      let (n, (same, (low, high))) = rounding.round_half x 10 256 (omega arith) (omega arith) e in
      rw (rounding.half 256 (omega arith)) (n, (same, (omega (arith, low), omega (arith, high))))

  window_le :
      (s : BeatTracker F) (x : F)
      → fl.eq x x ≡ true
      → s.beat_period ≡ period x
      → beat_window s.beat_period ≤ 256
  window_le s x e same =
      let (n, (rounded, (low, high))) = round-period x e in rw (same, rounded) (omega (arith, high))

  best_beat_lt :
      (s : BeatTracker F) (size : ℕ) → beat_window s.beat_period ≤ 256 → best_beat s size < 256
  unfolding best_beat
  best_beat_lt s size h =
      argmax_from_lt {F = F}
        (λ i. get_or (future_score s size) (buffer_size + i) zero_f ⊗ expectation s.beat_period i) 0
        (beat_window s.beat_period) zero_f 0 256 (omega arith) (omega (arith, h))

  -- A prediction at the period of a hop.
  predict_beat_lem :
      (s : BeatTracker F) (x : F)
      → fl.eq x x ≡ true
      → s.beat_period ≡ period x
      → (b : ℕ) × ((h : ℕ) × (((predict_beat s).time_to_next_beat ≡ pos b)
            × (((predict_beat s).time_to_next_prediction ≡ pos (b + h))
                × ((b < 256) × ((5 ≤ h) × (h ≤ 128))))))
  unfolding predict_beat
  predict_beat_lem s x e same =
      let (h, (rounded, (low, high))) = round-half_period x e in
      let b = best_beat s _ in
      (
        b,
        (
          h,
          (
            refl,
            (
              ap (λ y. pos b +ℤ fl.to_int (fl.round (y ⊗ lit 5 10))) same
                  ∙ ap (λ z. pos b +ℤ z) rounded
                  ∙ add_pos b h,
              (best_beat_lt s _ (window_le s x e same), (low, high)),
            ),
          ),
        ),
      )

  pub add_score-period : (s : BeatTracker F) (v x : F) → (add_score s v x).beat_period ≡ period x
  unfolding add_score
  add_score-period s v x = refl

  pub hop_cases :
      (s : BeatTracker F) (v x : F)
      → fl.eq x x ≡ true
      → ((ltb_ℤ (pos 0) (s.time_to_next_prediction -ℤ pos 1) ≡ true)
          × (((maybe_predict (add_score s v x)).time_to_next_beat ≡ s.time_to_next_beat -ℤ pos 1)
              × ((maybe_predict (add_score s v x)).time_to_next_prediction
                  ≡ s.time_to_next_prediction -ℤ pos 1)))
        ⊎ ((ltb_ℤ (pos 0) (s.time_to_next_prediction -ℤ pos 1) ≡ false)
            × ((b : ℕ) × ((h : ℕ) × (((maybe_predict (add_score s v x)).time_to_next_beat ≡ pos b)
                    × (((maybe_predict (add_score s v x)).time_to_next_prediction ≡ pos (b + h))
                        × ((b < 256) × ((5 ≤ h) × (h ≤ 128))))))))
  unfolding maybe_predict add_score
  hop_cases s v x e = elim (Bool-cases (ltb_ℤ (pos 0) (s.time_to_next_prediction -ℤ pos 1))) [
    | inl f ↦ inl (f, rw f (refl, refl))
    | inr f ↦ inr (f, rw f (predict_beat_lem (add_score s v x) x e (add_score-period s v x)))
  ]
