-- ===== src/Dsp/Beat/BeatTracker/Liveness.antt =====
-- src/audio/dsp/beat/beat_tracker.cpp: a beat comes within a bounded number of hops.
use listeningway.Prelude.{
  ℕ, suc, ◌+◌, ◌-◌, ◌≤◌, ◌≡◌, refl, sym, ap, ◌∙◌, inl, inr, Bool, true, false, not, ◌||◌, List, [],
  ◌∷◌, arith, ltb, if◌then◌else◌, Bool-cases, length, All,
}
use listeningway.Prelude.Int.{pos, ◌-ℤ◌, ltb_ℤ}
use listeningway.Float.{Float}
use listeningway.Dsp.Beat.BeatTracker.{BeatTracker, add_score, maybe_predict, is_due, process}
use listeningway.Dsp.Beat.BeatTracker.Counters.{IsRounding, IsCounting, hop_cases}

-- The hops that are left at most: to the beat when it is due before the next prediction, else to the
-- prediction and the beat after it.
abbrev pub hops_left : ℕ → ℕ → ℕ
hops_left t p = if ltb t p then t else p + 256

dec_pos : (k : ℕ) → 1 ≤ k → pos k -ℤ pos 1 ≡ pos (k - 1)
dec_pos k h = ground (arith, h)

not_due : (k : ℕ) → not (ltb_ℤ (pos 0) (pos k)) ≡ false → 1 ≤ k
not_due k h = ground (arith, h)

ltb_pos : (k : ℕ) → ltb_ℤ (pos 0) (pos k) ≡ true → 1 ≤ k
ltb_pos k h = ground (arith, h)

ltb_pos_not : (k : ℕ) → ltb_ℤ (pos 0) (pos k) ≡ false → k ≡ 0
ltb_pos_not k h = ground (arith, h)

-- Counters that run, with `n` hops left at most.
abbrev pub Left : {F : Type 0} → BeatTracker F → ℕ → Type 0
Left s n =
    (t : ℕ) × ((p : ℕ) × ((s.time_to_next_beat ≡ pos t)
        × ((s.time_to_next_prediction ≡ pos p) × ((1 ≤ t) × ((1 ≤ p) × (hops_left t p ≤ n))))))

module _ {F : Type 0} ⦃fl : Float F⦄ where
  -- Whether a beat fires on one of the hops, each an onset value and a period.
  abbrev pub fires : BeatTracker F → List (F × F) → Bool
  fires s [] = false
  fires s (hop ∷ hops) = let r = process s hop.0 hop.1 in r.0 || fires r.1 hops

  process-silent :
      (s : BeatTracker F) (v x : F)
      → (process s v x).0 ≡ false
      → (is_due (maybe_predict (add_score s v x)) ≡ false)
        × ((process s v x).1 ≡ maybe_predict (add_score s v x))
  unfolding process
  process-silent s v x e = (e, rw e refl)

module _ {F : Type 0} ⦃fl : Float F⦄ (rounding : IsRounding F) where
  silent-Left :
      (s : BeatTracker F) (v x : F) (n : ℕ)
      → fl.eq x x ≡ true
      → Left s (suc n)
      → (process s v x).0 ≡ false
      → Left (process s v x).1 n
  silent-Left s v x n e (t, (p, (ts, (ps, (t1, (p1, left)))))) quiet =
      let (due, same) = process-silent s v x quiet in
      elim (hop_cases rounding s v x e) [
        | inl (f, (t_next, p_next)) ↦
            let t_dec = t_next ∙ ap (λ a. a -ℤ pos 1) ts ∙ dec_pos t t1 in
            let p_dec = p_next ∙ ap (λ a. a -ℤ pos 1) ps ∙ dec_pos p p1 in
            let t_pos = not_due (t - 1) (sym (ap (λ a. not (ltb_ℤ (pos 0) a)) t_dec) ∙ due) in
            let p_pos =
              ltb_pos (p - 1)
                (sym (ap (λ a. ltb_ℤ (pos 0) a) (ap (λ a. a -ℤ pos 1) ps ∙ dec_pos p p1)) ∙ f) in
            rw same
              (t - 1, (p - 1, (t_dec, (p_dec, (t_pos, (p_pos, ground (arith, left, t1, p1)))))))
        | inr (f, (b, (h, (t_next, (p_next, (b_lt, (h_low, h_high))))))) ↦
            let b_pos = not_due b (sym (ap (λ a. not (ltb_ℤ (pos 0) a)) t_next) ∙ due) in
            let p_last =
              ltb_pos_not (p - 1)
                (sym (ap (λ a. ltb_ℤ (pos 0) a) (ap (λ a. a -ℤ pos 1) ps ∙ dec_pos p p1)) ∙ f) in
            rw same (
              b,
              (
                b + h,
                (
                  t_next,
                  (
                    p_next,
                    (b_pos, (omega arith, ground (arith, left, t1, p1, p_last, b_lt, h_low))),
                  ),
                ),
              ),
            )
      ]

  fires_in_time :
      (s : BeatTracker F) (hops : List (F × F))
      → All (λ hop. fl.eq hop.1 hop.1 ≡ true) hops
      → Left s (length hops)
      → fires s hops ≡ true
  fires_in_time s [] real (t, (p, (ts, (ps, (t1, (p1, left)))))) = absurd (ground (arith, t1, left))
  fires_in_time s (hop ∷ hops) (e, real) left = elim (Bool-cases (process s hop.0 hop.1).0) [
    | inl f ↦ rw f refl
    | inr f ↦ rw f (
        fires_in_time (process s hop.0 hop.1).1 hops real
          (silent-Left s hop.0 hop.1 (length hops) e left f))
  ]

  -- While the counters run and no period is NaN, 640 hops in a row always hold a beat, whatever the
  -- onsets and the periods are.
  pub beat_within :
      (s : BeatTracker F) (hops : List (F × F))
      → IsCounting s
      → All (λ hop. fl.eq hop.1 hop.1 ≡ true) hops
      → 640 ≤ length hops
      → fires s hops ≡ true
  beat_within s hops ((t, (ts, (t1, t_max))), (p, (ps, (p1, p_max)))) real long =
      fires_in_time s hops real (t, (p, (ts, (ps, (t1, (p1, ground (arith, long, t_max, p_max)))))))
