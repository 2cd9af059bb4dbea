-- ===== src/Dsp/Beat/BeatTracker/Beats.antt =====
-- src/audio/dsp/beat/beat_tracker.cpp: the counters keep running, and a beat always comes.
use listeningway.Prelude.{
  ℕ, ◌+◌, ◌≤◌, ◌<◌, ◌≡◌, refl, ap, ◌∙◌, inl, inr, true, arith, if◌then◌else◌, Bool-cases,
}
use listeningway.Prelude.Int.{pos, ◌-ℤ◌, ◌≤ℤ◌, ltb_ℤ}
use listeningway.Float.{Float}
use listeningway.Dsp.Beat.BeatTracker.{
  BeatTracker, predict_beat, add_score, maybe_predict, is_due, fire, process,
}
use listeningway.Dsp.Beat.BeatTracker.Counters.{
  IsRounding, IsBounded, IsCounting, positive, before_bound, period, round-period, add_score-period,
  hop_cases,
}

le_256 : (b : ℕ) → b < 256 → pos b ≤ℤ pos 256
le_256 b h = omega (arith, h)

module _ {F : Type 0} ⦃fl : Float F⦄ where
  maybe_predict-period : (s : BeatTracker F) → (maybe_predict s).beat_period ≡ s.beat_period
  unfolding maybe_predict predict_beat
  maybe_predict-period s = elim (Bool-cases (ltb_ℤ (pos 0) s.time_to_next_prediction)) [
    | inl e ↦ rw e refl
    | inr e ↦ rw e refl
  ]

module _ {F : Type 0} ⦃fl : Float F⦄ (rounding : IsRounding F) where
  -- What a hop leaves before a beat may fire.
  hop-bounds :
      (s : BeatTracker F) (v x : F)
      → fl.eq x x ≡ true
      → IsBounded s
      → ((maybe_predict (add_score s v x)).time_to_next_beat ≤ℤ pos 256)
        × ((p : ℕ) × (((maybe_predict (add_score s v x)).time_to_next_prediction ≡ pos p)
              × ((1 ≤ p) × (p ≤ 384))))
  hop-bounds s v x e (t_max, p_max) = elim (hop_cases rounding s v x e) [
    | inl (f, (t, p)) ↦
        let (k, (same, range)) =
          positive (s.time_to_next_prediction -ℤ pos 1) 384 f
            (before_bound s.time_to_next_prediction 384 p_max) in
        (rw t (before_bound s.time_to_next_beat 256 t_max), (k, (p ∙ same, range)))
    | inr (f, (b, (h, (t, (p, (b_lt, (h_low, h_high))))))) ↦
        (rw t (le_256 b b_lt), (b + h, (p, (omega arith, omega arith))))
  ]

  settle :
      (s : BeatTracker F) (x : F)
      → fl.eq x x ≡ true
      → s.beat_period ≡ period rounding x
      → s.time_to_next_beat ≤ℤ pos 256
      → ((p : ℕ) × ((s.time_to_next_prediction ≡ pos p) × ((1 ≤ p) × (p ≤ 384))))
      → IsCounting (if is_due s then fire s else s)
  unfolding fire
  settle s x e same t_max p = elim (Bool-cases (ltb_ℤ (pos 0) s.time_to_next_beat)) [
    | inl f ↦ rw f (positive s.time_to_next_beat 256 f t_max, p)
    | inr f ↦
        let (n, (rounded, (low, high))) = round-period rounding x e in
        rw f ((n, (ap (λ y. fl.to_int (fl.round y)) same ∙ rounded, (omega arith, high))), p)
  ]

  -- From counters within their bounds, as at the start, and with a period that is not NaN: after
  -- every hop, a beat or not, both counters run, with 1 to 256 hops to the next beat and 1 to 384 to
  -- the next prediction.
  pub process-IsCounting :
      (s : BeatTracker F) (v x : F) → fl.eq x x ≡ true → IsBounded s → IsCounting (process s v x).1
  unfolding process
  process-IsCounting s v x e bounds =
      let scored = maybe_predict (add_score s v x) in
      let same = maybe_predict-period (add_score s v x) ∙ add_score-period rounding s v x in
      let (t_max, p) = hop-bounds s v x e bounds in settle scored x e same t_max p
