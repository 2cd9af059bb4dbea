-- ===== src/Dsp/Beat/CombTempo/Bounds.antt =====
-- src/audio/dsp/beat/comb_tempo.cpp: what an estimate can be.
use listeningway.Prelude.{
  ℕ, zero, suc, ◌+◌, ◌-◌, ◌*◌, ◌≤◌, ◌<◌, ◌≡◌, refl, ◌≢◌, ◌⊎◌, inl, inr, false, List, [], ◌∷◌, arith,
  ◌==◌, ==_iff, Bool-cases, length, get_or, All, length-tabulate, All-tabulate,
}
use listeningway.Float.{
  Float, IsOrdered, Within, ◌≺◌, lit, zero_f, one_f, clamp_f-Within, max_f-left,
}
use listeningway.Dsp.Beat.{argmax_from_lt}
use listeningway.Dsp.Beat.CombTempo.{
  CombTempo, Fft, odf_length, num_tempo_states, sum_list, thresholds, above, adaptive_threshold,
  argmax, confidence, decide, observe, estimate, comb_index,
}

-- No harmonic of a lag reads outside the autocorrelation, so that the guard never skips one.
pub comb_index-InRange :
    (i a c : ℕ)
    → 2 ≤ i
    → i ≤ 127
    → 1 ≤ a
    → a ≤ 4
    → c < 2 * a - 1
    → (1 ≤ comb_index i a c) × (comb_index i a c < odf_length)
comb_index-InRange i zero c i2 i127 a1 a4 hc = absurd (omega arith)
comb_index-InRange i (suc zero) c i2 i127 a1 a4 hc = (omega arith, omega arith)
comb_index-InRange i (suc (suc zero)) c i2 i127 a1 a4 hc = (omega arith, omega arith)
comb_index-InRange i (suc (suc (suc zero))) c i2 i127 a1 a4 hc = (omega arith, omega arith)
comb_index-InRange i (suc (suc (suc (suc zero)))) c i2 i127 a1 a4 hc = (omega arith, omega arith)
comb_index-InRange i (suc (suc (suc (suc (suc a))))) c i2 i127 a1 a4 hc = absurd (omega arith)

module _ {F : Type 0} ⦃fl : Float F⦄ where
  -- The estimate is one of the tempo states, 80 to 160 in steps of two. The confidence is neither below
  -- 0 nor above 1, and it is 0 where the observations sum to no more than the least that is divided by.
  abbrev pub IsEstimate : CombTempo F → Type 0
  IsEstimate s =
      ((k : ℕ) × ((k < num_tempo_states) × (s.last_bpm ≡ fl.of_nat (2 * k + 80))))
      × (Within zero_f one_f s.last_confidence
          × ((lit 1 1_000_000_000_000 ≺ sum_list zero_f s.tempo_obs) ≡ false
              → s.last_confidence ≡ zero_f))

  argmax_lt : (delta : List F) → argmax delta < num_tempo_states
  unfolding argmax
  argmax_lt delta =
      argmax_from_lt (λ k. get_or delta k zero_f) 1 40 (get_or delta 0 zero_f) 0 41 (omega arith)
        (omega arith)

  decide-delta : (s : CombTempo F) → (decide s).prev_delta ≡ (decide s).delta
  unfolding decide
  decide-delta s = refl

module _ {F : Type 0} ⦃fl : Float F⦄ (laws : IsOrdered F) where
  confidence-Within : (tempo_obs : List F) (k : ℕ) → Within zero_f one_f (confidence tempo_obs k)
  unfolding confidence
  confidence-Within tempo_obs k =
      let sum = sum_list zero_f tempo_obs in
      let high = laws.lit_ge 1 1 0 1 (omega arith) (omega arith) (omega arith) in
      elim (Bool-cases (lit 1 1_000_000_000_000 ≺ sum)) [
        | inl e ↦ rw e (clamp_f-Within laws _ zero_f one_f high)
        | inr e ↦ rw e (laws.lt_irrefl zero_f, high)
      ]

  confidence_silent :
      (tempo_obs : List F) (k : ℕ)
      → (lit 1 1_000_000_000_000 ≺ sum_list zero_f tempo_obs) ≡ false
      → confidence tempo_obs k ≡ zero_f
  unfolding confidence
  confidence_silent tempo_obs k e = rw e refl

  decide-IsEstimate : (s : CombTempo F) → IsEstimate (decide s)
  unfolding decide
  decide-IsEstimate s =
      let k = argmax s.delta in
      (
        (k, (argmax_lt s.delta, refl)),
        (confidence-Within s.tempo_obs k, confidence_silent s.tempo_obs k),
      )

  -- Under the laws of IEEE comparison: a window that is not of 512 onsets leaves everything as it
  -- was; any other yields a tempo of 80 to 160 in steps of two, with a confidence that is neither
  -- below 0 nor above 1 and is 0 where the sum of the observations is not above 1e-12, and the
  -- scores become the previous scores of the next estimate.
  pub estimate_cases :
      (fft : Fft F) (s : CombTempo F) (odf : List F)
      → ((length odf ≢ odf_length) × (estimate fft s odf ≡ s))
        ⊎ ((length odf ≡ odf_length)
            × (IsEstimate (estimate fft s odf)
                × ((estimate fft s odf).prev_delta ≡ (estimate fft s odf).delta)))
  unfolding estimate
  estimate_cases fft s odf = elim (Bool-cases (length odf == odf_length)) [
    | inl e ↦ inr (
      (==_iff (length odf) odf_length).0 e,
      rw e (decide-IsEstimate (observe fft s odf), decide-delta (observe fft s odf)),
    )
    | inr e ↦ inl (λ p. absurd (ground (arith, p, e)), rw e refl)
  ]

  -- The threshold keeps the length, and leaves no value below zero.
  pub adaptive_threshold_lem :
      (x : List F)
      → (length (adaptive_threshold x) ≡ length x)
        × All (λ v. (v ≺ zero_f) ≡ false) (adaptive_threshold x)
  unfolding adaptive_threshold
  adaptive_threshold_lem [] = (refl, tt)
  adaptive_threshold_lem (v ∷ x) =
      let threshold = thresholds (v ∷ x) in
      let n = length (v ∷ x) in
      (
        length-tabulate (above (v ∷ x) threshold) 0 n,
        All-tabulate (λ w. (w ≺ zero_f) ≡ false) (above (v ∷ x) threshold) 0 n
            (λ k. max_f-left laws zero_f _),
      )
