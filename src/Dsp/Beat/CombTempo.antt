-- ===== src/Dsp/Beat/CombTempo.antt =====
-- src/audio/dsp/beat/comb_tempo.h and comb_tempo.cpp: the tempo of a window of onsets. The two
-- transforms of kiss_fft are a parameter, on lists of real and imaginary parts.
pub mod Bounds
use listeningway.Prelude.{
  ℕ, zero, suc, ◌+◌, ◌-◌, ◌*◌, min, max, not, ◌||◌, List, [], ◌∷◌, map, leb, ◌==◌, if◌then◌else◌,
  length, get_or, set, take, drop, replicate, tabulate, for_range, drop,
}
use listeningway.Prelude.Int.{pos_part}
use listeningway.Float.{Float, ◌⊕◌, ◌⊖◌, ◌⊗◌, ◌⊘◌, ◌≺◌, lit, zero_f, one_f, max_f, clamp_f}
use listeningway.Dsp.Beat.{argmax_from}

pub record Fft (F : Type 0) : Type 0 where
  pub forward : List (F × F) → List (F × F)
  pub inverse : List (F × F) → List (F × F)

abbrev pub odf_length : ℕ
odf_length = 512

abbrev pub fft_length : ℕ
fft_length = 1024

abbrev pub comb_output_size : ℕ
comb_output_size = 128

abbrev pub num_tempo_states : ℕ
num_tempo_states = 41

pub record CombTempo (F : Type 0) : Type 0 where
  pub threshed_odf : List F
  pub acf : List F
  pub comb : List F
  pub tempo_obs : List F
  pub prev_delta : List F
  pub delta : List F
  pub last_bpm : F
  pub last_confidence : F
  pub last_beat_period_samples : F

-- The lag `a * i + b - 1`, where `b` is `c` steps above `1 - a`.
abbrev pub comb_index : ℕ → ℕ → ℕ → ℕ
comb_index i a c = a * i + c - a

module _ {F : Type 0} ⦃fl : Float F⦄ where
  abbrev pub make : CombTempo F
  make = record {
    threshed_odf = replicate odf_length zero_f;
    acf = replicate odf_length zero_f;
    comb = replicate comb_output_size zero_f;
    tempo_obs = replicate num_tempo_states zero_f;
    prev_delta = replicate num_tempo_states one_f;
    delta = replicate num_tempo_states zero_f;
    last_bpm = zero_f;
    last_confidence = zero_f;
    last_beat_period_samples = zero_f;
  }

  abbrev pub reset : CombTempo F → CombTempo F
  reset s = record {
    threshed_odf = map (λ x. zero_f) s.threshed_odf;
    acf = map (λ x. zero_f) s.acf;
    comb = map (λ x. zero_f) s.comb;
    tempo_obs = map (λ x. zero_f) s.tempo_obs;
    prev_delta = map (λ x. one_f) s.prev_delta;
    delta = map (λ x. zero_f) s.delta;
    last_bpm = zero_f;
    last_confidence = zero_f;
    last_beat_period_samples = zero_f;
  }

  -- The Rayleigh prior, and the transition between two tempo states, as the constructor tabulates
  -- them.
  abbrev pub rayleigh : ℕ → F
  rayleigh n =
      let beta_sq = lit 43 1 ⊗ lit 43 1 in
      let nf = fl.of_nat n in (nf ⊘ beta_sq) ⊗ fl.exp (fl.neg (nf ⊗ nf) ⊘ (lit 2 1 ⊗ beta_sq))

  abbrev pub transition : ℕ → ℕ → F
  transition i j =
      let sigma = lit 41 8 in
      let two_pi = lit 6_283_185_307 1_000_000_000 in
      let dx = fl.of_nat j ⊖ fl.of_nat i in
      let norm_factor = one_f ⊘ (sigma ⊗ fl.sqrt two_pi) in
      norm_factor ⊗ fl.exp (fl.neg (dx ⊗ dx) ⊘ (lit 2 1 ⊗ (sigma ⊗ sigma)))

  abbrev pub sum_list : F → List F → F
  sum_list sum [] = sum
  sum_list sum (x ∷ xs) = sum_list (sum ⊕ x) xs

  abbrev pub window_mean : List F → ℕ → ℕ → F
  window_mean x lo hi0 =
      let hi = min (length x) hi0 in
      if leb hi lo
      then zero_f
      else sum_list zero_f (take (hi - lo) (drop lo x)) ⊘ fl.of_nat (hi - lo)

  -- The three loops that fill `threshold`; the first also writes at index `n` when `n` is from 1 to
  -- 7, past the end of the vector, which the model leaves out.
  unfoldable pub thresholds : List F → List F
  thresholds x =
      let n = length x in
      let t = min n 7 in
      let head =
        for_range 0 (t + 1) (λ i xs. set xs i (window_mean x 0 (min (i + 8) n)))
          (replicate n zero_f) in
      let body =
        for_range (t + 1) (n - 7 - (t + 1)) (λ i xs. set xs i (window_mean x (i - 8) (i + 7)))
          head in
      for_range (n - 7) (n - (n - 7)) (λ i xs. set xs i (window_mean x (i - 7) n)) body

  abbrev pub above : List F → List F → ℕ → F
  above x threshold i = max_f zero_f (get_or x i zero_f ⊖ get_or threshold i zero_f)

  unfoldable pub adaptive_threshold : List F → List F
  adaptive_threshold [] = []
  adaptive_threshold (v ∷ x) = tabulate (above (v ∷ x) (thresholds (v ∷ x))) 0 (length (v ∷ x))

  -- Squared magnitudes, as complex numbers.
  abbrev pub power : F × F → F × F
  power (re, im) = (re ⊗ re ⊕ im ⊗ im, zero_f)

  abbrev pub balance : List (F × F) → F → ℕ → ℕ → List F
  balance z lag i zero = []
  balance z lag i (suc n) =
      let re = (get_or z i (zero_f, zero_f)).0 in
      let im = (get_or z i (zero_f, zero_f)).1 in
      fl.sqrt (re ⊗ re ⊕ im ⊗ im) ⊘ lag ⊘ fl.of_nat fft_length ∷ balance z (lag ⊖ one_f) (suc i) n

  unfoldable pub balanced_acf : Fft F → List F → List F
  balanced_acf fft odf =
      let padded = tabulate (λ i. (get_or odf i zero_f, zero_f)) 0 fft_length in
      let z = fft.inverse (map power (fft.forward padded)) in
      balance z (fl.of_nat odf_length) 0 odf_length

  abbrev pub add_harmonic : List F → ℕ → ℕ → ℕ → List F → List F
  add_harmonic acf i a c comb =
      let norm = one_f ⊘ fl.of_nat (2 * a - 1) in
      let idx = comb_index i a c in
      let term = get_or acf idx zero_f ⊗ rayleigh (i - 1) ⊗ norm in
      if leb (length acf) idx then comb else set comb (i - 1) (get_or comb (i - 1) zero_f ⊕ term)

  unfoldable pub comb_filterbank : List F → List F → List F
  comb_filterbank acf comb =
      for_range 2 126 (λ i. for_range 1 4 (λ a. for_range 0 (2 * a - 1) (add_harmonic acf i a)))
        (map (λ x. zero_f) comb)

  abbrev pub lag_of : F → ℕ → ℕ
  lag_of bpm size = min (max 1 (pos_part (fl.to_int (fl.round (lit 5160 1 ⊘ bpm))))) size

  -- The comb at a candidate's lag and at the lag of twice its tempo.
  abbrev pub observation : List F → ℕ → F
  observation comb k =
      get_or comb (lag_of (fl.of_nat (2 * k + 80)) (length comb) - 1) zero_f
      ⊕ get_or comb (lag_of (fl.of_nat (4 * k + 160)) (length comb) - 1) zero_f

  abbrev pub max_from : (ℕ → F) → ℕ → ℕ → F → F
  max_from value i zero best = best
  max_from value i (suc n) best =
      max_from value (suc i) n (if best ≺ value i then value i else best)

  abbrev pub viterbi : List F → List F → ℕ → F
  viterbi prev_delta tempo_obs j =
      let best =
        max_from (λ i. get_or prev_delta i zero_f ⊗ transition i j) 0 num_tempo_states
          (fl.neg one_f) in
      max_f zero_f best ⊗ get_or tempo_obs j zero_f

  abbrev pub normalise : List F → List F
  normalise delta =
      let sum = sum_list zero_f delta in
      if lit 1 1_000_000_000_000 ≺ sum
      then map (λ v. v ⊗ (one_f ⊘ sum)) delta
      else map (λ v. one_f ⊘ fl.of_nat num_tempo_states) delta

  abbrev pub quadratic_peak_mag : List F → ℕ → F
  quadratic_peak_mag x peak_idx =
      let ym1 = get_or x (peak_idx - 1) zero_f in
      let y0 = get_or x peak_idx zero_f in
      let yp1 = get_or x (peak_idx + 1) zero_f in
      let denom = ym1 ⊖ lit 2 1 ⊗ y0 ⊕ yp1 in
      let frac = (ym1 ⊖ yp1) ⊘ (lit 2 1 ⊗ denom) in
      if peak_idx == 0 || leb (length x) (peak_idx + 1)
      then get_or x (min peak_idx (length x - 1)) zero_f
      else if fl.abs denom ≺ lit 1 1_000_000_000_000
      then y0
      else y0 ⊖ lit 25 100 ⊗ frac ⊗ (ym1 ⊖ yp1)

  unfoldable pub argmax : List F → ℕ
  argmax delta =
      argmax_from (λ k. get_or delta k zero_f) 1 (num_tempo_states - 1) (get_or delta 0 zero_f) 0

  unfoldable pub confidence : List F → ℕ → F
  confidence tempo_obs max_idx =
      let obs_sum = sum_list zero_f tempo_obs in
      if lit 1 1_000_000_000_000 ≺ obs_sum
      then clamp_f (quadratic_peak_mag tempo_obs max_idx ⊘ obs_sum) zero_f one_f
      else zero_f

  unfoldable pub decide : CombTempo F → CombTempo F
  decide s =
      let max_idx = argmax s.delta in
      let bpm = fl.of_nat (2 * max_idx + 80) in
      record s {
        prev_delta = s.delta;
        last_bpm = bpm;
        last_beat_period_samples = lit 5160 1 ⊘ max_f bpm one_f;
        last_confidence = confidence s.tempo_obs max_idx;
      }

  unfoldable pub observe : Fft F → CombTempo F → List F → CombTempo F
  observe fft s odf =
      let threshed_odf = adaptive_threshold odf in
      let acf = balanced_acf fft threshed_odf in
      let comb = adaptive_threshold (comb_filterbank acf s.comb) in
      let tempo_obs = tabulate (observation comb) 0 num_tempo_states in
      record s {
        threshed_odf = threshed_odf;
        acf = acf;
        comb = comb;
        tempo_obs = tempo_obs;
        delta = normalise (tabulate (viterbi s.prev_delta tempo_obs) 0 num_tempo_states);
      }

  -- The result is `last_bpm` of the state that is returned.
  unfoldable pub estimate : Fft F → CombTempo F → List F → CombTempo F
  estimate fft s odf_512 =
      if not (length odf_512 == odf_length) then s else decide (observe fft s odf_512)
