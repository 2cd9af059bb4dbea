-- ===== src/Dsp/Beat/BeatTracker.antt =====
-- src/audio/dsp/beat/beat_tracker.h and beat_tracker.cpp: the cumulative score and its prediction of
-- the next beat. The windows w1 and w2 are filled anew at each use, so they are no part of the state.
pub mod Counters
pub mod Beats
pub mod Liveness
use listeningway.Prelude.{
  ℕ, zero, suc, ◌+◌, ◌-◌, ◌%◌, max, Bool, not, Option, none, some, List, [], ◌∷◌, ◌++◌, map,
  if◌then◌else◌, get_elem?, get_or, set, replicate, tabulate, ◌%◌,
}
use listeningway.Prelude.Int.{ℤ, pos, negsuc, pos_part, ◌+ℤ◌, ◌-ℤ◌, ltb_ℤ}
use listeningway.Float.{Float, ◌⊕◌, ◌⊖◌, ◌⊗◌, ◌⊘◌, ◌≺◌, ◌≼◌, lit, zero_f, one_f, max_f, clamp_f}
use listeningway.Dsp.Beat.{argmax_from}

abbrev pub buffer_size : ℕ
buffer_size = 512

pub record BeatTracker (F : Type 0) : Type 0 where
  pub cumulative_score : List F
  -- The oldest sample, which the next one replaces.
  pub cs_head : ℕ
  -- The length of `future_cs`, which is filled anew by each prediction.
  pub future_size : ℕ
  pub beat_period : F
  pub time_to_next_beat : ℤ
  pub time_to_next_prediction : ℤ
  pub beat_phase_counter : ℕ

-- `source[i]`, with `none` for an index outside.
abbrev pub at_int : {A : Type 0} → List A → ℤ → Option A
at_int source (pos i) = get_elem? source i
at_int source (negsuc i) = none

module _ {F : Type 0} ⦃fl : Float F⦄ where
  abbrev pub make : BeatTracker F
  make = record {
    cumulative_score = replicate buffer_size zero_f;
    cs_head = 0;
    future_size = buffer_size + 256;
    beat_period = lit 86 1;
    time_to_next_beat = negsuc 0;
    time_to_next_prediction = pos 10;
    beat_phase_counter = 0;
  }

  abbrev pub reset : BeatTracker F → BeatTracker F
  reset s = record s {
    cumulative_score = map (λ x. zero_f) s.cumulative_score;
    cs_head = 0;
    beat_period = lit 86 1;
    time_to_next_beat = negsuc 0;
    time_to_next_prediction = pos 10;
    beat_phase_counter = 0;
  }

  -- The weights W1 from `v` on.
  abbrev pub log_gaussian_from : F → F → ℕ → List F
  log_gaussian_from beat_period v zero = []
  log_gaussian_from beat_period v (suc n) =
      let ratio = fl.neg v ⊘ max_f beat_period (lit 1 1_000_000) in
      let a = if zero_f ≺ ratio then lit 5 1 ⊗ fl.log ratio else zero_f in
      fl.exp (fl.neg (a ⊗ a) ⊗ lit 5 10) ∷ log_gaussian_from beat_period (v ⊕ one_f) n

  abbrev pub log_gaussian_window : ℕ → F → List F
  log_gaussian_window n beat_period =
      log_gaussian_from beat_period (fl.neg (lit 2 1) ⊗ beat_period) n

  -- A sample and its weight, when both are there.
  abbrev pub better_of : Option F → Option F → F → F
  better_of none w best = best
  better_of (some x) none best = best
  better_of (some x) (some w) best = if best ≺ (x ⊗ w) then x ⊗ w else best

  -- The loop ends at the last weight, past which no weight is there to use.
  abbrev pub weighted_max_from : List F → List F → ℤ → ℕ → ℕ → F → F
  weighted_max_from source weights i w zero best = best
  weighted_max_from source weights i w (suc n) best =
      weighted_max_from source weights (i +ℤ pos 1) (suc w) n
        (better_of (at_int source i) (get_elem? weights w) best)

  abbrev pub weighted_max_in_window : List F → ℤ → ℤ → List F → F
  weighted_max_in_window source start_idx end_idx weights =
      weighted_max_from source weights start_idx 0 (pos_part ((end_idx -ℤ start_idx) +ℤ pos 1))
        zero_f

  abbrev pub window_start : F → ℤ
  window_start beat_period = pos buffer_size -ℤ fl.to_int (fl.round (lit 2 1 ⊗ beat_period))

  abbrev pub window_end : F → ℤ
  window_end beat_period = pos buffer_size -ℤ fl.to_int (fl.round (lit 5 10 ⊗ beat_period))

  abbrev pub window_size : F → ℕ
  window_size beat_period =
      max 1 (pos_part ((window_end beat_period -ℤ window_start beat_period) +ℤ pos 1))

  -- The score in the order of time.
  abbrev pub linear : BeatTracker F → List F
  linear s =
      tabulate (λ i. get_or s.cumulative_score ((s.cs_head + i) % buffer_size) zero_f) 0 buffer_size

  -- The score carried on past its end by momentum alone.
  abbrev pub project_from : List F → ℕ → ℤ → ℤ → ℕ → List F → List F
  project_from weights i ws we zero future = future
  project_from weights i ws we (suc n) future =
      let wmax = weighted_max_in_window future ws we weights in
      project_from weights (suc i) (ws +ℤ pos 1) (we +ℤ pos 1) n (set future i wmax)

  abbrev pub beat_window : F → ℕ
  beat_window beat_period = max 2 (pos_part (fl.to_int (fl.round beat_period)))

  abbrev pub future_score : BeatTracker F → ℕ → List F
  future_score s size =
      let p = s.beat_period in
      project_from (log_gaussian_window (window_size p) p) buffer_size (window_start p)
        (window_end p) (beat_window p) (linear s ++ replicate (size - buffer_size) zero_f)

  -- W2, the expectation of a beat half a period ahead.
  abbrev pub expectation : F → ℕ → F
  expectation beat_period i =
      let half_beat = beat_period ⊗ lit 5 10 in
      let dx = fl.of_nat (i + 1) ⊖ half_beat in
      fl.exp (fl.neg (dx ⊗ dx) ⊘ (lit 2 1 ⊗ half_beat ⊗ half_beat))

  unfoldable pub best_beat : BeatTracker F → ℕ → ℕ
  best_beat s size =
      let future = future_score s size in
      argmax_from (λ i. get_or future (buffer_size + i) zero_f ⊗ expectation s.beat_period i) 0
        (beat_window s.beat_period) zero_f 0

  unfoldable pub predict_beat : BeatTracker F → BeatTracker F
  predict_beat s =
      let size = max s.future_size (buffer_size + beat_window s.beat_period) in
      let best_i = best_beat s size in
      record s {
        future_size = size;
        time_to_next_beat = pos best_i;
        time_to_next_prediction = pos best_i +ℤ fl.to_int (fl.round (s.beat_period ⊗ lit 5 10));
      }

  -- The sample that is added to the score, and the counters of the hop.
  unfoldable pub add_score : BeatTracker F → F → F → BeatTracker F
  add_score s odf_value beat_period_samples =
      let p = clamp_f beat_period_samples (lit 10 1) (lit 512 1 ⊗ lit 5 10) in
      let odf = fl.abs odf_value ⊕ lit 1 10_000 in
      let weighted_max =
        weighted_max_in_window (linear s) (window_start p) (window_end p)
          (log_gaussian_window (window_size p) p) in
      let new_cs = (one_f ⊖ lit 9 10) ⊗ odf ⊕ lit 9 10 ⊗ weighted_max in
      record s {
        beat_period = p;
        time_to_next_prediction = s.time_to_next_prediction -ℤ pos 1;
        time_to_next_beat = s.time_to_next_beat -ℤ pos 1;
        beat_phase_counter = s.beat_phase_counter + 1;
        cumulative_score = set s.cumulative_score s.cs_head new_cs;
        cs_head = (s.cs_head + 1) % buffer_size;
      }

  unfoldable pub maybe_predict : BeatTracker F → BeatTracker F
  maybe_predict s = if ltb_ℤ (pos 0) s.time_to_next_prediction then s else predict_beat s

  abbrev pub is_due : BeatTracker F → Bool
  is_due s = not (ltb_ℤ (pos 0) s.time_to_next_beat)

  unfoldable pub fire : BeatTracker F → BeatTracker F
  fire s = record s {
    beat_phase_counter = 0;
    time_to_next_beat = fl.to_int (fl.round s.beat_period);
  }

  unfoldable pub process : BeatTracker F → F → F → Bool × BeatTracker F
  process s odf_value beat_period_samples =
      let scored = maybe_predict (add_score s odf_value beat_period_samples) in
      (is_due scored, if is_due scored then fire scored else scored)

  unfoldable pub beat_phase : BeatTracker F → F
  beat_phase s =
      let p = fl.of_nat s.beat_phase_counter ⊘ s.beat_period in
      if s.beat_period ≼ zero_f
      then zero_f
      else clamp_f (p ⊖ fl.floor p) zero_f (lit 999_999 1_000_000)
