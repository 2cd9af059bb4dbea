-- ===== src/Dsp/Beat/Tests.antt =====
-- Spectra of one bin, a window that is too silence, and a tracker that counts.
use listeningway.Prelude.{
  ℕ, zero, suc, ◌≤◌, ◌≡◌, refl, ◌≢◌, ◌⊎◌, true, some, List, [], ◌∷◌, arith, length, replicate, All,
  length-replicate,
}
use listeningway.Prelude.Int.{pos}
use listeningway.Float.{zero_f}
use listeningway.Float.Fixed.{Fixed, fixed_float, Fixed-IsOrdered}
use listeningway.Float.Fixed.Rounding.{Fixed-IsRounding}
use listeningway.Dsp.Beat.OdfCsd as OdfCsd
use listeningway.Dsp.Beat.OdfCsd.Window.{onset, after, process-onset}
use listeningway.Dsp.Beat.CombTempo as CombTempo
use listeningway.Dsp.Beat.CombTempo.{Fft, odf_length, estimate}
use listeningway.Dsp.Beat.CombTempo.Bounds.{IsEstimate, estimate_cases}
use listeningway.Dsp.Beat.BeatTracker as BeatTracker
use listeningway.Dsp.Beat.BeatTracker.{BeatTracker}
use listeningway.Dsp.Beat.BeatTracker.Counters.{IsCounting}
use listeningway.Dsp.Beat.BeatTracker.Beats.{process-IsCounting}
use listeningway.Dsp.Beat.BeatTracker.Liveness.{fires, beat_within}

abbrev frame : ℕ → List Fixed × List Fixed
frame n = (some (pos n) ∷ [], some (pos 0) ∷ [])

process-onset_example :
    (OdfCsd.process (after (frame 2 ∷ frame 1 ∷ [])) (frame 5).0 (frame 5).1).0
    ≡ onset 1 (frame 5) (frame 2) (frame 1)
process-onset_example =
    process-onset 1 (frame 5) (frame 2) (frame 1) [] (omega arith)
      ((refl, refl), ((refl, refl), ((refl, refl), tt)))

abbrev fft : Fft Fixed
fft = record { forward = λ z. z; inverse = λ z. z }

-- A window of silence.
abbrev silence : List Fixed
silence = replicate 512 zero_f

estimate_cases_example :
    ((length silence ≢ odf_length) × (estimate fft CombTempo.make silence ≡ CombTempo.make))
    ⊎ ((length silence ≡ odf_length)
        × (IsEstimate (estimate fft CombTempo.make silence)
            × ((estimate fft CombTempo.make silence).prev_delta
                ≡ (estimate fft CombTempo.make silence).delta)))
estimate_cases_example = estimate_cases Fixed-IsOrdered fft CombTempo.make silence

-- A period of 43 hops, as of 120 beats a minute.
abbrev period : Fixed
period = some (pos 43_000_000)

process-IsCounting_example :
    IsCounting (BeatTracker.process (BeatTracker.make {F = Fixed}) zero_f period).1
process-IsCounting_example =
    process-IsCounting Fixed-IsRounding BeatTracker.make zero_f period refl
      (omega arith, omega arith)

abbrev counting : BeatTracker Fixed
counting = record (BeatTracker.make {F = Fixed}) {
  time_to_next_beat = pos 43;
  time_to_next_prediction = pos 21;
}

hop_All :
    (n : ℕ)
    → All {A = Fixed × Fixed}
        (λ hop. fixed_float.eq hop.1 hop.1 ≡ true)
        (replicate n (zero_f, period))
hop_All zero = tt
hop_All (suc n) = (refl, hop_All n)

beat_within_example : fires counting (replicate 640 (zero_f, period)) ≡ true
beat_within_example =
    let hop : Fixed × Fixed = (zero_f, period) in
    let long : 640 ≤ length (replicate 640 hop) = omega (arith, length-replicate 640 hop) in
    beat_within Fixed-IsRounding counting (replicate 640 (zero_f, period))
      ((43, (refl, (omega arith, omega arith))), (21, (refl, (omega arith, omega arith))))
      (hop_All 640) long
