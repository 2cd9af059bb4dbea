-- ===== src/Dsp/Stages/Tests.antt =====
-- The application's pipeline is accepted, and one frame goes through four of its stages.
use listeningway.Prelude.{
  ◌^◌, ◌≤◌, ◌<◌, ◌≡◌, refl, inl, true, false, none, some, List, [], ◌∷◌, arith, length, take, All,
}
use listeningway.Prelude.Int.{pos}
use listeningway.Float.{Within, one_f, zero_f, lit, ◌≺◌}
use listeningway.Float.Fixed.{Fixed, fixed_float, fixed_casts, Fixed-IsOrdered}
use listeningway.Config.Settings.{Settings, default_settings}
use listeningway.Ring.{Format, ChannelLayout}
use listeningway.Dsp.Frame.{AnalysisFrame, make_frame}
use listeningway.Dsp.Pipeline.{make_pipeline, validate}
use listeningway.Dsp.Stages.Composition.{declarations, compose_pipeline, compose_pipeline_accepted}
use listeningway.Dsp.Stages.Centroid as Centroid
use listeningway.Dsp.Stages.Centroid.Bounds.{centroid-Within}
use listeningway.Dsp.Stages.Volume as Volume
use listeningway.Dsp.Stages.Volume.Bounds.{Measured, process-Measured}
use listeningway.Dsp.Beat.CombTempo.{Fft}
use listeningway.Dsp.Stages.Beat as Beat
use listeningway.Dsp.Stages.Beat.{BeatStage}
use listeningway.Dsp.Stages.Beat.Locking.{Confident, none_yet, hop, Hops-locked}
use listeningway.Dsp.Stages.Beat.Bounds.{IsSound, IsCounted, HasWithin, process-IsSound}
use listeningway.Dsp.Stages.Loudness as Loudness
use listeningway.Dsp.Stages.Loudness.{LoudnessStage}
use listeningway.Dsp.Stages.Loudness.Bounds.{IsWindow, process-IsWindow}
use listeningway.Dsp.Stages.Bands as Bands
use listeningway.Dsp.Stages.Directional as Directional
use listeningway.Dsp.Stages.Directional.Bounds.{IsRose, process-IsRose}

compose_pipeline_accepted_example :
    validate (declarations {Frame = Unit} {Cfg = Unit}) (
      compose_pipeline
        (declarations {Frame = Unit} {Cfg = Unit})
        (λ k. k)
        (make_pipeline {F = Fixed}))
    ≡ none
compose_pipeline_accepted_example =
    compose_pipeline_accepted declarations (λ k. k) (λ k. refl) (λ k. refl) make_pipeline refl

abbrev stereo : Format
stereo = record { sample_rate = 48_000; channels = 2; layout = ChannelLayout.stereo }

-- Loud on the right, with three bands already there.
abbrev frame : AnalysisFrame Fixed
frame = record (make_frame {F = Fixed} (some (pos 100_000) ∷ some (pos 900_000) ∷ []) stereo 5 0) {
  bands = some (pos 10) ∷ some (pos 20) ∷ some (pos 30) ∷ [];
  volume_left = some (some (pos 100_000));
  volume_right = some (some (pos 900_000));
}

abbrev cfg : Settings Fixed
cfg = default_settings

process-Measured_example :
    Measured fixed_casts Fixed-IsOrdered cfg frame
      (Volume.process fixed_casts Volume.make frame cfg).1
process-Measured_example = process-Measured fixed_casts Fixed-IsOrdered Volume.make frame cfg refl

process-IsRose_example :
    ((Directional.process fixed_casts Directional.make frame cfg).1 ≡ record frame {
      direction_8 = some (Directional.process fixed_casts Directional.make frame cfg).0.prev_dir;
    })
    × IsRose (Directional.process fixed_casts Directional.make frame cfg).0.prev_dir
process-IsRose_example =
    process-IsRose fixed_casts Fixed-IsOrdered Directional.make frame cfg
      (refl, (refl, (refl, (refl, (refl, (refl, (refl, (refl, (refl, tt)))))))))

-- Four bins at 48 kHz, with nothing remembered yet.
abbrev heard : AnalysisFrame Fixed
heard = record frame {
  magnitudes = some (some (pos 1) ∷ some (pos 2) ∷ some (pos 3) ∷ some (pos 4) ∷ []);
}

centroid-Within_example :
    (c : Fixed) × (Centroid.process fixed_casts heard ≡ record heard { spectral_centroid = some c })
    × Within zero_f one_f c
centroid-Within_example = centroid-Within fixed_casts Fixed-IsOrdered heard

abbrev transform : Fft Fixed
transform = record { forward = λ z. z; inverse = λ z. z }

process-IsSound_example :
    (IsSound (Beat.process transform Beat.make heard cfg).0
      × IsCounted Beat.make (Beat.process transform Beat.make heard cfg).0)
    × (HasWithin zero_f one_f (Beat.process transform Beat.make heard cfg).1.beat
        × (HasWithin zero_f
              (lit 999_999 1_000_000)
              (Beat.process transform Beat.make heard cfg).1.beat_phase
            × HasWithin zero_f one_f
                (Beat.process transform Beat.make heard cfg).1.tempo_confidence))
process-IsSound_example =
    process-IsSound Fixed-IsOrdered transform Beat.make heard cfg ((refl, refl), λ h. absurd cc)

abbrev hopped : BeatStage Fixed
hopped = (Beat.process transform Beat.make heard cfg).0

Hops-locked_example :
    (hopped.confidence_above_thresh_frames < 2 ^ 31)
    × (hopped.auto_locked ≡ true
        → (300 ≤ length (hopped ∷ [])) × All Confident (take 300 (hopped ∷ [])))
Hops-locked_example =
    Hops-locked Fixed-IsOrdered transform hopped (hopped ∷ []) (hop none_yet heard cfg refl)
      (omega arith)

abbrev four_bins : List Fixed
four_bins = some (pos 1) ∷ some (pos 2) ∷ some (pos 3) ∷ some (pos 4) ∷ []

abbrev silent : LoudnessStage Fixed Fixed
silent = Loudness.make

process-IsWindow_example :
    IsWindow 2 (Loudness.process fixed_casts silent frame cfg).0
    × ((l : Fixed) × (((Loudness.process fixed_casts silent frame cfg).1
            ≡ record frame { loudness = some l })
          × ((one_f ≺ l) ≡ false)))
process-IsWindow_example =
    process-IsWindow fixed_casts Fixed-IsOrdered silent frame cfg (omega arith) (omega arith)
      (omega arith) (inl refl)
