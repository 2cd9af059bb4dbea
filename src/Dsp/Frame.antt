-- ===== src/Dsp/Frame.antt =====
-- src/audio/dsp/analysis_frame.h and src/audio/snapshot/audio_snapshot.h: what the stages fill, and
-- what the readers get. A `std::optional` is an `Option`, an array a list of its length, and a point
-- in time the nanoseconds of the steady clock.
use listeningway.Prelude.{ℕ, Bool, Option, none, List, [], replicate}
use listeningway.Float.{Float, zero_f}
use listeningway.Ring.{Format}
use listeningway.Dsp.Pipeline.{StageTiming}

pub record AnalysisFrame (F : Type 0) : Type 0 where
  pub samples : List F
  pub format : Format
  pub captured_at : ℕ
  pub frame_index : ℕ
  pub volume : Option F
  pub volume_left : Option F
  pub volume_right : Option F
  pub volume_norm : Option F
  pub volume_att : Option F
  pub magnitudes : Option (List F)
  pub phases : Option (List F)
  pub raw_bands : List F
  pub bands : List F
  pub bands_16 : List F
  pub bands_32 : List F
  pub band_count : Option ℕ
  pub bass_norm : Option F
  pub mid_norm : Option F
  pub treb_norm : Option F
  pub bass_att : Option F
  pub mid_att : Option F
  pub treb_att : Option F
  pub spectral_centroid : Option F
  pub loudness : Option F
  pub flux_total : Option F
  pub flux_low : Option F
  pub flux_mid : Option F
  pub flux_high : Option F
  pub beat : Option F
  pub beat_phase : Option F
  pub tempo_bpm : Option F
  pub tempo_confidence : Option F
  pub tempo_detected : Option Bool
  pub beat_pulse_strength : Option F
  pub beat_auto_locked : Option Bool
  pub phase_volume : Option F
  pub phase_bass : Option F
  pub phase_treble : Option F
  pub audio_pan : Option F
  pub direction_8 : Option (List F)

abbrev pub max_bands : ℕ
max_bands = 128

abbrev pub volume_history_length : ℕ
volume_history_length = 64

abbrev pub bands_history_frames : ℕ
bands_history_frames = 32

pub record AudioSnapshot (F : Type 0) : Type 0 where
  pub volume : F
  pub volume_left : F
  pub volume_right : F
  pub volume_norm : F
  pub volume_att : F
  pub freq_bands : List F
  pub freq_bands_raw : List F
  pub freq_band_count : ℕ
  pub freq_bands_16 : List F
  pub freq_bands_32 : List F
  pub bass_norm : F
  pub mid_norm : F
  pub treb_norm : F
  pub bass_att : F
  pub mid_att : F
  pub treb_att : F
  pub spectral_centroid : F
  pub loudness : F
  pub beat : F
  pub beat_phase : F
  pub tempo_bpm : F
  pub tempo_confidence : F
  pub tempo_detected : Bool
  pub beat_pulse_strength : F
  pub beat_auto_locked : Bool
  pub phase_volume : F
  pub phase_bass : F
  pub phase_treble : F
  pub audio_pan : F
  pub audio_format : F
  pub direction_8 : List F
  pub volume_history : List F
  pub volume_history_head : ℕ
  pub freq_bands_history : List (List F)
  pub freq_bands_history_head : ℕ
  pub stage_timings : List (StageTiming F)
  pub stage_count : ℕ
  pub pipeline_micros : F
  pub frame_index : ℕ
  pub captured_at : ℕ

module _ {F : Type 0} ⦃fl : Float F⦄ where
  -- The frame that the loop makes from a chunk: nothing is filled but the capture's fields.
  abbrev pub make_frame : List F → Format → ℕ → ℕ → AnalysisFrame F
  make_frame samples format captured_at frame_index = record {
    samples = samples;
    format = format;
    captured_at = captured_at;
    frame_index = frame_index;
    volume = none;
    volume_left = none;
    volume_right = none;
    volume_norm = none;
    volume_att = none;
    magnitudes = none;
    phases = none;
    raw_bands = [];
    bands = [];
    bands_16 = replicate 16 zero_f;
    bands_32 = replicate 32 zero_f;
    band_count = none;
    bass_norm = none;
    mid_norm = none;
    treb_norm = none;
    bass_att = none;
    mid_att = none;
    treb_att = none;
    spectral_centroid = none;
    loudness = none;
    flux_total = none;
    flux_low = none;
    flux_mid = none;
    flux_high = none;
    beat = none;
    beat_phase = none;
    tempo_bpm = none;
    tempo_confidence = none;
    tempo_detected = none;
    beat_pulse_strength = none;
    beat_auto_locked = none;
    phase_volume = none;
    phase_bass = none;
    phase_treble = none;
    audio_pan = none;
    direction_8 = none;
  }
