-- ===== src/Dsp/Loop.antt =====
-- `AudioSystem::dsp_thread_main` (src/audio/pipeline/audio_system.cpp): one turn of the DSP thread's
-- loop, with the projection of the frame into the snapshot. The pipeline's `process`, which may
-- throw, is a parameter: `none` is the exception.
pub mod Turn
pub mod Tests
use listeningway.Prelude.{
  ℕ, ◌+◌, ◌-◌, ◌%◌, ◌^◌, min, false, Option, none, some, List, [], ◌∷◌, ◌++◌, ◌==◌, if◌then◌else◌,
  length, take, replicate,
}
use listeningway.Float.{Float, zero_f, one_f}
use listeningway.Config.Settings.{Settings}
use listeningway.Config.Store.{Store, snapshot}
use listeningway.Ring.{Queue, ChunkPtr, FrameChunk, FrameRing, pop, recycle}
use listeningway.Dsp.Frame.{
  AnalysisFrame, AudioSnapshot, max_bands, volume_history_length, bands_history_frames, make_frame,
}
use listeningway.Dsp.History.{History, store}
use listeningway.Dsp.Pipeline.{Pipeline, max_stages}

abbrev pub value_or {ℓ} : {A : Type ℓ} → Option A → A → A
value_or none d = d
value_or (some a) d = a

module _ {F : Type 0} ⦃fl : Float F⦄ where
  -- An array of `max_bands` zeros with the first `n` elements copied in.
  abbrev pub copy_bands : ℕ → List F → List F
  copy_bands n xs = take n xs ++ replicate (max_bands - n) zero_f

  -- The bands after the equalizer if present, else those before it.
  abbrev pub source_bands : AnalysisFrame F → List F
  source_bands frame = elim frame.bands [ [] ↦ frame.raw_bands | x ∷ xs ↦ x ∷ xs ]

  -- The snapshot, from the frame, the profiler's timings and the two rings after their stores.
  pub project :
      {T : Type 0} → AnalysisFrame F → Pipeline T F → History F → History (List F) → AudioSnapshot F
  project frame p volumes rows =
      let n = min (length (source_bands frame)) max_bands in
      record {
        captured_at = frame.captured_at;
        frame_index = frame.frame_index;
        audio_format = fl.of_nat frame.format.channels;
        volume = value_or frame.volume zero_f;
        volume_left = value_or frame.volume_left zero_f;
        volume_right = value_or frame.volume_right zero_f;
        volume_norm = value_or frame.volume_norm one_f;
        volume_att = value_or frame.volume_att one_f;
        freq_bands = copy_bands n (source_bands frame);
        freq_band_count = n;
        freq_bands_raw = copy_bands (min (length frame.raw_bands) max_bands) frame.raw_bands;
        freq_bands_16 = frame.bands_16;
        freq_bands_32 = frame.bands_32;
        bass_norm = value_or frame.bass_norm one_f;
        mid_norm = value_or frame.mid_norm one_f;
        treb_norm = value_or frame.treb_norm one_f;
        bass_att = value_or frame.bass_att one_f;
        mid_att = value_or frame.mid_att one_f;
        treb_att = value_or frame.treb_att one_f;
        spectral_centroid = value_or frame.spectral_centroid zero_f;
        loudness = value_or frame.loudness zero_f;
        beat = value_or frame.beat zero_f;
        beat_phase = value_or frame.beat_phase zero_f;
        tempo_bpm = value_or frame.tempo_bpm zero_f;
        tempo_confidence = value_or frame.tempo_confidence zero_f;
        tempo_detected = value_or frame.tempo_detected false;
        beat_pulse_strength = value_or frame.beat_pulse_strength one_f;
        beat_auto_locked = value_or frame.beat_auto_locked false;
        phase_volume = value_or frame.phase_volume zero_f;
        phase_bass = value_or frame.phase_bass zero_f;
        phase_treble = value_or frame.phase_treble zero_f;
        audio_pan = value_or frame.audio_pan zero_f;
        direction_8 = value_or frame.direction_8 (replicate 8 zero_f);
        stage_timings = p.timings;
        stage_count = min (length p.stages) max_stages;
        pipeline_micros = p.total_micros;
        volume_history = volumes.ring;
        volume_history_head = volumes.head;
        freq_bands_history = rows.ring;
        freq_bands_history_head = rows.head;
      }

-- The thread's locals, and the members of `AudioSystem` that it alone writes. `published` is what
-- the seqlock was last given.
pub record DspThread (T F : Type 0) (m : Queue (ChunkPtr F)) : Type 0 where
  pub cached_settings : Settings F
  pub cached_version : ℕ
  pub ring : FrameRing m
  pub pipeline : Pipeline T F
  pub frame_index : ℕ
  pub volumes : History F
  pub rows : History (List F)
  pub published : Option (AudioSnapshot F)

module _ {T F : Type 0} ⦃fl : Float F⦄ {m : Queue (ChunkPtr F)} where
  abbrev pub refresh : Store F → DspThread T F m → DspThread T F m
  refresh st d =
      if d.cached_version == st.version
      then d
      else record d { cached_settings = snapshot st; cached_version = st.version }

  -- The frame is projected, the two rings take its volume and its bands, and the snapshot is out.
  pub publish_frame : DspThread T F m → AnalysisFrame F → DspThread T F m
  publish_frame d frame =
      let n = min (length (source_bands frame)) max_bands in
      let volumes = store d.volumes volume_history_length (value_or frame.volume zero_f) in
      let rows = store d.rows bands_history_frames (copy_bands n (source_bands frame)) in
      record d {
        volumes = volumes;
        rows = rows;
        published = some (project frame d.pipeline volumes rows);
      }

  -- After the pipeline: an exception skips the snapshot.
  abbrev pub finish : DspThread T F m → Option (AnalysisFrame F) → DspThread T F m
  finish d none = d
  finish d (some frame) = publish_frame d frame

-- The pipeline's `process`.
abbrev pub Process : Type 0 → Type 0 → Type 0
Process T F = Pipeline T F → AnalysisFrame F → Settings F → Pipeline T F × Option (AnalysisFrame F)

module _ {T F : Type 0} ⦃fl : Float F⦄ (m : Queue (ChunkPtr F)) (process : Process T F) where
  -- The chunk's frame goes through the pipeline, and the chunk is given back.
  pub analyse : ℕ → DspThread T F m → FrameChunk F → DspThread T F m
  analyse now d chunk =
      let frame = make_frame chunk.samples chunk.format now d.frame_index in
      let out = process d.pipeline frame d.cached_settings in
      let counted = record d { pipeline = out.0; frame_index = (d.frame_index + 1) % 2 ^ 64 } in
      let shown = finish counted out.1 in record shown { ring = recycle m shown.ring (some chunk) }

  -- On no data the thread sleeps.
  abbrev pub feed : ℕ → DspThread T F m → Option (ChunkPtr F) → DspThread T F m
  feed now d none = d
  feed now d (some none) = d
  feed now d (some (some chunk)) = analyse now d chunk

  -- One turn of the loop.
  pub turn : Store F → ℕ → DspThread T F m → DspThread T F m
  turn st now d =
      let fresh = refresh st d in
      let popped = pop m fresh.ring in feed now (record fresh { ring = popped.1 }) popped.0
