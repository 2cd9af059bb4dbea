-- ===== src/Dsp/Stages/Composition.antt =====
-- The stages that `compose_pipeline` (src/app.cpp) puts together, with what each declares to read
-- and to write in its header under src/audio/dsp/stages.
use Prim.Native.String.{String}
use listeningway.Prelude.{
  ℕ, suc, ◌≡◌, refl, sym, ◌∙◌, inl, inr, none, some, List, [], ◌∷◌, ◌++◌, map, Option-cases,
}
use mathlib.Core.List.{append-nil, append_assoc}
use listeningway.Float.{Float}
use listeningway.Dsp.Pipeline.{
  FieldId, IDspStage, Pipeline, add, validate, validate_from, first_missing, contains,
}
use listeningway.Dsp.Stages.Volume as Volume
use listeningway.Dsp.Stages.BandNorm as BandNorm
use listeningway.Dsp.Stages.Pan as Pan
use listeningway.Dsp.Stages.Directional as Directional

pub data StageKind : Type 0 where
  volume fft bands log_boost equalizer band_norm spectral_centroid flux beat chronotensity pan
        directional loudness :
      StageKind

abbrev pub fft_reads : List FieldId
fft_reads = FieldId.samples ∷ FieldId.format ∷ []

abbrev pub fft_writes : List FieldId
fft_writes = FieldId.magnitudes ∷ FieldId.phases ∷ []

abbrev pub bands_reads : List FieldId
bands_reads = FieldId.magnitudes ∷ FieldId.format ∷ []

abbrev pub bands_writes : List FieldId
bands_writes = FieldId.raw_bands ∷ FieldId.bands_16 ∷ FieldId.bands_32 ∷ []

abbrev pub log_boost_reads : List FieldId
log_boost_reads = FieldId.raw_bands ∷ []

abbrev pub log_boost_writes : List FieldId
log_boost_writes = FieldId.raw_bands ∷ []

abbrev pub equalizer_reads : List FieldId
equalizer_reads = FieldId.raw_bands ∷ []

abbrev pub equalizer_writes : List FieldId
equalizer_writes = FieldId.bands ∷ []

abbrev pub centroid_reads : List FieldId
centroid_reads = FieldId.magnitudes ∷ FieldId.format ∷ []

abbrev pub centroid_writes : List FieldId
centroid_writes = FieldId.spectral_centroid ∷ []

abbrev pub flux_reads : List FieldId
flux_reads = FieldId.magnitudes ∷ FieldId.format ∷ []

abbrev pub flux_writes : List FieldId
flux_writes = FieldId.flux_total ∷ FieldId.flux_low ∷ FieldId.flux_mid ∷ FieldId.flux_high ∷ []

abbrev pub beat_reads : List FieldId
beat_reads = FieldId.magnitudes ∷ FieldId.phases ∷ FieldId.flux_total ∷ []

abbrev pub beat_writes : List FieldId
beat_writes =
    FieldId.beat ∷ FieldId.beat_phase ∷ FieldId.tempo_bpm ∷ FieldId.tempo_confidence
    ∷ FieldId.tempo_detected ∷ FieldId.beat_pulse_strength ∷ FieldId.beat_auto_locked ∷ []

abbrev pub chronotensity_reads : List FieldId
chronotensity_reads = FieldId.volume_norm ∷ FieldId.bass_norm ∷ FieldId.treb_norm ∷ []

abbrev pub chronotensity_writes : List FieldId
chronotensity_writes = FieldId.phase_volume ∷ FieldId.phase_bass ∷ FieldId.phase_treble ∷ []

abbrev pub loudness_reads : List FieldId
loudness_reads = FieldId.samples ∷ FieldId.format ∷ []

abbrev pub loudness_writes : List FieldId
loudness_writes = FieldId.loudness ∷ []

abbrev pub name_of : StageKind → String
name_of StageKind.volume = "volume"
name_of StageKind.fft = "fft"
name_of StageKind.bands = "bands"
name_of StageKind.log_boost = "log_boost"
name_of StageKind.equalizer = "equalizer"
name_of StageKind.band_norm = "band_norm"
name_of StageKind.spectral_centroid = "spectral_centroid"
name_of StageKind.flux = "flux"
name_of StageKind.beat = "beat"
name_of StageKind.chronotensity = "chronotensity"
name_of StageKind.pan = "pan"
name_of StageKind.directional = "directional"
name_of StageKind.loudness = "loudness"

abbrev pub reads_of : StageKind → List FieldId
reads_of StageKind.volume = Volume.reads
reads_of StageKind.fft = fft_reads
reads_of StageKind.bands = bands_reads
reads_of StageKind.log_boost = log_boost_reads
reads_of StageKind.equalizer = equalizer_reads
reads_of StageKind.band_norm = BandNorm.reads
reads_of StageKind.spectral_centroid = centroid_reads
reads_of StageKind.flux = flux_reads
reads_of StageKind.beat = beat_reads
reads_of StageKind.chronotensity = chronotensity_reads
reads_of StageKind.pan = Pan.reads
reads_of StageKind.directional = Directional.reads
reads_of StageKind.loudness = loudness_reads

abbrev pub writes_of : StageKind → List FieldId
writes_of StageKind.volume = Volume.writes
writes_of StageKind.fft = fft_writes
writes_of StageKind.bands = bands_writes
writes_of StageKind.log_boost = log_boost_writes
writes_of StageKind.equalizer = equalizer_writes
writes_of StageKind.band_norm = BandNorm.writes
writes_of StageKind.spectral_centroid = centroid_writes
writes_of StageKind.flux = flux_writes
writes_of StageKind.beat = beat_writes
writes_of StageKind.chronotensity = chronotensity_writes
writes_of StageKind.pan = Pan.writes
writes_of StageKind.directional = Directional.writes
writes_of StageKind.loudness = loudness_writes

-- The declarations alone, over a frame that the stages leave as it is.
abbrev pub declarations : {Frame Cfg : Type 0} → IDspStage StageKind Frame Cfg
declarations = record {
  name = name_of;
  reads = reads_of;
  writes = writes_of;
  process = λ s frame cfg. (s, frame);
  reset = λ s. s;
}

abbrev pub order : List StageKind
order =
    StageKind.volume ∷ StageKind.fft ∷ StageKind.bands ∷ StageKind.log_boost ∷ StageKind.equalizer
    ∷ StageKind.band_norm ∷ StageKind.spectral_centroid ∷ StageKind.flux ∷ StageKind.beat
    ∷ StageKind.chronotensity ∷ StageKind.pan ∷ StageKind.directional ∷ StageKind.loudness ∷ []

module _ {T Frame Cfg F : Type 0} (ops : IDspStage T Frame Cfg) ⦃fl : Float F⦄ where
  abbrev pub add_all : List T → Pipeline T F → Pipeline T F
  add_all [] p = p
  add_all (s ∷ ss) p = add_all ss (add ops p (some s))

  -- The thirteen stages, made by the given constructor of each kind.
  pub compose_pipeline : (StageKind → T) → Pipeline T F → Pipeline T F
  compose_pipeline make p = add_all (map make order) p

module _ {T Frame Cfg : Type 0} (ops : IDspStage T Frame Cfg) (make : StageKind → T)
    (hr : (k : StageKind) → ops.reads (make k) ≡ reads_of k)
    (hw : (k : StageKind) → ops.writes (make k) ≡ writes_of k) where
  accepted-map :
      (ks : List StageKind) (idx : ℕ) (available : List FieldId)
      → validate_from (declarations {Frame = Frame} {Cfg = Cfg}) idx available ks ≡ none
      → validate_from ops idx available (map make ks) ≡ none
  unfolding validate_from
  accepted-map [] idx available h = refl
  accepted-map (k ∷ ks) idx available h =
      elim (Option-cases (first_missing available (reads_of k))) [
        | inl e ↦
            rw (validate_from, hr k, e, hw k)
              (accepted-map ks (suc idx) (available ++ writes_of k) (rw (validate_from, e) at h))
        | inr e ↦ absurd (cc (rw (validate_from, e.1) at h))
      ]

  add_all_stages :
      {F : Type 0} ⦃fl : Float F⦄ (p : Pipeline T F) (ss : List T)
      → (add_all ops ss p).stages ≡ p.stages ++ ss
  unfolding add
  add_all_stages p [] = sym (append-nil p.stages)
  add_all_stages p (s ∷ ss) =
      add_all_stages (add ops p (some s)) ss ∙ append_assoc p.stages (s ∷ []) ss

  -- Stages that read and write what the thirteen headers declare, added in this order to a pipeline
  -- without stages, are accepted.
  pub compose_pipeline_accepted :
      {F : Type 0} ⦃fl : Float F⦄ (p : Pipeline T F)
      → p.stages ≡ []
      → validate ops (compose_pipeline ops make p) ≡ none
  unfolding compose_pipeline validate validate_from first_missing contains
  compose_pipeline_accepted p e =
      rw (add_all_stages p (map make order), e)
        (accepted-map order 0 (FieldId.samples ∷ FieldId.format ∷ []) refl)
