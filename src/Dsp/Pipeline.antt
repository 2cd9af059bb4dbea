-- ===== src/Dsp/Pipeline.antt =====
-- src/audio/dsp/pipeline.{h,cpp}, i_dsp_stage.h and stage_profile.h: the stages in order, the check of
-- what they read, and the smoothed timings. The clock is a parameter.
pub mod Composition
pub mod Effects
pub mod Tests
use Prim.Native.String.{String, slice, len}
use listeningway.Prelude.{
  ℕ, suc, min, Bool, true, false, Option, none, some, List, [], ◌∷◌, ◌++◌, map, ltb, ◌==◌,
  if◌then◌else◌, length, get_elem?, set, replicate,
}
use listeningway.Float.{Float, ◌⊕◌, ◌⊖◌, ◌⊗◌, lit, zero_f, one_f}

pub data FieldId : Type 0 where
  samples format : FieldId
  volume volume_left volume_right volume_norm volume_att : FieldId
  magnitudes phases : FieldId
  raw_bands bands bands_16 bands_32 : FieldId
  bass_norm mid_norm treb_norm bass_att mid_att treb_att : FieldId
  spectral_centroid loudness : FieldId
  flux_total flux_low flux_mid flux_high : FieldId
  beat beat_phase tempo_bpm tempo_confidence tempo_detected : FieldId
  beat_pulse_strength beat_auto_locked : FieldId
  phase_volume phase_bass phase_treble : FieldId
  audio_pan direction_8 : FieldId

-- `static_cast<int>`, by which `std::set` orders the identifiers too.
abbrev pub field_index : FieldId → ℕ
field_index FieldId.samples = 0
field_index FieldId.format = 1
field_index FieldId.volume = 2
field_index FieldId.volume_left = 3
field_index FieldId.volume_right = 4
field_index FieldId.volume_norm = 5
field_index FieldId.volume_att = 6
field_index FieldId.magnitudes = 7
field_index FieldId.phases = 8
field_index FieldId.raw_bands = 9
field_index FieldId.bands = 10
field_index FieldId.bands_16 = 11
field_index FieldId.bands_32 = 12
field_index FieldId.bass_norm = 13
field_index FieldId.mid_norm = 14
field_index FieldId.treb_norm = 15
field_index FieldId.bass_att = 16
field_index FieldId.mid_att = 17
field_index FieldId.treb_att = 18
field_index FieldId.spectral_centroid = 19
field_index FieldId.loudness = 20
field_index FieldId.flux_total = 21
field_index FieldId.flux_low = 22
field_index FieldId.flux_mid = 23
field_index FieldId.flux_high = 24
field_index FieldId.beat = 25
field_index FieldId.beat_phase = 26
field_index FieldId.tempo_bpm = 27
field_index FieldId.tempo_confidence = 28
field_index FieldId.tempo_detected = 29
field_index FieldId.beat_pulse_strength = 30
field_index FieldId.beat_auto_locked = 31
field_index FieldId.phase_volume = 32
field_index FieldId.phase_bass = 33
field_index FieldId.phase_treble = 34
field_index FieldId.audio_pan = 35
field_index FieldId.direction_8 = 36

-- The virtual methods of a stage, whose own state is `T`.
pub record IDspStage (T Frame Cfg : Type 0) : Type 0 where
  pub name : T → String
  pub reads : T → List FieldId
  pub writes : T → List FieldId
  pub process : T → Frame → Cfg → T × Frame
  pub reset : T → T

pub record StageTiming (F : Type 0) : Type 0 where
  pub name : String
  pub micros : F

abbrev pub max_stages : ℕ
max_stages = 16

-- What the text of the error names: the stage's position and name, and the field.
pub record CompositionError : Type 0 where
  pub stage : ℕ
  pub name : String
  pub field : FieldId

pub record Pipeline (T F : Type 0) : Type 0 where
  pub stages : List T
  pub timings : List (StageTiming F)
  pub total_micros : F

-- `available.find(f) != available.end()`.
unfoldable pub contains : List FieldId → FieldId → Bool
contains [] f = false
contains (g ∷ gs) f = if field_index g == field_index f then true else contains gs f

-- The first of the fields that is not available.
unfoldable pub first_missing : List FieldId → List FieldId → Option FieldId
first_missing available [] = none
first_missing available (f ∷ fs) =
    if contains available f then first_missing available fs else some f

-- `name[24]`, with its terminator.
abbrev pub slot_name : String → String
slot_name s = slice s 0 (min (len s) 23)

module _ {F : Type 0} ⦃fl : Float F⦄ where
  abbrev pub ema_alpha : F
  ema_alpha = lit 1 10

  -- `(1 - a) * slot + a * sample`.
  abbrev pub smooth : F → F → F
  smooth slot sample = (one_f ⊖ ema_alpha) ⊗ slot ⊕ ema_alpha ⊗ sample

  abbrev pub no_timings : List (StageTiming F)
  no_timings = replicate max_stages (record { name = ""; micros = zero_f })

  abbrev pub time_stage : List (StageTiming F) → ℕ → F → List (StageTiming F)
  time_stage ts i micros = elim (get_elem? ts i) [
    | none ↦ ts
    | some t ↦ set ts i (record t { micros = smooth t.micros micros })
  ]

  abbrev pub untimed : StageTiming F → StageTiming F
  untimed t = record t { micros = zero_f }

module _ {T F : Type 0} ⦃fl : Float F⦄ where
  abbrev pub make_pipeline : Pipeline T F
  make_pipeline = record { stages = []; timings = no_timings; total_micros = zero_f }

  pub clear : Pipeline T F → Pipeline T F
  clear p = make_pipeline

module _ {T Frame Cfg : Type 0} (ops : IDspStage T Frame Cfg) where
  -- The loop of `validate`, from stage `idx` on.
  unfoldable pub validate_from : ℕ → List FieldId → List T → Option CompositionError
  validate_from idx available [] = none
  validate_from idx available (stage ∷ rest) = elim (first_missing available (ops.reads stage)) [
    | some f ↦ some (record { stage = idx; name = ops.name stage; field = f })
    | none ↦ validate_from (suc idx) (available ++ ops.writes stage) rest
  ]

module _ {T Frame Cfg F : Type 0} (ops : IDspStage T Frame Cfg) ⦃fl : Float F⦄ where
  abbrev pub append : Pipeline T F → T → Pipeline T F
  append p stage = record p {
    stages = p.stages ++ (stage ∷ []);
    timings =
        if ltb (length p.stages) max_stages
        then set p.timings (length p.stages)
            (record { name = slot_name (ops.name stage); micros = zero_f })
        else p.timings;
  }

  -- A null pointer is `none`.
  unfoldable pub add : Pipeline T F → Option T → Pipeline T F
  add p none = p
  add p (some stage) = append p stage

  -- An empty description of the error is `none`.
  unfoldable pub validate : Pipeline T F → Option CompositionError
  validate p = validate_from ops 0 (FieldId.samples ∷ FieldId.format ∷ []) p.stages

  -- The loop of `process`; `elapsed i` is what the clock measures around stage `i`.
  pub run :
      (ℕ → F)
      → Cfg
      → ℕ
      → List T
      → List (StageTiming F)
      → Frame
      → List T × (List (StageTiming F) × Frame)
  run elapsed cfg i [] ts frame = ([], (ts, frame))
  run elapsed cfg i (stage ∷ rest) ts frame =
      let after = ops.process stage frame cfg in
      let timed = if ltb i max_stages then time_stage ts i (elapsed i) else ts in
      let out = run elapsed cfg (suc i) rest timed after.1 in (after.0 ∷ out.0, out.1)

  pub process : (ℕ → F) → F → Pipeline T F → Frame → Cfg → Pipeline T F × Frame
  process elapsed total p frame cfg =
      let out = run elapsed cfg 0 p.stages p.timings frame in
      (
        record p { stages = out.0; timings = out.1.0; total_micros = smooth p.total_micros total },
        out.1.1,
      )

  pub reset : Pipeline T F → Pipeline T F
  reset p = record p {
    stages = map ops.reset p.stages;
    timings = map untimed p.timings;
    total_micros = zero_f;
  }

  pub stage_names : Pipeline T F → List String
  stage_names p = map ops.name p.stages
