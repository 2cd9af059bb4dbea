-- ===== src/Dsp/Pipeline/Tests.antt =====
-- The pipeline of the application, and one that is not composed.
use listeningway.Prelude.{ℕ, ◌+◌, ◌≡◌, refl, ◌⊎◌, none, some, List, [], ◌∷◌, ◌==◌, if◌then◌else◌}
use listeningway.Prelude.Int.{pos}
use listeningway.Float.Fixed.{Fixed, fixed_float}
use listeningway.Dsp.Pipeline.{
  CompositionError, FieldId, IDspStage, Pipeline, validate, validate_from, first_missing, contains,
  process, no_timings,
}
use listeningway.Dsp.Pipeline.Composition.{IsComposed, Unmet, validate_cases}
use listeningway.Dsp.Pipeline.Effects.{through, Call, process_through}

-- A stage that counts its frames, and adds its number to the frame.
pub record Counter : Type 0 where
  pub number : ℕ
  pub frames : ℕ

abbrev counters : IDspStage Counter ℕ Unit
counters = record {
  name = λ c. "counter";
  reads = λ c. if c.number == 2 then FieldId.bands ∷ [] else FieldId.samples ∷ [];
  writes = λ c. if c.number == 1 then FieldId.bands ∷ [] else FieldId.volume ∷ [];
  process = λ c frame cfg. (record c { frames = c.frames + 1 }, frame + c.number);
  reset = λ c. record c { frames = 0 };
}

abbrev counter : ℕ → Counter
counter n = record { number = n; frames = 0 }

abbrev pipeline_of : List Counter → Pipeline Counter Fixed
pipeline_of cs = record { stages = cs; timings = no_timings; total_micros = some (pos 0) }

abbrev composed : Pipeline Counter Fixed
composed = pipeline_of (counter 1 ∷ counter 2 ∷ [])

composed_accepted : validate counters composed ≡ none
unfolding validate validate_from first_missing contains
composed_accepted = refl

abbrev swapped : Pipeline Counter Fixed
swapped = pipeline_of (counter 2 ∷ counter 1 ∷ [])

validate_cases_example :
    (validate counters swapped ≡ none) × IsComposed counters swapped.stages
    ⊎ ((e : CompositionError) × (validate counters swapped ≡ some e)
        × Unmet counters swapped.stages e)
validate_cases_example = validate_cases counters swapped

process_through_example :
    ((process counters (λ i. some (pos i)) (some (pos 9)) composed 10 tt).0.stages
      ≡ (through counters tt composed.stages 10).0)
    × ((process counters (λ i. some (pos i)) (some (pos 9)) composed 10 tt).1
        ≡ (through counters tt composed.stages 10).1)
process_through_example = process_through counters (λ i. some (pos i)) (some (pos 9)) composed 10 tt

abbrev used : List (Call Counter ℕ Unit Fixed)
used =
    Call.add (some (counter 1))
    ∷ Call.add none
    ∷ Call.process (λ i. some (pos i)) (some (pos 9)) 10 tt
    ∷ Call.reset
    ∷ []
