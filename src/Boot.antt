-- ===== src/Boot.antt =====
-- src/boot/scheduler.{h,cpp}: the queue of boot steps, one tried per rendered frame.
pub mod Halting
pub mod Progress
pub mod Tests
use Prim.Native.String.{String}
use listeningway.Prelude.{
  ℕ, suc, ◌-◌, Bool, true, false, not, ◌&&◌, ◌||◌, Option, none, some, List, [], ◌∷◌, ◌++◌, length,
  get_elem?, ◌==◌, leb, if◌then◌else◌,
}

-- Tri-state result of one step.
pub data StepResult : Type 0 where
  done continue failed : StepResult

-- A step is a closure over the world `W` that it changes; an empty `std::function` is `none`.
pub record Entry (W : Type 0) : Type 0 where
  pub name : String
  pub step : Option (W → StepResult × W)

pub record Scheduler (W : Type 0) : Type 0 where
  pub steps : List (Entry W)
  pub next : ℕ
  pub is_failed : Bool

module _ {W : Type 0} where
  pub init : Scheduler W
  init = record { steps = []; next = 0; is_failed = false }

  pub enqueue : Scheduler W → String → Option (W → StepResult × W) → Scheduler W
  enqueue s name step = record s { steps = s.steps ++ (record { name = name; step = step } ∷ []) }

  pub is_empty : Scheduler W → Bool
  is_empty s = leb (length s.steps) s.next

  pub is_done : Scheduler W → Bool
  unfolding is_empty
  is_done s = is_empty s && not s.is_failed

  -- `entry.step ? entry.step() : StepResult::Done`; an index out of range cannot occur behind the
  -- guard of `tick`, and is read as an empty closure.
  unfoldable pub run_entry : Option (Entry W) → W → StepResult × W
  run_entry none w = (done, w)
  run_entry (some e) w = elim e.step [ none ↦ (done, w) | some f ↦ f w ]

  -- The `switch` of `tick`.
  advance : Scheduler W → StepResult → Scheduler W
  advance s done = record s { next = suc s.next }
  advance s continue = s
  advance s failed = record s { is_failed = true }

  pub tick : Scheduler W → W → Bool × Scheduler W × W
  unfolding is_empty run_entry advance
  tick s w =
      if s.is_failed || is_empty s
      then (false, s, w)
      else (let r = run_entry (get_elem? s.steps s.next) w in (true, advance s r.0, r.1))

  -- `steps_[idx].name`, `none` where the vector would be read out of range.
  pub name_at : Scheduler W → ℕ → Option String
  name_at s i = elim (get_elem? s.steps i) [ none ↦ none | some e ↦ some e.name ]

  -- An empty `string_view` is `some ""`.
  pub last_step_name : Scheduler W → Option String
  unfolding name_at
  last_step_name s =
      if (s.next == 0) && not s.is_failed
      then some ""
      else name_at s (if s.is_failed then s.next else s.next - 1)

  -- `n` frames.
  pub ticks : ℕ → Scheduler W → W → Scheduler W × W
  ticks ℕ.zero s w = (s, w)
  ticks (suc n) s w = let r = tick s w in ticks n r.1 r.2
