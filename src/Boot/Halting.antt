-- ===== src/Boot/Halting.antt =====
-- What a tick may do to the queue: order, halting, and the reads of the step vector.
use Prim.Native.String.{String}
use listeningway.Prelude.{
  get_elem?-ne-none, ◌-◌, ◌≤◌, ◌<◌, ◌≡◌, ◌≢◌, true, false, Option, none, [], ◌∷◌, arith, length,
  get_elem?, length-append,
}
use listeningway.Boot.{
  StepResult, Scheduler, done, continue, failed, tick, last_step_name, run_entry, advance, init,
  enqueue,
}

-- What holds between calls: the cursor never passes the end, and a failure is recorded at a step
-- that exists.
pub record IsValid {W : Type 0} (s : Scheduler W) : Type 0 where
  pub within : s.next ≤ length s.steps
  pub failed_at : s.is_failed ≡ true → s.next < length s.steps

module _ {W : Type 0} where
  pub init-IsValid : IsValid (init {W = W})
  unfolding init
  init-IsValid = record { within = omega arith; failed_at = λ e. cc }

  pub enqueue-IsValid :
      (s : Scheduler W) (name : String) (step : Option (W → StepResult × W))
      → IsValid s
      → IsValid (enqueue s name step)
  unfolding enqueue
  enqueue-IsValid s name step v =
      let more = length-append s.steps (record { name = name; step = step } ∷ []) in
      record { within = omega (arith, v.within); failed_at = λ e. omega (arith, v.failed_at e) }

  -- The branches of `tick` on the queue, with the step's own result `r`.
  advance-IsValid :
      (s : Scheduler W) (r : StepResult)
      → s.next < length s.steps
      → s.is_failed ≡ false
      → IsValid (advance s r)
  unfolding advance
  advance-IsValid s done h e = record { within = h; failed_at = λ f. cc }
  advance-IsValid s continue h e = record { within = omega arith; failed_at = λ f. cc }
  advance-IsValid s failed h e = record { within = omega arith; failed_at = λ f. h }

  -- From a scheduler whose position is inside its queue, and at a step if it has failed, every tick
  -- leads to such a scheduler.
  pub tick-IsValid : (s : Scheduler W) (w : W) → IsValid s → IsValid (tick s w).1
  unfolding tick
  tick-IsValid s w v = ground (arith, advance-IsValid s (run_entry (get_elem? s.steps s.next) w).0)

  -- In a valid queue the name of the last step is always read inside the vector.
  pub last_step_name-ne-none : (s : Scheduler W) → IsValid s → last_step_name s ≢ none
  unfolding last_step_name
  last_step_name-ne-none s v =
      ground (
        arith,
        v.failed_at,
        get_elem?-ne-none s.steps s.next,
        get_elem?-ne-none s.steps (s.next - 1),
      )
