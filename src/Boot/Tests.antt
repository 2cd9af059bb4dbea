-- ===== src/Boot/Tests.antt =====
-- Tests and instances for the boot scheduler.
use listeningway.Prelude.{ℕ, ◌+◌, ◌*◌, ◌≡◌, refl, true, false, some, [], ◌∷◌, arith}
use listeningway.Boot.{Scheduler, done, last_step_name}
use listeningway.Boot.Halting.{IsValid}

-- Two steps that count, and one that fails.
abbrev two_steps : Scheduler ℕ
two_steps = record {
  steps =
      record { name = "load"; step = some (λ w. (done, w + 1)) }
      ∷ record { name = "start"; step = some (λ w. (done, w * 10)) }
      ∷ [];
  next = 0;
  is_failed = false;
}

abbrev halted : Scheduler ℕ
halted = record two_steps { next = 1; is_failed = true }

two_steps-IsValid : IsValid two_steps
two_steps-IsValid = record { within = omega arith; failed_at = λ e. cc }

halted-IsValid : IsValid halted
halted-IsValid = record { within = omega arith; failed_at = λ e. omega arith }

failed_name : last_step_name halted ≡ some "start"
unfolding last_step_name
failed_name = refl
