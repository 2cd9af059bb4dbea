-- ===== src/App/Tests.antt =====
-- Subsystems over a list that logs the calls, and boots on them.
use Prim.Native.String.{String}
use listeningway.Prelude.{◌≡◌, refl, ◌⊎◌, Bool, true, false, some, List, [], ◌∷◌}
use listeningway.Boot.{StepResult, Scheduler, is_done, run_entry, ticks}
use listeningway.Boot.Progress.{Drains, at_once, later, one_more, none_left, ticks_complete}
use listeningway.App.{Phase, Subsystems, App, make_app, tick_phase, tick_boot, boots}
use listeningway.App.Phases.{Booted, new, ticked, tick_boot_fails, boots_complete}

-- The newest call first. The audio system starts if the flag is set.
abbrev logging : Bool → Subsystems (List String)
logging starts = record {
  load_store = λ w. "load" ∷ w;
  set_log = λ w. w;
  build_system = λ w. "build" ∷ w;
  checks = true;
  pipeline_valid = λ w. true;
  start_system = λ w. (starts, "start" ∷ w);
  make_consumers = λ w. "consumers" ∷ w;
  start_all = λ w. "start_all" ∷ w;
  poll_self_disarm = λ w. "poll" ∷ w;
  stop_all = λ w. "stop_all" ∷ w;
  stop_system = λ w. "stop" ∷ w;
  save_store = λ w. "save" ∷ w;
}

abbrev at_start : App
at_start = record { phase = Phase.start_audio; store = true; system = true; consumers = false }

abbrev up : App
up = record { phase = Phase.running; store = true; system = true; consumers = true }

at_start-Booted : Booted (logging false) at_start
unfolding make_app tick_boot tick_phase
at_start-Booted = ticked (ticked new [] refl) [] refl

tick_boot_fails_example :
    ((Phase.start_audio ≡ Phase.build_audio_system) × (true ≡ true) × (true ≡ false))
    ⊎ ((Phase.start_audio ≡ Phase.start_audio) × (false ≡ false))
unfolding tick_boot tick_phase
tick_boot_fails_example = tick_boot_fails (logging false) at_start [] at_start-Booted (λ e. cc) refl

boots_complete_example :
    boots (logging true) 5 make_app []
    ≡ (StepResult.done, up, "start_all" ∷ "consumers" ∷ "start" ∷ "build" ∷ "load" ∷ [])
boots_complete_example = boots_complete (logging true) [] refl refl

-- The queue of one boot step, over the application and its world.
abbrev boot_step : App × List String → StepResult × (App × List String)
boot_step (a, w) = let r = tick_boot (logging true) a w in (r.0, (r.1, r.2))

abbrev boot_queue : Scheduler (App × List String)
boot_queue = record {
  steps = record { name = "app"; step = some boot_step } ∷ [];
  next = 0;
  is_failed = false;
}

abbrev booted : App × List String
booted = (up, "start_all" ∷ "consumers" ∷ "start" ∷ "build" ∷ "load" ∷ [])

boot_queue-Drains : Drains boot_queue.steps 5 (make_app, []) booted
unfolding tick_boot tick_phase make_app run_entry
boot_queue-Drains =
    one_more (later refl (later refl (later refl (later refl (at_once refl))))) none_left refl

ticks_complete_example :
    (ticks 5 boot_queue (make_app, []) ≡ (record boot_queue { next = 1 }, booted))
    × (is_done (ticks 5 boot_queue (make_app, [])).0 ≡ true)
ticks_complete_example =
    ticks_complete boot_queue 5 (make_app, []) booted refl refl boot_queue-Drains
