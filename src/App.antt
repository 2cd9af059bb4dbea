-- ===== src/App.antt =====
-- src/app.{h,cpp}: the phases of the boot, the upkeep between frames, and the teardown. The
-- subsystems act on a world `W`; what the phases call of them is a parameter.
pub mod Phases
pub mod Tests
use listeningway.Prelude.{ℕ, zero, suc, Bool, true, false, not, ◌&&◌, ◌||◌, if◌then◌else◌}
use listeningway.Boot.{StepResult}

pub data Phase : Type 0 where
  load_settings build_audio_system start_audio build_consumers start_consumers running failed :
      Phase

-- The calls of `App` on its three parts, in the order of the source; `checks` is a build without
-- NDEBUG, and `pipeline_valid` the emptiness of `validate()`.
pub record Subsystems (W : Type 0) : Type 0 where
  pub load_store : W → W
  pub set_log : W → W
  pub build_system : W → W
  pub checks : Bool
  pub pipeline_valid : W → Bool
  pub start_system : W → Bool × W
  pub make_consumers : W → W
  pub start_all : W → W
  pub poll_self_disarm : W → W
  pub stop_all : W → W
  pub stop_system : W → W
  pub save_store : W → W

-- The phase, and which of the three pointers are set.
pub record App : Type 0 where
  pub phase : Phase
  pub store : Bool
  pub system : Bool
  pub consumers : Bool

pub make_app : App
make_app = record { phase = Phase.load_settings; store = false; system = false; consumers = false }

module _ {W : Type 0} (parts : Subsystems W) where
  open parts use {
    load_store, set_log, build_system, checks, pipeline_valid, start_system, make_consumers,
    start_all, poll_self_disarm, stop_all, stop_system, save_store,
  }

  -- `phase_ = Phase::Failed; return StepResult::Failed;`
  abbrev fail : App → W → StepResult × App × W
  fail a w = (StepResult.failed, record a { phase = Phase.failed }, w)

  -- `phase_ = p; return StepResult::Continue;`
  abbrev go_on : App → Phase → W → StepResult × App × W
  go_on a p w = (StepResult.continue, record a { phase = p }, w)

  pub tick_phase : Phase → App → W → StepResult × App × W
  tick_phase Phase.load_settings a w =
      go_on (record a { store = true }) Phase.build_audio_system (set_log (load_store w))
  tick_phase Phase.build_audio_system a w =
      if not a.store
      then fail a w
      else (let built = build_system w in
          if checks && not (pipeline_valid built)
          then fail (record a { system = true }) built
          else go_on (record a { system = true }) Phase.start_audio built)
  tick_phase Phase.start_audio a w =
      if not a.system
      then fail a w
      else (let r = start_system w in if r.0 then go_on a Phase.build_consumers r.1 else fail a r.1)
  tick_phase Phase.build_consumers a w =
      if not a.store
      then fail a w
      else go_on (record a { consumers = true }) Phase.start_consumers (make_consumers w)
  tick_phase Phase.start_consumers a w =
      if not a.consumers || not a.system || not a.store
      then fail a w
      else (StepResult.done, record a { phase = Phase.running }, start_all w)
  tick_phase Phase.running a w = (StepResult.done, a, w)
  tick_phase Phase.failed a w = (StepResult.failed, a, w)

  pub tick_boot : App → W → StepResult × App × W
  unfolding tick_phase
  tick_boot a w = tick_phase a.phase a w

  abbrev is_running : Phase → Bool
  is_running Phase.running = true
  is_running _ = false

  pub tick_running : App → W → W
  tick_running a w =
      if not (is_running a.phase)
      then w
      else if not a.consumers || not a.system || not a.store
      then w
      else poll_self_disarm (set_log w)

  pub stop : App → W → App × W
  stop a w =
      let w₁ = if a.consumers then stop_all w else w in
      let w₂ = if a.system then stop_system w₁ else w₁ in
      let w₃ = if a.store then save_store w₂ else w₂ in
      (record a { consumers = false; system = false; store = false }, w₃)

  -- `n` frames of the boot.
  pub boots : ℕ → App → W → StepResult × App × W
  boots zero a w = (StepResult.continue, a, w)
  boots (suc zero) a w = tick_boot a w
  boots (suc (suc n)) a w = let r = tick_boot a w in boots (suc n) r.1 r.2
