-- ===== src/App/Phases.antt =====
-- What each phase can rely on, and where the boot ends.
use mathlib.Core.Path.{subst}
use listeningway.Prelude.{◌≡◌, refl, sym, ◌≢◌, ◌⊎◌, true, false, not, ◌&&◌, arith}
use listeningway.Boot.{StepResult}
use listeningway.App.{
  Phase, Subsystems, App, make_app, tick_phase, tick_boot, tick_running, stop, boots,
}

-- The pointers that a phase finds set.
abbrev pub HasParts : Phase → App → Type 0
HasParts Phase.load_settings a = (a.store ≡ false) × (a.system ≡ false) × (a.consumers ≡ false)
HasParts Phase.build_audio_system a = (a.store ≡ true) × (a.system ≡ false) × (a.consumers ≡ false)
HasParts Phase.start_audio a = (a.store ≡ true) × (a.system ≡ true) × (a.consumers ≡ false)
HasParts Phase.build_consumers a = (a.store ≡ true) × (a.system ≡ true) × (a.consumers ≡ false)
HasParts Phase.start_consumers a = (a.store ≡ true) × (a.system ≡ true) × (a.consumers ≡ true)
HasParts Phase.running a = (a.store ≡ true) × (a.system ≡ true) × (a.consumers ≡ true)
HasParts Phase.failed a = (a.store ≡ true) × (a.system ≡ true) × (a.consumers ≡ false)

abbrev pub Booting : App → Type 0
Booting a = HasParts a.phase a

below_consumers :
    (p : Phase) (a : App) → HasParts p a → a.consumers ≡ true → (a.store ≡ true) × (a.system ≡ true)
below_consumers Phase.load_settings a h e = ground arith
below_consumers _ a h e = ground arith

module _ {W : Type 0} (parts : Subsystems W) where
  tick_phase-HasParts :
      (p : Phase) (a : App) (w : W)
      → HasParts p a
      → a.phase ≡ p
      → HasParts (tick_phase parts p a w).1.phase (tick_phase parts p a w).1
  unfolding tick_phase
  tick_phase-HasParts Phase.load_settings a w h e = ground arith
  tick_phase-HasParts Phase.build_audio_system a w h e = ground arith
  tick_phase-HasParts Phase.start_audio a w h e = ground arith
  tick_phase-HasParts Phase.build_consumers a w h e = ground arith
  tick_phase-HasParts Phase.start_consumers a w h e = ground arith
  tick_phase-HasParts Phase.running a w h e = rw e h
  tick_phase-HasParts Phase.failed a w h e = rw e h

  -- Each boot tick keeps the pointers that the next phase relies on.
  tick_boot-Booting : (a : App) (w : W) → Booting a → Booting (tick_boot parts a w).1
  unfolding tick_boot
  tick_boot-Booting a w h = tick_phase-HasParts a.phase a w h refl

  -- The states that boot ticks lead to from a new application, whatever the world is at each tick.
  pub data Booted : App → Type 0 where
    new : Booted make_app
    ticked : {a b : App} → Booted a → (w : W) → b ≡ (tick_boot parts a w).1 → Booted b

  Booted-Booting : (a : App) → Booted a → Booting a
  unfolding make_app
  Booted-Booting a new = (refl, refl, refl)
  Booted-Booting b (ticked {a = a} r w e) =
      subst Booting (sym e) (tick_boot-Booting a w (Booted-Booting a r))

  fails_in :
      (p : Phase) (a : App) (w : W)
      → a.phase ≡ p
      → HasParts p a
      → p ≢ Phase.failed
      → (tick_phase parts p a w).0 ≡ StepResult.failed
      → ((p ≡ Phase.build_audio_system)
          × (parts.checks ≡ true)
          × (parts.pipeline_valid (parts.build_system w) ≡ false))
        ⊎ ((p ≡ Phase.start_audio) × ((parts.start_system w).0 ≡ false))
  unfolding tick_phase
  fails_in Phase.load_settings a w e h n f = cc
  fails_in Phase.build_audio_system a w e h n f = ground arith
  fails_in Phase.start_audio a w e h n f = ground arith
  fails_in Phase.build_consumers a w e h n f = ground arith
  fails_in Phase.start_consumers a w e h n f = ground arith
  fails_in Phase.running a w e h n f = cc
  fails_in Phase.failed a w e h n f = absurd (n refl)

  -- After any number of boot ticks from a new application, in whatever worlds: a tick of a boot that
  -- has not failed yet fails only where a checked build finds the pipeline badly composed, or where the
  -- audio system does not start. So no phase fails on a null pointer.
  pub tick_boot_fails :
      (a : App) (w : W)
      → Booted a
      → a.phase ≢ Phase.failed
      → (tick_boot parts a w).0 ≡ StepResult.failed
      → ((a.phase ≡ Phase.build_audio_system)
          × (parts.checks ≡ true)
          × (parts.pipeline_valid (parts.build_system w) ≡ false))
        ⊎ ((a.phase ≡ Phase.start_audio) × ((parts.start_system w).0 ≡ false))
  unfolding tick_boot
  tick_boot_fails a w h n f = fails_in a.phase a w refl (Booted-Booting a h) n f

  -- If the pipeline passes and the audio system starts, five frames boot the add-on, with each part
  -- brought up once and in order; the fifth reports done.
  pub boots_complete :
      (w : W)
      → let built = parts.build_system (parts.set_log (parts.load_store w)) in
        parts.checks && not (parts.pipeline_valid built) ≡ false
        → (parts.start_system built).0 ≡ true
        → boots parts 5 make_app w ≡ (
          StepResult.done,
          record { phase = Phase.running; store = true; system = true; consumers = true },
          parts.start_all (parts.make_consumers (parts.start_system built).1),
        )
  unfolding boots tick_boot tick_phase make_app
  boots_complete w ok started = rw (ok, started)

  -- `stop` tears down what a boot brought up, consumers first and the saved store last; it leaves
  -- no part set, so that a second `stop` and the upkeep between frames do nothing.
  pub stop_teardown :
      (a : App) (w : W)
      → Booting a
      → let (b, u) = stop parts a w in
        (b.store ≡ false)
        × (b.system ≡ false)
        × (b.consumers ≡ false)
        × (stop parts b u ≡ (b, u))
        × (tick_running parts b u ≡ u)
        × (a.consumers ≡ true → u ≡ parts.save_store (parts.stop_system (parts.stop_all w)))
  unfolding stop tick_running
  stop_teardown a w h = (
    refl,
    refl,
    refl,
    refl,
    ground arith,
    λ up. let both = below_consumers a.phase a h up in rw (up, both.0, both.1),
  )
