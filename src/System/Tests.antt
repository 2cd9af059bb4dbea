-- ===== src/System/Tests.antt =====
-- Two sources over a world that counts calls, and runs of the system on them.
use text.Mathlib.Text.{◌==◌ as str_eq}
use listeningway.Prelude.{
  ℕ, ◌+◌, ◌≡◌, refl, ◌≢◌, ◌⊎◌, true, false, ◌&&◌, none, some, [], ◌∷◌, arith, ltb,
}
use listeningway.System.{
  State, Source, Services, AudioSystem, make_system, choose, start, attempt, start_locked,
  find_source,
}
use listeningway.System.Choice.{FirstOf, choose_cases}
use listeningway.System.Lifecycle.{IsValid, Call, apply_all, apply_all-IsValid, start_lem, Reports}

-- A device that opens while the world is below 10, and a source that always works.
abbrev loopback : Source ℕ
loopback = record {
  code = "system";
  is_default = true;
  order = 0;
  available = λ w. true;
  open_device = λ w. (ltb w 10, w + 1);
  start = λ w. (true, w);
  stop = λ w. w;
}

abbrev off_source : Source ℕ
off_source = record {
  code = "off";
  is_default = false;
  order = 100;
  available = λ w. true;
  open_device = λ w. (true, w);
  start = λ w. (true, w);
  stop = λ w. w;
}

abbrev services : Services ℕ
services = record {
  read_code = λ w. "system";
  write_code = λ c w. w;
  save = λ w. w;
  reset_pipeline = λ w. w;
  publish_zero = λ w. w;
}

abbrev ready : AudioSystem ℕ
ready = record {
  has_store = true;
  sources = loopback ∷ off_source ∷ [];
  current = none;
  dsp_running = false;
  thread = false;
  aborted = false;
  state = State.off;
}

ready-IsValid : IsValid ready
ready-IsValid = ground arith

-- The device fails to open.
start_fails : (start services ready 10).0 ≡ false
unfolding start start_locked attempt choose find_source
start_fails = refl

apply_all-IsValid_example :
    IsValid
      (apply_all services
        (make_system true, 0)
        (Call.registers (some loopback) ∷ Call.starts ∷ Call.switches "off" ∷ Call.stops ∷ [])).0
apply_all-IsValid_example = apply_all-IsValid services true _ 0

start_lem_example :
    IsValid (start services ready 0).1
    × Reports services (start services ready 0)
    × (State.off ≢ State.off
        → ((start services ready 0).1 ≡ ready) × ((start services ready 0).2 ≡ 0))
start_lem_example = start_lem services ready 0 ready-IsValid

choose_cases_example :
    let by_code = λ (s : Source ℕ). str_eq s.code "usb" in
    let by_default = λ (s : Source ℕ). s.is_default && s.available 0 in
    let by_chance = λ (s : Source ℕ). s.available 0 in
    let r = choose ready "usb" 0 in
    ((r ≢ none) × FirstOf by_code ready.sources r)
    ⊎ (FirstOf by_code ready.sources none × (r ≢ none) × FirstOf by_default ready.sources r)
    ⊎ (FirstOf by_code ready.sources none
        × FirstOf by_default ready.sources none
        × FirstOf by_chance ready.sources r)
choose_cases_example = choose_cases ready "usb" 0
