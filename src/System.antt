-- ===== src/System.antt =====
-- src/audio/pipeline/audio_system.{h,cpp}: the life of the audio system, its choice of a source and
-- its two threads. Each public call holds `state_mutex_`, so a call is one step. Sources, settings
-- store and pipeline act on a world `W` and are parameters.
pub mod Lifecycle
pub mod Choice
pub mod Tests
use Prim.Native.String.{String}
use text.Mathlib.Text.{◌==◌ as str_eq}
use listeningway.Prelude.{
  ℕ, Bool, true, false, ◌&&◌, ◌||◌, Option, none, some, List, [], ◌∷◌, ◌++◌, leb, ◌==◌,
  if◌then◌else◌,
}

pub data State : Type 0 where
  off starting running stopping error : State

-- `IAudioSource`, with the fields of `Info` that the system reads. `open` gives false for `nullopt`.
pub record Source (W : Type 0) : Type 0 where
  pub code : String
  pub is_default : Bool
  pub order : ℕ
  pub available : W → Bool
  pub open_device : W → Bool × W
  pub start : W → Bool × W
  pub stop : W → W

-- What the system calls: the capture code in the store's settings, its change and save, the reset of
-- the pipeline, and the publication of a zeroed snapshot.
pub record Services (W : Type 0) : Type 0 where
  pub read_code : W → String
  pub write_code : String → W → W
  pub save : W → W
  pub reset_pipeline : W → W
  pub publish_zero : W → W

-- `has_store` tells a null `store_`; `thread` is `dsp_thread_.joinable()`, and `aborted` records that
-- a thread was assigned over a joinable one, on which C++ terminates.
pub record AudioSystem (W : Type 0) : Type 0 where
  pub has_store : Bool
  pub sources : List (Source W)
  pub current : Option (Source W)
  pub dsp_running : Bool
  pub thread : Bool
  pub aborted : Bool
  pub state : State

module _ {W : Type 0} where
  pub make_system : Bool → AudioSystem W
  make_system has_store = record {
    has_store = has_store;
    sources = [];
    current = none;
    dsp_running = false;
    thread = false;
    aborted = false;
    state = State.off;
  }

  -- `none` is a null pointer.
  pub register_source : AudioSystem W → Option (Source W) → AudioSystem W
  register_source a none = a
  register_source a (some s) = record a { sources = a.sources ++ (s ∷ []) }

  -- The first source that passes a test.
  abbrev pub first : (Source W → Bool) → List (Source W) → Option (Source W)
  first p [] = none
  first p (s ∷ ss) = if p s then some s else first p ss

  pub find_source : AudioSystem W → String → Option (Source W)
  find_source a code = first (λ s. str_eq s.code code) a.sources

  -- `available_sources`: a stable insertion of the available ones by `order`. (`std::sort` leaves
  -- the order of equal keys open.)
  insert_by_order : Source W → List (Source W) → List (Source W)
  insert_by_order s [] = s ∷ []
  insert_by_order s (t ∷ ts) = if leb s.order t.order then s ∷ t ∷ ts else t ∷ insert_by_order s ts

  sorted_available : List (Source W) → W → List (Source W)
  unfolding insert_by_order
  sorted_available [] w = []
  sorted_available (s ∷ ss) w =
      if s.available w then insert_by_order s (sorted_available ss w) else sorted_available ss w

  pub available_sources : AudioSystem W → W → List (Source W)
  unfolding sorted_available
  available_sources a w = sorted_available a.sources w

  abbrev or_else : Option (Source W) → Option (Source W) → Option (Source W)
  or_else none b = b
  or_else (some s) b = some s

  -- The head of `start_locked`: the configured source, else the first default one that is
  -- available, else the first available one.
  pub choose : AudioSystem W → String → W → Option (Source W)
  unfolding find_source
  choose a code w = or_else (find_source a code) (
      or_else (first (λ s. s.is_default && s.available w) a.sources)
        (first (λ s. s.available w) a.sources))

  module _ (services : Services W) where
    open services use {read_code, write_code, save, reset_pipeline, publish_zero}

    -- From the thread's creation to the end of `start_locked`.
    launch : AudioSystem W → Source W → W → Bool × AudioSystem W × W
    launch a s w =
        let spun = record a {
          dsp_running = true;
          thread = true;
          aborted = a.aborted || a.thread;
        } in
        let r = s.start w in
        if r.0
        then (true, record spun { state = State.running }, r.1)
        else (false, record spun { dsp_running = false; thread = false; state = State.error }, r.1)

    -- The null tests and `open`, behind the choice.
    attempt : AudioSystem W → Option (Source W) → W → Bool × AudioSystem W × W
    unfolding launch
    attempt a none w = (false, record a { current = none; state = State.error }, w)
    attempt a (some s) w =
        let o = s.open_device w in
        if o.0
        then launch (record a { current = some s; state = State.starting }) s o.1
        else (false, record a { current = some s; state = State.error }, o.1)

    abbrev chosen : AudioSystem W → W → Option (Source W)
    chosen a w = choose a (if a.has_store then read_code w else "system") w

    start_locked : AudioSystem W → W → Bool × AudioSystem W × W
    unfolding attempt choose
    start_locked a w = attempt a (chosen a w) w

    pub start : AudioSystem W → W → Bool × AudioSystem W × W
    unfolding start_locked
    start a w = elim a.state [
      | State.off ↦ start_locked a w
      | State.running ↦ (true, a, w)
      | _ ↦ (false, a, w)
    ]

    abbrev stop_source : Option (Source W) → W → W
    stop_source none w = w
    stop_source (some s) w = s.stop w

    -- The part of `stop_locked` behind its early return.
    halt : AudioSystem W → W → AudioSystem W × W
    halt a w = (
      record a { current = none; dsp_running = false; thread = false; state = State.off },
      publish_zero (reset_pipeline (stop_source a.current w)),
    )

    pub stop : AudioSystem W → W → AudioSystem W × W
    unfolding halt
    stop a w = elim a.state [ State.off ↦ (a, w) | _ ↦ halt a w ]

    pub switch_source : AudioSystem W → String → W → Bool × AudioSystem W × W
    unfolding stop start_locked
    switch_source a code w =
        let (b, w') = stop a w in
        start_locked b (if b.has_store then save (write_code code w') else w')
