-- ===== src/Output/Registry.antt =====
-- src/output/consumer_registry.{h,cpp}: which consumers run, against the settings. A consumer is the
-- `IOutputConsumer` interface: its answers, and what its calls do to a world `W` that holds the
-- consumers' own state. The settings are any type `C`.
pub mod Toggles
pub mod Disarm
pub mod Tests
use Prim.Native.String.{String}
use text.Mathlib.Text.{◌==◌ as str_eq}
use listeningway.Prelude.{
  Bool, true, false, not, ◌&&◌, ◌||◌, Option, none, some, List, [], ◌∷◌, ◌++◌, ◌==◌, if◌then◌else◌,
  length, replicate,
}

pub record Consumer (W : Type 0) (C : Type 0) : Type 0 where
  pub id : String
  pub is_user_configurable : Bool
  pub is_enabled : C → Bool
  pub start : W → Bool × W
  pub stop : W → W
  pub wants_self_disarm : W → Bool
  pub disarm_in_settings : C → C

-- `consumers_` and the parallel `active_`.
pub record Registry (W : Type 0) (C : Type 0) : Type 0 where
  pub consumers : List (Consumer W C)
  pub active : List Bool

module _ {W C : Type 0} where
  pub empty : Registry W C
  empty = record { consumers = []; active = [] }

  -- `none` is a null pointer.
  pub add : Registry W C → Option (Consumer W C) → Registry W C
  add r none = r
  add r (some c) = record { consumers = r.consumers ++ (c ∷ []); active = r.active ++ (false ∷ []) }

  -- One round of the loop of `start_all`.
  start_one : Consumer W C → Bool → C → W → Bool × W
  start_one c a settings w =
      if a
      then (true, w)
      else if not c.is_user_configurable || c.is_enabled settings
      then c.start w
      else (false, w)

  -- One round of the loop of `on_settings_changed`.
  toggle_one : Consumer W C → Bool → C → W → Bool × W
  toggle_one c a settings w =
      if not c.is_user_configurable
      then (a, w)
      else if c.is_enabled settings && not a
      then c.start w
      else if not (c.is_enabled settings) && a
      then (false, c.stop w)
      else (a, w)

  -- The loop over both vectors. Behind the resize they have one length; a missing flag is one that
  -- `assign` sets.
  each :
      (Consumer W C → Bool → C → W → Bool × W)
      → List (Consumer W C)
      → List Bool
      → C
      → W
      → List Bool × W
  each f [] flags settings w = ([], w)
  each f (c ∷ cs) [] settings w =
      let r = f c false settings w in let rest = each f cs [] settings r.1 in (r.0 ∷ rest.0, rest.1)
  each f (c ∷ cs) (a ∷ flags) settings w =
      let r = f c a settings w in let rest = each f cs flags settings r.1 in (r.0 ∷ rest.0, rest.1)

  -- `active_.assign` where the lengths differ.
  abbrev sized : Registry W C → List Bool
  sized r =
      if length r.active == length r.consumers
      then r.active
      else replicate (length r.consumers) false

  pub start_all : Registry W C → C → W → Registry W C × W
  unfolding each start_one
  start_all r settings w =
      let s = each start_one r.consumers (sized r) settings w in (record r { active = s.0 }, s.1)

  pub on_settings_changed : Registry W C → C → W → Registry W C × W
  unfolding each toggle_one
  on_settings_changed r settings w =
      let s = each toggle_one r.consumers r.active settings w in (record r { active = s.0 }, s.1)

  -- The loop of `stop_all`, from the last consumer to the first.
  stop_each : List (Consumer W C) → List Bool → W → List Bool × W
  stop_each [] flags w = ([], w)
  stop_each (c ∷ cs) [] w = ([], w)
  stop_each (c ∷ cs) (a ∷ flags) w =
      let rest = stop_each cs flags w in (false ∷ rest.0, if a then c.stop rest.1 else rest.1)

  pub stop_all : Registry W C → W → Registry W C × W
  unfolding stop_each
  stop_all r w = let s = stop_each r.consumers r.active w in (record r { active = s.0 }, s.1)

  find_in : List (Consumer W C) → String → Option (Consumer W C)
  find_in [] id = none
  find_in (c ∷ cs) id = if str_eq c.id id then some c else find_in cs id

  pub find_by_id : Registry W C → String → Option (Consumer W C)
  unfolding find_in
  find_by_id r id = find_in r.consumers id

  -- The loop of `poll_self_disarm`, with the flag `any`. `mutate` is the store's.
  disarm_each : {T : Type 0} → (T → (C → C) → T) → List (Consumer W C) → W → T → Bool × T
  disarm_each mutate [] w store = (false, store)
  disarm_each mutate (c ∷ cs) w store =
      let wants = c.wants_self_disarm w in
      let rest =
        disarm_each mutate cs w (if wants then mutate store c.disarm_in_settings else store) in
      (wants || rest.0, rest.1)

  pub poll_self_disarm :
      {T : Type 0} → (T → (C → C) → T) → (T → C) → Registry W C → T → W → Registry W C × T × W
  unfolding disarm_each
  poll_self_disarm mutate snapshot r store w =
      let d = disarm_each mutate r.consumers w store in
      if d.0
      then (let s = on_settings_changed r (snapshot d.1) w in (s.0, d.1, s.1))
      else (r, d.1, w)
