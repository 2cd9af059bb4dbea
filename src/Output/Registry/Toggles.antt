-- ===== src/Output/Registry/Toggles.antt =====
-- Which consumers are active after each call.
use listeningway.Prelude.{
  suc, ◌≡◌, refl, ap, Bool, true, false, Option, none, some, List, [], ◌∷◌, arith, length, All,
  length-append,
}
use listeningway.Output.Registry.{
  Consumer, Registry, add, start_one, toggle_one, each, start_all, on_settings_changed, stop_each,
  stop_all,
}

-- The calls on a registry, with what the outside contributes.
pub data Call (W C : Type 0) : Type 0 where
  adds : Option (Consumer W C) → Call W C
  starts changes : C → Call W C
  stops : Call W C

abbrev pub Inactive : Bool → Type 0
Inactive a = a ≡ false

module _ {W C : Type 0} where
  -- One flag for each consumer.
  abbrev pub IsPaired : Registry W C → Type 0
  IsPaired r = length r.active ≡ length r.consumers

  -- What a settings change makes of one flag and of the world: always-on consumers are left alone; a
  -- disabled one ends inactive, stopped if it ran; an enabled one that runs is left alone, and one that
  -- does not is started, its flag the result.
  pub record Toggled (c : Consumer W C) (settings : C) (a : Bool) (w : W) (b : Bool) (u : W)
      : Type 0 where
    pub always_on : c.is_user_configurable ≡ false → (b ≡ a) × (u ≡ w)
    pub stopped :
        c.is_user_configurable ≡ true
        → c.is_enabled settings ≡ false
        → a ≡ true
        → (b ≡ false) × (u ≡ c.stop w)
    pub unstarted :
        c.is_user_configurable ≡ true
        → c.is_enabled settings ≡ false
        → a ≡ false
        → (b ≡ false) × (u ≡ w)
    pub kept :
        c.is_user_configurable ≡ true
        → c.is_enabled settings ≡ true
        → a ≡ true
        → (b ≡ true) × (u ≡ w)
    pub started :
        c.is_user_configurable ≡ true
        → c.is_enabled settings ≡ true
        → a ≡ false
        → (b ≡ (c.start w).0) × (u ≡ (c.start w).1)

  -- The same of all consumers, each in the world that the one before it leaves.
  abbrev pub AllToggled : List (Consumer W C) → C → List Bool → W → List Bool → W → Type 0
  AllToggled [] settings before w after u = (before ≡ []) × (after ≡ []) × (u ≡ w)
  AllToggled (c ∷ cs) settings [] w after u = ⊥
  AllToggled (c ∷ cs) settings (a ∷ before) w [] u = ⊥
  AllToggled (c ∷ cs) settings (a ∷ before) w (b ∷ after) u =
      (v : W) × (Toggled c settings a w b v × AllToggled cs settings before v after u)

  pub disabled-Toggled :
      (c : Consumer W C) (settings : C) (a : Bool) (w : W) (b : Bool) (u : W)
      → Toggled c settings a w b u
      → c.is_user_configurable ≡ true
      → c.is_enabled settings ≡ false
      → b ≡ false
  disabled-Toggled c settings true w b u t e f = (t.stopped e f refl).0
  disabled-Toggled c settings false w b u t e f = (t.unstarted e f refl).0

  toggle_one-Toggled :
      (c : Consumer W C) (a : Bool) (settings : C) (w : W)
      → Toggled c settings a w (toggle_one c a settings w).0 (toggle_one c a settings w).1
  unfolding toggle_one
  toggle_one-Toggled c a settings w = ground arith

  each-AllToggled :
      (cs : List (Consumer W C)) (flags : List Bool) (settings : C) (w : W)
      → length flags ≡ length cs
      → AllToggled cs settings flags w
          (each toggle_one cs flags settings w).0
          (each toggle_one cs flags settings w).1
  unfolding each
  each-AllToggled [] [] settings w e = (refl, refl, refl)
  each-AllToggled [] (a ∷ flags) settings w e = absurd (omega arith)
  each-AllToggled (c ∷ cs) [] settings w e = absurd (omega arith)
  each-AllToggled (c ∷ cs) (a ∷ flags) settings w e = (
    (toggle_one c a settings w).1,
    (toggle_one-Toggled c a settings w, each-AllToggled cs flags settings _ (omega arith)),
  )

  -- With one flag for each consumer: a settings change goes through the consumers in order, each in
  -- the world that the one before it leaves; it leaves the always-on ones and those that run as
  -- they should alone, stops the active ones that are disabled, and starts the inactive ones that
  -- are enabled, whose flags are then the results of the starts.
  pub on_settings_changed-AllToggled :
      (r : Registry W C) (settings : C) (w : W)
      → IsPaired r
      → AllToggled r.consumers settings r.active w
          (on_settings_changed r settings w).0.active
          (on_settings_changed r settings w).1
  unfolding on_settings_changed
  on_settings_changed-AllToggled r settings w p = each-AllToggled r.consumers r.active settings w p

  length-each :
      (f : Consumer W C → Bool → C → W → Bool × W) (cs : List (Consumer W C)) (flags : List Bool)
      (settings : C) (w : W)
      → length (each f cs flags settings w).0 ≡ length cs
  unfolding each
  length-each f [] flags settings w = refl
  length-each f (c ∷ cs) [] settings w = ap suc (length-each f cs [] settings _)
  length-each f (c ∷ cs) (a ∷ flags) settings w = ap suc (length-each f cs flags settings _)

  length-stop_each :
      (cs : List (Consumer W C)) (flags : List Bool) (w : W)
      → length flags ≡ length cs
      → length (stop_each cs flags w).0 ≡ length cs
  unfolding stop_each
  length-stop_each [] flags w e = refl
  length-stop_each (c ∷ cs) [] w e = absurd (omega arith)
  length-stop_each (c ∷ cs) (a ∷ flags) w e = ap suc (length-stop_each cs flags w (omega arith))

  unfoldable pub apply : Registry W C × W → Call W C → Registry W C × W
  apply (r, w) (adds c) = (add r c, w)
  apply (r, w) (starts settings) = start_all r settings w
  apply (r, w) (changes settings) = on_settings_changed r settings w
  apply (r, w) stops = stop_all r w

  -- No call lets the flags and the consumers differ in number.
  pub apply-IsPaired :
      (r : Registry W C) (w : W) (call : Call W C) → IsPaired r → IsPaired (apply (r, w) call).0
  unfolding apply add start_all on_settings_changed stop_all
  apply-IsPaired r w (adds none) p = p
  apply-IsPaired r w (adds (some c)) p =
      omega (arith, length-append r.active (false ∷ []), length-append r.consumers (c ∷ []))
  apply-IsPaired r w (starts settings) p = length-each start_one r.consumers _ settings w
  apply-IsPaired r w (changes settings) p = length-each toggle_one r.consumers r.active settings w
  apply-IsPaired r w stops p = length-stop_each r.consumers r.active w p

  stop_each-Inactive :
      (cs : List (Consumer W C)) (flags : List Bool) (w : W) → All Inactive (stop_each cs flags w).0
  unfolding stop_each
  stop_each-Inactive [] flags w = tt
  stop_each-Inactive (c ∷ cs) [] w = tt
  stop_each-Inactive (c ∷ cs) (a ∷ flags) w = (refl, stop_each-Inactive cs flags w)

  stop_each_idle :
      (cs : List (Consumer W C)) (flags : List Bool) (w : W)
      → All Inactive flags
      → (stop_each cs flags w).1 ≡ w
  unfolding stop_each
  stop_each_idle [] flags w h = refl
  stop_each_idle (c ∷ cs) [] w h = refl
  stop_each_idle (c ∷ cs) (a ∷ flags) w h = rw h.0 (stop_each_idle cs flags w h.1)

  -- `stop_all` leaves every consumer inactive, and a second call stops nothing.
  pub stop_all_twice :
      (r : Registry W C) (w : W)
      → let (r', w') = stop_all r w in All Inactive r'.active × ((stop_all r' w').1 ≡ w')
  unfolding stop_all
  stop_all_twice r w =
      let off = stop_each-Inactive r.consumers r.active w in
      (off, stop_each_idle r.consumers _ _ off)
