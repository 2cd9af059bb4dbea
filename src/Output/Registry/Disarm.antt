-- ===== src/Output/Registry/Disarm.antt =====
-- Consumers whose worker has given up are switched off by the next poll.
use listeningway.Prelude.{
  ◌≡◌, inl, inr, Bool, true, false, List, [], ◌∷◌, arith, if◌then◌else◌, Bool-cases, All,
}
use listeningway.Output.Registry.{Consumer, Registry, disarm_each, poll_self_disarm}
use listeningway.Output.Registry.Toggles.{
  AllToggled, IsPaired, disabled-Toggled, on_settings_changed-AllToggled,
}

module _ {W C : Type 0} where
  -- A toggleable consumer that asked to be disarmed is inactive.
  abbrev pub AllQuiet : List (Consumer W C) → W → List Bool → Type 0
  AllQuiet [] w flags = Unit
  AllQuiet (c ∷ cs) w [] = Unit
  AllQuiet (c ∷ cs) w (a ∷ flags) =
      (c.wants_self_disarm w ≡ true → c.is_user_configurable ≡ true → a ≡ false)
      × AllQuiet cs w flags

module _ {W C T : Type 0} (mutate : T → (C → C) → T) (snapshot : T → C) where
  -- The disarm of `d` does not switch `c` on.
  abbrev pub Keeps : Consumer W C → Consumer W C → Type 0
  Keeps c d =
      (t : T)
      → c.is_enabled (snapshot t) ≡ false
      → c.is_enabled (snapshot (mutate t d.disarm_in_settings)) ≡ false

  -- Each disarm of a toggleable consumer clears its enable flag in the store, and no later one sets it
  -- again.
  abbrev pub Disarms : List (Consumer W C) → Type 0
  Disarms [] = Unit
  Disarms (c ∷ cs) =
      (c.is_user_configurable ≡ true
        → ((t : T) → c.is_enabled (snapshot (mutate t c.disarm_in_settings)) ≡ false)
          × All (Keeps c) cs)
      × Disarms cs

  stays_off :
      (c : Consumer W C) (cs : List (Consumer W C)) (w : W) (t : T)
      → All (Keeps c) cs
      → c.is_enabled (snapshot t) ≡ false
      → c.is_enabled (snapshot (disarm_each mutate cs w t).1) ≡ false
  unfolding disarm_each
  stays_off c [] w t h off = off
  stays_off c (d ∷ cs) w t h off = elim (Bool-cases (d.wants_self_disarm w)) [
    | inl e ↦ rw e (stays_off c cs w (mutate t d.disarm_in_settings) h.1 (h.0 t off))
    | inr e ↦ rw e (stays_off c cs w t h.1 off)
  ]

  abbrev pub SwitchedOff : W → T → Consumer W C → Type 0
  SwitchedOff w t c =
      c.wants_self_disarm w ≡ true
      → c.is_user_configurable ≡ true
      → c.is_enabled (snapshot t) ≡ false

  none_wants :
      (cs : List (Consumer W C)) (w : W) (t : T)
      → (disarm_each mutate cs w t).0 ≡ false
      → All (λ c. c.wants_self_disarm w ≡ false) cs
  unfolding disarm_each
  none_wants [] w t e = tt
  none_wants (c ∷ cs) w t e = (
    ground arith,
    none_wants cs w (if c.wants_self_disarm w then mutate t c.disarm_in_settings else t)
        (ground arith),
  )

  disarm_each-SwitchedOff :
      (cs : List (Consumer W C)) (w : W) (t : T)
      → Disarms cs
      → All (SwitchedOff w (disarm_each mutate cs w t).1) cs
  unfolding disarm_each
  disarm_each-SwitchedOff [] w t h = tt
  disarm_each-SwitchedOff (c ∷ cs) w t h =
      let t' = if c.wants_self_disarm w then mutate t c.disarm_in_settings else t in
      (
        λ q u. stays_off c cs w t' (h.0 u).1 (rw q ((h.0 u).0 t)),
        disarm_each-SwitchedOff cs w t' h.1,
      )

  quiet_toggled :
      (cs : List (Consumer W C)) (w : W) (t : T) (before after : List Bool) (v u : W)
      → All (SwitchedOff w t) cs
      → AllToggled cs (snapshot t) before v after u
      → AllQuiet cs w after
  quiet_toggled [] w t before after v u s g = tt
  quiet_toggled (c ∷ cs) w t [] after v u s g = absurd g
  quiet_toggled (c ∷ cs) w t (a ∷ before) [] v u s g = tt
  quiet_toggled (c ∷ cs) w t (a ∷ before) (b ∷ after) v u s (v2, (one, rest)) = (
    λ q e. disabled-Toggled c (snapshot t) a v b v2 one e (s.0 q e),
    quiet_toggled cs w t before after v2 u s.1 rest,
  )

  quiet_none :
      (cs : List (Consumer W C)) (w : W) (flags : List Bool)
      → All (λ c. c.wants_self_disarm w ≡ false) cs
      → AllQuiet cs w flags
  quiet_none [] w flags n = tt
  quiet_none (c ∷ cs) w [] n = tt
  quiet_none (c ∷ cs) w (a ∷ flags) n = (λ q u. cc, quiet_none cs w flags n.1)

  -- With one flag for each consumer: one poll leaves every toggleable consumer that asked to be
  -- disarmed inactive, if the disarm of each toggleable consumer clears its own flag in the store
  -- and no later disarm sets it again.
  pub poll_self_disarm-AllQuiet :
      (r : Registry W C) (store : T) (w : W)
      → IsPaired r
      → Disarms r.consumers
      → AllQuiet r.consumers w (poll_self_disarm mutate snapshot r store w).0.active
  unfolding poll_self_disarm
  poll_self_disarm-AllQuiet r store w p h =
      let d = disarm_each mutate r.consumers w store in
      elim (Bool-cases d.0) [
        | inl any ↦ rw any (
            quiet_toggled r.consumers w d.1 r.active _ w _
              (disarm_each-SwitchedOff r.consumers w store h)
              (on_settings_changed-AllToggled r (snapshot d.1) w p))
        | inr quiet ↦ rw quiet (quiet_none r.consumers w _ (none_wants r.consumers w store quiet))
      ]
