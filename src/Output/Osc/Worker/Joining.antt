-- ===== src/Output/Osc/Worker/Joining.antt =====
-- src/output/osc_consumer.cpp: the join of `stop` ends.
use listeningway.Prelude.{ℕ, ◌≡◌, refl, ◌≢◌, inl, inr, true, false, Option, none, some, Bool-cases}
use listeningway.Float.{Float}
use listeningway.Config.Settings.{OscConfig}
use listeningway.Dsp.Frame.{AudioSnapshot}
use listeningway.Output.Osc.Worker.{
  Net, Phase, OscConsumer, stop_begin, set_up, turn_from, turn, has_thread,
}
use listeningway.Output.Osc.Worker.Protocol.{Mode, Fits, turn_from-Fits}

module _ {F : Type 0} ⦃fl : Float F⦄ where
  -- One turn leaves the set-up, whatever its outcome.
  set_up-leaves :
      (net : Net F) (c : OscConsumer) (cfg : OscConfig) (version : ℕ)
      → (set_up net c cfg version).worker ≢ some Phase.setup
  set_up-leaves net c cfg version = elim (Bool-cases c.has_system) [
    | inr s ↦ rw s (λ p. cc)
    | inl s ↦ elim (Bool-cases net.wsa_startup) [
      | inr w ↦ rw (s, w) (λ p. cc)
      | inl w ↦ elim (Bool-cases net.open_socket) [
        | inr o ↦ rw (s, w, o) (λ p. cc)
        | inl o ↦ elim (Bool-cases (net.resolve_host cfg.host cfg.port)) [
          | inr r ↦ rw (s, w, o, r) (λ p. cc)
          | inl r ↦ rw (s, w, o, r) (λ p. cc)
        ]
      ]
    ]
  ]

  turn_from-stopped :
      (net : Net F) (c : OscConsumer) (cfg : OscConfig) (version : ℕ) (snap : AudioSnapshot F)
      (w : Option Phase)
      → c.worker ≡ w
      → has_thread w ≡ true
      → c.running ≡ false
      → (w ≢ some Phase.setup → (turn_from net c cfg version snap w).worker ≡ some Phase.returned)
        × ((turn_from net c cfg version snap w).worker ≢ some Phase.setup)
  unfolding turn_from
  turn_from-stopped net c cfg version snap none e thread run = absurd cc
  turn_from-stopped net c cfg version snap (some Phase.setup) e thread run =
      ((λ n. absurd (n refl)), set_up-leaves net c cfg version)
  turn_from-stopped net c cfg version snap (some (Phase.ready seen rate_hz)) e thread run =
      rw run ((λ n. refl), (λ p. cc))
  turn_from-stopped net c cfg version snap (some (Phase.asleep seen rate_hz)) e thread run =
      rw run ((λ n. refl), (λ p. cc))
  turn_from-stopped net c cfg version snap (some Phase.returned) e thread run =
      ((λ n. e), (λ p. cc))

  turn-stopped :
      (net : Net F) (c : OscConsumer) (cfg : OscConfig) (version : ℕ) (snap : AudioSnapshot F)
      → Fits Mode.stopping c
      → (c.worker ≢ some Phase.setup → (turn net c cfg version snap).worker ≡ some Phase.returned)
        × ((turn net c cfg version snap).worker ≢ some Phase.setup)
  turn-stopped net c cfg version snap fits =
      turn_from-stopped net c cfg version snap c.worker refl fits.0 fits.1

  -- After `stop` has lowered the flag, the worker returns within two of its turns, so that the join
  -- ends: whatever the network, the settings and the snapshots are.
  pub stop-Joins :
      (net : Net F) (c : OscConsumer) (cfg cfg2 : OscConfig) (version version2 : ℕ)
      (snap snap2 : AudioSnapshot F)
      → has_thread c.worker ≡ true
      → (turn net (turn net (stop_begin c) cfg version snap) cfg2 version2 snap2).worker
        ≡ some Phase.returned
  unfolding stop_begin
  stop-Joins net c cfg cfg2 version version2 snap snap2 thread =
      let first = record c { running = false } in
      let fits =
        (turn_from-Fits Mode.stopping net first cfg version snap c.worker refl (thread, refl)).0 in
      let next = turn-stopped net first cfg version snap (thread, refl) in
      (turn-stopped net (turn net first cfg version snap) cfg2 version2 snap2 fits).0 next.1
