-- ===== src/Output/Osc/Worker/Protocol.antt =====
-- src/output/osc_consumer.cpp: the calls of the registry and the turns of the worker, in any order
-- that the registry allows.
use listeningway.Prelude.{
  ℕ, ◌≡◌, refl, ◌∙◌, ◌⊎◌, inl, inr, true, false, Option, none, some, ◌==◌, Bool-cases,
}
use listeningway.Float.{Float}
use listeningway.Config.Settings.{OscConfig}
use listeningway.Config.Store.{eq_int}
use listeningway.Dsp.Frame.{AudioSnapshot}
use listeningway.Output.Osc.Worker.{
  Net, Error, Phase, OscConsumer, make, start, stop_begin, stop_end, set_up, send_frame, turn_from,
  turn, has_thread, rate_of, test_outcome, send_test_packet,
}

-- Between the calls of the registry: not started, started, or in `stop` before the join is done.
pub data Mode : Type 0 where
  idle active stopping : Mode

-- The registry starts an idle consumer and stops an active one; the join waits for the worker. The
-- worker takes its turns, and the overlay sends its test messages, at any time.
pub data Reach (F : Type 0) ⦃fl : Float F⦄ : Mode → OscConsumer → Type 0 where
  new : Reach F Mode.idle make
  started :
      (c : OscConsumer) (cfg : OscConfig)
      → Reach F Mode.idle c
      → Reach F Mode.active (start c cfg).1
  halted : (c : OscConsumer) → Reach F Mode.active c → Reach F Mode.stopping (stop_begin c)
  joined :
      (c : OscConsumer)
      → Reach F Mode.stopping c
      → c.worker ≡ some Phase.returned
      → Reach F Mode.idle (stop_end c)
  turned :
      (m : Mode) (c : OscConsumer) (net : Net F) (cfg : OscConfig) (version : ℕ)
      (snap : AudioSnapshot F)
      → Reach F m c
      → Reach F m (turn net c cfg version snap)
  tested :
      (m : Mode) (c : OscConsumer) (net : Net F) (cfg : OscConfig)
      → Reach F m c
      → Reach F m (send_test_packet net c cfg).1

-- Idle, there is no thread and nothing runs; active, the worker runs unless it has asked for its own
-- disarming; stopping, the flag is down.
abbrev pub Fits : Mode → OscConsumer → Type 0
Fits Mode.idle c = (c.worker ≡ none) × ((c.running ≡ false) × (c.wants_disarm ≡ false))
Fits Mode.active c =
    (c.has_system ≡ true)
    × ((has_thread c.worker ≡ true)
        × ((c.running ≡ true) ⊎ ((c.wants_disarm ≡ true) × (c.worker ≡ some Phase.returned))))
Fits Mode.stopping c = (has_thread c.worker ≡ true) × (c.running ≡ false)

-- How the set-up can end.
abbrev SetUp : OscConsumer → OscConsumer → Type 0
SetUp c next =
    (next.has_system ≡ c.has_system)
    × ((next.is_terminated ≡ c.is_terminated)
        × ((has_thread next.worker ≡ true)
            × ((next.running ≡ c.running)
                ⊎ ((next.running ≡ false)
                    × (((next.wants_disarm ≡ true) ⊎ (c.has_system ≡ false))
                        × (next.worker ≡ some Phase.returned))))))

start-Fits :
    (c : OscConsumer) (cfg : OscConfig)
    → Fits Mode.idle c
    → c.is_terminated ≡ false
    → Fits Mode.active (start c cfg).1 × ((start c cfg).1.is_terminated ≡ false)
unfolding start
start-Fits c cfg (thread, (running, quiet)) alive =
    rw (running, thread, alive) ((refl, (refl, inl refl)), refl)

halted-Fits :
    (c : OscConsumer)
    → Fits Mode.active c
    → c.is_terminated ≡ false
    → Fits Mode.stopping (stop_begin c) × ((stop_begin c).is_terminated ≡ false)
unfolding stop_begin
halted-Fits c (sys, (thread, run)) alive = ((thread, refl), alive)

joined-Fits :
    (c : OscConsumer)
    → Fits Mode.stopping c
    → c.is_terminated ≡ false
    → Fits Mode.idle (stop_end c) × ((stop_end c).is_terminated ≡ false)
unfolding stop_end
joined-Fits c (thread, run) alive = ((refl, (run, refl)), alive)

-- The status is no part of what the modes are about.
status-Fits :
    (m : Mode) (c : OscConsumer) (n : ℕ) (e : Option Error)
    → Fits m c
    → Fits m (record c { packets_sent = n; last_error = e })
status-Fits Mode.idle c n e fits = fits
status-Fits Mode.active c n e fits = fits
status-Fits Mode.stopping c n e fits = fits

module _ {F : Type 0} ⦃fl : Float F⦄ where
  set_up-SetUp :
      (net : Net F) (c : OscConsumer) (cfg : OscConfig) (version : ℕ)
      → SetUp c (set_up net c cfg version)
  set_up-SetUp net c cfg version = elim (Bool-cases c.has_system) [
    | inr s ↦ rw s (refl, (refl, (refl, inr (refl, (inr refl, refl)))))
    | inl s ↦ elim (Bool-cases net.wsa_startup) [
      | inr w ↦ rw (s, w) (refl, (refl, (refl, inr (refl, (inl refl, refl)))))
      | inl w ↦ elim (Bool-cases net.open_socket) [
        | inr o ↦ rw (s, w, o) (refl, (refl, (refl, inr (refl, (inl refl, refl)))))
        | inl o ↦ elim (Bool-cases (net.resolve_host cfg.host cfg.port)) [
          | inr r ↦ rw (s, w, o, r) (refl, (refl, (refl, inr (refl, (inl refl, refl)))))
          | inl r ↦ rw (s, w, o, r) (refl, (refl, (refl, inl refl)))
        ]
      ]
    ]
  ]

  set_up-active :
      (net : Net F) (c : OscConsumer) (cfg : OscConfig) (version : ℕ)
      → c.has_system ≡ true
      → c.running ≡ true
      → Fits Mode.active (set_up net c cfg version)
        × ((set_up net c cfg version).is_terminated ≡ c.is_terminated)
  set_up-active net c cfg version sys run =
      let (system, (alive, (thread, run_next))) = set_up-SetUp net c cfg version in
      elim run_next [
        | inl same ↦ ((system ∙ sys, (thread, inl (same ∙ run))), alive)
        | inr (stopped, (inl disarm, back)) ↦ ((system ∙ sys, (thread, inr (disarm, back))), alive)
        | inr (stopped, (inr no_system, back)) ↦ absurd cc
      ]

  set_up-stopping :
      (net : Net F) (c : OscConsumer) (cfg : OscConfig) (version : ℕ)
      → c.running ≡ false
      → Fits Mode.stopping (set_up net c cfg version)
        × ((set_up net c cfg version).is_terminated ≡ c.is_terminated)
  set_up-stopping net c cfg version run =
      let (system, (alive, (thread, run_next))) = set_up-SetUp net c cfg version in
      elim run_next [
        | inl same ↦ ((thread, same ∙ run), alive)
        | inr (stopped, rest) ↦ ((thread, stopped), alive)
      ]

  pub turn_from-Fits :
      (m : Mode) (net : Net F) (c : OscConsumer) (cfg : OscConfig) (version : ℕ)
      (snap : AudioSnapshot F) (w : Option Phase)
      → c.worker ≡ w
      → Fits m c
      → Fits m (turn_from net c cfg version snap w)
        × ((turn_from net c cfg version snap w).is_terminated ≡ c.is_terminated)
  unfolding turn_from
  turn_from-Fits m net c cfg version snap none e fits = (fits, refl)
  turn_from-Fits m net c cfg version snap (some Phase.returned) e fits = (fits, refl)
  turn_from-Fits Mode.idle net c cfg version snap (some p) e (thread, run) = absurd cc
  turn_from-Fits Mode.active net c cfg version snap (some Phase.setup) e (sys, (thread, inr run)) =
      absurd cc
  turn_from-Fits Mode.active net c cfg version snap (some Phase.setup) e (sys, (thread, inl run)) =
      set_up-active net c cfg version sys run
  turn_from-Fits Mode.active net c cfg version snap (some (Phase.ready seen rate_hz)) e
        (sys, (thread, inr run)) =
      absurd cc
  turn_from-Fits Mode.active net c cfg version snap (some (Phase.ready seen rate_hz)) e
        (sys, (thread, inl run)) =
      elim (Bool-cases (seen == version)) [
        | inl f ↦ rw (run, f) ((sys, (refl, inl refl)), refl)
        | inr f ↦ elim (Bool-cases (eq_int (rate_of cfg) rate_hz)) [
          | inl g ↦ rw (run, f, g) ((sys, (refl, inl refl)), refl)
          | inr g ↦ rw (run, f, g) ((sys, (refl, inl refl)), refl)
        ]
      ]
  turn_from-Fits Mode.active net c cfg version snap (some (Phase.asleep seen rate_hz)) e
        (sys, (thread, inr run)) =
      absurd cc
  turn_from-Fits Mode.active net c cfg version snap (some (Phase.asleep seen rate_hz)) e
        (sys, (thread, inl run)) =
      elim (Bool-cases (send_frame net snap)) [
        | inl f ↦ rw (run, f) ((sys, (refl, inl refl)), refl)
        | inr f ↦ rw (run, f) ((sys, (refl, inl refl)), refl)
      ]
  turn_from-Fits Mode.stopping net c cfg version snap (some Phase.setup) e (thread, run) =
      set_up-stopping net c cfg version run
  turn_from-Fits Mode.stopping net c cfg version snap (some (Phase.ready seen rate_hz)) e
        (thread, run) =
      rw run ((refl, refl), refl)
  turn_from-Fits Mode.stopping net c cfg version snap (some (Phase.asleep seen rate_hz)) e
        (thread, run) =
      rw run ((refl, refl), refl)

  tested-Fits :
      (m : Mode) (net : Net F) (c : OscConsumer) (cfg : OscConfig)
      → Fits m c
      → Fits m (send_test_packet net c cfg).1
        × ((send_test_packet net c cfg).1.is_terminated ≡ c.is_terminated)
  tested-Fits m net c cfg fits =
      let status = (test_outcome net c cfg).1 in (status-Fits m c status.0 status.1 fits, refl)

  -- Whatever the order of the registry's calls, the worker's turns and the test messages, and whether
  -- the network's calls succeed: no start assigns over a thread that was not joined; an idle consumer
  -- has no thread, does not run and asks for nothing; an active one runs, unless its worker has
  -- returned and asks for the disarming; one that is stopping has its flag down.
  pub Reach-Fits : (m : Mode) (c : OscConsumer) → Reach F m c → Fits m c × (c.is_terminated ≡ false)
  Reach-Fits _ _ new = ((refl, (refl, refl)), refl)
  Reach-Fits _ _ (started c cfg r) =
      let (fits, alive) = Reach-Fits Mode.idle c r in start-Fits c cfg fits alive
  Reach-Fits _ _ (turned m c net cfg version snap r) =
      let (fits, alive) = Reach-Fits m c r in
      let (next, same) = turn_from-Fits m net c cfg version snap c.worker refl fits in
      (next, same ∙ alive)
  Reach-Fits _ _ (tested m c net cfg r) =
      let (fits, alive) = Reach-Fits m c r in
      let (next, same) = tested-Fits m net c cfg fits in (next, same ∙ alive)
  Reach-Fits _ _ (halted c r) =
      let (fits, alive) = Reach-Fits Mode.active c r in halted-Fits c fits alive
  Reach-Fits _ _ (joined c r back) =
      let (fits, alive) = Reach-Fits Mode.stopping c r in joined-Fits c fits alive
