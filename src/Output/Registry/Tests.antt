-- ===== src/Output/Registry/Tests.antt =====
-- Consumers over a world that counts, and runs of the registry on them.
use listeningway.Prelude.{ℕ, ◌+◌, ◌≡◌, refl, Bool, true, false, [], ◌∷◌, ltb}
use listeningway.Float.Fixed.{Fixed, fixed_float}
use listeningway.Config.Settings.{Settings}
use listeningway.Config.Store.{Store, make_store, mutate, snapshot, publish, clamp_in_place}
use listeningway.Output.Osc.Worker as Worker
use listeningway.Output.Registry.{
  Consumer, Registry, stop_all, on_settings_changed, poll_self_disarm,
}
use listeningway.Output.Registry.Toggles.{AllToggled, on_settings_changed-AllToggled}
use listeningway.Output.Registry.Disarm.{Disarms, AllQuiet, poll_self_disarm-AllQuiet}

-- The settings are the enable flag of one consumer; the world counts its starts and stops.
abbrev sender : Consumer ℕ Bool
sender = record {
  id = "osc";
  is_user_configurable = true;
  is_enabled = λ s. s;
  start = λ w. (true, w + 1);
  stop = λ w. w + 10;
  wants_self_disarm = λ w. ltb 5 w;
  disarm_in_settings = λ s. false;
}

abbrev overlay : Consumer ℕ Bool
overlay = record {
  id = "overlay";
  is_user_configurable = false;
  is_enabled = λ s. true;
  start = λ w. (true, w);
  stop = λ w. w;
  wants_self_disarm = λ w. false;
  disarm_in_settings = λ s. s;
}

abbrev running : Registry ℕ Bool
running = record { consumers = overlay ∷ sender ∷ []; active = true ∷ true ∷ [] }

stopped : stop_all running 1 ≡ (record running { active = false ∷ false ∷ [] }, 11)
unfolding stop_all
stopped = refl

on_settings_changed-AllToggled_example :
    AllToggled running.consumers false running.active 1
      (on_settings_changed running false 1).0.active
      (on_settings_changed running false 1).1
on_settings_changed-AllToggled_example = on_settings_changed-AllToggled running false 1 refl

-- The OSC consumer's answers, over the settings of the store; the world is whether its worker gave up.
abbrev osc : Consumer Bool (Settings Fixed)
osc = record {
  id = "osc";
  is_user_configurable = true;
  is_enabled = Worker.is_enabled;
  start = λ w. (true, false);
  stop = λ w. false;
  wants_self_disarm = λ w. w;
  disarm_in_settings = Worker.disarm_in_settings;
}

-- The base class's answers, of an always-on consumer.
abbrev uniforms : Consumer Bool (Settings Fixed)
uniforms = record {
  id = "uniforms";
  is_user_configurable = false;
  is_enabled = λ s. true;
  start = λ w. (true, w);
  stop = λ w. w;
  wants_self_disarm = λ w. false;
  disarm_in_settings = λ s. s;
}

abbrev app_consumers : Registry Bool (Settings Fixed)
app_consumers = record { consumers = uniforms ∷ osc ∷ []; active = true ∷ true ∷ [] }

app_consumers-Disarms : Disarms {T = Store Fixed} mutate snapshot app_consumers.consumers
unfolding mutate publish snapshot clamp_in_place
app_consumers-Disarms = ((λ e. cc), ((λ e. ((λ t. refl), tt)), tt))

poll_self_disarm-AllQuiet_example :
    AllQuiet app_consumers.consumers true
      (poll_self_disarm mutate snapshot app_consumers make_store true).0.active
poll_self_disarm-AllQuiet_example =
    poll_self_disarm-AllQuiet mutate snapshot app_consumers make_store true refl
      app_consumers-Disarms
