-- ===== src/Config/Store/Tests.antt =====
-- A store that loads, publishes and saves.
use listeningway.Prelude.{◌≡◌, refl, ◌≢◌, ◌⊎◌, true, false, some, List, [], ◌∷◌}
use listeningway.Prelude.Int.{pos}
use listeningway.Float.{◌≼◌, lit, clamp_f}
use listeningway.Float.Fixed.{Fixed, fixed_float, Fixed-IsOrdered}
use listeningway.Config.Settings.{Settings, default_settings, current_schema_version}
use listeningway.Config.Store.{
  parsed, malformed, bump_version, make_store, load, save, snapshot, publish, mutate,
  clamp_in_place,
}
use listeningway.Config.Store.Bounds.{InRange, clamp_in_place-InRange}
use listeningway.Config.Store.Versions.{
  Op, apply, apply_all, load_cases, snapshot-InRange, load-save,
}

-- Far out of range in three places.
abbrev wild : Settings Fixed
wild =
    let usual = default_settings {F = Fixed} in
    record usual {
      beat = record (usual.beat) { pulse_strength = some (pos 99_000_000) };
      frequency = record (usual.frequency) {
        min_freq = some (pos 9_000_000_000);
        max_freq = some (pos 20_000_000);
      };
    }

clamp_in_place-InRange_example :
    InRange (clamp_in_place wild)
    × ((clamp_f wild.frequency.max_freq (lit 2000 1) (lit 22050 1)
          ≼ clamp_f wild.frequency.min_freq (lit 10 1) (lit 500 1))
        ≡ false)
    × ((clamp_in_place wild).frequency.min_freq
        ≡ clamp_f wild.frequency.min_freq (lit 10 1) (lit 500 1))
    × ((clamp_in_place wild).frequency.max_freq
        ≡ clamp_f wild.frequency.max_freq (lit 2000 1) (lit 22050 1))
clamp_in_place-InRange_example = clamp_in_place-InRange Fixed-IsOrdered wild

abbrev ops : List (Op Fixed)
ops = Op.publishes wild ∷ Op.loads malformed ∷ Op.mutates (λ s. wild) ∷ []

snapshot-InRange_example : InRange (snapshot (apply_all (make_store {F = Fixed}) ops))
snapshot-InRange_example = snapshot-InRange Fixed-IsOrdered ops

load_cases_example :
    ((s : Settings Fixed) × (parsed wild ≡ parsed s)
      × (s.schema_version ≡ current_schema_version)
      × (load make_store (parsed wild) ≡ (true, publish make_store s)))
    ⊎ ((load make_store (parsed wild) ≡ (false, make_store))
        × ((s : Settings Fixed)
            → parsed wild ≡ parsed s
            → s.schema_version ≢ current_schema_version))
load_cases_example = load_cases make_store (parsed wild)

load-save_example :
    load make_store (parsed (clamp_in_place wild))
    ≡ (true, record { settings = clamp_in_place wild; version = bump_version 1 })
unfolding save apply_all apply publish mutate make_store clamp_in_place
load-save_example = load-save Fixed-IsOrdered make_store ops (clamp_in_place wild) refl refl
