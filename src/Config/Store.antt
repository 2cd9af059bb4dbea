-- ===== src/Config/Store.antt =====
-- src/config/store.{h,cpp}: clamping, the version counter, loading and saving. The mutex makes each
-- access to the settings one step; the file system and nlohmann/json are parameters, the result of
-- opening and parsing the file.
pub mod Bounds
pub mod Versions
pub mod Tests
use listeningway.Prelude.{
  ℕ, ◌+◌, ◌%◌, ◌^◌, Bool, true, false, not, ◌&&◌, Option, none, some, map, if◌then◌else◌,
}
use listeningway.Prelude.Int.{ℤ, pos, ltb_ℤ}
use listeningway.Float.{Float, ◌⊕◌, ◌≼◌, lit, zero_f, one_f, clamp_f}
use listeningway.Config.Settings.{Settings, default_settings, current_schema_version}

-- `std::clamp` on `int`.
abbrev pub clamp_int : ℤ → ℤ → ℤ → ℤ
clamp_int x lo hi = if ltb_ℤ x lo then lo else if ltb_ℤ hi x then hi else x

abbrev pub eq_int : ℤ → ℤ → Bool
eq_int a b = not (ltb_ℤ a b) && not (ltb_ℤ b a)

module _ {F : Type 0} ⦃fl : Float F⦄ where
  unfoldable pub clamp_in_place : Settings F → Settings F
  clamp_in_place s =
      let fq = s.frequency in
      let low = clamp_f fq.min_freq (lit 10 1) (lit 500 1) in
      let high = clamp_f fq.max_freq (lit 2000 1) (lit 22050 1) in
      record s {
        audio = record (s.audio) {
          pan_smoothing = clamp_f s.audio.pan_smoothing zero_f one_f;
          pan_offset = clamp_f s.audio.pan_offset (fl.neg one_f) one_f;
        };
        beat = record (s.beat) { pulse_strength = clamp_f s.beat.pulse_strength zero_f (lit 3 1) };
        frequency = record (s.frequency) {
          band_count = clamp_int fq.band_count (pos 8) (pos 128);
          fft_size = clamp_int fq.fft_size (pos 128) (pos 16384);
          log_strength = clamp_f fq.log_strength (lit 1 100) (lit 15 10);
          band_norm = clamp_f fq.band_norm (lit 1 1000) one_f;
          min_freq = low;
          max_freq = if high ≼ low then low ⊕ lit 1000 1 else high;
          equalizer_bands = map (λ b. clamp_f b zero_f (lit 4 1)) fq.equalizer_bands;
          equalizer_width = clamp_f fq.equalizer_width (lit 5 100) (lit 5 10);
          amplifier_volume = clamp_f fq.amplifier_volume one_f (lit 11 1);
          amplifier_bands = clamp_f fq.amplifier_bands one_f (lit 11 1);
          amplifier_direction = clamp_f fq.amplifier_direction one_f (lit 11 1);
        };
        agc = record {
          window_seconds = clamp_f s.agc.window_seconds (lit 5 10) (lit 30 1);
          clamp_max = clamp_f s.agc.clamp_max (lit 15 10) (lit 8 1);
          att_attack_ms = clamp_f s.agc.att_attack_ms one_f (lit 1000 1);
          att_release_ms = clamp_f s.agc.att_release_ms one_f (lit 5000 1);
        };
        chronotensity = record {
          gain_volume = clamp_f s.chronotensity.gain_volume zero_f (lit 5 1);
          gain_bass = clamp_f s.chronotensity.gain_bass zero_f (lit 5 1);
          gain_treble = clamp_f s.chronotensity.gain_treble zero_f (lit 5 1);
        };
        loudness = record { window_ms = clamp_f s.loudness.window_ms (lit 50 1) (lit 3000 1) };
      }

-- The store without its path: the live settings and the atomic counter.
pub record Store (F : Type 0) : Type 0 where
  pub settings : Settings F
  pub version : ℕ

-- What opening and parsing the file gives: it cannot be opened, an exception, or settings.
pub data FileRead (F : Type 0) : Type 0 where
  missing malformed : FileRead F
  parsed : Settings F → FileRead F

-- How the attempt to write goes: it cannot be opened, an exception, or the text is written.
pub data FileWrite : Type 0 where
  not_opened thrown written : FileWrite

-- `fetch_add` on a `uint64_t`.
abbrev pub bump_version : ℕ → ℕ
bump_version v = (v + 1) % 2 ^ 64

module _ {F : Type 0} ⦃fl : Float F⦄ where
  pub make_store : Store F
  make_store = record { settings = clamp_in_place default_settings; version = 1 }

  pub load : Store F → FileRead F → Bool × Store F
  load st missing = (false, st)
  load st malformed = (false, st)
  load st (parsed loaded) =
      if eq_int loaded.schema_version current_schema_version
      then (true, record { settings = clamp_in_place loaded; version = bump_version st.version })
      else (false, st)

  -- The result, and the settings that the file then holds, if it was written.
  pub save : Store F → FileWrite → Bool × Option (Settings F)
  save st not_opened = (false, none)
  save st thrown = (false, none)
  save st written = (true, some st.settings)

  unfoldable pub snapshot : Store F → Settings F
  snapshot st = st.settings

  unfoldable pub publish : Store F → Settings F → Store F
  publish st new_settings = record {
    settings = clamp_in_place new_settings;
    version = bump_version st.version;
  }

  unfoldable pub mutate : Store F → (Settings F → Settings F) → Store F
  unfolding snapshot publish
  mutate st fn = publish st (fn (snapshot st))
