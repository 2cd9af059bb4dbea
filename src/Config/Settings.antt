-- ===== src/Config/Settings.antt =====
-- src/config/settings.h, and the enum tables of settings_json.h. A C++ `int` is an integer: a file
-- on disk can hold any.
use Prim.Native.String.{String}
use listeningway.Prelude.{Bool, true, false, List, [], ◌∷◌}
use listeningway.Prelude.Int.{ℤ, pos}
use listeningway.Float.{Float, lit, zero_f, one_f}

abbrev pub current_schema_version : ℤ
current_schema_version = pos 1

pub record AudioConfig (F : Type 0) : Type 0 where
  pub analysis_enabled : Bool
  pub capture_source_code : String
  pub simd_enabled : Bool
  pub pan_smoothing : F
  pub pan_offset : F

pub data Mode : Type 0 where
  auto profile custom : Mode

pub data Profile : Type 0 where
  percussive melodic sustained : Profile

pub record BeatConfig (F : Type 0) : Type 0 where
  pub mode : Mode
  pub profile : Profile
  pub pulse_strength : F

pub data BandScale : Type 0 where
  linear log mel : BandScale

-- `equalizer_bands` is an array of five.
pub record FrequencyConfig (F : Type 0) : Type 0 where
  pub band_count : ℤ
  pub fft_size : ℤ
  pub band_scale : BandScale
  pub log_strength : F
  pub band_norm : F
  pub min_freq : F
  pub max_freq : F
  pub equalizer_bands : List F
  pub equalizer_width : F
  pub amplifier_volume : F
  pub amplifier_bands : F
  pub amplifier_direction : F
  pub spatial_spread : F
  pub spatial_smoothing : F

pub record AgcConfig (F : Type 0) : Type 0 where
  pub window_seconds : F
  pub clamp_max : F
  pub att_attack_ms : F
  pub att_release_ms : F

pub record ChronotensityConfig (F : Type 0) : Type 0 where
  pub gain_volume : F
  pub gain_bass : F
  pub gain_treble : F

pub record LoudnessConfig (F : Type 0) : Type 0 where
  pub window_ms : F

pub record DebugConfig : Type 0 where
  pub debug_logging : Bool
  pub overlay_enabled : Bool

pub data SpectrumOrientation : Type 0 where
  vertical horizontal : SpectrumOrientation

pub record UiConfig : Type 0 where
  pub spectrum_orientation : SpectrumOrientation

pub record OscConfig : Type 0 where
  pub enabled : Bool
  pub host : String
  pub port : ℤ
  pub rate_hz : ℤ

pub data SinglePattern : Type 0 where
  beat_flash volume_pulse spectral_hue chronotensity_cycle static off : SinglePattern

pub data LinearPattern : Type 0 where
  spectrum_bar vu_meter chase_orbit pulse_from_center stereo_split color_wash static off :
      LinearPattern

pub data MatrixPattern : Type 0 where
  spatial_map equalizer_columns per_region spectrogram_waterfall beat_flash color_wash static off :
      MatrixPattern

pub record OpenRgbConfig (F : Type 0) : Type 0 where
  pub enabled : Bool
  pub host : String
  pub port : ℤ
  pub rate_hz : ℤ
  pub brightness : F
  pub pattern_single : SinglePattern
  pub pattern_linear : LinearPattern
  pub pattern_matrix : MatrixPattern

pub record NetworkConfig (F : Type 0) : Type 0 where
  pub osc : OscConfig
  pub openrgb : OpenRgbConfig F

pub record Settings (F : Type 0) : Type 0 where
  pub schema_version : ℤ
  pub audio : AudioConfig F
  pub beat : BeatConfig F
  pub frequency : FrequencyConfig F
  pub agc : AgcConfig F
  pub chronotensity : ChronotensityConfig F
  pub loudness : LoudnessConfig F
  pub debug : DebugConfig
  pub network : NetworkConfig F
  pub ui : UiConfig

-- `Settings{}`: the default member initialisers.
module _ {F : Type 0} ⦃fl : Float F⦄ where
  abbrev pub default_settings : Settings F
  default_settings = record {
    schema_version = current_schema_version;
    audio = record {
      analysis_enabled = true;
      capture_source_code = "system";
      simd_enabled = true;
      pan_smoothing = lit 1 10;
      pan_offset = zero_f;
    };
    beat = record { mode = Mode.auto; profile = Profile.percussive; pulse_strength = one_f };
    frequency = record {
      band_count = pos 64;
      fft_size = pos 2048;
      band_scale = BandScale.mel;
      log_strength = lit 10 100;
      band_norm = lit 10 100;
      min_freq = lit 30 1;
      max_freq = lit 22050 1;
      equalizer_bands = lit 111 100 ∷ lit 129 100 ∷ lit 211 100 ∷ lit 180 100 ∷ lit 163 100 ∷ [];
      equalizer_width = lit 15 100;
      amplifier_volume = one_f;
      amplifier_bands = one_f;
      amplifier_direction = one_f;
      spatial_spread = lit 25 100;
      spatial_smoothing = lit 10 100;
    };
    agc = record {
      window_seconds = lit 5 1;
      clamp_max = lit 4 1;
      att_attack_ms = lit 50 1;
      att_release_ms = lit 200 1;
    };
    chronotensity = record { gain_volume = lit 5 10; gain_bass = lit 5 10; gain_treble = lit 5 10 };
    loudness = record { window_ms = lit 400 1 };
    debug = record { debug_logging = false; overlay_enabled = false };
    network = record {
      osc = record { enabled = false; host = "127.0.0.1"; port = pos 9000; rate_hz = pos 60 };
      openrgb = record {
        enabled = false;
        host = "127.0.0.1";
        port = pos 6742;
        rate_hz = pos 30;
        brightness = one_f;
        pattern_single = SinglePattern.spectral_hue;
        pattern_linear = LinearPattern.spectrum_bar;
        pattern_matrix = MatrixPattern.per_region;
      };
    };
    ui = record { spectrum_orientation = SpectrumOrientation.horizontal };
  }
