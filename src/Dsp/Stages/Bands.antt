-- ===== src/Dsp/Stages/Bands.antt =====
-- src/audio/dsp/stages/bands_stage.h and bands_stage.cpp: bands of a spectrum on one of three scales,
-- with the bins of each band in a cache.
pub mod Covering
pub mod Shapes
use listeningway.Prelude.{
  ℕ, zero, suc, ◌+◌, ◌-◌, min, max, Bool, true, false, ◌&&◌, ◌||◌, Option, none, some, List, [],
  ◌∷◌, ◌++◌, map, ltb, ◌==◌, if◌then◌else◌, length, get_or, set, take, drop, replicate, tabulate,
  for_range, drop,
}
use listeningway.Prelude.Int.{pos_part}
use listeningway.Float.{Float, ◌⊕◌, ◌⊖◌, ◌⊗◌, ◌⊘◌, ◌≺◌, ◌≼◌, lit, zero_f, one_f, min_f, clamp_f}
use listeningway.Config.Settings.{Settings, FrequencyConfig, BandScale}
use listeningway.Dsp.Frame.{AnalysisFrame, max_bands}
use listeningway.Dsp.Beat.CombTempo.{sum_list}

-- The scale is none before the first frame, as -1 is no scale of the code.
pub record Cache (F : Type 0) : Type 0 where
  pub band_count : ℕ
  pub fft_half : ℕ
  pub scale : Option BandScale
  pub min_freq : F
  pub max_freq : F
  pub sample_rate : F
  pub edges : List F
  pub bins : List (List ℕ)

abbrev is_scale : Option BandScale → BandScale → Bool
is_scale none s = false
is_scale (some BandScale.linear) BandScale.linear = true
is_scale (some BandScale.log) BandScale.log = true
is_scale (some BandScale.mel) BandScale.mel = true
is_scale (some r) s = false

abbrev pub push_bin : List (List ℕ) → ℕ → Option ℕ → List (List ℕ)
push_bin bins k none = bins
push_bin bins k (some b) = set bins b (get_or bins b [] ++ (k ∷ []))

module _ {F : Type 0} ⦃fl : Float F⦄ where
  abbrev pub empty_cache : Cache F
  empty_cache = record {
    band_count = 0;
    fft_half = 0;
    scale = none;
    min_freq = zero_f;
    max_freq = zero_f;
    sample_rate = zero_f;
    edges = [];
    bins = [];
  }

  abbrev pub reset : Cache F → Cache F
  reset cache = empty_cache

  abbrev pub mel_from_hz : F → F
  mel_from_hz hz = lit 2595 1 ⊗ fl.log10 (one_f ⊕ hz ⊘ lit 700 1)

  abbrev pub hz_from_mel : F → F
  hz_from_mel mel = lit 700 1 ⊗ (fl.pow (lit 10 1) (mel ⊘ lit 2595 1) ⊖ one_f)

  -- Edge `b` of `n` bands between two frequencies.
  abbrev pub edge : BandScale → F → F → ℕ → ℕ → F
  edge BandScale.linear lo hi n b = lo ⊕ fl.of_nat b ⊗ ((hi ⊖ lo) ⊘ fl.of_nat n)
  edge BandScale.log lo hi n b =
      let t = fl.of_nat b ⊘ fl.of_nat n in
      fl.pow (lit 10 1) (fl.log10 lo ⊕ t ⊗ (fl.log10 hi ⊖ fl.log10 lo))
  edge BandScale.mel lo hi n b =
      let t = fl.of_nat b ⊘ fl.of_nat n in
      hz_from_mel (mel_from_hz lo ⊕ t ⊗ (mel_from_hz hi ⊖ mel_from_hz lo))

  abbrev pub is_in_band : List F → F → ℕ → Bool
  is_in_band edges f b = (get_or edges b zero_f ≼ f) && (f ≺ get_or edges (b + 1) zero_f)

  -- The first of the bands from `b` that a frequency is in.
  abbrev pub find_band : List F → F → ℕ → ℕ → Option ℕ
  find_band edges f b zero = none
  find_band edges f b (suc n) =
      let rest = find_band edges f (suc b) n in if is_in_band edges f b then some b else rest

  abbrev pub assign_bin : List F → F → ℕ → ℕ → List (List ℕ) → List (List ℕ)
  assign_bin edges width band_count k bins =
      let f = fl.of_nat k ⊗ width in
      if f ≺ get_or edges 0 zero_f then bins else push_bin bins k (find_band edges f 0 band_count)

  -- The bin nearest to a frequency, the first on a tie; `best` starts at the greatest float.
  abbrev pub closest_from : F → F → ℕ → ℕ → F → ℕ → ℕ
  closest_from width center k zero best closest = closest
  closest_from width center k (suc n) best closest =
      let d = fl.abs (fl.of_nat k ⊗ width ⊖ center) in
      let nearer = d ≺ best in
      closest_from width center (suc k) n (if nearer then d else best)
        (if nearer then k else closest)

  -- A band without a bin gets the one nearest to its centre.
  abbrev pub fill_band : F → List F → F → ℕ → List (List ℕ) → ℕ → List ℕ
  fill_band max_float edges width fft_half bins b =
      let center = fl.sqrt (get_or edges b zero_f ⊗ get_or edges (b + 1) zero_f) in
      let bin = get_or bins b [] in
      if length bin == 0 then closest_from width center 1 (fft_half - 1) max_float 1 ∷ [] else bin

  unfoldable pub map_bins : F → List F → F → ℕ → ℕ → List (List ℕ)
  map_bins max_float edges width band_count fft_half =
      let bins =
        for_range 1 (fft_half - 1) (assign_bin edges width band_count) (replicate band_count []) in
      tabulate (fill_band max_float edges width fft_half bins) 0 band_count

  abbrev pub rebuild_cache : F → ℕ → ℕ → F → FrequencyConfig F → Cache F
  rebuild_cache max_float band_count fft_half sample_rate fc =
      let nyquist = sample_rate ⊗ lit 5 10 in
      let min_freq = clamp_f fc.min_freq (lit 10 1) (nyquist ⊖ one_f) in
      let max_freq = clamp_f fc.max_freq (min_freq ⊕ one_f) nyquist in
      let edges = tabulate (edge fc.band_scale min_freq max_freq band_count) 0 (band_count + 1) in
      let width = nyquist ⊘ fl.of_nat fft_half in
      record {
        band_count = band_count;
        fft_half = fft_half;
        scale = some fc.band_scale;
        min_freq = min_freq;
        max_freq = max_freq;
        sample_rate = sample_rate;
        edges = edges;
        bins = map_bins max_float edges width band_count fft_half;
      }

  -- Entry `i` of `size`: the mean of the entries of `src` that fall on it.
  abbrev pub downsample_at : List F → ℕ → ℕ → F
  downsample_at src size i =
      let ratio = fl.of_nat (length src) ⊘ fl.of_nat size in
      let lo = fl.to_nat (fl.of_nat i ⊗ ratio) in
      let hi = min (length src) (fl.to_nat (fl.of_nat (i + 1) ⊗ ratio)) in
      if ltb lo hi
      then sum_list zero_f (take (hi - lo) (drop lo src)) ⊘ fl.of_nat (hi - lo)
      else zero_f

  abbrev pub downsample : List F → ℕ → List F
  downsample src size =
      if length src == 0 then replicate size zero_f else tabulate (downsample_at src size) 0 size

  abbrev pub is_current : Cache F → ℕ → ℕ → F → FrequencyConfig F → Bool
  is_current cache band_count fft_half sr fc =
      (cache.band_count == band_count)
      && (cache.fft_half == fft_half)
      && is_scale cache.scale fc.band_scale
      && fl.eq cache.min_freq fc.min_freq
      && fl.eq cache.max_freq fc.max_freq
      && fl.eq cache.sample_rate sr

  -- The mean of a band's bins, scaled and cut off at one.
  abbrev pub band_value : List F → F → List ℕ → F
  band_value mags band_norm bin =
      let sum = sum_list zero_f (map (λ k. get_or mags k zero_f) bin) in
      let avg = if length bin == 0 then zero_f else sum ⊘ fl.of_nat (length bin) in
      min_f one_f (avg ⊗ band_norm)

  abbrev pub measure : Cache F → List F → F → ℕ → List F
  measure cache mags band_norm band_count =
      tabulate (λ b. band_value mags band_norm (get_or cache.bins b [])) 0 band_count

  abbrev pub bands_wanted : FrequencyConfig F → ℕ
  bands_wanted fc = max 1 (min (pos_part fc.band_count) max_bands)

  abbrev pub refresh : F → Cache F → ℕ → ℕ → F → FrequencyConfig F → Cache F
  refresh max_float cache band_count fft_half sr fc =
      if is_current cache band_count fft_half sr fc
      then cache
      else rebuild_cache max_float band_count fft_half sr fc

  abbrev pub process_spectrum :
      F → Cache F → AnalysisFrame F → Settings F → Option (List F) → Cache F × AnalysisFrame F
  process_spectrum max_float cache frame cfg none =
      (cache, record frame { bands_16 = replicate 16 zero_f; bands_32 = replicate 32 zero_f })
  process_spectrum max_float cache frame cfg (some mags) =
      let sr = fl.of_nat frame.format.sample_rate in
      let band_count = bands_wanted cfg.frequency in
      let ready = refresh max_float cache band_count (length mags) sr cfg.frequency in
      let raw = measure ready mags cfg.frequency.band_norm band_count in
      if length mags == 0 || (sr ≼ zero_f) then (cache, frame) else (
        ready,
        record frame {
          raw_bands = raw;
          band_count = some band_count;
          bands_16 = downsample raw 16;
          bands_32 = downsample raw 32;
        },
      )

  -- `max_float` is `numeric_limits<float>::max()`.
  unfoldable pub process : F → Cache F → AnalysisFrame F → Settings F → Cache F × AnalysisFrame F
  process max_float cache frame cfg = process_spectrum max_float cache frame cfg frame.magnitudes
