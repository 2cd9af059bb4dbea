-- ===== src/Config/Store/Bounds.antt =====
-- What clamping guarantees, and that it changes nothing a second time.
use listeningway.Prelude.{
  ℕ, ◌*◌, ◌≤◌, ◌<◌, ◌≡◌, refl, inl, inr, false, List, [], ◌∷◌, map, arith, Bool-cases, All,
}
use listeningway.Prelude.Int.{ℤ, pos, ◌≤ℤ◌}
use listeningway.Float.{
  Float, IsOrdered, ◌≼◌, lit, zero_f, one_f, clamp_f, Within, clamp_f-Within, clamp_f_self,
}
use listeningway.Config.Settings.{Settings}
use listeningway.Config.Store.{clamp_int, clamp_in_place}

-- No bounded setting lies below or above the range that `clamp_in_place` names for it. A `float` may
-- still be NaN, which `std::clamp` lets through.
pub record InRange {F : Type 0} ⦃fl : Float F⦄ (s : Settings F) : Type 0 where
  pub pan_smoothing : Within zero_f one_f s.audio.pan_smoothing
  pub pan_offset : Within (fl.neg one_f) one_f s.audio.pan_offset
  pub pulse_strength : Within zero_f (lit 3 1) s.beat.pulse_strength
  pub band_count : (pos 8 ≤ℤ s.frequency.band_count) × (s.frequency.band_count ≤ℤ pos 128)
  pub fft_size : (pos 128 ≤ℤ s.frequency.fft_size) × (s.frequency.fft_size ≤ℤ pos 16384)
  pub log_strength : Within (lit 1 100) (lit 15 10) s.frequency.log_strength
  pub band_norm : Within (lit 1 1000) one_f s.frequency.band_norm
  pub min_freq : Within (lit 10 1) (lit 500 1) s.frequency.min_freq
  pub max_freq : Within (lit 2000 1) (lit 22050 1) s.frequency.max_freq
  pub equalizer_bands : All (Within zero_f (lit 4 1)) s.frequency.equalizer_bands
  pub equalizer_width : Within (lit 5 100) (lit 5 10) s.frequency.equalizer_width
  pub amplifier_volume : Within one_f (lit 11 1) s.frequency.amplifier_volume
  pub amplifier_bands : Within one_f (lit 11 1) s.frequency.amplifier_bands
  pub amplifier_direction : Within one_f (lit 11 1) s.frequency.amplifier_direction
  pub window_seconds : Within (lit 5 10) (lit 30 1) s.agc.window_seconds
  pub clamp_max : Within (lit 15 10) (lit 8 1) s.agc.clamp_max
  pub att_attack_ms : Within one_f (lit 1000 1) s.agc.att_attack_ms
  pub att_release_ms : Within one_f (lit 5000 1) s.agc.att_release_ms
  pub gain_volume : Within zero_f (lit 5 1) s.chronotensity.gain_volume
  pub gain_bass : Within zero_f (lit 5 1) s.chronotensity.gain_bass
  pub gain_treble : Within zero_f (lit 5 1) s.chronotensity.gain_treble
  pub window_ms : Within (lit 50 1) (lit 3000 1) s.loudness.window_ms

clamp_int_bounds : (x lo hi : ℤ) → lo ≤ℤ hi → (lo ≤ℤ clamp_int x lo hi) × (clamp_int x lo hi ≤ℤ hi)
clamp_int_bounds x lo hi h = ground arith

clamp_int_self : (x lo hi : ℤ) → lo ≤ℤ x → x ≤ℤ hi → clamp_int x lo hi ≡ x
clamp_int_self x lo hi h k = ground arith

module _ {F : Type 0} ⦃fl : Float F⦄ (laws : IsOrdered F) where
  -- A clamp between two constants of the source.
  const_Within :
      (x : F) (a b c d : ℕ)
      → 0 < b
      → 0 < d
      → a * d ≤ c * b
      → Within (lit a b) (lit c d) (clamp_f x (lit a b) (lit c d))
  const_Within x a b c d hb hd h = clamp_f-Within laws x _ _ (laws.lit_ge c d a b hd hb h)

  clamp-All :
      (xs : List F) → All (Within zero_f (lit 4 1)) (map (λ b. clamp_f b zero_f (lit 4 1)) xs)
  clamp-All [] = tt
  clamp-All (x ∷ xs) =
      (const_Within x 0 1 4 1 (omega arith) (omega arith) (omega arith), clamp-All xs)

  -- A frequency floor of at most 500 is never at or above a ceiling of at least 2000.
  ordered_freqs :
      (low high : F)
      → Within (lit 10 1) (lit 500 1) low
      → Within (lit 2000 1) (lit 22050 1) high
      → (high ≼ low) ≡ false
  ordered_freqs low high l h = elim (Bool-cases (high ≼ low)) [
    | inr e ↦ e
    | inl e ↦
        let same = laws.lt_between (lit 500 1) (lit 2000 1) low high e h.0 l.1 in
        let less = laws.lit_lt 500 2000 (omega arith) (omega arith) in cc
  ]

  low_Within : (x : F) → Within (lit 10 1) (lit 500 1) (clamp_f x (lit 10 1) (lit 500 1))
  low_Within x = const_Within x 10 1 500 1 (omega arith) (omega arith) (omega arith)

  high_Within : (x : F) → Within (lit 2000 1) (lit 22050 1) (clamp_f x (lit 2000 1) (lit 22050 1))
  high_Within x = const_Within x 2000 1 22050 1 (omega arith) (omega arith) (omega arith)

  bounds_lem : (s : Settings F) → InRange (clamp_in_place s)
  unfolding clamp_in_place
  bounds_lem s = record {
    pan_smoothing =
        const_Within s.audio.pan_smoothing 0 1 1 1 (omega arith) (omega arith) (omega arith);
    pan_offset =
        clamp_f-Within laws s.audio.pan_offset _ _
          (laws.neg_lit 1 1 1 1 (omega arith) (omega arith));
    pulse_strength =
        const_Within s.beat.pulse_strength 0 1 3 1 (omega arith) (omega arith) (omega arith);
    band_count = clamp_int_bounds s.frequency.band_count (pos 8) (pos 128) (omega arith);
    fft_size = clamp_int_bounds s.frequency.fft_size (pos 128) (pos 16384) (omega arith);
    log_strength =
        const_Within s.frequency.log_strength 1 100 15 10 (omega arith) (omega arith) (omega arith);
    band_norm =
        const_Within s.frequency.band_norm 1 1000 1 1 (omega arith) (omega arith) (omega arith);
    min_freq = low_Within s.frequency.min_freq;
    max_freq =
        rw (ordered_freqs _ _ (low_Within s.frequency.min_freq) (high_Within s.frequency.max_freq))
          (high_Within s.frequency.max_freq);
    equalizer_bands = clamp-All s.frequency.equalizer_bands;
    equalizer_width =
        const_Within s.frequency.equalizer_width 5 100 5 10 (omega arith) (omega arith)
          (omega arith);
    amplifier_volume =
        const_Within s.frequency.amplifier_volume 1 1 11 1 (omega arith) (omega arith)
          (omega arith);
    amplifier_bands =
        const_Within s.frequency.amplifier_bands 1 1 11 1 (omega arith) (omega arith) (omega arith);
    amplifier_direction =
        const_Within s.frequency.amplifier_direction 1 1 11 1 (omega arith) (omega arith)
          (omega arith);
    window_seconds =
        const_Within s.agc.window_seconds 5 10 30 1 (omega arith) (omega arith) (omega arith);
    clamp_max = const_Within s.agc.clamp_max 15 10 8 1 (omega arith) (omega arith) (omega arith);
    att_attack_ms =
        const_Within s.agc.att_attack_ms 1 1 1000 1 (omega arith) (omega arith) (omega arith);
    att_release_ms =
        const_Within s.agc.att_release_ms 1 1 5000 1 (omega arith) (omega arith) (omega arith);
    gain_volume =
        const_Within s.chronotensity.gain_volume 0 1 5 1 (omega arith) (omega arith) (omega arith);
    gain_bass =
        const_Within s.chronotensity.gain_bass 0 1 5 1 (omega arith) (omega arith) (omega arith);
    gain_treble =
        const_Within s.chronotensity.gain_treble 0 1 5 1 (omega arith) (omega arith) (omega arith);
    window_ms =
        const_Within s.loudness.window_ms 50 1 3000 1 (omega arith) (omega arith) (omega arith);
  }

  -- Under the laws of IEEE comparison, no bounded setting is below or above its range after
  -- `clamp_in_place`, whatever it was before; NaN, which is neither, is not excluded. The clamped
  -- frequencies never meet the test `min_freq >= max_freq`, so that the result has both as they
  -- were clamped.
  pub clamp_in_place-InRange :
      (s : Settings F)
      → let low = clamp_f s.frequency.min_freq (lit 10 1) (lit 500 1) in
        let high = clamp_f s.frequency.max_freq (lit 2000 1) (lit 22050 1) in
        InRange (clamp_in_place s)
        × ((high ≼ low) ≡ false)
        × ((clamp_in_place s).frequency.min_freq ≡ low)
        × ((clamp_in_place s).frequency.max_freq ≡ high)
  unfolding clamp_in_place
  clamp_in_place-InRange s =
      let apart =
        ordered_freqs _ _ (low_Within s.frequency.min_freq) (high_Within s.frequency.max_freq) in
      (bounds_lem s, apart, refl, rw apart refl)

  self-All :
      (xs : List F)
      → All (Within zero_f (lit 4 1)) xs
      → map (λ b. clamp_f b zero_f (lit 4 1)) xs ≡ xs
  self-All [] h = refl
  self-All (x ∷ xs) h = rw (clamp_f_self x zero_f (lit 4 1) h.0, self-All xs h.1)

  -- Under the laws of IEEE comparison, settings in range pass through `clamp_in_place` unchanged.
  pub clamp_in_place_self : (s : Settings F) → InRange s → clamp_in_place s ≡ s
  unfolding clamp_in_place
  clamp_in_place_self s r = rw (
    clamp_f_self s.audio.pan_smoothing _ _ r.pan_smoothing,
    clamp_f_self s.audio.pan_offset _ _ r.pan_offset,
    clamp_f_self s.beat.pulse_strength _ _ r.pulse_strength,
    clamp_f_self s.frequency.log_strength _ _ r.log_strength,
    clamp_f_self s.frequency.band_norm _ _ r.band_norm,
    clamp_f_self s.frequency.min_freq _ _ r.min_freq,
    clamp_f_self s.frequency.max_freq _ _ r.max_freq,
    ordered_freqs s.frequency.min_freq s.frequency.max_freq r.min_freq r.max_freq,
    clamp_f_self s.frequency.equalizer_width _ _ r.equalizer_width,
    clamp_f_self s.frequency.amplifier_volume _ _ r.amplifier_volume,
    clamp_f_self s.frequency.amplifier_bands _ _ r.amplifier_bands,
    clamp_f_self s.frequency.amplifier_direction _ _ r.amplifier_direction,
    clamp_f_self s.agc.window_seconds _ _ r.window_seconds,
    clamp_f_self s.agc.clamp_max _ _ r.clamp_max,
    clamp_f_self s.agc.att_attack_ms _ _ r.att_attack_ms,
    clamp_f_self s.agc.att_release_ms _ _ r.att_release_ms,
    clamp_f_self s.chronotensity.gain_volume _ _ r.gain_volume,
    clamp_f_self s.chronotensity.gain_bass _ _ r.gain_bass,
    clamp_f_self s.chronotensity.gain_treble _ _ r.gain_treble,
    clamp_f_self s.loudness.window_ms _ _ r.window_ms,
    clamp_int_self s.frequency.band_count (pos 8) (pos 128) r.band_count.0 r.band_count.1,
    clamp_int_self s.frequency.fft_size (pos 128) (pos 16384) r.fft_size.0 r.fft_size.1,
    self-All s.frequency.equalizer_bands r.equalizer_bands,
  )
