-- ===== src/Dsp/Stages/Bands/Covering.antt =====
-- src/audio/dsp/stages/bands_stage.cpp: every band has bins, all of them in the spectrum.
use listeningway.Prelude.{
  ℕ, zero, suc, ◌+◌, ◌-◌, ◌≤◌, ◌<◌, ◌≡◌, refl, inl, inr, Bool, true, false, Option, none, some,
  List, [], ◌∷◌, arith, ◌==◌, if◌then◌else◌, Bool-cases, length, get_or, replicate, All,
  length-tabulate, All-append, All-set, All-tabulate, for_range-KeepsIn,
}
use listeningway.Float.{Float, ◌⊗◌, ◌⊖◌, ◌≺◌, zero_f}
use listeningway.Config.Settings.{FrequencyConfig}
use listeningway.Dsp.Stages.Bands.{
  Cache, push_bin, find_band, assign_bin, closest_from, fill_band, map_bins, is_current, refresh,
}

abbrev InSpectrum : ℕ → ℕ → Type 0
InSpectrum half k = (1 ≤ k) × (k < half)

-- A band's bins: at least one, and no bin outside the spectrum.
abbrev pub IsCovered : ℕ → List ℕ → Type 0
IsCovered half bin = (0 < length bin) × All (InSpectrum half) bin

abbrev pub IsCovering : {F : Type 0} → Cache F → Type 0
IsCovering cache =
    (length cache.bins ≡ cache.band_count) × All (IsCovered cache.fft_half) cache.bins

All-get_or :
    {A : Type 0} (P : A → Type 0) (xs : List A) (i : ℕ) (d : A) → All P xs → P d → P (get_or xs i d)
All-get_or P [] i d p q = q
All-get_or P (x ∷ xs) zero d p q = p.0
All-get_or P (x ∷ xs) (suc i) d p q = All-get_or P xs i d p.1 q

All-replicate : {A : Type 0} (P : A → Type 0) (n : ℕ) (a : A) → P a → All P (replicate n a)
All-replicate P zero a p = tt
All-replicate P (suc n) a p = (p, All-replicate P n a p)

push_bin-All :
    (half : ℕ) (bins : List (List ℕ)) (k : ℕ) (b : Option ℕ)
    → InSpectrum half k
    → All (All (InSpectrum half)) bins
    → All (All (InSpectrum half)) (push_bin bins k b)
push_bin-All half bins k none h p = p
push_bin-All half bins k (some b) h p = All-set (All (InSpectrum half)) bins b _ p (
    All-append (InSpectrum half) (get_or bins b []) (k ∷ [])
      (All-get_or (All (InSpectrum half)) bins b [] p tt) (h, tt))

if-InSpectrum :
    (half : ℕ) (t : Bool) (a b : ℕ)
    → InSpectrum half a
    → InSpectrum half b
    → InSpectrum half (if t then a else b)
if-InSpectrum half true a b p q = p
if-InSpectrum half false a b p q = q

module _ {F : Type 0} ⦃fl : Float F⦄ where
  assign_bin-All :
      (edges : List F) (width : F) (n half k : ℕ) (bins : List (List ℕ))
      → InSpectrum half k
      → All (All (InSpectrum half)) bins
      → All (All (InSpectrum half)) (assign_bin edges width n k bins)
  assign_bin-All edges width n half k bins h p =
      elim (Bool-cases ((fl.of_nat k ⊗ width) ≺ get_or edges 0 zero_f)) [
        | inl e ↦ rw e p
        | inr e ↦ rw e (push_bin-All half bins k (find_band edges (fl.of_nat k ⊗ width) 0 n) h p)
      ]

  closest_from-InSpectrum :
      (width center : F) (half k n : ℕ) (best : F) (closest : ℕ)
      → 1 ≤ k
      → k + n ≤ half
      → InSpectrum half closest
      → InSpectrum half (closest_from width center k n best closest)
  closest_from-InSpectrum width center half k zero best closest low high c = c
  closest_from-InSpectrum width center half k (suc n) best closest low high c =
      closest_from-InSpectrum width center half (suc k) n _ _ (omega arith) (omega arith) (
        if-InSpectrum half (fl.abs (fl.of_nat k ⊗ width ⊖ center) ≺ best) k closest
          (low, omega arith) c)

  fill_band-IsCovered :
      (max_float : F) (edges : List F) (width : F) (half : ℕ) (bins : List (List ℕ)) (b : ℕ)
      → 2 ≤ half
      → All (All (InSpectrum half)) bins
      → IsCovered half (fill_band max_float edges width half bins b)
  fill_band-IsCovered max_float edges width half bins b h p =
      elim (Bool-cases (length (get_or bins b []) == 0)) [
        | inl e ↦ rw e (
          omega arith,
          (
            closest_from-InSpectrum width _ half 1 (half - 1) max_float 1 (omega arith)
                (omega (arith, h)) (omega arith, omega (arith, h)),
            tt,
          ),
        )
        | inr e ↦ rw e (ground (arith, e), All-get_or (All (InSpectrum half)) bins b [] p tt)
      ]

  map_bins-IsCovered :
      (max_float : F) (edges : List F) (width : F) (n half : ℕ)
      → 2 ≤ half
      → (length (map_bins max_float edges width n half) ≡ n)
        × All (IsCovered half) (map_bins max_float edges width n half)
  unfolding map_bins
  map_bins-IsCovered max_float edges width n half h =
      let assigned =
        for_range-KeepsIn (All (All (InSpectrum half))) (assign_bin edges width n) 1 (half - 1)
          (replicate n [])
          (λ k t low high p. assign_bin-All edges width n half k t (low, omega (arith, high, h)) p)
          (All-replicate (All (InSpectrum half)) n [] tt) in
      (
        length-tabulate _ 0 n,
        All-tabulate (IsCovered half) _ 0 n
            (λ b. fill_band-IsCovered max_float edges width half _ b h assigned),
      )

  -- After the check of the cache: its bins fit the spectrum of the frame.
  pub refresh-IsCovering :
      (max_float : F) (cache : Cache F) (n half : ℕ) (sr : F) (fc : FrequencyConfig F)
      → 2 ≤ half
      → IsCovering cache
      → IsCovering (refresh max_float cache n half sr fc)
        × (((refresh max_float cache n half sr fc).fft_half ≡ half)
            × ((refresh max_float cache n half sr fc).band_count ≡ n))
  refresh-IsCovering max_float cache n half sr fc h sound =
      elim (Bool-cases (is_current cache n half sr fc)) [
        | inl e ↦ rw e (sound, (ground (arith, e), ground (arith, e)))
        | inr e ↦ rw e (map_bins-IsCovered max_float _ _ n half h, (refl, refl))
      ]
