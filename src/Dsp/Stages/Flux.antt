-- ===== src/Dsp/Stages/Flux.antt =====
-- src/audio/dsp/stages/flux_stage.h.
pub mod Sizes
use listeningway.Prelude.{
  ℕ, suc, Option, none, some, List, [], ◌∷◌, ◌==◌, if◌then◌else◌, length, replicate,
}
use listeningway.Float.{Float, ◌⊕◌, ◌⊖◌, ◌⊗◌, ◌⊘◌, ◌≼◌, lit, zero_f, one_f, max_f}
use listeningway.Dsp.Frame.{AnalysisFrame}

pub record FluxStage (F : Type 0) : Type 0 where
  pub prev_log : List F

-- The four sums.
pub record Fluxes (F : Type 0) : Type 0 where
  pub total : F
  pub low : F
  pub mid : F
  pub high : F

module _ {F : Type 0} ⦃fl : Float F⦄ where
  pub reset : FluxStage F → FluxStage F
  reset st = record { prev_log = [] }

  abbrev pub eps : F
  eps = lit 1 10_000_000_000

  abbrev pub no_flux : Fluxes F
  no_flux = record { total = zero_f; low = zero_f; mid = zero_f; high = zero_f }

  -- The increase of one bin, counted in the total and in the range of its frequency; the bins
  -- between 2 and 6 kHz count in the total only.
  abbrev pub count : F → F → Fluxes F → Fluxes F
  count f diff a =
      let b = record a { total = a.total ⊕ diff } in
      if f ≼ lit 150 1
      then record b { low = b.low ⊕ diff }
      else if f ≼ lit 2000 1
      then record b { mid = b.mid ⊕ diff }
      else if lit 6000 1 ≼ f
      then record b { high = b.high ⊕ diff }
      else b

  -- The loop over the bins from `k` on: the new logarithms and the sums.
  abbrev pub compare_bins : F → ℕ → List F → List F → Fluxes F → List F × Fluxes F
  compare_bins bin_hz k [] prev a = ([], a)
  compare_bins bin_hz k (x ∷ xs) [] a = ([], a)
  compare_bins bin_hz k (x ∷ xs) (p ∷ prev) a =
      let lo = fl.log (max_f eps x) in
      let rest =
        compare_bins bin_hz (suc k) xs prev
          (count (fl.of_nat k ⊗ bin_hz) (max_f zero_f (lo ⊖ p)) a) in
      (lo ∷ rest.0, rest.1)

  abbrev pub write : AnalysisFrame F → Fluxes F → AnalysisFrame F
  write frame a = record frame {
    flux_total = some a.total;
    flux_low = some a.low;
    flux_mid = some a.mid;
    flux_high = some a.high;
  }

  abbrev pub scaled : F → Fluxes F → Fluxes F
  scaled norm a = record {
    total = a.total ⊗ norm;
    low = a.low ⊗ norm;
    mid = a.mid ⊗ norm;
    high = a.high ⊗ norm;
  }

  -- Behind the first early return: a new number of bins starts afresh.
  abbrev pub step : FluxStage F → AnalysisFrame F → List F → FluxStage F × AnalysisFrame F
  step st frame mags =
      let bin_hz = fl.of_nat frame.format.sample_rate ⊗ lit 5 10 ⊘ fl.of_nat (length mags) in
      let out = compare_bins bin_hz 0 mags st.prev_log no_flux in
      if length st.prev_log == length mags
      then (
        record { prev_log = out.0 },
        write frame (scaled (one_f ⊘ fl.of_nat (length mags)) out.1),
      )
      else (record { prev_log = replicate (length mags) (fl.log eps) }, write frame no_flux)

  abbrev pub guarded :
      FluxStage F → AnalysisFrame F → Option (List F) → FluxStage F × AnalysisFrame F
  guarded st frame none = (st, write frame no_flux)
  guarded st frame (some mags) =
      if frame.format.sample_rate == 0 then (st, write frame no_flux) else step st frame mags

  pub process : FluxStage F → AnalysisFrame F → FluxStage F × AnalysisFrame F
  process st frame = guarded st frame frame.magnitudes
