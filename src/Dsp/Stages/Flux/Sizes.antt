-- ===== src/Dsp/Stages/Flux/Sizes.antt =====
-- The flux stage remembers one logarithm for each bin, and starts afresh when their number changes.
use listeningway.Prelude.{
  ℕ, suc, ◌≡◌, refl, ap, ◌⊎◌, inl, inr, false, some, List, [], ◌∷◌, arith, ◌==◌, ==_iff, Bool-cases,
  length, length-replicate,
}
use listeningway.Float.{Float}
use listeningway.Dsp.Frame.{AnalysisFrame}
use listeningway.Dsp.Stages.Flux.{FluxStage, Fluxes, no_flux, compare_bins, write, process}

module _ {F : Type 0} ⦃fl : Float F⦄ where
  length-compare_bins :
      (bin_hz : F) (k : ℕ) (xs prev : List F) (a : Fluxes F)
      → length prev ≡ length xs
      → length (compare_bins bin_hz k xs prev a).0 ≡ length xs
  length-compare_bins bin_hz k [] prev a e = refl
  length-compare_bins bin_hz k (x ∷ xs) [] a e = absurd (omega (arith, e))
  length-compare_bins bin_hz k (x ∷ xs) (p ∷ prev) a e =
      ap suc (length-compare_bins bin_hz (suc k) xs prev _ (omega (arith, e)))

  -- With a spectrum of a known rate, the stage then remembers as many values as there are bins, and
  -- if it did not before, it writes zero for the four fluxes. Only these four are ever written.
  pub flux_cases :
      (st : FluxStage F) (frame : AnalysisFrame F) (mags : List F)
      → frame.magnitudes ≡ some mags
      → (frame.format.sample_rate == 0) ≡ false
      → (length (process st frame).0.prev_log ≡ length mags)
        × ((length st.prev_log ≡ length mags) ⊎ ((process st frame).1 ≡ write frame no_flux))
        × ((a : Fluxes F) × ((process st frame).1 ≡ write frame a))
  unfolding process
  flux_cases st frame mags e r = elim (Bool-cases (length st.prev_log == length mags)) [
    | inl same ↦
        let equal = (==_iff (length st.prev_log) (length mags)).0 same in
        rw (e, r, same, process)
          (length-compare_bins _ 0 mags st.prev_log no_flux equal, inl equal, (_, refl))
    | inr other ↦
        rw (e, r, other, process) (length-replicate (length mags) _, inr refl, (no_flux, refl))
  ]
