-- ===== src/Dsp/Stages/Beat/Locking.antt =====
-- src/audio/dsp/stages/beat_stage.cpp: the lock over a run of hops.
use listeningway.Prelude.{
  ℕ, zero, suc, ◌^◌, ◌≤◌, ◌<◌, ◌≡◌, sym, inl, inr, true, List, [], ◌∷◌, arith, Bool-cases, length,
  take, All,
}
use mathlib.Core.Path.{subst}
use listeningway.Float.{Float, IsOrdered, zero_f}
use listeningway.Config.Settings.{Settings}
use listeningway.Dsp.Frame.{AnalysisFrame}
use listeningway.Dsp.Beat.CombTempo.{Fft}
use listeningway.Dsp.Stages.Beat.{BeatStage, is_confident, make, process}
use listeningway.Dsp.Stages.Beat.Bounds.{IsSound, IsCounted, process-IsSound}

module _ {F : Type 0} ⦃fl : Float F⦄ (fft : Fft F) where
  -- Hops on a new stage, in order, and the stages that they leave, newest first.
  pub data Hops : BeatStage F → List (BeatStage F) → Type 0 where
    none_yet : Hops make []
    hop :
        {st next : BeatStage F} {past : List (BeatStage F)}
        → Hops st past
        → (frame : AnalysisFrame F) (cfg : Settings F) → next ≡ (process fft st frame cfg).0
        → Hops next (next ∷ past)

abbrev pub Confident : {F : Type 0} ⦃fl : Float F⦄ → BeatStage F → Type 0
Confident st = is_confident st ≡ true

module _ {F : Type 0} ⦃fl : Float F⦄ where
  -- The count is of hops in the past, all of them confident.
  abbrev Counts : BeatStage F → List (BeatStage F) → Type 0
  Counts st past =
      (st.confidence_above_thresh_frames ≤ length past)
      × All Confident (take st.confidence_above_thresh_frames past)

  count_on :
      (st next : BeatStage F) (past : List (BeatStage F))
      → IsCounted st next
      → Counts st past
      → Counts next (next ∷ past)
  count_on st next past (up, down) (bound, all) = elim (Bool-cases (is_confident next)) [
    | inl e ↦
        let n = st.confidence_above_thresh_frames in
        let step : next.confidence_above_thresh_frames ≡ suc n = omega (arith, up e) in
        rw step (omega (arith, bound), (e, all))
    | inr e ↦ rw (down e).0 (omega arith, tt)
  ]

  All-take :
      (xs : List (BeatStage F)) (m n : ℕ)
      → m ≤ n
      → All Confident (take n xs)
      → All Confident (take m xs)
  All-take [] zero n h p = tt
  All-take [] (suc m) n h p = tt
  All-take (x ∷ xs) zero n h p = tt
  All-take (x ∷ xs) (suc m) zero h p = absurd (omega (arith, h))
  All-take (x ∷ xs) (suc m) (suc n) h p = (p.0, All-take xs m n (omega (arith, h)) p.1)

module _ {F : Type 0} ⦃fl : Float F⦄ (laws : IsOrdered F) (fft : Fft F) where
  make-IsSound : IsSound {F = F} make
  make-IsSound =
      let high = laws.lit_ge 1 1 0 1 (omega arith) (omega arith) (omega arith) in
      ((laws.lt_irrefl zero_f, high), λ e. absurd cc)

  Hops-Counts :
      (st : BeatStage F) (past : List (BeatStage F))
      → Hops fft st past
      → IsSound st × Counts st past
  Hops-Counts _ _ none_yet = (make-IsSound, (omega arith, tt))
  Hops-Counts _ _ (hop {st = st} {next = next} {past = past} r frame cfg e) =
      let (sound, counts) = Hops-Counts st past r in
      let (kept, counted) = (process-IsSound laws fft st frame cfg sound).0 in
      (
        subst IsSound (sym e) kept,
        count_on st next past (subst (IsCounted st) (sym e) counted) counts,
      )

  -- Under the laws of IEEE comparison, after any hops on a new stage that are fewer than 2^31, whatever
  -- their spectra and settings: the count of confident hops has not left the range of its `int`, and a
  -- stage that is locked had at least 300 hops, of which the last 300 all found the tempo confident.
  pub Hops-locked :
      (st : BeatStage F) (past : List (BeatStage F))
      → Hops fft st past
      → length past < 2 ^ 31
      → (st.confidence_above_thresh_frames < 2 ^ 31)
        × (st.auto_locked ≡ true → (300 ≤ length past) × All Confident (take 300 past))
  Hops-locked st past r few =
      let (sound, (bound, all)) = Hops-Counts st past r in
      (
        omega (arith, bound, few),
        λ e.
            let enough = sound.1 e in
            (
              omega (arith, bound, enough),
              All-take past 300 st.confidence_above_thresh_frames enough all,
            ),
      )
