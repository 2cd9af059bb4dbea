-- ===== src/Dsp/Beat.antt =====
-- src/audio/dsp/beat: from spectra to onsets, tempo and beats. Here is what these parts share.
pub mod OdfCsd
pub mod CombTempo
pub mod BeatTracker
pub mod Tests
use listeningway.Prelude.{ℕ, zero, suc, ◌+◌, ◌≤◌, ◌<◌, Bool, true, false, arith, if◌then◌else◌}
use listeningway.Float.{Float, ◌≺◌}

module _ {F : Type 0} ⦃fl : Float F⦄ where
  -- `for (i = start; n left; ++i) if (value(i) > best) { best = value(i); best_i = i; }`.
  abbrev pub argmax_from : (ℕ → F) → ℕ → ℕ → F → ℕ → ℕ
  argmax_from value i zero best best_i = best_i
  argmax_from value i (suc n) best best_i =
      let better = best ≺ value i in
      argmax_from value (suc i) n (if better then value i else best) (if better then i else best_i)

  -- The result is the index that the loop started with, or one that it visits.
  pub argmax_from_lt :
      (value : ℕ → F) (i n : ℕ) (best : F) (best_i bound : ℕ)
      → best_i < bound
      → i + n ≤ bound
      → argmax_from value i n best best_i < bound
  argmax_from_lt value i zero best best_i bound h k = h
  argmax_from_lt value i (suc n) best best_i bound h k =
      argmax_from_lt value (suc i) n _ _ bound
        (if_lt (best ≺ value i) i best_i bound (omega arith) h) (omega arith)
    where
      if_lt : (t : Bool) (a b c : ℕ) → a < c → b < c → (if t then a else b) < c
      if_lt true a b c p q = p
      if_lt false a b c p q = q
