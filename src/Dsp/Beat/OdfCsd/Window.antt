-- ===== src/Dsp/Beat/OdfCsd/Window.antt =====
-- src/audio/dsp/beat/odf_csd.cpp: which frames an onset value depends on.
use listeningway.Prelude.{
  ℕ, zero, suc, ◌<◌, min, ◌≡◌, refl, ap, ◌∙◌, true, false, List, [], ◌∷◌, arith, ◌==◌, length, take,
  All,
}
use listeningway.Float.{Float, zero_f}
use listeningway.Dsp.Beat.OdfCsd.{OdfCsd, make, ensure_size, sum_bins, process}

-- The spectra of one frame, of `n` bins.
abbrev pub HasBins : {F : Type 0} → ℕ → List F × List F → Type 0
HasBins n frame = (length frame.0 ≡ n) × (length frame.1 ≡ n)

-- Two frames of a size have been seen: the last frame, and the phases of the one before.
abbrev Remembers : {F : Type 0} → OdfCsd F → List F × List F → List F × List F → Type 0
Remembers s last before =
    (s.prev_mag ≡ last.0)
    × ((s.prev_phase ≡ last.1) × ((s.prev_phase2 ≡ before.1) × (s.warmed_up ≡ true)))

take_all : {A : Type 0} (xs : List A) (n : ℕ) → length xs ≡ n → take n xs ≡ xs
take_all [] zero e = refl
take_all [] (suc n) e = refl
take_all (x ∷ xs) zero e = absurd (omega (arith, e))
take_all (x ∷ xs) (suc n) e = ap (λ ys. x ∷ ys) (take_all xs n (omega (arith, e)))

module _ {F : Type 0} ⦃fl : Float F⦄ where
  -- The onset of three frames, the newest first.
  abbrev pub onset : ℕ → List F × List F → List F × List F → List F × List F → F
  onset n newest last before = sum_bins (last.0, (last.1, before.1)) newest.0 newest.1 0 n zero_f

  -- The frames newest first, from a new detector.
  abbrev pub after : List (List F × List F) → OdfCsd F
  after [] = make
  after (frame ∷ older) = (process (after older) frame.0 frame.1).1

  process-steady :
      (s : OdfCsd F) (n : ℕ) (newest last before : List F × List F)
      → 0 < n
      → HasBins n newest
      → HasBins n last
      → Remembers s last before
      → ((process s newest.0 newest.1).0 ≡ onset n newest last before)
        × Remembers (process s newest.0 newest.1).1 newest last
  unfolding process ensure_size
  process-steady s n newest last before pos (hm, hp) (lm, lp) (m, (p, (p2, w))) =
      let bins : min (length newest.0) (length newest.1) ≡ n = omega (arith, hm, hp) in
      let some_bins : (n == 0) ≡ false = ground (arith, pos) in
      let same : (length s.prev_mag == n) ≡ true = ground (arith, ap length m ∙ lm) in
      rw (bins, some_bins, same, w, m, p, p2)
        (refl, (take_all newest.0 n hm, (take_all newest.1 n hp, (refl, refl))))

  -- The one frame that a detector has seen.
  abbrev HasSeen : OdfCsd F → List F × List F → Type 0
  HasSeen s last =
      (s.prev_mag ≡ last.0)
      × ((s.prev_phase ≡ last.1) × ((s.warmed_up ≡ false) × (s.frames_seen ≡ 1)))

  first-HasSeen :
      (n : ℕ) (last : List F × List F)
      → 0 < n
      → HasBins n last
      → HasSeen (process (make {F = F}) last.0 last.1).1 last
  unfolding process ensure_size
  first-HasSeen n last pos (lm, lp) =
      let bins : min (length last.0) (length last.1) ≡ n = omega (arith, lm, lp) in
      let some_bins : (n == 0) ≡ false = ground (arith, pos) in
      let fresh : (0 == n) ≡ false = ground (arith, pos) in
      rw (bins, some_bins, fresh) (take_all last.0 n lm, (take_all last.1 n lp, (refl, refl)))

  second-Remembers :
      (s : OdfCsd F) (n : ℕ) (last before : List F × List F)
      → 0 < n
      → HasBins n last
      → HasBins n before
      → HasSeen s before
      → Remembers (process s last.0 last.1).1 last before
  unfolding process ensure_size
  second-Remembers s n last before pos (lm, lp) (bm, bp) (m, (p, (w, seen))) =
      let bins : min (length last.0) (length last.1) ≡ n = omega (arith, lm, lp) in
      let some_bins : (n == 0) ≡ false = ground (arith, pos) in
      let same : (length s.prev_mag == n) ≡ true = ground (arith, ap length m ∙ bm) in
      rw (bins, some_bins, same, w, seen) (take_all last.0 n lm, (take_all last.1 n lp, (p, refl)))

  after-Remembers :
      (n : ℕ) (last before : List F × List F) (older : List (List F × List F))
      → 0 < n
      → All (HasBins n) (last ∷ before ∷ older)
      → Remembers (after (last ∷ before ∷ older)) last before
  after-Remembers n last before [] pos (l, (b, rest)) =
      second-Remembers (after (before ∷ [])) n last before pos l b (first-HasSeen n before pos b)
  after-Remembers n last before (frame ∷ older) pos (l, (b, rest)) =
      (process-steady (after (before ∷ frame ∷ older)) n last before frame pos l b
        (after-Remembers n before frame older pos (b, rest))).1

  -- On frames of one positive number of bins, from a new detector: from the third frame on, the
  -- onset value is a function of the newest frame and of the two before it, whatever came earlier.
  pub process-onset :
      (n : ℕ) (newest last before : List F × List F) (older : List (List F × List F))
      → 0 < n
      → All (HasBins n) (newest ∷ last ∷ before ∷ older)
      → (process (after (last ∷ before ∷ older)) newest.0 newest.1).0 ≡ onset n newest last before
  process-onset n newest last before older pos (h, (l, rest)) =
      (process-steady (after (last ∷ before ∷ older)) n newest last before pos h l
        (after-Remembers n last before older pos (l, rest))).0
