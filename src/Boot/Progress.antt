-- ===== src/Boot/Progress.antt =====
-- Where repeated ticks lead: a halted queue stays as it is, and steps that finish run in order.
use listeningway.Prelude.{
  ℕ, zero, suc, ◌+◌, ◌≤◌, ◌<◌, ◌≡◌, refl, ap, ◌⊎◌, true, false, some, List, [], ◌∷◌, arith, length,
  get_elem?, drop,
}
use listeningway.Boot.{Entry, Scheduler, done, continue, is_done, tick, run_entry, ticks}

module _ {W : Type 0} where
  -- A drained or failed queue does not move, and runs nothing.
  pub ticks_halted :
      (n : ℕ) (s : Scheduler W) (w : W)
      → (s.is_failed ≡ true) ⊎ (length s.steps ≤ s.next)
      → ticks n s w ≡ (s, w)
  unfolding ticks tick
  ticks_halted zero s w h = refl
  ticks_halted (suc n) s w h =
      let still : tick s w ≡ (false, s, w) = ground arith in rw still (ticks_halted n s w h)

  -- A step that is done at its call `n`, having asked to go on at each call before: it takes the world
  -- `w` to `u`.
  pub data Finishes (e : Entry W) : ℕ → W → W → Type 0 where
    at_once : {w u : W} → run_entry (some e) w ≡ (done, u) → Finishes e 1 w u
    later :
        {n : ℕ} {w v u : W}
        → run_entry (some e) w ≡ (continue, v)
        → Finishes e n v u
        → Finishes e (suc n) w u

  -- The steps one after the other, each until it is done, with `n` calls in all.
  pub data Drains : List (Entry W) → ℕ → W → W → Type 0 where
    none_left : {w : W} → Drains [] 0 w w
    one_more :
        {e : Entry W} {es : List (Entry W)} {n m k : ℕ} {w v u : W}
        → Finishes e n w v
        → Drains es m v u
        → k ≡ n + m
        → Drains (e ∷ es) k w u

  drop-cons :
      (xs : List (Entry W)) (i : ℕ) (e : Entry W) (es : List (Entry W))
      → drop i xs ≡ e ∷ es
      → (get_elem? xs i ≡ some e) × (drop (suc i) xs ≡ es) × (i < length xs)
  drop-cons [] zero e es h = cc
  drop-cons [] (suc i) e es h = cc
  drop-cons (x ∷ xs) zero e es h = (cc, cc, omega arith)
  drop-cons (x ∷ xs) (suc i) e es h =
      let r = drop-cons xs i e es h in (r.0, r.1, omega (arith, r.2))

  length-drop : (xs : List (Entry W)) (i : ℕ) → i ≤ length xs → drop i xs ≡ [] → length xs ≡ i
  length-drop [] zero h e = refl
  length-drop [] (suc i) h e = elim h [ ]
  length-drop (x ∷ xs) zero h e = cc
  length-drop (x ∷ xs) (suc i) h e = ap suc (length-drop xs i (omega arith) e)

  ticks-add :
      (n m : ℕ) (s : Scheduler W) (w : W)
      → ticks (n + m) s w ≡ ticks m (ticks n s w).0 (ticks n s w).1
  unfolding ticks
  ticks-add zero m s w = let e : zero + m ≡ m = omega arith in rw e refl
  ticks-add (suc n) m s w =
      let e : suc n + m ≡ suc (n + m) = omega arith in
      rw e (ticks-add n m (tick s w).1 (tick s w).2)

  tick-done :
      (s : Scheduler W) (w u : W) (e : Entry W)
      → s.is_failed ≡ false
      → get_elem? s.steps s.next ≡ some e
      → s.next < length s.steps
      → run_entry (some e) w ≡ (done, u)
      → tick s w ≡ (true, record s { next = suc s.next }, u)
  unfolding tick
  tick-done s w u e f g h r = ground arith

  tick-continue :
      (s : Scheduler W) (w u : W) (e : Entry W)
      → s.is_failed ≡ false
      → get_elem? s.steps s.next ≡ some e
      → s.next < length s.steps
      → run_entry (some e) w ≡ (continue, u)
      → tick s w ≡ (true, s, u)
  unfolding tick
  tick-continue s w u e f g h r = ground arith

  -- The ticks of one step, until it is done.
  ticks-Finishes :
      (s : Scheduler W) (e : Entry W) (n : ℕ) (w u : W)
      → s.is_failed ≡ false
      → get_elem? s.steps s.next ≡ some e
      → s.next < length s.steps
      → Finishes e n w u
      → ticks n s w ≡ (record s { next = suc s.next }, u)
  unfolding ticks
  ticks-Finishes s e _ w u f g h (at_once r) = rw (tick-done s w u e f g h r) refl
  ticks-Finishes s e _ w u f g h (later {n = n} {v = v} r rest) =
      rw (tick-continue s w v e f g h r) (ticks-Finishes s e n v u f g h rest)

  ticks-Drains :
      (es : List (Entry W)) (s : Scheduler W) (n : ℕ) (w u : W)
      → s.is_failed ≡ false
      → s.next ≤ length s.steps
      → drop s.next s.steps ≡ es
      → Drains es n w u
      → ticks n s w ≡ (record s { next = length s.steps }, u)
  unfolding ticks
  ticks-Drains [] s _ w _ f b d none_left = rw (length-drop s.steps s.next b d) refl
  ticks-Drains (e ∷ es) s k w u f b d (one_more {n = n} {m = m} {v = v} fin rest same) =
      let at = drop-cons s.steps s.next e es d in
      rw (same, ticks-add n m s w, ticks-Finishes s e n w v f at.0 at.2 fin)
        (ticks-Drains es (record s { next = suc s.next }) m v u f at.2 at.1 rest)

  -- In a queue that has not failed, from the first step on: where the steps one after the other,
  -- each called until it is done, take `n` calls without a failure and lead from one world to
  -- another, `n` ticks lead to that world, past the last step, and leave the queue done.
  pub ticks_complete :
      (s : Scheduler W) (n : ℕ) (w u : W)
      → s.is_failed ≡ false
      → s.next ≡ 0
      → Drains s.steps n w u
      → (ticks n s w ≡ (record s { next = length s.steps }, u)) × (is_done (ticks n s w).0 ≡ true)
  unfolding is_done
  ticks_complete s n w u f z drains =
      let start : drop s.next s.steps ≡ s.steps = rw z refl in
      let all = ticks-Drains s.steps s n w u f (omega arith) start drains in
      (all, rw all (ground arith))
