-- ===== src/System/Lifecycle.antt =====
-- The states between calls, and what each call guarantees.
use Prim.Native.String.{String}
use listeningway.Prelude.{
  ◌≡◌, refl, ◌≢◌, ◌↔◌, ◌⊎◌, Bool, true, false, Option, none, some, List, [], ◌∷◌, arith,
  if◌then◌else◌,
}
use listeningway.System.{
  State, Source, Services, AudioSystem, make_system, register_source, chosen, attempt, start_locked,
  start, halt, stop, switch_source,
}

-- Between calls the system is off, running or in error; the DSP thread exists exactly while it
-- runs, with a source behind it, and none was ever assigned over a running one.
pub record IsValid {W : Type 0} (a : AudioSystem W) : Type 0 where
  pub settled : (a.state ≡ State.off) ⊎ (a.state ≡ State.running) ⊎ (a.state ≡ State.error)
  pub off_idle : a.state ≡ State.off → a.current ≡ none
  pub run_thread : a.state ≡ State.running → (a.thread ≡ true) × (a.dsp_running ≡ true)
  pub run_source : a.state ≡ State.running → a.current ≢ none
  pub still_thread : a.state ≢ State.running → (a.thread ≡ false) × (a.dsp_running ≡ false)
  pub not_aborted : a.aborted ≡ false

-- The public calls.
pub data Call (W : Type 0) : Type 0 where
  registers : Option (Source W) → Call W
  starts stops : Call W
  switches : String → Call W

module _ {W : Type 0} (services : Services W) where
  unfoldable pub apply : AudioSystem W × W → Call W → AudioSystem W × W
  apply (a, w) (registers s) = (register_source a s, w)
  apply (a, w) starts = let r = start services a w in (r.1, r.2)
  apply (a, w) stops = stop services a w
  apply (a, w) (switches code) = let r = switch_source services a code w in (r.1, r.2)

  unfoldable pub apply_all : AudioSystem W × W → List (Call W) → AudioSystem W × W
  apply_all p [] = p
  apply_all p (c ∷ cs) = apply_all (apply p c) cs

  make_system-IsValid : (b : Bool) → IsValid (make_system {W = W} b)
  unfolding make_system
  make_system-IsValid b = ground arith

  -- From a system with no thread a start ends running or in error, as it reports.
  attempt-IsValid :
      (a : AudioSystem W) (s : Option (Source W)) (w : W)
      → a.thread ≡ false
      → a.dsp_running ≡ false
      → a.aborted ≡ false
      → IsValid (attempt services a s w).1
        × (((attempt services a s w).0 ≡ true) ↔ ((attempt services a s w).1.state ≡ State.running))
  unfolding attempt
  attempt-IsValid a none w t d b = ground arith
  attempt-IsValid a (some s) w t d b = ground arith

  halt-IsValid : (a : AudioSystem W) (w : W) → a.aborted ≡ false → IsValid (halt services a w).0
  unfolding halt
  halt-IsValid a w b = ground arith

  -- What a starting call reports: true exactly when the system then runs.
  abbrev pub Reports : Bool × AudioSystem W × W → Type 0
  Reports r = (r.0 ≡ true) ↔ (r.1.state ≡ State.running)

  start_in :
      (st : State) (a : AudioSystem W) (w : W)
      → a.state ≡ st
      → IsValid a
      → IsValid (start services a w).1 × Reports (start services a w)
  unfolding start start_locked
  start_in State.off a w e v =
      let idle = v.still_thread (λ f. cc) in
      rw (e, start) (attempt-IsValid a (chosen services a w) w idle.0 idle.1 v.not_aborted)
  start_in State.running a w e v = rw (e, start) (v, (λ _. e, λ _. refl))
  start_in State.error a w e v = rw (e, start) (v, (λ f. cc, λ f. cc))
  start_in State.starting a w e v = rw (e, start) (v, (λ f. cc, λ f. cc))
  start_in State.stopping a w e v = rw (e, start) (v, (λ f. cc, λ f. cc))

  start_elsewhere :
      (a : AudioSystem W) (w : W)
      → a.state ≢ State.off
      → ((start services a w).1 ≡ a) × ((start services a w).2 ≡ w)
  unfolding start
  start_elsewhere a w n = untouched a.state refl
    where
      untouched :
          (st : State) → a.state ≡ st → ((start services a w).1 ≡ a) × ((start services a w).2 ≡ w)
      untouched State.off e = absurd (n e)
      untouched State.running e = ground arith
      untouched State.error e = ground arith
      untouched State.starting e = ground arith
      untouched State.stopping e = ground arith

  -- `start` keeps the system valid, returns true exactly when it then runs, and never touches a
  -- system that already runs or failed.
  pub start_lem :
      (a : AudioSystem W) (w : W)
      → IsValid a
      → IsValid (start services a w).1
        × Reports (start services a w)
        × (a.state ≢ State.off → ((start services a w).1 ≡ a) × ((start services a w).2 ≡ w))
  start_lem a w v =
      let (valid, reports) = start_in a.state a w refl v in (valid, reports, start_elsewhere a w)

  stop_in :
      (st : State) (a : AudioSystem W) (w : W)
      → a.state ≡ st
      → IsValid a
      → IsValid (stop services a w).0 × ((stop services a w).0.state ≡ State.off)
  unfolding stop halt
  stop_in State.off a w e v = rw (e, stop) (v, e)
  stop_in State.running a w e v = rw (e, stop) (halt-IsValid a w v.not_aborted, refl)
  stop_in State.error a w e v = rw (e, stop) (halt-IsValid a w v.not_aborted, refl)
  stop_in State.starting a w e v = rw (e, stop) (halt-IsValid a w v.not_aborted, refl)
  stop_in State.stopping a w e v = rw (e, stop) (halt-IsValid a w v.not_aborted, refl)

  stop_off : (a : AudioSystem W) (w : W) → a.state ≡ State.off → stop services a w ≡ (a, w)
  unfolding stop
  stop_off a w e = ground arith

  -- `stop` ends off with no thread and no source, and a second `stop` does nothing.
  pub stop_lem :
      (a : AudioSystem W) (w : W)
      → IsValid a
      → let (b, u) = stop services a w in
        IsValid b × (b.state ≡ State.off) × (stop services b u ≡ (b, u))
  stop_lem a w v = let (valid, off) = stop_in a.state a w refl v in (valid, off, stop_off _ _ off)

  switch_source-IsValid :
      (a : AudioSystem W) (code : String) (w : W)
      → IsValid a
      → IsValid (switch_source services a code w).1 × Reports (switch_source services a code w)
  unfolding switch_source start_locked
  switch_source-IsValid a code w v =
      let (valid, off) = stop_in a.state a w refl v in
      let idle = valid.still_thread (λ f. cc) in
      let b = (stop services a w).0 in
      let w' = (stop services a w).1 in
      let u = if b.has_store then services.save (services.write_code code w') else w' in
      attempt-IsValid b (chosen services b u) u idle.0 idle.1 valid.not_aborted

  register_source-IsValid :
      (a : AudioSystem W) (s : Option (Source W)) → IsValid a → IsValid (register_source a s)
  unfolding register_source
  register_source-IsValid a none v = v
  register_source-IsValid a (some s) v = ground arith

  apply-IsValid : (a : AudioSystem W) (w : W) (c : Call W) → IsValid a → IsValid (apply (a, w) c).0
  unfolding apply
  apply-IsValid a w (registers s) v = register_source-IsValid a s v
  apply-IsValid a w starts v = (start_in a.state a w refl v).0
  apply-IsValid a w stops v = (stop_in a.state a w refl v).0
  apply-IsValid a w (switches code) v = (switch_source-IsValid a code w v).0

  run-IsValid :
      (cs : List (Call W)) (a : AudioSystem W) (w : W) → IsValid a → IsValid (apply_all (a, w) cs).0
  unfolding apply_all
  run-IsValid [] a w v = v
  run-IsValid (c ∷ cs) a w v =
      run-IsValid cs (apply (a, w) c).0 (apply (a, w) c).1 (apply-IsValid a w c v)

  -- Whatever calls are made on a new system, and however its sources answer, between calls it is
  -- off, running or in error, the DSP thread exists exactly while it runs, and no thread was
  -- assigned over a live one.
  pub apply_all-IsValid :
      (b : Bool) (cs : List (Call W)) (w : W) → IsValid (apply_all (make_system b, w) cs).0
  apply_all-IsValid b cs w = run-IsValid cs (make_system b) w (make_system-IsValid b)
