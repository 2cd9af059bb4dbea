-- ===== src/Dsp/Pipeline/Effects.antt =====
-- What `Pipeline::process` does to the frame, and that the timing slots keep the stages' names.
use Prim.Native.String.{String}
use listeningway.Prelude.{
  ℕ, suc, ◌<◌, ◌≡◌, refl, sym, ap, ◌∙◌, inl, inr, Option, none, some, List, [], ◌∷◌, ◌++◌, map,
  arith, ltb, if◌then◌else◌, ltb→lt, lt→ltb, Bool-cases, Option-cases, length, get_elem?, set,
  length-set, get_elem?-lt, get_elem?-append, get_elem?-set, get_elem?-set_ne, set-get_elem?,
  length-map, map-set, get_elem?-map, map-append,
}
use listeningway.Float.{Float}
use listeningway.Dsp.Pipeline.{
  IDspStage, StageTiming, Pipeline, max_stages, slot_name, time_stage, untimed, append, run,
  add as add_stage, clear as clear_stages, process as process_frame, reset as reset_stages,
}

module _ {F : Type 0} where
  abbrev pub label : StageTiming F → String
  label t = t.name

module _ {T Frame Cfg : Type 0} (ops : IDspStage T Frame Cfg) where
  -- The stages alone: each transforms the frame that the one before it leaves.
  abbrev pub through : Cfg → List T → Frame → List T × Frame
  through cfg [] frame = ([], frame)
  through cfg (stage ∷ rest) frame =
      let after = ops.process stage frame cfg in
      let out = through cfg rest after.1 in (after.0 ∷ out.0, out.1)

  -- A stage's name does not depend on its state.
  abbrev pub IsNamed : Type 0
  IsNamed =
      ((s : T) (frame : Frame) (cfg : Cfg) → ops.name (ops.process s frame cfg).0 ≡ ops.name s)
      × ((s : T) → ops.name (ops.reset s) ≡ ops.name s)

  map_name_reset : IsNamed → (ss : List T) → map ops.name (map ops.reset ss) ≡ map ops.name ss
  map_name_reset named [] = refl
  map_name_reset named (s ∷ ss) = rw (named.1 s, map_name_reset named ss) refl

-- Sixteen slots, and each of the first sixteen stages has its own, under its own name.
abbrev pub Labelled : List String → List String → Type 0
Labelled names labels =
    (length labels ≡ max_stages)
    × ((i : ℕ) (n : String)
        → i < max_stages
        → get_elem? names i ≡ some n
        → get_elem? labels i ≡ some (slot_name n))

Labelled-append :
    (names labels : List String) (n : String)
    → Labelled names labels
    → Labelled
        (names ++ (n ∷ []))
        (if ltb (length names) max_stages then set labels (length names) (slot_name n) else labels)
Labelled-append names labels n v = elim (Bool-cases (ltb (length names) max_stages)) [
  | inl e ↦ rw e (
    length-set labels (length names) (slot_name n) ∙ v.0,
    λ i m h g. elim (get_elem?-append names n i m g) [
      | inl old ↦
          get_elem?-set_ne labels (length names) i (slot_name n)
            (λ same. absurd (omega (arith, get_elem?-lt names i m old)))
          ∙ v.1 i m h old
      | inr new ↦
          rw (new.0, sym new.1)
            (get_elem?-set labels (length names) (slot_name n)
              (omega (arith, ltb→lt (length names) max_stages e, v.0)))
    ],
  )
  | inr e ↦ rw e (
    v.0,
    λ i m h g. elim (get_elem?-append names n i m g) [
      | inl old ↦ v.1 i m h old
      | inr new ↦
          absurd (ground (arith, lt→ltb (length names) max_stages (omega (arith, h, new.0)), e))
    ],
  )
]

pub data Call (T Frame Cfg F : Type 0) : Type 0 where
  add : Option T → Call T Frame Cfg F
  clear : Call T Frame Cfg F
  process : (ℕ → F) → F → Frame → Cfg → Call T Frame Cfg F
  reset : Call T Frame Cfg F

module _ {T Frame Cfg F : Type 0} (ops : IDspStage T Frame Cfg) ⦃fl : Float F⦄ where
  run-through :
      (elapsed : ℕ → F) (cfg : Cfg) (i : ℕ) (stages : List T) (ts : List (StageTiming F))
      (frame : Frame)
      → ((run ops elapsed cfg i stages ts frame).0 ≡ (through ops cfg stages frame).0)
        × ((run ops elapsed cfg i stages ts frame).1.1 ≡ (through ops cfg stages frame).1)
  unfolding run
  run-through elapsed cfg i [] ts frame = (refl, refl)
  run-through elapsed cfg i (stage ∷ rest) ts frame =
      let after = ops.process stage frame cfg in
      let timed = if ltb i max_stages then time_stage ts i (elapsed i) else ts in
      let tail = run-through elapsed cfg (suc i) rest timed after.1 in
      (ap (λ out. after.0 ∷ out) tail.0, tail.1)

  -- Whatever the clock measures, the pipeline's frame and stages are those of its stages alone.
  pub process_through :
      (elapsed : ℕ → F) (total : F) (p : Pipeline T F) (frame : Frame) (cfg : Cfg)
      → ((process_frame ops elapsed total p frame cfg).0.stages
          ≡ (through ops cfg p.stages frame).0)
        × ((process_frame ops elapsed total p frame cfg).1 ≡ (through ops cfg p.stages frame).1)
  unfolding process_frame
  process_through elapsed total p frame cfg = run-through elapsed cfg 0 p.stages p.timings frame

  -- Every stage among the first sixteen has its slot, of sixteen, under its own name.
  abbrev pub IsValid : Pipeline T F → Type 0
  IsValid p = Labelled (map ops.name p.stages) (map label p.timings)

  abbrev pub apply : Call T Frame Cfg F → Pipeline T F → Pipeline T F
  apply (Call.add s) p = add_stage ops p s
  apply Call.clear p = clear_stages p
  apply (Call.process elapsed total frame cfg) p = (process_frame ops elapsed total p frame cfg).0
  apply Call.reset p = reset_stages ops p

  abbrev pub apply_calls : List (Call T Frame Cfg F) → Pipeline T F → Pipeline T F
  apply_calls [] p = p
  apply_calls (c ∷ cs) p = apply_calls cs (apply c p)

  labels_time :
      (ts : List (StageTiming F)) (i : ℕ) (m : F) → map label (time_stage ts i m) ≡ map label ts
  labels_time ts i m = elim (Option-cases (get_elem? ts i)) [
    | inl e ↦ rw (e, time_stage) refl
    | inr e ↦
        rw (e.1, time_stage)
          (map-set label ts i _
            ∙ set-get_elem? (map label ts) i e.0.name (get_elem?-map label ts i e.0 e.1))
  ]

  run_labels :
      (named : IsNamed ops) (elapsed : ℕ → F) (cfg : Cfg) (i : ℕ) (stages : List T)
      (ts : List (StageTiming F)) (frame : Frame)
      → (map ops.name (run ops elapsed cfg i stages ts frame).0 ≡ map ops.name stages)
        × (map label (run ops elapsed cfg i stages ts frame).1.0 ≡ map label ts)
  unfolding run
  run_labels named elapsed cfg i [] ts frame = (refl, refl)
  run_labels named elapsed cfg i (stage ∷ rest) ts frame =
      let after = ops.process stage frame cfg in
      let timed = if ltb i max_stages then time_stage ts i (elapsed i) else ts in
      let tail = run_labels named elapsed cfg (suc i) rest timed after.1 in
      let kept : map label timed ≡ map label ts = elim (Bool-cases (ltb i max_stages)) [
        | inl e ↦ rw e (labels_time ts i (elapsed i))
        | inr e ↦ rw e refl
      ] in
      (rw (named.0 stage frame cfg, tail.0) refl, tail.1 ∙ kept)

  map-map-untimed : (ts : List (StageTiming F)) → map label (map untimed ts) ≡ map label ts
  map-map-untimed [] = refl
  map-map-untimed (t ∷ ts) = ap (λ out. t.name ∷ out) (map-map-untimed ts)

  append-IsValid : (p : Pipeline T F) (s : T) → IsValid p → IsValid (append ops p s)
  append-IsValid p s v =
      let placed = Labelled-append (map ops.name p.stages) (map label p.timings) (ops.name s) v in
      elim (Bool-cases (ltb (length p.stages) max_stages)) [
        | inl e ↦
            rw
              (
                e,
                map-append ops.name p.stages (s ∷ []),
                map-set label p.timings (length p.stages) _,
              )
              (rw (length-map ops.name p.stages, e) at placed)
        | inr e ↦
            rw (e, map-append ops.name p.stages (s ∷ []))
              (rw (length-map ops.name p.stages, e) at placed)
      ]

  apply-IsValid :
      IsNamed ops → (c : Call T Frame Cfg F) (p : Pipeline T F) → IsValid p → IsValid (apply c p)
  unfolding add_stage clear_stages process_frame reset_stages
  apply-IsValid named (Call.add none) p v = v
  apply-IsValid named (Call.add (some s)) p v = append-IsValid p s v
  apply-IsValid named Call.clear p v = (refl, λ i n h e. absurd (cc e))
  apply-IsValid named (Call.process elapsed total frame cfg) p v =
      let kept = run_labels named elapsed cfg 0 p.stages p.timings frame in rw (kept.0, kept.1) v
  apply-IsValid named Call.reset p v =
      rw (map_name_reset ops named p.stages, map-map-untimed p.timings) v

  -- If no stage's name depends on its state, then every sequence of `add`, `clear`, `process` and
  -- `reset` keeps the timings whole: sixteen slots, and each of the first sixteen stages has its
  -- own, under its own name cut to 23 bytes.
  pub apply_calls-IsValid :
      IsNamed ops
      → (cs : List (Call T Frame Cfg F)) (p : Pipeline T F) → IsValid p
      → IsValid (apply_calls cs p)
  apply_calls-IsValid named [] p v = v
  apply_calls-IsValid named (c ∷ cs) p v =
      apply_calls-IsValid named cs (apply c p) (apply-IsValid named c p v)
