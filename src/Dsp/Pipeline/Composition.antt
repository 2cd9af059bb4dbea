-- ===== src/Dsp/Pipeline/Composition.antt =====
-- What `Pipeline::validate` (src/audio/dsp/pipeline.cpp) accepts, and which error it reports.
use listeningway.Prelude.{
  ℕ, zero, suc, ◌+◌, ◌≡◌, refl, sym, ap, ◌∙◌, ◌⊎◌, inl, inr, true, false, none, some, List, [], ◌∷◌,
  ◌++◌, arith, ◌==◌, ==_iff, Bool-cases, get_elem?, take,
}
use mathlib.Core.List.{append_assoc, append-nil}
use mathlib.Core.Option.{some_inj}
use listeningway.Float.{Float}
use listeningway.Dsp.Pipeline.{
  FieldId, field_index, IDspStage, CompositionError, Pipeline, contains, first_missing,
  validate_from, validate,
}

-- A field is among the listed ones.
abbrev pub Has : FieldId → List FieldId → Type 0
Has f [] = ⊥
Has f (g ∷ gs) = (field_index g ≡ field_index f) ⊎ Has f gs

contains_cases :
    (gs : List FieldId) (f : FieldId)
    → (contains gs f ≡ true) × Has f gs ⊎ (contains gs f ≡ false) × ¬ Has f gs
unfolding contains
contains_cases [] f = inr (refl, λ e. e)
contains_cases (g ∷ gs) f = elim (Bool-cases (field_index g == field_index f)) [
  | inl e ↦ inl (rw e refl, inl ((==_iff (field_index g) (field_index f)).0 e))
  | inr e ↦ elim (contains_cases gs f) [
    | inl p ↦ inl (rw e p.0, inr p.1)
    | inr p ↦ inr (
      rw e p.0,
      λ h. elim h [
        | inl same ↦ cc (e, (==_iff (field_index g) (field_index f)).1 same)
        | inr h ↦ p.1 h
      ],
    )
  ]
]

Has-same : (f g : FieldId) (gs : List FieldId) → field_index f ≡ field_index g → Has f gs → Has g gs
Has-same f g [] e h = h
Has-same f g (k ∷ gs) e (inl p) = inl (p ∙ e)
Has-same f g (k ∷ gs) e (inr p) = inr (Has-same f g gs e p)

Has-append : (f : FieldId) (xs ys : List FieldId) → Has f xs → Has f (xs ++ ys)
Has-append f [] ys h = absurd h
Has-append f (x ∷ xs) ys (inl p) = inl p
Has-append f (x ∷ xs) ys (inr p) = inr (Has-append f xs ys p)

-- The first missing field is read and is not available; with none missing, all are available.
missing_cases :
    (available fs : List FieldId)
    → (first_missing available fs ≡ none) × ((f : FieldId) → Has f fs → Has f available)
      ⊎ ((f : FieldId) × (first_missing available fs ≡ some f) × Has f fs × ¬ Has f available)
unfolding first_missing
missing_cases available [] = inl (refl, λ f e. absurd e)
missing_cases available (f ∷ fs) = elim (contains_cases available f) [
  | inr p ↦ inr (f, rw p.0 refl, inl refl, p.1)
  | inl p ↦ elim (missing_cases available fs) [
    | inl q ↦
        inl (
          rw p.0 q.0,
          λ g h. elim h [ inl same ↦ Has-same f g available same p.1 | inr h ↦ q.1 g h ],
        )
    | inr q ↦ inr (q.0, rw p.0 q.1, inr q.2, q.3)
  ]
]

module _ {T Frame Cfg : Type 0} (ops : IDspStage T Frame Cfg) where
  abbrev pub written : List T → List FieldId
  written [] = []
  written (s ∷ ss) = ops.writes s ++ written ss

  -- What is available after the stages `before`: the capture's two fields, and what they write.
  abbrev pub provided : List T → List FieldId
  provided before = (FieldId.samples ∷ FieldId.format ∷ []) ++ written before

  -- Wherever a stage stands, what it reads is provided before it.
  abbrev pub IsComposed : List T → Type 0
  IsComposed stages =
      (i : ℕ) (s : T)
      → get_elem? stages i ≡ some s
      → (f : FieldId) → Has f (ops.reads s)
      → Has f (provided (take i stages))

  -- The stage at the reported position reads the reported field, which is not provided before it.
  abbrev pub Unmet : List T → CompositionError → Type 0
  Unmet stages e =
      (s : T) × (get_elem? stages e.stage ≡ some s)
      × (e.name ≡ ops.name s)
      × Has e.field (ops.reads s)
      × ¬ Has e.field (provided (take e.stage stages))

  abbrev Passes : ℕ → List FieldId → List T → Type 0
  Passes idx available rest =
      (validate_from ops idx available rest ≡ none)
      × ((i : ℕ) (s : T)
          → get_elem? rest i ≡ some s
          → (f : FieldId) → Has f (ops.reads s)
          → Has f (available ++ written (take i rest)))

  abbrev Fails : ℕ → List FieldId → List T → Type 0
  Fails idx available rest =
      (k : ℕ) × (f : FieldId) × (s : T) × (validate_from ops idx available rest
        ≡ some (record { stage = idx + k; name = ops.name s; field = f }))
      × (get_elem? rest k ≡ some s)
      × Has f (ops.reads s)
      × ¬ Has f (available ++ written (take k rest))

  Passes-cons :
      (idx : ℕ) (available : List FieldId) (x : T) (rest : List T)
      → first_missing available (ops.reads x) ≡ none
      → ((f : FieldId) → Has f (ops.reads x) → Has f available)
      → Passes (suc idx) (available ++ ops.writes x) rest
      → Passes idx available (x ∷ rest)
  unfolding validate_from
  Passes-cons idx available x rest e h p = (rw (e, validate_from) p.0, provides)
    where
      provides :
          (i : ℕ) (s : T)
          → get_elem? (x ∷ rest) i ≡ some s
          → (f : FieldId) → Has f (ops.reads s)
          → Has f (available ++ written (take i (x ∷ rest)))
      provides zero s g f r = Has-append f available [] (h f (rw (some_inj.0 g) r))
      provides (suc i) s g f r =
          rw (sym (append_assoc available (ops.writes x) (written (take i rest)))) (p.1 i s g f r)

  Fails-cons :
      (idx : ℕ) (available : List FieldId) (x : T) (rest : List T)
      → first_missing available (ops.reads x) ≡ none
      → Fails (suc idx) (available ++ ops.writes x) rest
      → Fails idx available (x ∷ rest)
  unfolding validate_from
  Fails-cons idx available x rest e (k, f, s, v, g, r, n) = (
    suc k,
    f,
    s,
    rw (e, validate_from)
        (rw v (
          ap (λ (i : ℕ). some (record { stage = i; name = ops.name s; field = f })) (omega arith))),
    g,
    r,
    rw (sym (append_assoc available (ops.writes x) (written (take k rest)))) n,
  )

  validate_from_cases :
      (rest : List T) (idx : ℕ) (available : List FieldId)
      → Passes idx available rest ⊎ Fails idx available rest
  unfolding validate_from
  validate_from_cases [] idx available = inl (refl, λ i s e. cc)
  validate_from_cases (x ∷ rest) idx available = elim (missing_cases available (ops.reads x)) [
    | inl p ↦ elim (validate_from_cases rest (suc idx) (available ++ ops.writes x)) [
      | inl q ↦ inl (Passes-cons idx available x rest p.0 p.1 q)
      | inr q ↦ inr (Fails-cons idx available x rest p.0 q)
    ]
    | inr p ↦ inr (
      0,
      p.0,
      x,
      rw (p.1, validate_from)
          (ap (λ (i : ℕ). some (record { stage = i; name = ops.name x; field = p.0 }))
            (omega arith)),
      refl,
      p.2,
      rw (append-nil available) p.3,
    )
  ]

  -- Either the pipeline is accepted and every stage reads only what is provided before it, or the
  -- error names a stage, by position and name, and a field that it reads and that is not provided.
  pub validate_cases :
      {F : Type 0} ⦃fl : Float F⦄ (p : Pipeline T F)
      → (validate ops p ≡ none) × IsComposed p.stages
        ⊎ ((e : CompositionError) × (validate ops p ≡ some e) × Unmet p.stages e)
  unfolding validate
  validate_cases p = elim (validate_from_cases p.stages 0 (FieldId.samples ∷ FieldId.format ∷ [])) [
    | inl q ↦ inl q
    | inr q ↦ inr (
      record { stage = q.0; name = ops.name q.2; field = q.1 },
      q.3
          ∙ ap (λ (i : ℕ). some (record { stage = i; name = ops.name q.2; field = q.1 }))
              (omega arith),
      (q.2, q.4, refl, q.5, q.6),
    )
  ]
