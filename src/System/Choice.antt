-- ===== src/System/Choice.antt =====
-- Which source a start takes.
use Prim.Native.String.{String}
use text.Mathlib.Text.{◌==◌ as str_eq}
use listeningway.Prelude.{
  ◌≡◌, refl, ap, ◌≢◌, ◌⊎◌, inl, inr, Bool, true, false, ◌&&◌, Option, none, some, List, [], ◌∷◌,
  ◌++◌, Bool-cases, All,
}
use listeningway.System.{Source, AudioSystem, first, or_else, choose, find_source}

module _ {W : Type 0} where
  abbrev pub FirstOf : (Source W → Bool) → List (Source W) → Option (Source W) → Type 0
  FirstOf p ss none = All (λ s. p s ≡ false) ss
  FirstOf p ss (some s) =
      (before after : List (Source W)) × (ss ≡ before ++ (s ∷ after))
      × (p s ≡ true)
      × All (λ t. p t ≡ false) before

  extend :
      (p : Source W → Bool) (t : Source W) (ss : List (Source W)) (r : Option (Source W))
      → p t ≡ false
      → FirstOf p ss r
      → FirstOf p (t ∷ ss) r
  extend p t ss none e f = (e, f)
  extend p t ss (some s) e (before, after, q, yes_s, miss) =
      (t ∷ before, after, ap (◌∷◌ t) q, yes_s, (e, miss))

  first-FirstOf : (p : Source W → Bool) (ss : List (Source W)) → FirstOf p ss (first p ss)
  first-FirstOf p [] = tt
  first-FirstOf p (s ∷ ss) = elim (Bool-cases (p s)) [
    | inl e ↦ rw e ([], ss, refl, e, tt)
    | inr e ↦ simp e (extend p s ss (first p ss) e (first-FirstOf p ss))
  ]

  pick :
      (p q r : Source W → Bool) (ss : List (Source W)) (a b c : Option (Source W))
      → FirstOf p ss a
      → FirstOf q ss b
      → FirstOf r ss c
      → let o = or_else a (or_else b c) in
        ((o ≢ none) × FirstOf p ss o)
        ⊎ (FirstOf p ss none × (o ≢ none) × FirstOf q ss o)
        ⊎ (FirstOf p ss none × FirstOf q ss none × FirstOf r ss o)
  pick p q r ss (some s) b c f g h = inl (λ e. cc, f)
  pick p q r ss none (some s) c f g h = inr (inl (f, λ e. cc, g))
  pick p q r ss none none c f g h = inr (inr (f, g, h))

  -- The choice is the first source with the configured code; if there is none, the first available
  -- default source; if there is none, the first available one; and nothing only if none of the
  -- three exists.
  pub choose_cases :
      (a : AudioSystem W) (code : String) (w : W)
      → let by_code = λ (s : Source W). str_eq s.code code in
        let by_default = λ (s : Source W). s.is_default && s.available w in
        let by_chance = λ (s : Source W). s.available w in
        let r = choose a code w in
        ((r ≢ none) × FirstOf by_code a.sources r)
        ⊎ (FirstOf by_code a.sources none × (r ≢ none) × FirstOf by_default a.sources r)
        ⊎ (FirstOf by_code a.sources none
            × FirstOf by_default a.sources none
            × FirstOf by_chance a.sources r)
  unfolding choose find_source
  choose_cases a code w =
      pick _ _ _ a.sources _ _ _ (first-FirstOf (λ s. str_eq s.code code) a.sources)
        (first-FirstOf (λ s. s.is_default && s.available w) a.sources)
        (first-FirstOf (λ s. s.available w) a.sources)
