-- ===== src/Config/Store/Versions.antt =====
-- What each operation of the store leaves behind.
use listeningway.Prelude.{
  ◌≡◌, refl, ◌≢◌, ◌⊎◌, inl, inr, true, false, some, List, [], ◌∷◌, arith, Bool-cases,
}
use mathlib.Core.Path.{subst}
use listeningway.Prelude.Int.{ℤ}
use listeningway.Float.{Float, IsOrdered}
use listeningway.Config.Settings.{Settings, default_settings, current_schema_version}
use listeningway.Config.Store.{
  Store, FileRead, missing, malformed, parsed, written, bump_version, make_store, load, save,
  snapshot, publish, mutate, eq_int,
}
use listeningway.Config.Store.Bounds.{InRange, clamp_in_place-InRange, clamp_in_place_self}

-- The operations that change a store, with what the outside contributes.
pub data Op (F : Type 0) : Type 0 where
  loads : FileRead F → Op F
  publishes : Settings F → Op F
  mutates : (Settings F → Settings F) → Op F

eq_int_refl : (a b : ℤ) → a ≡ b → eq_int a b ≡ true
eq_int_refl a b e = rw e (ground arith)

eq_of_eq_int : (a b : ℤ) → eq_int a b ≡ true → a ≡ b
eq_of_eq_int a b e = ground arith

module _ {F : Type 0} ⦃fl : Float F⦄ where
  unfoldable pub apply : Store F → Op F → Store F
  apply st (loads file) = (load st file).1
  apply st (publishes s) = publish st s
  apply st (mutates fn) = mutate st fn

  unfoldable pub apply_all : Store F → List (Op F) → Store F
  apply_all st [] = st
  apply_all st (op ∷ ops) = apply_all (apply st op) ops

  -- `load` succeeds exactly on a file that parses and carries the current schema. Then it
  -- publishes the clamped settings under the next version; otherwise the store is as it was.
  pub load_cases :
      (st : Store F) (file : FileRead F)
      → ((s : Settings F) × (file ≡ parsed s)
          × (s.schema_version ≡ current_schema_version)
          × (load st file ≡ (true, publish st s)))
        ⊎ ((load st file ≡ (false, st))
            × ((s : Settings F) → file ≡ parsed s → s.schema_version ≢ current_schema_version))
  unfolding load publish
  load_cases st missing = inr (refl, λ s e. cc)
  load_cases st malformed = inr (refl, λ s e. cc)
  load_cases st (parsed s) = elim (Bool-cases (eq_int s.schema_version current_schema_version)) [
    | inl same ↦ inl (s, refl, eq_of_eq_int _ _ same, rw same)
    | inr other ↦ inr (
      rw other,
      λ r e q.
          let same : s.schema_version ≡ current_schema_version = cc in
          let test = eq_int_refl _ _ same in cc,
    )
  ]

module _ {F : Type 0} ⦃fl : Float F⦄ (laws : IsOrdered F) where
  apply-InRange : (st : Store F) (op : Op F) → InRange st.settings → InRange (apply st op).settings
  unfolding apply publish mutate
  apply-InRange st (loads file) r = elim (load_cases st file) [
    | inl (s, _, _, e) ↦ rw (e, apply) (clamp_in_place-InRange laws s).0
    | inr (e, _) ↦ rw (e, apply) r
  ]
  apply-InRange st (publishes s) r = (clamp_in_place-InRange laws s).0
  apply-InRange st (mutates fn) r = (clamp_in_place-InRange laws (fn (snapshot st))).0

  apply_all-InRange :
      (st : Store F) (ops : List (Op F)) → InRange st.settings → InRange (apply_all st ops).settings
  unfolding apply_all
  apply_all-InRange st [] r = r
  apply_all-InRange st (op ∷ ops) r = apply_all-InRange (apply st op) ops (apply-InRange st op r)

  -- Under the laws of IEEE comparison, whatever is loaded, published or done to the settings by a
  -- functor from a new store on: in what a snapshot of the store returns, every bounded integer is in
  -- its range, and no bounded `float` is below or above its own; NaN, which is neither, is not excluded.
  pub snapshot-InRange :
      (ops : List (Op F)) → InRange (snapshot (apply_all (make_store {F = F}) ops))
  unfolding snapshot make_store
  snapshot-InRange ops =
      apply_all-InRange make_store ops ((clamp_in_place-InRange laws default_settings).0)

  -- Under the laws of IEEE comparison, settings of the current schema that were saved from a store
  -- after any operations, and are read back as they were written, load unchanged, under the next
  -- version.
  pub load-save :
      (st : Store F) (ops : List (Op F)) (s : Settings F)
      → save (apply_all (make_store {F = F}) ops) written ≡ (true, some s)
      → s.schema_version ≡ current_schema_version
      → load st (parsed s) ≡ (true, record { settings = s; version = bump_version st.version })
  unfolding save load snapshot
  load-save st ops s e v =
      let now = apply_all (make_store {F = F}) ops in
      let kept : now.settings ≡ s = cc in
      let r : InRange s = subst InRange kept (snapshot-InRange ops) in
      rw (eq_int_refl _ _ v, clamp_in_place_self laws s r)
