-- ===== src/Dsp/Stages/Directional/Bounds.antt =====
-- The directional stage always writes eight levels that are not below zero.
use listeningway.Prelude.{
  ℕ, ◌/◌, ◌≡◌, refl, ◌∙◌, inl, inr, Bool, true, false, ◌||◌, some, List, [], ◌∷◌, map, ◌==◌,
  if◌then◌else◌, Bool-cases, length, All, length-map,
}
use listeningway.Float.{Float, Casts, IsOrdered, zero_f, max_f, max_f-left}
use listeningway.Config.Settings.{Settings}
use listeningway.Ring.{ChannelLayout}
use listeningway.Dsp.Frame.{AnalysisFrame}
use listeningway.Dsp.Stages.Directional.{
  DirectionalStage, route, spread_ring, smooth_ring, shape, process, is_stereo, is_surround51,
  is_side, levels,
}

module _ {F : Type 0} ⦃fl : Float F⦄ where
  -- Eight levels, none below zero.
  abbrev pub IsRose : List F → Type 0
  IsRose dir = (length dir ≡ 8) × All (λ v. fl.lt v zero_f ≡ false) dir

  length-if :
      (n : ℕ) (b : Bool) (xs ys : List F)
      → length xs ≡ n
      → length ys ≡ n
      → length (if b then xs else ys) ≡ n
  length-if n true xs ys p q = p
  length-if n false xs ys p q = q

  length-route :
      (channels : ℕ) (layout : ChannelLayout) (rms : List F)
      → length (route channels layout rms) ≡ 8
  unfolding route
  length-route channels layout rms = length-if 8 (channels == 1) _ _ refl (
      length-if 8 (channels == 2 || is_stereo layout) _ _ refl (
        length-if 8 (channels == 6 || is_surround51 layout) _ _ refl
          (length-if 8 (channels == 8) _ _ (length-if 8 (is_side layout) _ _ refl refl) refl)))

  length-spread : (s : F) (dir : List F) → length dir ≡ 8 → length (spread_ring s dir) ≡ 8
  unfolding spread_ring
  length-spread s dir h = elim (Bool-cases (fl.lt zero_f s)) [
    | inl e ↦ rw (e, spread_ring) refl
    | inr e ↦ rw (e, spread_ring) h
  ]

  length-smooth : (a : F) (prev dir : List F) → length dir ≡ 8 → length (smooth_ring a prev dir) ≡ 8
  unfolding smooth_ring
  length-smooth a prev dir h = elim (Bool-cases (fl.lt zero_f a)) [
    | inl e ↦ rw (e, smooth_ring) refl
    | inr e ↦ rw (e, smooth_ring) h
  ]

module _ {F D : Type 0} ⦃fl : Float F⦄ ⦃fd : Float D⦄ (casts : Casts F D) (laws : IsOrdered F) where
  All-max : (dir : List F) → All (λ v. fl.lt v zero_f ≡ false) (map (λ v. max_f zero_f v) dir)
  All-max [] = tt
  All-max (v ∷ vs) = (max_f-left laws zero_f v, All-max vs)

  shape-IsRose :
      (st : DirectionalStage F) (cfg : Settings F) (dir : List F)
      → length dir ≡ 8
      → IsRose (shape casts st cfg dir)
  shape-IsRose st cfg dir h = (
    length-map (λ v. max_f zero_f v) _ ∙ length-smooth _ st.prev_dir _ (length-spread _ dir h),
    All-max _,
  )

  -- Under the laws of IEEE comparison, if the levels held from the last frame are eight and none is
  -- below zero, then so are those that the stage writes and holds next, on a frame without data
  -- too, and no other field is written.
  pub process-IsRose :
      (st : DirectionalStage F) (frame : AnalysisFrame F) (cfg : Settings F)
      → IsRose st.prev_dir
      → ((process casts st frame cfg).1
          ≡ record frame { direction_8 = some (process casts st frame cfg).0.prev_dir })
        × IsRose (process casts st frame cfg).0.prev_dir
  unfolding process
  process-IsRose st frame cfg h =
      let channels = frame.format.channels in
      let frames = length frame.samples / channels in
      let made = route channels frame.format.layout (levels casts frame frames) in
      elim (Bool-cases (channels == 0 || length frame.samples == 0 || frames == 0)) [
        | inl e ↦ rw (e, process) (refl, h)
        | inr e ↦
            rw (e, process)
              (
                refl,
                shape-IsRose st cfg made
                    (length-route channels frame.format.layout (levels casts frame frames)),
              )
      ]
