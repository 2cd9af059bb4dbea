-- ===== src/Dsp/Stages/Directional.antt =====
-- src/audio/dsp/stages/directional_stage.h.
pub mod Bounds
use listeningway.Prelude.{
  ℕ, zero, suc, ◌+◌, ◌*◌, ◌/◌, ◌%◌, min, Bool, true, false, ◌||◌, some, List, [], ◌∷◌, map, ◌==◌,
  if◌then◌else◌, length, get_or, set, replicate, tabulate,
}
use listeningway.Float.{Float, Casts, ◌⊕◌, ◌⊖◌, ◌⊗◌, ◌⊘◌, lit, zero_f, one_f, min_f, max_f, clamp_f}
use listeningway.Config.Settings.{Settings}
use listeningway.Ring.{ChannelLayout}
use listeningway.Dsp.Frame.{AnalysisFrame}
use listeningway.Dsp.Pipeline.{FieldId}

abbrev pub reads : List FieldId
reads = FieldId.samples ∷ FieldId.format ∷ []

abbrev pub writes : List FieldId
writes = FieldId.direction_8 ∷ []

pub record DirectionalStage (F : Type 0) : Type 0 where
  pub prev_dir : List F

pub is_stereo : ChannelLayout → Bool
is_stereo ChannelLayout.stereo = true
is_stereo _ = false

pub is_surround51 : ChannelLayout → Bool
is_surround51 ChannelLayout.surround51 = true
is_surround51 _ = false

-- The side variant of 7.1, which an unknown layout is taken for.
pub is_side : ChannelLayout → Bool
is_side ChannelLayout.surround71_side = true
is_side ChannelLayout.unknown = true
is_side _ = false

module _ {F : Type 0} ⦃fl : Float F⦄ where
  abbrev pub make : DirectionalStage F
  make = record { prev_dir = replicate 8 zero_f }

  abbrev pub at : List F → ℕ → F
  at xs i = get_or xs i zero_f

  -- `dir[i] += v`.
  abbrev pub bump : ℕ → F → List F → List F
  bump i v dir = set dir i (at dir i ⊕ v)

  abbrev pub route_stereo : List F → List F → List F
  route_stereo rms dir =
      let common = min_f (at rms 0) (at rms 1) in
      let sl = max_f zero_f (at rms 0 ⊖ common) in
      let sr = max_f zero_f (at rms 1 ⊖ common) in bump 2 sr (bump 6 sl (bump 0 common dir))

  abbrev pub route_51 : List F → List F → List F
  route_51 rms dir =
      bump 2 (at rms 5)
        (bump 6 (at rms 4) (bump 0 (at rms 2) (bump 1 (at rms 1) (bump 7 (at rms 0) dir))))

  abbrev pub route_71 : Bool → List F → List F → List F
  route_71 side rms dir =
      let front = bump 0 (at rms 2) (bump 1 (at rms 1) (bump 7 (at rms 0) dir)) in
      if side
      then bump 3 (at rms 7) (bump 5 (at rms 6) (bump 2 (at rms 5) (bump 6 (at rms 4) front)))
      else bump 2 (at rms 7) (bump 6 (at rms 6) (bump 3 (at rms 5) (bump 5 (at rms 4) front)))

  -- The sum of the first `n` elements, from `acc` on.
  abbrev pub sum_first : ℕ → List F → F → F
  sum_first zero xs acc = acc
  sum_first (suc n) [] acc = acc
  sum_first (suc n) (x ∷ xs) acc = sum_first n xs (acc ⊕ x)

  abbrev pub route_even : ℕ → List F → List F → List F
  route_even channels rms dir =
      let per = sum_first (min channels 8) rms zero_f ⊘ lit 8 1 in map (λ v. v ⊕ per) dir

  -- The per-channel levels, sent to the eight buckets F FR R BR B BL L FL.
  pub route : ℕ → ChannelLayout → List F → List F
  route channels layout rms =
      let dir = replicate 8 zero_f in
      if channels == 1
      then set dir 0 (at rms 0)
      else if channels == 2 || is_stereo layout
      then route_stereo rms dir
      else if channels == 6 || is_surround51 layout
      then route_51 rms dir
      else if channels == 8
      then route_71 (is_side layout) rms dir
      else route_even channels rms dir

  -- Each bucket gains a part of its two neighbours on the ring.
  pub spread_ring : F → List F → List F
  spread_ring spread dir =
      if fl.lt zero_f spread
      then tabulate (λ i. at dir i ⊕ (at dir ((i + 7) % 8) ⊕ at dir ((i + 1) % 8)) ⊗ spread) 0 8
      else dir

  pub smooth_ring : F → List F → List F → List F
  smooth_ring alpha prev dir =
      if fl.lt zero_f alpha
      then tabulate (λ i. alpha ⊗ at prev i ⊕ (one_f ⊖ alpha) ⊗ at dir i) 0 8
      else dir

module _ {F D : Type 0} ⦃fl : Float F⦄ ⦃fd : Float D⦄ (casts : Casts F D) where
  -- The inner loop, over the channels from `c` on, `left` of them: a square is added to each sum.
  abbrev pub add_squares : List F → ℕ → ℕ → ℕ → List D → List D
  add_squares xs base c zero sq = sq
  add_squares xs base c (suc left) sq =
      let x = casts.widen (get_or xs (base + c) zero_f) in
      add_squares xs base (suc c) left (set sq c (get_or sq c zero_f ⊕ x ⊗ x))

  -- The outer loop, over the sample frames.
  abbrev pub sum_squares : List F → ℕ → ℕ → ℕ → List D → List D
  sum_squares xs channels i zero sq = sq
  sum_squares xs channels i (suc left) sq =
      sum_squares xs channels (suc i) left (add_squares xs (i * channels) 0 (min channels 8) sq)

  abbrev pub levels : AnalysisFrame F → ℕ → List F
  levels frame frames =
      map (λ s. fl.sqrt (casts.narrow (s ⊘ fd.of_nat frames)))
        (sum_squares frame.samples frame.format.channels 0 frames (replicate 8 zero_f))

  abbrev pub shape : DirectionalStage F → Settings F → List F → List F
  shape st cfg dir =
      let spread = clamp_f cfg.frequency.spatial_spread zero_f (lit 5 10) in
      let alpha = clamp_f cfg.frequency.spatial_smoothing zero_f (lit 95 100) in
      map (λ v. max_f zero_f v) (smooth_ring alpha st.prev_dir (spread_ring spread dir))

  pub process :
      DirectionalStage F → AnalysisFrame F → Settings F → DirectionalStage F × AnalysisFrame F
  process st frame cfg =
      let channels = frame.format.channels in
      let frames = length frame.samples / channels in
      if channels == 0 || length frame.samples == 0 || frames == 0
      then (st, record frame { direction_8 = some st.prev_dir })
      else let dir = shape st cfg (route channels frame.format.layout (levels frame frames)) in
        (record { prev_dir = dir }, record frame { direction_8 = some dir })
