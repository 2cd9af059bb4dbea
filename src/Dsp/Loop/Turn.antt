-- ===== src/Dsp/Loop/Turn.antt =====
-- A turn of the DSP thread keeps its arrays in bounds, gives back every chunk, and works with the
-- settings of the store.
use listeningway.Prelude.{
  ℕ, zero, suc, ◌-◌, ◌≤◌, ◌<◌, min, ◌≡◌, refl, ap, ◌∙◌, inl, inr, Option, none, some, List, [], ◌∷◌,
  arith, ◌==◌, ==_iff, Bool-cases, length, take, replicate, length-append, length-replicate,
}
use listeningway.Float.{Float, zero_f}
use listeningway.Config.Store.{Store, snapshot}
use listeningway.Ring.{Queue, ChunkPtr, FrameRing, pop, recycle}
use listeningway.Dsp.Frame.{
  AnalysisFrame, AudioSnapshot, max_bands, volume_history_length, bands_history_frames,
}
use listeningway.Dsp.History.Unroll.{IsValid as IsHistory, store-IsValid}
use listeningway.Dsp.Pipeline.{max_stages}
use listeningway.Dsp.Loop.{
  value_or, copy_bands, source_bands, project, finish, feed, Process, DspThread, refresh,
  publish_frame, analyse, turn,
}

module _ {F : Type 0} where
  -- The counts fit the arrays, and the heads are slots of their rings.
  abbrev pub IsSound : AudioSnapshot F → Type 0
  IsSound s =
      (s.freq_band_count ≤ max_bands)
      × (length s.freq_bands ≡ max_bands)
      × (length s.freq_bands_raw ≡ max_bands)
      × (s.stage_count ≤ max_stages)
      × (s.volume_history_head < length s.volume_history)
      × (s.freq_bands_history_head < length s.freq_bands_history)

  abbrev pub Published : Option (AudioSnapshot F) → Type 0
  Published none = Unit
  Published (some s) = IsSound s

  length-take_le : (n : ℕ) (xs : List F) → n ≤ length xs → length (take n xs) ≡ n
  length-take_le zero xs h = refl
  length-take_le (suc n) [] h = absurd (omega arith)
  length-take_le (suc n) (x ∷ xs) h = ap suc (length-take_le n xs (omega arith))

module _ {F : Type 0} ⦃fl : Float F⦄ where
  length-copy_bands : (xs : List F) → length (copy_bands (min (length xs) max_bands) xs) ≡ max_bands
  length-copy_bands xs =
      let n = min (length xs) max_bands in
      omega (
        arith,
        length-append (take n xs) (replicate (max_bands - n) zero_f),
        length-take_le n xs (omega arith),
        length-replicate (max_bands - n) zero_f,
      )

module _ {T F : Type 0} ⦃fl : Float F⦄ {m : Queue (ChunkPtr F)} where
  abbrev pub IsValid : DspThread T F m → Type 0
  IsValid d =
      IsHistory volume_history_length d.volumes
      × IsHistory bands_history_frames d.rows
      × Published d.published

  refresh-IsValid : (st : Store F) (d : DspThread T F m) → IsValid d → IsValid (refresh st d)
  refresh-IsValid st d v = elim (Bool-cases (d.cached_version == st.version)) [
    | inl e ↦ rw (e, refresh) v
    | inr e ↦ rw (e, refresh) v
  ]

  publish_frame-IsValid :
      (d : DspThread T F m) (frame : AnalysisFrame F) → IsValid d → IsValid (publish_frame d frame)
  unfolding publish_frame project
  publish_frame-IsValid d frame v =
      let volumes =
        store-IsValid volume_history_length d.volumes (value_or frame.volume zero_f) v.0 in
      let rows = store-IsValid bands_history_frames d.rows _ v.1 in
      (
        volumes,
        rows,
        (
          omega arith,
          length-copy_bands (source_bands frame),
          length-copy_bands frame.raw_bands,
          omega arith,
          omega (arith, volumes.0, volumes.1),
          omega (arith, rows.0, rows.1),
        ),
      )

  finish-IsValid :
      (d : DspThread T F m) (o : Option (AnalysisFrame F)) → IsValid d → IsValid (finish d o)
  finish-IsValid d none v = v
  finish-IsValid d (some frame) v = publish_frame-IsValid d frame v

  finish_ring : (d : DspThread T F m) (o : Option (AnalysisFrame F)) → (finish d o).ring ≡ d.ring
  unfolding publish_frame
  finish_ring d none = refl
  finish_ring d (some frame) = refl

  finish_settings :
      (d : DspThread T F m) (o : Option (AnalysisFrame F))
      → ((finish d o).cached_settings ≡ d.cached_settings)
        × ((finish d o).cached_version ≡ d.cached_version)
  unfolding publish_frame
  finish_settings d none = (refl, refl)
  finish_settings d (some frame) = (refl, refl)

  refresh_ring : (st : Store F) (d : DspThread T F m) → (refresh st d).ring ≡ d.ring
  refresh_ring st d = elim (Bool-cases (d.cached_version == st.version)) [
    | inl e ↦ rw (e, refresh) refl
    | inr e ↦ rw (e, refresh) refl
  ]

  refresh_settings :
      (st : Store F) (d : DspThread T F m)
      → (d.cached_version ≡ st.version → d.cached_settings ≡ snapshot st)
      → ((refresh st d).cached_version ≡ st.version)
        × ((refresh st d).cached_settings ≡ snapshot st)
  refresh_settings st d h = elim (Bool-cases (d.cached_version == st.version)) [
    | inl e ↦ let same = (==_iff d.cached_version st.version).0 e in rw (e, refresh) (same, h same)
    | inr e ↦ rw (e, refresh) (refl, refl)
  ]

module _ {T F : Type 0} ⦃fl : Float F⦄ (m : Queue (ChunkPtr F)) (process : Process T F) where
  -- What happens to the popped chunk: it is given back, whether or not the pipeline threw.
  abbrev pub returned : FrameRing m → Option (ChunkPtr F) → FrameRing m
  returned r none = r
  returned r (some none) = r
  returned r (some (some chunk)) = recycle m r (some chunk)

  feed-IsValid :
      (now : ℕ) (d : DspThread T F m) (c : Option (ChunkPtr F))
      → IsValid d
      → IsValid (feed m process now d c)
  unfolding analyse
  feed-IsValid now d none v = v
  feed-IsValid now d (some none) v = v
  feed-IsValid now d (some (some chunk)) v = finish-IsValid _ _ v

  feed_ring :
      (now : ℕ) (d : DspThread T F m) (c : Option (ChunkPtr F))
      → (feed m process now d c).ring ≡ returned d.ring c
  unfolding analyse
  feed_ring now d none = refl
  feed_ring now d (some none) = refl
  feed_ring now d (some (some chunk)) = ap (λ r. recycle m r (some chunk)) (finish_ring _ _)

  feed_settings :
      (now : ℕ) (d : DspThread T F m) (c : Option (ChunkPtr F))
      → ((feed m process now d c).cached_settings ≡ d.cached_settings)
        × ((feed m process now d c).cached_version ≡ d.cached_version)
  unfolding analyse
  feed_settings now d none = (refl, refl)
  feed_settings now d (some none) = (refl, refl)
  feed_settings now d (some (some chunk)) = finish_settings _ _

  -- If the two history rings are whole with their heads inside, and what was published is sound
  -- (counts that fit the arrays, heads that are slots), then the same holds after a turn, whatever
  -- the pipeline does.
  pub turn-IsValid :
      (st : Store F) (now : ℕ) (d : DspThread T F m) → IsValid d → IsValid (turn m process st now d)
  unfolding turn
  turn-IsValid st now d v =
      feed-IsValid now _ (pop m (refresh st d).ring).0 (refresh-IsValid st d v)

  -- A turn leaves the frame ring with one chunk popped and given back, also when the pipeline throws,
  -- and as the failed `pop` left it when there is no data.
  pub turn_ring :
      (st : Store F) (now : ℕ) (d : DspThread T F m)
      → (turn m process st now d).ring ≡ returned (pop m d.ring).1 (pop m d.ring).0
  unfolding turn
  turn_ring st now d =
      feed_ring now _ (pop m (refresh st d).ring).0
      ∙ ap (λ r. returned (pop m r).1 (pop m r).0) (refresh_ring st d)

  -- If the cached settings are the store's whenever the versions agree, then after a turn the cached
  -- version and settings are the store's.
  pub turn_settings :
      (st : Store F) (now : ℕ) (d : DspThread T F m)
      → (d.cached_version ≡ st.version → d.cached_settings ≡ snapshot st)
      → ((turn m process st now d).cached_version ≡ st.version)
        × ((turn m process st now d).cached_settings ≡ snapshot st)
  unfolding turn
  turn_settings st now d h =
      let fed = feed_settings now _ (pop m (refresh st d).ring).0 in
      let fresh = refresh_settings st d h in (fed.1 ∙ fresh.0, fed.0 ∙ fresh.1)
