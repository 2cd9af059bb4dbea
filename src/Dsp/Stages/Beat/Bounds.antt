-- ===== src/Dsp/Stages/Beat/Bounds.antt =====
-- src/audio/dsp/stages/beat_stage.cpp: the ranges of what the stage publishes, and its lock.
use listeningway.Prelude.{
  ℕ, ◌+◌, ◌≤◌, ◌≡◌, refl, ap, ◌∙◌, inl, inr, Bool, true, false, ◌||◌, Option, some, List, arith,
  leb, Bool-cases,
}
use listeningway.Float.{Float, IsOrdered, Within, ◌≼◌, lit, zero_f, one_f, clamp_f-Within}
use listeningway.Config.Settings.{Settings, BeatConfig}
use listeningway.Dsp.Frame.{AnalysisFrame}
use listeningway.Dsp.OdfBuffer.{snapshot_length, snapshot_to}
use listeningway.Dsp.Beat.CombTempo.{CombTempo, Fft, estimate}
use listeningway.Dsp.Beat.CombTempo.Bounds.{estimate_cases}
use listeningway.Dsp.Beat.BeatTracker.{BeatTracker, beat_phase}
use listeningway.Dsp.Stages.Beat.{
  BeatStage, tempo_update_hops, estimate_from, update_tempo, is_confident, update_lock, listen,
  pulse, publish, process,
}

module _ {F : Type 0} ⦃fl : Float F⦄ where
  -- The confidence is neither below 0 nor above 1, and the lock is on only at a count of 300.
  abbrev pub IsSound : BeatStage F → Type 0
  IsSound st =
      Within zero_f one_f st.comb.last_confidence
      × (st.auto_locked ≡ true → 300 ≤ st.confidence_above_thresh_frames)

  -- A field that is there, with a value neither below nor above a range.
  abbrev pub HasWithin : F → F → Option F → Type 0
  HasWithin lo hi field = (x : F) × ((field ≡ some x) × Within lo hi x)

  -- What a hop does to the count and the lock: a confident hop adds one, any other clears both.
  abbrev pub IsCounted : BeatStage F → BeatStage F → Type 0
  IsCounted st next =
      (is_confident next ≡ true
        → next.confidence_above_thresh_frames ≡ st.confidence_above_thresh_frames + 1)
      × (is_confident next ≡ false
          → (next.confidence_above_thresh_frames ≡ 0) × (next.auto_locked ≡ false))

  update_lock-IsCounted : (st : BeatStage F) → IsCounted st (update_lock st)
  unfolding update_lock
  update_lock-IsCounted st = elim (Bool-cases (is_confident st)) [
    | inl e ↦ rw e ((λ c. refl), (λ c. absurd cc))
    | inr e ↦ rw e ((λ c. absurd cc), (λ c. (refl, refl)))
  ]

  pulse-IsCounted :
      (st from : BeatStage F) (odf : F) (now : ℕ) (bc : BeatConfig F)
      → IsCounted from st
      → IsCounted from (pulse st odf now bc)
  unfolding pulse
  pulse-IsCounted st from odf now bc counted = counted

  update_lock-IsSound : (st : BeatStage F) → IsSound st → IsSound (update_lock st)
  unfolding update_lock
  update_lock-IsSound st (conf, locked) = elim (Bool-cases (is_confident st)) [
    | inl e ↦ rw e (conf, λ h. lock_count st.confidence_above_thresh_frames st.auto_locked locked h)
    | inr e ↦ rw e (conf, λ h. absurd (cc h))
  ]
    where
      lock_count :
          (n : ℕ) (auto : Bool)
          → (auto ≡ true → 300 ≤ n)
          → (leb 300 (n + 1) || auto) ≡ true
          → 300 ≤ n + 1
      lock_count n true locked h = omega (arith, locked refl)
      lock_count n false locked h = ground (arith, h)

  pulse-comb :
      (st : BeatStage F) (odf : F) (now : ℕ) (bc : BeatConfig F)
      → (IsSound st → IsSound (pulse st odf now bc))
  unfolding pulse
  pulse-comb st odf now bc sound = sound

module _ {F : Type 0} ⦃fl : Float F⦄ (laws : IsOrdered F) (fft : Fft F) where
  estimate-Within :
      (s : CombTempo F) (odf : List F)
      → Within zero_f one_f s.last_confidence
      → Within zero_f one_f (estimate fft s odf).last_confidence
  estimate-Within s odf h = elim (estimate_cases laws fft s odf) [
    | inl (ne, same) ↦ rw same h
    | inr (eq, (est, delta)) ↦ est.1.0
  ]

  estimate_from-Within :
      (s : CombTempo F) (r : Bool × List F)
      → Within zero_f one_f s.last_confidence
      → Within zero_f one_f (estimate_from fft s r).last_confidence
  estimate_from-Within s (true, snap) h = estimate-Within s snap h
  estimate_from-Within s (false, snap) h = h

  update_tempo-IsSound : (st : BeatStage F) → IsSound st → IsSound (update_tempo fft st)
  update_tempo-IsSound st (conf, locked) =
      elim (Bool-cases (leb tempo_update_hops (st.frames_since_tempo_update + 1))) [
        | inl e ↦ rw e (
          estimate_from-Within st.comb (snapshot_to st.odf_buf snapshot_length st.est_hop_rate_hz)
              conf,
          locked,
        )
        | inr e ↦ rw e (conf, locked)
      ]

  update_tempo-counter :
      (st : BeatStage F)
      → (update_tempo fft st).confidence_above_thresh_frames ≡ st.confidence_above_thresh_frames
  update_tempo-counter st =
      elim (Bool-cases (leb tempo_update_hops (st.frames_since_tempo_update + 1))) [
        | inl e ↦ rw e refl
        | inr e ↦ rw e refl
      ]

  listen-IsCounted :
      (st : BeatStage F) (frame : AnalysisFrame F) → IsCounted st (listen fft st frame).1
  unfolding listen
  listen-IsCounted st frame =
      let heard = update_lock-IsCounted _ in
      (λ c. heard.0 c ∙ ap (λ n. n + 1) (update_tempo-counter _), heard.1)

  -- A hop of the stage counts what it finds.
  pub process-IsCounted :
      (st : BeatStage F) (frame : AnalysisFrame F) (cfg : Settings F)
      → IsCounted st (process fft st frame cfg).0
  unfolding process
  process-IsCounted st frame cfg =
      let heard = listen fft st frame in
      pulse-IsCounted heard.1 st heard.0 frame.captured_at cfg.beat (listen-IsCounted st frame)

  listen-IsSound :
      (st : BeatStage F) (frame : AnalysisFrame F) → IsSound st → IsSound (listen fft st frame).1
  unfolding listen
  listen-IsSound st frame sound = update_lock-IsSound _ (update_tempo-IsSound _ sound)

  beat_phase-Within : (s : BeatTracker F) → Within zero_f (lit 999_999 1_000_000) (beat_phase s)
  unfolding beat_phase
  beat_phase-Within s =
      let high = laws.lit_ge 999_999 1_000_000 0 1 (omega arith) (omega arith) (omega arith) in
      elim (Bool-cases (s.beat_period ≼ zero_f)) [
        | inl e ↦ rw e (laws.lt_irrefl zero_f, high)
        | inr e ↦ rw e (clamp_f-Within laws _ zero_f (lit 999_999 1_000_000) high)
      ]

  publish-HasWithin :
      (st : BeatStage F) (frame : AnalysisFrame F) (bc : BeatConfig F)
      → IsSound st
      → HasWithin zero_f one_f (publish st frame bc).beat
        × (HasWithin zero_f (lit 999_999 1_000_000) (publish st frame bc).beat_phase
            × HasWithin zero_f one_f (publish st frame bc).tempo_confidence)
  unfolding publish
  publish-HasWithin st frame bc (conf, locked) =
      let high = laws.lit_ge 1 1 0 1 (omega arith) (omega arith) (omega arith) in
      (
        (_, (refl, clamp_f-Within laws st.beat_value zero_f one_f high)),
        (
          (beat_phase st.tracker, (refl, beat_phase-Within st.tracker)),
          (st.comb.last_confidence, (refl, conf)),
        ),
      )

  -- Under the laws of IEEE comparison, from a stage whose confidence is neither below 0 nor above 1
  -- and whose lock is on only at a count of 300 or more, whatever the spectrum and the settings
  -- are: a hop at which the tempo is confident adds one to the count and any other clears the count
  -- and the lock, and the lock is still on only at a count of 300 or more; the stage keeps its
  -- confidence, and publishes a beat and a confidence, neither below 0 nor above 1, and a phase
  -- neither below 0 nor above 0.999999.
  pub process-IsSound :
      (st : BeatStage F) (frame : AnalysisFrame F) (cfg : Settings F)
      → IsSound st
      → (IsSound (process fft st frame cfg).0 × IsCounted st (process fft st frame cfg).0)
        × (HasWithin zero_f one_f (process fft st frame cfg).1.beat
            × (HasWithin zero_f (lit 999_999 1_000_000) (process fft st frame cfg).1.beat_phase
                × HasWithin zero_f one_f (process fft st frame cfg).1.tempo_confidence))
  unfolding process
  process-IsSound st frame cfg sound =
      let heard = listen fft st frame in
      let next = pulse heard.1 heard.0 frame.captured_at cfg.beat in
      let kept =
        pulse-comb heard.1 heard.0 frame.captured_at cfg.beat (listen-IsSound st frame sound) in
      ((kept, process-IsCounted st frame cfg), publish-HasWithin next frame cfg.beat kept)
