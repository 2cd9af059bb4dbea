-- ===== src/Dsp/Stages/Beat.antt =====
-- src/audio/dsp/stages/beat_stage.h and beat_stage.cpp: the stage over the parts of beat detection.
pub mod Bounds
pub mod Locking
use listeningway.Prelude.{
  ℕ, ◌+◌, ◌*◌, Bool, true, false, ◌&&◌, ◌||◌, Option, none, some, List, leb, ◌==◌, if◌then◌else◌,
}
use listeningway.Float.{Float, ◌⊕◌, ◌⊗◌, ◌⊘◌, ◌≺◌, ◌≼◌, lit, zero_f, one_f, clamp_f}
use listeningway.Config.Settings.{Settings, BeatConfig, Mode, Profile}
use listeningway.Dsp.Frame.{AnalysisFrame}
use listeningway.Dsp.OdfBuffer.{OdfBuffer, snapshot_length, snapshot_to}
use listeningway.Dsp.OdfBuffer as OdfBuffer
use listeningway.Dsp.Beat.OdfCsd.{OdfCsd}
use listeningway.Dsp.Beat.OdfCsd as OdfCsd
use listeningway.Dsp.Beat.CombTempo.{CombTempo, Fft, estimate}
use listeningway.Dsp.Beat.CombTempo as CombTempo
use listeningway.Dsp.Beat.BeatTracker.{BeatTracker, beat_phase}
use listeningway.Dsp.Beat.BeatTracker as BeatTracker
use listeningway.Dsp.Stages.{seconds}

abbrev pub tempo_update_hops : ℕ
tempo_update_hops = 25

abbrev pub locked_hold_updates : ℕ
locked_hold_updates = 12

-- `confidence_above_thresh_frames` is an `int`: the model holds for fewer than 2^31 hops in a row.
pub record BeatStage (F : Type 0) : Type 0 where
  pub csd : OdfCsd F
  pub odf_buf : OdfBuffer F
  pub comb : CombTempo F
  pub tracker : BeatTracker F
  pub beat_value : F
  pub last_t : ℕ
  pub frames_since_tempo_update : ℕ
  pub est_hop_rate_hz : F
  pub confidence_above_thresh_frames : ℕ
  pub auto_locked : Bool
  pub last_pulse_strength : F

abbrev is_auto : Mode → Bool
is_auto Mode.auto = true
is_auto Mode.profile = false
is_auto Mode.custom = false

module _ {F : Type 0} ⦃fl : Float F⦄ where
  abbrev profile_params : Profile → F × F
  profile_params Profile.percussive = (lit 100 100, lit 120 1000)
  profile_params Profile.melodic = (lit 120 100, lit 160 1000)
  profile_params Profile.sustained = (lit 160 100, lit 230 1000)

  abbrev mode_params : Mode → BeatConfig F → F × F
  mode_params Mode.auto bc = (one_f, lit 150 1000)
  mode_params Mode.profile bc = profile_params bc.profile
  mode_params Mode.custom bc = (clamp_f bc.pulse_strength zero_f (lit 3 1), lit 150 1000)

  -- The strength of a pulse, and the time in which it decays.
  abbrev pub resolve_mode : BeatConfig F → F × F
  resolve_mode bc = mode_params bc.mode bc

  abbrev pub make : BeatStage F
  make = record {
    csd = OdfCsd.make;
    odf_buf = OdfBuffer.make;
    comb = CombTempo.make;
    tracker = BeatTracker.make;
    beat_value = zero_f;
    last_t = 0;
    frames_since_tempo_update = 0;
    est_hop_rate_hz = lit 100 1;
    confidence_above_thresh_frames = 0;
    auto_locked = false;
    last_pulse_strength = one_f;
  }

  abbrev pub reset : BeatStage F → BeatStage F
  reset st = record {
    csd = OdfCsd.reset st.csd;
    odf_buf = OdfBuffer.reset st.odf_buf;
    comb = CombTempo.reset st.comb;
    tracker = BeatTracker.reset st.tracker;
    beat_value = zero_f;
    last_t = 0;
    frames_since_tempo_update = 0;
    est_hop_rate_hz = lit 100 1;
    confidence_above_thresh_frames = 0;
    auto_locked = false;
    last_pulse_strength = one_f;
  }

  -- The rate of the hops, smoothed, unless the time since the last hop is out of range.
  abbrev pub hop_rate : BeatStage F → ℕ → F
  hop_rate st now =
      let dt = seconds now st.last_t in
      let smoothed = lit 95 100 ⊗ st.est_hop_rate_hz ⊕ lit 5 100 ⊗ (one_f ⊘ dt) in
      if st.last_t == 0
      then st.est_hop_rate_hz
      else if lit 1 10_000 ≺ dt && dt ≺ lit 250 1000
      then smoothed
      else st.est_hop_rate_hz

  -- The onset of the frame, when it has a spectrum.
  abbrev pub onset_of : OdfCsd F → Option (List F) → Option (List F) → F × OdfCsd F
  onset_of csd (some magnitudes) (some phases) = OdfCsd.process csd magnitudes phases
  onset_of csd (some magnitudes) none = (zero_f, csd)
  onset_of csd none phases = (zero_f, csd)

  abbrev pub estimate_from : Fft F → CombTempo F → Bool × List F → CombTempo F
  estimate_from fft comb (true, snap) = estimate fft comb snap
  estimate_from fft comb (false, snap) = comb

  -- The throttled estimate of the tempo, and its count of hops.
  abbrev pub update_tempo : Fft F → BeatStage F → BeatStage F
  update_tempo fft st =
      if leb tempo_update_hops (st.frames_since_tempo_update + 1)
      then record st {
        frames_since_tempo_update = 0;
        comb =
            estimate_from fft st.comb (snapshot_to st.odf_buf snapshot_length st.est_hop_rate_hz);
      }
      else record st { frames_since_tempo_update = st.frames_since_tempo_update + 1 }

  -- `comb_.confidence() >= kConfidenceLockThreshold`.
  abbrev pub is_confident : BeatStage F → Bool
  is_confident st = lit 5 100 ≼ st.comb.last_confidence

  unfoldable pub update_lock : BeatStage F → BeatStage F
  update_lock st =
      let above = st.confidence_above_thresh_frames + 1 in
      if is_confident st
      then record st {
        confidence_above_thresh_frames = above;
        auto_locked = leb (locked_hold_updates * tempo_update_hops) above || st.auto_locked;
      }
      else record st { confidence_above_thresh_frames = 0; auto_locked = false }

  abbrev pub native_period : BeatStage F → F
  native_period st =
      let canonical_period = st.comb.last_beat_period_samples in
      if zero_f ≺ canonical_period
      then canonical_period ⊗ (st.est_hop_rate_hz ⊘ lit 86 1)
      else st.est_hop_rate_hz ⊗ lit 5 10

  abbrev pub pulse_dt : BeatStage F → ℕ → F
  pulse_dt st now =
      if st.last_t == 0
      then one_f ⊘ fl.of_nat tempo_update_hops
      else clamp_f (seconds now st.last_t) (lit 1 1000) (lit 250 1000)

  -- Up to the tracker: what the hop listens to.
  unfoldable pub listen : Fft F → BeatStage F → AnalysisFrame F → F × BeatStage F
  listen fft st frame =
      let rate = hop_rate st frame.captured_at in
      let (odf, csd) = onset_of st.csd frame.magnitudes frame.phases in
      let heard = record st {
        est_hop_rate_hz = rate;
        csd = csd;
        odf_buf = OdfBuffer.push st.odf_buf odf;
      } in
      (odf, update_lock (update_tempo fft heard))

  -- The tracker's turn, and the curve of the pulse.
  unfoldable pub pulse : BeatStage F → F → ℕ → BeatConfig F → BeatStage F
  pulse st odf now bc =
      let (strength, decay_tau_sec) = resolve_mode bc in
      let (beat_due, tracker) = BeatTracker.process st.tracker odf (native_period st) in
      let struck = if beat_due then clamp_f strength zero_f one_f else st.beat_value in
      record st {
        tracker = tracker;
        last_t = now;
        beat_value = struck ⊗ fl.exp (fl.neg (pulse_dt st now) ⊘ decay_tau_sec);
        last_pulse_strength = strength;
      }

  unfoldable pub publish : BeatStage F → AnalysisFrame F → BeatConfig F → AnalysisFrame F
  publish st frame bc =
      let period = st.comb.last_beat_period_samples in
      record frame {
        beat = some (clamp_f st.beat_value zero_f one_f);
        beat_phase = some (beat_phase st.tracker);
        tempo_bpm = some (if zero_f ≺ period then lit 60 1 ⊗ lit 86 1 ⊘ period else zero_f);
        tempo_confidence = some st.comb.last_confidence;
        tempo_detected = some (is_confident st);
        beat_pulse_strength = some st.last_pulse_strength;
        beat_auto_locked = some (is_auto bc.mode && st.auto_locked);
      }

  unfoldable pub process :
      Fft F → BeatStage F → AnalysisFrame F → Settings F → BeatStage F × AnalysisFrame F
  process fft st frame cfg =
      let (odf, heard) = listen fft st frame in
      let next = pulse heard odf frame.captured_at cfg.beat in (next, publish next frame cfg.beat)
