-- ===== src/Output/Osc/Worker.antt =====
-- src/output/osc_consumer.h and osc_consumer.cpp: the consumer's calls and the turns of its worker
-- thread. The sockets, the resolver and tinyosc are a parameter: whether each call succeeds. The
-- settings that a turn finds in the store are an argument of it. The constructor sets the store, which
-- is never null; error codes are left out of the messages.
pub mod Protocol
pub mod Joining
use Prim.Native.String.{String}
use listeningway.Prelude.{
  ℕ, ◌+◌, ◌%◌, ◌^◌, min, Bool, true, false, not, ◌&&◌, ◌||◌, Option, none, some, List, [], ◌∷◌,
  ◌==◌, if◌then◌else◌, take,
}
use listeningway.Prelude.Int.{ℤ, pos}
use listeningway.Float.{Float}
use listeningway.Config.Settings.{OscConfig, Settings, NetworkConfig}
use listeningway.Config.Store.{clamp_int, eq_int}
use listeningway.Dsp.Frame.{AudioSnapshot, max_bands}

pub record Net (F : Type 0) : Type 0 where
  pub wsa_startup : Bool
  pub open_socket : Bool
  pub resolve_host : String → ℤ → Bool
  pub send_f1 : String → F → Bool
  pub send_floats : String → List F → Bool

pub data Error : Type 0 where
  wsa_failed socket_failed resolve_failed send_failed test_failed : Error

-- Where the worker is: about to set up, at the head of its loop, asleep until the next tick, or
-- returned. In its loop it holds the version of the settings that it has seen, and its rate.
pub data Phase : Type 0 where
  setup : Phase
  ready : ℕ → ℤ → Phase
  asleep : ℕ → ℤ → Phase
  returned : Phase

-- `worker` is the joinable thread; `is_terminated` is the end of the process by an assignment over it.
pub record OscConsumer : Type 0 where
  pub has_system : Bool
  pub worker : Option Phase
  pub running : Bool
  pub wants_disarm : Bool
  pub current_dest : String × ℤ
  pub current_rate_hz : ℤ
  pub packets_sent : ℕ
  pub last_error : Option Error
  pub is_terminated : Bool

abbrev pub make : OscConsumer
make = record {
  has_system = false;
  worker = none;
  running = false;
  wants_disarm = false;
  current_dest = ("", pos 0);
  current_rate_hz = pos 0;
  packets_sent = 0;
  last_error = none;
  is_terminated = false;
}

abbrev pub rate_of : OscConfig → ℤ
rate_of cfg = clamp_int cfg.rate_hz (pos 1) (pos 120)

abbrev pub has_thread : Option Phase → Bool
has_thread none = false
has_thread (some phase) = true

unfoldable pub start : OscConsumer → OscConfig → Bool × OscConsumer
start c cfg = if c.running then (true, c) else (
  true,
  record {
    has_system = true;
    worker = some Phase.setup;
    running = true;
    wants_disarm = false;
    current_dest = (cfg.host, cfg.port);
    current_rate_hz = rate_of cfg;
    packets_sent = 0;
    last_error = none;
    is_terminated = c.is_terminated || has_thread c.worker;
  },
)

-- `stop` up to the join, and from there on, once the worker has returned or there is none.
unfoldable pub stop_begin : OscConsumer → OscConsumer
stop_begin c = record c { running = false }

unfoldable pub stop_end : OscConsumer → OscConsumer
stop_end c = record c { worker = none; wants_disarm = false; has_system = false }

-- A failure of the set-up: the worker asks for its own disarming and returns.
abbrev pub give_up : OscConsumer → Error → OscConsumer
give_up c e = record c {
  last_error = some e;
  wants_disarm = true;
  running = false;
  worker = some Phase.returned;
}

abbrev pub finish : OscConsumer → OscConsumer
finish c = record c { worker = some Phase.returned }

-- The head of the loop: the flag, and the rate, published where a change of the settings alters it.
abbrev pub check_settings : OscConsumer → OscConfig → ℕ → ℤ → ℕ → OscConsumer
check_settings c cfg seen rate_hz version =
    let new_rate = rate_of cfg in
    if not c.running
    then finish c
    else if seen == version
    then record c { worker = some (Phase.asleep seen rate_hz) }
    else if eq_int new_rate rate_hz
    then record c { worker = some (Phase.asleep version rate_hz) }
    else record c { worker = some (Phase.asleep version new_rate); current_rate_hz = new_rate }

-- `fetch_add` on a `uint64_t`.
abbrev count_up : ℕ → ℕ
count_up n = (n + 1) % 2 ^ 64

module _ {F : Type 0} ⦃fl : Float F⦄ where
  -- The values that are sent one by one, in order.
  abbrev pub scalars : AudioSnapshot F → List (String × F)
  scalars snap =
      ("/listeningway/volume", snap.volume)
      ∷ ("/listeningway/volumeleft", snap.volume_left)
      ∷ ("/listeningway/volumeright", snap.volume_right)
      ∷ ("/listeningway/volume_norm", snap.volume_norm)
      ∷ ("/listeningway/volume_att", snap.volume_att)
      ∷ ("/listeningway/bass_norm", snap.bass_norm)
      ∷ ("/listeningway/mid_norm", snap.mid_norm)
      ∷ ("/listeningway/treb_norm", snap.treb_norm)
      ∷ ("/listeningway/bass_att", snap.bass_att)
      ∷ ("/listeningway/mid_att", snap.mid_att)
      ∷ ("/listeningway/treb_att", snap.treb_att)
      ∷ ("/listeningway/audiopan", snap.audio_pan)
      ∷ ("/listeningway/audioformat", snap.audio_format)
      ∷ ("/listeningway/numbands", fl.of_nat snap.freq_band_count)
      ∷ ("/listeningway/beat", snap.beat)
      ∷ ("/listeningway/beat_phase", snap.beat_phase)
      ∷ ("/listeningway/tempo_bpm", snap.tempo_bpm)
      ∷ ("/listeningway/tempo_confidence", snap.tempo_confidence)
      ∷ ("/listeningway/phase_volume", snap.phase_volume)
      ∷ ("/listeningway/phase_bass", snap.phase_bass)
      ∷ ("/listeningway/phase_treble", snap.phase_treble)
      ∷ ("/listeningway/spectral_centroid", snap.spectral_centroid)
      ∷ ("/listeningway/loudness", snap.loudness)
      ∷ []

  abbrev pub send_scalars : Net F → List (String × F) → Bool → Bool
  send_scalars net [] ok = ok
  send_scalars net ((address, v) ∷ rest) ok = send_scalars net rest (ok && net.send_f1 address v)

  -- Every message is sent, whether the ones before it were or not.
  abbrev pub send_frame : Net F → AudioSnapshot F → Bool
  send_frame net snap =
      let nb = min snap.freq_band_count max_bands in
      let sent = send_scalars net (scalars snap) true in
      let bands =
        if nb == 0
        then sent
        else sent && net.send_floats "/listeningway/freqbands" (take nb snap.freq_bands) in
      bands && net.send_floats "/listeningway/direction8" (take 8 snap.direction_8)

  abbrev pub set_up : Net F → OscConsumer → OscConfig → ℕ → OscConsumer
  set_up net c cfg version =
      if not c.has_system
      then record c { running = false; worker = some Phase.returned }
      else if not net.wsa_startup
      then give_up c Error.wsa_failed
      else if not net.open_socket
      then give_up c Error.socket_failed
      else if not (net.resolve_host cfg.host cfg.port)
      then give_up c Error.resolve_failed
      else record c { worker = some (Phase.ready version (rate_of cfg)) }

  abbrev pub tick : Net F → OscConsumer → AudioSnapshot F → ℕ → ℤ → OscConsumer
  tick net c snap seen rate_hz =
      if not c.running
      then finish c
      else if send_frame net snap
      then record c {
        worker = some (Phase.ready seen rate_hz);
        packets_sent = count_up c.packets_sent;
        last_error = none;
      }
      else record c {
        worker = some (Phase.ready seen rate_hz);
        last_error = some Error.send_failed;
      }

  -- One turn of the worker, from a point where it looks at the shared state to the next.
  unfoldable pub turn_from :
      Net F → OscConsumer → OscConfig → ℕ → AudioSnapshot F → Option Phase → OscConsumer
  turn_from net c cfg version snap none = c
  turn_from net c cfg version snap (some Phase.setup) = set_up net c cfg version
  turn_from net c cfg version snap (some (Phase.ready seen rate_hz)) =
      check_settings c cfg seen rate_hz version
  turn_from net c cfg version snap (some (Phase.asleep seen rate_hz)) = tick net c snap seen rate_hz
  turn_from net c cfg version snap (some Phase.returned) = c

  abbrev pub turn : Net F → OscConsumer → OscConfig → ℕ → AudioSnapshot F → OscConsumer
  turn net c cfg version snap = turn_from net c cfg version snap c.worker

  -- The test message, over a socket of its own: whether it went out, and the status after it.
  abbrev pub test_outcome : Net F → OscConsumer → OscConfig → Bool × (ℕ × Option Error)
  test_outcome net c cfg =
      if not c.running
      then (false, (c.packets_sent, c.last_error))
      else if not net.wsa_startup
      then (false, (c.packets_sent, some Error.wsa_failed))
      else if not (net.resolve_host cfg.host cfg.port)
      then (false, (c.packets_sent, some Error.resolve_failed))
      else if not net.open_socket
      then (false, (c.packets_sent, some Error.socket_failed))
      else if net.send_f1 "/listeningway/test" (fl.lit 1 1)
      then (true, (count_up c.packets_sent, none))
      else (false, (c.packets_sent, some Error.test_failed))

  abbrev pub send_test_packet : Net F → OscConsumer → OscConfig → Bool × OscConsumer
  send_test_packet net c cfg =
      let (ok, (packets_sent, last_error)) = test_outcome net c cfg in
      (ok, record c { packets_sent = packets_sent; last_error = last_error })

module _ {F : Type 0} where
  abbrev pub is_enabled : Settings F → Bool
  is_enabled s = s.network.osc.enabled

  abbrev disarm_network : NetworkConfig F → NetworkConfig F
  disarm_network n = record n { osc = record (n.osc) { enabled = false } }

  abbrev pub disarm_in_settings : Settings F → Settings F
  disarm_in_settings s = record s { network = disarm_network s.network }

pub data StatusLine : Type 0 where
  off : StatusLine
  failed : String × ℤ → ℤ → Error → StatusLine
  sent : String × ℤ → ℤ → ℕ → StatusLine

abbrev status_of : OscConsumer → Option Error → StatusLine
status_of c none = StatusLine.sent c.current_dest c.current_rate_hz c.packets_sent
status_of c (some e) = StatusLine.failed c.current_dest c.current_rate_hz e

abbrev pub status_line : OscConsumer → StatusLine
status_line c = if c.running then status_of c c.last_error else StatusLine.off
