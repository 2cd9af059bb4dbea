-- ===== src/Output/Osc/Tests.antt =====
-- A message of two values, and a run of the consumer whose resolver fails.
use mathlib.Core.Option as Option
use listeningway.Prelude.{ℕ, ◌≡◌, refl, true, false, some, List, [], ◌∷◌, arith}
use listeningway.Prelude.Int.{pos}
use listeningway.Float.Fixed.{Fixed, fixed_float}
use listeningway.Config.Settings.{OscConfig}
use listeningway.Output.Patterns.Tests.{snap, half_f}
use listeningway.Output.Osc.Message.{max_packet_bytes, tag_f, compose}
use listeningway.Output.Osc.Message.Decode.{decode, decode-compose}
use listeningway.Output.Osc.Worker.{Net, Phase, OscConsumer, make, start, stop_begin, turn}
use listeningway.Output.Osc.Worker.Protocol.{Mode, Fits, new, started, turned, Reach-Fits}
use listeningway.Output.Osc.Worker.Joining.{stop-Joins}

-- "/a".
abbrev address : List ℕ
address = 47 ∷ 97 ∷ []

decode-compose_example :
    Option.map decode (compose address (1_065_353_216 ∷ 0 ∷ []) max_packet_bytes)
    ≡ some (address, (tag_f ∷ tag_f ∷ [], 1_065_353_216 ∷ 0 ∷ []))
decode-compose_example =
    decode-compose address (1_065_353_216 ∷ 0 ∷ []) max_packet_bytes
      (omega arith, (omega arith, tt)) (omega arith, (omega arith, tt)) (omega arith) (omega arith)

abbrev unresolved : Net Fixed
unresolved = record {
  wsa_startup = true;
  open_socket = true;
  resolve_host = λ host port. false;
  send_f1 = λ address v. true;
  send_floats = λ address vs. true;
}

abbrev cfg : OscConfig
cfg = record { enabled = true; host = "localhost"; port = pos 9000; rate_hz = pos 60 }

abbrev failed : OscConsumer
failed = turn unresolved (start make cfg).1 cfg 1 (snap half_f)

Reach-Fits_example : Fits Mode.active failed × (failed.is_terminated ≡ false)
Reach-Fits_example =
    Reach-Fits Mode.active failed
      (turned Mode.active (start make cfg).1 unresolved cfg 1 (snap half_f) (started make cfg new))

abbrev looping : OscConsumer
looping = record make { worker = some (Phase.asleep 3 (pos 60)); running = true; has_system = true }

stop-Joins_example :
    (turn unresolved
      (turn unresolved (stop_begin looping) cfg 3 (snap half_f))
      cfg
      4
      (snap half_f)).worker
    ≡ some Phase.returned
stop-Joins_example = stop-Joins unresolved looping cfg cfg 3 4 (snap half_f) (snap half_f) refl
