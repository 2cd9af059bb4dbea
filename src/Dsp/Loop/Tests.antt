-- ===== src/Dsp/Loop/Tests.antt =====
-- Two turns of the DSP thread: one with a chunk, one without.
use listeningway.Prelude.{◌≡◌, refl, none, some, [], ◌∷◌, arith, replicate}
use listeningway.Prelude.Int.{pos}
use listeningway.Float.Fixed.{Fixed, fixed_float}
use listeningway.Config.Settings.{default_settings}
use listeningway.Config.Store.{Store}
use listeningway.Ring.{Queue, ChunkPtr, make_ring, submit, pop, no_format}
use listeningway.Ring.Tests.{list_queue}
use listeningway.Dsp.Pipeline.{no_timings}
use listeningway.Dsp.Loop.{DspThread, Process, turn}
use listeningway.Dsp.Loop.Turn.{IsValid, returned, turn-IsValid, turn_ring}

abbrev queue : Queue (ChunkPtr Fixed)
queue = list_queue (ChunkPtr Fixed)

abbrev zero_fixed : Fixed
zero_fixed = some (pos 0)

-- A pipeline that fills the volume.
abbrev louder : Process Unit Fixed
louder p frame cfg = (p, some (record frame { volume = some (some (pos 7)) }))

abbrev store : Store Fixed
store = record { settings = default_settings; version = 3 }

abbrev thread : DspThread Unit Fixed queue
thread = record {
  cached_settings = default_settings;
  cached_version = 2;
  ring = (submit queue (make_ring queue 2) (some (pos 1) ∷ []) no_format).1;
  pipeline = record { stages = []; timings = no_timings; total_micros = zero_fixed };
  frame_index = 0;
  volumes = record { ring = replicate 64 zero_fixed; head = 63 };
  rows = record { ring = replicate 32 (replicate 128 zero_fixed); head = 0 };
  published = none;
}

thread-IsValid : IsValid thread
thread-IsValid = ((refl, omega arith), (refl, omega arith), tt)

turn-IsValid_example : IsValid (turn queue louder store 5 thread)
turn-IsValid_example = turn-IsValid queue louder store 5 thread thread-IsValid

turn_ring_example :
    (turn queue louder store 5 thread).ring
    ≡ returned queue louder (pop queue thread.ring).1 (pop queue thread.ring).0
turn_ring_example = turn_ring queue louder store 5 thread
