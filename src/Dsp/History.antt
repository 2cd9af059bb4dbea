-- ===== src/Dsp/History.antt =====
-- The history rings: the DSP thread's writes (src/audio/pipeline/audio_system.cpp) and the order in
-- which `publish_uniforms` (src/output/uniform_publisher.cpp) unrolls them for the shaders.
pub mod Unroll
pub mod Tests
use listeningway.Prelude.{ℕ, ◌+◌, ◌%◌, List, get_or, set, tabulate}

pub record History (A : Type 0) : Type 0 where
  pub ring : List A
  pub head : ℕ

module _ {A : Type 0} where
  -- The slot at the head takes the value, and the head, which the snapshot then carries, advances.
  pub store : History A → ℕ → A → History A
  store h n a = record { ring = set h.ring h.head a; head = (h.head + 1) % n }

  -- The reader's loop, whose slot `i` is meant to hold the samples oldest first.
  pub unroll : History A → ℕ → A → List A
  unroll h n d = tabulate (λ i. get_or h.ring ((h.head + 1 + i) % n) d) 0 n
