-- ===== src/Ring.antt =====
-- src/audio/ring/frame_ring.h: the chunks that carry audio from the capture thread to the DSP
-- thread, and the free list on which they return. `moodycamel::ReaderWriterQueue` is a parameter.
pub mod Interleaving
pub mod Fifo
pub mod Tests
use listeningway.Prelude.{
  ℕ, zero, suc, ◌≤◌, ◌<◌, ◌≡◌, Bool, true, false, Option, none, some, List, [], ◌∷◌, ◌++◌,
  if◌then◌else◌, length,
}

pub data ChannelLayout : Type 0 where
  unknown mono stereo surround51 surround71_side surround71_rear : ChannelLayout

pub record Format : Type 0 where
  pub sample_rate : ℕ
  pub channels : ℕ
  pub layout : ChannelLayout

-- `Format{}`.
abbrev pub no_format : Format
no_format = record { sample_rate = 0; channels = 0; layout = ChannelLayout.unknown }

-- What the code uses of `ReaderWriterQueue`, with the behaviour that its documentation promises: a
-- queue made for `n` elements has room for at least `n`; `try_enqueue` never allocates, succeeds
-- while there is room, and appends or else changes nothing; `try_dequeue` takes the oldest element,
-- and fails on the empty queue only.
pub record Queue (A : Type 0) : Type 1 where
  pub Q : Type 0
  pub make : ℕ → Q
  pub try_enqueue : Q → A → Bool × Q
  pub try_dequeue : Q → Option A × Q
  pub items : Q → List A
  pub room : Q → ℕ
  pub items-make : (n : ℕ) → items (make n) ≡ []
  pub room-make : (n : ℕ) → n ≤ room (make n)
  pub enqueue_room : (q : Q) (a : A) → length (items q) < room q → (try_enqueue q a).0 ≡ true
  pub enqueue_items :
      (q : Q) (a : A)
      → items (try_enqueue q a).1 ≡ (if (try_enqueue q a).0 then items q ++ (a ∷ []) else items q)
  pub room-enqueue : (q : Q) (a : A) → room (try_enqueue q a).1 ≡ room q
  pub dequeue_nil :
      (q : Q) → items q ≡ [] → ((try_dequeue q).0 ≡ none) × (items (try_dequeue q).1 ≡ [])
  pub dequeue_cons :
      (q : Q) (a : A) (rest : List A)
      → items q ≡ a ∷ rest
      → ((try_dequeue q).0 ≡ some a) × (items (try_dequeue q).1 ≡ rest)
  pub room-dequeue : (q : Q) → room (try_dequeue q).1 ≡ room q

-- A chunk of interleaved samples of the type `S`.
pub record FrameChunk (S : Type 0) : Type 0 where
  pub samples : List S
  pub format : Format

-- `std::unique_ptr<FrameChunk>`.
abbrev pub ChunkPtr : Type 0 → Type 0
ChunkPtr S = Option (FrameChunk S)

module _ {S : Type 0} where
  -- `std::make_unique<FrameChunk>()`.
  abbrev pub fresh_chunk : ChunkPtr S
  fresh_chunk = some (record { samples = []; format = no_format })

module _ {S : Type 0} (m : Queue (ChunkPtr S)) where
  open m use {Q, make, try_enqueue, try_dequeue, items, room}

  pub record FrameRing : Type 0 where
    pub queue : Q
    pub free_list : Q

  -- The loop of the constructor.
  pub populate : ℕ → Q → Q
  populate zero q = q
  populate (suc n) q = populate n (try_enqueue q fresh_chunk).1

  pub make_ring : ℕ → FrameRing
  unfolding populate
  make_ring capacity = record {
    queue = make capacity;
    free_list = populate capacity (make capacity);
  }

  -- The two queue calls of `push`, between which the consumer may run. First a chunk is taken from
  -- the free list; `none` is the early return.
  pub claim : FrameRing → ChunkPtr S × FrameRing
  claim r =
      let d = try_dequeue r.free_list in
      (elim d.0 [ none ↦ none | some p ↦ p ], record r { free_list = d.1 })

  -- Then it is filled and enqueued. A chunk that `try_enqueue` refuses is freed with the pointer.
  pub submit : FrameRing → List S → Format → Bool × FrameRing
  submit r samples format =
      let e = try_enqueue r.queue (some (record { samples = samples; format = format })) in
      (e.0, record r { queue = e.1 })

  -- Producer side.
  pub push : FrameRing → List S → Format → Bool × FrameRing
  unfolding claim submit
  push r samples format =
      let c = claim r in elim c.0 [ none ↦ (false, c.1) | some p ↦ submit c.1 samples format ]

  -- Consumer side: `none` is the result `false`.
  pub pop : FrameRing → Option (ChunkPtr S) × FrameRing
  pop r = let d = try_dequeue r.queue in (d.0, record r { queue = d.1 })

  pub recycle : FrameRing → ChunkPtr S → FrameRing
  recycle r none = r
  recycle r (some c) = record r { free_list = (try_enqueue r.free_list fresh_chunk).1 }
