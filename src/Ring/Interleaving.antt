-- ===== src/Ring/Interleaving.antt =====
-- The calls of the ring's producer and consumer in any order, and what they keep.
use listeningway.Prelude.{
  ℕ, ◌+◌, ◌≤◌, ◌≡◌, refl, none, some, List, [], ◌∷◌, ◌++◌, if◌then◌else◌, length, All,
}
use listeningway.Ring.{
  Format, Queue, FrameChunk, ChunkPtr, FrameRing, make_ring, claim, submit, pop, recycle,
}

module _ {S : Type 0} where
  abbrev pub held_count : ChunkPtr S → ℕ
  held_count none = 0
  held_count (some c) = 1

  -- The chunks behind the pointers, none skipped but null pointers.
  abbrev pub chunks : List (ChunkPtr S) → List (FrameChunk S)
  chunks [] = []
  chunks (none ∷ ps) = chunks ps
  chunks (some c ∷ ps) = c ∷ chunks ps

  abbrev pub NonNull : ChunkPtr S → Type 0
  NonNull none = ⊥
  NonNull (some c) = Unit

  pub chunks-append :
      (ps : List (ChunkPtr S)) (c : FrameChunk S)
      → chunks (ps ++ (some c ∷ [])) ≡ chunks ps ++ (c ∷ [])
  chunks-append [] c = refl
  chunks-append (none ∷ ps) c = chunks-append ps c
  chunks-append (some d ∷ ps) c = rw (chunks-append ps c)

module _ {S : Type 0} (m : Queue (ChunkPtr S)) where
  open m use {items, room}

  -- Both threads and the ring: `writing` is the producer's local pointer, `reading` the consumer's.
  -- `accepted` and `delivered` record what went through, oldest first.
  pub record World : Type 0 where
    pub ring : FrameRing m
    pub writing : ChunkPtr S
    pub reading : ChunkPtr S
    pub accepted : List (FrameChunk S)
    pub delivered : List (FrameChunk S)

  abbrev pub start : ℕ → World
  start capacity = record {
    ring = make_ring m capacity;
    writing = none;
    reading = none;
    accepted = [];
    delivered = [];
  }

  unfoldable pub after_claim : World → World
  after_claim w = let c = claim m w.ring in record w { ring = c.1; writing = c.0 }

  unfoldable pub after_submit : World → List S → Format → World
  after_submit w samples format =
      let s = submit m w.ring samples format in
      record w {
        ring = s.1;
        writing = none;
        accepted =
            if s.0
            then w.accepted ++ (record { samples = samples; format = format } ∷ [])
            else w.accepted;
      }

  unfoldable pub after_pop : World → World
  after_pop w =
      let p = pop m w.ring in
      let c : ChunkPtr S = elim p.0 [ none ↦ none | some q ↦ q ] in
      record w {
        ring = p.1;
        reading = c;
        delivered = elim c [ none ↦ w.delivered | some d ↦ w.delivered ++ (d ∷ []) ];
      }

  unfoldable pub after_recycle : World → World
  after_recycle w = record w { ring = recycle m w.ring w.reading; reading = none }

  -- The producer claims a chunk when it holds none and submits the one that it holds; the consumer
  -- pops when it holds none, and recycles.
  pub data Step (w : World) (u : World) : Type 0 where
    claims : w.writing ≡ none → u ≡ after_claim w → Step w u
    submits :
        (samples : List S) (format : Format) (c : FrameChunk S)
        → w.writing ≡ some c
        → u ≡ after_submit w samples format
        → Step w u
    pops : w.reading ≡ none → u ≡ after_pop w → Step w u
    recycles : u ≡ after_recycle w → Step w u

  pub data Reach (w : World) : World → Type 0 where
    here : Reach w w
    next : {u v : World} → Reach w u → Step u v → Reach w v

  pub record Inv (capacity : ℕ) (w : World) : Type 0 where
    pub queue_live : All NonNull (items w.ring.queue)
    pub free_live : All NonNull (items w.ring.free_list)
    pub queue_room : capacity ≤ room w.ring.queue
    pub free_room : capacity ≤ room w.ring.free_list
    pub conserved :
        length (items w.ring.queue)
          + length (items w.ring.free_list)
          + held_count w.writing
          + held_count w.reading
        ≡ capacity
    pub in_order : w.accepted ≡ w.delivered ++ chunks (items w.ring.queue)
