-- ===== src/Ring/Fifo.antt =====
-- The ring under interleaved calls of its producer and its consumer.
use listeningway.Prelude.{
  ℕ, zero, suc, ◌+◌, ◌≤◌, ◌<◌, ◌≡◌, refl, ap, ◌∙◌, ◌↔◌, ◌⊎◌, inl, inr, true, none, some, List, [],
  ◌∷◌, ◌++◌, arith, length, All, length-append, All-append,
}
use mathlib.Core.Path.{subst}
use mathlib.Core.List.{append_assoc}
use listeningway.Ring.{
  Format, Queue, FrameChunk, ChunkPtr, no_format, populate, make_ring, claim, submit, push, pop,
  recycle,
}
use listeningway.Ring.Interleaving.{
  held_count, chunks, NonNull, chunks-append, World, start, after_claim, after_submit, after_pop,
  after_recycle, Step, Reach, Inv, here, next, claims, submits, pops, recycles,
}

List-cases : {A : Type 0} (xs : List A) → (xs ≡ []) ⊎ ((a : A) × (rest : List A) × (xs ≡ a ∷ rest))
List-cases [] = inl refl
List-cases (x ∷ xs) = inr (x, xs, refl)

module _ {S : Type 0} (m : Queue (ChunkPtr S)) where
  open m use {
    items, room, try_enqueue, try_dequeue, make, items-make, room-make, enqueue_room, enqueue_items,
    room-enqueue, dequeue_nil, dequeue_cons, room-dequeue,
  }

  enqueue_lem :
      (q : m.Q) (c : FrameChunk S)
      → length (items q) < room q
      → ((try_enqueue q (some c)).0 ≡ true)
        × (items (try_enqueue q (some c)).1 ≡ items q ++ (some c ∷ []))
        × (room (try_enqueue q (some c)).1 ≡ room q)
  enqueue_lem q c h =
      let went = enqueue_room q (some c) h in
      (went, enqueue_items q (some c) ∙ (rw went), room-enqueue q (some c))

  populate_lem :
      (n : ℕ) (q : m.Q)
      → All NonNull (items q)
      → length (items q) + n ≤ room q
      → All NonNull (items (populate m n q))
        × (length (items (populate m n q)) ≡ length (items q) + n)
        × (room (populate m n q) ≡ room q)
  unfolding populate
  populate_lem zero q a h = (a, omega arith, refl)
  populate_lem (suc n) q a h =
      let f : FrameChunk S = record { samples = []; format = no_format } in
      let (went, new, same) = enqueue_lem q f (omega arith) in
      let longer = length-append (items q) (some f ∷ []) in
      let sized : length (items (try_enqueue q (some f)).1) ≡ length (items q) + 1 =
        rw new (omega (arith, longer)) in
      let live : All NonNull (items (try_enqueue q (some f)).1) =
        rw new (All-append NonNull (items q) (some f ∷ []) a (tt, tt)) in
      let (l, k, r) = populate_lem n (try_enqueue q (some f)).1 live (omega arith) in
      (l, omega arith, r ∙ same)

  start-Inv : (k : ℕ) → Inv m k (start m k)
  unfolding make_ring
  start-Inv k =
      let none_yet = items-make k in
      let (l, n, r) =
        populate_lem k (make k) (rw none_yet tt) (omega (arith, ap length none_yet, room-make k)) in
      record {
        queue_live = rw none_yet tt;
        free_live = l;
        queue_room = room-make k;
        free_room = rw r (room-make k);
        conserved = omega (arith, ap length none_yet);
        in_order = rw none_yet;
      }

  claim-Inv : (k : ℕ) (w : World m) → w.writing ≡ none → Inv m k w → Inv m k (after_claim m w)
  unfolding after_claim claim
  claim-Inv k w e v = elim (List-cases (items w.ring.free_list)) [
    | inl z ↦ ground (arith, dequeue_nil w.ring.free_list z, room-dequeue w.ring.free_list)
    | inr (p, rest, z) ↦
        ground (arith, dequeue_cons w.ring.free_list p rest z, room-dequeue w.ring.free_list)
  ]

  submit-Inv :
      (k : ℕ) (w : World m) (samples : List S) (format : Format) (c : FrameChunk S)
      → w.writing ≡ some c
      → Inv m k w
      → Inv m k (after_submit m w samples format) × ((submit m w.ring samples format).0 ≡ true)
  unfolding after_submit submit
  submit-Inv k w samples format c e v =
      let f : FrameChunk S = record { samples = samples; format = format } in
      let q = w.ring.queue in
      let held : held_count w.writing ≡ 1 = rw e in
      let (went, new, same) = enqueue_lem q f (omega (arith, v.conserved, v.queue_room)) in
      let longer = length-append (items q) (some f ∷ []) in
      let more = chunks-append (items q) f in
      (
        record {
          queue_live = rw new (All-append NonNull (items q) (some f ∷ []) v.queue_live (tt, tt));
          free_live = v.free_live;
          queue_room = rw same v.queue_room;
          free_room = v.free_room;
          conserved = rw new (omega (arith, longer, v.conserved));
          in_order = rw (went, new, more, v.in_order) (append_assoc w.delivered _ _);
        },
        went,
      )

  pop-Inv : (k : ℕ) (w : World m) → w.reading ≡ none → Inv m k w → Inv m k (after_pop m w)
  unfolding after_pop pop
  pop-Inv k w e v = elim (List-cases (items w.ring.queue)) [
    | inl z ↦ ground (arith, dequeue_nil w.ring.queue z, room-dequeue w.ring.queue)
    | inr (none, rest, z) ↦ absurd (subst (All NonNull) z v.queue_live).0
    | inr (some c, rest, z) ↦ ground (
      arith,
      dequeue_cons w.ring.queue (some c) rest z,
      room-dequeue w.ring.queue,
      append_assoc w.delivered (c ∷ []) (chunks rest),
    )
  ]

  recycled-Inv :
      (k : ℕ) (w : World m) (c : ChunkPtr S)
      → w.reading ≡ c
      → Inv m k w
      → Inv m k (record w { ring = recycle m w.ring c; reading = none })
  unfolding recycle
  recycled-Inv k w none e v = ground arith
  recycled-Inv k w (some c) e v =
      let f : FrameChunk S = record { samples = []; format = no_format } in
      let q = w.ring.free_list in
      let held : held_count w.reading ≡ 1 = rw e in
      let (went, new, same) = enqueue_lem q f (omega (arith, v.conserved, v.free_room)) in
      let longer = length-append (items q) (some f ∷ []) in
      record {
        queue_live = v.queue_live;
        free_live = rw new (All-append NonNull (items q) (some f ∷ []) v.free_live (tt, tt));
        queue_room = v.queue_room;
        free_room = rw same v.free_room;
        conserved = rw new (omega (arith, longer, v.conserved));
        in_order = v.in_order;
      }

  Step-Inv : (k : ℕ) (w u : World m) → Step m w u → Inv m k w → Inv m k u
  unfolding after_recycle
  Step-Inv k w u (claims e r) v = rw r (claim-Inv k w e v)
  Step-Inv k w u (submits samples format c e r) v = rw r (submit-Inv k w samples format c e v).0
  Step-Inv k w u (pops e r) v = rw r (pop-Inv k w e v)
  Step-Inv k w u (recycles r) v = rw r (recycled-Inv k w w.reading refl v)

  -- However the two threads interleave on a new ring, every chunk is in the queue, on the free list
  -- or in one thread's hands, none is lost or made up, and the frames delivered are the frames
  -- accepted, in order, short of those still queued.
  pub Reach-Inv : (k : ℕ) (w : World m) → Reach m (start m k) w → Inv m k w
  Reach-Inv k w here = start-Inv k
  Reach-Inv k w (next {u = u} r s) = Step-Inv k u w s (Reach-Inv k u r)

  -- In every reachable state a chunk that was claimed is accepted: the second `try_enqueue` of
  -- `push` never fails, so back-pressure shows as an empty free list only.
  pub Reach-submit :
      (k : ℕ) (w : World m) (samples : List S) (format : Format) (c : FrameChunk S)
      → Reach m (start m k) w
      → w.writing ≡ some c
      → (submit m w.ring samples format).0 ≡ true
  Reach-submit k w samples format c r e = (submit-Inv k w samples format c e (Reach-Inv k w r)).1

  -- Between calls `push` returns true exactly when some chunk is neither queued nor being read.
  pub Reach-push_iff :
      (k : ℕ) (w : World m) (samples : List S) (format : Format)
      → Reach m (start m k) w
      → w.writing ≡ none
      → ((push m w.ring samples format).0 ≡ true)
        ↔ (length (items w.ring.queue) + held_count w.reading < k)
  unfolding push claim submit
  Reach-push_iff k w samples format r e =
      let v = Reach-Inv k w r in
      let idle : held_count w.writing ≡ 0 = rw e in
      elim (List-cases (items w.ring.free_list)) [
        | inl z ↦ ground (arith, dequeue_nil w.ring.free_list z, v.conserved, ap length z)
        | inr (none, rest, z) ↦ absurd (subst (All NonNull) z v.free_live).0
        | inr (some c, rest, z) ↦
            let room : length (items w.ring.queue) < m.room w.ring.queue =
              omega (arith, v.conserved, v.queue_room, ap length z) in
            ground (
              arith,
              dequeue_cons w.ring.free_list (some c) rest z,
              v.conserved,
              ap length z,
              enqueue_room w.ring.queue (some (record { samples = samples; format = format })) room,
            )
      ]
