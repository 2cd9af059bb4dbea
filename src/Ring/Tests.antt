-- ===== src/Ring/Tests.antt =====
-- A queue that meets the documented behaviour, and runs of the ring on it.
use listeningway.Prelude.{
  ℕ, ◌+◌, ◌<◌, ◌≡◌, refl, ◌↔◌, Bool, true, false, Option, none, some, List, [], ◌∷◌, ◌++◌, arith,
  ltb, if◌then◌else◌, length,
}
use listeningway.Ring.{Queue, ChunkPtr, no_format, populate, make_ring, claim, submit, push}
use listeningway.Ring.Interleaving.{World, start, Reach, Step, after_claim, after_submit, Inv}
use listeningway.Ring.Fifo.{Reach-Inv, Reach-submit, Reach-push_iff}

-- A list with its capacity.
abbrev pub list_enqueue : {A : Type 0} → ℕ × List A → A → Bool × (ℕ × List A)
list_enqueue (n, xs) a = if ltb (length xs) n then (true, (n, xs ++ (a ∷ []))) else (false, (n, xs))

abbrev pub list_dequeue : {A : Type 0} → ℕ × List A → Option A × (ℕ × List A)
list_dequeue (n, []) = (none, (n, []))
list_dequeue (n, x ∷ xs) = (some x, (n, xs))

module _ {A : Type 0} where
  pub list_enqueue_room : (q : ℕ × List A) (a : A) → length q.1 < q.0 → (list_enqueue q a).0 ≡ true
  list_enqueue_room q a h = ground arith

  pub list_enqueue_items :
      (q : ℕ × List A) (a : A)
      → (list_enqueue q a).1.1 ≡ (if (list_enqueue q a).0 then q.1 ++ (a ∷ []) else q.1)
  list_enqueue_items q a = ground arith

  pub list_room-enqueue : (q : ℕ × List A) (a : A) → (list_enqueue q a).1.0 ≡ q.0
  list_room-enqueue q a = ground arith

  pub list_dequeue_nil :
      (q : ℕ × List A) → q.1 ≡ [] → ((list_dequeue q).0 ≡ none) × ((list_dequeue q).1.1 ≡ [])
  list_dequeue_nil (n, []) e = (refl, refl)
  list_dequeue_nil (n, x ∷ xs) e = cc

  pub list_dequeue_cons :
      (q : ℕ × List A) (a : A) (rest : List A)
      → q.1 ≡ a ∷ rest
      → ((list_dequeue q).0 ≡ some a) × ((list_dequeue q).1.1 ≡ rest)
  list_dequeue_cons (n, []) a rest e = cc
  list_dequeue_cons (n, x ∷ xs) a rest e = (cc, cc)

  pub list_room-dequeue : (q : ℕ × List A) → (list_dequeue q).1.0 ≡ q.0
  list_room-dequeue (n, []) = refl
  list_room-dequeue (n, x ∷ xs) = refl

abbrev pub list_queue : (A : Type 0) → Queue A
list_queue A = record {
  Q = ℕ × List A;
  make = λ n. (n, []);
  try_enqueue = list_enqueue;
  try_dequeue = list_dequeue;
  items = λ q. q.1;
  room = λ q. q.0;
  items-make = λ n. refl;
  room-make = λ n. omega arith;
  enqueue_room = list_enqueue_room;
  enqueue_items = list_enqueue_items;
  room-enqueue = list_room-enqueue;
  dequeue_nil = list_dequeue_nil;
  dequeue_cons = list_dequeue_cons;
  room-dequeue = list_room-dequeue;
}

abbrev queue : Queue (ChunkPtr ℕ)
queue = list_queue (ChunkPtr ℕ)

-- One chunk is queued and one is claimed.
abbrev busy : World queue
busy = after_claim queue (after_submit queue (after_claim queue (start queue 2)) (5 ∷ []) no_format)

busy_reached : Reach queue (start queue 2) busy
unfolding after_claim after_submit make_ring populate claim
busy_reached =
    Reach.next
      (Reach.next (Reach.next Reach.here (Step.claims refl refl))
        (Step.submits (5 ∷ []) no_format (record { samples = []; format = no_format }) refl refl))
      (Step.claims refl refl)

Reach-Inv_example : Inv queue 2 busy
Reach-Inv_example = Reach-Inv queue 2 busy busy_reached

Reach-submit_example : (submit queue busy.ring (6 ∷ []) no_format).0 ≡ true
unfolding after_claim after_submit make_ring populate claim submit
Reach-submit_example =
    Reach-submit queue 2 busy (6 ∷ []) no_format (record { samples = []; format = no_format })
      busy_reached refl

Reach-push_iff_example :
    ((push queue (make_ring queue 2) (6 ∷ []) no_format).0 ≡ true)
    ↔ (length (queue.items (make_ring queue 2).queue) + 0 < 2)
unfolding make_ring
Reach-push_iff_example = Reach-push_iff queue 2 (start queue 2) (6 ∷ []) no_format Reach.here refl
