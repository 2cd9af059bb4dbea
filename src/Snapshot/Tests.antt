-- ===== src/Snapshot/Tests.antt =====
-- Runs of the seqlock.
use listeningway.Prelude.{ℕ, refl, List, [], ◌∷◌, arith}
use listeningway.Snapshot.{
  Shared, publish_begin, publish_word, publish_end, read_begin, read_word, read_end, Step, Reach,
  start,
}
use listeningway.Snapshot.Consistency.{Among, returned-Among}

abbrev zero_payload : List ℕ
zero_payload = 0 ∷ 0 ∷ []

abbrev fresh : List ℕ
fresh = 7 ∷ 8 ∷ []

-- A publication, and then the first round of a read.
abbrev opened : Shared ℕ
opened = publish_begin (start zero_payload) fresh

abbrev published : Shared ℕ
published = publish_end (publish_word (publish_word opened fresh 0 0 7) fresh 0 1 8) fresh 0

abbrev copied : Shared ℕ
copied =
    read_word (read_word (read_begin published 0 zero_payload) 0 2 0 zero_payload 7) 0 2 1
      (7 ∷ 0 ∷ []) 8

published_reached : Reach 2 (start zero_payload) published
unfolding publish_begin publish_word publish_end
published_reached =
    Reach.next
      (Reach.next
        (Reach.next (Reach.next Reach.here (Step.begins fresh refl refl (omega arith) refl))
          (Step.writes fresh 0 0 7 refl refl refl))
        (Step.writes fresh 0 1 8 refl refl refl))
      (Step.ends fresh 0 2 refl refl refl)

read_reached : Reach 2 (start zero_payload) (read_end copied 0 2 fresh)
unfolding publish_begin publish_word publish_end read_begin read_word read_end
read_reached =
    Reach.next
      (Reach.next
        (Reach.next (Reach.next published_reached (Step.loads 0 zero_payload refl refl))
          (Step.copies 0 2 0 zero_payload 7 refl refl refl))
        (Step.copies 0 2 1 (7 ∷ 0 ∷ []) 8 refl refl refl))
      (Step.checks 0 2 2 fresh refl refl refl)

returned-Among_example : Among fresh (fresh ∷ zero_payload ∷ [])
unfolding publish_begin publish_word publish_end read_begin read_word read_end
returned-Among_example =
    returned-Among 2 zero_payload (read_end copied 0 2 fresh) fresh refl read_reached refl
