-- ===== src/Dsp/History/Tests.antt =====
-- A history of four slots.
use listeningway.Prelude.{ℕ, ◌≡◌, refl, some, [], ◌∷◌, arith, get_elem?}
use listeningway.Dsp.History.{History, store, unroll}
use listeningway.Dsp.History.Unroll.{at_rank, unroll-store}

abbrev four : History ℕ
four = record { ring = 10 ∷ 11 ∷ 12 ∷ 13 ∷ []; head = 1 }

unrolled : unroll (store four 4 14) 4 0 ≡ 13 ∷ 10 ∷ 14 ∷ 12 ∷ []
unfolding store unroll
unrolled = refl

unroll-store_example :
    (get_elem? (unroll (store four 4 14) 4 0) 2 ≡ some 14)
    × (get_elem? (unroll (store four 4 14) 4 0) 3 ≡ at_rank 4 four 1)
unroll-store_example = unroll-store 2 four 14 0 (refl, omega arith)
