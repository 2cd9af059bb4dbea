-- ===== src/Dsp/OdfBuffer/Tests.antt =====
-- Three onset values.
use listeningway.Prelude.{◌-◌, ◌≡◌, some, List, [], ◌∷◌, arith, get_elem?}
use listeningway.Prelude.Int.{pos}
use listeningway.Float.Fixed.{Fixed, fixed_float}
use listeningway.Dsp.OdfBuffer.{make, push, linearise}
use listeningway.Dsp.OdfBuffer.Recent.{push_all, linearise_recent}

abbrev three : List Fixed
three = some (pos 3) ∷ some (pos 2) ∷ some (pos 1) ∷ []

linearise_recent_example : get_elem? (linearise (push_all three) 2) 1 ≡ get_elem? three (2 - 1 - 1)
unfolding make push
linearise_recent_example = linearise_recent three 2 1 (omega arith) (omega arith)
