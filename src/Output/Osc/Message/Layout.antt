-- ===== src/Output/Osc/Message/Layout.antt =====
-- src/output/osc_consumer.cpp, `send_floats`: the writes into the scratch buffer, put together.
use mathlib.Core.List.{append_assoc}
use listeningway.Prelude.{
  ℕ, zero, suc, ◌+◌, ◌-◌, ◌*◌, ◌%◌, ◌≤◌, ◌<◌, ◌≡◌, refl, sym, ap, ◌∙◌, false, some, List, [], ◌∷◌,
  ◌++◌, arith, ltb, ◌==◌, length, set, replicate, length-append, length-replicate, ◌%◌,
}
use listeningway.Output.Osc.Message.{
  padded, zeros, write, big_endian, comma, tag_f, write_words, total_size, compose,
}

-- A string and its padding: one zero at least, up to a multiple of four.
abbrev pub field : List ℕ → List ℕ
field s = s ++ zeros (padded (length s + 1) - length s)

abbrev pub wire : List ℕ → List ℕ
wire [] = []
wire (u ∷ words) = big_endian u ++ wire words

-- The tags of a number of floats.
abbrev pub tags : ℕ → List ℕ
tags count = comma ∷ replicate count tag_f

set-append :
    (pre : List ℕ) (x b : ℕ) (rest : List ℕ)
    → set (pre ++ (x ∷ rest)) (length pre) b ≡ pre ++ (b ∷ rest)
set-append [] x b rest = refl
set-append (p ∷ pre) x b rest = ap (λ ys. p ∷ ys) (set-append pre x b rest)

append_one : (pre : List ℕ) (b : ℕ) (rest : List ℕ) → pre ++ (b ∷ rest) ≡ (pre ++ (b ∷ [])) ++ rest
append_one [] b rest = refl
append_one (p ∷ pre) b rest = ap (λ ys. p ∷ ys) (append_one pre b rest)

-- A copy over as many bytes, past a prefix.
write-append :
    (pre old bytes rest : List ℕ)
    → length old ≡ length bytes
    → write (pre ++ (old ++ rest)) (length pre) bytes ≡ pre ++ (bytes ++ rest)
write-append pre [] [] rest e = refl
write-append pre [] (b ∷ bytes) rest e = absurd (omega (arith, e))
write-append pre (o ∷ old) [] rest e = absurd (omega (arith, e))
write-append pre (o ∷ old) (b ∷ bytes) rest e =
    let longer : length pre + 1 ≡ length (pre ++ (b ∷ [])) = sym (length-append pre (b ∷ [])) in
    rw (set-append pre o b (old ++ rest), longer, append_one pre b (old ++ rest))
      (write-append (pre ++ (b ∷ [])) old bytes rest (omega (arith, e))
        ∙ sym (append_one pre b (bytes ++ rest)))

zeros-append : (n m : ℕ) → zeros n ++ zeros m ≡ zeros (n + m)
zeros-append zero m = ap (λ k. zeros k) (omega arith)
zeros-append (suc n) m =
    let sum : suc (n + m) ≡ suc n + m = omega arith in
    ap (λ ys. 0 ∷ ys) (zeros-append n m) ∙ ap (λ k. zeros k) sum

-- A copy over zeros.
write-zeros :
    (pre bytes : List ℕ) (m n : ℕ)
    → n ≡ length bytes + m
    → write (pre ++ zeros n) (length pre) bytes ≡ pre ++ (bytes ++ zeros m)
write-zeros pre bytes m n e =
    let split : zeros n ≡ zeros (length bytes) ++ zeros m =
      ap (λ k. zeros k) e ∙ sym (zeros-append (length bytes) m) in
    rw split
      (write-append pre (zeros (length bytes)) bytes (zeros m) (length-replicate (length bytes) 0))

write_words-wire :
    (pre words : List ℕ) (n : ℕ)
    → n ≡ length words * 4
    → write_words (pre ++ zeros n) (length pre) words ≡ pre ++ wire words
write_words-wire pre [] n e = ap (λ k. pre ++ zeros k) e
write_words-wire pre (u ∷ words) n e =
    let bytes = big_endian u in
    let longer : length pre + 4 ≡ length (pre ++ bytes) = sym (length-append pre bytes) in
    rw
      (
        write-zeros pre bytes (length words * 4) n (omega (arith, e)),
        longer,
        sym (append_assoc pre bytes (zeros (length words * 4))),
      )
      (write_words-wire (pre ++ bytes) words (length words * 4) refl
        ∙ append_assoc pre bytes (wire words))

-- The three parts of a packet, in the order of OSC.
abbrev pub packet : List ℕ → List ℕ → List ℕ
packet address words = field address ++ (field (tags (length words)) ++ wire words)

padded-bounds : (n : ℕ) → (n ≤ padded n) × (padded n % 4 ≡ 0)
padded-bounds n = (omega arith, omega arith)

length-zeros : (n : ℕ) → length (zeros n) ≡ n
length-zeros n = length-replicate n 0

pub length-field : (s : List ℕ) → length (field s) ≡ padded (length s + 1)
length-field s =
    let pad = padded (length s + 1) - length s in
    let low = (padded-bounds (length s + 1)).0 in
    length-append s (zeros pad) ∙ omega (arith, length-zeros pad, low)

-- The terminated address, and what is left of the zeros.
write-address :
    (address : List ℕ) (n total : ℕ)
    → total ≡ padded (length address + 1) + n
    → write (zeros total) 0 (address ++ (0 ∷ [])) ≡ field address ++ zeros n
write-address address n total e =
    let size = length address in
    let low = (padded-bounds (size + 1)).0 in
    let pad = padded (size + 1) - (size + 1) in
    let whole : total ≡ length (address ++ (0 ∷ [])) + (pad + n) =
      omega (arith, e, low, length-append address (0 ∷ [])) in
    let rest : suc (pad + n) ≡ padded (size + 1) - size + n = omega (arith, low) in
    write-zeros [] (address ++ (0 ∷ [])) (pad + n) total whole
    ∙ append_assoc address (0 ∷ []) (zeros (pad + n))
    ∙ ap (λ k. address ++ zeros k) rest
    ∙ ap (λ ys. address ++ ys) (sym (zeros-append (padded (size + 1) - size) n))
    ∙ sym (append_assoc address (zeros (padded (size + 1) - size)) (zeros n))

-- A string over the zeros that follow a prefix.
write-field :
    (pre s : List ℕ) (n total at : ℕ)
    → at ≡ length pre
    → total ≡ padded (length s + 1) + n
    → write (pre ++ zeros total) at s ≡ (pre ++ field s) ++ zeros n
write-field pre s n total at here e =
    let low = (padded-bounds (length s + 1)).0 in
    let pad = padded (length s + 1) - length s in
    let whole : total ≡ length s + (pad + n) = omega (arith, e, low) in
    rw here (
      write-zeros pre s (pad + n) total whole
      ∙ ap (λ ys. pre ++ (s ++ ys)) (sym (zeros-append pad n))
      ∙ ap (λ ys. pre ++ ys) (sym (append_assoc s (zeros pad) (zeros n)))
      ∙ sym (append_assoc pre (field s) (zeros n)))

length-tags : (n : ℕ) → length (tags n) ≡ 1 + n
length-tags n = omega (arith, length-replicate n tag_f)

-- With at least one value and room for the packet, the buffer holds the three parts.
pub compose-packet :
    (address words : List ℕ) (scratch_size : ℕ)
    → 0 < length words
    → total_size address (length words) ≤ scratch_size
    → compose address words scratch_size ≡ some (packet address words)
unfolding compose
compose-packet address words scratch_size some_words room =
    let count = length words in
    let padded_tags = padded (1 + count + 1) in
    let total = total_size address count in
    let none_of : (count == 0) ≡ false = ground (arith, some_words) in
    let fits : ltb scratch_size total ≡ false = ground (arith, room) in
    let addressed : write (zeros total) 0 (address ++ (0 ∷ []))
        ≡ field address ++ zeros (padded_tags + count * 4) =
      write-address address (padded_tags + count * 4) total (omega arith) in
    let size : padded_tags + count * 4 ≡ padded (length (tags count) + 1) + count * 4 =
      ap (λ k. padded (k + 1) + count * 4) (sym (length-tags count)) in
    let tagged =
      write-field (field address) (tags count) (count * 4) (padded_tags + count * 4)
        (padded (length address + 1)) (sym (length-field address)) size in
    let both : padded (length address + 1) + padded_tags
        ≡ length (field address ++ field (tags count)) =
      omega (
        arith,
        length-append (field address) (field (tags count)),
        length-field address,
        length-field (tags count),
        length-tags count,
      ) in
    let worded = write_words-wire (field address ++ field (tags count)) words (count * 4) refl in
    rw (none_of, fits, addressed, tagged, both, worded)
      (ap some (append_assoc (field address) (field (tags count)) (wire words)))
