-- ===== src/Output/Osc/Message/Decode.antt =====
-- src/output/osc_consumer.cpp, `send_floats`: a receiver reads back what is composed.
use mathlib.Core.List.{append_assoc}
use mathlib.Core.Option as Option
use listeningway.Prelude.{
  ℕ, zero, suc, ◌+◌, ◌-◌, ◌*◌, ◌^◌, ◌≤◌, ◌<◌, ◌≡◌, refl, sym, ap, ◌∙◌, some, List, [], ◌∷◌, ◌++◌,
  arith, length, get_or, drop, replicate, All, length-replicate, drop,
}
use listeningway.Output.Osc.Message.{padded, zeros, big_endian, tag_f, total_size, compose}
use listeningway.Output.Osc.Message.Layout.{field, wire, tags, packet, length-field, compose-packet}

-- A receiver's reading: a string up to its zero, then past the padding.
abbrev pub until_zero : List ℕ → List ℕ
until_zero [] = []
until_zero (zero ∷ bytes) = []
until_zero (suc b ∷ bytes) = suc b ∷ until_zero bytes

abbrev pub past_string : List ℕ → List ℕ
past_string bytes = drop (padded (length (until_zero bytes) + 1)) bytes

abbrev pub read_word : List ℕ → ℕ
read_word bytes =
    get_or bytes 0 0 * 16_777_216
    + get_or bytes 1 0 * 65_536
    + get_or bytes 2 0 * 256
    + get_or bytes 3 0

abbrev pub read_words : ℕ → List ℕ → List ℕ
read_words zero bytes = []
read_words (suc n) bytes = read_word bytes ∷ read_words n (drop 4 bytes)

-- A word for each type tag after the comma.
abbrev pub decode_types : List ℕ → List ℕ → List ℕ → List ℕ × (List ℕ × List ℕ)
decode_types address types body = (address, (drop 1 types, read_words (length (drop 1 types)) body))

abbrev pub decode_rest : List ℕ → List ℕ → List ℕ × (List ℕ × List ℕ)
decode_rest address rest = decode_types address (until_zero rest) (past_string rest)

-- The address, the type tags after the comma, and the words.
abbrev pub decode : List ℕ → List ℕ × (List ℕ × List ℕ)
decode bytes = decode_rest (until_zero bytes) (past_string bytes)

-- No character is the terminator.
abbrev pub IsText : List ℕ → Type 0
IsText s = All (λ b. 0 < b) s

until_zero-append : (s rest : List ℕ) → IsText s → until_zero (s ++ (0 ∷ rest)) ≡ s
until_zero-append [] rest h = refl
until_zero-append (zero ∷ s) rest (b, h) = absurd (omega (arith, b))
until_zero-append (suc c ∷ s) rest (b, h) = ap (λ ys. suc c ∷ ys) (until_zero-append s rest h)

drop-append : (xs ys : List ℕ) (n : ℕ) → n ≡ length xs → drop n (xs ++ ys) ≡ ys
drop-append [] ys zero e = refl
drop-append [] ys (suc n) e = absurd (omega (arith, e))
drop-append (x ∷ xs) ys zero e = absurd (omega (arith, e))
drop-append (x ∷ xs) ys (suc n) e = drop-append xs ys n (omega (arith, e))

until_zero-field : (s rest : List ℕ) → IsText s → until_zero (field s ++ rest) ≡ s
until_zero-field s rest h =
    let pad = padded (length s + 1) - length s in
    let one_zero : pad ≡ suc (pad - 1) = omega arith in
    ap until_zero (append_assoc s (zeros pad) rest ∙ ap (λ k. s ++ (zeros k ++ rest)) one_zero)
    ∙ until_zero-append s (zeros (pad - 1) ++ rest) h

past_string-field : (s rest : List ℕ) → IsText s → past_string (field s ++ rest) ≡ rest
past_string-field s rest h =
    ap (λ t. drop (padded (length t + 1)) (field s ++ rest)) (until_zero-field s rest h)
    ∙ drop-append (field s) rest (padded (length s + 1)) (sym (length-field s))

read_word_lem : (u : ℕ) (rest : List ℕ) → u < 2 ^ 32 → read_word (big_endian u ++ rest) ≡ u
read_word_lem u rest h = omega (arith, h)

read_words-wire :
    (words : List ℕ) → All (λ u. u < 2 ^ 32) words → read_words (length words) (wire words) ≡ words
read_words-wire [] h = refl
read_words-wire (u ∷ words) (b, h) =
    rw (read_word_lem u (wire words) b) (ap (λ ys. u ∷ ys) (read_words-wire words h))

tags-IsText : (n : ℕ) → IsText (replicate n tag_f)
tags-IsText zero = tt
tags-IsText (suc n) = (omega arith, tags-IsText n)

decode-packet :
    (address words : List ℕ)
    → IsText address
    → All (λ u. u < 2 ^ 32) words
    → decode (packet address words) ≡ (address, (replicate (length words) tag_f, words))
decode-packet address words text small =
    let n = length words in
    let rest = field (tags n) ++ wire words in
    let text_tags : IsText (tags n) = (omega arith, tags-IsText n) in
    ap (λ a. decode_rest a (past_string (field address ++ rest)))
      (until_zero-field address rest text)
    ∙ ap (decode_rest address) (past_string-field address rest text)
    ∙ ap (λ t. decode_types address t (past_string rest))
        (until_zero-field (tags n) (wire words) text_tags)
    ∙ ap (decode_types address (tags n)) (past_string-field (tags n) (wire words) text_tags)
    ∙ rw (length-replicate n tag_f)
        (ap (λ ys. (address, (replicate n tag_f, ys))) (read_words-wire words small))

-- With an address without zeros, at least one value and room for the packet in the scratch buffer: a
-- packet is composed, and a receiver that reads strings up to their padding to four bytes gets the
-- address, one tag for each value, and the values' 32 bits in order.
pub decode-compose :
    (address words : List ℕ) (scratch_size : ℕ)
    → IsText address
    → All (λ u. u < 2 ^ 32) words
    → 0 < length words
    → total_size address (length words) ≤ scratch_size
    → Option.map decode (compose address words scratch_size)
      ≡ some (address, (replicate (length words) tag_f, words))
decode-compose address words scratch_size text small some_words room =
    rw (compose-packet address words scratch_size some_words room)
      (ap some (decode-packet address words text small))
