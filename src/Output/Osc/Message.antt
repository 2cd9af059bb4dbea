-- ===== src/Output/Osc/Message.antt =====
-- src/output/osc_consumer.cpp, `send_floats`: an OSC message with an array of floats. A character and
-- a byte are numbers; `bits` is the representation of a float as 32 bits.
pub mod Layout
pub mod Decode
use listeningway.Prelude.{
  ℕ, ◌+◌, ◌*◌, ◌/◌, ◌%◌, Option, none, some, List, [], ◌∷◌, ◌++◌, ltb, ◌==◌, if◌then◌else◌, length,
  set, replicate, ◌%◌,
}

abbrev pub max_packet_bytes : ℕ
max_packet_bytes = 2048

-- `(n + 3) & ~3`.
abbrev pub padded : ℕ → ℕ
padded n = (n + 3) / 4 * 4

-- `std::memset` of a buffer with zeros.
abbrev pub zeros : ℕ → List ℕ
zeros n = replicate n 0

-- `std::memcpy(buf + at, bytes, bytes.size())`.
abbrev pub write : List ℕ → ℕ → List ℕ → List ℕ
write buf at [] = buf
write buf at (b ∷ bytes) = write (set buf at b) (at + 1) bytes

-- The four bytes of a word on the wire, the most significant first.
abbrev pub big_endian : ℕ → List ℕ
big_endian u = u / 16_777_216 % 256 ∷ u / 65_536 % 256 ∷ u / 256 % 256 ∷ u % 256 ∷ []

abbrev pub comma : ℕ
comma = 44

abbrev pub tag_f : ℕ
tag_f = 102

-- The loop that writes the values from byte `at` on.
abbrev pub write_words : List ℕ → ℕ → List ℕ → List ℕ
write_words buf at [] = buf
write_words buf at (u ∷ words) = write_words (write buf at (big_endian u)) (at + 4) words

abbrev pub total_size : List ℕ → ℕ → ℕ
total_size address count = padded (length address + 1) + padded (1 + count + 1) + count * 4

-- The packet that is sent, or none: no value, or more than the scratch buffer holds.
unfoldable pub compose : List ℕ → List ℕ → ℕ → Option (List ℕ)
compose address words scratch_size =
    let count = length words in
    let addr_padded = padded (length address + 1) in
    let fmt_padded = padded (1 + count + 1) in
    let total = total_size address count in
    let addressed = write (zeros total) 0 (address ++ (0 ∷ [])) in
    let tagged = write addressed addr_padded (comma ∷ replicate count tag_f) in
    if count == 0
    then none
    else if ltb scratch_size total
    then none
    else some (write_words tagged (addr_padded + fmt_padded) words)
