-- ===== src/Snapshot/Consistency.antt =====
-- A read that leaves through the counter test returns one published snapshot whole.
use listeningway.Prelude.{
  ℕ, ◌+◌, ◌%◌, ◌^◌, ◌≤◌, ◌<◌, ◌≡◌, refl, sym, ◌∙◌, ◌⊎◌, inl, inr, true, some, List, [], ◌∷◌, arith,
  ltb, ◌==◌, ==_iff, Bool-cases, length, get_elem?, length-set,
}
use mathlib.Core.Path.{subst}
use listeningway.Snapshot.{
  Writer, Reader, Shared, publish_begin, publish_word, publish_end, read_begin, read_word, read_end,
  Step, Reach, start, max_spin,
}
use listeningway.Snapshot.Agreement.{Agree, Agree-eq, Agree-set, get_elem?-some}

module _ {V : Type 0} where
  abbrev pub Among : List V → List (List V) → Type 0
  Among x [] = ⊥
  Among x (y ∷ ys) = (x ≡ y) ⊎ Among x ys

  -- What the writer keeps: an idle writer has left an even counter and the newest snapshot, and a
  -- copying one an odd counter and a prefix of its own.
  abbrev WriterInv : ℕ → Shared V → Writer V → Type 0
  WriterInv n m Writer.idle =
      (m.seq % 2 ≡ 0) × (length m.payload ≡ n) × (m.seq < 2 ^ 64) × Among m.payload m.history
  WriterInv n m (Writer.copying snap s i) =
      (s % 2 ≡ 0)
      × (m.seq ≡ s + 1)
      × (s + 2 < 2 ^ 64)
      × (length snap ≡ n)
      × (length m.payload ≡ n)
      × Agree i m.payload snap

  -- What the reader keeps: while the counter is still the one that it loaded, its copy agrees with
  -- the payload.
  abbrev ReaderInv : ℕ → Shared V → Reader V → Type 0
  ReaderInv n m (Reader.loading spin out) = length out ≡ n
  ReaderInv n m (Reader.filling spin s1 i out) =
      (length out ≡ n) × (s1 % 2 ≡ 0) × (s1 ≤ m.seq) × (s1 ≡ m.seq → Agree i out m.payload)
  ReaderInv n m (Reader.returned ok out) = ok ≡ true → Among out m.history

  record Inv (n : ℕ) (m : Shared V) : Type 0 where
    writer_inv : WriterInv n m m.writer
    reader_inv : ReaderInv n m m.reader

  reader_begins :
      (n : ℕ) (m : Shared V) (snap : List V) (r : Reader V)
      → m.seq % 2 ≡ 0
      → m.seq + 2 < 2 ^ 64
      → ReaderInv n m r
      → ReaderInv n (publish_begin m snap) r
  unfolding publish_begin
  reader_begins n m snap (Reader.loading spin out) e b v = v
  reader_begins n m snap (Reader.filling spin s1 i out) e b v =
      (v.0, v.1, omega (arith, v.2), λ q. absurd (omega (arith, v.1)))
  reader_begins n m snap (Reader.returned ok out) e b v = v

  reader_writes :
      (n : ℕ) (m : Shared V) (snap : List V) (s i : ℕ) (v : V) (r : Reader V)
      → s % 2 ≡ 0
      → m.seq ≡ s + 1
      → ReaderInv n m r
      → ReaderInv n (publish_word m snap s i v) r
  unfolding publish_word
  reader_writes n m snap s i v (Reader.loading spin out) e b r = r
  reader_writes n m snap s i v (Reader.filling spin s1 j out) e b r =
      (r.0, r.1, r.2, λ q. absurd (omega (arith, r.1)))
  reader_writes n m snap s i v (Reader.returned ok out) e b r = r

  reader_ends :
      (n : ℕ) (m : Shared V) (snap : List V) (s : ℕ) (r : Reader V)
      → s % 2 ≡ 0
      → m.seq ≡ s + 1
      → s + 2 < 2 ^ 64
      → ReaderInv n m r
      → ReaderInv n (publish_end m snap s) r
  unfolding publish_end
  reader_ends n m snap s (Reader.loading spin out) e b c r = r
  reader_ends n m snap s (Reader.filling spin s1 j out) e b c r =
      (r.0, r.1, omega (arith, r.2), λ q. absurd (omega (arith, r.1, r.2)))
  reader_ends n m snap s (Reader.returned ok out) e b c r = λ q. inr (r q)

  begins-Inv :
      (n : ℕ) (m : Shared V) (snap : List V)
      → m.writer ≡ Writer.idle
      → length snap ≡ n
      → m.seq + 2 < 2 ^ 64
      → Inv n m
      → Inv n (publish_begin m snap)
  unfolding publish_begin
  begins-Inv n m snap e l b v =
      let w : WriterInv n m Writer.idle = subst (WriterInv n m) e v.writer_inv in
      record {
        writer_inv = (w.0, omega arith, b, l, w.1, λ j h. absurd (omega (arith, h)));
        reader_inv = reader_begins n m snap m.reader w.0 b v.reader_inv;
      }

  writes-Inv :
      (n : ℕ) (m : Shared V) (snap : List V) (s i : ℕ) (x : V)
      → m.writer ≡ Writer.copying snap s i
      → get_elem? snap i ≡ some x
      → Inv n m
      → Inv n (publish_word m snap s i x)
  unfolding publish_word
  writes-Inv n m snap s i x e g v =
      let w : WriterInv n m (Writer.copying snap s i) = subst (WriterInv n m) e v.writer_inv in
      let inside = get_elem?-some snap i x g in
      record {
        writer_inv = (
          w.0,
          w.1,
          w.2,
          w.3,
          length-set m.payload i x ∙ w.4,
          Agree-set m.payload snap i x w.5 g (omega (arith, inside, w.3, w.4)),
        );
        reader_inv = reader_writes n m snap s i x m.reader w.0 w.1 v.reader_inv;
      }

  ends-Inv :
      (n : ℕ) (m : Shared V) (snap : List V) (s i : ℕ)
      → m.writer ≡ Writer.copying snap s i
      → i ≡ n
      → Inv n m
      → Inv n (publish_end m snap s)
  unfolding publish_end
  ends-Inv n m snap s i e f v =
      let w : WriterInv n m (Writer.copying snap s i) = subst (WriterInv n m) e v.writer_inv in
      let whole : m.payload ≡ snap =
        Agree-eq m.payload snap (w.4 ∙ sym w.3) (λ j h. w.5 j (omega (arith, h, w.3))) in
      record {
        writer_inv = (omega (arith, w.0, w.2), w.4, omega (arith, w.2), inl whole);
        reader_inv = reader_ends n m snap s m.reader w.0 w.1 w.2 v.reader_inv;
      }

  payload_length : (n : ℕ) (m : Shared V) (w : Writer V) → WriterInv n m w → length m.payload ≡ n
  payload_length n m Writer.idle w = w.1
  payload_length n m (Writer.copying snap s i) w = w.4

  -- An even counter means that no copy is under way, so the payload is the newest snapshot.
  settled :
      (n : ℕ) (m : Shared V) (w : Writer V)
      → WriterInv n m w
      → m.seq % 2 ≡ 0
      → (length m.payload ≡ n) × Among m.payload m.history
  settled n m Writer.idle w e = (w.1, w.3)
  settled n m (Writer.copying snap s i) w e = absurd (omega (arith, w.0, w.1))

  loads-Inv :
      (n : ℕ) (m : Shared V) (spin : ℕ) (out : List V)
      → m.reader ≡ Reader.loading spin out
      → Inv n m
      → Inv n (read_begin m spin out)
  unfolding read_begin
  loads-Inv n m spin out e v =
      let r : ReaderInv n m (Reader.loading spin out) = subst (ReaderInv n m) e v.reader_inv in
      elim (Bool-cases (ltb spin max_spin)) [
        | inr over ↦ rw over (record { writer_inv = v.writer_inv; reader_inv = λ q. cc })
        | inl more ↦ elim (Bool-cases (m.seq % 2 == 1)) [
          | inl odd ↦ rw (more, odd) (record { writer_inv = v.writer_inv; reader_inv = r })
          | inr even ↦
              rw (more, even)
                (record {
                  writer_inv = v.writer_inv;
                  reader_inv = (r, ground arith, omega arith, λ q j h. absurd (omega (arith, h)));
                })
        ]
      ]

  copies-Inv :
      (n : ℕ) (m : Shared V) (spin s1 i : ℕ) (out : List V) (x : V)
      → m.reader ≡ Reader.filling spin s1 i out
      → get_elem? m.payload i ≡ some x
      → Inv n m
      → Inv n (read_word m spin s1 i out x)
  unfolding read_word
  copies-Inv n m spin s1 i out x e g v =
      let r : ReaderInv n m (Reader.filling spin s1 i out) = subst (ReaderInv n m) e v.reader_inv in
      let inside = get_elem?-some m.payload i x g in
      record {
        writer_inv = v.writer_inv;
        reader_inv = (
          length-set out i x ∙ r.0,
          r.1,
          r.2,
          λ q.
              Agree-set out m.payload i x (r.3 q) g
                (omega (arith, inside, r.0, payload_length n m m.writer v.writer_inv)),
        );
      }

  checks-Inv :
      (n : ℕ) (m : Shared V) (spin s1 i : ℕ) (out : List V)
      → m.reader ≡ Reader.filling spin s1 i out
      → i ≡ n
      → Inv n m
      → Inv n (read_end m spin s1 out)
  unfolding read_end
  checks-Inv n m spin s1 i out e f v =
      let r : ReaderInv n m (Reader.filling spin s1 i out) = subst (ReaderInv n m) e v.reader_inv in
      elim (Bool-cases (s1 == m.seq)) [
        | inr differ ↦ rw differ (record { writer_inv = v.writer_inv; reader_inv = r.0 })
        | inl same ↦
            let q : s1 ≡ m.seq = (==_iff s1 m.seq).0 same in
            let (l, newest) = settled n m m.writer v.writer_inv (omega (arith, r.1)) in
            let whole : out ≡ m.payload =
              Agree-eq out m.payload (r.0 ∙ sym l) (λ j h. r.3 q j (omega (arith, h))) in
            rw same (record {
              writer_inv = v.writer_inv;
              reader_inv = λ _. subst (λ x. Among x m.history) (sym whole) newest;
            })
      ]

  Step-Inv : (n : ℕ) (m u : Shared V) → Step n m u → Inv n m → Inv n u
  Step-Inv n m u (Step.begins snap e l b q) v = rw q (begins-Inv n m snap e l b v)
  Step-Inv n m u (Step.writes snap s i x e g q) v = rw q (writes-Inv n m snap s i x e g v)
  Step-Inv n m u (Step.ends snap s i e f q) v = rw q (ends-Inv n m snap s i e f v)
  Step-Inv n m u (Step.loads spin out e q) v = rw q (loads-Inv n m spin out e v)
  Step-Inv n m u (Step.copies spin s1 i out x e g q) v = rw q (copies-Inv n m spin s1 i out x e g v)
  Step-Inv n m u (Step.checks spin s1 i out e f q) v = rw q (checks-Inv n m spin s1 i out e f v)

  Reach-Inv : (n : ℕ) (z : List V) (m : Shared V) → length z ≡ n → Reach n (start z) m → Inv n m
  Reach-Inv n z m l Reach.here = record {
    writer_inv = (omega arith, l, omega arith, inl refl);
    reader_inv = l;
  }
  Reach-Inv n z m l (Reach.next {u = u} r s) = Step-Inv n u m s (Reach-Inv n z u l r)

  -- In every interleaving, of fewer than 2^63 publications, a read that returns through the test of
  -- its two counters returns the initial value or one published snapshot, never parts of two.
  pub returned-Among :
      (n : ℕ) (z : List V) (m : Shared V) (out : List V)
      → length z ≡ n
      → Reach n (start z) m
      → m.reader ≡ Reader.returned true out
      → Among out m.history
  returned-Among n z m out l r e =
      let read : ReaderInv n m (Reader.returned true out) =
        subst (ReaderInv n m) e (Reach-Inv n z m l r).reader_inv in
      read refl
