-- ===== src/Snapshot.antt =====
-- src/audio/snapshot/seqlock_snapshot.h: the snapshot that one writer publishes and readers copy.
-- The payload is a list of words, which `memcpy` moves one at a time, so that a reader's copy can
-- interleave with a writer's. Steps of the two interleave in one order, as the fences of the code
-- make them appear.
pub mod Agreement
pub mod Consistency
pub mod Tests
use listeningway.Prelude.{
  ℕ, suc, ◌+◌, ◌%◌, ◌^◌, ◌<◌, ◌≡◌, Bool, true, false, some, List, [], ◌∷◌, ltb, leb, ◌==◌,
  if◌then◌else◌, length, get_elem?, set,
}

abbrev pub max_spin : ℕ
max_spin = 4

-- Where `publish` stands: outside, or behind the odd store, with the counter that it loaded and
-- the words copied so far.
pub data Writer (V : Type 0) : Type 0 where
  idle : Writer V
  copying : (snap : List V) (s i : ℕ) → Writer V

-- Where `read` stands: before the first load of round `spin`, inside the copy, or returned, with
-- `true` if it left through the test of the two counters.
pub data Reader (V : Type 0) : Type 0 where
  loading : (spin : ℕ) (out : List V) → Reader V
  filling : (spin s1 i : ℕ) (out : List V) → Reader V
  returned : (consistent : Bool) (out : List V) → Reader V

-- `seq_` and `data_`, one reader and one writer. `history` records what was published, the newest
-- first, behind the initial value.
pub record Shared (V : Type 0) : Type 0 where
  pub seq : ℕ
  pub payload : List V
  pub writer : Writer V
  pub reader : Reader V
  pub history : List (List V)

module _ {V : Type 0} where
  -- `publish` up to the release fence: the counter becomes odd.
  unfoldable pub publish_begin : Shared V → List V → Shared V
  publish_begin m snap = record m {
    seq = (m.seq + 1) % 2 ^ 64;
    writer = Writer.copying snap m.seq 0;
  }

  -- One word of its `memcpy`.
  unfoldable pub publish_word : Shared V → List V → ℕ → ℕ → V → Shared V
  publish_word m snap s i v = record m {
    payload = set m.payload i v;
    writer = Writer.copying snap s (suc i);
  }

  -- The last store.
  unfoldable pub publish_end : Shared V → List V → ℕ → Shared V
  publish_end m snap s = record m {
    seq = (s + 2) % 2 ^ 64;
    writer = Writer.idle;
    history = snap ∷ m.history;
  }

  -- The head of the loop: `spin < kMaxSpin`, the load of `s1` and the test for an odd counter.
  unfoldable pub read_begin : Shared V → ℕ → List V → Shared V
  read_begin m spin out =
      if ltb spin max_spin
      then (if m.seq % 2 == 1
          then record m { reader = Reader.loading (suc spin) out }
          else record m { reader = Reader.filling spin m.seq 0 out })
      else record m { reader = Reader.returned false out }

  -- One word of its `memcpy`.
  unfoldable pub read_word : Shared V → ℕ → ℕ → ℕ → List V → V → Shared V
  read_word m spin s1 i out v = record m { reader = Reader.filling spin s1 (suc i) (set out i v) }

  -- The second load, and the test of the two.
  unfoldable pub read_end : Shared V → ℕ → ℕ → List V → Shared V
  read_end m spin s1 out =
      if s1 == m.seq
      then record m { reader = Reader.returned true out }
      else record m { reader = Reader.loading (suc spin) out }

  pub has_data : Shared V → Bool
  has_data m = leb 2 m.seq

  -- Any interleaving of a writer that publishes snapshots of the payload's size, fewer than 2^63 of
  -- them, and a reader.
  pub data Step (n : ℕ) (m u : Shared V) : Type 0 where
    begins :
        (snap : List V)
        → m.writer ≡ Writer.idle
        → length snap ≡ n
        → m.seq + 2 < 2 ^ 64
        → u ≡ publish_begin m snap
        → Step n m u
    writes :
        (snap : List V) (s i : ℕ) (v : V)
        → m.writer ≡ Writer.copying snap s i
        → get_elem? snap i ≡ some v
        → u ≡ publish_word m snap s i v
        → Step n m u
    ends :
        (snap : List V) (s i : ℕ)
        → m.writer ≡ Writer.copying snap s i
        → i ≡ n
        → u ≡ publish_end m snap s
        → Step n m u
    loads :
        (spin : ℕ) (out : List V)
        → m.reader ≡ Reader.loading spin out
        → u ≡ read_begin m spin out
        → Step n m u
    copies :
        (spin s1 i : ℕ) (out : List V) (v : V)
        → m.reader ≡ Reader.filling spin s1 i out
        → get_elem? m.payload i ≡ some v
        → u ≡ read_word m spin s1 i out v
        → Step n m u
    checks :
        (spin s1 i : ℕ) (out : List V)
        → m.reader ≡ Reader.filling spin s1 i out
        → i ≡ n
        → u ≡ read_end m spin s1 out
        → Step n m u

  pub data Reach (n : ℕ) (m : Shared V) : Shared V → Type 0 where
    here : Reach n m m
    next : {u v : Shared V} → Reach n m u → Step n u v → Reach n m v

  -- A store that holds the default value `zero`, and a reader with a local `out` of that value.
  abbrev pub start : List V → Shared V
  start zero_value = record {
    seq = 0;
    payload = zero_value;
    writer = Writer.idle;
    reader = Reader.loading 0 zero_value;
    history = zero_value ∷ [];
  }
