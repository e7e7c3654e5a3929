-- ===== src/Rtp/Sequence.antt =====
-- The order of RTP sequence numbers, `seqLess` and `seqDiff` of src/rtp/RtpPacket.cpp.
use sipdemo.Base.{ℕ, ◌+◌, ◌-◌, ◌%◌, ◌^◌, ◌≤◌, ◌<◌, ◌≡◌, ◌≢◌, ◌⊎◌, ◌↔◌, true, false, arith}
use sipdemo.Base.Int.{pos, pos_part, neg_part, negsuc, signed, ◌<ℤ◌, ◌≤ℤ◌}
use sipdemo.Rtp.{seq_less, seq_diff}

-- `seqLess a b` holds exactly when `b` is reached from `a` by 1 to 32767 increments of a 16-bit
-- counter.
pub seq_less_iff :
    (a b : ℕ)
    → a < 2 ^ 16
    → b < 2 ^ 16
    → (seq_less a b ≡ true) ↔ ((k : ℕ) × (1 ≤ k) × (k ≤ 32767) × ((a + k) % 2 ^ 16 ≡ b))
unfolding seq_less
seq_less_iff a b ha hb = (
  (λ h. ((b + 2 ^ 16 - a) % 2 ^ 16, ground arith, ground arith, ground arith)),
  (λ h. ground (arith, h.1, h.2, h.3)),
)

-- Of two different 16-bit numbers that are not half the space apart, exactly one comes first.
pub seq_less_total :
    (a b : ℕ)
    → a < 2 ^ 16
    → b < 2 ^ 16
    → a ≢ b
    → (a + 2 ^ 15) % 2 ^ 16 ≢ b
    → ((seq_less a b ≡ true) × (seq_less b a ≡ false))
      ⊎ ((seq_less a b ≡ false) × (seq_less b a ≡ true))
unfolding seq_less
seq_less_total a b ha hb ne far = ground arith

-- `seqDiff a b` is the distance of least magnitude: it lies from -32768 to 32767, and going it
-- from `a` arrives at `b`.
pub seq_diff_lem :
    (a b : ℕ)
    → a < 2 ^ 16
    → b < 2 ^ 16
    → (negsuc 32767 ≤ℤ seq_diff a b)
      × (seq_diff a b ≤ℤ pos 32767)
      × ((a + pos_part (seq_diff a b) + 2 ^ 16 - neg_part (seq_diff a b)) % 2 ^ 16 ≡ b)
unfolding seq_diff signed
seq_diff_lem a b ha hb = ground arith

-- The two comparisons agree: `a` precedes `b` exactly when the distance from `a` to `b` is
-- positive.
pub seq_less_iff-seq_diff :
    (a b : ℕ) → a < 2 ^ 16 → b < 2 ^ 16 → (seq_less a b ≡ true) ↔ (pos 0 <ℤ seq_diff a b)
unfolding seq_less seq_diff signed
seq_less_iff-seq_diff a b ha hb = ground arith
