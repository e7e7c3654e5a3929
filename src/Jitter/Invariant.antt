-- ===== src/Jitter/Invariant.antt =====
-- The invariant of the jitter buffer (src/jitter/JitterBuffer.cpp), and its queue under insertion
-- and under the capacity loop.
use sipdemo.Base.{
  ℕ, ◌≤◌, ◌≡◌, true, false, ◌⊎◌, Bool-cases, inl, inr, List, [], ◌∷◌, arith, ltb, length,
}
use sipdemo.Base.Int.{ℤ, pos, ◌+ℤ◌, ◌≤ℤ◌, ◌<ℤ◌, ltb_ℤ, eqb_ℤ, unsigned, int_laws}
use sipdemo.Rtp.{RtpPacket}
use sipdemo.Jitter.{Entry, JitterBuffer, inc64, emplace, Trimmed, trim}

-- The keys rise from `lo` on.
abbrev pub Ascending : ℤ → List Entry → Type 0
Ascending lo [] = Unit
Ascending lo ((k, p) ∷ es) = (lo ≤ℤ k) × Ascending (k +ℤ pos 1) es

-- No key is above `hi`.
abbrev pub UpTo : ℤ → List Entry → Type 0
UpTo hi [] = Unit
UpTo hi ((k, p) ∷ es) = (k ≤ℤ hi) × UpTo hi es

-- Each packet is filed under a key with its sequence number as low bits.
abbrev pub Filed : List Entry → Type 0
Filed [] = Unit
Filed ((k, p) ∷ es) = (unsigned 16 k ≡ p.sequence) × Filed es

-- The entries of a queue.
pub record Queued (lo hi : ℤ) (es : List Entry) : Type 0 where
  pub ascending : Ascending lo es
  pub up_to : UpTo hi es
  pub filed : Filed es

pub record IsValid (j : JitterBuffer) : Type 0 where
  pub queued : Queued j.playout_ext j.highest_ext j.buf
  pub cursor_near : j.playout_ext ≤ℤ j.highest_ext +ℤ pos 1
  pub within : length j.buf ≤ (j.cfg).capacity
  pub idle : (j.started ≡ true) ⊎ ((j.buf ≡ []) × (j.playout_ext ≡ pos 0))

-- Before the first packet nothing is queued and the cursor is at its start.
pub idle_start :
    {j : JitterBuffer} → IsValid j → j.started ≡ false → (j.buf ≡ []) × (j.playout_ext ≡ pos 0)
idle_start v off = elim v.idle [ inl on ↦ absurd (let clash = off in cc) | inr e ↦ e ]

-- A buffer that holds a packet has started.
pub full_started :
    {j : JitterBuffer} {e : Entry} {es : List Entry} → IsValid j → j.buf ≡ e ∷ es → j.started ≡ true
full_started v full = elim v.idle [ inl on ↦ on | inr none_yet ↦ absurd (let b = none_yet.0 in cc) ]

pub Ascending-le : (lo lo' : ℤ) (es : List Entry) → lo' ≤ℤ lo → Ascending lo es → Ascending lo' es
Ascending-le lo lo' [] h a = a
Ascending-le lo lo' ((k, p) ∷ es) h a = (omega (arith, a.0), a.1)

pub UpTo-le : (hi hi' : ℤ) (es : List Entry) → hi ≤ℤ hi' → UpTo hi es → UpTo hi' es
UpTo-le hi hi' [] h u = u
UpTo-le hi hi' ((k, p) ∷ es) h u = (omega (arith, u.0), UpTo-le hi hi' es h u.1)

emplace-Ascending :
    (lo ext : ℤ) (pkt : RtpPacket) (es : List Entry)
    → lo ≤ℤ ext
    → Ascending lo es
    → Ascending lo (emplace ext pkt es)
unfolding emplace
emplace-Ascending lo ext pkt [] h a = (h, tt)
emplace-Ascending lo ext pkt ((k, p) ∷ es) h a = elim (Bool-cases (ltb_ℤ ext k)) [
  | inl before ↦ let lt : ext <ℤ k = ground arith in rw before (h, (omega int_laws, a.1))
  | inr not_before ↦ elim (Bool-cases (eqb_ℤ ext k)) [
    | inl same ↦ rw (not_before, same) a
    | inr other ↦
        let gt : k <ℤ ext = ground arith in
        rw (not_before, other) (a.0, emplace-Ascending (k +ℤ pos 1) ext pkt es (omega int_laws) a.1)
  ]
]

emplace-UpTo :
    (hi ext : ℤ) (pkt : RtpPacket) (es : List Entry)
    → ext ≤ℤ hi
    → UpTo hi es
    → UpTo hi (emplace ext pkt es)
unfolding emplace
emplace-UpTo hi ext pkt [] h u = (h, tt)
emplace-UpTo hi ext pkt ((k, p) ∷ es) h u =
    let ih = emplace-UpTo hi ext pkt es h u.1 in ground (arith, u.0, u.1, ih)

emplace-Filed :
    (ext : ℤ) (pkt : RtpPacket) (es : List Entry)
    → unsigned 16 ext ≡ pkt.sequence
    → Filed es
    → Filed (emplace ext pkt es)
unfolding emplace
emplace-Filed ext pkt [] h f = (h, tt)
emplace-Filed ext pkt ((k, p) ∷ es) h f =
    let ih = emplace-Filed ext pkt es h f.1 in ground (arith, f.0, f.1, ih)

pub emplace-Queued :
    (lo hi ext : ℤ) (pkt : RtpPacket) (es : List Entry)
    → lo ≤ℤ ext
    → ext ≤ℤ hi
    → unsigned 16 ext ≡ pkt.sequence
    → Queued lo hi es
    → Queued lo hi (emplace ext pkt es)
emplace-Queued lo hi ext pkt es h k e q = record {
  ascending = emplace-Ascending lo ext pkt es h q.ascending;
  up_to = emplace-UpTo hi ext pkt es k q.up_to;
  filed = emplace-Filed ext pkt es e q.filed;
}

-- What the capacity loop leaves.
pub record IsTrimmed (hi : ℤ) (capacity : ℕ) (t : Trimmed) : Type 0 where
  pub queued : Queued t.cursor hi t.queue
  pub near : t.cursor ≤ℤ hi +ℤ pos 1
  pub within : length t.queue ≤ capacity

pub trim-IsTrimmed :
    (capacity : ℕ) (es : List Entry) (lo hi : ℤ) (d : ℕ)
    → Queued lo hi es
    → lo ≤ℤ hi +ℤ pos 1
    → IsTrimmed hi capacity (trim capacity es lo d)
unfolding trim
trim-IsTrimmed capacity [] lo hi d q n = record { queued = q; near = n; within = omega arith }
trim-IsTrimmed capacity ((k, p) ∷ es) lo hi d q n =
    elim (Bool-cases (ltb capacity (length ((k, p) ∷ es)))) [
      | inr fits ↦ rw fits (record { queued = q; near = n; within = ground arith })
      | inl over ↦
          let first : lo ≤ℤ k = q.ascending.0 in
          let top : k ≤ℤ hi = q.up_to.0 in
          let behind : ltb_ℤ k lo ≡ false = ground arith in
          rw (over, behind)
            (trim-IsTrimmed capacity es (k +ℤ pos 1) hi (inc64 d)
              (record { ascending = q.ascending.1; up_to = q.up_to.1; filed = q.filed.1 })
              (omega int_laws))
    ]
