-- ===== src/Jitter/Accounting.antt =====
-- The counters of the jitter buffer (src/jitter/JitterBuffer.cpp) account for every packet. They
-- are 64 bits wide, so the equations hold modulo 2 ^ 64.
use sipdemo.Base.{
  ℕ, suc, ◌+◌, ◌%◌, ◌^◌, ◌≡◌, refl, true, false, Bool-cases, inl, inr, List, [], ◌∷◌, some, arith,
  ltb, if◌then◌else◌, length, length-append,
}
use sipdemo.Base.Int.{ℤ, pos, ◌+ℤ◌, ltb_ℤ}
use sipdemo.Rtp.{RtpPacket}
use sipdemo.Jitter.{
  Config, Entry, JitterBuffer, create, inc64, extend, count, emplace, find, erase, trim, accept,
  insert_at, insert, Popped, pop,
}
use sipdemo.Jitter.Playout.{
  Event, arrive, tick, playout, run, Tick, idle, plays, loses, pop-Tick, played,
}

length-emplace :
    (es : List Entry) (ext : ℤ) (p : RtpPacket)
    → count es ext ≡ false
    → length (emplace ext p es) ≡ length es + 1
unfolding count emplace
length-emplace [] ext p h = omega arith
length-emplace ((k, q) ∷ es) ext p h = ground (arith, length-emplace es ext p)

length-erase :
    (es : List Entry) (k : ℤ) {p : RtpPacket}
    → find es k ≡ some p
    → length (erase es k) + 1 ≡ length es
unfolding find erase
length-erase [] k h = cc
length-erase ((i, q) ∷ es) k {p} h = ground (arith, length-erase es k {p = p})

-- Each dropped entry is counted.
trim_dropped :
    (capacity : ℕ) (es : List Entry) (c : ℤ) (d : ℕ)
    → (length (trim capacity es c d).queue + (trim capacity es c d).dropped) % 2 ^ 64
      ≡ (length es + d) % 2 ^ 64
unfolding trim
trim_dropped capacity [] c d = refl
trim_dropped capacity ((k, p) ∷ es) c d =
    let next : ℤ = if ltb_ℤ k c then c else k +ℤ pos 1 in
    elim (Bool-cases (ltb capacity (length ((k, p) ∷ es)))) [
      | inl over ↦ rw over (omega (arith, trim_dropped capacity es next (inc64 d)))
      | inr fits ↦ rw fits
    ]

-- `n` packets were played and `a` arrived.
pub record Balance (n a : ℕ) (j : JitterBuffer) : Type 0 where
  pub stored : (n + length j.buf + (j.counters).overflow_dropped) % 2 ^ 64 ≡ (j.counters).received
  pub arrived : ((j.counters).received + (j.counters).late_discarded) % 2 ^ 64 ≡ a % 2 ^ 64

insert_at-Balance :
    (n a : ℕ) (j : JitterBuffer) (ext : ℤ) (p : RtpPacket)
    → Balance n a j
    → Balance n (a + 1) (insert_at j ext p)
unfolding insert_at accept
insert_at-Balance n a j ext p b = elim (Bool-cases (ltb_ℤ ext j.playout_ext)) [
  | inl behind ↦ rw behind (record { stored = b.stored; arrived = omega (arith, b.arrived) })
  | inr ahead ↦ elim (Bool-cases (count j.buf ext)) [
    | inl there ↦
        rw (ahead, there) (record { stored = b.stored; arrived = omega (arith, b.arrived) })
    | inr new ↦
        let kept =
          trim_dropped (j.cfg).capacity (emplace ext p j.buf) j.playout_ext
            (j.counters).overflow_dropped in
        let one_more = length-emplace j.buf ext p new in
        rw (ahead, new)
          (record {
            stored = omega (arith, b.stored, kept, one_more);
            arrived = omega (arith, b.arrived);
          })
  ]
]

insert-Balance :
    (n a : ℕ) (j : JitterBuffer) (p : RtpPacket) → Balance n a j → Balance n (a + 1) (insert j p)
unfolding insert
insert-Balance n a j p b = elim (Bool-cases j.started) [
  | inl on ↦ simp on (insert_at-Balance n a j (extend p.sequence j.highest_ext) p b)
  | inr off ↦
      let fresh = record j {
        started = true;
        highest_ext = pos p.sequence;
        playout_ext = pos p.sequence;
      } in
      simp off (
        insert_at-Balance n a fresh (pos p.sequence) p
          (record { stored = b.stored; arrived = b.arrived }))
]

tick-Balance :
    (n a : ℕ) (j : JitterBuffer) (r : Popped)
    → Tick j r
    → Balance n a j
    → Balance (n + length (played j.playout_ext r.packet)) a r.after
tick-Balance n a j r (idle k b c s) h = record {
  stored = rw (b, s) (omega (arith, h.stored));
  arrived = rw s h.arrived;
}
tick-Balance n a j r (plays k p b c s here) h = record {
  stored = rw (b, c, s) (omega (arith, h.stored, length-erase j.buf j.playout_ext here));
  arrived = rw s h.arrived;
}
tick-Balance n a j r (loses k b c s gone) h = record {
  stored = rw (b, s) (omega (arith, h.stored));
  arrived = rw s h.arrived;
}

-- The packets that arrive in a run.
abbrev pub arrivals : List Event → ℕ
arrivals [] = 0
arrivals (arrive p ∷ es) = suc (arrivals es)
arrivals (tick ∷ es) = arrivals es

run-Balance :
    (es : List Event) (n a : ℕ) (j : JitterBuffer)
    → Balance n a j
    → Balance (n + length (playout es j)) (a + arrivals es) (run es j)
unfolding run playout
run-Balance [] n a j b = record {
  stored = omega (arith, b.stored);
  arrived = omega (arith, b.arrived);
}
run-Balance (arrive p ∷ es) n a j b =
    let rest = run-Balance es n (a + 1) (insert j p) (insert-Balance n a j p b) in
    record { stored = rest.stored; arrived = omega (arith, rest.arrived) }
run-Balance (tick ∷ es) n a j b =
    let now = played j.playout_ext (pop j).packet in
    let rest =
      run-Balance es (n + length now) a (pop j).after (tick-Balance n a j (pop j) (pop-Tick j) b) in
    record {
      stored = omega (arith, rest.stored, length-append now (playout es (pop j).after));
      arrived = rest.arrived;
    }

-- From an empty buffer, after any run of arrivals and ticks, and up to the wrap of the 64-bit
-- counters: the packets received are those that were played, those still queued and those dropped
-- by overflow, and the packets that arrived are those received and those discarded as late.
pub run-create-Balance :
    (cfg : Config) (es : List Event)
    → Balance (length (playout es (create cfg))) (arrivals es) (run es (create cfg))
run-create-Balance cfg es =
    let b = run-Balance es 0 0 (create cfg) (record { stored = refl; arrived = refl }) in
    record { stored = omega (arith, b.stored); arrived = omega (arith, b.arrived) }
