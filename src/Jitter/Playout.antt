-- ===== src/Jitter/Playout.antt =====
-- A run of the jitter buffer (src/jitter/JitterBuffer.cpp): packets arrive and the playout clock
-- ticks, in any order. What is played comes in sequence order.
use sipdemo.Base.{
  ℕ, ◌<◌, ◌≡◌, refl, ap, true, Bool-cases, Option-cases, inl, inr, List, [], ◌∷◌, ◌++◌, Option,
  none, some, arith, ltb, if◌then◌else◌, length,
}
use sipdemo.Base.Int.{ℤ, pos, pos_part, neg_part, ◌+ℤ◌, ◌≤ℤ◌, ltb_ℤ, int_laws}
use sipdemo.Rtp.{RtpPacket}
use sipdemo.Jitter.{
  Config, Entry, JitterBuffer, create, inc64, extend, emplace, find, trim, accept, insert_at,
  insert, Popped, nothing, taken, passed, pop_primed, pop,
}
use sipdemo.Jitter.Invariant.{Ascending, Ascending-le, Filed, IsValid, idle_start}
use sipdemo.Jitter.Insert.{insert-IsValid}
use sipdemo.Jitter.Pop.{
  pop-IsValid, create-IsValid, erase-Queued, pop_next_found, pop_next_missing, pop_idle, pop_ready,
  pop_shallow, pop_deep,
}

pub data Event : Type 0 where
  arrive : RtpPacket → Event
  tick : Event

-- The packet that a tick plays, under the number of its slot.
abbrev pub played : ℤ → Option RtpPacket → List Entry
played slot none = []
played slot (some p) = (slot, p) ∷ []

unfoldable pub playout : List Event → JitterBuffer → List Entry
playout [] j = []
playout (arrive p ∷ es) j = playout es (insert j p)
playout (tick ∷ es) j = played j.playout_ext (pop j).packet ++ playout es (pop j).after

unfoldable pub run : List Event → JitterBuffer → JitterBuffer
run [] j = j
run (arrive p ∷ es) j = run es (insert j p)
run (tick ∷ es) j = run es (pop j).after

-- Every packet that arrives has a 16-bit sequence number.
abbrev pub AreWords : List Event → Type 0
AreWords [] = Unit
AreWords (arrive p ∷ es) = (p.sequence < 65536) × AreWords es
AreWords (tick ∷ es) = AreWords es

pub run-IsValid :
    (es : List Event) (j : JitterBuffer) → AreWords es → IsValid j → IsValid (run es j)
unfolding run
run-IsValid [] j w v = v
run-IsValid (arrive p ∷ es) j w v = run-IsValid es (insert j p) w.1 (insert-IsValid j p w.0 v)
run-IsValid (tick ∷ es) j w v = run-IsValid es (pop j).after w (pop-IsValid j v)

-- The cursor does not go back.
trim_cursor : (capacity : ℕ) (es : List Entry) (c : ℤ) (d : ℕ) → c ≤ℤ (trim capacity es c d).cursor
unfolding trim
trim_cursor capacity [] c d = omega arith
trim_cursor capacity ((k, p) ∷ es) c d =
    let next : ℤ = if ltb_ℤ k c then c else k +ℤ pos 1 in
    let ih = trim_cursor capacity es next (inc64 d) in
    let further : c ≤ℤ next = elim (Bool-cases (ltb_ℤ k c)) [
      | inl behind ↦ rw behind (omega arith)
      | inr ahead ↦ let le : c ≤ℤ k = ground arith in rw ahead (omega int_laws)
    ] in
    elim (Bool-cases (ltb capacity (length ((k, p) ∷ es)))) [
      | inl over ↦ rw over (omega (arith, ih, further))
      | inr fits ↦ rw fits (omega arith)
    ]

insert_at_cursor :
    (j : JitterBuffer) (ext : ℤ) (p : RtpPacket) → j.playout_ext ≤ℤ (insert_at j ext p).playout_ext
unfolding insert_at accept
insert_at_cursor j ext p = ground (
  arith,
  trim_cursor (j.cfg).capacity (emplace ext p j.buf) j.playout_ext (j.counters).overflow_dropped,
)

pub insert_cursor :
    (j : JitterBuffer) (p : RtpPacket) → IsValid j → j.playout_ext ≤ℤ (insert j p).playout_ext
unfolding insert
insert_cursor j p v = elim (Bool-cases j.started) [
  | inl on ↦ simp on (insert_at_cursor j (extend p.sequence j.highest_ext) p)
  | inr off ↦
      let fresh = record j {
        started = true;
        highest_ext = pos p.sequence;
        playout_ext = pos p.sequence;
      } in
      let start = (idle_start v off).1 in
      simp off (
        omega
          (arith, ap pos_part start, ap neg_part start, insert_at_cursor fresh (pos p.sequence) p))
]

-- What one tick does: nothing, or a packet or a loss at the cursor, which moves by one.
pub data Tick (j : JitterBuffer) : Popped → Type 0 where
  idle :
      (k : JitterBuffer)
      → k.buf ≡ j.buf
      → k.playout_ext ≡ j.playout_ext
      → k.counters ≡ j.counters
      → Tick j (nothing k)
  plays :
      (k : JitterBuffer) (p : RtpPacket)
      → k.buf ≡ j.buf
      → k.playout_ext ≡ j.playout_ext
      → k.counters ≡ j.counters
      → find j.buf j.playout_ext ≡ some p
      → Tick j (taken p k)
  loses :
      (k : JitterBuffer)
      → k.buf ≡ j.buf
      → k.playout_ext ≡ j.playout_ext
      → k.counters ≡ j.counters
      → find j.buf j.playout_ext ≡ none
      → Tick j (passed k)

pop_primed-Tick :
    (es : List Entry) (j k : JitterBuffer)
    → k.buf ≡ j.buf
    → k.playout_ext ≡ j.playout_ext
    → k.counters ≡ j.counters
    → Tick j (pop_primed es k)
unfolding pop_primed
pop_primed-Tick [] j k b c s = idle k b c s
pop_primed-Tick (e ∷ es) j k b c s = elim (Option-cases (find k.buf k.playout_ext)) [
  | inl gone ↦ rw (pop_next_missing k gone) (loses k b c s (rw (b, c) at gone))
  | inr (p, here) ↦ rw (pop_next_found k here) (plays k p b c s (rw (b, c) at here))
]

pub pop-Tick : (j : JitterBuffer) → Tick j (pop j)
pop-Tick j = elim (Bool-cases j.started) [
  | inr off ↦ rw (pop_idle j off) (idle j refl refl refl)
  | inl on ↦ elim (Bool-cases j.primed) [
    | inl ready ↦ rw (pop_ready j on ready) (pop_primed-Tick j.buf j j refl refl refl)
    | inr not_ready ↦ elim (Bool-cases (ltb (length j.buf) (j.cfg).target_depth)) [
      | inl shallow ↦ rw (pop_shallow j on not_ready (ground arith)) (idle j refl refl refl)
      | inr deep ↦
          rw (pop_deep j on not_ready (ground arith))
            (pop_primed-Tick j.buf j (record j { primed = true }) refl refl refl)
    ]
  ]
]

-- The packets of a run are played at rising slots, each one no lower than the cursor.
playout-Queued :
    (es : List Event) (j : JitterBuffer)
    → AreWords es
    → IsValid j
    → Ascending j.playout_ext (playout es j) × Filed (playout es j)
unfolding playout
playout-Queued [] j w v = (tt, tt)
playout-Queued (arrive p ∷ es) j w v =
    let (rising, filed) = playout-Queued es (insert j p) w.1 (insert-IsValid j p w.0 v) in
    (Ascending-le _ j.playout_ext (playout es (insert j p)) (insert_cursor j p v) rising, filed)
playout-Queued (tick ∷ es) j w v =
    let (rising, filed) = playout-Queued es (pop j).after w (pop-IsValid j v) in
    after_tick (playout es (pop j).after) (pop j) (pop-Tick j) v rising filed
  where
    after_tick :
        (rest : List Entry) (r : Popped)
        → Tick j r
        → IsValid j
        → Ascending (r.after).playout_ext rest
        → Filed rest
        → Ascending j.playout_ext (played j.playout_ext r.packet ++ rest)
          × Filed (played j.playout_ext r.packet ++ rest)
    after_tick rest r (idle k b c s) v a f = (rw (← c) a, f)
    after_tick rest r (plays k p b c s here) v a f =
        let (_, bits, _) = erase-Queued j.playout_ext j.highest_ext j.buf v.queued here in
        ((omega arith, rw c at a), (bits, f))
    after_tick rest r (loses k b c s gone) v a f =
        (Ascending-le (j.playout_ext +ℤ pos 1) j.playout_ext rest (omega int_laws) (rw c at a), f)

-- From an empty buffer, whatever packets with 16-bit sequence numbers arrive and in whatever order
-- with the ticks, the packets that are played stand at strictly rising slots, so that none is
-- played twice or behind a later one, and the sequence number of each is the low 16 bits of its slot.
pub playout_in_order :
    (cfg : Config) (es : List Event)
    → AreWords es
    → Ascending (pos 0) (playout es (create cfg)) × Filed (playout es (create cfg))
playout_in_order cfg es w = playout-Queued es (create cfg) w (create-IsValid cfg)

-- After any such run the buffer is valid: its keys rise from the cursor on, lie at or below the
-- highest number seen and match the sequence numbers, and it holds no more than its capacity.
pub run-create-IsValid :
    (cfg : Config) (es : List Event) → AreWords es → IsValid (run es (create cfg))
run-create-IsValid cfg es w = run-IsValid es (create cfg) w (create-IsValid cfg)
