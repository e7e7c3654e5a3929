-- ===== src/Jitter/Insert.antt =====
-- `JitterBuffer::insert` (src/jitter/JitterBuffer.cpp) keeps the invariant.
use sipdemo.Base.{◌<◌, ◌≡◌, refl, true, Bool-cases, inl, inr, arith, if◌then◌else◌}
use sipdemo.Base.Int.{ℤ, pos, ◌+ℤ◌, ◌≤ℤ◌, ltb_ℤ, unsigned, int_laws}
use sipdemo.Rtp.{RtpPacket}
use sipdemo.Jitter.{JitterBuffer, extend, count, emplace, accept, insert_at, insert}
use sipdemo.Jitter.Extend.{extend_lem}
use sipdemo.Jitter.Invariant.{UpTo-le, Queued, IsValid, idle_start, emplace-Queued, trim-IsTrimmed}

accept-IsValid :
    (j : JitterBuffer) (ext : ℤ) (pkt : RtpPacket)
    → j.started ≡ true
    → j.playout_ext ≤ℤ ext
    → unsigned 16 ext ≡ pkt.sequence
    → IsValid j
    → IsValid (accept j ext pkt)
unfolding accept
accept-IsValid j ext pkt on ahead bits v =
    let top : ℤ = if ltb_ℤ j.highest_ext ext then ext else j.highest_ext in
    let above : ext ≤ℤ top = ground arith in
    let grows : j.highest_ext ≤ℤ top = ground arith in
    let q = v.queued in
    let wide : Queued j.playout_ext top j.buf = record {
      ascending = q.ascending;
      up_to = UpTo-le j.highest_ext top j.buf grows q.up_to;
      filed = q.filed;
    } in
    let near : j.playout_ext ≤ℤ top +ℤ pos 1 = omega (int_laws, v.cursor_near) in
    let t =
      trim-IsTrimmed (j.cfg).capacity (emplace ext pkt j.buf) j.playout_ext top
        (j.counters).overflow_dropped
        (emplace-Queued j.playout_ext top ext pkt j.buf ahead above bits wide) near in
    record { queued = t.queued; cursor_near = t.near; within = t.within; idle = inl on }

insert_at-IsValid :
    (j : JitterBuffer) (ext : ℤ) (pkt : RtpPacket)
    → j.started ≡ true
    → unsigned 16 ext ≡ pkt.sequence
    → IsValid j
    → IsValid (insert_at j ext pkt)
unfolding insert_at
insert_at-IsValid j ext pkt on bits v = elim (Bool-cases (ltb_ℤ ext j.playout_ext)) [
  | inl behind ↦
      rw behind (record {
        queued = v.queued;
        cursor_near = v.cursor_near;
        within = v.within;
        idle = v.idle;
      })
  | inr ahead ↦ elim (Bool-cases (count j.buf ext)) [
    | inl there ↦
        rw (ahead, there)
          (record {
            queued = v.queued;
            cursor_near = v.cursor_near;
            within = v.within;
            idle = v.idle;
          })
    | inr new ↦ rw (ahead, new) (accept-IsValid j ext pkt on (ground arith) bits v)
  ]
]

-- Inserting a packet keeps the invariant.
pub insert-IsValid :
    (j : JitterBuffer) (pkt : RtpPacket) → pkt.sequence < 65536 → IsValid j → IsValid (insert j pkt)
unfolding insert
insert-IsValid j pkt fits v = elim (Bool-cases j.started) [
  | inl on ↦ simp on (
      insert_at-IsValid j (extend pkt.sequence j.highest_ext) pkt on
        (extend_lem pkt.sequence j.highest_ext fits).0 v)
  | inr off ↦
      let none_yet = (idle_start v off).0 in
      simp off (
        insert_at-IsValid
          (record j {
            started = true;
            highest_ext = pos pkt.sequence;
            playout_ext = pos pkt.sequence;
          })
          (pos pkt.sequence) pkt refl (unfold unsigned in omega arith)
          (record {
            queued = rw none_yet (record { ascending = tt; up_to = tt; filed = tt });
            cursor_near = omega int_laws;
            within = v.within;
            idle = inl refl;
          }))
]
