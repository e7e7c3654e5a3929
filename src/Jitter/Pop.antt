-- ===== src/Jitter/Pop.antt =====
-- `JitterBuffer::pop` (src/jitter/JitterBuffer.cpp): its branches, and it keeps the invariant.
use sipdemo.Base.{
  ◌≤◌, ◌<◌, ◌≡◌, refl, true, false, Bool-cases, Option-cases, inl, inr, List, [], ◌∷◌, none, some,
  arith, ltb, length,
}
use sipdemo.Base.Int.{ℤ, pos, ◌+ℤ◌, ◌≤ℤ◌, ◌<ℤ◌, eqb_ℤ, unsigned, int_laws}
use sipdemo.Rtp.{RtpPacket}
use sipdemo.Jitter.{
  Config, Entry, JitterBuffer, create, find, erase, nothing, taken, passed, pop_next, pop_primed,
  pop,
}
use sipdemo.Jitter.Invariant.{Ascending, Queued, IsValid, full_started}

-- A key below the first one is not found.
find_below : (lo ext : ℤ) (es : List Entry) → Ascending lo es → ext <ℤ lo → find es ext ≡ none
unfolding find
find_below lo ext [] a h = refl
find_below lo ext ((k, x) ∷ es) a h =
    let other : eqb_ℤ k ext ≡ false = ground (arith, a.0) in
    rw other (find_below (k +ℤ pos 1) ext es a.1 (omega (int_laws, a.0)))

-- Taking the entry at the cursor leaves a queue behind it.
pub erase-Queued :
    (lo hi : ℤ) (es : List Entry) {p : RtpPacket}
    → Queued lo hi es
    → find es lo ≡ some p
    → Queued (lo +ℤ pos 1) hi (erase es lo) × (unsigned 16 lo ≡ p.sequence) × (lo ≤ℤ hi)
unfolding find erase
erase-Queued lo hi [] q e = cc
erase-Queued lo hi ((k, x) ∷ es) q e = elim (Bool-cases (eqb_ℤ k lo)) [
  | inl same ↦
      let k≡lo : k ≡ lo = ground arith in
      let x≡p = rw same at e in
      rw same (
        rw (← k≡lo) (
          record { ascending = q.ascending.1; up_to = q.up_to.1; filed = q.filed.1 },
          ground (arith, q.filed.0, x≡p),
          q.up_to.0,
        ))
  | inr other ↦
      let first : lo ≤ℤ k = q.ascending.0 in
      let gone : find es lo ≡ none = find_below (k +ℤ pos 1) lo es q.ascending.1 (omega int_laws) in
      absurd (let there = rw other at e in cc)
]

-- A cursor with no entry is passed.
find-none-Ascending :
    (lo : ℤ) (es : List Entry) → Ascending lo es → find es lo ≡ none → Ascending (lo +ℤ pos 1) es
unfolding find
find-none-Ascending lo [] a e = tt
find-none-Ascending lo ((k, x) ∷ es) a e = elim (Bool-cases (eqb_ℤ k lo)) [
  | inl same ↦ absurd (let there = rw same at e in cc)
  | inr other ↦
      let first : lo ≤ℤ k = a.0 in let after : lo <ℤ k = ground arith in (omega int_laws, a.1)
]

length-erase-le : (es : List Entry) (k : ℤ) → length (erase es k) ≤ length es
unfolding erase
length-erase-le [] k = omega arith
length-erase-le ((i, p) ∷ es) k = ground (arith, length-erase-le es k)

-- The two results of `pop_next`, and the branches of `pop`.
pub pop_next_found :
    (j : JitterBuffer) {p : RtpPacket} → find j.buf j.playout_ext ≡ some p → pop_next j ≡ taken p j
unfolding pop_next
pop_next_found j e = rw (e, pop_next)

pub pop_next_missing : (j : JitterBuffer) → find j.buf j.playout_ext ≡ none → pop_next j ≡ passed j
unfolding pop_next
pop_next_missing j e = rw (e, pop_next)

pub pop_idle : (j : JitterBuffer) → j.started ≡ false → pop j ≡ nothing j
unfolding pop
pop_idle j off = ground arith

pub pop_ready : (j : JitterBuffer) → j.started ≡ true → j.primed ≡ true → pop j ≡ pop_primed j.buf j
unfolding pop
pop_ready j on ready = ground arith

pub pop_shallow :
    (j : JitterBuffer)
    → j.started ≡ true
    → j.primed ≡ false
    → length j.buf < (j.cfg).target_depth
    → pop j ≡ nothing j
unfolding pop
pop_shallow j on not_ready shallow = ground arith

pub pop_deep :
    (j : JitterBuffer)
    → j.started ≡ true
    → j.primed ≡ false
    → (j.cfg).target_depth ≤ length j.buf
    → pop j ≡ pop_primed j.buf (record j { primed = true })
unfolding pop
pop_deep j on not_ready deep = ground arith

pop_next-IsValid :
    (j : JitterBuffer) (e : Entry) (es : List Entry)
    → j.buf ≡ e ∷ es
    → IsValid j
    → IsValid (pop_next j).after
unfolding pop_next
pop_next-IsValid j e es full v = elim (Option-cases (find j.buf j.playout_ext)) [
  | inr (p, here) ↦
      let (q, _, below) = erase-Queued j.playout_ext j.highest_ext j.buf v.queued here in
      rw (pop_next_found j here) (record {
        queued = q;
        cursor_near = omega int_laws;
        within = omega (arith, length-erase-le j.buf j.playout_ext, v.within);
        idle = inl (full_started v full);
      })
  | inl gone ↦
      let q = v.queued in
      let first = rw full at q.ascending in
      let top = rw full at q.up_to in
      rw (pop_next_missing j gone) (record {
        queued = record {
          ascending = find-none-Ascending j.playout_ext j.buf q.ascending gone;
          up_to = q.up_to;
          filed = q.filed;
        };
        cursor_near = omega (int_laws, first.0, top.0);
        within = v.within;
        idle = inl (full_started v full);
      })
]

pop_primed-IsValid :
    (es : List Entry) (j : JitterBuffer) → j.buf ≡ es → IsValid j → IsValid (pop_primed es j).after
unfolding pop_primed
pop_primed-IsValid [] j e v = v
pop_primed-IsValid (x ∷ es) j e v = pop_next-IsValid j x es e v

prime-IsValid : (j : JitterBuffer) → IsValid j → IsValid (record j { primed = true })
prime-IsValid j v = record {
  queued = v.queued;
  cursor_near = v.cursor_near;
  within = v.within;
  idle = v.idle;
}

-- Taking a packet for playout keeps the invariant.
pub pop-IsValid : (j : JitterBuffer) → IsValid j → IsValid (pop j).after
pop-IsValid j v = elim (Bool-cases j.started) [
  | inr off ↦ rw (pop_idle j off) v
  | inl on ↦ elim (Bool-cases j.primed) [
    | inl ready ↦ rw (pop_ready j on ready) (pop_primed-IsValid j.buf j refl v)
    | inr not_ready ↦ elim (Bool-cases (ltb (length j.buf) (j.cfg).target_depth)) [
      | inl shallow ↦ rw (pop_shallow j on not_ready (ground arith)) v
      | inr deep ↦
          rw (pop_deep j on not_ready (ground arith))
            (pop_primed-IsValid j.buf (record j { primed = true }) refl (prime-IsValid j v))
    ]
  ]
]

-- A fresh buffer, and one that was reset, is valid.
pub create-IsValid : (cfg : Config) → IsValid (create cfg)
create-IsValid cfg = record {
  queued = record { ascending = tt; up_to = tt; filed = tt };
  cursor_near = omega int_laws;
  within = omega arith;
  idle = inr (refl, refl);
}
