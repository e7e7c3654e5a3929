-- ===== src/Rtp/Safety.antt =====
-- Memory safety of `RtpPacket::parse` (src/rtp/RtpPacket.cpp): its guards cover each of its reads.
use sipdemo.Base.{
  ℕ, zero, suc, ◌+◌, ◌-◌, ◌*◌, ◌^◌, ◌≤◌, ◌<◌, ◌≡◌, ◌≢◌, ◌⊎◌, inl, inr, refl, Bool, true, false,
  ◌||◌, List, [], ◌∷◌, arith, ltb, ◌==◌, length, get_elem?-lt, Bool-cases, bit_and, bit_or,
}
use sipdemo.Base.Bits.{shl, shr, u16, u32}
use sipdemo.Rtp.{
  Bytes, fault, nullopt, value, byte, rd16, rd32, parse_csrc, skip_extension, payload_end, assign,
  parse, flag,
}

pub byte-lt : (buf : Bytes) (i : ℕ) → i < length buf → (b : ℕ) × (byte buf i ≡ value b)
unfolding byte
byte-lt buf i h = let (b, e) = get_elem?-lt buf i h in (b, rw (e, byte))

pub rd16-le :
    (buf : Bytes) (k : ℕ) → k + 2 ≤ length buf → (x : ℕ) × (rd16 buf k ≡ value x) × (x < 2 ^ 16)
unfolding rd16
rd16-le buf k h =
    let (a, ea) = byte-lt buf k (omega arith) in
    let (b, eb) = byte-lt buf (k + 1) (omega arith) in
    (u16 (bit_or (shl a 8) b), rw (ea, eb), omega arith)

pub rd32-le : (buf : Bytes) (k : ℕ) → k + 4 ≤ length buf → (x : ℕ) × (rd32 buf k ≡ value x)
unfolding rd32
rd32-le buf k h =
    let (a, ea) = byte-lt buf k (omega arith) in
    let (b, eb) = byte-lt buf (k + 1) (omega arith) in
    let (c, ec) = byte-lt buf (k + 2) (omega arith) in
    let (d, ed) = byte-lt buf (k + 3) (omega arith) in
    (u32 (bit_or (bit_or (bit_or (shl a 24) (shl b 16)) (shl c 8)) d), rw (ea, eb, ec, ed))

pub parse_csrc-le :
    (n : ℕ) (buf : Bytes) (offset : ℕ)
    → offset + n * 4 ≤ length buf
    → (xs : List ℕ) × (parse_csrc n buf offset ≡ value xs) × (length xs ≡ n)
unfolding parse_csrc
parse_csrc-le zero buf offset h = ([], refl, refl)
parse_csrc-le (suc n) buf offset h =
    let (x, ex) = rd32-le buf offset (omega arith) in
    let (xs, exs, len) = parse_csrc-le n buf (offset + 4) (omega arith) in
    (x ∷ xs, rw (ex, exs), omega (arith, len))

-- Either the extension is cut short, or the offset behind it is in the buffer.
pub skip_extension_cases :
    (x : Bool) (buf : Bytes) (offset : ℕ)
    → offset ≤ length buf
    → (skip_extension x buf offset ≡ nullopt)
      ⊎ ((o : ℕ) × (skip_extension x buf offset ≡ value o) × (offset ≤ o) × (o ≤ length buf))
unfolding skip_extension
skip_extension_cases false buf offset h = inr (offset, refl, omega arith, h)
skip_extension_cases true buf offset h = elim (Bool-cases (ltb (length buf) (offset + 4))) [
  | inl short ↦ inl (rw short)
  | inr room ↦
      let (w, ew, _) = rd16-le buf (offset + 2) (ground arith) in
      elim (Bool-cases (ltb (length buf) (offset + (4 + w * 4)))) [
        | inl short ↦ inl (rw (room, ew, short))
        | inr fits ↦ inr (offset + (4 + w * 4), rw (room, ew, fits), omega arith, ground arith)
      ]
]

-- Either the padding count is wrong, or the payload's end is in the buffer, behind its start.
pub payload_end_cases :
    (x : Bool) (buf : Bytes) (offset : ℕ)
    → offset ≤ length buf
    → 0 < length buf
    → (payload_end x buf offset ≡ nullopt)
      ⊎ ((e : ℕ) × (payload_end x buf offset ≡ value e) × (offset ≤ e) × (e ≤ length buf))
unfolding payload_end
payload_end_cases false buf offset h pos = inr (length buf, refl, h, omega arith)
payload_end_cases true buf offset h pos =
    let (b, eb) = byte-lt buf (length buf - 1) (omega arith) in
    elim (Bool-cases (b == 0 || ltb (length buf - offset) b)) [
      | inl bad ↦ inl (rw (eb, bad))
      | inr good ↦ inr (length buf - b, rw (eb, good), ground arith, ground arith)
    ]

-- The part of `parse` behind the guard on the CSRC list.
parse-ne-fault_long : (buf : Bytes) → 12 ≤ length buf → parse buf ≢ fault
unfolding parse
parse-ne-fault_long buf long =
    let (b0, e0) = byte-lt buf 0 (omega arith) in
    let (b1, e1) = byte-lt buf 1 (omega arith) in
    let (s, es, _) = rd16-le buf 2 (omega arith) in
    let (t, et) = rd32-le buf 4 (omega arith) in
    let (r, er) = rd32-le buf 8 (omega arith) in
    let enough : ltb (length buf) 12 ≡ false = ground arith in
    rw (enough, e0)
      (elim (Bool-cases (bit_and (shr b0 6) 0x03 == 2)) [
        | inr bad ↦ rw bad (λ h. cc)
        | inl two ↦ elim (Bool-cases (ltb (length buf) (12 + bit_and b0 0x0f * 4))) [
          | inl short ↦ rw (two, e1, es, et, er, short) (λ h. cc)
          | inr room ↦
              let (xs, exs, _) = parse_csrc-le (bit_and b0 0x0f) buf 12 (ground arith) in
              rw (two, e1, es, et, er, room, exs)
                (elim (skip_extension_cases (flag b0 4) buf (12 + bit_and b0 0x0f * 4)
                  (ground arith)) [
                    | inl cut ↦ rw cut (λ h. cc)
                    | inr (o, eo, lo, hi) ↦
                        rw eo (elim (payload_end_cases (flag b0 5) buf o hi (omega arith)) [
                          | inl cut ↦ rw cut (λ h. cc)
                          | inr (e, ee, lo', hi') ↦ rw ee (unfold assign in ground arith)
                        ])
                  ])
        ]
      ])

-- Whatever the datagram, `parse` reads no byte outside it.
pub parse-ne-fault : (buf : Bytes) → parse buf ≢ fault
parse-ne-fault buf = elim (Bool-cases (ltb (length buf) 12)) [
  | inl short ↦ unfold parse in rw short (λ h. cc)
  | inr long ↦ parse-ne-fault_long buf (ground arith)
]
