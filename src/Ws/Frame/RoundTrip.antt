-- ===== src/Ws/Frame/RoundTrip.antt =====
-- The reader of src/ws/WsClient.cpp reads the frames that the client builds.
use native.Mathlib.Nat.{pow-suc}
use mathlib.Core.List.{append_assoc}
use mathlib.Core.Option
use sipdemo.Base.{
  ℕ, zero, suc, ◌/◌, ◌%◌, ◌^◌, ◌≤◌, ◌<◌, ◌≡◌, ◌↔◌, refl, sym, ap, ◌∙◌, true, false, not, ◌&&◌,
  Bool-cases, inl, inr, [], ◌∷◌, ◌++◌, Option, none, some, arith, ltb, ◌==◌, ==_iff, if◌then◌else◌,
  length, length-append, take-append, drop-append, All, bit_and, bit_or, bit_xor,
}
use sipdemo.Base.Bits.{
  shl, shr, u8, all_below, all_below_sound, bit_and-low_mask, bit_or-shl, bit_xor-twice,
  bit_xor-halves,
}
use sipdemo.Rtp.{Bytes}
use sipdemo.Ws.Frame.{
  Mask, key, apply_mask, encode_length, encode_frame, read_exact, big_endian, read_length,
  read_mask, read_payload, read_frame,
}

-- The keys are bytes.
abbrev pub IsKey : Mask → Type 0
IsKey m = (m.key0 < 256) × (m.key1 < 256) × (m.key2 < 256) × (m.key3 < 256)

key-lt : (m : Mask) (i : ℕ) → IsKey m → key m i < 256
key-lt m zero h = h.0
key-lt m (suc zero) h = h.1
key-lt m (suc (suc zero)) h = h.2
key-lt m (suc (suc (suc i))) h = h.3

bit_xor-lt : (k a b : ℕ) → a < 2 ^ k → b < 2 ^ k → bit_xor a b < 2 ^ k
bit_xor-lt zero a b ha hb =
    let a0 : a ≡ 0 = omega arith in let b0 : b ≡ 0 = omega arith in rw (a0, b0) (omega arith)
bit_xor-lt (suc k) a b ha hb = ground (
  arith,
  pow-suc 2 k,
  bit_xor-halves a b,
  bit_xor-lt k (a / 2) (b / 2) (omega (arith, pow-suc 2 k)) (omega (arith, pow-suc 2 k)),
)

apply_mask-twice :
    (m : Mask) (i : ℕ) (bs : Bytes)
    → IsKey m
    → All (λ b. b < 256) bs
    → apply_mask m i (apply_mask m i bs) ≡ bs
unfolding apply_mask
apply_mask-twice m i [] km h = refl
apply_mask-twice m i (b ∷ bs) km h =
    let k = key m (i % 4) in
    let small = bit_xor-lt 8 b k h.0 (key-lt m (i % 4) km) in
    let byte_kept : u8 (bit_xor b k) ≡ bit_xor b k = omega arith in
    let back : u8 (bit_xor (bit_xor b k) k) ≡ b = rw (bit_xor-twice b k) (omega (arith, h.0)) in
    rw (byte_kept, back, apply_mask-twice m (suc i) bs km h.1)

size_table :
    all_below 127 (λ n.
      (bit_and (u8 (bit_or 0x80 n)) 0x7f == n) && not (bit_and (u8 (bit_or 0x80 n)) 0x80 == 0))
    ≡ true
unfolding all_below
size_table = refl

-- The second byte of a frame gives its seven bits back, and that the payload is masked.
size_byte :
    (n : ℕ)
    → n < 127
    → (bit_and (u8 (bit_or 0x80 n)) 0x7f ≡ n)
      × (not (bit_and (u8 (bit_or 0x80 n)) 0x80 == 0) ≡ true)
size_byte n h = let both = all_below_sound 127 _ n h size_table in ground arith

opcode_table : all_below 16 (λ n. bit_and (u8 (bit_or 0x80 (bit_and n 0x0f))) 0x0f == n) ≡ true
unfolding all_below
opcode_table = refl

opcode_byte : (n : ℕ) → n < 16 → bit_and (u8 (bit_or 0x80 (bit_and n 0x0f))) 0x0f ≡ n
opcode_byte n h = (==_iff _ n).0 (all_below_sound 16 _ n h opcode_table)

pub read_exact-append : (xs ys : Bytes) → read_exact (length xs) (xs ++ ys) ≡ some (xs, ys)
unfolding read_exact
read_exact-append xs ys =
    let enough : ltb (length (xs ++ ys)) (length xs) ≡ false =
      ground (arith, length-append xs ys) in
    rw (enough, take-append xs ys, drop-append xs ys)

two_bytes :
    (n : ℕ) → n ≤ 0xffff → big_endian 0 (u8 (bit_and (shr n 8) 0xff) ∷ u8 (bit_and n 0xff) ∷ []) ≡ n
unfolding big_endian
two_bytes n h =
    let high = bit_and-low_mask 8 (shr n 8) in
    let low = bit_and-low_mask 8 n in
    let a : u8 (bit_and (shr n 8) 255) ≡ n / 256 = omega arith in
    let b : u8 (bit_and n 255) ≡ n % 256 = omega arith in
    let c : bit_or 0 (n / 256) ≡ n / 256 = omega (arith, bit_or-shl 8 0 (n / 256) (omega arith)) in
    let d = bit_or-shl 8 (n / 256) (n % 256) (omega arith) in
    let e : shl (n / 256) 8 % 2 ^ 64 ≡ shl (n / 256) 8 = omega arith in
    rw (a, b, c, e, d) (omega arith)

-- The bytes that follow the second one: the length of a payload that is not short.
more_length : ℕ → Bytes
more_length n = if ltb n 126 then [] else u8 (bit_and (shr n 8) 0xff) ∷ u8 (bit_and n 0xff) ∷ []

short_length : ℕ → ℕ
short_length n = if ltb n 126 then n else 126

encode_length-split :
    (n : ℕ)
    → n ≤ 0xffff
    → encode_length n ≡ some (u8 (bit_or 0x80 (short_length n)) ∷ more_length n)
unfolding encode_length short_length more_length
encode_length-split n h = ground arith

read_length-more :
    (n : ℕ) (rest : Bytes)
    → n ≤ 0xffff
    → read_length (short_length n) (more_length n ++ rest) ≡ some (n, rest)
unfolding short_length more_length read_length
read_length-more n rest h = elim (Bool-cases (ltb n 126)) [
  | inl short ↦
      let a : n == 126 ≡ false = ground arith in
      let b : n == 127 ≡ false = ground arith in rw (short, a, b)
  | inr long ↦
      let ext = u8 (bit_and (shr n 8) 0xff) ∷ u8 (bit_and n 0xff) ∷ [] in
      rw (long, read_exact-append ext rest, two_bytes n h)
]

short_length-lt : (n : ℕ) → short_length n < 127
unfolding short_length
short_length-lt n = ground arith

length-apply_mask : (m : Mask) (i : ℕ) (bs : Bytes) → length (apply_mask m i bs) ≡ length bs
unfolding apply_mask
length-apply_mask m i [] = refl
length-apply_mask m i (b ∷ bs) = ap suc (length-apply_mask m (suc i) bs)

-- The frame for a payload of at most 65535 bytes, its parts named.
encode_frame-split :
    (opcode : ℕ) (m : Mask) (payload : Bytes)
    → length payload ≤ 0xffff
    → encode_frame opcode m payload
      ≡ some (
          u8 (bit_or 0x80 (bit_and opcode 0x0f))
          ∷ u8 (bit_or 0x80 (short_length (length payload)))
          ∷ (more_length (length payload)
              ++ (m.key0 ∷ m.key1 ∷ m.key2 ∷ m.key3 ∷ apply_mask m 0 payload)))
unfolding encode_frame
encode_frame-split opcode m payload h = rw (encode_length-split (length payload) h, encode_frame)

-- A payload above 65535 bytes gives no frame, and only such a one.
pub encode_frame-none :
    (opcode : ℕ) (m : Mask) (payload : Bytes)
    → (encode_frame opcode m payload ≡ none) ↔ (65535 < length payload)
unfolding encode_frame encode_length
encode_frame-none opcode m payload = ground arith

read_payload-masked :
    (m : Mask) (opcode : ℕ) (payload rest : Bytes)
    → IsKey m
    → All (λ b. b < 256) payload
    → length payload ≤ 0xffff
    → read_payload true m opcode (length payload) (apply_mask m 0 payload ++ rest)
      ≡ some (record { opcode = opcode; payload = payload }, rest)
unfolding read_payload
read_payload-masked m opcode payload rest km bytes h =
    let small : ltb (2 ^ 20) (length payload) ≡ false = ground arith in
    let sent = apply_mask m 0 payload in
    let taken : read_exact (length payload) (sent ++ rest) ≡ some (sent, rest) =
      rw (← length-apply_mask m 0 payload) (read_exact-append sent rest) in
    rw (small, taken, apply_mask-twice m 0 payload km bytes)

-- Whatever comes behind it, the reader takes a frame that the client has built for a four-bit opcode
-- apart into its opcode and its payload, and leaves what comes behind.
pub read_frame-encode_frame :
    (opcode : ℕ) (m : Mask) (payload frame rest : Bytes)
    → opcode < 16
    → IsKey m
    → All (λ b. b < 256) payload
    → encode_frame opcode m payload ≡ some frame
    → read_frame (frame ++ rest) ≡ some (record { opcode = opcode; payload = payload }, rest)
unfolding read_frame read_mask
read_frame-encode_frame opcode m payload frame rest four_bits km bytes built =
    let n = length payload in
    let fits : n ≤ 0xffff = elim (Bool-cases (ltb 65535 n)) [
      | inr low ↦ ground arith
      | inl high ↦ absurd (let gone = (encode_frame-none opcode m payload).1 (ground arith) in cc)
    ] in
    let whole = encode_frame-split opcode m payload fits in
    let same = ap (λ (o : Option Bytes). Option.get_or o []) (sym built ∙ whole) in
    let (size, masked) = size_byte (short_length n) (short_length-lt n) in
    let tail = m.key0 ∷ m.key1 ∷ m.key2 ∷ m.key3 ∷ (apply_mask m 0 payload ++ rest) in
    let regroup =
      append_assoc (more_length n) (m.key0 ∷ m.key1 ∷ m.key2 ∷ m.key3 ∷ apply_mask m 0 payload)
        rest in
    rw (same, regroup, opcode_byte opcode four_bits, size, masked, read_length-more n tail fits)
      (read_payload-masked m opcode payload rest km bytes fits)
