-- ===== src/Ws/Frame.antt =====
-- Frames (src/ws/WsClient.cpp): the ones that `sendFrameUnlocked` builds, and how `readerLoop` reads
-- one. The masking key, which comes of the system's random device, is a parameter.
pub mod RoundTrip
pub mod Server
pub mod Progress
use mathlib.Core.Option
use sipdemo.Base.{
  ℕ, zero, suc, ◌+◌, ◌-◌, ◌*◌, ◌%◌, ◌^◌, Bool, true, false, not, List, [], ◌∷◌, ◌++◌, Option, none,
  some, ltb, leb, ◌==◌, if◌then◌else◌, length, take, drop, bit_and, bit_or, bit_xor,
}
use sipdemo.Base.Bits.{shl, shr, u8}
use sipdemo.Rtp.{Bytes}

-- `uint8_t mask[4]`.
pub record Mask : Type 0 where
  pub key0 : ℕ
  pub key1 : ℕ
  pub key2 : ℕ
  pub key3 : ℕ

abbrev pub no_mask : Mask
no_mask = record { key0 = 0; key1 = 0; key2 = 0; key3 = 0 }

-- `mask[i]`, for i below 4.
abbrev pub key : Mask → ℕ → ℕ
key m zero = m.key0
key m (suc zero) = m.key1
key m (suc (suc zero)) = m.key2
key m (suc (suc (suc i))) = m.key3

-- The masking loop, at index `i`.
pub apply_mask : Mask → ℕ → Bytes → Bytes
apply_mask m i [] = []
apply_mask m i (b ∷ bs) = u8 (bit_xor b (key m (i % 4))) ∷ apply_mask m (suc i) bs

-- The length bytes of a frame; a payload above 65535 bytes is refused.
pub encode_length : ℕ → Option Bytes
encode_length len =
    if ltb len 126
    then some (u8 (bit_or 0x80 len) ∷ [])
    else if leb len 0xffff
    then some (u8 (bit_or 0x80 126) ∷ u8 (bit_and (shr len 8) 0xff) ∷ u8 (bit_and len 0xff) ∷ [])
    else none

-- The frame that `sendFrameUnlocked` sends.
unfoldable pub encode_frame : ℕ → Mask → Bytes → Option Bytes
unfolding encode_length apply_mask
encode_frame opcode m payload = elim (encode_length (length payload)) [
  | none ↦ none
  | some len ↦ some (
      u8 (bit_or 0x80 (bit_and opcode 0x0f))
      ∷ (len ++ (m.key0 ∷ m.key1 ∷ m.key2 ∷ m.key3 ∷ apply_mask m 0 payload)))
]

infixl 5 ◌>>=◌
abbrev pub ◌>>=◌ {ℓ κ} : {A : Type ℓ} {B : Type κ} → Option A → (A → Option B) → Option B
none >>= f = none
some a >>= f = f a

-- `readExact`: `bytes` is what the socket gives before it ends, fails or is stopped.
pub read_exact : ℕ → Bytes → Option (Bytes × Bytes)
read_exact n bytes = if ltb (length bytes) n then none else some (take n bytes, drop n bytes)

-- The loop over the eight length bytes.
pub big_endian : ℕ → Bytes → ℕ
big_endian n [] = n
big_endian n (b ∷ bs) = big_endian (bit_or (shl n 8 % 2 ^ 64) b) bs

-- The payload's length, by the low seven bits of the second byte.
pub read_length : ℕ → Bytes → Option (ℕ × Bytes)
read_length short bytes =
    if short == 126
    then (read_exact 2 bytes >>= λ r. some (big_endian 0 r.0, r.1))
    else if short == 127
    then (read_exact 8 bytes >>= λ r. some (big_endian 0 r.0, r.1))
    else some (short, bytes)

pub read_mask : Bool → Bytes → Option (Mask × Bytes)
read_mask true (a ∷ b ∷ c ∷ d ∷ bytes) =
    some (record { key0 = a; key1 = b; key2 = c; key3 = d }, bytes)
read_mask true _ = none
read_mask false bytes = some (no_mask, bytes)

-- A frame as the reader takes it.
pub record Frame : Type 0 where
  pub opcode : ℕ
  pub payload : Bytes

pub read_payload : Bool → Mask → ℕ → ℕ → Bytes → Option (Frame × Bytes)
read_payload masked m opcode len bytes =
    if ltb (2 ^ 20) len
    then none
    else (read_exact len bytes >>= λ r.
        some
          (record { opcode = opcode; payload = if masked then apply_mask m 0 r.0 else r.0 }, r.1))

-- One round of the reader up to the payload, and the bytes behind it; `none` ends the reader.
unfoldable pub read_frame : Bytes → Option (Frame × Bytes)
unfolding read_length read_mask read_payload read_exact apply_mask big_endian
read_frame (h0 ∷ h1 ∷ bytes) = do
  let masked = not (bit_and h1 0x80 == 0)
  sized ← read_length (bit_and h1 0x7f) bytes
  keyed ← read_mask masked sized.1
  read_payload masked keyed.0 (bit_and h0 0x0f) sized.0 keyed.1
read_frame _ = none
