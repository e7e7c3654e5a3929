-- ===== src/Rtp.antt =====
-- include/sipdemo/RtpPacket.h and src/rtp/RtpPacket.cpp: the RTP packet, its parser and its
-- serializer, and the 16-bit sequence-number comparisons. A buffer is the list of its bytes, so
-- `len` is its length; a read goes through `byte`, which faults where C++ would read out of range.
-- A `uint8_t`, `uint16_t` or `uint32_t` is a number, and each cast to one is written out.
pub mod Sequence
pub mod Safety
pub mod RoundTrip
pub mod Extension
pub mod Bounds
use sipdemo.Base.{
  ℕ, zero, suc, ◌+◌, ◌-◌, ◌*◌, ◌^◌, ◌≤◌, ◌<◌, ◌≡◌, Bool, true, false, not, ◌||◌, List, [], ◌∷◌,
  ◌++◌, Option, none, some, ltb, ◌==◌, if◌then◌else◌, length, get_elem?, take, drop, All, bit_and,
  bit_or,
}
use sipdemo.Base.Bits.{shl, shr, u8, u16, u32}
use sipdemo.Base.Int.{ℤ, signed}

abbrev pub Bytes : Type 0
Bytes = List ℕ

-- `fault` is a read past the buffer, and `nullopt` a rejected packet.
pub data Outcome {ℓ} (A : Type ℓ) : Type ℓ where
  fault nullopt : Outcome A
  value : A → Outcome A

infixl 5 ◌>>=◌
abbrev pub ◌>>=◌ {ℓ κ} : {A : Type ℓ} {B : Type κ} → Outcome A → (A → Outcome B) → Outcome B
fault >>= f = fault
nullopt >>= f = nullopt
value a >>= f = f a

pub record RtpPacket : Type 0 where
  pub version : ℕ
  pub padding : Bool
  pub extension : Bool
  pub marker : Bool
  pub payload_type : ℕ
  pub sequence : ℕ
  pub timestamp : ℕ
  pub ssrc : ℕ
  pub csrc : List ℕ
  pub payload : Bytes

-- A packet as its declaration initialises it.
abbrev pub new_packet : RtpPacket
new_packet = record {
  version = 2;
  padding = false;
  extension = false;
  marker = false;
  payload_type = 0;
  sequence = 0;
  timestamp = 0;
  ssrc = 0;
  csrc = [];
  payload = [];
}

unfoldable pub byte : Bytes → ℕ → Outcome ℕ
byte buf i = elim (get_elem? buf i) [ none ↦ fault | some b ↦ value b ]

-- `rd16(data + k)` and `rd32(data + k)`.
unfoldable pub rd16 : Bytes → ℕ → Outcome ℕ
rd16 buf k = do a ← byte buf k; b ← byte buf (k + 1); value (u16 (bit_or (shl a 8) b))

unfoldable pub rd32 : Bytes → ℕ → Outcome ℕ
rd32 buf k = do
  a ← byte buf k
  b ← byte buf (k + 1)
  c ← byte buf (k + 2)
  d ← byte buf (k + 3)
  value (u32 (bit_or (bit_or (bit_or (shl a 24) (shl b 16)) (shl c 8)) d))

abbrev pub wr16 : ℕ → Bytes
wr16 x = u8 (shr x 8) ∷ u8 (bit_and x 0xff) ∷ []

abbrev pub wr32 : ℕ → Bytes
wr32 x = u8 (shr x 24) ∷ u8 (shr x 16) ∷ u8 (shr x 8) ∷ u8 (bit_and x 0xff) ∷ []

-- A flag is one bit of a byte.
abbrev pub flag : ℕ → ℕ → Bool
flag b k = not (bit_and (shr b k) 1 == 0)

-- The loop over the CSRC list, `cc` words from `offset` on.
unfoldable pub parse_csrc : ℕ → Bytes → ℕ → Outcome (List ℕ)
parse_csrc zero buf offset = value []
parse_csrc (suc n) buf offset = do
  x ← rd32 buf offset
  xs ← parse_csrc n buf (offset + 4)
  value (x ∷ xs)

-- The offset behind the header extension, if there is one.
unfoldable pub skip_extension : Bool → Bytes → ℕ → Outcome ℕ
skip_extension false buf offset = value offset
skip_extension true buf offset = if ltb (length buf) (offset + 4) then nullopt else do
  ext_words ← rd16 buf (offset + 2)
  let ext_bytes = 4 + ext_words * 4
  if ltb (length buf) (offset + ext_bytes) then nullopt else value (offset + ext_bytes)

-- The end of the payload: the last byte counts the padding, itself included.
unfoldable pub payload_end : Bool → Bytes → ℕ → Outcome ℕ
payload_end false buf offset = value (length buf)
payload_end true buf offset = do
  pad_len ← byte buf (length buf - 1)
  if pad_len == 0 || ltb (length buf - offset) pad_len
      then nullopt
      else value (length buf - pad_len)

-- `p.payload.assign(data + offset, data + payloadEnd)`, a fault unless the range is in order and
-- in the buffer.
unfoldable pub assign : Bytes → ℕ → ℕ → Outcome Bytes
assign buf from to =
    if ltb to from || ltb (length buf) to then fault else value (take (to - from) (drop from buf))

unfoldable pub parse : Bytes → Outcome RtpPacket
parse buf = if ltb (length buf) 12 then nullopt else do
  b0 ← byte buf 0
  let version = bit_and (shr b0 6) 0x03
  if not (version == 2) then nullopt else do
    let cc = bit_and b0 0x0f
    b1 ← byte buf 1
    sequence ← rd16 buf 2
    timestamp ← rd32 buf 4
    ssrc ← rd32 buf 8
    if ltb (length buf) (12 + cc * 4) then nullopt else do
      csrc ← parse_csrc cc buf 12
      offset ← skip_extension (flag b0 4) buf (12 + cc * 4)
      end_at ← payload_end (flag b0 5) buf offset
      payload ← assign buf offset end_at
      value (record {
        version = version;
        padding = flag b0 5;
        extension = flag b0 4;
        marker = flag b1 7;
        payload_type = bit_and b1 0x7f;
        sequence = sequence;
        timestamp = timestamp;
        ssrc = ssrc;
        csrc = csrc;
        payload = payload;
      })

unfoldable pub wr_all : List ℕ → Bytes
wr_all [] = []
wr_all (x ∷ xs) = wr32 x ++ wr_all xs

unfoldable pub serialize : RtpPacket → Bytes
serialize p =
    let cc = u8 (if ltb 15 (length p.csrc) then 15 else length p.csrc) in
    let b0 = u8 (shl (bit_and p.version 0x03) 6) in
    let b0' = if p.padding then bit_or b0 0x20 else b0 in
    let b0'' = if p.extension then bit_or b0' 0x10 else b0' in
    let b1 = u8 (bit_and p.payload_type 0x7f) in
    bit_or b0'' cc
    ∷ (if p.marker then bit_or b1 0x80 else b1)
    ∷ (wr16 p.sequence
        ++ (wr32 p.timestamp ++ (wr32 p.ssrc ++ (wr_all (take cc p.csrc) ++ p.payload))))

-- RFC 1982 comparison, and the signed distance. The subtraction is in `int`; the casts keep its
-- low 16 bits.
unfoldable pub seq_less : ℕ → ℕ → Bool
seq_less a b = if a == b then false else ltb (u16 (b + 2 ^ 16 - a)) 0x8000

unfoldable pub seq_diff : ℕ → ℕ → ℤ
seq_diff a b = signed 16 (b + 2 ^ 16 - a)

-- A packet whose fields have the ranges of their C++ types, as `serialize` writes it whole: no
-- padding or extension, version 2, at most 15 sources, and a 7-bit payload type.
pub record IsPlain (p : RtpPacket) : Type 0 where
  pub version_two : p.version ≡ 2
  pub no_padding : p.padding ≡ false
  pub no_extension : p.extension ≡ false
  pub type_fits : p.payload_type < 128
  pub sequence_fits : p.sequence < 2 ^ 16
  pub timestamp_fits : p.timestamp < 2 ^ 32
  pub ssrc_fits : p.ssrc < 2 ^ 32
  pub few_sources : length p.csrc ≤ 15
  pub sources_fit : All (λ x. x < 2 ^ 32) p.csrc
