-- ===== src/Codec/G711.antt =====
-- include/sipdemo/G711.h and src/codec/G711.cpp. An `int` or `int16_t` is an integer, its bits are
-- read in two's complement, and a `uint8_t` is a number.
pub mod Tables
use sipdemo.Base.{
  ℕ, zero, suc, ◌+◌, ◌-◌, ◌%◌, ◌^◌, Bool, true, false, List, [], ◌∷◌, map, ltb, leb, ◌==◌,
  if◌then◌else◌, bit_and, bit_or, bit_xor,
}
use sipdemo.Base.Bits.{shl, shr, u8}
use sipdemo.Base.Int.{ℤ, pos, negsuc, ◌+ℤ◌, ◌-ℤ◌, ltb_ℤ, negate, shr_ℤ, signed, unsigned}

abbrev mu_bias : ℕ
mu_bias = 0x84

abbrev mu_clip : ℕ
mu_clip = 32635

-- The index of the first entry that is not below `value`, or the size.
pub seg : ℤ → List ℕ → ℕ
seg value [] = 0
seg value (t ∷ ts) = if ltb_ℤ (pos t) value then suc (seg value ts) else 0

-- `int` operations on the two's complement.
abbrev and_int : ℤ → ℕ → ℕ
and_int x m = bit_and (unsigned 32 x) m

-- `static_cast<uint8_t>(~x)`.
abbrev complement8 : ℕ → ℕ
complement8 x = u8 (2 ^ 32 - 1 - x)

abbrev mu_seg_end : List ℕ
mu_seg_end = 0xff ∷ 0x1ff ∷ 0x3ff ∷ 0x7ff ∷ 0xfff ∷ 0x1fff ∷ 0x3fff ∷ 0x7fff ∷ []

unfoldable pub encode_mu_law : ℤ → ℕ
unfolding seg shr_ℤ unsigned ◌+ℤ◌
encode_mu_law sample =
    let sign = and_int (shr_ℤ sample 8) 0x80 in
    let mag = if sign == 0 then sample else negate sample in
    let clipped = if ltb_ℤ (pos mu_clip) mag then pos mu_clip else mag in
    let biased = clipped +ℤ pos mu_bias in
    let segment = seg biased mu_seg_end in
    let code =
      if leb 8 segment
      then 0x7f
      else u8 (bit_or (shl segment 4) (and_int (shr_ℤ biased (segment + 3)) 0x0f)) in
    complement8 (bit_or code sign)

unfoldable pub decode_mu_law : ℕ → ℤ
unfolding ◌-ℤ◌ signed unsigned
decode_mu_law code =
    let code' = complement8 code in
    let sign = bit_and code' 0x80 in
    let segment = bit_and (shr code' 4) 0x07 in
    let mantissa = bit_and code' 0x0f in
    let mag = pos (shl (shl mantissa 3 + mu_bias) segment) -ℤ pos mu_bias in
    signed 16 (unsigned 32 (if sign == 0 then mag else negate mag))

abbrev a_seg_end : List ℕ
a_seg_end = 0x1f ∷ 0x3f ∷ 0x7f ∷ 0xff ∷ 0x1ff ∷ 0x3ff ∷ 0x7ff ∷ 0xfff ∷ []

-- The mask of an A-law code, and the magnitude that is coded.
abbrev a_parts : ℤ → ℕ × ℤ
a_parts pcm =
    if ltb_ℤ pcm (pos 0)
    then (let pcm' = negate pcm -ℤ pos 1 in (0x55, if ltb_ℤ pcm' (pos 0) then pos 0 else pcm'))
    else (0xd5, pcm)

unfoldable pub encode_a_law : ℤ → ℕ
unfolding seg shr_ℤ unsigned ◌-ℤ◌
encode_a_law sample =
    let (mask, pcm) = a_parts (shr_ℤ sample 3) in
    let segment = seg pcm a_seg_end in
    if leb 8 segment
    then u8 (bit_xor 0x7f mask)
    else let high = u8 (shl segment 4) in
      let low = and_int (shr_ℤ pcm (if ltb segment 2 then 1 else segment)) 0x0f in
      u8 (bit_xor (u8 (bit_or high low)) mask)

-- The magnitude in the low seven bits of an A-law code, by its segment.
a_magnitude : ℕ → ℕ → ℕ
a_magnitude zero t = t + 8
a_magnitude (suc zero) t = t + 0x108
a_magnitude (suc (suc k)) t = shl (t + 0x108) (suc k)

unfoldable pub decode_a_law : ℕ → ℤ
unfolding a_magnitude signed unsigned
decode_a_law code =
    let code' = u8 (bit_xor code 0x55) in
    let t = shl (bit_and code' 0x0f) 4 in
    let segment = shr (bit_and code' 0x70) 4 in
    let mag = pos (a_magnitude segment t) in
    signed 16 (unsigned 32 (if bit_and code' 0x80 == 0 then negate mag else mag))

-- The bulk helpers, `push_back` in a loop over the samples.
unfoldable pub encode_mu_law_all : List ℤ → List ℕ
encode_mu_law_all [] = []
encode_mu_law_all (s ∷ pcm) = encode_mu_law s ∷ encode_mu_law_all pcm

unfoldable pub decode_mu_law_all : List ℕ → List ℤ
decode_mu_law_all [] = []
decode_mu_law_all (c ∷ codes) = decode_mu_law c ∷ decode_mu_law_all codes

unfoldable pub encode_a_law_all : List ℤ → List ℕ
encode_a_law_all [] = []
encode_a_law_all (s ∷ pcm) = encode_a_law s ∷ encode_a_law_all pcm

unfoldable pub decode_a_law_all : List ℕ → List ℤ
decode_a_law_all [] = []
decode_a_law_all (c ∷ codes) = decode_a_law c ∷ decode_a_law_all codes
