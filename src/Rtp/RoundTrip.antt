-- ===== src/Rtp/RoundTrip.antt =====
-- `RtpPacket::parse` reads back what `RtpPacket::serialize` writes (src/rtp/RtpPacket.cpp).
use mathlib.Core.List.{append_assoc}
use sipdemo.Base.{
  ℕ, suc, ◌+◌, ◌-◌, ◌*◌, ◌/◌, ◌^◌, ◌≤◌, ◌<◌, ◌≡◌, refl, sym, ap, ◌∙◌, Bool, true, false, List, [],
  ◌∷◌, ◌++◌, arith, ltb, ◌==◌, ==_iff, if◌then◌else◌, length, length-append, take_all, drop-append,
  All, bit_and, bit_or,
}
use sipdemo.Base.Bits.{
  shl, shr, u8, u16, u32, all_below, all_below_sound, bit_and-low_mask, bit_or-shl,
}
use sipdemo.Rtp.{
  Bytes, RtpPacket, value, byte, rd16, rd32, parse_csrc, skip_extension, payload_end, assign, parse,
  serialize, flag, wr16, wr32, wr_all, IsPlain,
}

word16 : (x : ℕ) → x < 2 ^ 16 → u16 (bit_or (shl (u8 (shr x 8)) 8) (u8 (bit_and x 0xff))) ≡ x
word16 x h =
    omega
      (arith, bit_and-low_mask 8 x, bit_or-shl 8 (u8 (shr x 8)) (u8 (bit_and x 0xff)) (omega arith))

-- Four bytes joined by shifts and `|` are a number in base 256.
join32 :
    (a b c d : ℕ)
    → a < 256
    → b < 256
    → c < 256
    → d < 256
    → bit_or (bit_or (bit_or (shl a 24) (shl b 16)) (shl c 8)) d
      ≡ a * 2 ^ 24 + b * 2 ^ 16 + c * 2 ^ 8 + d
join32 a b c d ha hb hc hd =
    let e1 : bit_or (shl a 24) (shl b 16) ≡ shl (a * 2 ^ 8 + b) 16 =
      omega (arith, bit_or-shl 24 a (shl b 16) (omega arith)) in
    let e2 : bit_or (shl (a * 2 ^ 8 + b) 16) (shl c 8) ≡ shl (a * 2 ^ 16 + b * 2 ^ 8 + c) 8 =
      omega (arith, bit_or-shl 16 (a * 2 ^ 8 + b) (shl c 8) (omega arith)) in
    rw (e1, e2) (omega (arith, bit_or-shl 8 (a * 2 ^ 16 + b * 2 ^ 8 + c) d (omega arith)))

word32 :
    (x : ℕ)
    → x < 2 ^ 32
    → u32 (
        bit_or
          (bit_or (bit_or (shl (u8 (shr x 24)) 24) (shl (u8 (shr x 16)) 16)) (shl (u8 (shr x 8)) 8))
          (u8 (bit_and x 0xff)))
      ≡ x
word32 x h =
    rw
      (join32 (u8 (shr x 24)) (u8 (shr x 16)) (u8 (shr x 8)) (u8 (bit_and x 0xff)) (omega arith)
        (omega arith) (omega arith) (omega arith))
      (omega (arith, bit_and-low_mask 8 x))

byte-append : (pre ys : Bytes) (i : ℕ) → byte (pre ++ ys) (length pre + i) ≡ byte ys i
unfolding byte
byte-append [] ys i = let e : 0 + i ≡ i = omega arith in rw e
byte-append (x ∷ pre) ys i =
    let e : suc (length pre) + i ≡ suc (length pre + i) = omega arith in rw e (byte-append pre ys i)

rd32-wr32 :
    (pre : Bytes) (x : ℕ) (rest : Bytes)
    → x < 2 ^ 32
    → rd32 (pre ++ (wr32 x ++ rest)) (length pre) ≡ value x
unfolding rd32
rd32-wr32 pre x rest h =
    let at = byte-append pre (wr32 x ++ rest) in
    let first : byte (pre ++ (wr32 x ++ rest)) (length pre) ≡ byte (wr32 x ++ rest) 0 =
      let e : length pre + 0 ≡ length pre = omega arith in rw e at (at 0) in
    rw (first, at 1, at 2, at 3) (unfold byte in ap value (word32 x h))

parse_csrc-wr_all :
    (xs : List ℕ) (pre rest : Bytes)
    → All (λ x. x < 2 ^ 32) xs
    → parse_csrc (length xs) (pre ++ (wr_all xs ++ rest)) (length pre) ≡ value xs
unfolding parse_csrc wr_all
parse_csrc-wr_all [] pre rest h = refl
parse_csrc-wr_all (x ∷ xs) pre rest h =
    let len : length pre + 4 ≡ length (pre ++ wr32 x) = omega (arith, length-append pre (wr32 x)) in
    let regroup = append_assoc pre (wr32 x) (wr_all xs ++ rest) in
    rw (rd32-wr32 pre x (wr_all xs ++ rest) h.0, len)
      (rw (← regroup) (rw (parse_csrc-wr_all xs (pre ++ wr32 x) rest h.1)))

length-wr_all : (xs : List ℕ) → length (wr_all xs) ≡ length xs * 4
unfolding wr_all
length-wr_all [] = refl
length-wr_all (x ∷ xs) = omega (arith, length-append (wr32 x) (wr_all xs), length-wr_all xs)

marker_table : all_below 128 (λ x. bit_or x 0x80 == 128 + x) ≡ true
unfolding all_below
marker_table = refl

bit_or-marker : (x : ℕ) → x < 128 → bit_or x 0x80 ≡ 128 + x
bit_or-marker x h = (==_iff _ _).0 (all_below_sound 128 _ x h marker_table)

-- The second byte: what `parse` reads of what `serialize` writes.
second_byte : Bool → ℕ → ℕ
second_byte marker pt = let b1 = u8 (bit_and pt 0x7f) in if marker then bit_or b1 0x80 else b1

second_byte-payload_type : (m : Bool) (pt : ℕ) → pt < 128 → bit_and (second_byte m pt) 0x7f ≡ pt
unfolding second_byte
second_byte-payload_type false pt h =
    omega (arith, bit_and-low_mask 7 pt, bit_and-low_mask 7 (u8 (bit_and pt 0x7f)))
second_byte-payload_type true pt h =
    let small : u8 (bit_and pt 0x7f) ≡ pt = omega (arith, bit_and-low_mask 7 pt) in
    rw (small, bit_or-marker pt h) (omega (arith, bit_and-low_mask 7 (128 + pt)))

second_byte-marker : (m : Bool) (pt : ℕ) → pt < 128 → flag (second_byte m pt) 7 ≡ m
unfolding second_byte
second_byte-marker false pt h =
    let small : shr (u8 (bit_and pt 0x7f)) 7 ≡ 0 = omega (arith, bit_and-low_mask 7 pt) in rw small
second_byte-marker true pt h =
    let small : u8 (bit_and pt 0x7f) ≡ pt = omega (arith, bit_and-low_mask 7 pt) in
    let top : (128 + pt) / 2 ^ 7 ≡ 1 = omega arith in rw (small, bit_or-marker pt h, top)

-- The first byte of a plain packet.
first_byte : (cc : ℕ) → cc ≤ 15 → bit_or 0x80 cc ≡ 128 + cc
first_byte cc h = bit_or-shl 4 8 cc (omega arith)

-- With no padding the payload is the rest of the buffer.
assign_rest :
    (pre payload : Bytes)
    → assign (pre ++ payload) (length pre) (length (pre ++ payload)) ≡ value payload
unfolding assign
assign_rest pre payload =
    let len = length-append pre payload in
    let ordered : ltb (length (pre ++ payload)) (length pre) ≡ false = ground (arith, len) in
    let inside : ltb (length (pre ++ payload)) (length (pre ++ payload)) ≡ false = ground arith in
    let size : length (pre ++ payload) - length pre ≡ length payload = omega (arith, len) in
    rw (ordered, inside, size, drop-append pre payload, take_all payload)

-- A packet without padding or extension, by its other fields.
abbrev plain_packet : Bool → ℕ → ℕ → ℕ → ℕ → List ℕ → Bytes → RtpPacket
plain_packet m pt s t r csrc payload = record {
  version = 2;
  padding = false;
  extension = false;
  marker = m;
  payload_type = pt;
  sequence = s;
  timestamp = t;
  ssrc = r;
  csrc = csrc;
  payload = payload;
}

module _ (m : Bool) (pt s t r : ℕ) (csrc : List ℕ) (payload : Bytes) where
  -- The fixed header as it is written.
  abbrev fixed_header : Bytes
  fixed_header = (128 + length csrc) ∷ second_byte m pt ∷ (wr16 s ++ (wr32 t ++ wr32 r))

  abbrev wire : Bytes
  wire = fixed_header ++ (wr_all csrc ++ payload)

  serialize-plain : length csrc ≤ 15 → serialize (plain_packet m pt s t r csrc payload) ≡ wire
  unfolding serialize second_byte
  serialize-plain few =
      let clamp : ltb 15 (length csrc) ≡ false = ground arith in
      let small : u8 (length csrc) ≡ length csrc = omega arith in
      rw (clamp, small, take_all csrc, first_byte (length csrc) few)

  parse-wire :
      length csrc ≤ 15
      → pt < 128
      → s < 2 ^ 16
      → t < 2 ^ 32
      → r < 2 ^ 32
      → All (λ x. x < 2 ^ 32) csrc
      → parse wire ≡ value (plain_packet m pt s t r csrc payload)
  unfolding parse skip_extension payload_end
  parse-wire few pt_fits s_fits t_fits r_fits all_fit =
      let n = length csrc in
      let head = fixed_header ++ wr_all csrc in
      let heads = length-wr_all csrc in
      let whole : length wire ≡ 12 + n * 4 + length payload =
        omega (arith, length-append (wr_all csrc) payload, heads) in
      let long : ltb (length wire) 12 ≡ false = ground (arith, whole) in
      let room : ltb (length wire) (12 + n * 4) ≡ false = ground (arith, whole) in
      let first : byte wire 0 ≡ value (128 + n) = unfold byte in refl in
      let second : byte wire 1 ≡ value (second_byte m pt) = unfold byte in refl in
      let top : shr (128 + n) 6 ≡ 2 = omega arith in
      let no_ext : shr (128 + n) 4 ≡ 8 = omega arith in
      let no_pad : shr (128 + n) 5 ≡ 4 = omega arith in
      let count : bit_and (128 + n) 0x0f ≡ n = omega (arith, bit_and-low_mask 4 (128 + n)) in
      let seq : rd16 wire 2 ≡ value s = unfold rd16 byte in ap value (word16 s s_fits) in
      let stamp : rd32 wire 4 ≡ value t = unfold rd32 byte in ap value (word32 t t_fits) in
      let source : rd32 wire 8 ≡ value r = unfold rd32 byte in ap value (word32 r r_fits) in
      let sources : parse_csrc n wire 12 ≡ value csrc =
        parse_csrc-wr_all csrc fixed_header payload all_fit in
      let size : length head ≡ 12 + n * 4 = omega (arith, heads) in
      let rest : assign wire (12 + n * 4) (length wire) ≡ value payload =
        rw size at (assign_rest head payload) in
      let kind = second_byte-payload_type m pt pt_fits in
      let mark = second_byte-marker m pt pt_fits in
      rw (long, first, top, second, seq, stamp, source, count, room, sources, no_ext, no_pad)
        (rw rest (λ i. value (plain_packet (mark i) (kind i) s t r csrc payload)))

-- A packet that has no padding or header extension, and whose fields fit the wire format, is read
-- back from its serialization whole: header fields, sources and payload.
pub parse-serialize : (p : RtpPacket) → IsPlain p → parse (serialize p) ≡ value p
parse-serialize p h =
    let q = plain_packet p.marker p.payload_type p.sequence p.timestamp p.ssrc p.csrc p.payload in
    let same : p ≡ q = λ i. record {
      version = h.version_two i;
      padding = h.no_padding i;
      extension = h.no_extension i;
      marker = p.marker;
      payload_type = p.payload_type;
      sequence = p.sequence;
      timestamp = p.timestamp;
      ssrc = p.ssrc;
      csrc = p.csrc;
      payload = p.payload;
    } in
    let written =
      serialize-plain p.marker p.payload_type p.sequence p.timestamp p.ssrc p.csrc p.payload
        h.few_sources in
    let read =
      parse-wire p.marker p.payload_type p.sequence p.timestamp p.ssrc p.csrc p.payload
        h.few_sources h.type_fits h.sequence_fits h.timestamp_fits h.ssrc_fits h.sources_fit in
    ap (λ (x : RtpPacket). parse (serialize x)) same
    ∙ (ap parse written ∙ (read ∙ ap value (sym same)))
