-- ===== src/Tests/Packets.antt =====
-- Concrete RTP packets (src/rtp/RtpPacket.cpp).
use sipdemo.Base.{ℕ, ◌+◌, ◌-◌, ◌%◌, ◌^◌, ◌≤◌, ◌≡◌, ◌≢◌, ◌↔◌, refl, true, [], ◌∷◌, arith}
use sipdemo.Base.Int.{pos, negsuc, pos_part, neg_part, ◌≤ℤ◌}
use sipdemo.Rtp.{
  RtpPacket, new_packet, Bytes, fault, nullopt, value, byte, rd16, rd32, parse_csrc, skip_extension,
  payload_end, assign, parse, wr_all, serialize, seq_less, seq_diff, IsPlain,
}
use sipdemo.Rtp.Sequence.{seq_less_iff, seq_diff_lem}
use sipdemo.Rtp.Safety.{parse-ne-fault}
use sipdemo.Rtp.RoundTrip.{parse-serialize}
use sipdemo.Rtp.Extension.{parse-serialize_extension}

abbrev sample : RtpPacket
sample = record new_packet {
  marker = true;
  payload_type = 101;
  sequence = 65535;
  timestamp = 160;
  ssrc = 0x12345678;
  csrc = 7 ∷ [];
  payload = 1 ∷ 2 ∷ 3 ∷ [];
}

sample-IsPlain : IsPlain sample
sample-IsPlain = record {
  version_two = refl;
  no_padding = refl;
  no_extension = refl;
  type_fits = omega arith;
  sequence_fits = omega arith;
  timestamp_fits = omega arith;
  ssrc_fits = omega arith;
  few_sources = omega arith;
  sources_fit = (omega arith, tt);
}

parse-serialize_example : parse (serialize sample) ≡ value sample
parse-serialize_example = parse-serialize sample sample-IsPlain

serialized :
    serialize sample
    ≡ 0x81 ∷ 0xe5 ∷ 0xff ∷ 0xff ∷ 0 ∷ 0 ∷ 0 ∷ 160 ∷ 0x12 ∷ 0x34 ∷ 0x56 ∷ 0x78 ∷ 0 ∷ 0 ∷ 0 ∷ 7 ∷ 1
      ∷ 2 ∷ 3 ∷ []
unfolding serialize wr_all
serialized = refl

-- A header extension of one word that its length says has two.
abbrev truncated : Bytes
truncated =
    0x90 ∷ 0 ∷ 0 ∷ 1 ∷ 0 ∷ 0 ∷ 0 ∷ 0 ∷ 0 ∷ 0 ∷ 0 ∷ 9 ∷ 0xbe ∷ 0xde ∷ 0 ∷ 2 ∷ 0 ∷ 0 ∷ 0 ∷ 0 ∷ []

truncated_rejected : parse truncated ≡ nullopt
unfolding parse byte rd16 rd32 parse_csrc skip_extension
truncated_rejected = refl

parse-ne-fault_example : parse truncated ≢ fault
parse-ne-fault_example = parse-ne-fault truncated

-- Two words of extension are skipped, and three bytes of padding are dropped.
padded :
    parse (
      0xb0 ∷ 0 ∷ 0 ∷ 1 ∷ 0 ∷ 0 ∷ 0 ∷ 0 ∷ 0 ∷ 0 ∷ 0 ∷ 9 ∷ 0xbe ∷ 0xde ∷ 0 ∷ 1 ∷ 5 ∷ 5 ∷ 5 ∷ 5 ∷ 42
      ∷ 0 ∷ 0 ∷ 3 ∷ [])
    ≡ value (record new_packet {
      padding = true;
      extension = true;
      sequence = 1;
      ssrc = 9;
      payload = 42 ∷ [];
    })
unfolding parse byte rd16 rd32 parse_csrc skip_extension payload_end assign
padded = refl

parse-serialize_extension_example :
    parse (serialize (record new_packet { extension = true; payload = 1 ∷ 2 ∷ [] })) ≡ nullopt
parse-serialize_extension_example =
    parse-serialize_extension (record new_packet { extension = true; payload = 1 ∷ 2 ∷ [] }) refl
      refl refl refl (omega arith)

seq_less_iff_example :
    (seq_less 65530 4 ≡ true) ↔ ((k : ℕ) × (1 ≤ k) × (k ≤ 32767) × ((65530 + k) % 2 ^ 16 ≡ 4))
seq_less_iff_example = seq_less_iff 65530 4 (omega arith) (omega arith)

seq_diff_example :
    (negsuc 32767 ≤ℤ seq_diff 65530 4)
    × (seq_diff 65530 4 ≤ℤ pos 32767)
    × ((65530 + pos_part (seq_diff 65530 4) + 2 ^ 16 - neg_part (seq_diff 65530 4)) % 2 ^ 16 ≡ 4)
seq_diff_example = seq_diff_lem 65530 4 (omega arith) (omega arith)
