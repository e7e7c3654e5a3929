-- ===== src/Generator/Send.antt =====
-- The sending loop of src/tools/rtp_sender.cpp. Which packets the generator loses and which it holds
-- back are parameters, by the packet's number; so are the numbers that the random device starts the
-- stream with. The loop is that of a run in which no `sendTo` throws.
pub mod Delivery
use sipdemo.Base.{
  ℕ, zero, suc, ◌+◌, ◌-◌, ◌*◌, ◌/◌, ◌%◌, ◌^◌, Bool, true, false, not, ◌&&◌, List, [], ◌∷◌, ◌++◌,
  Option, none, some, ltb, ◌==◌, if◌then◌else◌, length, take, drop,
}
use sipdemo.Base.Int.{ℤ, pos, eqb_ℤ, unsigned}
use sipdemo.Rtp.{Bytes, RtpPacket, new_packet, serialize}
use sipdemo.Codec.G711.{encode_mu_law_all, encode_a_law_all}

-- `kSampleRate * kPtimeMs / 1000`.
abbrev pub samples_per_packet : ℕ
samples_per_packet = 8000 * 20 / 1000

-- `held` is the packet that `holding` says is held back; `wires` is what was given to `sendTo`.
pub record Sender : Type 0 where
  pub seq : ℕ
  pub timestamp : ℕ
  pub held : Option Bytes
  pub sent : ℕ
  pub dropped : ℕ
  pub reordered : ℕ
  pub wires : List Bytes

abbrev pub add64 : ℕ → ℕ → ℕ
add64 n k = (n + k) % 2 ^ 64

module _ (payload_type : ℤ) (ssrc : ℕ) (pcm : List ℤ) where
  abbrev pub total_packets : ℕ
  total_packets = length pcm / samples_per_packet

  -- Frame `p`, encoded.
  abbrev pub codes : ℕ → Bytes
  codes p =
      let frame = take samples_per_packet (drop (p * samples_per_packet) pcm) in
      if eqb_ℤ payload_type (pos 8) then encode_a_law_all frame else encode_mu_law_all frame

  unfoldable pub packet : Sender → ℕ → RtpPacket
  packet s p = record new_packet {
    payload_type = unsigned 8 payload_type;
    marker = p == 0;
    sequence = s.seq;
    timestamp = s.timestamp;
    ssrc = ssrc;
    payload = codes p;
  }

  module _ (loses holds : ℕ → Bool) where
    -- The rest of a round, for a packet that is not lost.
    pub pass_on : Sender → ℕ → Bytes → Option Bytes → Sender
    pass_on s p wire (some earlier) = record s {
      wires = s.wires ++ wire ∷ earlier ∷ [];
      held = none;
      reordered = add64 s.reordered 1;
      sent = add64 s.sent 2;
    }
    pass_on s p wire none =
        if holds p && ltb (p + 1) total_packets
        then record s { held = some wire }
        else record s { wires = s.wires ++ wire ∷ []; sent = add64 s.sent 1 }

    -- One round of the loop, for packet `p`.
    unfoldable pub send_round : Sender → ℕ → Sender
    unfolding pass_on packet
    send_round s p =
        let wire = serialize (packet s p) in
        let t = record s {
          seq = (s.seq + 1) % 2 ^ 16;
          timestamp = (s.timestamp + samples_per_packet) % 2 ^ 32;
        } in
        if loses p then record t { dropped = add64 t.dropped 1 } else pass_on t p wire t.held

    -- The loop, with `n` packets to come from packet `p` on.
    unfoldable pub send_rounds : ℕ → ℕ → Sender → Sender
    send_rounds zero p s = s
    send_rounds (suc n) p s = send_rounds n (p + 1) (send_round s p)

    -- Behind the loop, a packet that is still held goes out.
    pub finish : Sender → Option Bytes → Sender
    finish s none = s
    finish s (some earlier) = record s { wires = s.wires ++ earlier ∷ []; sent = add64 s.sent 1 }

    unfoldable pub send_all : ℕ → ℕ → Sender
    unfolding finish
    send_all seq timestamp =
        let s = send_rounds total_packets 0 (record {
          seq = seq % 2 ^ 16;
          timestamp = timestamp % 2 ^ 32;
          held = none;
          sent = 0;
          dropped = 0;
          reordered = 0;
          wires = [];
        }) in
        finish s s.held
