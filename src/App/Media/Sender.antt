-- ===== src/App/Media/Sender.antt =====
-- The sending half of a session's state, which only the output loop of src/app/main.cpp moves.
use sipdemo.Base.{
  ℕ, ◌≡◌, refl, ◌∙◌, Bool, not, ◌&&◌, inl, inr, List, Option, none, some, Bool-cases, Option-cases,
  arith, is_empty,
}
use sipdemo.Base.Int.{ℤ}
use sipdemo.Rtp.{Bytes, Outcome, fault, nullopt, value, RtpPacket, parse}
use sipdemo.Stats.{Double}
use sipdemo.Sip.Uas.{Endpoint}
use sipdemo.Dtmf.{feed}
use sipdemo.Ws.Frame.{Mask}
use sipdemo.Net.{Receipt, timed_out, failed, got}
use sipdemo.App.Media.{
  MediaSession, stop, latch, receive_audio, receive_event, receive_packet, is_telephone_event,
  recv_round, enqueue, fork,
}

-- What the sending half of the output loop works on.
pub record Sender : Type 0 where
  pub codec : ℤ
  pub source : ℕ
  pub next_seq : ℕ
  pub next_ts : ℕ
  pub wire : List (Bytes × Endpoint)

module _ (f : Double) (mask : ℕ → Mask) (accepts : ℕ → Bool) where
  open f use {Number}

  abbrev pub sender : MediaSession f → Sender
  sender s = record {
    codec = s.payload_type;
    source = s.out_ssrc;
    next_seq = s.out_seq;
    next_ts = s.out_ts;
    wire = s.echoed;
  }

  latch-sender : (s : MediaSession f) (from : Endpoint) → sender (latch f s from) ≡ sender s
  unfolding latch
  latch-sender s from = ground arith

  event-sender :
      (s : MediaSession f) (bs : Bytes) → sender (receive_event f mask accepts s bs) ≡ sender s
  unfolding receive_event
  event-sender s bs = elim (Option-cases (feed s.dtmf bs).0) [
    | inl quiet ↦ rw quiet
    | inr (c, loud) ↦ rw loud
  ]

  packet-sender :
      (s : MediaSession f) (now : Number) (o : Outcome RtpPacket) (from : Endpoint)
      → sender (receive_packet f mask accepts s now o from) ≡ sender s
  unfolding receive_packet receive_audio
  packet-sender s now fault from = refl
  packet-sender s now nullopt from = refl
  packet-sender s now (value p) from = elim (Bool-cases (is_telephone_event f (latch f s from) p)) [
    | inl event ↦ rw event (event-sender (latch f s from) p.payload ∙ latch-sender s from)
    | inr audio ↦ rw audio (latch-sender s from)
  ]

  pub recv_round-sender :
      (s : MediaSession f) (now : Number) (r : Receipt)
      → sender (recv_round f mask accepts s now r) ≡ sender s
  unfolding recv_round
  recv_round-sender s now timed_out = refl
  recv_round-sender s now failed = refl
  recv_round-sender s now (got dg) = packet-sender s now (parse dg.data_) dg.from

  pub enqueue-sender :
      (s : MediaSession f) (o : Option RtpPacket) → sender (enqueue f s o) ≡ sender s
  unfolding enqueue
  enqueue-sender s none = refl
  enqueue-sender s (some p) = refl

  pub stop-sender : (s : MediaSession f) → sender (stop f s) ≡ sender s
  unfolding stop
  stop-sender s = ground arith

  pub fork-sender :
      (s : MediaSession f) (pcm : List ℤ) → sender (fork f mask accepts s pcm) ≡ sender s
  unfolding fork
  fork-sender s pcm = elim (Bool-cases (s.ws.connected && not (is_empty pcm))) [
    | inl on ↦ rw on
    | inr off ↦ rw off
  ]
