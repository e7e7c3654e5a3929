-- ===== src/App/Media/Keeps.antt =====
-- What the rounds of src/app/main.cpp leave of a session: its queue and its jitter buffer.
use sipdemo.Base.{
  ℕ, ◌≡◌, refl, ap, ◌∙◌, Bool, not, ◌&&◌, is_empty, inl, inr, List, Bool-cases, Option-cases, arith,
}
use sipdemo.Base.Int.{ℤ}
use sipdemo.Rtp.{Bytes, Outcome, fault, nullopt, value, RtpPacket, parse}
use sipdemo.Jitter
use sipdemo.Jitter.{JitterBuffer, Entry}
use sipdemo.Stats.{Double}
use sipdemo.Sip.Uas.{Endpoint}
use sipdemo.Dtmf.{feed}
use sipdemo.Ws.Frame.{Mask}
use sipdemo.Net.{Receipt, Datagram, timed_out, failed, got}
use sipdemo.App.Media.{
  MediaSession, latch, receive_audio, receive_event, receive_packet, is_telephone_event, recv_round,
  decoded, echo, fork,
}

module _ (f : Double) (mask : ℕ → Mask) (accepts : ℕ → Bool) where
  open f use {Number}

  -- A round of the receiver leaves the queue, and the jitter buffer but for one packet.
  pub data Received (r : Receipt) (s t : MediaSession f) : Type 0 where
    nothing : t.queue ≡ s.queue → t.jitter ≡ s.jitter → Received r s t
    arrived :
        (dg : Datagram) (p : RtpPacket)
        → r ≡ got dg
        → parse dg.data_ ≡ value p
        → t.queue ≡ s.queue
        → t.jitter ≡ Jitter.insert s.jitter p
        → Received r s t

  pub latch_keeps :
      (s : MediaSession f) (from : Endpoint)
      → ((latch f s from).queue ≡ s.queue) × ((latch f s from).jitter ≡ s.jitter)
  unfolding latch
  latch_keeps s from = ground arith

  pub receive_event_keeps :
      (s : MediaSession f) (bs : Bytes)
      → ((receive_event f mask accepts s bs).queue ≡ s.queue)
        × ((receive_event f mask accepts s bs).jitter ≡ s.jitter)
  unfolding receive_event
  receive_event_keeps s bs = elim (Option-cases (feed s.dtmf bs).0) [
    | inl quiet ↦ rw quiet (refl, refl)
    | inr (c, loud) ↦ rw loud (refl, refl)
  ]

  receive_packet-Received :
      (s : MediaSession f) (now : Number) (o : Outcome RtpPacket) (dg : Datagram)
      → parse dg.data_ ≡ o
      → Received (got dg) s (receive_packet f mask accepts s now o dg.from)
  unfolding receive_packet receive_audio
  receive_packet-Received s now fault dg e = nothing refl refl
  receive_packet-Received s now nullopt dg e = nothing refl refl
  receive_packet-Received s now (value p) dg e =
      let t = latch f s dg.from in
      let (q, j) = latch_keeps s dg.from in
      elim (Bool-cases (is_telephone_event f t p)) [
        | inl event ↦
            let (q', j') = receive_event_keeps t p.payload in rw event (nothing (q' ∙ q) (j' ∙ j))
        | inr audio ↦ rw audio (arrived dg p refl e q (ap (λ b. Jitter.insert b p) j))
      ]

  pub recv_round-Received :
      (s : MediaSession f) (now : Number) (r : Receipt)
      → Received r s (recv_round f mask accepts s now r)
  unfolding recv_round
  recv_round-Received s now timed_out = nothing refl refl
  recv_round-Received s now failed = nothing refl refl
  recv_round-Received s now (got dg) = receive_packet-Received s now (parse dg.data_) dg refl

  pub fork_keeps :
      (s : MediaSession f) (pcm : List ℤ)
      → ((fork f mask accepts s pcm).queue ≡ s.queue)
        × ((fork f mask accepts s pcm).jitter ≡ s.jitter)
  unfolding fork
  fork_keeps s pcm = elim (Bool-cases (s.ws.connected && not (is_empty pcm))) [
    | inl on ↦ rw on (refl, refl)
    | inr off ↦ rw off (refl, refl)
  ]

  pub echo_keeps :
      (s : MediaSession f) (p : RtpPacket)
      → ((echo f mask accepts s p).queue ≡ s.queue) × ((echo f mask accepts s p).jitter ≡ s.jitter)
  unfolding echo
  echo_keeps s p = fork_keeps s (decoded f s p.payload)
