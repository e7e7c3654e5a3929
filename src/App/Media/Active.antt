-- ===== src/App/Media/Active.antt =====
-- How long a session runs (src/app/main.cpp): `active_` is set by `start` and cleared by `stop` alone.
use sipdemo.Base.{
  ℕ, ◌≡◌, refl, ◌∙◌, Bool, true, not, ◌&&◌, is_empty, inl, inr, List, Bool-cases, Option-cases,
  arith,
}
use sipdemo.Base.Int.{ℤ}
use sipdemo.Base.Text.{Text}
use sipdemo.Rtp.{Bytes, Outcome, fault, nullopt, value, RtpPacket, parse}
use sipdemo.Jitter
use sipdemo.Stats.{Double}
use sipdemo.Sip.Uas.{Endpoint}
use sipdemo.Dtmf.{feed}
use sipdemo.Queue.Calls.{waits, ends, takes, pop-PopCase}
use sipdemo.Ws.Frame.{Mask}
use sipdemo.Ws.Client.{WsClient}
use sipdemo.Net.{Receipt, timed_out, failed, got}
use sipdemo.App.Media.{
  MediaSession, start, latch, receive_audio, receive_event, receive_packet, is_telephone_event,
  recv_round, enqueue, playout_round, output_round, decoded, echo, fork,
}
use sipdemo.App.Media.Runs.{Event, received, ticked, emptied, ws_frame, ws_ended, stopped, step}

module _ (f : Double) (mask : ℕ → Mask) (accepts : ℕ → Bool) where
  open f use {Number}

  -- A step of one of the session's own threads.
  abbrev pub IsOwn : Event f mask accepts → Type 0
  IsOwn stopped = ⊥
  IsOwn _ = Unit

  pub start_active :
      (connect : Text → WsClient → WsClient) (s : MediaSession f) (remote : Endpoint) (pt dtmf : ℤ)
      → (start f connect s remote pt dtmf).active ≡ true
  unfolding start
  start_active connect s remote pt dtmf = refl

  latch_active : (s : MediaSession f) (from : Endpoint) → (latch f s from).active ≡ s.active
  unfolding latch
  latch_active s from = ground arith

  receive_event_active :
      (s : MediaSession f) (bs : Bytes) → (receive_event f mask accepts s bs).active ≡ s.active
  unfolding receive_event
  receive_event_active s bs = elim (Option-cases (feed s.dtmf bs).0) [
    | inl quiet ↦ rw quiet refl
    | inr (c, loud) ↦ rw loud refl
  ]

  receive_packet_active :
      (s : MediaSession f) (now : Number) (o : Outcome RtpPacket) (from : Endpoint)
      → (receive_packet f mask accepts s now o from).active ≡ s.active
  unfolding receive_packet receive_audio
  receive_packet_active s now fault from = refl
  receive_packet_active s now nullopt from = refl
  receive_packet_active s now (value p) from =
      let t = latch f s from in
      elim (Bool-cases (is_telephone_event f t p)) [
        | inl event ↦ rw event (receive_event_active t p.payload ∙ latch_active s from)
        | inr audio ↦ rw audio (latch_active s from)
      ]

  recv_round_active :
      (s : MediaSession f) (now : Number) (r : Receipt)
      → (recv_round f mask accepts s now r).active ≡ s.active
  unfolding recv_round
  recv_round_active s now timed_out = refl
  recv_round_active s now failed = refl
  recv_round_active s now (got dg) = receive_packet_active s now (parse dg.data_) dg.from

  playout_round_active : (s : MediaSession f) → (playout_round f s).active ≡ s.active
  unfolding playout_round enqueue
  playout_round_active s = elim (Option-cases (Jitter.pop s.jitter).packet) [
    | inl quiet ↦ rw quiet refl
    | inr (p, plays) ↦ rw plays refl
  ]

  fork_active : (s : MediaSession f) (pcm : List ℤ) → (fork f mask accepts s pcm).active ≡ s.active
  unfolding fork
  fork_active s pcm = elim (Bool-cases (s.ws.connected && not (is_empty pcm))) [
    | inl on ↦ rw on refl
    | inr off ↦ rw off refl
  ]

  echo_active : (s : MediaSession f) (p : RtpPacket) → (echo f mask accepts s p).active ≡ s.active
  unfolding echo
  echo_active s p = fork_active s (decoded f s p.payload)

  emptied_active : (s : MediaSession f) → (step f mask accepts s emptied).active ≡ s.active
  unfolding step output_round
  emptied_active s = elim (pop-PopCase s.queue) [
    | waits e r ↦ rw r refl
    | ends e r ↦ rw r refl
    | takes p ps e r ↦ rw r (echo_active (record s { queue = record s.queue { items = ps } }) p)
  ]

  pub step_active :
      (s : MediaSession f) (e : Event f mask accepts)
      → IsOwn e
      → (step f mask accepts s e).active ≡ s.active
  unfolding step
  step_active s (received now r) own = recv_round_active s now r
  step_active s ticked own = playout_round_active s
  step_active s emptied own = emptied_active s
  step_active s (ws_frame frame) own = refl
  step_active s ws_ended own = refl
  step_active s stopped own = absurd own
