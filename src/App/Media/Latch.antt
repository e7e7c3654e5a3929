-- ===== src/App/Media/Latch.antt =====
-- Symmetric RTP (`latchRemoteIfNeeded` of src/app/main.cpp): where the echo goes.
use sipdemo.Base.{
  ℕ, ◌≡◌, refl, sym, ap, ◌∙◌, Bool, true, not, ◌&&◌, inl, inr, List, [], ◌∷◌, Option, none, some,
  Bool-cases, Option-cases, ==_iff, ◌==◌, arith, is_empty,
}
use sipdemo.Base.Int.{ℤ}
use sipdemo.Base.Text.{text_eq}
use sipdemo.Base.Text.Equality.{text_eq_iff}
use sipdemo.Rtp.{Bytes, Outcome, fault, nullopt, value, RtpPacket, parse}
use sipdemo.Stats.{Double}
use sipdemo.Jitter
use sipdemo.Queue.Calls.{waits, ends, takes, pop-PopCase}
use sipdemo.Sip.Uas.{Endpoint}
use sipdemo.Dtmf.{feed}
use sipdemo.Ws.Frame.{Mask}
use sipdemo.Net.{timed_out, failed, got}
use sipdemo.App.Media.{
  same_endpoint, MediaSession, stop, latch, receive_audio, receive_event, receive_packet,
  is_telephone_event, recv_round, playout_round, enqueue, output_round, echo, fork, decoded,
}
use sipdemo.App.Media.Runs.{
  Event, received, ticked, emptied, ws_frame, ws_ended, stopped, step, run,
}

same_endpoint_lem : (a b : Endpoint) → same_endpoint a b ≡ true → a ≡ b
same_endpoint_lem a b h =
    let parts : (text_eq a.ip b.ip ≡ true) × ((a.port == b.port) ≡ true) = ground arith in
    let ip = (text_eq_iff a.ip b.ip).0 parts.0 in
    let port = (==_iff a.port b.port).0 parts.1 in λ i. record { ip = ip i; port = port i }

module _ (f : Double) (mask : ℕ → Mask) (accepts : ℕ → Bool) where
  open f use {Number}

  -- Whether or not the source was latched, the peer is where the packet came from.
  latch-remote : (s : MediaSession f) (from : Endpoint) → (latch f s from).remote ≡ from
  unfolding latch
  latch-remote s from = elim (Bool-cases s.remote_latched) [
    | inr fresh ↦ simp fresh refl
    | inl latched ↦ elim (Bool-cases (same_endpoint from s.remote)) [
      | inl same ↦ simp (latched, same) (sym (same_endpoint_lem from s.remote same))
      | inr moved ↦ simp (latched, moved) refl
    ]
  ]

  event-remote :
      (s : MediaSession f) (bs : Bytes) → (receive_event f mask accepts s bs).remote ≡ s.remote
  unfolding receive_event
  event-remote s bs = elim (Option-cases (feed s.dtmf bs).0) [
    | inl quiet ↦ rw quiet
    | inr (c, loud) ↦ rw loud
  ]

  -- The peer after a parsed datagram.
  abbrev pub source_of : Endpoint → Outcome RtpPacket → Endpoint → Endpoint
  source_of remote (value p) from = from
  source_of remote _ from = remote

  packet-remote :
      (s : MediaSession f) (now : Number) (o : Outcome RtpPacket) (from : Endpoint)
      → (receive_packet f mask accepts s now o from).remote ≡ source_of s.remote o from
  unfolding receive_packet receive_audio
  packet-remote s now fault from = refl
  packet-remote s now nullopt from = refl
  packet-remote s now (value p) from = elim (Bool-cases (is_telephone_event f (latch f s from) p)) [
    | inl event ↦ rw event (event-remote (latch f s from) p.payload ∙ latch-remote s from)
    | inr audio ↦ rw audio (latch-remote s from)
  ]

  enqueue-remote : (s : MediaSession f) (o : Option RtpPacket) → (enqueue f s o).remote ≡ s.remote
  unfolding enqueue
  enqueue-remote s none = refl
  enqueue-remote s (some p) = refl

  stop-remote : (s : MediaSession f) → (stop f s).remote ≡ s.remote
  unfolding stop
  stop-remote s = ground arith

  fork-remote : (s : MediaSession f) (pcm : List ℤ) → (fork f mask accepts s pcm).remote ≡ s.remote
  unfolding fork
  fork-remote s pcm = elim (Bool-cases (s.ws.connected && not (is_empty pcm))) [
    | inl on ↦ rw on
    | inr off ↦ rw off
  ]

  -- The source of the last RTP packet of a run, or else `remote`.
  abbrev pub last_source : Endpoint → List (Event f mask accepts) → Endpoint
  last_source remote [] = remote
  last_source remote (received now (got dg) ∷ es) =
      last_source (source_of remote (parse dg.data_) dg.from) es
  last_source remote (_ ∷ es) = last_source remote es

  output-remote : (s : MediaSession f) → (step f mask accepts s emptied).remote ≡ s.remote
  unfolding step output_round echo
  output-remote s = elim (pop-PopCase s.queue) [
    | waits e r ↦ rw r
    | ends e r ↦ rw r
    | takes p ps e r ↦
        let shorter = record s { queue = record s.queue { items = ps } } in
        rw r (fork-remote shorter (decoded f shorter p.payload))
  ]

  -- From any state and whatever the threads do, the peer, which the echo is sent to, is the source
  -- of the last datagram that was an RTP packet, audio or telephone event, latched or not; and
  -- where no such datagram came it is the peer of before.
  pub run-last_source :
      (es : List (Event f mask accepts)) (s : MediaSession f)
      → (run f mask accepts s es).remote ≡ last_source s.remote es
  unfolding run step recv_round playout_round
  run-last_source [] s = refl
  run-last_source (received now timed_out ∷ es) s = run-last_source es s
  run-last_source (received now failed ∷ es) s = run-last_source es s
  run-last_source (received now (got dg) ∷ es) s =
      run-last_source es (receive_packet f mask accepts s now (parse dg.data_) dg.from)
      ∙ ap (λ r. last_source r es) (packet-remote s now (parse dg.data_) dg.from)
  run-last_source (ticked ∷ es) s =
      run-last_source es (playout_round f s)
      ∙ ap (λ r. last_source r es) (enqueue-remote _ (Jitter.pop s.jitter).packet)
  run-last_source (emptied ∷ es) s =
      run-last_source es _ ∙ ap (λ r. last_source r es) (output-remote s)
  run-last_source (ws_frame frame ∷ es) s = run-last_source es _
  run-last_source (ws_ended ∷ es) s = run-last_source es _
  run-last_source (stopped ∷ es) s =
      run-last_source es _ ∙ ap (λ r. last_source r es) (stop-remote s)
