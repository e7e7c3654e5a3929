-- ===== src/App/Media/Keys.antt =====
-- Telephone events from the datagram to the gateway (`recvLoop` and `onDtmfDigit` of src/app/main.cpp).
use sipdemo.Base.{
  ℕ, ◌<◌, ◌≡◌, refl, sym, ap, ◌∙◌, Bool, true, List, [], ◌∷◌, map, Option, none, some, arith, All,
  get_elem?,
}
use sipdemo.Base.Int.{pos}
use sipdemo.Rtp.{Bytes, value, RtpPacket, parse}
use sipdemo.Dtmf.{DtmfEvent, parse_payload, feed_event}
use sipdemo.Dtmf.Press.{Press, emit, digits, all_packets, keypad, feed_lem, digits-all_packets}
use sipdemo.Jitter.{JitterBuffer}
use sipdemo.Stats.{Double, RtpStats}
use sipdemo.Queue.{BoundedQueue}
use sipdemo.Sip.Uas.{Endpoint}
use sipdemo.Ws.Frame.{Mask}
use sipdemo.Ws.Client.{WsClient, send_text}
use sipdemo.Net.{Datagram, got}
use sipdemo.App.Media.{
  dtmf_json, MediaSession, latch, receive_event, on_dtmf_digit, receive_packet, is_telephone_event,
  recv_round,
}
use sipdemo.App.Media.Runs.{Event, received, step, run}

-- The datagrams are RTP packets of payload type `pt` that carry the events.
abbrev pub Carry : ℕ → List Datagram → List DtmfEvent → Type 0
Carry pt [] [] = Unit
Carry pt [] (e ∷ es) = ⊥
Carry pt (d ∷ ds) [] = ⊥
Carry pt (d ∷ ds) (e ∷ es) =
    ((p : RtpPacket) × (parse d.data_ ≡ value p)
      × (p.payload_type ≡ pt)
      × (parse_payload p.payload ≡ some e))
    × Carry pt ds es

module _ (f : Double) (mask : ℕ → Mask) (accepts : ℕ → Bool) where
  open f use {Number}

  -- A text frame for each digit.
  abbrev pub announce : WsClient → List ℕ → WsClient
  announce c [] = c
  announce c (digit ∷ ds) = announce (send_text mask accepts c (dtmf_json digit)).1 ds

  abbrev pub deliver : Number → List Datagram → List (Event f mask accepts)
  deliver now ds = map (λ d. received now (got d)) ds

  -- The audio path of a session.
  pub record Audio : Type 0 where
    pub queue : BoundedQueue RtpPacket
    pub jitter : JitterBuffer
    pub rtp_stats : RtpStats f

  abbrev pub audio : MediaSession f → Audio
  audio s = record { queue = s.queue; jitter = s.jitter; rtp_stats = s.rtp_stats }

  -- What one event does.
  record Heard (s t : MediaSession f) (e : DtmfEvent) : Type 0 where
    decoder : t.dtmf ≡ (feed_event s.dtmf e).1
    announced : (ds : List ℕ) → announce t.ws ds ≡ announce s.ws (emit (feed_event s.dtmf e).0 ds)
    unheard : audio t ≡ audio s
    type_kept : t.dtmf_payload_type ≡ s.dtmf_payload_type

  latch-Heard :
      (s : MediaSession f) (from : Endpoint)
      → ((latch f s from).dtmf ≡ s.dtmf)
        × ((latch f s from).ws ≡ s.ws)
        × (audio (latch f s from) ≡ audio s)
        × ((latch f s from).dtmf_payload_type ≡ s.dtmf_payload_type)
  unfolding latch
  latch-Heard s from = ground arith

  digit-announce :
      (s : MediaSession f) (o : Option ℕ) (ds : List ℕ)
      → announce (on_dtmf_digit f mask accepts s o).ws ds ≡ announce s.ws (emit o ds)
  unfolding on_dtmf_digit
  digit-announce s none ds = refl
  digit-announce s (some c) ds = refl

  digit-keeps :
      (s : MediaSession f) (o : Option ℕ)
      → ((on_dtmf_digit f mask accepts s o).dtmf ≡ s.dtmf)
        × (audio (on_dtmf_digit f mask accepts s o) ≡ audio s)
        × ((on_dtmf_digit f mask accepts s o).dtmf_payload_type ≡ s.dtmf_payload_type)
  unfolding on_dtmf_digit
  digit-keeps s none = (refl, refl, refl)
  digit-keeps s (some c) = (refl, refl, refl)

  event-Heard :
      (s : MediaSession f) (bs : Bytes) (e : DtmfEvent)
      → parse_payload bs ≡ some e
      → Heard s (receive_event f mask accepts s bs) e
  unfolding receive_event
  event-Heard s bs e read =
      let r = feed_event s.dtmf e in
      let (decoder, unheard, kept) = digit-keeps (record s { dtmf = r.1 }) r.0 in
      rw (feed_lem s.dtmf bs e read) (record {
        decoder = decoder;
        announced = digit-announce (record s { dtmf = r.1 }) r.0;
        unheard = unheard;
        type_kept = kept;
      })

  latched-Heard :
      (s u t : MediaSession f) (e : DtmfEvent)
      → u.dtmf ≡ s.dtmf
      → u.ws ≡ s.ws
      → audio u ≡ audio s
      → u.dtmf_payload_type ≡ s.dtmf_payload_type
      → Heard u t e
      → Heard s t e
  latched-Heard s u t e d w a k h = record {
    decoder = rw d at h.decoder;
    announced = λ ds. rw (d, w) at (h.announced ds);
    unheard = h.unheard ∙ a;
    type_kept = h.type_kept ∙ k;
  }

  receive-Heard :
      (s : MediaSession f) (now : Number) (d : Datagram) (e : DtmfEvent) (p : RtpPacket)
      → parse d.data_ ≡ value p
      → s.dtmf_payload_type ≡ pos p.payload_type
      → parse_payload p.payload ≡ some e
      → Heard s (recv_round f mask accepts s now (got d)) e
  unfolding recv_round receive_packet
  receive-Heard s now d e p read kind carries =
      let (dec, ws, unheard, kept) = latch-Heard s d.from in
      let u = latch f s d.from in
      let is_event : is_telephone_event f u p ≡ true = rw (kept, kind) (ground arith) in
      rw (read, is_event)
        (latched-Heard s u _ e dec ws unheard kept (event-Heard u p.payload e carries))

  deliver-announce :
      (ds : List Datagram) (es : List DtmfEvent) (s : MediaSession f) (now : Number) (pt : ℕ)
      → s.dtmf_payload_type ≡ pos pt
      → Carry pt ds es
      → ((run f mask accepts s (deliver now ds)).ws ≡ announce s.ws (digits s.dtmf es))
        × (audio (run f mask accepts s (deliver now ds)) ≡ audio s)
  unfolding run step digits
  deliver-announce [] [] s now pt kind c = (refl, refl)
  deliver-announce [] (e ∷ es) s now pt kind c = absurd c
  deliver-announce (d ∷ ds) [] s now pt kind c = absurd c
  deliver-announce (d ∷ ds) (e ∷ es) s now pt kind ((p, read, is, carries), c) =
      let h = receive-Heard s now d e p read (kind ∙ ap pos (sym is)) carries in
      let t = recv_round f mask accepts s now (got d) in
      let (ws, unheard) = deliver-announce ds es t now pt (h.type_kept ∙ kind) c in
      (
        ws ∙ (ap (λ d'. announce t.ws (digits d' es)) h.decoder ∙ h.announced _),
        unheard ∙ h.unheard,
      )

  -- Presses of the keys 0 to 15 that arrive as RFC 4733 sends them, each with one or more packets
  -- before its end packet and the end packet sent any number of times, in datagrams of the
  -- negotiated payload type and from any source: the gateway is sent just one text for each press,
  -- in order, with the digit of its key, and nothing of it reaches the audio, which is its queue,
  -- jitter buffer and statistics.
  pub presses-announce :
      (ps : List Press) (ds : List Datagram) (s : MediaSession f) (now : Number) (pt : ℕ)
      → All (λ p. p.key < 16) ps
      → s.dtmf_payload_type ≡ pos pt
      → Carry pt ds (all_packets ps)
      → (keys : List ℕ) × (map some keys ≡ map (λ p. get_elem? keypad p.key) ps)
        × ((run f mask accepts s (deliver now ds)).ws ≡ announce s.ws keys)
        × (audio (run f mask accepts s (deliver now ds)) ≡ audio s)
  presses-announce ps ds s now pt in_range kind c =
      let (ws, unheard) = deliver-announce ds (all_packets ps) s now pt kind c in
      (digits s.dtmf (all_packets ps), digits-all_packets s.dtmf ps in_range, ws, unheard)
