-- ===== src/App/Media/Echoes.antt =====
-- What each round of the output loop sends back (src/app/main.cpp), by the fields of the session
-- that number and time it.
use mathlib.Core.List.{append-nil, append_assoc}
use sipdemo.Base.{
  ℕ, ◌+◌, ◌%◌, ◌^◌, ◌<◌, ◌≡◌, refl, sym, ap, ◌∙◌, Bool, List, [], ◌∷◌, ◌++◌, map, none, some, arith,
  length, All,
}
use sipdemo.Base.Int.{ℤ, pos, unsigned}
use sipdemo.Rtp.{Bytes, Outcome, value, RtpPacket, new_packet, parse, serialize, IsPlain}
use sipdemo.Rtp.RoundTrip.{parse-serialize}
use sipdemo.Rtp.Bounds.{AreBytes}
use sipdemo.Stats.{Double}
use sipdemo.Queue.Calls.{waits, ends, takes, pop-PopCase}
use sipdemo.Sip.Uas.{Endpoint}
use sipdemo.Ws.Frame.{Mask}
use sipdemo.Jitter
use sipdemo.App.Media.{
  MediaSession, playout_round, decoded, encoded, echo_packet, output_round, echo, fork,
}
use sipdemo.App.Media.Recode.{returned, recode_lem}
use sipdemo.App.Media.Sender.{
  Sender, sender, recv_round-sender, enqueue-sender, stop-sender, fork-sender,
}
use sipdemo.App.Media.Runs.{
  Event, received, ticked, emptied, ws_frame, ws_ended, stopped, step, run, outputs, output_of,
}

-- The packets of the stream from packet `n` on, behind `total` samples.
abbrev pub stream : ℕ → ℕ → ℕ → ℕ → List RtpPacket → List RtpPacket
stream pt ssrc n total [] = []
stream pt ssrc n total (p ∷ ps) =
    record new_packet {
      payload_type = pt;
      sequence = n % 2 ^ 16;
      timestamp = total % 2 ^ 32;
      ssrc = ssrc;
      payload = returned pt p.payload;
    }
    ∷ stream pt ssrc (n + 1) (total + length p.payload) ps

-- The datagrams, parsed.
abbrev pub read_back : List (Bytes × Endpoint) → List (Outcome RtpPacket)
read_back ds = map (λ d. parse d.0) ds

read_back-snoc :
    (ds : List (Bytes × Endpoint)) (d : Bytes × Endpoint)
    → read_back (ds ++ d ∷ []) ≡ read_back ds ++ parse d.0 ∷ []
read_back-snoc [] d = refl
read_back-snoc (x ∷ ds) d = ap (◌∷◌ (parse x.0)) (read_back-snoc ds d)

module _ (f : Double) (mask : ℕ → Mask) (accepts : ℕ → Bool) (pt ssrc : ℕ) where
  open f use {Number}

  -- The sender stands before packet `n`, behind `total` samples.
  pub record Sends (n total : ℕ) (x : Sender) : Type 0 where
    pub codec_is : x.codec ≡ pos pt
    pub source_is : x.source ≡ ssrc
    pub seq_is : x.next_seq ≡ n % 2 ^ 16
    pub ts_is : x.next_ts ≡ total % 2 ^ 32

  abbrev nth : ℕ → ℕ → Bytes → RtpPacket
  nth n total codes = record new_packet {
    payload_type = pt;
    sequence = n % 2 ^ 16;
    timestamp = total % 2 ^ 32;
    ssrc = ssrc;
    payload = codes;
  }

  nth-IsPlain :
      (n total : ℕ) (codes : Bytes) → pt < 128 → ssrc < 2 ^ 32 → IsPlain (nth n total codes)
  nth-IsPlain n total codes small word = record {
    version_two = refl;
    no_padding = refl;
    no_extension = refl;
    type_fits = small;
    sequence_fits = omega arith;
    timestamp_fits = omega arith;
    ssrc_fits = word;
    few_sources = omega arith;
    sources_fit = tt;
  }

  echo_packet_lem :
      (s t : MediaSession f) (pcm : List ℤ) (n total : ℕ) (codes : Bytes)
      → encoded f t pcm ≡ codes
      → pt < 128
      → sender f mask accepts t ≡ sender f mask accepts s
      → Sends n total (sender f mask accepts s)
      → echo_packet f t pcm ≡ nth n total codes
  unfolding unsigned
  echo_packet_lem s t pcm n total codes audio small same now =
      let seq = ap (λ x. x.next_seq) same ∙ now.seq_is in
      let stamp = ap (λ x. x.next_ts) same ∙ now.ts_is in
      let source = ap (λ x. x.source) same ∙ now.source_is in
      let kind : unsigned 8 t.payload_type ≡ pt =
        rw (ap (λ x. x.codec) same, now.codec_is) (omega arith) in
      λ i. record new_packet {
        payload_type = kind i;
        sequence = seq i;
        timestamp = stamp i;
        ssrc = source i;
        payload = audio i;
      }

  echo_lem :
      (s : MediaSession f) (p : RtpPacket) (n total : ℕ)
      → pt < 128
      → ssrc < 2 ^ 32
      → AreBytes p.payload
      → Sends n total (sender f mask accepts s)
      → (read_back (echo f mask accepts s p).echoed
          ≡ read_back s.echoed ++ value (nth n total (returned pt p.payload)) ∷ [])
        × Sends (n + 1) (total + length p.payload) (sender f mask accepts (echo f mask accepts s p))
  unfolding echo
  echo_lem s p n total small word h now =
      let pcm = decoded f s p.payload in
      let t = fork f mask accepts s pcm in
      let same = fork-sender f mask accepts s pcm in
      let codec : t.payload_type ≡ pos pt = ap (λ x. x.codec) same ∙ now.codec_is in
      let (audio, size) = recode_lem f pt s t p.payload now.codec_is codec h in
      let made : echo_packet f t pcm ≡ nth n total (returned pt p.payload) =
        echo_packet_lem s t pcm n total (returned pt p.payload) audio small same now in
      let back =
        ap (λ q. parse (serialize q)) made
        ∙ parse-serialize _ (nth-IsPlain n total (returned pt p.payload) small word) in
      let seq = ap (λ x. x.next_seq) same ∙ now.seq_is in
      let stamp = ap (λ x. x.next_ts) same ∙ now.ts_is in
      (
        read_back-snoc t.echoed _ ∙ λ i. read_back (same i).wire ++ back i ∷ [],
        record {
          codec_is = codec;
          source_is = ap (λ x. x.source) same ∙ now.source_is;
          seq_is = omega (arith, seq);
          ts_is = omega (arith, stamp, size);
        },
      )

  -- A step of another thread leaves the sender.
  still :
      (s t : MediaSession f) (n total : ℕ)
      → sender f mask accepts t ≡ sender f mask accepts s
      → Sends n total (sender f mask accepts s)
      → Sends n total (sender f mask accepts t)
  still s t n total e h = rw e h

  -- What one step sends.
  data Sent (s : MediaSession f) (n total : ℕ) (e : Event f mask accepts) : Type 0 where
    silent :
        output_of f mask accepts s e ≡ none
        → sender f mask accepts (step f mask accepts s e) ≡ sender f mask accepts s
        → Sent s n total e
    sends :
        (p : RtpPacket)
        → output_of f mask accepts s e ≡ some p
        → (AreBytes p.payload
            → (read_back (step f mask accepts s e).echoed
                ≡ read_back s.echoed ++ value (nth n total (returned pt p.payload)) ∷ [])
              × Sends
                  (n + 1)
                  (total + length p.payload)
                  (sender f mask accepts (step f mask accepts s e)))
        → Sent s n total e

  step-Sent :
      (s : MediaSession f) (n total : ℕ) (e : Event f mask accepts)
      → pt < 128
      → ssrc < 2 ^ 32
      → Sends n total (sender f mask accepts s)
      → Sent s n total e
  unfolding step output_of output_round playout_round
  step-Sent s n total (received now r) small word h =
      silent refl (recv_round-sender f mask accepts s now r)
  step-Sent s n total ticked small word h =
      silent refl (enqueue-sender f mask accepts _ (Jitter.pop s.jitter).packet)
  step-Sent s n total (ws_frame frame) small word h = silent refl refl
  step-Sent s n total ws_ended small word h = silent refl refl
  step-Sent s n total stopped small word h = silent refl (stop-sender f mask accepts s)
  step-Sent s n total emptied small word h = elim (pop-PopCase s.queue) [
    | waits e r ↦ silent (rw r) (rw r)
    | ends e r ↦ silent (rw r) (rw r)
    | takes p ps e r ↦
        let shorter = record s { queue = record s.queue { items = ps } } in
        sends p (rw r) λ bytes. rw r (echo_lem shorter p n total small word bytes h)
  ]

  pub run-stream :
      (es : List (Event f mask accepts)) (s : MediaSession f) (n total : ℕ)
      → pt < 128
      → ssrc < 2 ^ 32
      → Sends n total (sender f mask accepts s)
      → All (λ p. AreBytes p.payload) (outputs f mask accepts s es)
      → read_back (run f mask accepts s es).echoed
        ≡ read_back s.echoed ++ map value (stream pt ssrc n total (outputs f mask accepts s es))
  unfolding outputs run
  run-stream [] s n total small word h bytes = sym (append-nil (read_back s.echoed))
  run-stream (e ∷ es) s n total small word h bytes = elim (step-Sent s n total e small word h) [
    | silent none_out same ↦
        let t = step f mask accepts s e in
        rw none_out (
          run-stream es t n total small word (still s t n total same h) (rw none_out at bytes)
          ∙ λ i.
              read_back (same i).wire
              ++ map value (stream pt ssrc n total (outputs f mask accepts t es)))
    | sends p out gives ↦
        let t = step f mask accepts s e in
        let both : AreBytes p.payload
            × All (λ p. AreBytes p.payload) (outputs f mask accepts t es) =
          rw out at bytes in
        let (one, next) = gives both.0 in
        let first = nth n total (returned pt p.payload) in
        let rest =
          map value
            (stream pt ssrc (n + 1) (total + length p.payload) (outputs f mask accepts t es)) in
        rw out (
          run-stream es t (n + 1) (total + length p.payload) small word next both.1
          ∙ (ap (◌++ rest) one ∙ append_assoc (read_back s.echoed) (value first ∷ []) rest))
  ]
