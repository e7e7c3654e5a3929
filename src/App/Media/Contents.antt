-- ===== src/App/Media/Contents.antt =====
-- What the receiver takes in is what comes out at the echo (src/app/main.cpp): a property of each
-- packet that arrives holds of each one that is queued or taken out.
use sipdemo.Base.{
  ℕ, ◌≡◌, refl, Bool, inl, inr, List, [], ◌∷◌, Option, none, some, Bool-cases, length, ltb, All,
  All-append,
}
use sipdemo.Base.Int.{ℤ, pos, ltb_ℤ, eqb_ℤ}
use sipdemo.Base.Text.{Text}
use sipdemo.Ws.Client.{WsClient}
use sipdemo.Rtp.{RtpPacket, parse, value}
use sipdemo.Jitter
use sipdemo.Jitter.{
  Entry, JitterBuffer, inc64, extend, emplace, count, find, erase, trim, accept, insert_at, insert,
  Popped, taken,
}
use sipdemo.Jitter.Playout.{Tick, idle, plays, loses, pop-Tick}
use sipdemo.Stats.{Double}
use sipdemo.Queue
use sipdemo.Queue.Calls.{try_push_cases, waits, ends, takes, pop-PopCase}
use sipdemo.Sip.Uas.{Endpoint}
use sipdemo.Ws.Frame.{Mask}
use sipdemo.Net.{Receipt, got}
use sipdemo.App.Media.{MediaSession, create, start, stop, playout_round, enqueue, output_round}
use sipdemo.App.Media.Keeps.{Received, nothing, arrived, recv_round-Received, echo_keeps}
use sipdemo.App.Media.Runs.{
  Event, received, ticked, emptied, ws_frame, ws_ended, stopped, step, outputs, output_of, consed,
}

module _ {κ} (P : RtpPacket → Type κ) where
  abbrev pub Held : List Entry → Type κ
  Held es = All (λ e. P e.1) es

  emplace-Held : (k : ℤ) (p : RtpPacket) (es : List Entry) → P p → Held es → Held (emplace k p es)
  unfolding emplace
  emplace-Held k p [] h hs = (h, tt)
  emplace-Held k p ((n, q) ∷ es) h hs = elim (Bool-cases (ltb_ℤ k n)) [
    | inl before ↦ rw before (h, hs)
    | inr behind ↦ elim (Bool-cases (eqb_ℤ k n)) [
      | inl same ↦ rw (behind, same) hs
      | inr other ↦ rw (behind, other) (hs.0, emplace-Held k p es h hs.1)
    ]
  ]

  trim-Held : (c : ℕ) (es : List Entry) (n : ℤ) (d : ℕ) → Held es → Held (trim c es n d).queue
  unfolding trim
  trim-Held c [] n d h = tt
  trim-Held c ((k, p) ∷ es) n d h = elim (Bool-cases (ltb c (length ((k, p) ∷ es)))) [
    | inl over ↦ rw over (trim-Held c es _ (inc64 d) h.1)
    | inr fits ↦ rw fits h
  ]

  erase-Held : (es : List Entry) (k : ℤ) → Held es → Held (erase es k)
  unfolding erase
  erase-Held [] k h = tt
  erase-Held ((n, q) ∷ es) k h = elim (Bool-cases (eqb_ℤ n k)) [
    | inl same ↦ rw same h.1
    | inr other ↦ rw other (h.0, erase-Held es k h.1)
  ]

  -- It holds of the packet, if there is one.
  abbrev OnSome : Option RtpPacket → Type κ
  OnSome none = Unit
  OnSome (some p) = P p

  find-Held : (es : List Entry) (k : ℤ) → Held es → OnSome (find es k)
  unfolding find
  find-Held [] k h = tt
  find-Held ((n, q) ∷ es) k h = elim (Bool-cases (eqb_ℤ n k)) [
    | inl same ↦ rw same h.0
    | inr other ↦ rw other (find-Held es k h.1)
  ]

  insert_at-Held :
      (j : JitterBuffer) (k : ℤ) (p : RtpPacket) → P p → Held j.buf → Held (insert_at j k p).buf
  unfolding insert_at accept
  insert_at-Held j k p h hs = elim (Bool-cases (ltb_ℤ k j.playout_ext)) [
    | inl late ↦ rw late hs
    | inr due ↦ elim (Bool-cases (count j.buf k)) [
      | inl twice ↦ rw (due, twice) hs
      | inr first ↦
          rw (due, first)
            (trim-Held (j.cfg).capacity (emplace k p j.buf) j.playout_ext
              (j.counters).overflow_dropped (emplace-Held k p j.buf h hs))
    ]
  ]

  insert-Held : (j : JitterBuffer) (p : RtpPacket) → P p → Held j.buf → Held (insert j p).buf
  unfolding insert
  insert-Held j p h hs = elim (Bool-cases j.started) [
    | inl on ↦ simp on (insert_at-Held j (extend p.sequence j.highest_ext) p h hs)
    | inr off ↦ simp off (insert_at-Held _ (pos p.sequence) p h hs)
  ]

  tick-Held :
      (j : JitterBuffer) (r : Popped) → Tick j r → Held j.buf → Held (r.after).buf × OnSome r.packet
  tick-Held j r (idle k b c n) h = (rw b h, tt)
  tick-Held j r (loses k b c n gone) h = (rw b h, tt)
  tick-Held j r (plays k q b c n here) h =
      (rw (b, c) (erase-Held j.buf j.playout_ext h), rw here at (find-Held j.buf j.playout_ext h))

  module _ (f : Double) (mask : ℕ → Mask) (accepts : ℕ → Bool) where
    open f use {Number}

    -- It holds of each packet in the session.
    pub record Full (s : MediaSession f) : Type κ where
      pub buffered : Held s.jitter.buf
      pub queued : All P s.queue.items

    same-Full : (s t : MediaSession f) → t.queue ≡ s.queue → t.jitter ≡ s.jitter → Full s → Full t
    same-Full s t q j h = record { buffered = rw j h.buffered; queued = rw q h.queued }

    -- It holds of each packet that a datagram brings.
    abbrev pub Brings : Receipt → Type κ
    Brings (got dg) = (p : RtpPacket) → parse dg.data_ ≡ value p → P p
    Brings _ = Unit

    abbrev pub BringsAll : List (Event f mask accepts) → Type κ
    BringsAll [] = Unit
    BringsAll (received now r ∷ es) = Brings r × BringsAll es
    BringsAll (_ ∷ es) = BringsAll es

    Received-Full :
        (r : Receipt) (s t : MediaSession f)
        → Received f mask accepts r s t
        → Brings r
        → Full s
        → Full t
    Received-Full r s t (nothing q j) h o = same-Full s t q j o
    Received-Full r s t (arrived dg p here read q j) h o =
        let brings : Brings (got dg) = rw here at h in
        record {
          buffered = rw j (insert-Held s.jitter p (brings p read) o.buffered);
          queued = rw q o.queued;
        }

    enqueue-Full :
        (s : MediaSession f) (o : Option RtpPacket) → OnSome o → Full s → Full (enqueue f s o)
    unfolding enqueue
    enqueue-Full s none h o = o
    enqueue-Full s (some p) h o = elim (try_push_cases p s.queue) [
      | inr full ↦ record { buffered = o.buffered; queued = rw full o.queued }
      | inl pushed ↦ record {
        buffered = o.buffered;
        queued = rw pushed (All-append P s.queue.items (p ∷ []) o.queued (h, tt));
      }
    ]

    emptied-Full :
        (s : MediaSession f)
        → Full s
        → OnSome (output_of f mask accepts s emptied) × Full (step f mask accepts s emptied)
    unfolding step output_of output_round
    emptied-Full s o = elim (pop-PopCase s.queue) [
      | waits e r ↦ rw r (tt, o)
      | ends e r ↦ rw r (tt, o)
      | takes p ps e r ↦
          let shorter = record s { queue = record s.queue { items = ps } } in
          let (q, j) = echo_keeps f mask accepts shorter p in
          let both : P p × All P ps = rw e at o.queued in
          rw r (both.0, same-Full shorter _ q j (record { buffered = o.buffered; queued = both.1 }))
    ]

    stop-Full : (s : MediaSession f) → Full s → Full (stop f s)
    unfolding stop Queue.close
    stop-Full s o = elim (Bool-cases s.active) [
      | inl on ↦ rw on (record { buffered = o.buffered; queued = o.queued })
      | inr off ↦ rw off (same-Full s _ refl refl o)
    ]

    consed-All :
        (o : Option RtpPacket) (ps : List RtpPacket)
        → OnSome o
        → All P ps
        → All P (consed f mask accepts o ps)
    consed-All none ps h hs = hs
    consed-All (some p) ps h hs = (h, hs)

    -- What is taken out came in.
    pub outputs-All :
        (es : List (Event f mask accepts)) (s : MediaSession f)
        → BringsAll es
        → Full s
        → All P (outputs f mask accepts s es)
    unfolding outputs step output_of playout_round
    outputs-All [] s b o = tt
    outputs-All (received now r ∷ es) s b o =
        outputs-All es _ b.1
          (Received-Full r s _ (recv_round-Received f mask accepts s now r) b.0 o)
    outputs-All (ticked ∷ es) s b o =
        let (rest, out) = tick-Held s.jitter (Jitter.pop s.jitter) (pop-Tick s.jitter) o.buffered in
        outputs-All es _ b (
          enqueue-Full (record s { jitter = (Jitter.pop s.jitter).after })
            (Jitter.pop s.jitter).packet out (record { buffered = rest; queued = o.queued }))
    outputs-All (ws_frame frame ∷ es) s b o = outputs-All es _ b (same-Full s _ refl refl o)
    outputs-All (ws_ended ∷ es) s b o = outputs-All es _ b (same-Full s _ refl refl o)
    outputs-All (stopped ∷ es) s b o = outputs-All es _ b (stop-Full s o)
    outputs-All (emptied ∷ es) s b o =
        let (out, rest) = emptied-Full s o in consed-All _ _ out (outputs-All es _ b rest)

    pub start-Full :
        (connect : Text → WsClient → WsClient) (url : Text) (remote : Endpoint) (pt dtmf : ℤ)
        → Full (start f connect (create f url) remote pt dtmf)
    unfolding start create Queue.create
    start-Full connect url remote pt dtmf = record { buffered = tt; queued = tt }
