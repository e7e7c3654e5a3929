-- ===== src/App/Media/Pipeline.antt =====
-- The order of the audio from the jitter buffer through the bounded queue to the echo (src/app/main.cpp).
use mathlib.Core.List.{append_assoc, append-nil, map-append}
use sipdemo.Base.{
  ℕ, ◌≡◌, refl, sym, ap, ◌∙◌, Bool, not, ◌&&◌, inl, inr, List, [], ◌∷◌, ◌++◌, map, Option, none,
  some, Bool-cases, arith, ltb, length, if◌then◌else◌,
}
use sipdemo.Base.Int.{ℤ, pos, int_laws}
use sipdemo.Base.Text.{Text}
use sipdemo.Ws.Client.{WsClient}
use sipdemo.Rtp.{RtpPacket}
use sipdemo.Rtp.Bounds.{parse-sequence}
use sipdemo.Jitter
use sipdemo.Jitter.{JitterBuffer, Entry}
use sipdemo.Jitter.Invariant.{Ascending, Ascending-le, Filed, IsValid}
use sipdemo.Jitter.Insert.{insert-IsValid}
use sipdemo.Jitter.Pop.{pop-IsValid, create-IsValid, erase-Queued}
use sipdemo.Jitter.Playout.{Tick, idle, plays, loses, pop-Tick, insert_cursor}
use sipdemo.Stats.{Double}
use sipdemo.Queue
use sipdemo.Queue.{BoundedQueue, Waited, blocks, returns, try_push}
use sipdemo.Queue.Calls.{waits, ends, takes, pop-PopCase}
use sipdemo.Sip.Uas.{Endpoint}
use sipdemo.Ws.Frame.{Mask}
use sipdemo.Net.{Receipt}
use sipdemo.App.Media.{MediaSession, create, start, stop, playout_round, enqueue, output_round}
use sipdemo.App.Media.Keeps.{Received, nothing, arrived, recv_round-Received, echo_keeps}
use sipdemo.App.Media.Runs.{
  Event, received, ticked, emptied, ws_frame, ws_ended, stopped, step, run, outputs, output_of,
  consed,
}

abbrev pub packet_of : Entry → RtpPacket
packet_of e = e.1

-- The queue takes another item.
abbrev pub has_room : BoundedQueue RtpPacket → Bool
has_room q = not q.is_closed && ltb (length q.items) q.limit

-- A packet that the jitter buffer gives at a slot, where the queue takes it.
abbrev pub placed : BoundedQueue RtpPacket → ℤ → Option RtpPacket → List Entry
placed q slot none = []
placed q slot (some p) = if has_room q then (slot, p) ∷ [] else []

try_push-placed :
    (p : RtpPacket) (q : BoundedQueue RtpPacket) (slot : ℤ)
    → (try_push p q).1.items ≡ q.items ++ map packet_of (placed q slot (some p))
unfolding try_push
try_push-placed p q slot = elim (Bool-cases q.is_closed) [
  | inl shut ↦ rw shut (sym (append-nil q.items))
  | inr open_ ↦ elim (Bool-cases (ltb (length q.items) q.limit)) [
    | inl room ↦ ground (arith, open_, room)
    | inr full ↦ ground (arith, open_, full, append-nil q.items)
  ]
]

module _ (f : Double) (mask : ℕ → Mask) (accepts : ℕ → Bool) where
  open f use {Number}

  -- What a step puts into the queue, under the slot at which the playout clock stands.
  abbrev pub queued_of : MediaSession f → Event f mask accepts → List Entry
  queued_of s ticked = placed s.queue s.jitter.playout_ext (Jitter.pop s.jitter).packet
  queued_of s _ = []

  abbrev pub queued : MediaSession f → List (Event f mask accepts) → List Entry
  queued s [] = []
  queued s (e ∷ es) = queued_of s e ++ queued (step f mask accepts s e) es

  -- A step that leads to `t`, puts `ks` into the queue and takes `o` out.
  record Stepped (s t : MediaSession f) (ks : List Entry) (o : Option RtpPacket) : Type 0 where
    valid : IsValid t.jitter
    items_are : s.queue.items ++ map packet_of ks ≡ consed f mask accepts o [] ++ t.queue.items
    rises :
        (rest : List Entry)
        → Ascending t.jitter.playout_ext rest × Filed rest
        → Ascending s.jitter.playout_ext (ks ++ rest) × Filed (ks ++ rest)

  -- A step of another thread.
  same_media :
      (s t : MediaSession f)
      → t.queue.items ≡ s.queue.items
      → t.jitter ≡ s.jitter
      → IsValid s.jitter
      → Stepped s t [] none
  same_media s t q j v = record {
    valid = rw j v;
    items_are = append-nil s.queue.items ∙ sym q;
    rises = λ rest h. rw j at h;
  }

  Received-Stepped :
      (r : Receipt) (s t : MediaSession f)
      → Received f mask accepts r s t
      → IsValid s.jitter
      → Stepped s t [] none
  Received-Stepped r s t (nothing q j) v = same_media s t (ap (λ b. b.items) q) j v
  Received-Stepped r s t (arrived dg p here read q j) v = record {
    valid = rw j (insert-IsValid s.jitter p (parse-sequence dg.data_ p read) v);
    items_are = append-nil s.queue.items ∙ ap (λ b. b.items) (sym q);
    rises = λ rest h.
        let (up, filed) = rw j at h in
        (Ascending-le _ s.jitter.playout_ext rest (insert_cursor s.jitter p v) up, filed);
  }

  tick-Stepped :
      (s : MediaSession f) (r : Jitter.Popped)
      → Tick s.jitter r
      → IsValid r.after
      → IsValid s.jitter
      → Stepped s
          (enqueue f (record s { jitter = r.after }) r.packet)
          (placed s.queue s.jitter.playout_ext r.packet)
          none
  unfolding enqueue
  tick-Stepped s r (idle k b c n) v' v = record {
    valid = v';
    items_are = append-nil s.queue.items;
    rises = λ rest h. rw c at h;
  }
  tick-Stepped s r (loses k b c n gone) v' v = record {
    valid = v';
    items_are = append-nil s.queue.items;
    rises = λ rest h.
        let (up, filed) = rw c at h in
        (Ascending-le _ s.jitter.playout_ext rest (omega int_laws) up, filed);
  }
  tick-Stepped s r (plays k p b c n here) v' v =
      let (_, bits, _) =
        erase-Queued s.jitter.playout_ext s.jitter.highest_ext s.jitter.buf v.queued here in
      record {
        valid = v';
        items_are = sym (try_push-placed p s.queue s.jitter.playout_ext);
        rises = λ rest h.
            let (up, filed) = rw c at h in
            elim (Bool-cases (has_room s.queue)) [
              | inl room ↦ rw room ((omega arith, up), (bits, filed))
              | inr full ↦
                  rw full (Ascending-le _ s.jitter.playout_ext rest (omega int_laws) up, filed)
            ];
      }

  emptied-Stepped :
      (s : MediaSession f)
      → IsValid s.jitter
      → Stepped s (step f mask accepts s emptied) [] (output_of f mask accepts s emptied)
  unfolding step output_of output_round
  emptied-Stepped s v = elim (pop-PopCase s.queue) [
    | waits e r ↦ rw r (same_media s s refl refl v)
    | ends e r ↦ rw r (same_media s s refl refl v)
    | takes p ps e r ↦
        let shorter = record s { queue = record s.queue { items = ps } } in
        let (q, j) = echo_keeps f mask accepts shorter p in
        rw r (record {
          valid = rw j v;
          items_are =
              append-nil s.queue.items
              ∙ (e ∙ ap (λ (b : BoundedQueue RtpPacket). p ∷ b.items) (sym q));
          rises = λ rest h. rw j at h;
        })
  ]

  stop-Stepped : (s : MediaSession f) → IsValid s.jitter → Stepped s (stop f s) [] none
  unfolding stop Queue.close
  stop-Stepped s v = elim (Bool-cases s.active) [
    | inl on ↦ simp on (same_media s _ refl refl v)
    | inr off ↦ simp off (same_media s s refl refl v)
  ]

  step-Stepped :
      (s : MediaSession f) (e : Event f mask accepts)
      → IsValid s.jitter
      → Stepped s (step f mask accepts s e) (queued_of s e) (output_of f mask accepts s e)
  unfolding step output_of playout_round
  step-Stepped s (received now r) v =
      Received-Stepped r s _ (recv_round-Received f mask accepts s now r) v
  step-Stepped s ticked v =
      tick-Stepped s (Jitter.pop s.jitter) (pop-Tick s.jitter) (pop-IsValid s.jitter v) v
  step-Stepped s emptied v = emptied-Stepped s v
  step-Stepped s (ws_frame frame) v = same_media s _ refl refl v
  step-Stepped s ws_ended v = same_media s _ refl refl v
  step-Stepped s stopped v = stop-Stepped s v

  consed-append :
      (o : Option RtpPacket) (ps qs : List RtpPacket)
      → consed f mask accepts o [] ++ (ps ++ qs) ≡ consed f mask accepts o ps ++ qs
  consed-append none ps qs = refl
  consed-append (some p) ps qs = refl

  run-queued :
      (es : List (Event f mask accepts)) (s : MediaSession f)
      → IsValid s.jitter
      → (outputs f mask accepts s es ++ (run f mask accepts s es).queue.items
          ≡ s.queue.items ++ map packet_of (queued s es))
        × (Ascending s.jitter.playout_ext (queued s es) × Filed (queued s es))
  unfolding outputs run
  run-queued [] s v = (sym (append-nil s.queue.items), (tt, tt))
  run-queued (e ∷ es) s v =
      let t = step f mask accepts s e in
      let o = output_of f mask accepts s e in
      let one = step-Stepped s e v in
      let (rest, up) = run-queued es t one.valid in
      let now = map packet_of (queued_of s e) in
      let later = map packet_of (queued t es) in
      let left = (run f mask accepts t es).queue.items in
      (
        sym (consed-append o (outputs f mask accepts t es) left)
            ∙ (ap (λ ps. consed f mask accepts o [] ++ ps) rest
                ∙ (sym (append_assoc (consed f mask accepts o []) t.queue.items later)
                    ∙ (ap (◌++ later) (sym one.items_are)
                        ∙ (append_assoc s.queue.items now later
                            ∙ ap (λ ps. s.queue.items ++ ps)
                                (sym (map-append packet_of (queued_of s e) (queued t es))))))),
        one.rises (queued t es) up,
      )

  -- From the start of a session, whatever is received and in whatever order the threads run: the
  -- packets that the output loop has taken to echo, followed by those in the queue, are just those
  -- that the jitter buffer gave to a tick while the queue had room, in that order; and the slots at
  -- which the playout clock stood for them rise strictly, and the sequence number of each is the low
  -- 16 bits of its slot, so that none is echoed twice or behind a later one. No assumption is made
  -- on the datagrams.
  pub echo_in_order :
      (connect : Text → WsClient → WsClient) (url : Text) (remote : Endpoint) (pt dtmf : ℤ)
      (es : List (Event f mask accepts))
      → let s = start f connect (create f url) remote pt dtmf in
        (outputs f mask accepts s es ++ (run f mask accepts s es).queue.items
          ≡ map packet_of (queued s es))
        × (Ascending (pos 0) (queued s es) × Filed (queued s es))
  echo_in_order connect url remote pt dtmf es =
      unfold start create Queue.create in
      run-queued es (start f connect (create f url) remote pt dtmf)
        (create-IsValid (record { target_depth = 3; capacity = 100 }))
