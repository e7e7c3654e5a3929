-- ===== src/Generator/Send/Delivery.antt =====
-- What the generator of src/tools/rtp_sender.cpp sends in all.
use mathlib.Core.List.Perm
use mathlib.Core.List.{Perm, append_assoc, append-nil}
use sipdemo.Base.{
  ℕ, zero, suc, ◌+◌, ◌*◌, ◌%◌, ◌^◌, ◌≡◌, refl, ap, sym, ◌∙◌, Bool, ◌&&◌, List, [], ◌∷◌, ◌++◌,
  Option, none, some, ltb, ◌==◌, if◌then◌else◌, length, length-append, Bool-cases, inl, inr, arith,
}
use sipdemo.Base.Int.{ℤ, unsigned}
use sipdemo.Rtp.{Bytes, new_packet, serialize}
use sipdemo.Generator.Send.{
  samples_per_packet, Sender, total_packets, codes, packet, pass_on, send_round, send_rounds,
  finish, send_all,
}

-- What is held back, as a list.
abbrev waiting : Option Bytes → List Bytes
waiting none = []
waiting (some w) = w ∷ []

module _ (payload_type : ℤ) (ssrc : ℕ) (pcm : List ℤ) (loses holds : ℕ → Bool)
    (seq timestamp : ℕ) where
  -- Packet `p` as it is to be sent: its sequence number and timestamp are those of its place in the
  -- audio, whatever is lost before it.
  abbrev pub nth_wire : ℕ → Bytes
  nth_wire p = serialize (record new_packet {
    payload_type = unsigned 8 payload_type;
    marker = p == 0;
    sequence = (seq + p) % 2 ^ 16;
    timestamp = (timestamp + p * samples_per_packet) % 2 ^ 32;
    ssrc = ssrc;
    payload = codes payload_type ssrc pcm p;
  })

  -- The packets from `p` on, `n` of them, without the lost ones.
  abbrev pub kept : ℕ → ℕ → List Bytes
  kept zero p = []
  kept (suc n) p = if loses p then kept n (p + 1) else nth_wire p ∷ kept n (p + 1)

  abbrev pub lost_count : ℕ → ℕ → ℕ
  lost_count zero p = 0
  lost_count (suc n) p = if loses p then suc (lost_count n (p + 1)) else lost_count n (p + 1)

  -- The state before packet `p`.
  record At (p : ℕ) (s : Sender) : Type 0 where
    seq_is : s.seq ≡ (seq + p) % 2 ^ 16
    ts_is : s.timestamp ≡ (timestamp + p * samples_per_packet) % 2 ^ 32

  packet-At :
      (p : ℕ) (s : Sender) → At p s → serialize (packet payload_type ssrc pcm s p) ≡ nth_wire p
  unfolding packet
  packet-At p s h = rw (h.seq_is, h.ts_is)

  -- `d` packets have been lost before packet `p`, and the counters say so.
  record Tally (p d : ℕ) (s : Sender) : Type 0 where
    all_there : length s.wires + length (waiting s.held) + d ≡ p
    sent_is : s.sent ≡ length s.wires % 2 ^ 64
    dropped_is : s.dropped ≡ d % 2 ^ 64

  -- The packets that are out or held.
  abbrev taken_on : Sender → List Bytes
  taken_on s = s.wires ++ waiting s.held

  -- What a packet that is not lost does.
  record Passed (s t : Sender) (wire : Bytes) : Type 0 where
    seq_kept : t.seq ≡ s.seq
    ts_kept : t.timestamp ≡ s.timestamp
    dropped_kept : t.dropped ≡ s.dropped
    taken : Perm (taken_on t) (taken_on s ++ wire ∷ [])
    more : length t.wires + length (waiting t.held) ≡ suc (length s.wires + length (waiting s.held))
    counted : s.sent ≡ length s.wires % 2 ^ 64 → t.sent ≡ length t.wires % 2 ^ 64

  pass_on-Passed :
      (s : Sender) (p : ℕ) (wire : Bytes) (h : Option Bytes)
      → s.held ≡ h
      → Passed s (pass_on payload_type ssrc pcm loses holds s p wire h) wire
  unfolding pass_on
  pass_on-Passed s p wire (some earlier) e =
      let longer = length-append s.wires (wire ∷ earlier ∷ []) in
      record {
        seq_kept = refl;
        ts_kept = refl;
        dropped_kept = refl;
        taken =
            rw
              (
                e,
                append-nil (s.wires ++ wire ∷ earlier ∷ []),
                append_assoc s.wires (earlier ∷ []) (wire ∷ []),
              )
              (Perm.append_left s.wires (Perm.swap earlier wire []));
        more = rw e (omega (arith, longer));
        counted = λ c. omega (arith, c, longer);
      }
  pass_on-Passed s p wire none e =
      elim (Bool-cases (holds p && ltb (p + 1) (total_packets payload_type ssrc pcm))) [
        | inl back ↦ rw back (record {
          seq_kept = refl;
          ts_kept = refl;
          dropped_kept = refl;
          taken = rw (e, append-nil s.wires) (Perm.refl (s.wires ++ wire ∷ []));
          more = rw e (omega arith);
          counted = λ c. c;
        })
        | inr goes ↦
            let longer = length-append s.wires (wire ∷ []) in
            rw goes (record {
              seq_kept = refl;
              ts_kept = refl;
              dropped_kept = refl;
              taken =
                  rw (e, append-nil s.wires, append-nil (s.wires ++ wire ∷ []))
                    (Perm.refl (s.wires ++ wire ∷ []));
              more = rw e (omega (arith, longer));
              counted = λ c. omega (arith, c, longer);
            })
      ]

  -- What a round adds to the packets that are taken on.
  abbrev one : ℕ → List Bytes
  one p = if loses p then [] else nth_wire p ∷ []

  abbrev lost_one : ℕ → ℕ
  lost_one p = if loses p then 1 else 0

  record Rounded (p d : ℕ) (s t : Sender) : Type 0 where
    at_next : At (p + 1) t
    taken : Perm (taken_on t) (taken_on s ++ one p)
    tally : Tally (p + 1) (d + lost_one p) t

  round-Rounded :
      (p d : ℕ) (s : Sender)
      → At p s
      → Tally p d s
      → Rounded p d s (send_round payload_type ssrc pcm loses holds s p)
  unfolding send_round
  round-Rounded p d s h c = elim (Bool-cases (loses p)) [
    | inl lost ↦
        let none_new : one p ≡ [] = rw lost refl in
        let a_loss : lost_one p ≡ 1 = rw lost refl in
        rw lost (record {
          at_next = record { seq_is = omega (arith, h.seq_is); ts_is = omega (arith, h.ts_is) };
          taken = rw (none_new, append-nil (taken_on s)) (Perm.refl (taken_on s));
          tally = record {
            all_there = omega (arith, c.all_there, a_loss);
            sent_is = c.sent_is;
            dropped_is = omega (arith, c.dropped_is, a_loss);
          };
        })
    | inr stays ↦
        let moved = record s {
          seq = (s.seq + 1) % 2 ^ 16;
          timestamp = (s.timestamp + samples_per_packet) % 2 ^ 32;
        } in
        let wire = serialize (packet payload_type ssrc pcm s p) in
        let g = pass_on-Passed moved p wire s.held refl in
        let same : wire ≡ nth_wire p = packet-At p s h in
        let new : one p ≡ wire ∷ [] = rw stays (ap (λ w. w ∷ []) (sym same)) in
        let no_loss : lost_one p ≡ 0 = rw stays refl in
        rw stays (record {
          at_next = record {
            seq_is = g.seq_kept ∙ omega (arith, h.seq_is);
            ts_is = g.ts_kept ∙ omega (arith, h.ts_is);
          };
          taken = rw new g.taken;
          tally = record {
            all_there = omega (arith, c.all_there, g.more, no_loss);
            sent_is = g.counted c.sent_is;
            dropped_is = omega (arith, g.dropped_kept, c.dropped_is, no_loss);
          };
        })
  ]

  -- All the rounds.
  record Delivered (n p d : ℕ) (s t : Sender) : Type 0 where
    taken : Perm (taken_on t) (taken_on s ++ kept n p)
    tally : Tally (p + n) (d + lost_count n p) t

  kept_one : (n p : ℕ) → one p ++ kept n (p + 1) ≡ kept (suc n) p
  kept_one n p = elim (Bool-cases (loses p)) [ inl lost ↦ rw lost | inr stays ↦ rw stays ]

  lost_one_lem : (n p d : ℕ) → d + lost_one p + lost_count n (p + 1) ≡ d + lost_count (suc n) p
  lost_one_lem n p d = elim (Bool-cases (loses p)) [
    | inl lost ↦ rw lost (omega arith)
    | inr stays ↦ rw stays (omega arith)
  ]

  rounds-Delivered :
      (n p d : ℕ) (s : Sender)
      → At p s
      → Tally p d s
      → Delivered n p d s (send_rounds payload_type ssrc pcm loses holds n p s)
  unfolding send_rounds
  rounds-Delivered zero p d s h c = record {
    taken = rw (append-nil (taken_on s)) (Perm.refl (taken_on s));
    tally = record {
      all_there = omega (arith, c.all_there);
      sent_is = c.sent_is;
      dropped_is = omega (arith, c.dropped_is);
    };
  }
  rounds-Delivered (suc n) p d s h c =
      let g = round-Rounded p d s h c in
      let t = send_round payload_type ssrc pcm loses holds s p in
      let r = rounds-Delivered n (p + 1) (d + lost_one p) t g.at_next g.tally in
      record {
        taken =
            rw (append_assoc (taken_on s) (one p) (kept n (p + 1)), kept_one n p) at
              (Perm.trans r.taken (Perm.append_right (kept n (p + 1)) g.taken));
        tally = record {
          all_there = omega (arith, r.tally.all_there, lost_one_lem n p d);
          sent_is = r.tally.sent_is;
          dropped_is = omega (arith, r.tally.dropped_is, lost_one_lem n p d);
        };
      }

  finish_lem :
      (s : Sender) (h : Option Bytes)
      → s.sent ≡ length s.wires % 2 ^ 64
      → ((finish payload_type ssrc pcm loses holds s h).wires ≡ s.wires ++ waiting h)
        × ((finish payload_type ssrc pcm loses holds s h).sent
            ≡ (length s.wires + length (waiting h)) % 2 ^ 64)
        × ((finish payload_type ssrc pcm loses holds s h).dropped ≡ s.dropped)
  unfolding finish
  finish_lem s none c = (sym (append-nil s.wires), omega (arith, c), refl)
  finish_lem s (some w) c = (refl, omega (arith, c), refl)

  -- Whichever packets the generator loses or holds back: the datagrams that it sends are, up to
  -- their order, just the packets that are not lost, each once and with the sequence number and the
  -- timestamp of its place in the audio; and up to the wrap of the counters, `sent` and `dropped`
  -- count those that are sent and those that are lost, which together are all the packets.
  pub send_all_lem :
      let out = send_all payload_type ssrc pcm loses holds seq timestamp in
      let total = total_packets payload_type ssrc pcm in
      Perm out.wires (kept total 0)
      × (length out.wires + lost_count total 0 ≡ total)
      × (out.sent ≡ length out.wires % 2 ^ 64)
      × (out.dropped ≡ lost_count total 0 % 2 ^ 64)
  unfolding send_all
  send_all_lem =
      let first : Sender = record {
        seq = seq % 2 ^ 16;
        timestamp = timestamp % 2 ^ 32;
        held = none;
        sent = 0;
        dropped = 0;
        reordered = 0;
        wires = [];
      } in
      let total = total_packets payload_type ssrc pcm in
      let s = send_rounds payload_type ssrc pcm loses holds total 0 first in
      let r =
        rounds-Delivered total 0 0 first (record { seq_is = omega arith; ts_is = omega arith })
          (record { all_there = refl; sent_is = refl; dropped_is = refl }) in
      let (wires, sent, dropped) = finish_lem s s.held r.tally.sent_is in
      let size = length-append s.wires (waiting s.held) in
      let all = r.tally.all_there in
      (
        rw wires r.taken,
        rw wires (omega (arith, size, all)),
        rw wires (sent ∙ omega (arith, size)),
        omega (arith, dropped, r.tally.dropped_is),
      )
