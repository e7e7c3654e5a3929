-- ===== src/Stats/Loss.antt =====
-- The loss figures of src/stats/RtpStats.cpp for streams that arrive in order, across the
-- wraparound of the 16-bit numbers.
use sipdemo.Base.{
  ℕ, suc, ◌+◌, ◌-◌, ◌%◌, ◌^◌, ◌≤◌, ◌<◌, ◌≡◌, refl, ap, ◌∙◌, true, List, [], ◌∷◌, arith, length,
}
use sipdemo.Base.Int.{ℤ, pos, ◌+ℤ◌, ◌-ℤ◌, signed, unsigned, int_laws}
use sipdemo.Jitter.{inc64}
use sipdemo.Jitter as Jitter
use sipdemo.Jitter.Extend.{extend-unsigned}
use sipdemo.Stats.{
  Double, RtpStats, create, extend, update, count_packet, time_packet, expected, lost,
}

extend-eq-extend : (seq : ℕ) (r : ℤ) → extend seq r ≡ Jitter.extend seq r
unfolding extend Jitter.extend
extend-eq-extend seq r = refl

module _ (f : Double) where
  open f use {Number}

  -- A packet: its number in the sender's count, its timestamp and its arrival time.
  pub record Sent : Type 0 where
    pub number : ℕ
    pub timestamp : ℕ
    pub arrival : Number

  unfoldable pub update_all : RtpStats f → List Sent → RtpStats f
  update_all s [] = s
  update_all s (p ∷ ps) = update_all (update f s (p.number % 2 ^ 16) p.timestamp p.arrival) ps

  -- A stream in order: each packet is later than the one before it by less than half the sequence
  -- space; what is skipped is lost.
  abbrev pub Rises : ℕ → List Sent → Type 0
  Rises x [] = Unit
  Rises x (p ∷ ps) = (x < p.number) × (p.number < x + 32768) × Rises p.number ps

  abbrev pub last : ℕ → List Sent → ℕ
  last x [] = x
  last x (p ∷ ps) = last p.number ps

  -- After `n` packets of the stream that began at `x` and got to `y`.
  record Follows (x y n : ℕ) (s : RtpStats f) : Type 0 where
    on : s.started ≡ true
    base : s.base_ext ≡ pos (x % 65536)
    max : s.max_ext ≡ pos (y - x + x % 65536)
    ahead : x ≤ y
    counted : s.received ≡ n % 2 ^ 64
    ordered : s.reordered ≡ 0

  -- The unwrapped number of a packet that follows is its true distance from the start.
  extend_next :
      (x y z : ℕ)
      → x ≤ y
      → y < z
      → z < y + 32768
      → extend (z % 2 ^ 16) (pos (y - x + x % 65536)) ≡ pos (z - x + x % 65536)
  extend_next x y z h k near =
      let low : z % 2 ^ 16 ≡ unsigned 16 (pos (z - x + x % 65536)) =
        unfold unsigned in omega arith in
      rw (extend-eq-extend, low) (extend-unsigned _ _ (omega int_laws) (omega int_laws))

  update-Follows :
      (x y n : ℕ) (p : Sent) (s : RtpStats f)
      → y < p.number
      → p.number < y + 32768
      → Follows x y n s
      → Follows x p.number (n + 1) (update f s (p.number % 2 ^ 16) p.timestamp p.arrival)
  unfolding update count_packet time_packet
  update-Follows x y n p s h k t =
      let next : extend (p.number % 2 ^ 16) s.max_ext ≡ pos (p.number - x + x % 65536) =
        rw t.max (extend_next x y p.number t.ahead h k) in
      record {
        on = ground arith;
        base = ground arith;
        max = ground arith;
        ahead = omega (arith, t.ahead);
        counted = ground arith;
        ordered = ground arith;
      }

  update_all-Follows :
      (ps : List Sent) (x y n : ℕ) (s : RtpStats f)
      → Rises y ps
      → Follows x y n s
      → Follows x (last y ps) (n + length ps) (update_all s ps)
  unfolding update_all
  update_all-Follows [] x y n s r t = let e : n + 0 ≡ n = omega arith in rw e t
  update_all-Follows (p ∷ ps) x y n s r t =
      let e : n + suc (length ps) ≡ n + 1 + length ps = omega arith in
      rw e (
        update_all-Follows ps x p.number (n + 1)
          (update f s (p.number % 2 ^ 16) p.timestamp p.arrival) r.2
          (update-Follows x y n p s r.0 r.1 t))

  first-Follows :
      (rate : ℕ) (p : Sent)
      → Follows p.number p.number 1
          (update f (create f rate) (p.number % 2 ^ 16) p.timestamp p.arrival)
  unfolding update count_packet time_packet create
  first-Follows rate p = record {
    on = refl;
    base = refl;
    max = ap pos (omega arith);
    ahead = omega arith;
    counted = refl;
    ordered = refl;
  }

  length-le-last : (x : ℕ) (ps : List Sent) → Rises x ps → x + length ps ≤ last x ps
  length-le-last x [] r = omega arith
  length-le-last x (p ∷ ps) r = omega (arith, length-le-last p.number ps r.2, r.0)

  figures :
      (x y n : ℕ) (s : RtpStats f)
      → y - x < 2 ^ 63 - 1
      → n ≤ y - x + 1
      → Follows x y n s
      → (expected f s ≡ y - x + 1) × (lost f s ≡ pos (y - x + 1 - n))
  unfolding expected lost
  figures x y n s short few t =
      let span : expected f s ≡ y - x + 1 =
        unfold unsigned ◌-ℤ◌ ◌+ℤ◌ in rw (t.on, t.max, t.base) (ground (arith, t.ahead)) in
      let gone : lost f s ≡ pos (y - x + 1 - n) =
        unfold signed ◌-ℤ◌ in rw (span, t.counted) (ground arith) in
      (span, gone)

  -- A stream that arrives in order, with gaps of less than half the sequence space, gives exact
  -- figures across any number of wraparounds: from a fresh state, `expected` is the length of
  -- the span from the first packet to the last, `lost` is what the span has more than the packets
  -- that came, and nothing counts as reordered. The span is below 2 ^ 63.
  pub in_order_figures :
      (rate : ℕ) (p : Sent) (ps : List Sent)
      → Rises p.number ps
      → last p.number ps - p.number < 2 ^ 63 - 1
      → let s = update_all (create f rate) (p ∷ ps) in
        (expected f s ≡ last p.number ps - p.number + 1)
        × (lost f s ≡ pos (last p.number ps - p.number - length ps))
        × (s.reordered ≡ 0)
  in_order_figures rate p ps r short =
      let s1 = update f (create f rate) (p.number % 2 ^ 16) p.timestamp p.arrival in
      let t = update_all-Follows ps p.number p.number 1 s1 r (first-Follows rate p) in
      let fits = length-le-last p.number ps r in
      let (e, l) =
        figures p.number (last p.number ps) (1 + length ps) (update_all s1 ps) short
          (omega (arith, fits)) t in
      unfold update_all in (e, l ∙ ap pos (omega arith), t.ordered)
