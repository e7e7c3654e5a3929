-- ===== src/Jitter/Extend.antt =====
-- Unwrapping of 16-bit sequence numbers, `JitterBuffer::extend` in src/jitter/JitterBuffer.cpp.
use sipdemo.Base.{ℕ, zero, suc, ◌+◌, ◌*◌, ◌<◌, ◌≡◌, ◌⊎◌, inl, inr, refl, ◌∙◌, Bool-cases, arith}
use sipdemo.Base.Int.{ℤ, pos, negsuc, ◌+ℤ◌, ◌-ℤ◌, ◌≤ℤ◌, ◌<ℤ◌, ltb_ℤ, rem, unsigned, int_laws}
use sipdemo.Jitter.{step_down, step_up, extend}

unsigned-sub : (c : ℤ) → unsigned 16 (c -ℤ pos 65536) ≡ unsigned 16 c
unfolding unsigned ◌-ℤ◌
unsigned-sub (pos n) = ground arith
unsigned-sub (negsuc n) = ground arith

unsigned-add : (c : ℤ) → unsigned 16 (c +ℤ pos 65536) ≡ unsigned 16 c
unfolding unsigned ◌+ℤ◌
unsigned-add (pos n) = ground arith
unsigned-add (negsuc n) = ground arith

-- The loops keep the low 16 bits.
step_down-unsigned : (f : ℕ) (c r : ℤ) → unsigned 16 (step_down f c r) ≡ unsigned 16 c
unfolding step_down
step_down-unsigned zero c r = refl
step_down-unsigned (suc f) c r = elim (Bool-cases (ltb_ℤ (pos 32768) (c -ℤ r))) [
  | inl more ↦ rw more (step_down-unsigned f (c -ℤ pos 65536) r ∙ unsigned-sub c)
  | inr done ↦ rw done
]

step_up-unsigned : (f : ℕ) (c r : ℤ) → unsigned 16 (step_up f c r) ≡ unsigned 16 c
unfolding step_up
step_up-unsigned zero c r = refl
step_up-unsigned (suc f) c r = elim (Bool-cases (ltb_ℤ (pos 32768) (r -ℤ c))) [
  | inl more ↦ rw more (step_up-unsigned f (c +ℤ pos 65536) r ∙ unsigned-add c)
  | inr done ↦ rw done
]

-- Where the fuel covers the distance, the loop ends by its test, and it does not overshoot.
step_down_lem :
    (f : ℕ) (c r : ℤ)
    → c ≤ℤ r +ℤ pos (32768 + 65536 * f)
    → (step_down f c r ≤ℤ r +ℤ pos 32768)
      × ((r -ℤ pos 32768 ≤ℤ step_down f c r) ⊎ (step_down f c r ≡ c))
unfolding step_down
step_down_lem zero c r h = (omega int_laws, inr refl)
step_down_lem (suc f) c r h = elim (Bool-cases (ltb_ℤ (pos 32768) (c -ℤ r))) [
  | inl more ↦
      let far : pos 32768 <ℤ c -ℤ r = ground arith in
      let (hi, lo) = step_down_lem f (c -ℤ pos 65536) r (omega int_laws) in
      rw more (hi, elim lo [ inl lo ↦ inl lo | inr same ↦ inl (rw same (omega int_laws)) ])
  | inr done ↦ let near : c -ℤ r ≤ℤ pos 32768 = ground arith in rw done (omega int_laws, inr refl)
]

step_up_lem :
    (f : ℕ) (c r : ℤ)
    → r ≤ℤ c +ℤ pos (32768 + 65536 * f)
    → c ≤ℤ r +ℤ pos 32768
    → (r -ℤ pos 32768 ≤ℤ step_up f c r) × (step_up f c r ≤ℤ r +ℤ pos 32768)
unfolding step_up
step_up_lem zero c r h k = (omega int_laws, k)
step_up_lem (suc f) c r h k = elim (Bool-cases (ltb_ℤ (pos 32768) (r -ℤ c))) [
  | inl more ↦
      let far : pos 32768 <ℤ r -ℤ c = ground arith in
      rw more (step_up_lem f (c +ℤ pos 65536) r (omega int_laws) (omega int_laws))
  | inr done ↦ let near : r -ℤ c ≤ℤ pos 32768 = ground arith in rw done (omega int_laws, k)
]

-- The first candidate has the wanted low bits, and is less than two rounds away.
candidate-unsigned :
    (seq : ℕ) (r : ℤ) → seq < 65536 → unsigned 16 (r -ℤ rem r 65536 +ℤ pos seq) ≡ seq
unfolding unsigned ◌-ℤ◌ ◌+ℤ◌ rem
candidate-unsigned seq (pos n) h = ground arith
candidate-unsigned seq (negsuc n) h = ground arith

candidate_near :
    (seq : ℕ) (r : ℤ)
    → seq < 65536
    → (r -ℤ rem r 65536 +ℤ pos seq ≤ℤ r +ℤ pos (32768 + 65536 * 3))
      × (r ≤ℤ r -ℤ rem r 65536 +ℤ pos seq +ℤ pos 65535)
unfolding ◌-ℤ◌ ◌+ℤ◌ rem
candidate_near seq (pos n) h = ground arith
candidate_near seq (negsuc n) h = ground arith

-- The unwrapped number keeps the 16 bits that were received, and lies within half the sequence
-- space of the reference, whatever the sign of either: it is the nearest such number.
pub extend_lem :
    (seq : ℕ) (r : ℤ)
    → seq < 65536
    → (unsigned 16 (extend seq r) ≡ seq)
      × (r -ℤ pos 32768 ≤ℤ extend seq r)
      × (extend seq r ≤ℤ r +ℤ pos 32768)
unfolding extend
extend_lem seq r h =
    let c = r -ℤ rem r 65536 +ℤ pos seq in
    let (close, behind) = candidate_near seq r h in
    let d = step_down 3 c r in
    let (top, low) = step_down_lem 3 c r close in
    let start : r ≤ℤ d +ℤ pos (32768 + 65536 * 3) = elim low [
      | inl low ↦ omega int_laws
      | inr same ↦ rw same (omega int_laws)
    ] in
    let (lo, hi) = step_up_lem 3 d r start top in
    let bits = step_up-unsigned 3 d r ∙ (step_down-unsigned 3 c r ∙ candidate-unsigned seq r h) in
    (bits, lo, hi)

-- Where a sender's number is less than half the sequence space from the reference, `extend` of its
-- low 16 bits gives the number itself.
pub extend-unsigned :
    (x r : ℤ) → r -ℤ pos 32768 <ℤ x → x <ℤ r +ℤ pos 32768 → extend (unsigned 16 x) r ≡ x
extend-unsigned x r lo hi =
    let (bits, below, above) = extend_lem (unsigned 16 x) r (unsigned_lt x) in
    same_bits (extend (unsigned 16 x) r) x bits (omega int_laws) (omega int_laws)
  where
    unsigned_lt : (x : ℤ) → unsigned 16 x < 65536
    unsigned_lt (pos n) = unfold unsigned in omega arith
    unsigned_lt (negsuc n) = unfold unsigned in omega arith

    same_bits :
        (a b : ℤ)
        → unsigned 16 a ≡ unsigned 16 b
        → a <ℤ b +ℤ pos 65536
        → b <ℤ a +ℤ pos 65536
        → a ≡ b
    same_bits (pos m) (pos n) e h k = unfold unsigned ◌+ℤ◌ in ground arith
    same_bits (pos m) (negsuc n) e h k = unfold unsigned ◌+ℤ◌ in ground arith
    same_bits (negsuc m) (pos n) e h k = unfold unsigned ◌+ℤ◌ in ground arith
    same_bits (negsuc m) (negsuc n) e h k = unfold unsigned ◌+ℤ◌ in ground arith
