-- ===== src/Codec/Resample.antt =====
-- include/sipdemo/Resample.h and src/codec/Resample.cpp: linear interpolation from 8 to 16 kHz.
use sipdemo.Base.{
  ℕ, zero, suc, ◌*◌, ◌≡◌, ◌⊎◌, inl, refl, List, [], ◌∷◌, Option, none, some, arith, length,
  get_elem?, All,
}
use sipdemo.Base.Int.{ℤ, pos, negsuc, ◌+ℤ◌, ◌≤ℤ◌, quot, signed, unsigned}

-- `static_cast<int16_t>((static_cast<int32_t>(a) + b) / 2)`.
pub midpoint : ℤ → ℤ → ℤ
unfolding signed unsigned quot ◌+ℤ◌
midpoint a b = signed 16 (unsigned 32 (quot (a +ℤ b) 2))

-- The loop, a sample at a time: the last sample is its own successor.
unfoldable pub upsample_8k_to_16k : List ℤ → List ℤ
unfolding midpoint
upsample_8k_to_16k [] = []
upsample_8k_to_16k (a ∷ []) = a ∷ midpoint a a ∷ []
upsample_8k_to_16k (a ∷ b ∷ rest) = a ∷ midpoint a b ∷ upsample_8k_to_16k (b ∷ rest)

abbrev pub IsInt16 : ℤ → Type 0
IsInt16 s = (negsuc 32767 ≤ℤ s) × (s ≤ℤ pos 32767)

-- Twice as many samples come out.
pub length-upsample_8k_to_16k : (pcm : List ℤ) → length (upsample_8k_to_16k pcm) ≡ 2 * length pcm
unfolding upsample_8k_to_16k
length-upsample_8k_to_16k [] = refl
length-upsample_8k_to_16k (a ∷ []) = refl
length-upsample_8k_to_16k (a ∷ b ∷ rest) = omega (arith, length-upsample_8k_to_16k (b ∷ rest))

-- Between two samples of 16 bits the midpoint does not wrap: it is within the two, and off their
-- mean by less than one.
midpoint_lem :
    (a b : ℤ)
    → IsInt16 a
    → IsInt16 b
    → ((a ≤ℤ midpoint a b) × (midpoint a b ≤ℤ b)) ⊎ ((b ≤ℤ midpoint a b) × (midpoint a b ≤ℤ a))
unfolding midpoint
midpoint_lem (pos a) (pos b) ha hb = ground arith
midpoint_lem (pos a) (negsuc b) ha hb = ground arith
midpoint_lem (negsuc a) (pos b) ha hb = ground arith
midpoint_lem (negsuc a) (negsuc b) ha hb = ground arith

midpoint_self : (a : ℤ) → IsInt16 a → midpoint a a ≡ a
unfolding midpoint
midpoint_self (pos a) h = ground arith
midpoint_self (negsuc a) h = ground arith

-- `m` is within `a` and `b`.
abbrev pub Between : ℤ → ℤ → ℤ → Type 0
Between a b m = ((a ≤ℤ m) × (m ≤ℤ b)) ⊎ ((b ≤ℤ m) × (m ≤ℤ a))

-- What follows a sample: the next one, or at the end the sample itself.
abbrev pub successor : ℤ → Option ℤ → ℤ
successor a none = a
successor a (some b) = b

double_suc : (i : ℕ) → 2 * suc i ≡ suc (suc (2 * i))
double_suc i = omega arith

-- Sample `i` of 16-bit input stands at place 2i of the output, and what stands behind it there
-- lies within it and the sample that follows it.
pub upsample_8k_to_16k_lem :
    (pcm : List ℤ) (i : ℕ) (a : ℤ)
    → All IsInt16 pcm
    → get_elem? pcm i ≡ some a
    → (get_elem? (upsample_8k_to_16k pcm) (2 * i) ≡ some a)
      × ((m : ℤ) × (get_elem? (upsample_8k_to_16k pcm) (suc (2 * i)) ≡ some m)
          × Between a (successor a (get_elem? pcm (suc i))) m)
unfolding upsample_8k_to_16k
upsample_8k_to_16k_lem [] i a h e = cc
upsample_8k_to_16k_lem (x ∷ []) zero a h e = (
  e,
  (midpoint x x, refl, let x≡a : x ≡ a = cc in inl (rw (midpoint_self x h.0, x≡a) (omega arith))),
)
upsample_8k_to_16k_lem (x ∷ []) (suc i) a h e = cc
upsample_8k_to_16k_lem (x ∷ y ∷ rest) zero a h e =
    let x≡a : x ≡ a = cc in (e, (midpoint x y, refl, rw (← x≡a) (midpoint_lem x y h.0 h.1.0)))
upsample_8k_to_16k_lem (x ∷ y ∷ rest) (suc i) a h e =
    rw (double_suc i) (upsample_8k_to_16k_lem (y ∷ rest) i a h.1 e)
