-- ===== src/Codec/G711/Tables.antt =====
-- G.711 decoding and encoding compared over all codes and all samples (src/codec/G711.cpp).
use sipdemo.Base.{
  ℕ, ◌+◌, ◌*◌, ◌≤◌, ◌<◌, ◌≡◌, ◌≢◌, refl, Bool, true, ◌||◌, leb, ◌==◌, ==_iff, leb→le, arith,
}
use sipdemo.Base.Bits.{all_below, all_below_sound}
use sipdemo.Base.Int.{ℤ, pos, negsuc, ◌-ℤ◌, ◌≤ℤ◌, magnitude}
use sipdemo.Codec.G711.{encode_mu_law, decode_mu_law, encode_a_law, decode_a_law}

mu_codes : all_below 256 (λ c. c == 0x7f || encode_mu_law (decode_mu_law c) == c) ≡ true
unfolding all_below encode_mu_law decode_mu_law
mu_codes = refl

a_codes : all_below 256 (λ c. encode_a_law (decode_a_law c) == c) ≡ true
unfolding all_below encode_a_law decode_a_law
a_codes = refl

-- The decoded sample is within the quantisation step of the sample that was coded.
mu_close : ℤ → Bool
mu_close s = leb (32 * magnitude (decode_mu_law (encode_mu_law s) -ℤ s)) (magnitude s + 132)

a_close : ℤ → Bool
a_close s = leb (32 * magnitude (decode_a_law (encode_a_law s) -ℤ s)) (magnitude s + 256)

mu_positive : all_below 32768 (λ n. mu_close (pos n)) ≡ true
unfolding all_below encode_mu_law decode_mu_law mu_close ◌-ℤ◌
mu_positive = refl

mu_negative : all_below 32768 (λ n. mu_close (negsuc n)) ≡ true
unfolding all_below encode_mu_law decode_mu_law mu_close ◌-ℤ◌
mu_negative = refl

a_positive : all_below 32768 (λ n. a_close (pos n)) ≡ true
unfolding all_below encode_a_law decode_a_law a_close ◌-ℤ◌
a_positive = refl

a_negative : all_below 32768 (λ n. a_close (negsuc n)) ≡ true
unfolding all_below encode_a_law decode_a_law a_close ◌-ℤ◌
a_negative = refl

-- Every code but 0x7f, the second code for zero, is what its decoded sample is encoded to in
-- mu-law.
pub encode_mu_law-decode_mu_law : (c : ℕ) → c < 256 → c ≢ 0x7f → encode_mu_law (decode_mu_law c) ≡ c
encode_mu_law-decode_mu_law c h ne =
    let entry =
      all_below_sound 256 (λ c. c == 0x7f || encode_mu_law (decode_mu_law c) == c) c h mu_codes in
    ground arith

-- Every code is what its decoded sample is encoded to in A-law.
pub encode_a_law-decode_a_law : (c : ℕ) → c < 256 → encode_a_law (decode_a_law c) ≡ c
encode_a_law-decode_a_law c h =
    (==_iff _ c).0 (all_below_sound 256 (λ c. encode_a_law (decode_a_law c) == c) c h a_codes)

-- For each 16-bit sample s, mu-law encoding and decoding changes s by at most (|s| + 132) / 32,
-- also where the encoder clips.
pub decode_mu_law-encode_mu_law :
    (s : ℤ)
    → negsuc 32767 ≤ℤ s
    → s ≤ℤ pos 32767
    → 32 * magnitude (decode_mu_law (encode_mu_law s) -ℤ s) ≤ magnitude s + 132
decode_mu_law-encode_mu_law (pos n) lo hi =
    leb→le _ _
      (unfold mu_close in all_below_sound 32768 (λ n. mu_close (pos n)) n (omega arith) mu_positive)
decode_mu_law-encode_mu_law (negsuc n) lo hi = leb→le _ _ (
    unfold mu_close in all_below_sound 32768 (λ n. mu_close (negsuc n)) n (omega arith) mu_negative)

-- For each 16-bit sample s, A-law encoding and decoding changes s by at most (|s| + 256) / 32.
pub decode_a_law-encode_a_law :
    (s : ℤ)
    → negsuc 32767 ≤ℤ s
    → s ≤ℤ pos 32767
    → 32 * magnitude (decode_a_law (encode_a_law s) -ℤ s) ≤ magnitude s + 256
decode_a_law-encode_a_law (pos n) lo hi =
    leb→le _ _
      (unfold a_close in all_below_sound 32768 (λ n. a_close (pos n)) n (omega arith) a_positive)
decode_a_law-encode_a_law (negsuc n) lo hi =
    leb→le _ _
      (unfold a_close in all_below_sound 32768 (λ n. a_close (negsuc n)) n (omega arith) a_negative)
