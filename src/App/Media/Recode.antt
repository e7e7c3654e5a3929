-- ===== src/App/Media/Recode.antt =====
-- What the output loop makes of audio that it decodes and encodes again (src/app/main.cpp,
-- src/codec/G711.cpp).
use sipdemo.Base.{
  ℕ, suc, ◌+◌, ◌≡◌, ◌≢◌, refl, ap, inl, inr, [], ◌∷◌, map, Bool-cases, arith, length, ◌==◌, ==_iff,
  if◌then◌else◌,
}
use sipdemo.Base.Int.{pos, eqb_ℤ}
use sipdemo.Rtp.{Bytes}
use sipdemo.Rtp.Bounds.{AreBytes}
use sipdemo.Codec.G711.{
  encode_mu_law, decode_mu_law, encode_mu_law_all, decode_mu_law_all, encode_a_law_all,
  decode_a_law_all,
}
use sipdemo.Codec.G711.Tables.{encode_mu_law-decode_mu_law, encode_a_law-decode_a_law}
use sipdemo.Stats.{Double}
use sipdemo.App.Media.{MediaSession, decoded, encoded}

-- The audio that comes back: A-law codes as they are, mu-law codes but for the negative zero.
abbrev pub returned : ℕ → Bytes → Bytes
returned pt codes = if pt == 8 then codes else map (λ c. if c == 0x7f then 0xff else c) codes

a_law_lem : (cs : Bytes) → AreBytes cs → encode_a_law_all (decode_a_law_all cs) ≡ cs
unfolding encode_a_law_all decode_a_law_all
a_law_lem [] h = refl
a_law_lem (c ∷ cs) h = rw (encode_a_law-decode_a_law c h.0, a_law_lem cs h.1)

negative_zero : encode_mu_law (decode_mu_law 0x7f) ≡ 0xff
unfolding encode_mu_law decode_mu_law
negative_zero = refl

mu_law_lem :
    (cs : Bytes)
    → AreBytes cs
    → encode_mu_law_all (decode_mu_law_all cs) ≡ map (λ c. if c == 0x7f then 0xff else c) cs
unfolding encode_mu_law_all decode_mu_law_all
mu_law_lem [] h = refl
mu_law_lem (c ∷ cs) h = elim (Bool-cases (c == 0x7f)) [
  | inl zero_code ↦
      let is : c ≡ 0x7f = (==_iff c 0x7f).0 zero_code in
      rw (zero_code, mu_law_lem cs h.1) (rw (is, negative_zero))
  | inr other ↦
      let differs : c ≢ 0x7f = λ e. let t = (==_iff c 0x7f).1 e in cc in
      rw (other, encode_mu_law-decode_mu_law c h.0 differs, mu_law_lem cs h.1)
]

length-decode_mu_law_all : (cs : Bytes) → length (decode_mu_law_all cs) ≡ length cs
unfolding decode_mu_law_all
length-decode_mu_law_all [] = refl
length-decode_mu_law_all (c ∷ cs) = ap suc (length-decode_mu_law_all cs)

length-decode_a_law_all : (cs : Bytes) → length (decode_a_law_all cs) ≡ length cs
unfolding decode_a_law_all
length-decode_a_law_all [] = refl
length-decode_a_law_all (c ∷ cs) = ap suc (length-decode_a_law_all cs)

-- `encodeALaw` or `encodeMuLaw` on what `decodeALaw` or `decodeMuLaw` gave.
pub recode_lem :
    (f : Double) (pt : ℕ) (s t : MediaSession f) (codes : Bytes)
    → s.payload_type ≡ pos pt
    → t.payload_type ≡ pos pt
    → AreBytes codes
    → (encoded f t (decoded f s codes) ≡ returned pt codes)
      × (length (decoded f s codes) ≡ length codes)
recode_lem f pt s t codes e e' h =
    let plain : pt + 0 ≡ pt = omega arith in
    let is : eqb_ℤ s.payload_type (pos 8) ≡ (pt == 8) = rw e (ap (◌== 8) plain) in
    let is' : eqb_ℤ t.payload_type (pos 8) ≡ (pt == 8) = rw e' (ap (◌== 8) plain) in
    elim (Bool-cases (pt == 8)) [
      | inl a_law ↦ rw (is, is', a_law) (a_law_lem codes h, length-decode_a_law_all codes)
      | inr mu_law ↦ rw (is, is', mu_law) (mu_law_lem codes h, length-decode_mu_law_all codes)
    ]
