-- ===== src/Rtp/Bounds.antt =====
-- The ranges of what `RtpPacket::parse` (src/rtp/RtpPacket.cpp) gives.
use sipdemo.Base.{
  ℕ, zero, suc, ◌+◌, ◌-◌, ◌*◌, ◌^◌, ◌<◌, ◌≡◌, refl, ◌||◌, inl, inr, List, [], ◌∷◌, arith, ltb, ◌==◌,
  if◌then◌else◌, length, take, drop, All, Bool-cases, ==_iff, bit_and,
}
use sipdemo.Base.Bits.{shr, bit_and-low_mask}
use sipdemo.Rtp.{
  Bytes, Outcome, fault, nullopt, value, ◌>>=◌, RtpPacket, byte, rd16, rd32, parse_csrc,
  skip_extension, payload_end, assign, parse, flag,
}

-- A predicate holds of the value, if there is one.
abbrev pub Holds {ℓ κ} : {A : Type ℓ} → (A → Type κ) → Outcome A → Type κ
Holds P fault = Unit
Holds P nullopt = Unit
Holds P (value a) = P a

bind-Holds {ℓ κ μ} :
    {A : Type ℓ} {B : Type κ} (P : B → Type μ) (m : Outcome A) (k : A → Outcome B)
    → ((a : A) → m ≡ value a → Holds P (k a))
    → Holds P (m >>= k)
bind-Holds P fault k h = tt
bind-Holds P nullopt k h = tt
bind-Holds P (value a) k h = h a refl

value-Holds {ℓ κ} :
    {A : Type ℓ} (P : A → Type κ) (m : Outcome A) (a : A) → Holds P m → m ≡ value a → P a
value-Holds P m a h e = rw e at h

abbrev pub AreBytes : Bytes → Type 0
AreBytes bs = All (λ b. b < 256) bs

pub take-All {ℓ κ} :
    {A : Type ℓ} (P : A → Type κ) (n : ℕ) (xs : List A) → All P xs → All P (take n xs)
take-All P zero xs h = tt
take-All P (suc n) [] h = tt
take-All P (suc n) (x ∷ xs) h = (h.0, take-All P n xs h.1)

pub drop-All {ℓ κ} :
    {A : Type ℓ} (P : A → Type κ) (n : ℕ) (xs : List A) → All P xs → All P (drop n xs)
drop-All P zero xs h = h
drop-All P (suc n) [] h = tt
drop-All P (suc n) (x ∷ xs) h = drop-All P n xs h.1

rd16-Holds : (buf : Bytes) (k : ℕ) → Holds (λ x. x < 2 ^ 16) (rd16 buf k)
unfolding rd16
rd16-Holds buf k =
    bind-Holds _ (byte buf k) _ λ a ea. bind-Holds _ (byte buf (k + 1)) _ λ b eb. omega arith

rd32-Holds : (buf : Bytes) (k : ℕ) → Holds (λ x. x < 2 ^ 32) (rd32 buf k)
unfolding rd32
rd32-Holds buf k = bind-Holds _ (byte buf k) _ λ a ea. bind-Holds _ (byte buf (k + 1)) _ λ b eb.
    bind-Holds _ (byte buf (k + 2)) _ λ c ec. bind-Holds _ (byte buf (k + 3)) _ λ d ed. omega arith

assign-Holds : (buf : Bytes) (from to : ℕ) → AreBytes buf → Holds AreBytes (assign buf from to)
unfolding assign
assign-Holds buf from to h = elim (Bool-cases (ltb to from || ltb (length buf) to)) [
  | inl out ↦ rw out tt
  | inr within ↦ rw within (take-All _ (to - from) (drop from buf) (drop-All _ from buf h))
]

pub record Fits (p : RtpPacket) : Type 0 where
  pub version_two : p.version ≡ 2
  pub type_fits : p.payload_type < 128
  pub sequence_fits : p.sequence < 2 ^ 16
  pub timestamp_fits : p.timestamp < 2 ^ 32
  pub ssrc_fits : p.ssrc < 2 ^ 32

-- What stands behind the version check.
parse_fields : Bytes → ℕ → Outcome RtpPacket
parse_fields buf b0 = do
  b1 ← byte buf 1
  sequence ← rd16 buf 2
  timestamp ← rd32 buf 4
  ssrc ← rd32 buf 8
  if ltb (length buf) (12 + bit_and b0 0x0f * 4) then nullopt else do
    csrc ← parse_csrc (bit_and b0 0x0f) buf 12
    offset ← skip_extension (flag b0 4) buf (12 + bit_and b0 0x0f * 4)
    end_at ← payload_end (flag b0 5) buf offset
    payload ← assign buf offset end_at
    value (record {
      version = bit_and (shr b0 6) 0x03;
      padding = flag b0 5;
      extension = flag b0 4;
      marker = flag b1 7;
      payload_type = bit_and b1 0x7f;
      sequence = sequence;
      timestamp = timestamp;
      ssrc = ssrc;
      csrc = csrc;
      payload = payload;
    })

abbrev InRange : Bytes → RtpPacket → Type 0
InRange buf p = Fits p × (AreBytes buf → AreBytes p.payload)

parse_fields-Holds :
    (buf : Bytes) (b0 : ℕ) → bit_and (shr b0 6) 0x03 ≡ 2 → Holds (InRange buf) (parse_fields buf b0)
unfolding parse_fields
parse_fields-Holds buf b0 two = bind-Holds {B = RtpPacket} (InRange buf) (byte buf 1) _ λ b1 e1.
    bind-Holds {B = RtpPacket} (InRange buf) (rd16 buf 2) _ λ s es.
      bind-Holds {B = RtpPacket} (InRange buf) (rd32 buf 4) _ λ t et.
        bind-Holds {B = RtpPacket} (InRange buf) (rd32 buf 8) _ λ r er.
          elim (Bool-cases (ltb (length buf) (12 + bit_and b0 0x0f * 4))) [
            | inl short ↦ rw short tt
            | inr room ↦ rw room (
                bind-Holds {B = RtpPacket} (InRange buf) (parse_csrc (bit_and b0 0x0f) buf 12) _
                  λ csrc ec.
                    bind-Holds {B = RtpPacket} (InRange buf)
                      (skip_extension (flag b0 4) buf (12 + bit_and b0 0x0f * 4)) _
                      λ o eo.
                        bind-Holds {B = RtpPacket} (InRange buf) (payload_end (flag b0 5) buf o) _
                          λ e ee.
                            bind-Holds {B = RtpPacket} (InRange buf) (assign buf o e) _
                              λ payload ep. (
                                record {
                                  version_two = two;
                                  type_fits = omega (arith, bit_and-low_mask 7 b1);
                                  sequence_fits = value-Holds _ _ s (rd16-Holds buf 2) es;
                                  timestamp_fits = value-Holds _ _ t (rd32-Holds buf 4) et;
                                  ssrc_fits = value-Holds _ _ r (rd32-Holds buf 8) er;
                                },
                                λ h. value-Holds _ _ payload (assign-Holds buf o e h) ep,
                              ))
          ]

parse-Holds : (buf : Bytes) → Holds (InRange buf) (parse buf)
unfolding parse parse_fields
parse-Holds buf = elim (Bool-cases (ltb (length buf) 12)) [
  | inl short ↦ rw short tt
  | inr long ↦ rw long (
      bind-Holds _ (byte buf 0) _ λ b0 e0. elim (Bool-cases (bit_and (shr b0 6) 0x03 == 2)) [
        | inr other ↦ rw other tt
        | inl two ↦ rw two (parse_fields-Holds buf b0 ((==_iff _ 2).0 two))
      ])
]

-- A packet that comes of the parser fits the wire format: version 2, a 7-bit payload type, and the
-- other fields of the fixed header within their widths; and its payload is bytes where the
-- datagram is.
pub parse-Fits :
    (buf : Bytes) (p : RtpPacket) → AreBytes buf → parse buf ≡ value p → Fits p × AreBytes p.payload
parse-Fits buf p h e = let (fits, bytes) = value-Holds _ _ p (parse-Holds buf) e in (fits, bytes h)

pub parse-sequence : (buf : Bytes) (p : RtpPacket) → parse buf ≡ value p → p.sequence < 2 ^ 16
parse-sequence buf p e = (value-Holds _ _ p (parse-Holds buf) e).0.sequence_fits
