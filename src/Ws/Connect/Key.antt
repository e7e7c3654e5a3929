-- ===== src/Ws/Connect/Key.antt =====
-- The key of the handshake (`randomWsKey` of src/ws/WsClient.cpp) is the base64 text of its bytes.
use sipdemo.Base.{
  ℕ, suc, ◌+◌, ◌*◌, ◌/◌, ◌%◌, ◌<◌, ◌≡◌, ◌≢◌, refl, ap, ◌∙◌, true, false, not, [], ◌∷◌, ◌==◌, ==_iff,
  if◌then◌else◌, length, arith, bit_and, bit_or,
}
use sipdemo.Base.Bits.{shl, shr, all_below, all_below_sound, bit_or-shl, bit_and-low_mask}
use sipdemo.Base.Text.{Text}
use sipdemo.Rtp.{Bytes}
use sipdemo.Rtp.Bounds.{AreBytes}
use sipdemo.Ws.Connect.{alphabet, b64, encode_key}

-- The value of a base64 digit by RFC 4648: its place in the alphabet.
unfoldable pub place : ℕ → Text → ℕ
place c [] = 0
place c (d ∷ ds) = let later = suc (place c ds) in if c == d then 0 else later

abbrev pub digit : ℕ → ℕ
digit c = place c alphabet

-- Four digits are three bytes; two digits and `==` are one.
unfoldable pub decode64 : Text → Bytes
decode64 (w ∷ x ∷ y ∷ z ∷ rest) =
    if y == b'='
    then (digit w * 4 + digit x / 16) ∷ []
    else (digit w * 4 + digit x / 16)
      ∷ (digit x % 16 * 16 + digit y / 4)
      ∷ (digit y % 4 * 64 + digit z)
      ∷ decode64 rest
decode64 _ = []

-- Each digit has its place, and is not the padding.
digits_right : all_below 64 (λ n. place (b64 n) alphabet == n) ≡ true
unfolding all_below place b64
digits_right = refl

digits_plain : all_below 64 (λ n. not (b64 n == b'=')) ≡ true
unfolding all_below b64
digits_plain = refl

b64_mod : (n : ℕ) → b64 n ≡ b64 (n % 64)
unfolding b64
b64_mod n =
    let one : bit_and n 63 ≡ n % 64 = bit_and-low_mask 6 n in
    let two : bit_and (n % 64) 63 ≡ n % 64 = bit_and-low_mask 6 (n % 64) ∙ omega arith in
    rw (one, two, b64)

digit-b64 : (n : ℕ) → digit (b64 n) ≡ n % 64
digit-b64 n =
    let found = all_below_sound 64 _ (n % 64) (omega arith) digits_right in
    ap digit (b64_mod n) ∙ (==_iff (digit (b64 (n % 64))) (n % 64)).0 found

b64_plain : (n : ℕ) → (b64 n == b'=') ≡ false
b64_plain n =
    let found = all_below_sound 64 _ (n % 64) (omega arith) digits_plain in
    ap (◌== b'=') (b64_mod n) ∙ ground (arith, found)

-- The 24 bits of three bytes.
three_bytes :
    (a b c : ℕ)
    → a < 256
    → b < 256
    → c < 256
    → bit_or (bit_or (shl a 16) (shl b 8)) c ≡ a * 65536 + b * 256 + c
three_bytes a b c ha hb hc =
    let high : bit_or (shl a 16) (shl b 8) ≡ a * 65536 + b * 256 =
      bit_or-shl 16 a (shl b 8) (omega arith) in
    let high' : bit_or (shl a 16) (shl b 8) ≡ shl (a * 256 + b) 8 = high ∙ omega arith in
    ap (λ h. bit_or h c) high' ∙ (bit_or-shl 8 (a * 256 + b) c hc ∙ omega arith)

-- One group of three bytes, and of one.
group_lem :
    (a b c : ℕ)
    → a < 256
    → b < 256
    → c < 256
    → let n = bit_or (bit_or (shl a 16) (shl b 8)) c in
      (digit (b64 (shr n 18)) * 4 + digit (b64 (shr n 12)) / 16 ≡ a)
      × (digit (b64 (shr n 12)) % 16 * 16 + digit (b64 (shr n 6)) / 4 ≡ b)
      × (digit (b64 (shr n 6)) % 4 * 64 + digit (b64 n) ≡ c)
group_lem a b c ha hb hc =
    let n = bit_or (bit_or (shl a 16) (shl b 8)) c in
    let is = three_bytes a b c ha hb hc in
    let d18 = digit-b64 (shr n 18) in
    let d12 = digit-b64 (shr n 12) in
    let d6 = digit-b64 (shr n 6) in
    let d0 = digit-b64 n in
    (omega (arith, is, d18, d12), omega (arith, is, d12, d6), omega (arith, is, d6, d0))

last_lem :
    (a : ℕ)
    → a < 256
    → digit (b64 (shr (shl a 16) 18)) * 4 + digit (b64 (shr (shl a 16) 12)) / 16 ≡ a
last_lem a ha = omega (arith, digit-b64 (shr (shl a 16) 18), digit-b64 (shr (shl a 16) 12))

-- The key of the handshake, read as base64 by RFC 4648, gives back the bytes it was made of,
-- wherever their number leaves a remainder of 0 or 1 by 3, as the 16 random bytes do.
pub decode64-encode_key :
    (bs : Bytes) → AreBytes bs → length bs % 3 ≢ 2 → decode64 (encode_key bs) ≡ bs
unfolding decode64 encode_key
decode64-encode_key [] h r = refl
decode64-encode_key (a ∷ []) h r = ap (λ x. x ∷ []) (last_lem a h.0)
decode64-encode_key (a ∷ b ∷ []) h r = absurd (r (omega arith))
decode64-encode_key (a ∷ b ∷ c ∷ bs) h r =
    let n = bit_or (bit_or (shl a 16) (shl b 8)) c in
    let (first, second, third) = group_lem a b c h.0 h.1.0 h.1.1.0 in
    let rest = decode64-encode_key bs h.1.1.1 (λ e. r (omega (arith, e))) in
    rw (b64_plain (shr n 6)) (λ i. first i ∷ second i ∷ third i ∷ rest i)
