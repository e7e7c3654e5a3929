-- ===== src/Ws/Frame/Progress.antt =====
-- Each frame that the reader takes (src/ws/WsClient.cpp) shortens what is left to read.
use sipdemo.Base.{
  ℕ, ◌≤◌, ◌<◌, ◌≡◌, Bool, true, false, not, Option-cases, inl, inr, [], ◌∷◌, some, arith, ◌==◌,
  length, length-drop, bit_and,
}
use sipdemo.Rtp.{Bytes}
use sipdemo.Ws.Frame.{Mask, read_exact, read_length, read_mask, Frame, read_payload, read_frame}

read_exact-le :
    (n : ℕ) (bytes : Bytes) {x rest : Bytes}
    → read_exact n bytes ≡ some (x, rest)
    → length rest ≤ length bytes
unfolding read_exact
read_exact-le n bytes {x} {rest} h = ground (arith, length-drop n bytes)

read_length-le :
    (short : ℕ) (bytes : Bytes) {n : ℕ} {rest : Bytes}
    → read_length short bytes ≡ some (n, rest)
    → length rest ≤ length bytes
unfolding read_length read_exact
read_length-le short bytes {n} {rest} h = ground (arith, length-drop 2 bytes, length-drop 8 bytes)

read_mask-le :
    (masked : Bool) (bytes : Bytes) {m : Mask} {rest : Bytes}
    → read_mask masked bytes ≡ some (m, rest)
    → length rest ≤ length bytes
unfolding read_mask
read_mask-le true [] h = ground arith
read_mask-le true (a ∷ []) h = ground arith
read_mask-le true (a ∷ b ∷ []) h = ground arith
read_mask-le true (a ∷ b ∷ c ∷ []) h = ground arith
read_mask-le true (a ∷ b ∷ c ∷ d ∷ bytes) h = ground arith
read_mask-le false bytes h = ground arith

read_payload-le :
    (masked : Bool) (m : Mask) (opcode n : ℕ) (bytes : Bytes) {f : Frame} {rest : Bytes}
    → read_payload masked m opcode n bytes ≡ some (f, rest)
    → length rest ≤ length bytes
unfolding read_payload read_exact
read_payload-le masked m opcode n bytes {f} {rest} h = ground (arith, length-drop n bytes)

pub read_frame-lt :
    (bytes : Bytes) {f : Frame} {rest : Bytes}
    → read_frame bytes ≡ some (f, rest)
    → length rest < length bytes
unfolding read_frame
read_frame-lt [] h = ground arith
read_frame-lt (h0 ∷ []) h = ground arith
read_frame-lt (h0 ∷ h1 ∷ bytes) {f} {rest} h =
    elim (Option-cases (read_length (bit_and h1 0x7f) bytes)) [
      | inl cut ↦ absurd (let e = rw cut at h in cc)
      | inr ((n, sized), got) ↦
          let masked = not (bit_and h1 0x80 == 0) in
          let h' = rw got at h in
          elim (Option-cases (read_mask masked sized)) [
            | inl cut ↦ absurd (let e = rw cut at h' in cc)
            | inr ((m, keyed), got') ↦
                let h2 = rw got' at h' in
                omega (
                  arith,
                  read_length-le (bit_and h1 0x7f) bytes got,
                  read_mask-le masked sized got',
                  read_payload-le masked m (bit_and h0 0x0f) n keyed h2,
                )
          ]
    ]
