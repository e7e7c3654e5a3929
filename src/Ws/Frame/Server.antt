-- ===== src/Ws/Frame/Server.antt =====
-- The reader of src/ws/WsClient.cpp on the frames of a server.
use sipdemo.Base.{
  ℕ, ◌+◌, ◌/◌, ◌%◌, ◌^◌, ◌≤◌, ◌<◌, ◌≡◌, refl, true, false, not, ◌&&◌, Bool-cases, inl, inr, [], ◌∷◌,
  ◌++◌, some, arith, ltb, ◌==◌, ==_iff, if◌then◌else◌, length, bit_and, bit_or,
}
use sipdemo.Base.Bits.{shl, all_below, all_below_sound, bit_or-shl}
use sipdemo.Rtp.{Bytes}
use sipdemo.Ws.Frame.{no_mask, big_endian, read_length, read_mask, read_payload, read_frame}
use sipdemo.Ws.Frame.RoundTrip.{read_exact-append}

-- A frame as a server sends it, without a mask, its parts written as sums.
abbrev pub server_frame : ℕ → Bytes → Bytes
server_frame opcode payload =
    (128 + opcode)
    ∷ ((if ltb (length payload) 126
          then length payload ∷ []
          else 126 ∷ (length payload / 256) ∷ (length payload % 256) ∷ [])
        ++ payload)

server_byte_table : all_below 16 (λ n. bit_and (128 + n) 0x0f == n) ≡ true
unfolding all_below
server_byte_table = refl

server_size_table : all_below 127 (λ n. (bit_and n 0x7f == n) && (bit_and n 0x80 == 0)) ≡ true
unfolding all_below
server_size_table = refl

server_size : (n : ℕ) → n < 127 → (bit_and n 0x7f ≡ n) × (not (bit_and n 0x80 == 0) ≡ false)
server_size n h = let both = all_below_sound 127 _ n h server_size_table in ground arith

pair_of_bytes : (n : ℕ) → n ≤ 0xffff → big_endian 0 ((n / 256) ∷ (n % 256) ∷ []) ≡ n
unfolding big_endian
pair_of_bytes n h =
    let c : bit_or 0 (n / 256) ≡ n / 256 = omega (arith, bit_or-shl 8 0 (n / 256) (omega arith)) in
    let d = bit_or-shl 8 (n / 256) (n % 256) (omega arith) in
    let e : shl (n / 256) 8 % 2 ^ 64 ≡ shl (n / 256) 8 = omega arith in rw (c, e, d) (omega arith)

read_payload-plain :
    (opcode : ℕ) (payload rest : Bytes)
    → length payload ≤ 0xffff
    → read_payload false no_mask opcode (length payload) (payload ++ rest)
      ≡ some (record { opcode = opcode; payload = payload }, rest)
unfolding read_payload
read_payload-plain opcode payload rest h =
    let small : ltb (2 ^ 20) (length payload) ≡ false = ground arith in
    rw (small, read_exact-append payload rest)

-- The reader takes a server's frame apart, too, and leaves what comes behind.
pub read_frame-server_frame :
    (opcode : ℕ) (payload rest : Bytes)
    → opcode < 16
    → length payload ≤ 0xffff
    → read_frame (server_frame opcode payload ++ rest)
      ≡ some (record { opcode = opcode; payload = payload }, rest)
unfolding read_frame read_mask read_length
read_frame-server_frame opcode payload rest four_bits fits =
    let n = length payload in
    let code = (==_iff _ opcode).0 (all_below_sound 16 _ opcode four_bits server_byte_table) in
    elim (Bool-cases (ltb n 126)) [
      | inl short ↦
          let (size, plain) = server_size n (ground arith) in
          let a : n == 126 ≡ false = ground arith in
          let b : n == 127 ≡ false = ground arith in
          rw (short, code, size, plain, a, b) (read_payload-plain opcode payload rest fits)
      | inr long ↦
          let ext = (n / 256) ∷ (n % 256) ∷ [] in
          rw (long, code, read_exact-append ext (payload ++ rest), pair_of_bytes n fits)
            (read_payload-plain opcode payload rest fits)
    ]
