-- ===== src/Tests/Generators.antt =====
-- Concrete runs of the packet generator (src/tools/rtp_sender.cpp).
use mathlib.Core.List.{Perm}
use sipdemo.Base.{
  ℕ, ◌+◌, ◌%◌, ◌^◌, ◌≤◌, ◌≡◌, ◌≢◌, ◌⊎◌, refl, some, Bool, true, ◌&&◌, List, [], ◌∷◌, ◌++◌, length,
  replicate, ltb, ◌==◌, ltb→lt, Bool-cases, inl, inr,
}
use sipdemo.Base.Int.{ℤ, pos, signed}
use sipdemo.Base.Text.{text, text_eq}
use sipdemo.Rtp.{Bytes}
use sipdemo.Rtp.Bounds.{AreBytes}
use sipdemo.Generator.Wav.{
  fault, out_of_fuel, found, tagged, chunk_size, data_chunk, walk, load_wav,
}
use sipdemo.Generator.Wav.Walk.{load_wav_ends}
use sipdemo.Generator.Send.{total_packets, send_all}
use sipdemo.Generator.Send.Delivery.{kept, lost_count, send_all_lem}

are_bytes : Bytes → Bool
are_bytes [] = true
are_bytes (b ∷ bs) = ltb b 256 && are_bytes bs

are_bytes_lem : (bs : Bytes) → are_bytes bs ≡ true → AreBytes bs
unfolding are_bytes
are_bytes_lem [] h = tt
are_bytes_lem (b ∷ bs) h = elim (Bool-cases (ltb b 256)) [
  | inl below ↦ (ltb→lt b 256 below, are_bytes_lem bs (rw below at h))
  | inr above ↦ absurd (let clash = rw above at h in cc)
]

-- A chunk before the audio gives its size as 0xfffffff8.
abbrev endless_wav : Bytes
endless_wav =
    text "RIFF"
    ++ (0 ∷ 0 ∷ 0 ∷ 0 ∷ [])
    ++ (text "WAVEjunk" ++ (0xf8 ∷ 0xff ∷ 0xff ∷ 0xff ∷ replicate 24 0))

endless_wav-AreBytes : AreBytes endless_wav
unfolding are_bytes
endless_wav-AreBytes = are_bytes_lem endless_wav refl

load_wav_ends_example :
    (load_wav endless_wav ≢ fault)
    × ((load_wav endless_wav ≢ out_of_fuel)
        ⊎ (((fuel : ℕ) → walk fuel endless_wav 12 ≡ out_of_fuel)
            × ((at sz : ℕ) × (at + 8 ≤ length endless_wav)
                × (chunk_size endless_wav at ≡ some sz)
                × ((sz ≡ 0xfffffff7) ⊎ (sz ≡ 0xfffffff8)))))
load_wav_ends_example = load_wav_ends endless_wav endless_wav-AreBytes

endless_wav_stays : load_wav endless_wav ≡ out_of_fuel
unfolding load_wav walk data_chunk tagged chunk_size text_eq signed
endless_wav_stays = refl

-- A data chunk of two samples and an odd byte, cut short by the end of the file.
abbrev short_wav : Bytes
short_wav =
    text "RIFF"
    ++ (0 ∷ 0 ∷ 0 ∷ 0 ∷ [])
    ++ (text "WAVEfmt "
        ++ (11 ∷ 0 ∷ 0 ∷ 0 ∷ replicate 12 0)
        ++ (text "data" ++ (100 ∷ 0 ∷ 0 ∷ 0 ∷ 1 ∷ 0 ∷ 2 ∷ 1 ∷ 7 ∷ [])))

short_wav_found : load_wav short_wav ≡ found (pos 1 ∷ pos 258 ∷ [])
unfolding load_wav walk data_chunk tagged chunk_size text_eq signed
short_wav_found = refl

abbrev silence : List ℤ
silence = replicate 480 (pos 0)

abbrev loses : ℕ → Bool
loses p = p == 1

abbrev holds : ℕ → Bool
holds p = p == 0

send_all_lem_example :
    let out = send_all (pos 0) 9 silence loses holds 65535 0 in
    let total = total_packets (pos 0) 9 silence in
    Perm out.wires (kept (pos 0) 9 silence loses holds 65535 0 total 0)
    × (length out.wires + lost_count (pos 0) 9 silence loses holds 65535 0 total 0 ≡ total)
    × (out.sent ≡ length out.wires % 2 ^ 64)
    × (out.dropped ≡ lost_count (pos 0) 9 silence loses holds 65535 0 total 0 % 2 ^ 64)
send_all_lem_example = send_all_lem (pos 0) 9 silence loses holds 65535 0
