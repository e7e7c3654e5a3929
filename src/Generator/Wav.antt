-- ===== src/Generator/Wav.antt =====
-- `loadWavPcm16` of src/tools/rtp_sender.cpp, behind the reading of the file. A `memcpy` or `memcmp`
-- beyond the buffer is a fault, and the walk over the chunks has fuel. Samples and sizes are
-- little-endian, as on the machines that the code reads them on.
pub mod Walk
use sipdemo.Base.{
  ℕ, zero, suc, ◌+◌, ◌-◌, ◌*◌, ◌/◌, ◌%◌, ◌^◌, Bool, true, false, not, ◌||◌, List, [], ◌∷◌, Option,
  none, some, ltb, if◌then◌else◌, length, take, drop,
}
use sipdemo.Base.Int.{ℤ, signed}
use sipdemo.Base.Text.{Text, text, text_eq}
use sipdemo.Rtp.{Bytes}

pub data Wav : Type 0 where
  fault out_of_fuel nothing_found : Wav
  found : List ℤ → Wav

-- The `n` bytes at `at`, as `memcpy` and `memcmp` read them; `none` where one is not in the buffer.
abbrev pub read : Bytes → ℕ → ℕ → Option Bytes
read buf at n = if ltb (length buf) (at + n) then none else some (take n (drop at buf))

-- `std::memcmp(buf.data() + at, tag, 4) == 0`.
unfoldable pub tagged : Bytes → ℕ → Text → Option Bool
tagged buf at tag = elim (read buf at 4) [ none ↦ none | some bs ↦ some (text_eq bs tag) ]

-- A number from its bytes, the low one first.
abbrev pub little_endian : Bytes → ℕ
little_endian [] = 0
little_endian (b ∷ bs) = b + 256 * little_endian bs

-- `sz` of the chunk at `pos`.
unfoldable pub chunk_size : Bytes → ℕ → Option ℕ
chunk_size buf pos = elim (read buf (pos + 4) 4) [ none ↦ none | some bs ↦ some (little_endian bs) ]

-- The bytes as `int16_t`.
abbrev pub samples : Bytes → List ℤ
samples (a ∷ b ∷ bs) = signed 16 (a + 256 * b) ∷ samples bs
samples _ = []

-- `8 + sz + (sz & 1)`, in 32 bits.
abbrev pub advance : ℕ → ℕ
advance sz = (8 + sz + sz % 2) % 2 ^ 32

-- The data chunk, cut at the end of the buffer and to whole samples.
unfoldable pub data_chunk : Bytes → ℕ → ℕ → Wav
data_chunk buf start sz =
    let bytes = if ltb (length buf - start) sz then length buf - start else sz in
    elim (read buf start (bytes / 2 * 2)) [ none ↦ fault | some bs ↦ found (samples bs) ]

-- `while (pos + 8 <= buf.size())`. A round reads the size and then the tag.
unfoldable pub walk : ℕ → Bytes → ℕ → Wav
unfolding tagged chunk_size data_chunk
walk zero buf pos = out_of_fuel
walk (suc fuel) buf pos =
    if ltb (length buf) (pos + 8) then nothing_found else elim (chunk_size buf pos) [
      | none ↦ fault
      | some sz ↦ elim (tagged buf pos (text "data")) [
        | none ↦ fault
        | some true ↦ data_chunk buf (pos + 8) sz
        | some false ↦ walk fuel buf (pos + advance sz)
      ]
    ]

-- What a comparison with a tag leads to: the rest where it is equal.
abbrev pub if_tagged : Option Bool → Wav → Wav
if_tagged none rest = fault
if_tagged (some true) rest = rest
if_tagged (some false) rest = nothing_found

-- A round that goes on moves by a byte at least, or for ever.
unfoldable pub load_wav : Bytes → Wav
unfolding tagged walk
load_wav buf =
    if ltb (length buf) 44
    then nothing_found
    else if_tagged (tagged buf 0 (text "RIFF"))
        (if_tagged (tagged buf 8 (text "WAVE")) (walk (suc (length buf)) buf 12))
