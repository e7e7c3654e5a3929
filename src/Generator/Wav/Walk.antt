-- ===== src/Generator/Wav/Walk.antt =====
-- Whether the walk of `loadWavPcm16` (src/tools/rtp_sender.cpp) comes to an end.
use sipdemo.Base.{
  ℕ, zero, suc, ◌+◌, ◌-◌, ◌*◌, ◌/◌, ◌^◌, ◌≤◌, ◌<◌, ◌≡◌, ◌≢◌, ◌⊎◌, refl, sym, ap, ◌∙◌, Bool, some,
  take, if◌then◌else◌, true, false, inl, inr, [], ◌∷◌, arith, ltb, length, length-take, drop,
  Bool-cases,
}
use mathlib.Core.Option
use sipdemo.Base.Text.{Text, text, text_eq}
use sipdemo.Rtp.{Bytes}
use sipdemo.Rtp.Bounds.{AreBytes, take-All, drop-All}
use sipdemo.Generator.Wav.{
  Wav, fault, out_of_fuel, nothing_found, found, tagged, little_endian, chunk_size, advance,
  data_chunk, walk, load_wav, if_tagged,
}

-- A read that is in the buffer.
tagged_within :
    (buf : Bytes) (at : ℕ) (tag : Text)
    → at + 4 ≤ length buf
    → (b : Bool) × (tagged buf at tag ≡ some b)
unfolding tagged
tagged_within buf at tag h =
    let within : ltb (length buf) (at + 4) ≡ false = ground arith in
    (text_eq (take 4 (drop at buf)) tag, rw (within, tagged) refl)

size_at : Bytes → ℕ → ℕ
size_at buf pos = little_endian (take 4 (drop (pos + 4) buf))

chunk_size_within :
    (buf : Bytes) (pos : ℕ) → pos + 8 ≤ length buf → chunk_size buf pos ≡ some (size_at buf pos)
unfolding chunk_size size_at
chunk_size_within buf pos h =
    let within : ltb (length buf) (pos + 4 + 4) ≡ false = ground arith in
    rw (within, chunk_size) refl

-- A round of the walk at a chunk that is in the buffer.
walk_round :
    (fuel : ℕ) (buf : Bytes) (pos : ℕ) (b : Bool)
    → pos + 8 ≤ length buf
    → tagged buf pos (text "data") ≡ some b
    → walk (suc fuel) buf pos ≡ (
        if b
        then data_chunk buf (pos + 8) (size_at buf pos)
        else walk fuel buf (pos + advance (size_at buf pos)))
unfolding walk
walk_round fuel buf pos true h here =
    let more : ltb (length buf) (pos + 8) ≡ false = ground arith in
    rw (more, chunk_size_within buf pos h, here) refl
walk_round fuel buf pos false h other =
    let more : ltb (length buf) (pos + 8) ≡ false = ground arith in
    rw (more, chunk_size_within buf pos h, other) refl

walk_over :
    (fuel : ℕ) (buf : Bytes) (pos : ℕ)
    → length buf < pos + 8
    → walk (suc fuel) buf pos ≡ nothing_found
unfolding walk
walk_over fuel buf pos h = let end : ltb (length buf) (pos + 8) ≡ true = ground arith in rw end refl

-- From `pos` the walk comes to a chunk other than "data" that it does not move past.
data Endless (buf : Bytes) : ℕ → Type 0 where
  halts :
      (pos sz : ℕ)
      → pos + 8 ≤ length buf
      → tagged buf pos (text "data") ≡ some false
      → chunk_size buf pos ≡ some sz
      → advance sz ≡ 0
      → Endless buf pos
  moves :
      (pos : ℕ)
      → pos + 8 ≤ length buf
      → tagged buf pos (text "data") ≡ some false
      → Endless buf (pos + advance (size_at buf pos))
      → Endless buf pos

data_chunk-ends : (buf : Bytes) (start sz : ℕ) → data_chunk buf start sz ≢ out_of_fuel
unfolding data_chunk
data_chunk-ends buf start sz = ground arith

-- What a round is: the end, the data, or a step to the next chunk.
data Round (fuel : ℕ) (buf : Bytes) (pos : ℕ) : Type 0 where
  over : length buf < pos + 8 → walk (suc fuel) buf pos ≡ nothing_found → Round fuel buf pos
  data_ :
      pos + 8 ≤ length buf
      → walk (suc fuel) buf pos ≡ data_chunk buf (pos + 8) (size_at buf pos)
      → Round fuel buf pos
  next :
      pos + 8 ≤ length buf
      → tagged buf pos (text "data") ≡ some false
      → walk (suc fuel) buf pos ≡ walk fuel buf (pos + advance (size_at buf pos))
      → Round fuel buf pos

walk-Round : (fuel : ℕ) (buf : Bytes) (pos : ℕ) → Round fuel buf pos
walk-Round fuel buf pos = elim (Bool-cases (ltb (length buf) (pos + 8))) [
  | inl end ↦ let lt : length buf < pos + 8 = ground arith in over lt (walk_over fuel buf pos lt)
  | inr more ↦
      let room : pos + 8 ≤ length buf = ground arith in
      let (b, is) = tagged_within buf pos (text "data") (omega arith) in tag_round b room is
]
  where
    tag_round :
        (b : Bool)
        → pos + 8 ≤ length buf
        → tagged buf pos (text "data") ≡ some b
        → Round fuel buf pos
    tag_round true room is = data_ room (walk_round fuel buf pos true room is)
    tag_round false room is = next room is (walk_round fuel buf pos false room is)

-- A round for each byte that is left is enough, unless the walk is endless.
walk-Endless :
    (fuel : ℕ) (buf : Bytes) (pos : ℕ)
    → length buf < fuel + pos + 8
    → walk (suc fuel) buf pos ≡ out_of_fuel
    → Endless buf pos
walk-Endless zero buf pos enough e =
    absurd (let clash = sym (walk_over zero buf pos (omega arith)) ∙ e in cc)
walk-Endless (suc fuel) buf pos enough e = elim (walk-Round (suc fuel) buf pos) [
  | over end is ↦ absurd (let clash = sym is ∙ e in cc)
  | data_ room is ↦ absurd (data_chunk-ends buf (pos + 8) (size_at buf pos) (sym is ∙ e))
  | next room other is ↦ elim (Bool-cases (ltb 0 (advance (size_at buf pos)))) [
    | inr stuck ↦
        halts pos (size_at buf pos) room other (chunk_size_within buf pos room) (ground arith)
    | inl goes ↦
        moves pos room other
          (walk-Endless fuel buf (pos + advance (size_at buf pos)) (ground arith) (sym is ∙ e))
  ]
]

Endless-walk :
    (fuel : ℕ) (buf : Bytes) (pos : ℕ) → Endless buf pos → walk fuel buf pos ≡ out_of_fuel
Endless-walk zero buf pos h = unfold walk in refl
Endless-walk (suc fuel) buf pos (moves _ room other h) =
    walk_round fuel buf pos false room other ∙ Endless-walk fuel buf _ h
Endless-walk (suc fuel) buf pos (halts _ sz room other size still) =
    let is : size_at buf pos ≡ sz =
      ap (λ o. Option.get_or o 0) (sym (chunk_size_within buf pos room) ∙ size) in
    let same : pos + advance (size_at buf pos) ≡ pos = rw is (omega (arith, still)) in
    walk_round fuel buf pos false room other
    ∙ (ap (walk fuel buf) same ∙ Endless-walk fuel buf pos (halts pos sz room other size still))

data_chunk-ne-fault :
    (buf : Bytes) (start sz : ℕ) → start ≤ length buf → data_chunk buf start sz ≢ fault
unfolding data_chunk
data_chunk-ne-fault buf start sz h = elim (Bool-cases (ltb (length buf - start) sz)) [
  | inl cut ↦
      let within : ltb (length buf) (start + (length buf - start) / 2 * 2) ≡ false = ground arith in
      rw (data_chunk, cut, within) (λ e. cc)
  | inr whole ↦
      let within : ltb (length buf) (start + sz / 2 * 2) ≡ false = ground arith in
      rw (data_chunk, whole, within) (λ e. cc)
]

walk-ne-fault : (fuel : ℕ) (buf : Bytes) (pos : ℕ) → walk fuel buf pos ≢ fault
walk-ne-fault zero buf pos = unfold walk in λ e. cc
walk-ne-fault (suc fuel) buf pos = elim (walk-Round fuel buf pos) [
  | over end is ↦ rw is (λ e. cc)
  | data_ room is ↦ rw is (data_chunk-ne-fault buf (pos + 8) (size_at buf pos) (omega arith))
  | next room other is ↦ rw is (walk-ne-fault fuel buf (pos + advance (size_at buf pos)))
]

power_pos : (n : ℕ) → 0 < 256 ^ n
power_pos zero = omega arith
power_pos (suc n) = omega (arith, power_pos n)

little_endian-lt : (bs : Bytes) (n : ℕ) → AreBytes bs → length bs ≤ n → little_endian bs < 256 ^ n
little_endian-lt [] n h le = power_pos n
little_endian-lt (b ∷ bs) zero h le = absurd (omega arith)
little_endian-lt (b ∷ bs) (suc n) h le =
    let ih = little_endian-lt bs n h.1 (omega arith) in omega (arith, h.0)

advance_zero : (sz : ℕ) → sz < 2 ^ 32 → advance sz ≡ 0 → (sz ≡ 0xfffffff7) ⊎ (sz ≡ 0xfffffff8)
advance_zero sz h e = ground arith

size_at-lt : (buf : Bytes) (pos : ℕ) → AreBytes buf → size_at buf pos < 2 ^ 32
unfolding size_at
size_at-lt buf pos h =
    let len = length-take 4 (drop (pos + 4) buf) in
    little_endian-lt (take 4 (drop (pos + 4) buf)) 4
      (take-All _ 4 (drop (pos + 4) buf) (drop-All _ (pos + 4) buf h)) (omega (arith, len))

-- An endless walk is at a chunk of one of two sizes in the end.
Endless-size :
    (buf : Bytes) (pos : ℕ)
    → AreBytes buf
    → Endless buf pos
    → (at sz : ℕ) × (at + 8 ≤ length buf)
      × (chunk_size buf at ≡ some sz)
      × ((sz ≡ 0xfffffff7) ⊎ (sz ≡ 0xfffffff8))
Endless-size buf pos h (halts _ sz room other size still) =
    let is : size_at buf pos ≡ sz =
      ap (λ o. Option.get_or o 0) (sym (chunk_size_within buf pos room) ∙ size) in
    (pos, sz, room, size, advance_zero sz (rw is at (size_at-lt buf pos h)) still)
Endless-size buf pos h (moves _ room other next_) = Endless-size buf _ h next_

-- The file is refused, or the walk begins; no tag is read beyond the 44 bytes.
load_wav-walk :
    (buf : Bytes) → (load_wav buf ≡ nothing_found) ⊎ (load_wav buf ≡ walk (suc (length buf)) buf 12)
unfolding load_wav
load_wav-walk buf = elim (Bool-cases (ltb (length buf) 44)) [
  | inl short ↦ inl (rw short refl)
  | inr long ↦
      let (riff, is) = tagged_within buf 0 (text "RIFF") (ground arith) in
      let (wave, is') = tagged_within buf 8 (text "WAVE") (ground arith) in
      rw (long, is, is') (both riff wave)
]
  where
    both :
        (a b : Bool)
        → let w = walk (suc (length buf)) buf 12 in
          (if_tagged (some a) (if_tagged (some b) w) ≡ nothing_found)
          ⊎ (if_tagged (some a) (if_tagged (some b) w) ≡ w)
    both true true = inr refl
    both true false = inl refl
    both false b = inl refl

-- Whatever the bytes of the file, `loadWavPcm16` reads nothing outside them; and either it returns,
-- after no more rounds than there are bytes, or its loop has no end at all, which is so only where
-- the file has a chunk that gives its size as 0xfffffff7 or 0xfffffff8.
pub load_wav_ends :
    (buf : Bytes)
    → AreBytes buf
    → (load_wav buf ≢ fault)
      × ((load_wav buf ≢ out_of_fuel)
          ⊎ (((fuel : ℕ) → walk fuel buf 12 ≡ out_of_fuel)
              × ((at sz : ℕ) × (at + 8 ≤ length buf)
                  × (chunk_size buf at ≡ some sz)
                  × ((sz ≡ 0xfffffff7) ⊎ (sz ≡ 0xfffffff8)))))
load_wav_ends buf h = elim (load_wav-walk buf) [
  | inl refused ↦ rw refused ((λ e. cc), inl (λ e. cc))
  | inr walks ↦
      rw walks (walk-ne-fault (suc (length buf)) buf 12, ends (walk (suc (length buf)) buf 12) refl)
]
  where
    ends :
        (r : Wav)
        → walk (suc (length buf)) buf 12 ≡ r
        → (walk (suc (length buf)) buf 12 ≢ out_of_fuel)
          ⊎ (((fuel : ℕ) → walk fuel buf 12 ≡ out_of_fuel)
              × ((at sz : ℕ) × (at + 8 ≤ length buf)
                  × (chunk_size buf at ≡ some sz)
                  × ((sz ≡ 0xfffffff7) ⊎ (sz ≡ 0xfffffff8))))
    ends out_of_fuel e =
        let endless = walk-Endless (length buf) buf 12 (omega arith) e in
        inr ((λ fuel. Endless-walk fuel buf 12 endless), Endless-size buf 12 h endless)
    ends fault e = absurd (walk-ne-fault (suc (length buf)) buf 12 e)
    ends nothing_found e = inl (λ o. let clash = e in cc)
    ends (found s) e = inl (λ o. let clash = e in cc)
