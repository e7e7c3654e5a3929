-- ===== src/Base/Text.antt =====
-- Texts as lists of bytes, and the parts of the C++ library that the code works on them with:
-- `std::string`, `std::to_string`, `strtol`, `strtoull`, `atoi` and stream extraction, in the C
-- locale and with a 64-bit `long`.
pub mod Equality
use Prim.Native.Char.{code}
use Prim.Native.String.{String}
use Prim.Native.Nat.{ℕ, zero, suc, ◌+◌, ◌-◌, ◌*◌, ◌/◌, ◌%◌, ◌^◌, ◌≤◌, ◌<◌}
use mathlib.Core.Bool.{Bool, true, false, not, ◌&&◌, ◌||◌}
use mathlib.Core.List.{List, [], ◌∷◌, ◌++◌, map}
use mathlib.Core.Option
use mathlib.Core.Option.{Option, none, some}
use sipdemo.Base.Tests.{ltb, leb, ◌==◌, if◌then◌else◌}
use sipdemo.Base.Lists.{length, is_empty, take, drop}
use sipdemo.Base.Int.{ℤ, pos, negsuc, sub_ℕ, ltb_ℤ, signed, unsigned}

abbrev pub Text : Type 0
Text = List ℕ

-- The bytes of an ASCII literal.
abbrev pub text : String → Text
text String.[] = []
text (String.◌∷◌ c s) = code c ∷ text s

-- `==` of strings.
unfoldable pub text_eq : Text → Text → Bool
text_eq [] [] = true
text_eq [] (b ∷ bs) = false
text_eq (a ∷ as_) [] = false
text_eq (a ∷ as_) (b ∷ bs) = a == b && text_eq as_ bs

-- `s.compare(0, p.size(), p) == 0`.
unfoldable pub starts_with : Text → Text → Bool
starts_with [] s = true
starts_with (c ∷ p) [] = false
starts_with (c ∷ p) (d ∷ s) = c == d && starts_with p s

-- `s.find(p)`; `none` is `npos`.
unfoldable pub find : Text → Text → Option ℕ
unfolding starts_with
find p [] = if is_empty p then some 0 else none
find p (c ∷ s) = if starts_with p (c ∷ s) then some 0 else Option.map suc (find p s)

-- `s.find(p, pos)`.
unfoldable pub find_from : Text → Text → ℕ → Option ℕ
unfolding find
find_from p s from = Option.map (◌+◌ from) (find p (drop from s))

-- `s.rfind(c)`.
unfoldable pub rfind : ℕ → Text → Option ℕ
rfind c [] = none
rfind c (d ∷ s) = elim (rfind c s) [
  | some i ↦ some (suc i)
  | none ↦ if c == d then some 0 else none
]

-- `s.substr(from, count)` and `s.substr(from)`.
abbrev pub substr : Text → ℕ → ℕ → Text
substr s from count = take count (drop from s)

-- The four characters that `trim` strips.
abbrev pub is_blank : ℕ → Bool
is_blank c = c == b' ' || c == b'\t' || c == b'\r' || c == b'\n'

unfoldable pub strip_left : Text → Text
strip_left [] = []
strip_left (c ∷ s) = if is_blank c then strip_left s else c ∷ s

unfoldable pub strip_right : Text → Text
strip_right [] = []
strip_right (c ∷ s) =
    let rest = strip_right s in if is_empty rest && is_blank c then [] else c ∷ rest

-- `trim` of src/sip/SipParser.cpp and src/sip/Sdp.cpp: the first loop strips the left end, the
-- second the right end.
unfoldable pub trim : Text → Text
unfolding strip_left strip_right
trim s = strip_right (strip_left s)

unfoldable pub lower : ℕ → ℕ
lower c = if leb b'A' c && leb c b'Z' then c + 32 else c

abbrev pub is_digit : ℕ → Bool
is_digit c = leb b'0' c && leb c b'9'

-- `isspace` in the C locale.
abbrev pub is_space : ℕ → Bool
is_space c = c == b' ' || leb 9 c && leb c 13

-- `std::to_string` and `<<` of a natural number: a digit for each division, and the number is
-- fuel enough.
unfoldable pub digits_onto : ℕ → ℕ → ℕ → Text → Text
digits_onto base zero n out = out
digits_onto base (suc fuel) n out =
    let d = n % base in
    let c = if ltb d 10 then b'0' + d else b'a' + (d - 10) in
    let rest = digits_onto base fuel (n / base) (c ∷ out) in if ltb n base then c ∷ out else rest

abbrev pub to_string : ℕ → Text
to_string n = digits_onto 10 (suc n) n []

abbrev pub to_hex : ℕ → Text
to_hex n = digits_onto 16 (suc n) n []

unfoldable pub int_to_string : ℤ → Text
unfolding digits_onto
int_to_string (pos n) = to_string n
int_to_string (negsuc n) = b'-' ∷ to_string (suc n)

unfoldable pub skip_spaces : Text → Text
skip_spaces [] = []
skip_spaces (c ∷ s) = if is_space c then skip_spaces s else c ∷ s

-- The digits at the front, as a number read onto `n`.
unfoldable pub read_digits : ℕ → Text → ℕ
read_digits n [] = n
read_digits n (c ∷ s) =
    let rest = read_digits (n * 10 + (c - b'0')) s in if is_digit c then rest else n

abbrev pub starts_with_digit : Text → Bool
starts_with_digit [] = false
starts_with_digit (c ∷ s) = is_digit c

-- A sign and a number; `none` where no digit stands.
pub data Sign : Type 0 where
  plus minus : Sign

abbrev pub read_number : Sign → Text → Option (Sign × ℕ)
read_number sign s = if starts_with_digit s then some (sign, read_digits 0 s) else none

unfoldable pub read_signed : Text → Option (Sign × ℕ)
unfolding read_digits
read_signed [] = none
read_signed (c ∷ s) =
    if c == b'-'
    then read_number minus s
    else if c == b'+'
    then read_number plus s
    else read_number plus (c ∷ s)

-- `strtol(s, &end, 10)`: `none` is `end == s`; values beyond a `long` are clamped.
abbrev clamp_long : Sign × ℕ → ℤ
clamp_long (plus, n) = if ltb n (2 ^ 63) then pos n else pos (2 ^ 63 - 1)
clamp_long (minus, n) = if leb n (2 ^ 63) then sub_ℕ 0 n else negsuc (2 ^ 63 - 1)

unfoldable pub strtol : Text → Option ℤ
unfolding skip_spaces read_signed
strtol s = Option.map clamp_long (read_signed (skip_spaces s))

-- `atoi`, which is `strtol` cast to `int`.
unfoldable pub atoi : Text → ℤ
unfolding strtol signed unsigned
atoi s = elim (strtol s) [ none ↦ pos 0 | some n ↦ signed 32 (unsigned 32 n) ]

-- `std::stoi`: it throws where no number stands, or where it is beyond an `int`.
unfoldable pub stoi : Text → Option ℤ
unfolding strtol
stoi s = elim (strtol s) [
  | none ↦ none
  | some n ↦ if ltb_ℤ n (negsuc (2 ^ 31 - 1)) || ltb_ℤ (pos (2 ^ 31 - 1)) n then none else some n
]

-- `strtoull(s, nullptr, 10)`: a sign negates modulo 2 ^ 64, and values out of range are the maximum.
abbrev clamp_unsigned : Sign × ℕ → ℕ
clamp_unsigned (plus, n) = if ltb n (2 ^ 64) then n else 2 ^ 64 - 1
clamp_unsigned (minus, n) = if ltb n (2 ^ 64) then (2 ^ 64 - n) % 2 ^ 64 else 2 ^ 64 - 1

unfoldable pub strtoull : Text → ℕ
unfolding skip_spaces read_signed
strtoull s = elim (read_signed (skip_spaces s)) [ none ↦ 0 | some n ↦ clamp_unsigned n ]

-- Puts a byte at the front of the first token.
abbrev pub extend_token : ℕ → List Text → List Text
extend_token c [] = (c ∷ []) ∷ []
extend_token c (t ∷ ts) = (c ∷ t) ∷ ts

-- `while (iss >> tok) out.push_back(tok);`: the runs of bytes that are not space.
unfoldable pub tokenize : Text → List Text
tokenize [] = []
tokenize (c ∷ []) = if is_space c then [] else (c ∷ []) ∷ []
tokenize (c ∷ d ∷ s) =
    let rest = tokenize (d ∷ s) in
    if is_space c then rest else if is_space d then (c ∷ []) ∷ rest else extend_token c rest

-- `while (std::getline(iss, line))`: what stands between newlines; nothing after the last one.
unfoldable pub split_newlines : Text → List Text
split_newlines [] = []
split_newlines (c ∷ s) =
    let rest = split_newlines s in if c == b'\n' then [] ∷ rest else extend_token c rest
