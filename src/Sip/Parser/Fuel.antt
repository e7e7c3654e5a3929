-- ===== src/Sip/Parser/Fuel.antt =====
-- The loops of `splitLines` and `headerParam` (src/sip/SipParser.cpp) end within the fuel that they
-- are given.
use mathlib.Core.Option
use sipdemo.Base.{
  ℕ, zero, suc, ◌+◌, ◌-◌, ◌≤◌, ◌<◌, ◌≡◌, refl, ap, sym, ◌∙◌, false, Bool-cases, Option-cases, inl,
  inr, [], ◌∷◌, ◌++◌, Option, none, some, arith, ltb, if◌then◌else◌, length, length-drop, drop,
}
use sipdemo.Base.Text.{Text, text, find, find_from, substr, starts_with, trim}
use sipdemo.Sip.Message.{crlf, iequals}
use sipdemo.Sip.Parser.{split_lines, header_param_from, header_param, min_position, param_value}

find_from-le : (p s : Text) (from i : ℕ) → find_from p s from ≡ some i → from ≤ i
unfolding find_from
find_from-le p s from i h = ground arith

-- The end of the line that begins at `from`.
line_end : Text → ℕ → ℕ → ℕ
line_end raw header_end from = elim (find_from crlf raw from) [
  | none ↦ header_end
  | some i ↦ if ltb header_end i then header_end else i
]

line_end-le : (raw : Text) (e from : ℕ) → from < e → from ≤ line_end raw e from
unfolding line_end
line_end-le raw e from h = elim (Option-cases (find_from crlf raw from)) [
  | inl no_line ↦ rw (no_line, line_end) (omega arith)
  | inr (i, found) ↦
      rw (found, line_end) (let j = find_from-le crlf raw from i found in ground arith)
]

split_lines_step :
    (fuel : ℕ) (raw : Text) (e from : ℕ)
    → split_lines (suc fuel) raw e from ≡ (
        if ltb from e
        then substr raw from (line_end raw e from - from)
          ∷ split_lines fuel raw e (line_end raw e from + 2)
        else [])
unfolding split_lines line_end
split_lines_step fuel raw e from = refl

split_lines_zero : (raw : Text) (e from : ℕ) → split_lines 0 raw e from ≡ []
unfolding split_lines
split_lines_zero raw e from = refl

split_lines_any :
    (n m : ℕ) (raw : Text) (e from : ℕ)
    → e ≤ from + n
    → e ≤ from + m
    → split_lines n raw e from ≡ split_lines m raw e from
split_lines_any zero zero raw e from hn hm = refl
split_lines_any zero (suc m) raw e from hn hm =
    let done : ltb from e ≡ false = ground arith in
    split_lines_zero raw e from ∙ sym (split_lines_step m raw e from ∙ rw done)
split_lines_any (suc n) zero raw e from hn hm =
    let done : ltb from e ≡ false = ground arith in
    split_lines_step n raw e from ∙ (rw done (sym (split_lines_zero raw e from)))
split_lines_any (suc n) (suc m) raw e from hn hm = elim (Bool-cases (ltb from e)) [
  | inr done ↦
      split_lines_step n raw e from ∙ (rw done (sym (split_lines_step m raw e from ∙ rw done)))
  | inl more ↦
      let on = line_end-le raw e from (ground arith) in
      let next = line_end raw e from + 2 in
      let rest = split_lines_any n m raw e next (omega arith) (omega arith) in
      split_lines_step n raw e from
      ∙ (rw (more, rest) (sym (split_lines_step m raw e from ∙ rw more)))
]

-- A text that is found lies within the one that is searched.
find-le : (p s : Text) (i : ℕ) → find p s ≡ some i → i ≤ length s
unfolding find
find-le p [] i h = ground arith
find-le p (c ∷ s) i h = elim (Bool-cases (starts_with p (c ∷ s))) [
  | inl found ↦ let here = rw found at h in ground arith
  | inr further ↦
      let there = rw further at h in
      elim (Option-cases (find p s)) [
        | inl missing ↦ absurd (let gone = rw missing at there in cc)
        | inr (j, found) ↦
            let k : suc j ≡ i = let e = rw found at there in ground arith in
            omega (arith, find-le p s j found)
      ]
]

-- In a message with an end of its headers, more rounds than its length find no other lines.
pub split_lines-fuel :
    (fuel : ℕ) (raw : Text) (header_end : ℕ)
    → find (crlf ++ crlf) raw ≡ some header_end
    → length raw ≤ fuel
    → split_lines fuel raw header_end 0 ≡ split_lines (length raw) raw header_end 0
split_lines-fuel fuel raw header_end found enough =
    let within = find-le (crlf ++ crlf) raw header_end found in
    split_lines_any fuel (length raw) raw header_end 0 (omega arith) (omega arith)

find-semicolon : (s : Text) (i : ℕ) → find (text ";") s ≡ some i → i < length s
unfolding find starts_with
find-semicolon [] i h = ground arith
find-semicolon (c ∷ s) i h = elim (Option-cases (find (text ";") s)) [
  | inl missing ↦ let e = rw missing at h in ground arith
  | inr (j, found) ↦ let e = rw found at h in ground (arith, find-semicolon s j found)
]

find_from-semicolon :
    (v : Text) (from i : ℕ) → find_from (text ";") v from ≡ some i → (from ≤ i) × (i < length v)
unfolding find_from
find_from-semicolon v from i h = elim (Option-cases (find (text ";") (drop from v))) [
  | inl missing ↦ absurd (let e = rw missing at h in cc)
  | inr (j, found) ↦
      let e : j + from ≡ i = let h' = rw found at h in ground arith in
      let below = find-semicolon (drop from v) j found in omega (arith, below, length-drop from v)
]

-- A round that finds a semicolon at `i`, given what the later rounds find.
after_semicolon : Text → Text → ℕ → Option Text → Option Text
after_semicolon v name i rest =
    let eq = find_from (text "=") v (i + 1) in
    let semi = find_from (text ";") v (i + 1) in
    let name_end = Option.get_or (min_position eq semi) (length v) in
    if iequals (trim (substr v (i + 1) (name_end - (i + 1)))) name
    then some (param_value v eq semi)
    else rest

header_param_found :
    (fuel : ℕ) (v name : Text) (from i : ℕ)
    → find_from (text ";") v from ≡ some i
    → header_param_from (suc fuel) v name from
      ≡ after_semicolon v name i (header_param_from fuel v name (i + 1))
unfolding header_param_from after_semicolon
header_param_found fuel v name from i found = rw (found, header_param_from)

header_param_missing :
    (fuel : ℕ) (v name : Text) (from : ℕ)
    → find_from (text ";") v from ≡ none
    → header_param_from fuel v name from ≡ none
unfolding header_param_from
header_param_missing zero v name from missing = refl
header_param_missing (suc fuel) v name from missing = rw (missing, header_param_from)

header_param_any :
    (n m : ℕ) (v name : Text) (from : ℕ)
    → length v < from + n
    → length v < from + m
    → header_param_from n v name from ≡ header_param_from m v name from
header_param_any zero m v name from hn hm = elim (Option-cases (find_from (text ";") v from)) [
  | inl missing ↦
      header_param_missing 0 v name from missing ∙ sym (header_param_missing m v name from missing)
  | inr (i, found) ↦ absurd (omega (arith, find_from-semicolon v from i found))
]
header_param_any (suc n) zero v name from hn hm =
    elim (Option-cases (find_from (text ";") v from)) [
      | inl missing ↦
          header_param_missing (suc n) v name from missing
          ∙ sym (header_param_missing 0 v name from missing)
      | inr (i, found) ↦ absurd (omega (arith, find_from-semicolon v from i found))
    ]
header_param_any (suc n) (suc m) v name from hn hm =
    elim (Option-cases (find_from (text ";") v from)) [
      | inl missing ↦
          header_param_missing (suc n) v name from missing
          ∙ sym (header_param_missing (suc m) v name from missing)
      | inr (i, found) ↦
          let on = find_from-semicolon v from i found in
          let rest = header_param_any n m v name (i + 1) (omega (arith, on)) (omega (arith, on)) in
          header_param_found n v name from i found
          ∙ (ap (after_semicolon v name i) rest ∙ sym (header_param_found m v name from i found))
    ]

-- More rounds than the value has bytes find no other parameter than `header_param` does.
header_param-fuel :
    (fuel : ℕ) (v name : Text)
    → length v < fuel
    → header_param_from fuel v name 0 ≡ header_param v name
unfolding header_param
header_param-fuel fuel v name enough =
    header_param_any fuel (suc (length v)) v name 0 (omega arith) (omega arith)
