-- ===== src/Sip/Parser.antt =====
-- include/sipdemo/SipParser.h and src/sip/SipParser.cpp: the parser of SIP datagrams, and the
-- helpers that read parameters and CSeq values out of headers. Positions are native numbers, and
-- `none` is `npos`.
pub mod Fuel
pub mod WellFormed
use sipdemo.Base.{
  ℕ, zero, suc, ◌+◌, ◌-◌, Bool, true, false, not, ◌&&◌, ◌||◌, List, [], ◌∷◌, ◌++◌, Option, none,
  some, ltb, ◌==◌, if◌then◌else◌, length, is_empty, drop, take,
}
use mathlib.Core.Option
use sipdemo.Base.Int.{ℤ, pos, ltb_ℤ, magnitude}
use sipdemo.Base.Text.{
  Text, text, starts_with, find, find_from, rfind, substr, trim, is_digit, strtol, atoi,
}
use sipdemo.Sip.Message.{Header, SipMessage, new_message, iequals, get, crlf}

infixl 5 ◌>>=◌
abbrev pub ◌>>=◌ {ℓ κ} : {A : Type ℓ} {B : Type κ} → Option A → (A → Option B) → Option B
none >>= f = none
some a >>= f = f a

abbrev pub require : Bool → Option (Unit {0})
require true = some tt
require false = none

infixl 5 ◌>>◌
abbrev pub ◌>>◌ {ℓ} : {B : Type ℓ} → Option (Unit {0}) → Option B → Option B
m >> k = m >>= λ _. k

-- `splitLines`: each round goes at least two bytes on, so the bytes left are fuel enough.
pub split_lines : ℕ → Text → ℕ → ℕ → List Text
split_lines zero raw header_end from = []
split_lines (suc fuel) raw header_end from =
    let nl : ℕ = elim (find_from crlf raw from) [
      | none ↦ header_end
      | some i ↦ if ltb header_end i then header_end else i
    ] in
    let rest = split_lines fuel raw header_end (nl + 2) in
    if ltb from header_end then substr raw from (nl - from) ∷ rest else []

-- `std::all_of(code.begin(), code.end(), ::isdigit)`.
pub all_digits : Text → Bool
all_digits [] = true
all_digits (c ∷ s) = is_digit c && all_digits s

-- A status line: "SIP/2.0 200 OK".
pub parse_status_line : Text → Option SipMessage
parse_status_line start = do
  sp1 ← find (text " ") start
  let sp2 = find_from (text " ") start (sp1 + 1)
  let code = substr start (sp1 + 1) (Option.get_or sp2 (length start) - sp1 - 1)
  require (length code == 3 && all_digits code)
  some (record new_message {
    is_request = false;
    version = substr start 0 sp1;
    status_code = magnitude (atoi code);
    reason_phrase = elim sp2 [ none ↦ [] | some i ↦ trim (drop (i + 1) start) ];
  })

-- A request line: "INVITE sip:bob@host SIP/2.0".
pub parse_request_line : Text → Option SipMessage
parse_request_line start = do
  sp1 ← find (text " ") start
  sp2 ← rfind b' ' start
  require (not (sp2 == sp1))
  let method = substr start 0 sp1
  let request_uri = trim (substr start (sp1 + 1) (sp2 - sp1 - 1))
  let version = trim (drop (sp2 + 1) start)
  require (not (is_empty method || is_empty request_uri))
  require (starts_with (text "SIP/") version)
  some (record new_message {
    is_request = true;
    method = method;
    request_uri = request_uri;
    version = version;
  })

pub parse_start_line : Text → Option SipMessage
parse_start_line start =
    if starts_with (text "SIP/") start then parse_status_line start else parse_request_line start

-- `headers.back().second += " " + trim(line)`.
pub fold_into_last : List Header → Text → Option (List Header)
fold_into_last [] line = none
fold_into_last ((n, v) ∷ []) line = some ((n, v ++ (text " " ++ trim line)) ∷ [])
fold_into_last (h ∷ k ∷ hs) line = do rest ← fold_into_last (k ∷ hs) line; some (h ∷ rest)

-- One header line onto the headers read so far.
pub parse_header_line : List Header → Text → Option (List Header)
parse_header_line hs [] = none
parse_header_line hs (c ∷ line) =
    if c == b' ' || c == b'\t' then fold_into_last hs (c ∷ line) else do
      colon ← find (text ":") (c ∷ line)
      let name = trim (substr (c ∷ line) 0 colon)
      let value = trim (drop (colon + 1) (c ∷ line))
      require (not (is_empty name))
      some (hs ++ (name, value) ∷ [])

pub parse_header_lines : List Header → List Text → Option (List Header)
parse_header_lines hs [] = some hs
parse_header_lines hs (line ∷ lines) = do
  hs' ← parse_header_line hs line
  parse_header_lines hs' lines

-- The body, cut to the declared length.
pub parse_body : SipMessage → Text → Option Text
parse_body msg body = elim (get msg (text "Content-Length")) [
  | none ↦ some body
  | some cl ↦ elim (strtol cl) [
    | none ↦ none
    | some declared ↦
        if ltb_ℤ declared (pos 0)
        then none
        else if ltb (length body) (magnitude declared)
        then none
        else some (take (magnitude declared) body)
  ]
]

pub parse_lines : List Text → Text → Option SipMessage
parse_lines [] body = none
parse_lines (start ∷ lines) body = do
  require (not (is_empty start))
  msg ← parse_start_line start
  hs ← parse_header_lines [] lines
  let msg' = record msg { headers = hs }
  b ← parse_body msg' body
  some (record msg' { body = b })

unfoldable pub parse_sip : Text → Option SipMessage
unfolding split_lines parse_lines parse_start_line parse_status_line parse_request_line all_digits
    parse_header_lines parse_header_line fold_into_last parse_body
parse_sip raw = do
  header_end ← find (crlf ++ crlf) raw
  parse_lines (split_lines (length raw) raw header_end 0) (drop (header_end + 4) raw)

-- `std::min` of two positions, `npos` being the greatest.
pub min_position : Option ℕ → Option ℕ → Option ℕ
min_position none b = b
min_position (some a) none = some a
min_position (some a) (some b) = some (if ltb b a then b else a)

-- Where the parameter's name is found: a flag, or the text behind the `=`.
pub param_value : Text → Option ℕ → Option ℕ → Text
param_value v none semi = []
param_value v (some eq) semi =
    if elim semi [ none ↦ false | some s ↦ ltb s eq ]
    then []
    else let val_end = Option.get_or (find_from (text ";") v (eq + 1)) (length v) in
      trim (substr v (eq + 1) (val_end - eq - 1))

-- `headerParam`, from `pos` on; each round starts behind another semicolon.
pub header_param_from : ℕ → Text → Text → ℕ → Option Text
header_param_from zero v name from = none
header_param_from (suc fuel) v name from = elim (find_from (text ";") v from) [
  | none ↦ none
  | some i ↦
      let start = i + 1 in
      let eq = find_from (text "=") v start in
      let semi = find_from (text ";") v start in
      let name_end = Option.get_or (min_position eq semi) (length v) in
      let rest = header_param_from fuel v name start in
      if iequals (trim (substr v start (name_end - start))) name
      then some (param_value v eq semi)
      else rest
]

unfoldable pub header_param : Text → Text → Option Text
unfolding header_param_from param_value min_position
header_param v name = header_param_from (suc (length v)) v name 0

pub record CSeq : Type 0 where
  pub number : ℤ
  pub method : Text

unfoldable pub parse_cseq : Text → Option CSeq
parse_cseq value = do
  let v = trim value
  sp ← find (text " ") v
  number ← strtol v
  let method = trim (drop (sp + 1) v)
  require (not (is_empty method))
  some (record { number = number; method = method })
