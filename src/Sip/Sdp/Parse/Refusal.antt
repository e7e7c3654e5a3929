-- ===== src/Sip/Sdp/Parse/Refusal.antt =====
-- When `parseSdp` (src/sip/Sdp.cpp) refuses a body.
use sipdemo.Base.{
  ℕ, ◌≡◌, refl, false, not, Bool-cases, Option-cases, inl, inr, List, [], ◌∷◌, ◌++◌, none, some,
  arith, ◌==◌, if◌then◌else◌, is_empty, All,
}
use sipdemo.Base.Text.{
  Text, text, text_eq, starts_with, tokenize, extend_token, is_space, trim, split_newlines, atoi,
}
use sipdemo.Sip.Sdp.{SdpSession}
use sipdemo.Sip.Sdp.Parse.{
  Scan, new_scan, origin_line, connection_line, media_line, attribute_line, typed_line, scan_line,
  scan_lines, parse_sdp, parse_rtpmap,
}

-- There is an address, and `haveAudio` says whether there is a payload type.
record IsScanned (sc : Scan) : Type 0 where
  addressed : is_empty (sc.session).connection_address ≡ false
  audio : sc.have_audio ≡ not (is_empty (sc.session).payload_types)

extend_token-All :
    (c : ℕ) (ts : List Text)
    → All (λ t. is_empty t ≡ false) ts
    → All (λ t. is_empty t ≡ false) (extend_token c ts)
extend_token-All c [] h = (refl, tt)
extend_token-All c (t ∷ ts) h = (refl, h.1)

tokenize-All : (s : Text) → All (λ t. is_empty t ≡ false) (tokenize s)
unfolding tokenize
tokenize-All [] = tt
tokenize-All (c ∷ []) = elim (Bool-cases (is_space c)) [
  | inl space ↦ rw space tt
  | inr other ↦ rw other (refl, tt)
]
tokenize-All (c ∷ d ∷ s) =
    let rest = tokenize-All (d ∷ s) in
    elim (Bool-cases (is_space c)) [
      | inl space ↦ rw space rest
      | inr other ↦ elim (Bool-cases (is_space d)) [
        | inl ends ↦ rw (other, ends) (refl, rest)
        | inr goes_on ↦ rw (other, goes_on) (extend_token-All c (tokenize (d ∷ s)) rest)
      ]
    ]

is_empty-append : {A : Type 0} (xs : List A) (y : A) (ys : List A) → is_empty (xs ++ y ∷ ys) ≡ false
is_empty-append [] y ys = refl
is_empty-append (x ∷ xs) y ys = refl

origin_line-IsScanned :
    (sc : Scan) (ts : List Text)
    → All (λ t. is_empty t ≡ false) ts
    → IsScanned sc
    → IsScanned (origin_line sc ts)
unfolding origin_line
origin_line-IsScanned sc [] h s = s
origin_line-IsScanned sc (a ∷ []) h s = s
origin_line-IsScanned sc (a ∷ b ∷ []) h s = s
origin_line-IsScanned sc (a ∷ b ∷ c ∷ []) h s = s
origin_line-IsScanned sc (a ∷ b ∷ c ∷ d ∷ []) h s = s
origin_line-IsScanned sc (a ∷ b ∷ c ∷ d ∷ e ∷ []) h s = s
origin_line-IsScanned sc (a ∷ b ∷ c ∷ d ∷ e ∷ f ∷ ts) h s = record {
  addressed = h.1.1.1.1.1.0;
  audio = s.audio;
}

connection_line-IsScanned :
    (sc : Scan) (ts : List Text)
    → All (λ t. is_empty t ≡ false) ts
    → IsScanned sc
    → IsScanned (connection_line sc ts)
unfolding connection_line
connection_line-IsScanned sc [] h s = s
connection_line-IsScanned sc (a ∷ []) h s = s
connection_line-IsScanned sc (a ∷ b ∷ []) h s = s
connection_line-IsScanned sc (a ∷ b ∷ c ∷ ts) h s = record { addressed = h.1.1.0; audio = s.audio }

media_line-IsScanned : (sc : Scan) (ts : List Text) → IsScanned sc → IsScanned (media_line sc ts)
unfolding media_line
media_line-IsScanned sc [] s = s
media_line-IsScanned sc (a ∷ []) s = s
media_line-IsScanned sc (a ∷ b ∷ []) s = s
media_line-IsScanned sc (a ∷ b ∷ c ∷ []) s = s
media_line-IsScanned sc (a ∷ b ∷ c ∷ d ∷ ts) s = elim (Bool-cases (text_eq a (text "audio"))) [
  | inr other ↦ rw other s
  | inl audio ↦ rw audio (record {
    addressed = s.addressed;
    audio = rw (is_empty-append (sc.session).payload_types (atoi d) _);
  })
]

attribute_line-IsScanned :
    (sc : Scan) (val : Text) → IsScanned sc → IsScanned (attribute_line sc val)
unfolding attribute_line
attribute_line-IsScanned sc val s = elim (Bool-cases (starts_with (text "ptime:") val)) [
  | inl ptime ↦ rw ptime (record { addressed = s.addressed; audio = s.audio })
  | inr other ↦ elim (Option-cases (parse_rtpmap val)) [
    | inl no_map ↦ rw (other, no_map) s
    | inr ((pt, name), found) ↦ elim (Bool-cases (text_eq name (text "telephone-event"))) [
      | inl events ↦ rw (other, found, events) (record { addressed = s.addressed; audio = s.audio })
      | inr codec ↦ rw (other, found, codec) s
    ]
  ]
]

typed_line-IsScanned :
    (sc : Scan) (kind : ℕ) (val : Text) → IsScanned sc → IsScanned (typed_line sc kind val)
unfolding typed_line
typed_line-IsScanned sc kind val s = elim (Bool-cases (kind == b'o')) [
  | inl o ↦ rw o (origin_line-IsScanned sc (tokenize val) (tokenize-All val) s)
  | inr not_o ↦ elim (Bool-cases (kind == b'c')) [
    | inl c ↦ rw (not_o, c) (connection_line-IsScanned sc (tokenize val) (tokenize-All val) s)
    | inr nc ↦ elim (Bool-cases (kind == b'm')) [
      | inl m ↦ rw (not_o, nc, m) (media_line-IsScanned sc (tokenize val) s)
      | inr nm ↦ elim (Bool-cases (kind == b'a')) [
        | inl a ↦ rw (not_o, nc, nm, a) (attribute_line-IsScanned sc val s)
        | inr na ↦ rw (not_o, nc, nm, na) s
      ]
    ]
  ]
]

scan_line-IsScanned : (sc : Scan) (line : Text) → IsScanned sc → IsScanned (scan_line sc line)
unfolding scan_line
scan_line-IsScanned sc [] s = s
scan_line-IsScanned sc (kind ∷ []) s = s
scan_line-IsScanned sc (kind ∷ eq ∷ val) s = elim (Bool-cases (eq == b'=')) [
  | inl typed ↦ rw typed (typed_line-IsScanned sc kind val s)
  | inr other ↦ rw other s
]

scan_lines-IsScanned :
    (sc : Scan) (lines : List Text) → IsScanned sc → IsScanned (scan_lines sc lines)
unfolding scan_lines
scan_lines-IsScanned sc [] s = s
scan_lines-IsScanned sc (line ∷ lines) s =
    scan_lines-IsScanned (scan_line sc (trim line)) lines (scan_line-IsScanned sc (trim line) s)

-- What the lines of a body give.
abbrev pub scanned : Text → SdpSession
scanned body = (scan_lines new_scan (split_newlines body)).session

-- A body is refused exactly if its lines name no audio payload type; otherwise the session is what
-- the lines give, whether or not one of them gives an address.
pub parse_sdp-scanned :
    (body : Text)
    → parse_sdp body ≡ (if is_empty (scanned body).payload_types then none else some (scanned body))
unfolding parse_sdp
parse_sdp-scanned body =
    let start : IsScanned new_scan = record { addressed = refl; audio = refl } in
    let s = scan_lines-IsScanned new_scan (split_newlines body) start in
    let a = s.addressed in
    let b = s.audio in
    elim (Bool-cases (is_empty (scanned body).payload_types)) [
      | inl silent ↦ rw (b, silent)
      | inr audio ↦ ground arith
    ]
