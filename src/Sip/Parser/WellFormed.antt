-- ===== src/Sip/Parser/WellFormed.antt =====
-- What `parseSip` (src/sip/SipParser.cpp) guarantees of the messages that it accepts.
use mathlib.Core.Option
use mathlib.Core.Path.{subst}
use sipdemo.Base.{
  ◌+◌, ◌-◌, ◌≡◌, refl, ap, sym, ◌∙◌, Bool, true, false, not, ◌&&◌, ◌||◌, Bool-cases, Option-cases,
  inl, inr, List, [], ◌∷◌, ◌++◌, Option, none, some, arith, ltb, ◌==◌, if◌then◌else◌, length,
  length-take, drop, take, is_empty, All, All-append,
}
use sipdemo.Base.Int.{ℤ, pos, negsuc, ltb_ℤ, magnitude}
use sipdemo.Base.Text.{Text, text, find, find_from, rfind, substr, starts_with, trim, strtol}
use sipdemo.Sip.Message.{Header, SipMessage, get, get_in, crlf}
use sipdemo.Sip.Parser.{
  ◌>>=◌, require, ◌>>◌, parse_status_line, parse_request_line, parse_start_line, fold_into_last,
  parse_header_line, parse_header_lines, parse_body, parse_lines, split_lines, parse_sip,
  all_digits,
}

bind-some {ℓ κ} :
    {A : Type ℓ} {B : Type κ} (m : Option A) (f : A → Option B) (b : B)
    → m >>= f ≡ some b
    → (a : A) × (m ≡ some a) × (f a ≡ some b)
bind-some none f b h = absurd cc
bind-some (some a) f b h = (a, refl, h)

require-some {ℓ} :
    {B : Type ℓ} (c : Bool) (k : Option B) (b : B)
    → require c >> k ≡ some b
    → (c ≡ true) × (k ≡ some b)
require-some true k b h = (refl, h)
require-some false k b h = absurd cc

-- A predicate of a result, where there is one.
abbrev OfSome {ℓ κ} : {A : Type ℓ} → (A → Type κ) → Option A → Type κ
OfSome P none = Unit
OfSome P (some a) = P a

OfSome-bind {ℓ κ μ} :
    {A : Type ℓ} {B : Type κ} (P : B → Type μ) (m : Option A) (f : A → Option B)
    → ((a : A) → m ≡ some a → OfSome P (f a))
    → OfSome P (m >>= f)
OfSome-bind P none f h = tt
OfSome-bind P (some a) f h = h a refl

OfSome-require {ℓ κ} :
    {B : Type ℓ} (P : B → Type κ) (c : Bool) (k : Option B)
    → (c ≡ true → OfSome P k)
    → OfSome P (require c >> k)
OfSome-require P true k h = h refl
OfSome-require P false k h = tt

unnegated : (b : Bool) → not b ≡ true → b ≡ false
unnegated true h = absurd cc
unnegated false h = refl

nor_true : (a b : Bool) → not (a || b) ≡ true → (a ≡ false) × (b ≡ false)
nor_true true b h = absurd cc
nor_true false true h = absurd cc
nor_true false false h = (refl, refl)

abbrev pub IsNamed : Header → Type 0
IsNamed h = is_empty h.0 ≡ false

fold_into_last-IsNamed :
    (hs gs : List Header) (line : Text)
    → All IsNamed hs
    → fold_into_last hs line ≡ some gs
    → All IsNamed gs
unfolding fold_into_last
fold_into_last-IsNamed [] gs line h e = absurd cc
fold_into_last-IsNamed ((n, v) ∷ []) gs line h e = subst (OfSome (All IsNamed)) e (h.0, tt)
fold_into_last-IsNamed (g ∷ k ∷ hs) gs line h e =
    let (rest, read, is) =
      bind-some (fold_into_last (k ∷ hs) line) (λ rest. some (g ∷ rest)) gs e in
    subst (OfSome (All IsNamed)) is (h.0, fold_into_last-IsNamed (k ∷ hs) rest line h.1 read)

parse_header_line-IsNamed :
    (hs gs : List Header) (line : Text)
    → All IsNamed hs
    → parse_header_line hs line ≡ some gs
    → All IsNamed gs
unfolding parse_header_line
parse_header_line-IsNamed hs gs [] h e = absurd cc
parse_header_line-IsNamed hs gs (c ∷ line) h e = elim (Bool-cases (c == b' ' || c == b'\t')) [
  | inl folded ↦ fold_into_last-IsNamed hs gs (c ∷ line) h (rw folded at e)
  | inr plain ↦
      let (colon, found, e') = bind-some (find (text ":") (c ∷ line)) _ gs (rw plain at e) in
      let name = trim (substr (c ∷ line) 0 colon) in
      let (named, is) = require-some (not (is_empty name)) _ gs e' in
      subst (OfSome (All IsNamed)) is
        (All-append IsNamed hs _ h (unnegated (is_empty name) named, tt))
]

parse_header_lines-IsNamed :
    (hs gs : List Header) (lines : List Text)
    → All IsNamed hs
    → parse_header_lines hs lines ≡ some gs
    → All IsNamed gs
unfolding parse_header_lines
parse_header_lines-IsNamed hs gs [] h e = subst (OfSome (All IsNamed)) e h
parse_header_lines-IsNamed hs gs (line ∷ lines) h e =
    let (hs', one, rest) =
      bind-some (parse_header_line hs line) (λ hs'. parse_header_lines hs' lines) gs e in
    parse_header_lines-IsNamed hs' gs lines (parse_header_line-IsNamed hs hs' line h one) rest

-- The start line of a request has its three parts; a response has no method and no URI.
abbrev pub StartsOf : Bool → Text → Text → Text → Type 0
StartsOf true method uri version =
    (is_empty method ≡ false) × (is_empty uri ≡ false) × (starts_with (text "SIP/") version ≡ true)
StartsOf false method uri version = (method ≡ []) × (uri ≡ [])

abbrev pub Starts : SipMessage → Type 0
Starts m = StartsOf m.is_request m.method m.request_uri m.version

no_parts : (s : Text) → (s ≡ s) × (s ≡ s)
no_parts s = (refl, refl)

parse_status_line-Starts : (start : Text) → OfSome Starts (parse_status_line start)
unfolding parse_status_line
parse_status_line-Starts start = OfSome-bind Starts (find (text " ") start) _ (λ sp1 at_.
    let sp2 = find_from (text " ") start (sp1 + 1) in
    let code = substr start (sp1 + 1) (Option.get_or sp2 (length start) - sp1 - 1) in
    OfSome-require Starts (length code == 3 && all_digits code) _ (λ digits. no_parts []))

three_parts :
    (a b c : Bool) → not (a || b) ≡ true → c ≡ true → (a ≡ false) × (b ≡ false) × (c ≡ true)
three_parts a b c h k = let (x, y) = nor_true a b h in (x, y, k)

parse_request_line-Starts : (start : Text) → OfSome Starts (parse_request_line start)
unfolding parse_request_line
parse_request_line-Starts start = OfSome-bind Starts (find (text " ") start) _ (λ sp1 at_.
    OfSome-bind Starts (rfind b' ' start) _ (λ sp2 at2.
      let method = substr start 0 sp1 in
      let uri = trim (substr start (sp1 + 1) (sp2 - sp1 - 1)) in
      let version = trim (drop (sp2 + 1) start) in
      OfSome-require Starts (not (sp2 == sp1)) _ (λ apart.
        OfSome-require Starts (not (is_empty method || is_empty uri)) _ (λ filled.
          OfSome-require Starts (starts_with (text "SIP/") version) _
            (λ is_sip. three_parts (is_empty method) (is_empty uri) _ filled is_sip)))))

parse_start_line-Starts : (start : Text) → OfSome Starts (parse_start_line start)
unfolding parse_start_line
parse_start_line-Starts start = elim (Bool-cases (starts_with (text "SIP/") start)) [
  | inl status ↦ rw status (parse_status_line-Starts start)
  | inr request ↦ rw request (parse_request_line-Starts start)
]

-- The body has the length that is declared, where one is.
abbrev pub Declares : Option Text → Text → Type 0
Declares none body = Unit
Declares (some cl) body = strtol cl ≡ some (pos (length body))

natural : (a : ℤ) → ltb_ℤ a (pos 0) ≡ false → a ≡ pos (magnitude a)
natural (pos n) h = ap pos (omega arith)
natural (negsuc n) h = absurd (ground (arith, h))

cut-Declares :
    (cl body : Text) (declared : ℤ)
    → strtol cl ≡ some declared
    → OfSome (Declares (some cl)) (
        if ltb_ℤ declared (pos 0)
        then none
        else if ltb (length body) (magnitude declared)
        then none
        else some (take (magnitude declared) body))
cut-Declares cl body declared read = elim (Bool-cases (ltb_ℤ declared (pos 0))) [
  | inl below ↦ rw below tt
  | inr natural_ ↦ elim (Bool-cases (ltb (length body) (magnitude declared))) [
    | inl short ↦ rw (natural_, short) tt
    | inr enough ↦
        let n = magnitude declared in
        let long : length (take n body) ≡ n = ground (arith, enough, length-take n body) in
        rw (natural_, enough) (read ∙ ap some (natural declared natural_ ∙ ap pos (sym long)))
  ]
]

parse_body-Declares :
    (m : SipMessage) (body : Text)
    → OfSome (Declares (get m (text "Content-Length"))) (parse_body m body)
unfolding parse_body
parse_body-Declares m body = elim (Option-cases (get m (text "Content-Length"))) [
  | inl free ↦ rw (free, parse_body) tt
  | inr (cl, there) ↦ elim (Option-cases (strtol cl)) [
    | inl bad ↦ rw (there, bad, parse_body) tt
    | inr (declared, read) ↦ rw (there, read, parse_body) (cut-Declares cl body declared read)
  ]
]

pub record WellFormed (m : SipMessage) : Type 0 where
  pub start : Starts m
  pub named : All IsNamed m.headers
  pub framed : Declares (get m (text "Content-Length")) m.body

parse_lines-WellFormed :
    (lines : List Text) (body : Text) → OfSome WellFormed (parse_lines lines body)
unfolding parse_lines
parse_lines-WellFormed [] body = tt
parse_lines-WellFormed (start ∷ lines) body =
    OfSome-require WellFormed (not (is_empty start)) _ (λ filled.
      OfSome-bind WellFormed (parse_start_line start) _ (λ msg is_msg.
        OfSome-bind WellFormed (parse_header_lines [] lines) _ (λ hs is_hs.
          let msg' = record msg { headers = hs } in
          OfSome-bind WellFormed (parse_body msg' body) _ (λ b is_b.
            let found : WellFormed (record msg' { body = b }) = record {
              start = subst (OfSome Starts) is_msg (parse_start_line-Starts start);
              named = parse_header_lines-IsNamed [] hs lines tt is_hs;
              framed =
                  subst (OfSome (Declares (get_in hs (text "Content-Length")))) is_b
                    (parse_body-Declares msg' body);
            } in
            found))))

-- Whatever bytes arrive: of a message that the parser accepts, a request has a method, a URI and a
-- version that begins with SIP/, and a response has no method and no URI; no header's name is empty;
-- and where a Content-Length is given it is the length of the body.
pub parse_sip-WellFormed : (raw : Text) (m : SipMessage) → parse_sip raw ≡ some m → WellFormed m
unfolding parse_sip
parse_sip-WellFormed raw m e = subst (OfSome WellFormed) e (
    OfSome-bind WellFormed (find (crlf ++ crlf) raw) _
      (λ header_end at_. parse_lines-WellFormed (split_lines (length raw) raw header_end 0) _))
