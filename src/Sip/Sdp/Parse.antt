-- ===== src/Sip/Sdp/Parse.antt =====
-- `parseSdp` (src/sip/Sdp.cpp): a session description from its text.
pub mod Refusal
use sipdemo.Base.{
  ℕ, ◌+◌, Bool, true, false, not, ◌&&◌, ◌||◌, List, [], ◌∷◌, ◌++◌, Option, none, some, ◌==◌,
  if◌then◌else◌, is_empty, drop, take,
}
use sipdemo.Base.Int.{ℤ, unsigned}
use sipdemo.Base.Text.{
  Text, text, text_eq, starts_with, find, trim, lower, tokenize, split_newlines, atoi, strtoull,
}
use sipdemo.Sip.Sdp.{SdpSession, new_session}

abbrev to_lower : Text → Text
to_lower [] = []
to_lower (c ∷ s) = lower c ∷ to_lower s

-- "rtpmap:<pt> <name>/<rate>": the payload type and the name.
pub parse_rtpmap : Text → Option (ℤ × Text)
parse_rtpmap val =
    if starts_with (text "rtpmap:") val
    then (let rest = drop 7 val in
        elim (find (text " ") rest) [
          | none ↦ none
          | some space ↦
              let name_rate = drop (space + 1) rest in
              let name : Text = elim (find (text "/") name_rate) [
                | none ↦ name_rate
                | some i ↦ take i name_rate
              ] in
              some (atoi (take space rest), to_lower name)
        ])
    else none

-- The loop's state: the session so far, `haveAudio` and `haveConnection`.
pub record Scan : Type 0 where
  pub session : SdpSession
  pub have_audio : Bool
  pub have_connection : Bool

abbrev pub new_scan : Scan
new_scan = record { session = new_session; have_audio = false; have_connection = false }

pub origin_line : Scan → List Text → Scan
origin_line sc (user ∷ id ∷ version ∷ net ∷ kind ∷ addr ∷ more) = record sc {
  session = record (sc.session) {
    username = user;
    session_id = strtoull id;
    session_version = strtoull version;
    connection_address = addr;
  };
}
origin_line sc _ = sc

pub connection_line : Scan → List Text → Scan
connection_line sc (net ∷ kind ∷ addr ∷ more) = record sc {
  session = record (sc.session) { connection_address = addr };
  have_connection = true;
}
connection_line sc _ = sc

abbrev atoi_all : List Text → List ℤ
atoi_all [] = []
atoi_all (t ∷ ts) = atoi t ∷ atoi_all ts

pub media_line : Scan → List Text → Scan
media_line sc (kind ∷ port ∷ proto ∷ pt ∷ pts) =
    if text_eq kind (text "audio")
    then record sc {
      session = record (sc.session) {
        audio_port = unsigned 16 (atoi port);
        payload_types = (sc.session).payload_types ++ atoi_all (pt ∷ pts);
      };
      have_audio = true;
    }
    else sc
media_line sc _ = sc

pub attribute_line : Scan → Text → Scan
attribute_line sc val =
    if starts_with (text "ptime:") val
    then record sc { session = record (sc.session) { ptime_ms = atoi (drop 6 val) } }
    else elim (parse_rtpmap val) [
      | none ↦ sc
      | some (pt, name) ↦
          if text_eq name (text "telephone-event")
          then record sc { session = record (sc.session) { dtmf_payload_type = pt } }
          else sc
    ]

-- The `switch` on the line's type.
pub typed_line : Scan → ℕ → Text → Scan
typed_line sc kind val =
    if kind == b'o'
    then origin_line sc (tokenize val)
    else if kind == b'c'
    then connection_line sc (tokenize val)
    else if kind == b'm'
    then media_line sc (tokenize val)
    else if kind == b'a'
    then attribute_line sc val
    else sc

-- A trimmed line of two bytes or more, the second one `=`.
pub scan_line : Scan → Text → Scan
scan_line sc (kind ∷ eq ∷ val) = if eq == b'=' then typed_line sc kind val else sc
scan_line sc _ = sc

pub scan_lines : Scan → List Text → Scan
scan_lines sc [] = sc
scan_lines sc (line ∷ lines) = scan_lines (scan_line sc (trim line)) lines

unfoldable pub parse_sdp : Text → Option SdpSession
unfolding scan_lines scan_line typed_line origin_line connection_line media_line attribute_line
    parse_rtpmap unsigned lower
parse_sdp body =
    let sc = scan_lines new_scan (split_newlines body) in
    if not sc.have_audio || is_empty (sc.session).payload_types
    then none
    else if not sc.have_connection && is_empty (sc.session).connection_address
    then none
    else some sc.session
