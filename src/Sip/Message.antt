-- ===== src/Sip/Message.antt =====
-- include/sipdemo/SipMessage.h and its functions in src/sip/SipParser.cpp: a SIP message, its
-- headers in their order with case-insensitive names, and its wire format. A status code is a
-- natural number: the parser reads three digits and the server writes constants.
pub mod Headers
use sipdemo.Base.{
  ℕ, Bool, true, false, not, ◌&&◌, List, [], ◌∷◌, ◌++◌, Option, none, some, ◌==◌, if◌then◌else◌,
  length,
}
use sipdemo.Base.Text.{Text, text, lower, to_string, digits_onto}

abbrev pub Header : Type 0
Header = Text × Text

pub record SipMessage : Type 0 where
  pub is_request : Bool
  pub method : Text
  pub request_uri : Text
  pub status_code : ℕ
  pub reason_phrase : Text
  pub version : Text
  pub headers : List Header
  pub body : Text

-- A message as its declaration initialises it.
abbrev pub new_message : SipMessage
new_message = record {
  is_request = true;
  method = [];
  request_uri = [];
  status_code = 0;
  reason_phrase = [];
  version = text "SIP/2.0";
  headers = [];
  body = [];
}

-- The loop of `iequals`, over texts of one length.
pub same_letters : Text → Text → Bool
same_letters [] bs = true
same_letters (a ∷ as_) [] = true
same_letters (a ∷ as_) (b ∷ bs) =
    let rest = same_letters as_ bs in if lower a == lower b then rest else false

unfoldable pub iequals : Text → Text → Bool
unfolding same_letters lower
iequals a b = if length a == length b then same_letters a b else false

-- `get`, `getAll` and `remove` over the header list.
unfoldable pub get_in : List Header → Text → Option Text
get_in [] name = none
get_in ((n, v) ∷ hs) name = if iequals n name then some v else get_in hs name

unfoldable pub get_all_in : List Header → Text → List Text
get_all_in [] name = []
get_all_in ((n, v) ∷ hs) name =
    let rest = get_all_in hs name in if iequals n name then v ∷ rest else rest

unfoldable pub remove_in : List Header → Text → List Header
remove_in [] name = []
remove_in ((n, v) ∷ hs) name =
    let rest = remove_in hs name in if iequals n name then rest else (n, v) ∷ rest

abbrev pub get : SipMessage → Text → Option Text
get m name = get_in m.headers name

abbrev pub get_all : SipMessage → Text → List Text
get_all m name = get_all_in m.headers name

abbrev pub add : SipMessage → Text → Text → SipMessage
add m name v = record m { headers = m.headers ++ (name, v) ∷ [] }

abbrev pub remove : SipMessage → Text → SipMessage
remove m name = record m { headers = remove_in m.headers name }

abbrev pub set : SipMessage → Text → Text → SipMessage
set m name v = add (remove m name) name v

abbrev pub crlf : Text
crlf = 13 ∷ 10 ∷ []

-- The header lines, without any Content-Length.
unfoldable pub header_lines : List Header → Text
header_lines [] = []
header_lines ((n, v) ∷ hs) =
    let rest = header_lines hs in
    if iequals n (text "Content-Length") then rest else n ++ (text ": " ++ (v ++ (crlf ++ rest)))

abbrev pub start_line : SipMessage → Text
start_line m =
    if m.is_request
    then m.method ++ (text " " ++ (m.request_uri ++ (text " " ++ m.version)))
    else m.version ++ (text " " ++ (to_string m.status_code ++ (text " " ++ m.reason_phrase)))

unfoldable pub serialize : SipMessage → Text
unfolding header_lines digits_onto
serialize m =
    start_line m
    ++ (crlf
        ++ (header_lines m.headers
            ++ (text "Content-Length: "
                ++ (to_string (length m.body) ++ (crlf ++ (crlf ++ m.body))))))
