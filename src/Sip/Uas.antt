-- ===== src/Sip/Uas.antt =====
-- include/sipdemo/SipUas.h and src/sip/SipUas.cpp: the user agent server's state, its tags and its
-- responses. The random generator, which the process shares, is a parameter: `rng n` is its output
-- at draw `n`, and the state counts the draws.
pub mod Keeps
pub mod Echo
pub mod Handle
use mathlib.Core.Option
use sipdemo.Base.{
  ℕ, ◌+◌, ◌%◌, ◌^◌, Bool, true, false, not, ◌&&◌, List, [], ◌∷◌, ◌++◌, Option, none, some, ltb,
  ◌==◌, if◌then◌else◌, is_empty, is_some,
}
use sipdemo.Base.Int.{ℤ, pos, negsuc, eqb_ℤ}
use sipdemo.Base.Text.{Text, text, text_eq, to_string, to_hex, digits_onto}
use sipdemo.Sip.Message.{SipMessage, Header, new_message, get, get_all, set, add}
use sipdemo.Sip.Parser.{CSeq, header_param, parse_cseq}
use sipdemo.Sip.Sdp.{SdpSession, generate}
use sipdemo.Sip.Sdp.Parse.{parse_sdp}
use sipdemo.Sip.Sdp.Answer.{make_answer}

pub record Config : Type 0 where
  pub local_ip : Text
  pub sip_port : ℕ
  pub rtp_port : ℕ
  pub user_agent : Text

pub data MediaAction : Type 0 where
  no_media start stop : MediaAction

pub record Endpoint : Type 0 where
  pub ip : Text
  pub port : ℕ

pub record Result : Type 0 where
  pub responses : List SipMessage
  pub media : MediaAction
  pub remote_rtp : Endpoint
  pub payload_type : ℤ
  pub dtmf_payload_type : ℤ

abbrev pub empty_result : Result
empty_result = record {
  responses = [];
  media = no_media;
  remote_rtp = record { ip = []; port = 0 };
  payload_type = negsuc 0;
  dtmf_payload_type = negsuc 0;
}

pub record SipUas : Type 0 where
  pub cfg : Config
  pub have_dialog : Bool
  pub call_id : Text
  pub local_tag : Text
  pub invite_cseq : ℤ
  pub last_invite : SipMessage
  pub last_2xx_invite : SipMessage
  pub answered : Bool
  pub forced_tag : Text
  pub tag_counter : ℕ
  pub draws : ℕ

-- A server as it is constructed, when the process has made `draws` draws.
abbrev pub create : Config → ℕ → SipUas
create cfg draws = record {
  cfg = cfg;
  have_dialog = false;
  call_id = [];
  local_tag = [];
  invite_cseq = negsuc 0;
  last_invite = new_message;
  last_2xx_invite = new_message;
  answered = false;
  forced_tag = [];
  tag_counter = 0;
  draws = draws;
}

abbrev pub set_tag_for_test : SipUas → Text → SipUas
set_tag_for_test u tag = record u { forced_tag = tag }

abbrev pub in_call : SipUas → Bool
in_call u = u.have_dialog

pub reason_for : ℕ → Text
reason_for code =
    if code == 100
    then text "Trying"
    else if code == 180
    then text "Ringing"
    else if code == 200
    then text "OK"
    else if code == 400
    then text "Bad Request"
    else if code == 415
    then text "Unsupported Media Type"
    else if code == 481
    then text "Call/Transaction Does Not Exist"
    else if code == 486
    then text "Busy Here"
    else if code == 487
    then text "Request Terminated"
    else if code == 488
    then text "Not Acceptable Here"
    else if code == 500
    then text "Server Internal Error"
    else text "OK"

-- `for (const auto& via : vias) resp.add("Via", via);`
pub add_all : SipMessage → Text → List Text → SipMessage
add_all m name [] = m
add_all m name (v ∷ vs) = add_all (add m name v) name vs

-- `if (auto v = req.get(name)) resp.set(name, *v);`
pub put_header : Option Text → SipMessage → Text → SipMessage
put_header none resp name = resp
put_header (some v) resp name = set resp name v

abbrev pub copy_header : SipMessage → SipMessage → Text → SipMessage
copy_header req resp name = put_header (get req name) resp name

-- `haveDialog_ && in.get("Call-ID") && *in.get("Call-ID") == callId_`.
pub names_call : SipUas → Option Text → Bool
names_call u none = false
names_call u (some cid) = u.have_dialog && text_eq cid u.call_id

abbrev pub in_dialog : SipUas → SipMessage → Bool
in_dialog u req = names_call u (get req (text "Call-ID"))

-- The number of a CSeq value, -1 where it cannot be read.
abbrev pub cseq_number : Text → ℤ
cseq_number v = elim (parse_cseq v) [ none ↦ negsuc 0 | some c ↦ c.number ]

module _ (rng : ℕ → ℕ) where
  pub new_tag : SipUas → Text × SipUas
  unfolding digits_onto
  new_tag u =
      if is_empty u.forced_tag
      then (let n = (u.tag_counter + 1) % 2 ^ 32 in
          (
            text "sd" ++ (to_hex (rng u.draws) ++ to_hex n),
            record u { tag_counter = n; draws = u.draws + 1 },
          ))
      else (u.forced_tag, u)

  -- The To value of a response, with our tag unless it has one or the code is 100.
  pub to_value : SipUas → Text → ℕ → Text × SipUas
  to_value u to code =
      if not (is_some (header_param to (text "tag"))) && ltb 100 code
      then (let (tag, u') = if is_empty u.local_tag then new_tag u else (u.local_tag, u) in
          (to ++ (text ";tag=" ++ tag), u'))
      else (to, u)

  pub set_to : SipUas → Option Text → ℕ → SipMessage → SipMessage × SipUas
  set_to u none code resp = (resp, u)
  set_to u (some to) code resp = let (v, u') = to_value u to code in (set resp (text "To") v, u')

  unfoldable pub make_response : SipUas → SipMessage → ℕ → Text → SipMessage × SipUas
  unfolding reason_for add_all put_header set_to to_value new_tag
  make_response u req code reason =
      let blank = record new_message {
        is_request = false;
        status_code = code;
        reason_phrase = if is_empty reason then reason_for code else reason;
      } in
      let with_via = add_all blank (text "Via") (get_all req (text "Via")) in
      let with_from = copy_header req with_via (text "From") in
      let (with_to, u') = set_to u (get req (text "To")) code with_from in
      let with_id = copy_header req with_to (text "Call-ID") in
      let with_cseq = copy_header req with_id (text "CSeq") in
      (set with_cseq (text "Server") (u'.cfg).user_agent, u')
