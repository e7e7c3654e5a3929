-- ===== src/Tests/Calls.antt =====
-- Concrete requests to the server (src/sip/SipUas.cpp), and headers of a message
-- (src/sip/SipParser.cpp).
use sipdemo.Base.{List, ℕ, ◌≡◌, ◌⊎◌, ◌↔◌, refl, true, false, [], ◌∷◌, ◌++◌, some, inl}
use sipdemo.Base.Text.{Text, text, text_eq}
use sipdemo.Sip.Message.{SipMessage, new_message, get, get_all, iequals}
use sipdemo.Sip.Uas.{Config, SipUas, create, make_response}
use sipdemo.Sip.Uas.Handle.Retransmit.{handle-retransmission}
use sipdemo.Sip.Uas.{start}
use sipdemo.Sip.Parser.{header_param, parse_cseq}
use sipdemo.Sip.Sdp.{contains}
use sipdemo.Sip.Sdp.Parse.{parse_sdp}
use sipdemo.Sip.Sdp.Answer.{make_answer}
use sipdemo.Sip.Message.{get_in, get_all_in, remove_in}
use sipdemo.Base.Text.{
  trim, lower, tokenize, split_newlines, find, find_from, starts_with, atoi, skip_spaces,
  read_signed, read_digits, strtol, strip_left, strip_right,
}
use sipdemo.Base.Int.{unsigned}
use sipdemo.Sip.Uas.Handle.{answering, handle}
use sipdemo.Sip.Uas.Echo.{make_response_echo}
use sipdemo.Sip.Uas.Handle.Dialog.{run, handle-answers, handle_cancel_run}

abbrev pub rng : ℕ → ℕ
rng n = n

abbrev cfg : Config
cfg = record {
  local_ip = text "10.0.0.1";
  sip_port = 5060;
  rtp_port = 4000;
  user_agent = text "sipdemo/1.0";
}

abbrev pub request : Text → SipMessage
request method = record new_message {
  method = method;
  headers =
      (text "Via", text "SIP/2.0/UDP 10.0.0.2;branch=z9hG4bK1")
      ∷ (text "From", text "<sip:a>;tag=1")
      ∷ (text "To", text "<sip:b>")
      ∷ (text "Call-ID", text "abc")
      ∷ (text "CSeq", text "1 INVITE")
      ∷ [];
}

abbrev pub idle : SipUas
idle = create cfg 0

make_response_echo_example :
    let req = request (text "OPTIONS") in
    let resp = (make_response rng idle req 200 (text "OK")).0 in
    (get_all resp (text "Via") ≡ get_all req (text "Via"))
    × (get resp (text "From") ≡ get req (text "From"))
    × (get resp (text "Call-ID") ≡ get req (text "Call-ID"))
    × (get resp (text "CSeq") ≡ get req (text "CSeq"))
    × (get resp (text "Server") ≡ some (idle.cfg).user_agent)
    × (resp.status_code ≡ 200)
    × (resp.is_request ≡ false)
    × (resp.body ≡ [])
make_response_echo_example = make_response_echo rng idle (request (text "OPTIONS")) 200 (text "OK")

handle-answers_example : ((handle rng idle (request (text "BYE"))).0.responses ≡ []) ↔ (
    ((request (text "BYE")).is_request ≡ false)
    ⊎ (text_eq (request (text "BYE")).method (text "ACK") ≡ true))
handle-answers_example = handle-answers rng idle (request (text "BYE")) (inl refl)

handle_cancel_run_example :
    let u = run rng idle (request (text "INVITE") ∷ []) in
    let req = request (text "CANCEL") in
    ((handle rng u req).0 ≡ answering ((make_response rng u req 200 (text "OK")).0 ∷ []))
    × ((handle rng u req).1.have_dialog ≡ u.have_dialog)
    × ((handle rng u req).1.call_id ≡ u.call_id)
    × ((handle rng u req).1.answered ≡ u.answered)
unfolding text_eq
handle_cancel_run_example =
    handle_cancel_run rng cfg 0 (request (text "INVITE") ∷ []) (request (text "CANCEL")) refl refl

abbrev pub invite : SipMessage
invite = record (request (text "INVITE")) { body = text "m=audio 5004 RTP/AVP 0" }

invite_starts : (handle rng idle invite).0.media ≡ start
unfolding handle make_response parse_sdp make_answer contains get_in get_all_in remove_in iequals
    text_eq header_param parse_cseq trim lower tokenize split_newlines find find_from starts_with
    atoi skip_spaces read_signed read_digits strtol strip_left strip_right unsigned
invite_starts = refl

handle-retransmission_example :
    let x = handle rng idle invite in
    ((ps : List SipMessage) × (x.0.responses ≡ ps ++ x.1.last_2xx_invite ∷ []))
    × (handle rng x.1 invite ≡ (answering (x.1.last_2xx_invite ∷ []), x.1))
unfolding get_in iequals lower text_eq
handle-retransmission_example =
    handle-retransmission rng idle invite (text "abc") (text "1 INVITE") refl refl refl refl
      invite_starts
