-- ===== src/Tests/Descriptions.antt =====
-- A concrete offer and its answer (src/sip/Sdp.cpp), and the parser of src/sip/SipParser.cpp.
use sipdemo.Base.{
  some, true, is_empty, if◌then◌else◌, ◌≡◌, refl, [], ◌∷◌, ◌++◌, none, arith, length,
}
use sipdemo.Base.Int.{pos}
use sipdemo.Base.Text.{
  Text, text, trim, lower, find, find_from, starts_with, strip_left, strip_right, rfind, strtol,
  skip_spaces, read_signed, read_digits,
}
use sipdemo.Sip.Message.{SipMessage, new_message, get_in, iequals, crlf}
use sipdemo.Sip.Parser.{split_lines, parse_sip}
use sipdemo.Sip.Parser.Fuel.{split_lines-fuel}
use sipdemo.Sip.Parser.WellFormed.{WellFormed, parse_sip-WellFormed}
use sipdemo.Sip.Sdp.{SdpSession, new_session, contains}
use sipdemo.Sip.Sdp.Parse.{parse_sdp}
use sipdemo.Sip.Sdp.Parse.Refusal.{scanned, parse_sdp-scanned}
use sipdemo.Sip.Sdp.Answer.{make_answer, answer_with, Answers, make_answer-Answers}

-- PCMA and telephone events.
abbrev offer : SdpSession
offer = record new_session {
  connection_address = text "10.0.0.2";
  audio_port = 5004;
  payload_types = pos 8 ∷ pos 101 ∷ [];
  dtmf_payload_type = pos 101;
}

make_answer-Answers_example :
    Answers offer (answer_with offer (pos 8) (text "10.0.0.1") 4000) (text "10.0.0.1") 4000
unfolding make_answer contains
make_answer-Answers_example =
    make_answer-Answers offer (answer_with offer (pos 8) (text "10.0.0.1") 4000) (text "10.0.0.1")
      4000 refl

abbrev raw : Text
raw = text "A: b" ++ (crlf ++ crlf)

split_lines-fuel_example : split_lines 100 raw 4 0 ≡ split_lines (length raw) raw 4 0
unfolding find starts_with
split_lines-fuel_example = split_lines-fuel 100 raw 4 refl (omega arith)

-- A body with a media line alone.
parse_sdp-scanned_example : parse_sdp (text "m=audio 5004 RTP/AVP 0") ≡ (
    if is_empty (scanned (text "m=audio 5004 RTP/AVP 0")).payload_types
    then none
    else some (scanned (text "m=audio 5004 RTP/AVP 0")))
parse_sdp-scanned_example = parse_sdp-scanned (text "m=audio 5004 RTP/AVP 0")

abbrev bye : SipMessage
bye = record new_message {
  is_request = true;
  method = text "BYE";
  request_uri = text "sip:b";
  version = text "SIP/2.0";
  headers = (text "Content-Length", text "2") ∷ [];
  body = text "hi";
}

bye_parsed : parse_sip (text "BYE sip:b SIP/2.0\r\nContent-Length: 2\r\n\r\nhi!") ≡ some bye
unfolding parse_sip get_in iequals trim lower find find_from starts_with strip_left strip_right
    rfind strtol skip_spaces read_signed read_digits
bye_parsed = refl

parse_sip-WellFormed_example : WellFormed bye
parse_sip-WellFormed_example =
    parse_sip-WellFormed (text "BYE sip:b SIP/2.0\r\nContent-Length: 2\r\n\r\nhi!") bye bye_parsed
