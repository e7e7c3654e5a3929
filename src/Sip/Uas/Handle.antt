-- ===== src/Sip/Uas/Handle.antt =====
-- `SipUas::handle` (src/sip/SipUas.cpp): the state machine for one call, a function for each part
-- of the method.
pub mod Outcome
pub mod Invite
pub mod Requests
pub mod Dialog
pub mod Refine
pub mod Retransmit
use mathlib.Core.Option
use sipdemo.Base.{
  ℕ, ◌+◌, ◌%◌, ◌^◌, Bool, true, false, not, ◌&&◌, List, [], ◌∷◌, ◌++◌, Option, none, some, ltb,
  ◌==◌, if◌then◌else◌, is_empty, is_some,
}
use sipdemo.Base.Int.{ℤ, pos, negsuc, eqb_ℤ}
use sipdemo.Base.Text.{Text, text, text_eq, to_string, to_hex, digits_onto}
use sipdemo.Sip.Message.{SipMessage, Header, new_message, get, get_all, set, add}
use sipdemo.Sip.Parser.{CSeq, header_param, parse_cseq}
use sipdemo.Sip.Sdp.{SdpSession, generate}
use sipdemo.Sip.Sdp.Parse.{parse_sdp}
use sipdemo.Sip.Sdp.Answer.{make_answer, front}
use sipdemo.Sip.Uas.{
  Config, MediaAction, no_media, start, stop, Endpoint, Result, empty_result, SipUas, create,
  set_tag_for_test, in_call, reason_for, add_all, put_header, copy_header, names_call, in_dialog,
  cseq_number, new_tag, to_value, set_to, make_response,
}

abbrev allowed : Text
allowed = text "INVITE, ACK, BYE, CANCEL, OPTIONS"

abbrev pub answering : List SipMessage → Result
answering rs = record empty_result { responses = rs }

module _ (rng : ℕ → ℕ) where
  pub handle_options : SipUas → SipMessage → Result × SipUas
  handle_options u req =
      let (resp, u') = make_response rng u req 200 (text "OK") in
      let resp' = set (set resp (text "Allow") allowed) (text "Accept") (text "application/sdp") in
      (answering (resp' ∷ []), u')

  -- One response without a dialog change.
  pub respond : SipUas → SipMessage → ℕ → Text → Result × SipUas
  respond u req code reason =
      let (resp, u') = make_response rng u req code reason in (answering (resp ∷ []), u')

  -- The final response of a failed negotiation, behind the provisional ones; the dialog ends.
  pub fail_invite : SipUas → SipMessage → List SipMessage → ℕ → Text → Result × SipUas
  fail_invite u req provisional code reason =
      let (resp, u') = make_response rng u req code reason in
      (answering (provisional ++ resp ∷ []), record u' { have_dialog = false })

  -- The 200 answer, cached for retransmissions; media starts.
  pub accept_invite :
      SipUas → SipMessage → List SipMessage → SdpSession → SdpSession → ℤ → Result × SipUas
  accept_invite u req provisional offer answer codec =
      let (resp, u') = make_response rng u req 200 (text "OK") in
      let contact =
        text "<sip:"
        ++ ((u'.cfg).local_ip ++ (text ":" ++ (to_string (u'.cfg).sip_port ++ text ">"))) in
      let described =
        set (set resp (text "Contact") contact) (text "Content-Type") (text "application/sdp") in
      let ok = record described { body = generate answer } in
      (
        record {
          responses = provisional ++ ok ∷ [];
          media = start;
          remote_rtp = record { ip = offer.connection_address; port = offer.audio_port };
          payload_type = codec;
          dtmf_payload_type = answer.dtmf_payload_type;
        },
        record u' { last_2xx_invite = ok; answered = true },
      )

  pub negotiate : SipUas → SipMessage → List SipMessage → Option SdpSession → Result × SipUas
  negotiate u req provisional none = fail_invite u req provisional 400 (text "Bad Request (SDP)")
  negotiate u req provisional (some offer) =
      elim (make_answer offer (u.cfg).local_ip (u.cfg).rtp_port) [
        | none ↦ fail_invite u req provisional 488 []
        | some answer ↦ accept_invite u req provisional offer answer (front answer.payload_types)
      ]

  -- A new call: the dialog is set up, and the provisional responses are made.
  pub new_call : SipUas → SipMessage → Text → ℤ → Result × SipUas
  new_call u req cid cseq =
      let u1 = record u {
        have_dialog = true;
        answered = false;
        call_id = cid;
        invite_cseq = cseq;
      } in
      let (tag, u2) = new_tag rng u1 in
      let u3 = record u2 { local_tag = tag; last_invite = req } in
      let (trying, u4) = make_response rng u3 req 100 [] in
      let (ringing, u5) = make_response rng u4 req 180 [] in
      negotiate u5 req (trying ∷ ringing ∷ []) (parse_sdp req.body)

  -- An INVITE with a Call-ID and a CSeq.
  pub invite_call : SipUas → SipMessage → Text → ℤ → Result × SipUas
  invite_call u req cid cseq =
      if u.have_dialog && text_eq cid u.call_id && eqb_ℤ cseq u.invite_cseq
      then (answering (if u.answered then u.last_2xx_invite ∷ [] else []), u)
      else if u.have_dialog && not (text_eq cid u.call_id)
      then respond u req 486 []
      else new_call u req cid cseq

  pub invite_headers : SipUas → SipMessage → Option Text → Option Text → Result × SipUas
  invite_headers u req none cseq = respond u req 400 []
  invite_headers u req (some cid) none = respond u req 400 []
  invite_headers u req (some cid) (some cseq) = invite_call u req cid (cseq_number cseq)

  pub handle_invite : SipUas → SipMessage → Result × SipUas
  handle_invite u req = invite_headers u req (get req (text "Call-ID")) (get req (text "CSeq"))

  pub handle_cancel : SipUas → SipMessage → Result × SipUas
  handle_cancel u req =
      let (ok, u') = make_response rng u req 200 (text "OK") in
      if in_dialog u' req && not u'.answered
      then (let (ended, u'') = make_response rng u' u'.last_invite 487 [] in
          (
            record empty_result { responses = ok ∷ ended ∷ []; media = stop },
            record u'' { have_dialog = false },
          ))
      else (answering (ok ∷ []), u')

  pub handle_bye : SipUas → SipMessage → Result × SipUas
  handle_bye u req =
      if in_dialog u req
      then (let (ok, u') = make_response rng u req 200 (text "OK") in
          (
            record empty_result { responses = ok ∷ []; media = stop },
            record u' { have_dialog = false; answered = false },
          ))
      else respond u req 481 []

  pub handle_other : SipUas → SipMessage → Result × SipUas
  handle_other u req =
      let (resp, u') = make_response rng u req 405 (text "Method Not Allowed") in
      (answering (set resp (text "Allow") allowed ∷ []), u')

  -- A request, by its method.
  pub handle_request : SipUas → SipMessage → Result × SipUas
  handle_request u req =
      if text_eq req.method (text "OPTIONS")
      then handle_options u req
      else if text_eq req.method (text "INVITE")
      then handle_invite u req
      else if text_eq req.method (text "ACK")
      then (empty_result, u)
      else if text_eq req.method (text "CANCEL")
      then handle_cancel u req
      else if text_eq req.method (text "BYE")
      then handle_bye u req
      else handle_other u req

  -- `handle`; responses are ignored.
  pub handle_if : Bool → SipUas → SipMessage → Result × SipUas
  handle_if true u req = handle_request u req
  handle_if false u req = (empty_result, u)

  unfoldable pub handle : SipUas → SipMessage → Result × SipUas
  unfolding handle_if handle_request handle_options handle_invite invite_headers invite_call
      new_call negotiate accept_invite fail_invite respond handle_cancel handle_bye handle_other
      names_call
  handle u req = handle_if req.is_request u req
