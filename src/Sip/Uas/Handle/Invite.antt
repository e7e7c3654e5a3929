-- ===== src/Sip/Uas/Handle/Invite.antt =====
-- What the INVITE part of `SipUas::handle` (src/sip/SipUas.cpp) leaves.
use sipdemo.Base.{
  ℕ, ◌≡◌, refl, ◌∙◌, true, false, not, ◌&&◌, Bool-cases, Option-cases, inl, inr, List, [], ◌∷◌,
  Option, none, some, arith,
}
use sipdemo.Base.Int.{ℤ, eqb_ℤ}
use sipdemo.Base.Text.{Text, text, text_eq}
use sipdemo.Sip.Message.{SipMessage}
use sipdemo.Sip.Sdp.{SdpSession}
use sipdemo.Sip.Sdp.Parse.{parse_sdp}
use sipdemo.Sip.Sdp.Answer.{make_answer}
use sipdemo.Sip.Uas.{SipUas, make_response, new_tag, cseq_number}
use sipdemo.Sip.Uas.Handle.{
  invite_headers, invite_call, new_call, negotiate, accept_invite, fail_invite,
}
use sipdemo.Sip.Uas.Keeps.{make_response-Keeps, new_tag-Keeps}
use sipdemo.Sip.Uas.Handle.Outcome.{IsSettled, Outcome, respond-Outcome}

module _ (rng : ℕ → ℕ) where
  fail_invite-Outcome :
      (u v : SipUas) (req : SipMessage) (p : SipMessage) (ps : List SipMessage) (code : ℕ)
      (reason : Text)
      → Outcome u (fail_invite rng v req (p ∷ ps) code reason)
  unfolding fail_invite
  fail_invite-Outcome u v req p ps code reason = record {
    settled = inl refl;
    follows = inr (inr (refl, inl refl));
    answers = λ e. cc;
  }

  accept_invite-Outcome :
      (u v : SipUas) (req : SipMessage) (p : SipMessage) (ps : List SipMessage)
      (offer answer : SdpSession) (codec : ℤ)
      → v.have_dialog ≡ true
      → Outcome u (accept_invite rng v req (p ∷ ps) offer answer codec)
  unfolding accept_invite
  accept_invite-Outcome u v req p ps offer answer codec on =
      let k = make_response-Keeps rng v req 200 (text "OK") in
      record {
        settled = inr refl;
        follows = inl (refl, k.have_dialog ∙ on, refl);
        answers = λ e. cc;
      }

  negotiate-Outcome :
      (u v : SipUas) (req : SipMessage) (p : SipMessage) (ps : List SipMessage)
      (offer : Option SdpSession)
      → v.have_dialog ≡ true
      → Outcome u (negotiate rng v req (p ∷ ps) offer)
  unfolding negotiate
  negotiate-Outcome u v req p ps none on =
      fail_invite-Outcome u v req p ps 400 (text "Bad Request (SDP)")
  negotiate-Outcome u v req p ps (some offer) on =
      elim (Option-cases (make_answer offer (v.cfg).local_ip (v.cfg).rtp_port)) [
        | inl none_fits ↦ rw (none_fits, negotiate) (fail_invite-Outcome u v req p ps 488 [])
        | inr (answer, fits) ↦
            rw (fits, negotiate) (accept_invite-Outcome u v req p ps offer answer _ on)
      ]

  new_call-Outcome :
      (u : SipUas) (req : SipMessage) (cid : Text) (cseq : ℤ)
      → Outcome u (new_call rng u req cid cseq)
  unfolding new_call
  new_call-Outcome u req cid cseq =
      let u1 = record u {
        have_dialog = true;
        answered = false;
        call_id = cid;
        invite_cseq = cseq;
      } in
      let u2 = (new_tag rng u1).1 in
      let u3 = record u2 { local_tag = (new_tag rng u1).0; last_invite = req } in
      let trying = make_response rng u3 req 100 [] in
      let ringing = make_response rng trying.1 req 180 [] in
      let on3 = (new_tag-Keeps rng u1).have_dialog in
      let on4 = (make_response-Keeps rng u3 req 100 []).have_dialog in
      let on5 = (make_response-Keeps rng trying.1 req 180 []).have_dialog in
      negotiate-Outcome u ringing.1 req trying.0 (ringing.0 ∷ []) (parse_sdp req.body)
        (on5 ∙ (on4 ∙ on3))

  invite_call-Outcome :
      (u : SipUas) (req : SipMessage) (cid : Text) (cseq : ℤ)
      → IsSettled u
      → Outcome u (invite_call rng u req cid cseq)
  unfolding invite_call
  invite_call-Outcome u req cid cseq s =
      elim (Bool-cases (u.have_dialog && text_eq cid u.call_id && eqb_ℤ cseq u.invite_cseq)) [
        | inl again ↦
            let answered : u.answered ≡ true = ground arith in
            rw again (record {
              settled = s;
              follows = inr (inr (refl, inr (refl, refl)));
              answers = rw answered (λ e. cc);
            })
        | inr fresh ↦ rw fresh (elim (Bool-cases (u.have_dialog && not (text_eq cid u.call_id))) [
          | inl busy ↦ rw busy (respond-Outcome rng u req 486 [] s)
          | inr idle ↦ rw idle (new_call-Outcome u req cid cseq)
        ])
      ]

  pub invite_headers-Outcome :
      (u : SipUas) (req : SipMessage) (cid cseq : Option Text)
      → IsSettled u
      → Outcome u (invite_headers rng u req cid cseq)
  unfolding invite_headers
  invite_headers-Outcome u req none cseq s = respond-Outcome rng u req 400 [] s
  invite_headers-Outcome u req (some cid) none s = respond-Outcome rng u req 400 [] s
  invite_headers-Outcome u req (some cid) (some cseq) s =
      invite_call-Outcome u req cid (cseq_number cseq) s
