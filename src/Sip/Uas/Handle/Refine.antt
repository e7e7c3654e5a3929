-- ===== src/Sip/Uas/Handle/Refine.antt =====
-- `SipUas::handle` (src/sip/SipUas.cpp) against the abstract server of one call at a time.
use sipdemo.Base.{
  ℕ, ◌≡◌, ◌⊎◌, refl, ap, ◌∙◌, true, false, not, ◌&&◌, Bool-cases, Option-cases, inl, inr, List, [],
  ◌∷◌, Option, none, some, arith, if◌then◌else◌,
}
use sipdemo.Base.Int.{ℤ, eqb_ℤ}
use sipdemo.Base.Text.{Text, text, text_eq}
use sipdemo.Base.Text.Equality.{text_eq_iff}
use sipdemo.Sip.Message.{SipMessage, get}
use sipdemo.Sip.Sdp.{SdpSession}
use sipdemo.Sip.Sdp.Parse.{parse_sdp}
use sipdemo.Sip.Sdp.Answer.{make_answer}
use sipdemo.Sip.Uas.{
  SipUas, Result, MediaAction, no_media, start, stop, make_response, new_tag, cseq_number,
  in_dialog,
}
use sipdemo.Sip.Uas.Handle.{
  handle, handle_request, handle_options, handle_bye, handle_other, handle_invite, respond,
  invite_headers, invite_call, new_call, negotiate, accept_invite, fail_invite,
}
use sipdemo.Sip.Uas.Keeps.{make_response-Keeps, new_tag-Keeps}
use sipdemo.Sip.Uas.Handle.Outcome.{IsSettled, names_call-have_dialog}
use sipdemo.Sip.Uas.Handle.Requests.{cancel_settled, handle_lem, ignored}

-- The abstract server: idle, or in the call of a Call-ID.
pub data Phase : Type 0 where
  idle : Phase
  in_call_of : Text → Phase

abbrev pub phase : SipUas → Phase
phase u = if u.have_dialog then in_call_of u.call_id else idle

-- The steps of the abstract server and the media action of each; `R` says that the call is
-- negotiated again.
pub data Move (R : Type 0) : Phase → MediaAction → Phase → Type 0 where
  stays : (p : Phase) → Move R p no_media p
  answers : (cid : Text) → Move R idle start (in_call_of cid)
  hangs_up : (cid : Text) → Move R (in_call_of cid) stop idle
  answers_again : (cid : Text) → R → Move R (in_call_of cid) start (in_call_of cid)
  gives_up : (cid : Text) → R → Move R (in_call_of cid) no_media idle

-- An INVITE of the active call under another CSeq.
pub record Reinvites (u : SipUas) (req : SipMessage) : Type 0 where
  pub on : u.have_dialog ≡ true
  pub method_is : text_eq req.method (text "INVITE") ≡ true
  pub cid_is : get req (text "Call-ID") ≡ some u.call_id
  pub cseq : Text
  pub cseq_is : get req (text "CSeq") ≡ some cseq
  pub another : eqb_ℤ (cseq_number cseq) u.invite_cseq ≡ false

same_phase :
    (R : Type 0) (u v : SipUas)
    → v.have_dialog ≡ u.have_dialog
    → v.call_id ≡ u.call_id
    → Move R (phase u) no_media (phase v)
same_phase R u v d c = rw (d, c) (stays (phase u))

-- What comes of a negotiation.
Negotiated : Text → Result × SipUas → Type 0
Negotiated cid x =
    ((x.0.media ≡ start) × (x.1.have_dialog ≡ true) × (x.1.call_id ≡ cid))
    ⊎ ((x.0.media ≡ no_media) × (x.1.have_dialog ≡ false))

module _ (rng : ℕ → ℕ) where
  respond-Move :
      (R : Type 0) (u : SipUas) (req : SipMessage) (code : ℕ) (reason : Text)
      → Move R
          (phase u)
          (respond rng u req code reason).0.media
          (phase (respond rng u req code reason).1)
  unfolding respond
  respond-Move R u req code reason =
      let k = make_response-Keeps rng u req code reason in
      same_phase R u (make_response rng u req code reason).1 k.have_dialog k.call_id

  negotiate-Negotiated :
      (v : SipUas) (req : SipMessage) (ps : List SipMessage) (offer : Option SdpSession)
      → v.have_dialog ≡ true
      → Negotiated v.call_id (negotiate rng v req ps offer)
  unfolding negotiate fail_invite accept_invite Negotiated
  negotiate-Negotiated v req ps none on = inr (refl, refl)
  negotiate-Negotiated v req ps (some offer) on =
      elim (Option-cases (make_answer offer (v.cfg).local_ip (v.cfg).rtp_port)) [
        | inl none_fits ↦ rw (none_fits, negotiate) (inr (refl, refl))
        | inr (answer, fits) ↦
            let k = make_response-Keeps rng v req 200 (text "OK") in
            rw (fits, negotiate) (inl (refl, k.have_dialog ∙ on, k.call_id))
      ]

  new_call-Negotiated :
      (u : SipUas) (req : SipMessage) (cid : Text) (cseq : ℤ)
      → Negotiated cid (new_call rng u req cid cseq)
  unfolding new_call
  new_call-Negotiated u req cid cseq =
      let u1 = record u {
        have_dialog = true;
        answered = false;
        call_id = cid;
        invite_cseq = cseq;
      } in
      let k2 = new_tag-Keeps rng u1 in
      let u3 = record (new_tag rng u1).1 { local_tag = (new_tag rng u1).0; last_invite = req } in
      let k4 = make_response-Keeps rng u3 req 100 [] in
      let trying = make_response rng u3 req 100 [] in
      let k5 = make_response-Keeps rng trying.1 req 180 [] in
      let ringing = make_response rng trying.1 req 180 [] in
      let id = k5.call_id ∙ (k4.call_id ∙ k2.call_id) in
      rw id at (
        negotiate-Negotiated ringing.1 req (trying.0 ∷ ringing.0 ∷ []) (parse_sdp req.body)
          (k5.have_dialog ∙ (k4.have_dialog ∙ k2.have_dialog)))

  -- A negotiation from idle, or again within the call.
  idle-Move :
      (R : Type 0) (u : SipUas) (cid : Text) (x : Result × SipUas)
      → u.have_dialog ≡ false
      → Negotiated cid x
      → Move R (phase u) x.0.media (phase x.1)
  unfolding Negotiated
  idle-Move R u cid x off (inl (m, d, c)) = rw (off, m, d, c) (answers cid)
  idle-Move R u cid x off (inr (m, d)) = rw (off, m, d) (stays idle)

  again-Move :
      (R : Type 0) (u : SipUas) (cid : Text) (x : Result × SipUas)
      → u.have_dialog ≡ true
      → cid ≡ u.call_id
      → R
      → Negotiated cid x
      → Move R (phase u) x.0.media (phase x.1)
  unfolding Negotiated
  again-Move R u cid x on same r (inl (m, d, c)) =
      rw (on, m, d, c ∙ same) (answers_again u.call_id r)
  again-Move R u cid x on same r (inr (m, d)) = rw (on, m, d) (gives_up u.call_id r)

  invite_call-Move :
      (u : SipUas) (req : SipMessage) (cid cseq : Text)
      → text_eq req.method (text "INVITE") ≡ true
      → get req (text "Call-ID") ≡ some cid
      → get req (text "CSeq") ≡ some cseq
      → let x = invite_call rng u req cid (cseq_number cseq) in
        Move (Reinvites u req) (phase u) x.0.media (phase x.1)
  unfolding invite_call
  invite_call-Move u req cid cseq is_invite id seq =
      let n = cseq_number cseq in
      let fresh_call = new_call-Negotiated u req cid n in
      elim (Bool-cases (u.have_dialog && text_eq cid u.call_id && eqb_ℤ n u.invite_cseq)) [
        | inl again ↦ rw again (stays (phase u))
        | inr fresh ↦ rw fresh (elim (Bool-cases (u.have_dialog && not (text_eq cid u.call_id))) [
          | inl busy ↦ rw busy (respond-Move (Reinvites u req) u req 486 [])
          | inr free ↦ rw free (elim (Bool-cases u.have_dialog) [
            | inr off ↦ idle-Move (Reinvites u req) u cid (new_call rng u req cid n) off fresh_call
            | inl on ↦
                let named : text_eq cid u.call_id ≡ true = ground arith in
                let same = (text_eq_iff cid u.call_id).0 named in
                again-Move (Reinvites u req) u cid (new_call rng u req cid n) on same
                  (record {
                    on = on;
                    method_is = is_invite;
                    cid_is = id ∙ ap some same;
                    cseq = cseq;
                    cseq_is = seq;
                    another = ground arith;
                  })
                  fresh_call
          ])
        ])
      ]

  invite-Move :
      (u : SipUas) (req : SipMessage) (cid cseq : Option Text)
      → text_eq req.method (text "INVITE") ≡ true
      → get req (text "Call-ID") ≡ cid
      → get req (text "CSeq") ≡ cseq
      → let x = invite_headers rng u req cid cseq in
        Move (Reinvites u req) (phase u) x.0.media (phase x.1)
  unfolding invite_headers
  invite-Move u req none cseq i id seq = respond-Move (Reinvites u req) u req 400 []
  invite-Move u req (some cid) none i id seq = respond-Move (Reinvites u req) u req 400 []
  invite-Move u req (some cid) (some cseq) i id seq = invite_call-Move u req cid cseq i id seq

  bye-Move :
      (R : Type 0) (u : SipUas) (req : SipMessage)
      → Move R (phase u) (handle_bye rng u req).0.media (phase (handle_bye rng u req).1)
  unfolding handle_bye
  bye-Move R u req = elim (Bool-cases (in_dialog u req)) [
    | inr outside ↦ rw outside (respond-Move R u req 481 [])
    | inl inside ↦
        let on = names_call-have_dialog u (get req (text "Call-ID")) inside in
        rw inside (rw on (hangs_up u.call_id))
  ]

  request-Move :
      (u : SipUas) (req : SipMessage)
      → IsSettled u
      → text_eq req.method (text "ACK") ≡ false
      → let x = handle_request rng u req in Move (Reinvites u req) (phase u) x.0.media (phase x.1)
  unfolding handle_request handle_invite handle_options handle_other
  request-Move u req s not_ack =
      let R = Reinvites u req in
      let options = make_response-Keeps rng u req 200 (text "OK") in
      let other = make_response-Keeps rng u req 405 (text "Method Not Allowed") in
      elim (Bool-cases (text_eq req.method (text "OPTIONS"))) [
        | inl asks ↦ rw asks (
            same_phase R u (make_response rng u req 200 (text "OK")).1 options.have_dialog
              options.call_id)
        | inr o ↦ rw o (elim (Bool-cases (text_eq req.method (text "INVITE"))) [
          | inl invites ↦ rw invites (invite-Move u req _ _ invites refl refl)
          | inr i ↦
              rw (i, not_ack)
                (elim (Bool-cases (text_eq req.method (text "CANCEL"))) [
                  | inl cancel ↦
                      rw (cancel, cancel_settled rng u req s) (respond-Move R u req 200 (text "OK"))
                  | inr c ↦ rw c (elim (Bool-cases (text_eq req.method (text "BYE"))) [
                    | inl bye ↦ rw bye (bye-Move R u req)
                    | inr b ↦ rw b (
                        same_phase R u (make_response rng u req 405 (text "Method Not Allowed")).1
                          other.have_dialog other.call_id)
                  ])
                ])
        ])
      ]

  -- From a state between two requests, whatever message comes, `handle` does a step of the abstract
  -- server with its media action: it stays as it is, answers a call from idle and starts media, or
  -- hangs up and stops it. Only an INVITE of the active call under another CSeq can also start
  -- media again in the call, or leave the call with no action.
  pub handle-Move :
      (u : SipUas) (msg : SipMessage)
      → IsSettled u
      → Move (Reinvites u msg) (phase u) (handle rng u msg).0.media (phase (handle rng u msg).1)
  handle-Move u msg s = elim (Bool-cases msg.is_request) [
    | inr response ↦ rw (ignored rng u msg (inl response)) (stays (phase u))
    | inl on ↦ elim (Bool-cases (text_eq msg.method (text "ACK"))) [
      | inl ack ↦ rw (ignored rng u msg (inr ack)) (stays (phase u))
      | inr not_ack ↦ rw (handle_lem rng u msg on) (request-Move u msg s not_ack)
    ]
  ]
