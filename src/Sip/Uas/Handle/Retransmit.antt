-- ===== src/Sip/Uas/Handle/Retransmit.antt =====
-- A retransmitted INVITE (src/sip/SipUas.cpp): the answer that was sent is sent again.
use sipdemo.Base.{
  ℕ, ◌≡◌, ◌⊎◌, refl, sym, ◌∙◌, true, false, not, ◌&&◌, Bool-cases, Option-cases, inl, inr, List, [],
  ◌∷◌, ◌++◌, Option, none, some, arith,
}
use sipdemo.Base.Int.{ℤ, eqb_ℤ}
use sipdemo.Base.Text.{Text, text, text_eq}
use sipdemo.Base.Text.Equality.{text_eq_iff}
use sipdemo.Sip.Message.{SipMessage, get}
use sipdemo.Sip.Sdp.{SdpSession}
use sipdemo.Sip.Sdp.Parse.{parse_sdp}
use sipdemo.Sip.Sdp.Answer.{make_answer}
use sipdemo.Sip.Uas.{SipUas, Result, no_media, start, make_response, new_tag, cseq_number}
use sipdemo.Sip.Uas.Keeps.{make_response-Keeps, new_tag-Keeps}
use sipdemo.Sip.Uas.Handle.{
  handle, handle_request, handle_invite, invite_headers, invite_call, new_call, negotiate,
  accept_invite, fail_invite, respond, answering,
}
use sipdemo.Sip.Uas.Handle.Requests.{handle_lem}

eqb_ℤ-refl : (z : ℤ) → eqb_ℤ z z ≡ true
eqb_ℤ-refl z = ground arith

-- The call of this identity was answered, and its answer is the last response and is kept.
record IsAccepted (cid : Text) (cseq : ℤ) (x : Result × SipUas) : Type 0 where
  on : x.1.have_dialog ≡ true
  answered : x.1.answered ≡ true
  call : x.1.call_id ≡ cid
  number : x.1.invite_cseq ≡ cseq
  kept : (ps : List SipMessage) × (x.0.responses ≡ ps ++ x.1.last_2xx_invite ∷ [])

module _ (rng : ℕ → ℕ) where
  negotiate-IsAccepted :
      (v : SipUas) (req : SipMessage) (ps : List SipMessage) (offer : Option SdpSession)
      → v.have_dialog ≡ true
      → ((negotiate rng v req ps offer).0.media ≡ no_media)
        ⊎ IsAccepted v.call_id v.invite_cseq (negotiate rng v req ps offer)
  unfolding negotiate fail_invite accept_invite
  negotiate-IsAccepted v req ps none on = inl refl
  negotiate-IsAccepted v req ps (some offer) on =
      elim (Option-cases (make_answer offer (v.cfg).local_ip (v.cfg).rtp_port)) [
        | inl none_fits ↦ inl (rw (none_fits, negotiate))
        | inr (answer, fits) ↦
            let k = make_response-Keeps rng v req 200 (text "OK") in
            inr (
              rw (fits, negotiate)
                (record {
                  on = k.have_dialog ∙ on;
                  answered = refl;
                  call = k.call_id;
                  number = k.invite_cseq;
                  kept = (ps, refl);
                }))
      ]

  new_call-IsAccepted :
      (u : SipUas) (req : SipMessage) (cid : Text) (cseq : ℤ)
      → ((new_call rng u req cid cseq).0.media ≡ no_media)
        ⊎ IsAccepted cid cseq (new_call rng u req cid cseq)
  unfolding new_call
  new_call-IsAccepted u req cid cseq =
      let u1 = record u {
        have_dialog = true;
        answered = false;
        call_id = cid;
        invite_cseq = cseq;
      } in
      let u2 = (new_tag rng u1).1 in
      let u3 = record u2 { local_tag = (new_tag rng u1).0; last_invite = req } in
      let trying = make_response rng u3 req 100 [] in
      let ringing = make_response rng trying.1 req 180 [] in
      let k2 = new_tag-Keeps rng u1 in
      let k4 = make_response-Keeps rng u3 req 100 [] in
      let k5 = make_response-Keeps rng trying.1 req 180 [] in
      elim (negotiate-IsAccepted ringing.1 req (trying.0 ∷ ringing.0 ∷ []) (parse_sdp req.body)
        (k5.have_dialog ∙ (k4.have_dialog ∙ k2.have_dialog))) [
          | inl failed ↦ inl failed
          | inr a ↦ inr (record {
            on = a.on;
            answered = a.answered;
            call = a.call ∙ (k5.call_id ∙ (k4.call_id ∙ k2.call_id));
            number = a.number ∙ (k5.invite_cseq ∙ (k4.invite_cseq ∙ k2.invite_cseq));
            kept = a.kept;
          })
        ]

  invite_call-IsAccepted :
      (u : SipUas) (req : SipMessage) (cid : Text) (cseq : ℤ)
      → ((invite_call rng u req cid cseq).0.media ≡ no_media)
        ⊎ IsAccepted cid cseq (invite_call rng u req cid cseq)
  unfolding invite_call respond
  invite_call-IsAccepted u req cid cseq =
      elim (Bool-cases (u.have_dialog && text_eq cid u.call_id && eqb_ℤ cseq u.invite_cseq)) [
        | inl again ↦ inl (rw again)
        | inr fresh ↦ elim (Bool-cases (u.have_dialog && not (text_eq cid u.call_id))) [
          | inl busy ↦ inl (rw (fresh, busy))
          | inr idle ↦ rw (fresh, idle) (new_call-IsAccepted u req cid cseq)
        ]
      ]

  -- The same identity again.
  invite_call-again :
      (x : Result × SipUas) (req : SipMessage) (cid : Text) (cseq : ℤ)
      → IsAccepted cid cseq x
      → invite_call rng x.1 req cid cseq ≡ (answering (x.1.last_2xx_invite ∷ []), x.1)
  unfolding invite_call
  invite_call-again x req cid cseq a =
      let same_call : text_eq cid x.1.call_id ≡ true =
        (text_eq_iff cid x.1.call_id).1 (sym a.call) in
      let same_number : eqb_ℤ cseq x.1.invite_cseq ≡ true = rw a.number (eqb_ℤ-refl cseq) in
      simp (a.on, same_call, same_number, a.answered)

  handle-invite :
      (u : SipUas) (req : SipMessage) (cid cseq : Text)
      → req.is_request ≡ true
      → text_eq req.method (text "INVITE") ≡ true
      → get req (text "Call-ID") ≡ some cid
      → get req (text "CSeq") ≡ some cseq
      → handle rng u req ≡ invite_call rng u req cid (cseq_number cseq)
  handle-invite u req cid cseq on invite call number =
      let named = (text_eq_iff req.method (text "INVITE")).0 invite in
      let open_ : handle_request rng u req
          ≡ invite_headers rng u req (get req (text "Call-ID")) (get req (text "CSeq")) =
        unfold handle_request handle_invite text_eq in simp named in
      handle_lem rng u req on ∙ (open_ ∙ (rw (call, number) (unfold invite_headers in refl)))

  -- If an INVITE with a Call-ID and a CSeq starts media, its last response is kept, and the same
  -- request again gets just that response, and changes nothing.
  pub handle-retransmission :
      (u : SipUas) (req : SipMessage) (cid cseq : Text)
      → req.is_request ≡ true
      → text_eq req.method (text "INVITE") ≡ true
      → get req (text "Call-ID") ≡ some cid
      → get req (text "CSeq") ≡ some cseq
      → (handle rng u req).0.media ≡ start
      → let x = handle rng u req in
        ((ps : List SipMessage) × (x.0.responses ≡ ps ++ x.1.last_2xx_invite ∷ []))
        × (handle rng x.1 req ≡ (answering (x.1.last_2xx_invite ∷ []), x.1))
  handle-retransmission u req cid cseq on invite call number started =
      let first = handle-invite u req cid cseq on invite call number in
      let x = invite_call rng u req cid (cseq_number cseq) in
      let second = handle-invite x.1 req cid cseq on invite call number in
      elim (invite_call-IsAccepted u req cid (cseq_number cseq)) [
        | inl silent ↦ absurd (let s = rw first at started in let clash = silent in cc)
        | inr a ↦ rw first (a.kept, second ∙ invite_call-again x req cid (cseq_number cseq) a)
      ]
