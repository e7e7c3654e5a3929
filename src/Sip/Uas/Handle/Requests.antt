-- ===== src/Sip/Uas/Handle/Requests.antt =====
-- What `SipUas::handle` (src/sip/SipUas.cpp) leaves after a request of any method.
use sipdemo.Base.{ℕ, ◌≡◌, ◌⊎◌, refl, ◌∙◌, Bool, true, false, not, ◌&&◌, Bool-cases, inl, inr, arith}
use sipdemo.Base.Text.{text, text_eq}
use sipdemo.Base.Text.Equality.{text_eq_iff}
use sipdemo.Sip.Message.{SipMessage, get}
use sipdemo.Sip.Uas.{SipUas, empty_result, in_dialog, make_response}
use sipdemo.Sip.Uas.Handle.{
  handle, handle_if, handle_request, handle_invite, respond, handle_cancel,
}
use sipdemo.Sip.Uas.Keeps.{make_response-Keeps}
use sipdemo.Sip.Uas.Handle.Outcome.{
  IsSettled, Outcome, names_call-have_dialog, respond-Outcome, options-Outcome, other-Outcome,
  bye-Outcome,
}
use sipdemo.Sip.Uas.Handle.Invite.{invite_headers-Outcome}

module _ (rng : ℕ → ℕ) where
  -- CANCEL finds no unanswered call between two requests.
  pub cancel_settled :
      (u : SipUas) (req : SipMessage)
      → IsSettled u
      → handle_cancel rng u req ≡ respond rng u req 200 (text "OK")
  unfolding handle_cancel respond
  cancel_settled u req s =
      let v = (make_response rng u req 200 (text "OK")).1 in
      let k = make_response-Keeps rng u req 200 (text "OK") in
      let closed : in_dialog v req && not v.answered ≡ false = elim (Bool-cases (in_dialog v req)) [
        | inr outside ↦ rw outside
        | inl inside ↦
            let on = names_call-have_dialog v (get req (text "Call-ID")) inside in
            let done : v.answered ≡ true = ground (arith, k.have_dialog, k.answered) in
            rw (inside, done)
      ] in
      rw closed

  -- Every request but ACK, of any method, is answered, and keeps the invariant.
  pub request-Outcome :
      (u : SipUas) (req : SipMessage)
      → IsSettled u
      → text_eq req.method (text "ACK") ≡ false
      → Outcome u (handle_request rng u req)
  unfolding handle_request handle_invite
  request-Outcome u req s not_ack = elim (Bool-cases (text_eq req.method (text "OPTIONS"))) [
    | inl options ↦ rw options (options-Outcome rng u req s)
    | inr o ↦ rw o (elim (Bool-cases (text_eq req.method (text "INVITE"))) [
      | inl invite ↦
          rw invite
            (invite_headers-Outcome rng u req (get req (text "Call-ID")) (get req (text "CSeq")) s)
      | inr i ↦
          rw (i, not_ack)
            (elim (Bool-cases (text_eq req.method (text "CANCEL"))) [
              | inl cancel ↦
                  rw (cancel, cancel_settled u req s) (respond-Outcome rng u req 200 (text "OK") s)
              | inr c ↦ rw c (elim (Bool-cases (text_eq req.method (text "BYE"))) [
                | inl bye ↦ rw bye (bye-Outcome rng u req s)
                | inr b ↦ rw b (other-Outcome rng u req s)
              ])
            ])
    ])
  ]

  handle_if-request :
      (b : Bool) (u : SipUas) (req : SipMessage)
      → b ≡ true
      → handle_if rng b u req ≡ handle_request rng u req
  unfolding handle_if
  handle_if-request true u req e = refl
  handle_if-request false u req e = cc

  pub handle_lem :
      (u : SipUas) (req : SipMessage)
      → req.is_request ≡ true
      → handle rng u req ≡ handle_request rng u req
  handle_lem u req on =
      let open_ : handle rng u req ≡ handle_if rng req.is_request u req = unfold handle in refl in
      open_ ∙ handle_if-request req.is_request u req on

  -- A response and an ACK leave the server as it is.
  pub ignored :
      (u : SipUas) (req : SipMessage)
      → (req.is_request ≡ false) ⊎ (text_eq req.method (text "ACK") ≡ true)
      → handle rng u req ≡ (empty_result, u)
  ignored u req (inl response) =
      let open_ : handle rng u req ≡ handle_if rng req.is_request u req = unfold handle in refl in
      open_ ∙ (unfold handle_if in simp response)
  ignored u req (inr ack) = elim (Bool-cases req.is_request) [
    | inr response ↦
        let open_ : handle rng u req ≡ handle_if rng req.is_request u req = unfold handle in refl in
        open_ ∙ (unfold handle_if in simp response)
    | inl on ↦
        let named = (text_eq_iff req.method (text "ACK")).0 ack in
        handle_lem u req on ∙ (unfold handle_request text_eq in simp named)
  ]
