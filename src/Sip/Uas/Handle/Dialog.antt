-- ===== src/Sip/Uas/Handle/Dialog.antt =====
-- The call state machine of `SipUas::handle` (src/sip/SipUas.cpp) over requests of every method.
use sipdemo.Base.{ℕ, ◌≡◌, ◌⊎◌, ◌↔◌, refl, ap, true, false, Bool-cases, inl, inr, List, [], ◌∷◌}
use sipdemo.Base.Text.{text, text_eq}
use sipdemo.Base.Text.Equality.{text_eq_iff}
use sipdemo.Sip.Message.{SipMessage}
use sipdemo.Sip.Uas.{SipUas, Result, Config, create, make_response}
use sipdemo.Sip.Uas.Handle.{handle, handle_request, respond, handle_cancel, answering}
use sipdemo.Sip.Uas.Keeps.{make_response-Keeps}
use sipdemo.Sip.Uas.Handle.Outcome.{IsSettled, Follows}
use sipdemo.Sip.Uas.Handle.Requests.{request-Outcome, cancel_settled, handle_lem, ignored}

module _ (rng : ℕ → ℕ) where
  -- From a state between two requests, whatever message comes: the state after it is again one where
  -- an active dialog has been answered; media is started only with an answered dialog and stopped only
  -- where a dialog ends; and where no media action is given, the dialog goes on unchanged or there is
  -- none.
  pub handle-Follows :
      (u : SipUas) (msg : SipMessage)
      → IsSettled u
      → IsSettled (handle rng u msg).1 × Follows u (handle rng u msg).0 (handle rng u msg).1
  handle-Follows u msg s = elim (Bool-cases msg.is_request) [
    | inr response ↦ rw (ignored rng u msg (inl response)) (s, inr (inr (refl, inr (refl, refl))))
    | inl on ↦ elim (Bool-cases (text_eq msg.method (text "ACK"))) [
      | inl ack ↦ rw (ignored rng u msg (inr ack)) (s, inr (inr (refl, inr (refl, refl))))
      | inr not_ack ↦
          let o = request-Outcome rng u msg s not_ack in
          rw (handle_lem rng u msg on) (o.settled, o.follows)
    ]
  ]

  -- From a state between two requests, every request is answered by at least one response, except
  -- ACK; a message gets none exactly if it is a response or an ACK.
  pub handle-answers :
      (u : SipUas) (msg : SipMessage)
      → IsSettled u
      → ((handle rng u msg).0.responses ≡ [])
        ↔ ((msg.is_request ≡ false) ⊎ (text_eq msg.method (text "ACK") ≡ true))
  handle-answers u msg s = (
    (λ none_sent. elim (Bool-cases msg.is_request) [
      | inr response ↦ inl response
      | inl on ↦ elim (Bool-cases (text_eq msg.method (text "ACK"))) [
        | inl ack ↦ inr ack
        | inr not_ack ↦ absurd (
            (request-Outcome rng u msg s not_ack).answers
              (rw (handle_lem rng u msg on) at none_sent))
      ]
    ]),
    (λ quiet. ap (λ (x : Result × SipUas). x.0.responses) (ignored rng u msg quiet)),
  )

  -- The server's states, as messages come.
  pub run : SipUas → List SipMessage → SipUas
  run u [] = u
  run u (m ∷ ms) = run (handle rng u m).1 ms

  pub run-IsSettled : (u : SipUas) (ms : List SipMessage) → IsSettled u → IsSettled (run u ms)
  unfolding run
  run-IsSettled u [] s = s
  run-IsSettled u (m ∷ ms) s = run-IsSettled (handle rng u m).1 ms (handle-Follows u m s).0

  -- Whatever messages a new server has handled, a CANCEL request, also one that names the active call,
  -- gets a single 200 response; no 487 is sent, the call goes on, and media is not stopped.
  pub handle_cancel_run :
      (cfg : Config) (draws : ℕ) (ms : List SipMessage) (req : SipMessage)
      → req.is_request ≡ true
      → text_eq req.method (text "CANCEL") ≡ true
      → let u = run (create cfg draws) ms in
        ((handle rng u req).0 ≡ answering ((make_response rng u req 200 (text "OK")).0 ∷ []))
        × ((handle rng u req).1.have_dialog ≡ u.have_dialog)
        × ((handle rng u req).1.call_id ≡ u.call_id)
        × ((handle rng u req).1.answered ≡ u.answered)
  handle_cancel_run cfg draws ms req on cancel =
      let u = run (create cfg draws) ms in
      let s = run-IsSettled (create cfg draws) ms (inl refl) in
      let named = (text_eq_iff req.method (text "CANCEL")).0 cancel in
      let is_cancel : handle_request rng u req ≡ handle_cancel rng u req =
        unfold handle_request text_eq in simp named in
      let k = make_response-Keeps rng u req 200 (text "OK") in
      rw (handle_lem rng u req on, is_cancel, cancel_settled rng u req s)
        (unfold respond in (refl, k.have_dialog, k.call_id, k.answered))
