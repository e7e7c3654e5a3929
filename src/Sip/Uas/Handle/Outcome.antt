-- ===== src/Sip/Uas/Handle/Outcome.antt =====
-- What each part of `SipUas::handle` (src/sip/SipUas.cpp) leaves: the dialog, the responses and the
-- media action.
use sipdemo.Base.{
  ℕ, ◌≡◌, ◌≢◌, ◌⊎◌, refl, true, false, Bool-cases, inl, inr, [], Option, none, some, arith,
}
use sipdemo.Base.Text.{Text, text}
use sipdemo.Sip.Message.{SipMessage, get}
use sipdemo.Sip.Uas.{SipUas, Result, no_media, start, stop, in_dialog, names_call}
use sipdemo.Sip.Uas.Handle.{handle_options, respond, handle_bye, handle_other}
use sipdemo.Sip.Uas.Keeps.{make_response-Keeps}

-- Between two requests an active dialog has been answered.
abbrev pub IsSettled : SipUas → Type 0
IsSettled u = (u.have_dialog ≡ false) ⊎ (u.answered ≡ true)

-- How the media action goes with the dialog: media starts with an answered dialog, stops only where a
-- dialog ends, and is left alone only where the dialog is, or where a negotiation has failed.
abbrev pub Follows : SipUas → Result → SipUas → Type 0
Follows u r v =
    ((r.media ≡ start) × (v.have_dialog ≡ true) × (v.answered ≡ true))
    ⊎ (((r.media ≡ stop) × (u.have_dialog ≡ true) × (v.have_dialog ≡ false))
        ⊎ ((r.media ≡ no_media)
            × ((v.have_dialog ≡ false)
                ⊎ ((v.have_dialog ≡ u.have_dialog) × (v.call_id ≡ u.call_id)))))

-- The two, and a response.
pub record Outcome (u : SipUas) (x : Result × SipUas) : Type 0 where
  pub settled : IsSettled x.1
  pub follows : Follows u x.0 x.1
  pub answers : x.0.responses ≢ []

-- A request names the active call only while there is one.
pub names_call-have_dialog :
    (u : SipUas) (cid : Option Text) → names_call u cid ≡ true → u.have_dialog ≡ true
unfolding names_call
names_call-have_dialog u none h = cc
names_call-have_dialog u (some cid) h = ground arith

module _ (rng : ℕ → ℕ) where
  pub respond-Outcome :
      (u : SipUas) (req : SipMessage) (code : ℕ) (reason : Text)
      → IsSettled u
      → Outcome u (respond rng u req code reason)
  unfolding respond
  respond-Outcome u req code reason s =
      let k = make_response-Keeps rng u req code reason in
      record {
        settled = ground (arith, k.have_dialog, k.answered);
        follows = ground (arith, k.have_dialog, k.call_id);
        answers = λ e. cc;
      }

  pub options-Outcome :
      (u : SipUas) (req : SipMessage) → IsSettled u → Outcome u (handle_options rng u req)
  unfolding handle_options
  options-Outcome u req s =
      let k = make_response-Keeps rng u req 200 (text "OK") in
      record {
        settled = ground (arith, k.have_dialog, k.answered);
        follows = ground (arith, k.have_dialog, k.call_id);
        answers = λ e. cc;
      }

  pub other-Outcome :
      (u : SipUas) (req : SipMessage) → IsSettled u → Outcome u (handle_other rng u req)
  unfolding handle_other
  other-Outcome u req s =
      let k = make_response-Keeps rng u req 405 (text "Method Not Allowed") in
      record {
        settled = ground (arith, k.have_dialog, k.answered);
        follows = ground (arith, k.have_dialog, k.call_id);
        answers = λ e. cc;
      }

  pub bye-Outcome : (u : SipUas) (req : SipMessage) → IsSettled u → Outcome u (handle_bye rng u req)
  unfolding handle_bye
  bye-Outcome u req s = elim (Bool-cases (in_dialog u req)) [
    | inr outside ↦ rw outside (respond-Outcome u req 481 [] s)
    | inl inside ↦ rw inside (record {
      settled = inl refl;
      follows = inr (inl (refl, names_call-have_dialog u (get req (text "Call-ID")) inside, refl));
      answers = λ e. cc;
    })
  ]
