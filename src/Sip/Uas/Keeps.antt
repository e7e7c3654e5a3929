-- ===== src/Sip/Uas/Keeps.antt =====
-- What `SipUas::makeResponse` (src/sip/SipUas.cpp) changes of the server.
use sipdemo.Base.{
  ℕ, ◌≡◌, refl, false, not, ◌&&◌, Bool-cases, inl, inr, Option, none, some, ltb, if◌then◌else◌,
  is_empty, is_some,
}
use sipdemo.Base.Text.{Text, text}
use sipdemo.Sip.Message.{SipMessage, new_message, get, get_all}
use sipdemo.Sip.Parser.{header_param}
use sipdemo.Sip.Uas.{
  SipUas, new_tag, to_value, set_to, make_response, copy_header, add_all, reason_for,
}

-- Only the tag counter and the number of draws have changed.
pub record Keeps (u v : SipUas) : Type 0 where
  pub cfg : v.cfg ≡ u.cfg
  pub have_dialog : v.have_dialog ≡ u.have_dialog
  pub call_id : v.call_id ≡ u.call_id
  pub local_tag : v.local_tag ≡ u.local_tag
  pub invite_cseq : v.invite_cseq ≡ u.invite_cseq
  pub last_invite : v.last_invite ≡ u.last_invite
  pub last_2xx_invite : v.last_2xx_invite ≡ u.last_2xx_invite
  pub answered : v.answered ≡ u.answered
  pub forced_tag : v.forced_tag ≡ u.forced_tag

Keeps-refl : (u : SipUas) → Keeps u u
Keeps-refl u = record {
  cfg = refl;
  have_dialog = refl;
  call_id = refl;
  local_tag = refl;
  invite_cseq = refl;
  last_invite = refl;
  last_2xx_invite = refl;
  answered = refl;
  forced_tag = refl;
}

module _ (rng : ℕ → ℕ) where
  pub new_tag-Keeps : (u : SipUas) → Keeps u (new_tag rng u).1
  unfolding new_tag
  new_tag-Keeps u = elim (Bool-cases (is_empty u.forced_tag)) [
    | inl fresh ↦ simp fresh (record {
      cfg = refl;
      have_dialog = refl;
      call_id = refl;
      local_tag = refl;
      invite_cseq = refl;
      last_invite = refl;
      last_2xx_invite = refl;
      answered = refl;
      forced_tag = refl;
    })
    | inr forced ↦ simp forced (Keeps-refl u)
  ]

  to_value-Keeps : (u : SipUas) (to : Text) (code : ℕ) → Keeps u (to_value rng u to code).1
  unfolding to_value
  to_value-Keeps u to code =
      elim (Bool-cases (not (is_some (header_param to (text "tag"))) && ltb 100 code)) [
        | inr tagged ↦ rw tagged (Keeps-refl u)
        | inl untagged ↦ rw untagged (elim (Bool-cases (is_empty u.local_tag)) [
          | inl fresh ↦ rw fresh (new_tag-Keeps u)
          | inr old ↦ rw old (Keeps-refl u)
        ])
      ]

  set_to-Keeps :
      (u : SipUas) (to : Option Text) (code : ℕ) (resp : SipMessage)
      → Keeps u (set_to rng u to code resp).1
  unfolding set_to
  set_to-Keeps u none code resp = Keeps-refl u
  set_to-Keeps u (some to) code resp = to_value-Keeps u to code

  pub make_response-Keeps :
      (u : SipUas) (req : SipMessage) (code : ℕ) (reason : Text)
      → Keeps u (make_response rng u req code reason).1
  unfolding make_response
  make_response-Keeps u req code reason =
      let blank = record new_message {
        is_request = false;
        status_code = code;
        reason_phrase = if is_empty reason then reason_for code else reason;
      } in
      let with_via = add_all blank (text "Via") (get_all req (text "Via")) in
      let with_from = copy_header req with_via (text "From") in
      set_to-Keeps u (get req (text "To")) code with_from
