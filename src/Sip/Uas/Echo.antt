-- ===== src/Sip/Uas/Echo.antt =====
-- What `SipUas::makeResponse` (src/sip/SipUas.cpp) puts into a response.
use mathlib.Core.List.{append_assoc, append-nil}
use sipdemo.Base.{
  ℕ, ◌≡◌, refl, sym, ap, ◌∙◌, false, List, [], ◌∷◌, ◌++◌, Option, none, some, if◌then◌else◌,
  is_empty,
}
use sipdemo.Base.Text.{Text, text}
use sipdemo.Sip.Message.{SipMessage, new_message, get, get_all, add, iequals, get_in, get_all_in}
use sipdemo.Sip.Message.Headers.{
  get_all_in-append, get_in-append, get_all-set, get-set, iequals_refl, first-none,
}
use sipdemo.Sip.Uas.{
  SipUas, Config, to_value, set_to, make_response, copy_header, put_header, add_all, reason_for,
}
use sipdemo.Sip.Uas.Keeps.{make_response-Keeps}

-- What each step of the construction does to the header of another name, and of its own.
get-put_other :
    (o : Option Text) (resp : SipMessage) (n k : Text)
    → iequals n k ≡ false
    → get (put_header o resp n) k ≡ get resp k
unfolding put_header
get-put_other none resp n k h = refl
get-put_other (some v) resp n k h = get-set resp n v k ∙ rw h

get_all-put_other :
    (o : Option Text) (resp : SipMessage) (n k : Text)
    → iequals n k ≡ false
    → get_all (put_header o resp n) k ≡ get_all resp k
unfolding put_header
get_all-put_other none resp n k h = refl
get_all-put_other (some v) resp n k h = get_all-set resp n v k ∙ rw h

get-put_self :
    (o : Option Text) (resp : SipMessage) (n : Text)
    → get resp n ≡ none
    → get (put_header o resp n) n ≡ o
unfolding put_header
get-put_self none resp n h = h
get-put_self (some v) resp n h = get-set resp n v n ∙ rw (iequals_refl n)

-- The rest of a message is not touched.
SameRest : SipMessage → SipMessage → Type 0
SameRest m r = (r.status_code ≡ m.status_code) × (r.is_request ≡ m.is_request) × (r.body ≡ m.body)

put_header-SameRest : (o : Option Text) (m : SipMessage) (n : Text) → SameRest m (put_header o m n)
unfolding put_header SameRest
put_header-SameRest none m n = (refl, refl, refl)
put_header-SameRest (some v) m n = (refl, refl, refl)

add_all-SameRest : (m : SipMessage) (n : Text) (vs : List Text) → SameRest m (add_all m n vs)
unfolding add_all SameRest
add_all-SameRest m n [] = (refl, refl, refl)
add_all-SameRest m n (v ∷ vs) = add_all-SameRest (add m n v) n vs

get-add_other :
    (m : SipMessage) (n : Text) (vs : List Text) (k : Text)
    → iequals n k ≡ false
    → get (add_all m n vs) k ≡ get m k
unfolding add_all
get-add_other m n [] k h = refl
get-add_other m n (v ∷ vs) k h =
    get-add_other (add m n v) n vs k h
    ∙ (get_in-append m.headers ((n, v) ∷ []) k ∙ (unfold get_in in rw h (first-none (get m k))))

get_all-add_self :
    (m : SipMessage) (n : Text) (vs : List Text) → get_all (add_all m n vs) n ≡ get_all m n ++ vs
unfolding add_all
get_all-add_self m n [] = sym (append-nil (get_all m n))
get_all-add_self m n (v ∷ vs) =
    let here : get_all_in ((n, v) ∷ []) n ≡ v ∷ [] = unfold get_all_in in rw (iequals_refl n) in
    get_all-add_self (add m n v) n vs
    ∙ (ap (λ (t : List Text). t ++ vs) (get_all_in-append m.headers ((n, v) ∷ []) n ∙ rw here)
        ∙ append_assoc (get_all m n) (v ∷ []) vs)

module _ (rng : ℕ → ℕ) where
  get-set_to_other :
      (u : SipUas) (to : Option Text) (code : ℕ) (resp : SipMessage) (k : Text)
      → iequals (text "To") k ≡ false
      → get (set_to rng u to code resp).0 k ≡ get resp k
  unfolding set_to
  get-set_to_other u none code resp k h = refl
  get-set_to_other u (some to) code resp k h =
      get-set resp (text "To") (to_value rng u to code).0 k ∙ rw h

  get_all-set_to_other :
      (u : SipUas) (to : Option Text) (code : ℕ) (resp : SipMessage) (k : Text)
      → iequals (text "To") k ≡ false
      → get_all (set_to rng u to code resp).0 k ≡ get_all resp k
  unfolding set_to
  get_all-set_to_other u none code resp k h = refl
  get_all-set_to_other u (some to) code resp k h =
      get_all-set resp (text "To") (to_value rng u to code).0 k ∙ rw h

  set_to-SameRest :
      (u : SipUas) (to : Option Text) (code : ℕ) (resp : SipMessage)
      → SameRest resp (set_to rng u to code resp).0
  unfolding set_to SameRest
  set_to-SameRest u none code resp = (refl, refl, refl)
  set_to-SameRest u (some to) code resp = (refl, refl, refl)

  -- The header of a response after the step that writes it, where it is none of the later ones.
  module _ (u : SipUas) (req : SipMessage) (code : ℕ) (reason : Text) where
    abbrev blank : SipMessage
    blank = record new_message {
      is_request = false;
      status_code = code;
      reason_phrase = if is_empty reason then reason_for code else reason;
    }

    abbrev with_via : SipMessage
    with_via = add_all blank (text "Via") (get_all req (text "Via"))

    abbrev with_from : SipMessage
    with_from = copy_header req with_via (text "From")

    abbrev with_to : SipMessage
    with_to = (set_to rng u (get req (text "To")) code with_from).0

    abbrev with_id : SipMessage
    with_id = copy_header req with_to (text "Call-ID")

    abbrev with_cseq : SipMessage
    with_cseq = copy_header req with_id (text "CSeq")

    get-before_to :
        (k : Text)
        → iequals (text "Via") k ≡ false
        → iequals (text "From") k ≡ false
        → iequals (text "To") k ≡ false
        → get with_to k ≡ none
    get-before_to k via from to =
        get-set_to_other u (get req (text "To")) code with_from k to
        ∙ (get-put_other (get req (text "From")) with_via (text "From") k from
            ∙ (get-add_other blank (text "Via") (get_all req (text "Via")) k via
                ∙ (unfold get_in in refl)))

    -- The Via values, and each header that is copied, in the message that only lacks Server.
    via_kept : get_all with_cseq (text "Via") ≡ get_all req (text "Via")
    unfolding iequals
    via_kept =
        get_all-put_other (get req (text "CSeq")) with_id (text "CSeq") (text "Via") refl
        ∙ (get_all-put_other (get req (text "Call-ID")) with_to (text "Call-ID") (text "Via") refl
            ∙ (get_all-set_to_other u (get req (text "To")) code with_from (text "Via") refl
                ∙ (get_all-put_other (get req (text "From")) with_via (text "From") (text "Via")
                      refl
                    ∙ (get_all-add_self blank (text "Via") (get_all req (text "Via"))
                        ∙ (unfold get_all_in in refl)))))

    from_kept : get with_cseq (text "From") ≡ get req (text "From")
    unfolding iequals
    from_kept =
        get-put_other (get req (text "CSeq")) with_id (text "CSeq") (text "From") refl
        ∙ (get-put_other (get req (text "Call-ID")) with_to (text "Call-ID") (text "From") refl
            ∙ (get-set_to_other u (get req (text "To")) code with_from (text "From") refl
                ∙ get-put_self (get req (text "From")) with_via (text "From") (
                    get-add_other blank (text "Via") (get_all req (text "Via")) (text "From") refl
                    ∙ (unfold get_in in refl))))

    id_kept : get with_cseq (text "Call-ID") ≡ get req (text "Call-ID")
    unfolding iequals
    id_kept =
        get-put_other (get req (text "CSeq")) with_id (text "CSeq") (text "Call-ID") refl
        ∙ get-put_self (get req (text "Call-ID")) with_to (text "Call-ID")
            (get-before_to (text "Call-ID") refl refl refl)

    cseq_kept : get with_cseq (text "CSeq") ≡ get req (text "CSeq")
    unfolding iequals
    cseq_kept = get-put_self (get req (text "CSeq")) with_id (text "CSeq") (
        get-put_other (get req (text "Call-ID")) with_to (text "Call-ID") (text "CSeq") refl
        ∙ get-before_to (text "CSeq") refl refl refl)

    rest_kept : SameRest blank with_cseq
    unfolding SameRest
    rest_kept =
        let a = add_all-SameRest blank (text "Via") (get_all req (text "Via")) in
        let b = put_header-SameRest (get req (text "From")) with_via (text "From") in
        let c = set_to-SameRest u (get req (text "To")) code with_from in
        let d = put_header-SameRest (get req (text "Call-ID")) with_to (text "Call-ID") in
        let e = put_header-SameRest (get req (text "CSeq")) with_id (text "CSeq") in
        (
          e.0 ∙ (d.0 ∙ (c.0 ∙ (b.0 ∙ a.0))),
          e.1 ∙ (d.1 ∙ (c.1 ∙ (b.1 ∙ a.1))),
          e.2 ∙ (d.2 ∙ (c.2 ∙ (b.2 ∙ a.2))),
        )

    -- A response carries the Via values of the request in their order, and its From, Call-ID and
    -- CSeq, each of them absent where the request has none; its status is the code asked for, it has
    -- no body, and its Server is the configured user agent.
    pub make_response_echo :
        let resp = (make_response rng u req code reason).0 in
        (get_all resp (text "Via") ≡ get_all req (text "Via"))
        × (get resp (text "From") ≡ get req (text "From"))
        × (get resp (text "Call-ID") ≡ get req (text "Call-ID"))
        × (get resp (text "CSeq") ≡ get req (text "CSeq"))
        × (get resp (text "Server") ≡ some (u.cfg).user_agent)
        × (resp.status_code ≡ code)
        × (resp.is_request ≡ false)
        × (resp.body ≡ [])
    unfolding make_response SameRest iequals
    make_response_echo =
        let agent = ((make_response rng u req code reason).1.cfg).user_agent in
        (
          get_all-set with_cseq (text "Server") agent (text "Via") ∙ via_kept,
          get-set with_cseq (text "Server") agent (text "From") ∙ from_kept,
          get-set with_cseq (text "Server") agent (text "Call-ID") ∙ id_kept,
          get-set with_cseq (text "Server") agent (text "CSeq") ∙ cseq_kept,
          get-set with_cseq (text "Server") agent (text "Server")
              ∙ ap (λ (c : Config). some c.user_agent)
                  (make_response-Keeps rng u req code reason).cfg,
          rest_kept.0,
          rest_kept.1,
          rest_kept.2,
        )
