-- ===== src/Ws/Connect/Sockets.antt =====
-- The sockets of `WsClient::connect` (src/ws/WsClient.cpp): none is lost on any path, and a
-- connection stands only behind a whole request.
use mathlib.Core.List.{append-nil}
use sipdemo.Base.{
  ℕ, zero, suc, ◌-◌, ◌≡◌, refl, ap, ◌∙◌, Bool, true, false, inl, inr, List, [], ◌∷◌, ◌++◌, Option,
  none, some, is_some, ltb, ◌==◌, if◌then◌else◌, length, is_empty, take, drop, Bool-cases,
}
use sipdemo.Base.Text.{Text, text, find, to_string}
use sipdemo.Rtp.{Bytes}
use sipdemo.Ws.Url.{UrlParts, parse_ws_url}
use sipdemo.Ws.Client.{WsClient, close_fd}
use sipdemo.Ws.Connect.{
  encode_key, send_bytes, header_end, read_response, Dial, request, Call, opened, closed, wrote,
  Dialed, upgrade, dial_host, close_calls, dial_parsed, connect,
}

-- The sockets that are open behind some calls, from `n` before them.
abbrev pub left_open : ℕ → List Call → ℕ
left_open n [] = n
left_open n (opened ∷ cs) = left_open (suc n) cs
left_open n (closed ∷ cs) = left_open (n - 1) cs
left_open n (wrote bs ∷ cs) = left_open n cs

-- What was sent in some calls.
abbrev pub written : List Call → Bytes
written [] = []
written (wrote bs ∷ cs) = bs ++ written cs
written (opened ∷ cs) = written cs
written (closed ∷ cs) = written cs

abbrev pub one_if : Bool → ℕ
one_if b = if b then 1 else 0

take-drop : (n : ℕ) (bs : Bytes) → take n bs ++ drop n bs ≡ bs
take-drop zero bs = refl
take-drop (suc n) [] = refl
take-drop (suc n) (b ∷ bs) = ap (◌∷◌ b) (take-drop n bs)

-- Where `sendAll` succeeds, all of the data has been sent, in whatever pieces.
send_bytes-true :
    (ns : List ℕ) (bs : Bytes) → (send_bytes ns bs).0 ≡ true → (send_bytes ns bs).1 ≡ bs
unfolding send_bytes
send_bytes-true ns [] h = refl
send_bytes-true [] (b ∷ bs) h = absurd cc
send_bytes-true (n ∷ ns) (b ∷ bs) h = elim (Bool-cases (n == 0)) [
  | inl failed ↦ absurd (let clash = rw failed at h in cc)
  | inr some_sent ↦ rw some_sent (
      ap (◌++◌ (take n (b ∷ bs))) (send_bytes-true ns (drop n (b ∷ bs)) (rw some_sent at h))
      ∙ take-drop n (b ∷ bs))
]

-- A response that is read has the end of the header in it.
abbrev EndsHeader : Option Text → Type 0
EndsHeader none = Unit
EndsHeader (some resp) = is_some (find header_end resp) ≡ true

read_response-EndsHeader :
    (reads : List Bytes) (resp : Text) → EndsHeader (read_response reads resp)
unfolding read_response
read_response-EndsHeader [] resp = elim (Bool-cases (is_some (find header_end resp))) [
  | inl here ↦ rw here here
  | inr not_yet ↦ rw not_yet tt
]
read_response-EndsHeader (chunk ∷ reads) resp = elim (Bool-cases (is_some (find header_end resp))) [
  | inl here ↦ rw here here
  | inr not_yet ↦ elim (Bool-cases (is_empty chunk)) [
    | inl ended ↦ rw (not_yet, ended) tt
    | inr more ↦ elim (Bool-cases (ltb 8192 (length (resp ++ chunk)))) [
      | inl long ↦ rw (not_yet, more, long) tt
      | inr short ↦ rw (not_yet, more, short) (read_response-EndsHeader reads (resp ++ chunk))
    ]
  ]
]

-- What `connect` leaves: the client is connected just if it says so, with one socket open, or none;
-- and then the request has been sent whole.
pub record Leaves (d : Dial) (p : Option UrlParts) (r : Dialed) : Type 0 where
  pub says : r.client.connected ≡ r.ok
  pub balance : left_open 0 r.calls ≡ one_if r.ok
  pub asked :
      r.ok ≡ true
      → (parts : UrlParts) × (p ≡ some parts)
        × (written r.calls ≡ request parts (encode_key d.raw))
        × (resp : Text) × (read_response d.reads [] ≡ some resp)
        × (is_some (find header_end resp) ≡ true)
        × (is_some (find (text "101") resp) ≡ true)

-- A path that gives up.
gives_up :
    (d : Dial) (p : Option UrlParts) (c : WsClient) (calls : List Call)
    → c.connected ≡ false
    → left_open 0 calls ≡ 0
    → Leaves d p (record { ok = false; calls = calls; client = c })
gives_up d p c calls off none_open = record {
  says = off;
  balance = none_open;
  asked = λ h. absurd cc;
}

upgrade-Leaves :
    (d : Dial) (parts : UrlParts) (c : WsClient) (sent : Bytes) (o : Option Text)
    → c.connected ≡ false
    → sent ≡ request parts (encode_key d.raw)
    → read_response d.reads [] ≡ o
    → Leaves d (some parts) (upgrade c sent o)
unfolding upgrade
upgrade-Leaves d parts c sent none off whole e = gives_up d (some parts) c _ off refl
upgrade-Leaves d parts c sent (some resp) off whole e =
    elim (Bool-cases (is_some (find (text "101") resp))) [
      | inr other ↦ rw other (gives_up d (some parts) c _ off refl)
      | inl switches ↦ rw switches (record {
        says = refl;
        balance = refl;
        asked = λ h. (
          parts,
          refl,
          append-nil sent ∙ whole,
          resp,
          e,
          rw e at (read_response-EndsHeader d.reads []),
          switches,
        );
      })
    ]

dial_host-Leaves :
    (d : Dial) (c : WsClient) (parts : UrlParts)
    → c.connected ≡ false
    → Leaves d (some parts) (dial_host d c parts)
unfolding dial_host
dial_host-Leaves d c parts off = elim (Bool-cases (d.resolves parts.host (to_string parts.port))) [
  | inr unknown ↦ rw unknown (gives_up d (some parts) c [] off refl)
  | inl known ↦ rw known (elim (Bool-cases d.opens) [
    | inr no_socket ↦ simp no_socket (gives_up d (some parts) c [] off refl)
    | inl socket ↦ simp socket (elim (Bool-cases d.reaches) [
      | inr unreachable ↦
          simp unreachable (gives_up d (some parts) c (opened ∷ closed ∷ []) off refl)
      | inl reached ↦
          let data_ = request parts (encode_key d.raw) in
          simp reached (elim (Bool-cases (send_bytes d.sends data_).0) [
            | inr cut ↦ rw cut (gives_up d (some parts) c _ off refl)
            | inl all ↦
                rw all (upgrade-Leaves d parts c _ _ off (send_bytes-true d.sends data_ all) refl)
          ])
    ])
  ])
]

dial_parsed-Leaves :
    (d : Dial) (c : WsClient) (p : Option UrlParts)
    → c.connected ≡ false
    → Leaves d p (dial_parsed d c p)
unfolding dial_parsed
dial_parsed-Leaves d c none off = gives_up d none c [] off refl
dial_parsed-Leaves d c (some parts) off = dial_host-Leaves d c parts off

close_balance :
    (c : WsClient) (calls : List Call)
    → (left_open (one_if c.connected) (close_calls c ++ calls) ≡ left_open 0 calls)
      × (written (close_calls c ++ calls) ≡ written calls)
close_balance c calls = elim (Bool-cases c.connected) [
  | inl on ↦ rw on (refl, refl)
  | inr off ↦ rw off (refl, refl)
]

-- Whatever the platform gives, and whether or not the client was connected before: behind `connect`
-- exactly one socket is open if it returns true and none if it returns false, and the client is
-- connected just in the first case; and then the address could be parsed, the request with the
-- encoded key has been sent whole, and the response has the end of its header and "101" in it.
pub connect_lem :
    (d : Dial) (url : Text) (c : WsClient)
    → let r = connect d url c in
      (left_open (one_if c.connected) r.calls ≡ one_if r.ok)
      × (r.client.connected ≡ r.ok)
      × (r.ok ≡ true
          → (parts : UrlParts) × (parse_ws_url url ≡ some parts)
            × (written r.calls ≡ request parts (encode_key d.raw))
            × (resp : Text) × (read_response d.reads [] ≡ some resp)
            × (is_some (find header_end resp) ≡ true)
            × (is_some (find (text "101") resp) ≡ true))
unfolding connect
connect_lem d url c =
    let r = dial_parsed d (close_fd c) (parse_ws_url url) in
    let g = dial_parsed-Leaves d (close_fd c) (parse_ws_url url) refl in
    let (balance, same) = close_balance c r.calls in
    (
      balance ∙ g.balance,
      g.says,
      λ h.
          let (parts, parsed, sent, resp, read, ends, switches) = g.asked h in
          (parts, parsed, same ∙ sent, resp, read, ends, switches),
    )
