-- ===== src/Sip/Sdp/Answer.antt =====
-- `makeAnswer` (src/sip/Sdp.cpp): the answer to an offer.
use sipdemo.Base.{
  ℕ, ◌≡◌, ◌≢◌, ◌⊎◌, ◌↔◌, true, false, arith, List, [], ◌∷◌, Option, none, some, ◌==◌, if◌then◌else◌,
}
use sipdemo.Base.Int.{ℤ, pos, negsuc, ltb_ℤ, ◌<ℤ◌}
use sipdemo.Base.Text.{Text, text}
use sipdemo.Sip.Sdp.{SdpSession, offers_pcmu, offers_pcma, offers_dtmf}

-- The codec of the answer: PCMU before PCMA.
abbrev pub choose : SdpSession → Option ℤ
choose offer =
    if offers_pcmu offer then some (pos 0) else if offers_pcma offer then some (pos 8) else none

abbrev pub answer_with : SdpSession → ℤ → Text → ℕ → SdpSession
answer_with offer chosen local_addr local_port = record {
  username = text "sipdemo";
  session_id = if offer.session_id == 0 then 1 else offer.session_id;
  session_version = 1;
  connection_address = local_addr;
  audio_port = local_port;
  payload_types = if offers_dtmf offer then chosen ∷ offer.dtmf_payload_type ∷ [] else chosen ∷ [];
  ptime_ms = if ltb_ℤ (pos 0) offer.ptime_ms then offer.ptime_ms else pos 20;
  dtmf_payload_type = if offers_dtmf offer then offer.dtmf_payload_type else negsuc 0;
}

unfoldable pub make_answer : SdpSession → Text → ℕ → Option SdpSession
make_answer offer local_addr local_port = elim (choose offer) [
  | none ↦ none
  | some chosen ↦ some (answer_with offer chosen local_addr local_port)
]

-- `payloadTypes.front()`, and the types behind it. Only an answer is asked for them, which has a
-- codec.
abbrev pub front : List ℤ → ℤ
front [] = negsuc 0
front (pt ∷ pts) = pt

abbrev behind : List ℤ → List ℤ
behind [] = []
behind (pt ∷ pts) = pts

-- An offer is refused exactly if it has neither PCMU nor PCMA.
pub make_answer-none :
    (offer : SdpSession) (addr : Text) (port : ℕ)
    → (make_answer offer addr port ≡ none)
      ↔ ((offers_pcmu offer ≡ false) × (offers_pcma offer ≡ false))
unfolding make_answer
make_answer-none offer addr port = ground arith

-- What an answer has: our address and port; a first payload type that the offer has, and that is
-- PCMU, or PCMA where the offer has no PCMU; after it just the offer's telephone-event type, if
-- there is one; a positive packet time; and a session id that is not zero.
pub record Answers (offer answer : SdpSession) (addr : Text) (port : ℕ) : Type 0 where
  pub address : answer.connection_address ≡ addr
  pub at_port : answer.audio_port ≡ port
  pub codec :
      ((offers_pcmu offer ≡ true) × (front answer.payload_types ≡ pos 0))
      ⊎ ((offers_pcmu offer ≡ false)
          × (offers_pcma offer ≡ true)
          × (front answer.payload_types ≡ pos 8))
  pub events :
      ((offers_dtmf offer ≡ true)
        × (answer.dtmf_payload_type ≡ offer.dtmf_payload_type)
        × (behind answer.payload_types ≡ offer.dtmf_payload_type ∷ []))
      ⊎ ((offers_dtmf offer ≡ false)
          × (offers_dtmf answer ≡ false)
          × (behind answer.payload_types ≡ []))
  pub packet_time : pos 0 <ℤ answer.ptime_ms
  pub identified : answer.session_id ≢ 0

-- An answer takes our address and port; its first payload type is one of the offer, PCMU, or PCMA
-- where the offer has no PCMU; the only other type is the offer's telephone-event type, if it has
-- one; its packet time is positive, and its session id is not zero.
pub make_answer-Answers :
    (offer answer : SdpSession) (addr : Text) (port : ℕ)
    → make_answer offer addr port ≡ some answer
    → Answers offer answer addr port
unfolding make_answer
make_answer-Answers offer answer addr port h = record {
  address = ground arith;
  at_port = ground arith;
  codec = ground arith;
  events = ground arith;
  packet_time = ground arith;
  identified = ground arith;
}
