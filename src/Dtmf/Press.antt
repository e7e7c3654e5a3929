-- ===== src/Dtmf/Press.antt =====
-- Key presses through the decoder of src/dtmf/Rfc4733.cpp: each press gives its digit once.
use sipdemo.Base.{
  ℕ, zero, suc, ◌<◌, ◌≡◌, refl, ap, ◌∙◌, Bool, true, false, Option-cases, inl, inr, List, [], ◌∷◌,
  ◌++◌, map, Option, none, some, arith, replicate, All, get_elem?, get_elem?-lt,
}
use sipdemo.Base.Int.{pos}
use sipdemo.Rtp.{Bytes}
use sipdemo.Dtmf.{parse_payload, feed, DtmfEvent, DtmfDecoder, event_to_char, feed_event}

-- A run of the decoder over events: the digits that it emits, and the state that it reaches.
abbrev pub emit : Option ℕ → List ℕ → List ℕ
emit none cs = cs
emit (some c) cs = c ∷ cs

unfoldable pub digits : DtmfDecoder → List DtmfEvent → List ℕ
digits d [] = []
digits d (e ∷ es) = emit (feed_event d e).0 (digits (feed_event d e).1 es)

pub after : DtmfDecoder → List DtmfEvent → DtmfDecoder
after d [] = d
after d (e ∷ es) = after (feed_event d e).1 es

-- A payload that is an event is fed as one.
pub feed_lem :
    (d : DtmfDecoder) (bs : Bytes) (e : DtmfEvent)
    → parse_payload bs ≡ some e
    → feed d bs ≡ feed_event d e
unfolding feed
feed_lem d bs e h = rw (h, feed)

-- One press of a key as RFC 4733 sends it: packets while the key is down, at least one, then the
-- end packet with the full duration, sent once or more.
pub record Press : Type 0 where
  pub key : ℕ
  pub volume : ℕ
  pub first : ℕ
  pub updates : List ℕ
  pub total : ℕ
  pub resends : ℕ

abbrev down : ℕ → ℕ → ℕ → DtmfEvent
down key volume duration = record { event = key; end = false; volume = volume; duration = duration }

abbrev up : ℕ → ℕ → ℕ → DtmfEvent
up key volume duration = record { event = key; end = true; volume = volume; duration = duration }

abbrev pub packets : Press → List DtmfEvent
packets p =
    down p.key p.volume p.first
    ∷ (map (down p.key p.volume) p.updates
        ++ up p.key p.volume p.total ∷ replicate p.resends (up p.key p.volume p.total))

-- The decoder holds event `key` and has emitted, or not.
abbrev Holds : ℕ → Bool → DtmfDecoder → Type 0
Holds key emitted d = (d.last_event ≡ pos key) × (d.emitted_for_current ≡ emitted)

feed_down :
    (d : DtmfDecoder) (key volume duration : ℕ)
    → ((feed_event d (down key volume duration)).0 ≡ none)
      × Holds key false (feed_event d (down key volume duration)).1
unfolding feed_event
feed_down d key volume duration = ground arith

feed_up_first :
    (d : DtmfDecoder) (key volume duration c : ℕ)
    → Holds key false d
    → event_to_char key ≡ some c
    → ((feed_event d (up key volume duration)).0 ≡ some c)
      × Holds key true (feed_event d (up key volume duration)).1
      × ((feed_event d (up key volume duration)).1.last_duration ≡ duration)
unfolding feed_event
feed_up_first d key volume duration c h e = ground (arith, e)

feed_up_again :
    (d : DtmfDecoder) (key volume duration : ℕ)
    → Holds key true d
    → d.last_duration ≡ duration
    → ((feed_event d (up key volume duration)).0 ≡ none)
      × Holds key true (feed_event d (up key volume duration)).1
      × ((feed_event d (up key volume duration)).1.last_duration ≡ duration)
unfolding feed_event
feed_up_again d key volume duration h e = ground arith

digits-append :
    (d : DtmfDecoder) (xs ys : List DtmfEvent)
    → digits d (xs ++ ys) ≡ digits d xs ++ digits (after d xs) ys
unfolding digits after
digits-append d [] ys = refl
digits-append d (x ∷ xs) ys = elim (Option-cases (feed_event d x).0) [
  | inl quiet ↦ rw quiet (digits-append (feed_event d x).1 xs ys)
  | inr (c, loud) ↦ rw loud (ap (◌∷◌ c) (digits-append (feed_event d x).1 xs ys))
]

-- While the key is down nothing is emitted.
updates_lem :
    (us : List ℕ) (d : DtmfDecoder) (key volume : ℕ)
    → Holds key false d
    → (digits d (map (down key volume) us) ≡ [])
      × Holds key false (after d (map (down key volume) us))
unfolding digits after
updates_lem [] d key volume h = (refl, h)
updates_lem (u ∷ us) d key volume h =
    let (quiet, held) = feed_down d key volume u in
    let (rest, end) = updates_lem us (feed_event d (down key volume u)).1 key volume held in
    (rw quiet rest, end)

-- The repeated end packets emit nothing.
resends_lem :
    (n : ℕ) (d : DtmfDecoder) (key volume total : ℕ)
    → Holds key true d
    → d.last_duration ≡ total
    → digits d (replicate n (up key volume total)) ≡ []
unfolding digits
resends_lem zero d key volume total h e = refl
resends_lem (suc n) d key volume total h e =
    let (quiet, held, last) = feed_up_again d key volume total h e in
    rw quiet (resends_lem n (feed_event d (up key volume total)).1 key volume total held last)

digits-packets :
    (d : DtmfDecoder) (p : Press) (c : ℕ)
    → event_to_char p.key ≡ some c
    → digits d (packets p) ≡ c ∷ []
unfolding digits
digits-packets d p c e =
    let (quiet, held) = feed_down d p.key p.volume p.first in
    let pressed = (feed_event d (down p.key p.volume p.first)).1 in
    let (none_yet, still) = updates_lem p.updates pressed p.key p.volume held in
    let ready = after pressed (map (down p.key p.volume) p.updates) in
    let (loud, done, last) = feed_up_first ready p.key p.volume p.total c still e in
    let released = (feed_event ready (up p.key p.volume p.total)).1 in
    let silent = resends_lem p.resends released p.key p.volume p.total done last in
    let ends = up p.key p.volume p.total ∷ replicate p.resends (up p.key p.volume p.total) in
    let split = digits-append pressed (map (down p.key p.volume) p.updates) ends in
    rw (quiet, split, none_yet) (rw (loud, silent))

-- The digits of a keypad, by event code.
abbrev pub keypad : List ℕ
keypad =
    b'0' ∷ b'1' ∷ b'2' ∷ b'3' ∷ b'4' ∷ b'5' ∷ b'6' ∷ b'7' ∷ b'8' ∷ b'9' ∷ b'*' ∷ b'#' ∷ b'A' ∷ b'B'
    ∷ b'C' ∷ b'D' ∷ []

-- `dtmfEventToChar` gives the key of the keypad at the code, and nothing for a code from 16 on.
pub event_to_char-keypad : (e : ℕ) → event_to_char e ≡ get_elem? keypad e
unfolding event_to_char
event_to_char-keypad zero = refl
event_to_char-keypad (suc zero) = refl
event_to_char-keypad (suc (suc zero)) = refl
event_to_char-keypad (suc (suc (suc zero))) = refl
event_to_char-keypad (suc (suc (suc (suc zero)))) = refl
event_to_char-keypad (suc (suc (suc (suc (suc zero))))) = refl
event_to_char-keypad (suc (suc (suc (suc (suc (suc zero)))))) = refl
event_to_char-keypad (suc (suc (suc (suc (suc (suc (suc zero))))))) = refl
event_to_char-keypad (suc (suc (suc (suc (suc (suc (suc (suc zero)))))))) = refl
event_to_char-keypad (suc (suc (suc (suc (suc (suc (suc (suc (suc zero))))))))) = refl
event_to_char-keypad (suc (suc (suc (suc (suc (suc (suc (suc (suc (suc zero)))))))))) = refl
event_to_char-keypad (suc (suc (suc (suc (suc (suc (suc (suc (suc (suc (suc zero))))))))))) = refl
event_to_char-keypad (suc (suc (suc (suc (suc (suc (suc (suc (suc (suc (suc (suc zero)))))))))))) =
    refl
event_to_char-keypad
      (suc (suc (suc (suc (suc (suc (suc (suc (suc (suc (suc (suc (suc zero))))))))))))) =
    refl
event_to_char-keypad
      (suc (suc (suc (suc (suc (suc (suc (suc (suc (suc (suc (suc (suc (suc zero)))))))))))))) =
    refl
event_to_char-keypad
      (suc
        (suc (suc (suc (suc (suc (suc (suc (suc (suc (suc (suc (suc (suc (suc zero))))))))))))))) =
    refl
event_to_char-keypad
      (suc (
        suc
          (suc (suc (suc (suc (suc (suc (suc (suc (suc (suc (suc (suc (suc (suc n)))))))))))))))) =
    ground arith

abbrev pub all_packets : List Press → List DtmfEvent
all_packets [] = []
all_packets (p ∷ ps) = packets p ++ all_packets ps

-- Whatever the decoder's state, a sequence of presses of the keys 0 to 15, each with one or more
-- packets before its end packet and the end packet sent any number of times, gives exactly one
-- digit for each press, in order, also where the same key is pressed again.
pub digits-all_packets :
    (d : DtmfDecoder) (ps : List Press)
    → All (λ p. p.key < 16) ps
    → map some (digits d (all_packets ps)) ≡ map (λ p. get_elem? keypad p.key) ps
digits-all_packets d [] h = unfold digits in refl
digits-all_packets d (p ∷ ps) h =
    let (c, there) = get_elem?-lt keypad p.key (omega (arith, h.0)) in
    let one = digits-packets d p c (event_to_char-keypad p.key ∙ there) in
    let rest = digits-all_packets (after d (packets p)) ps h.1 in
    rw (digits-append d (packets p) (all_packets ps), one, there) (ap (◌∷◌ (some c)) rest)
