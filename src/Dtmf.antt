-- ===== src/Dtmf.antt =====
-- include/sipdemo/Rfc4733.h and src/dtmf/Rfc4733.cpp: telephone-event payloads and the stateful
-- decoder that turns them into key presses.
pub mod Press
use sipdemo.Base.{
  ℕ, zero, suc, ◌+◌, ◌-◌, ◌%◌, ◌^◌, Bool, true, false, not, ◌&&◌, List, [], ◌∷◌, Option, none, some,
  ltb, leb, ◌==◌, if◌then◌else◌, length, get_elem?, bit_and, bit_or,
}
use sipdemo.Base.Bits.{shl, u8, u16}
use sipdemo.Base.Int.{ℤ, pos, negsuc, eqb_ℤ}
use sipdemo.Rtp.{Bytes}

pub record DtmfEvent : Type 0 where
  pub event : ℕ
  pub end : Bool
  pub volume : ℕ
  pub duration : ℕ

-- The pointer of a vector with four bytes or more is not null.
unfoldable pub parse_payload : Bytes → Option DtmfEvent
parse_payload (a ∷ b ∷ c ∷ d ∷ rest) = some (record {
  event = a;
  end = not (bit_and b 0x80 == 0);
  volume = u8 (bit_and b 0x3f);
  duration = u16 (bit_or (shl (u16 c) 8) d);
})
parse_payload _ = none

pub event_to_char : ℕ → Option ℕ
event_to_char event =
    if leb event 9
    then some (b'0' + event)
    else if event == 10
    then some b'*'
    else if event == 11
    then some b'#'
    else if leb 12 event && leb event 15
    then some (b'A' + (event - 12))
    else none

-- `last_event` is -1 before the first event.
pub record DtmfDecoder : Type 0 where
  pub last_event : ℤ
  pub emitted_for_current : Bool
  pub last_duration : ℕ

abbrev pub new_decoder : DtmfDecoder
new_decoder = record { last_event = negsuc 0; emitted_for_current = false; last_duration = 0 }

-- The end of `feed`: the end packet of event `ev`, whose duration was stored.
pub release : DtmfDecoder → ℕ → Option ℕ × DtmfDecoder
release d event = if d.emitted_for_current then (none, d) else elim (event_to_char event) [
  | none ↦ (none, d)
  | some c ↦ (some c, record d { emitted_for_current = true })
]

-- `feed` behind the parser.
pub feed_event : DtmfDecoder → DtmfEvent → Option ℕ × DtmfDecoder
unfolding release
feed_event d ev =
    let current =
      if eqb_ℤ (pos ev.event) d.last_event
      then d
      else record { last_event = pos ev.event; emitted_for_current = false; last_duration = 0 } in
    if not ev.end
    then (none, record current { emitted_for_current = false; last_duration = ev.duration })
    else release
        (record current {
          emitted_for_current =
              if ltb 0 current.last_duration && ltb ev.duration current.last_duration
              then false
              else current.emitted_for_current;
          last_duration = ev.duration;
        })
        ev.event

unfoldable pub feed : DtmfDecoder → Bytes → Option ℕ × DtmfDecoder
feed d payload = elim (parse_payload payload) [ none ↦ (none, d) | some ev ↦ feed_event d ev ]

unfoldable pub reset : DtmfDecoder → DtmfDecoder
reset d = new_decoder
