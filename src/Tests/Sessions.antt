-- ===== src/Tests/Sessions.antt =====
-- Concrete runs of a media session (src/app/main.cpp).
use sipdemo.Base.{ℕ, ◌<◌, ◌≡◌, refl, Bool, true, List, [], ◌∷◌, ◌++◌, map, some, arith}
use sipdemo.Base.Int.{pos}
use sipdemo.Base.Text.{Text, text}
use sipdemo.Rtp.{
  Bytes, value, new_packet, byte, rd16, rd32, parse_csrc, skip_extension, payload_end, assign,
  parse,
}
use sipdemo.Rtp.Bounds.{Fits, AreBytes, parse-Fits}
use sipdemo.Dtmf.{parse_payload}
use sipdemo.Dtmf.Press.{Press, all_packets}
use sipdemo.Jitter.Invariant.{Ascending, Filed}
use sipdemo.Sip.Uas.{Endpoint}
use sipdemo.Ws.Frame.{Mask, no_mask}
use sipdemo.Ws.Client.{WsClient}
use sipdemo.Net.{Datagram, got}
use sipdemo.App.Media.{MediaSession, create, start}
use sipdemo.App.Media.Runs.{Event, received, ticked, emptied, run, outputs}
use sipdemo.App.Media.Pipeline.{packet_of, queued, echo_in_order}
use sipdemo.App.Media.Echoes.{read_back, stream}
use sipdemo.App.Media.Stream.{echo_stream}
use sipdemo.App.Media.Latch.{run-last_source}
use sipdemo.App.Media.Keys.{Carry, announce, deliver, audio, presses-announce}
use sipdemo.Tests.Media.{naturals}

abbrev pub mask : ℕ → Mask
mask n = no_mask

abbrev pub accepts : ℕ → Bool
accepts n = true

abbrev pub connect : Text → WsClient → WsClient
connect url c = record c { connected = true }

abbrev pub peer : Endpoint
peer = record { ip = text "10.0.0.2"; port = 5004 }

abbrev moved : Endpoint
moved = record { ip = text "10.0.0.2"; port = 6004 }

-- Two samples in the packet of a sequence number.
abbrev datagram : ℕ → ℕ → Bytes → Bytes
datagram kind n payload = 0x80 ∷ kind ∷ 0 ∷ n ∷ 0 ∷ 0 ∷ 0 ∷ 0 ∷ 0 ∷ 0 ∷ 0 ∷ 9 ∷ payload

abbrev audio_at : ℕ → Event naturals mask accepts
audio_at n = received n (got (record { data_ = datagram 0 n (0x7f ∷ 0xd5 ∷ []); from = moved }))

-- Three packets, the first two in the wrong order, then three rounds of the clock and of the output.
abbrev happenings : List (Event naturals mask accepts)
happenings =
    audio_at 1
    ∷ audio_at 3
    ∷ audio_at 2
    ∷ ticked
    ∷ emptied
    ∷ ticked
    ∷ emptied
    ∷ ticked
    ∷ emptied
    ∷ []

abbrev pub session : MediaSession naturals
session = start naturals connect (create naturals (text "ws://g")) peer (pos 0) (pos 101)

bytes_lem : (n : ℕ) → n < 256 → AreBytes (datagram 0 n (0x7f ∷ 0xd5 ∷ []))
bytes_lem n h = ground arith

parse-Fits_example :
    Fits
      (record new_packet { payload_type = 0; sequence = 1; ssrc = 9; payload = 0x7f ∷ 0xd5 ∷ [] })
    × AreBytes (0x7f ∷ 0xd5 ∷ [])
unfolding parse byte rd16 rd32 parse_csrc skip_extension payload_end assign
parse-Fits_example =
    parse-Fits (datagram 0 1 (0x7f ∷ 0xd5 ∷ []))
      (record new_packet { payload_type = 0; sequence = 1; ssrc = 9; payload = 0x7f ∷ 0xd5 ∷ [] })
      (bytes_lem 1 (omega arith)) refl

pub session_on : session.active ≡ true
unfolding start
session_on = refl

echo_in_order_example :
    (outputs naturals mask accepts session happenings
        ++ (run naturals mask accepts session happenings).queue.items
      ≡ map packet_of (queued naturals mask accepts session happenings))
    × (Ascending (pos 0) (queued naturals mask accepts session happenings)
        × Filed (queued naturals mask accepts session happenings))
echo_in_order_example =
    echo_in_order naturals mask accepts connect (text "ws://g") peer (pos 0) (pos 101) happenings

echo_stream_example :
    read_back (run naturals mask accepts session happenings).echoed
    ≡ map value (stream 0 0x51d0de70 0 0 (outputs naturals mask accepts session happenings))
echo_stream_example =
    echo_stream naturals mask accepts connect (text "ws://g") peer 0 (pos 101) happenings
      (omega arith)
      (bytes_lem 1 (omega arith), (bytes_lem 3 (omega arith), (bytes_lem 2 (omega arith), tt)))

run-last_source_example : (run naturals mask accepts session happenings).remote ≡ moved
unfolding parse byte rd16 rd32 parse_csrc skip_extension payload_end assign start
run-last_source_example = run-last_source naturals mask accepts happenings session

-- The key 5, pressed once.
abbrev press : Press
press = record { key = 5; volume = 10; first = 160; updates = []; total = 320; resends = 0 }

abbrev pressed : List Datagram
pressed =
    record { data_ = datagram 101 1 (5 ∷ 10 ∷ 0 ∷ 160 ∷ []); from = peer }
    ∷ record { data_ = datagram 101 2 (5 ∷ 138 ∷ 1 ∷ 64 ∷ []); from = peer }
    ∷ []

pressed-Carry : Carry 101 pressed (all_packets (press ∷ []))
unfolding parse byte rd16 rd32 parse_csrc skip_extension payload_end assign parse_payload
pressed-Carry = ((_, refl, refl, refl), ((_, refl, refl, refl), tt))

presses-announce_example :
    (keys : List ℕ) × (map some keys ≡ some b'5' ∷ [])
    × ((run naturals mask accepts session (deliver naturals mask accepts 0 pressed)).ws
        ≡ announce naturals mask accepts session.ws keys)
    × (audio naturals mask accepts
          (run naturals mask accepts session (deliver naturals mask accepts 0 pressed))
        ≡ audio naturals mask accepts session)
unfolding start
presses-announce_example =
    presses-announce naturals mask accepts (press ∷ []) pressed session 0 101 (omega arith, tt) refl
      pressed-Carry
