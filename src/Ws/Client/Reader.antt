-- ===== src/Ws/Client/Reader.antt =====
-- What `readerLoop` (src/ws/WsClient.cpp) does with the frames that come.
use mathlib.Core.List.{append-nil, append_assoc, map-append}
use sipdemo.Base.{
  ℕ, zero, suc, ◌≤◌, ◌<◌, ◌≡◌, ◌≢◌, refl, sym, ap, ◌∙◌, Bool, true, false, Bool-cases, Option-cases,
  inl, inr, List, [], ◌∷◌, ◌++◌, Option, none, some, arith, ◌==◌, if◌then◌else◌, length, All, map,
}
use sipdemo.Rtp.{Bytes}
use sipdemo.Ws.Frame.{Mask, encode_frame, Frame, read_frame}
use sipdemo.Ws.Frame.Progress.{read_frame-lt}
use sipdemo.Ws.Frame.Server.{server_frame, read_frame-server_frame}
use sipdemo.Ws.Frame.RoundTrip.{IsKey, read_frame-encode_frame, encode_frame-none}
use sipdemo.Ws.Client.{WsClient, close_fd, send_frame, send_all, answer, read_rounds, reader_loop}

-- The frames of a server on the wire.
abbrev pub wire : List Frame → Bytes
wire [] = []
wire (f ∷ fs) = server_frame f.opcode f.payload ++ wire fs

-- A server's frame that does not close, with a payload of bytes that a pong can carry.
pub record IsServed (f : Frame) : Type 0 where
  pub four_bits : f.opcode < 16
  pub no_close : f.opcode ≢ 8
  pub short : length f.payload ≤ 0xffff
  pub bytes : All (λ b. b < 256) f.payload

-- The pongs that answer a frame, as a reader would take them apart.
abbrev pub pong_of : Frame → List (Option (Frame × Bytes))
pong_of f =
    if f.opcode == 9 then some (record { opcode = 10; payload = f.payload }, []) ∷ [] else []

abbrev pub pongs : List Frame → List (Option (Frame × Bytes))
pongs [] = []
pongs (f ∷ fs) = pong_of f ++ pongs fs

module _ (mask : ℕ → Mask) (accepts : ℕ → Bool) where
  -- A round that takes a frame, and one that does not.
  read_rounds-taken :
      (fuel : ℕ) (c : WsClient) (bytes : Bytes) (f : Frame) (rest : Bytes)
      → read_frame bytes ≡ some (f, rest)
      → read_rounds mask accepts (suc fuel) c bytes ≡ (
          if f.opcode == 0x8
          then close_fd c
          else read_rounds mask accepts fuel
              (answer mask accepts c f)
              (if (answer mask accepts c f).connected then rest else []))
  unfolding read_rounds
  read_rounds-taken fuel c bytes f rest got = rw (got, read_rounds)

  read_rounds-ended :
      (fuel : ℕ) (c : WsClient) (bytes : Bytes)
      → read_frame bytes ≡ none
      → read_rounds mask accepts fuel c bytes ≡ close_fd c
  unfolding read_rounds
  read_rounds-ended zero c bytes done = refl
  read_rounds-ended (suc fuel) c bytes done = rw (done, read_rounds)

  read_rounds_any :
      (n m : ℕ) (c : WsClient) (bytes : Bytes)
      → length bytes < n
      → length bytes < m
      → read_rounds mask accepts n c bytes ≡ read_rounds mask accepts m c bytes
  read_rounds_any zero m c bytes hn hm = absurd (omega arith)
  read_rounds_any (suc n) zero c bytes hn hm = absurd (omega arith)
  read_rounds_any (suc n) (suc m) c bytes hn hm = elim (Option-cases (read_frame bytes)) [
    | inl done ↦
        read_rounds-ended (suc n) c bytes done ∙ sym (read_rounds-ended (suc m) c bytes done)
    | inr ((f, rest), got) ↦
        let shorter = read_frame-lt bytes got in
        let c' = answer mask accepts c f in
        let left = if c'.connected then rest else [] in
        let below : length left < length bytes = ground arith in
        read_rounds-taken n c bytes f rest got
        ∙ (ap (λ (t : WsClient). if f.opcode == 0x8 then close_fd c else t)
              (read_rounds_any n m c' left (omega arith) (omega arith))
            ∙ sym (read_rounds-taken m c bytes f rest got))
  ]

  -- More rounds than there are bytes leave the client as `reader_loop` does.
  reader_loop-fuel :
      (fuel : ℕ) (c : WsClient) (bytes : Bytes)
      → length bytes < fuel
      → read_rounds mask accepts fuel c bytes ≡ reader_loop mask accepts c bytes
  unfolding reader_loop
  reader_loop-fuel fuel c bytes enough =
      read_rounds_any fuel (suc (length bytes)) c bytes (omega arith) (omega arith)

  module _ (keys : (i : ℕ) → IsKey (mask i)) (accepted : (i : ℕ) → accepts i ≡ true) where
    ping_answered :
        (c : WsClient) (f : Frame)
        → IsServed f
        → c.connected ≡ true
        → f.opcode == 9 ≡ true
        → ((answer mask accepts c f).connected ≡ true)
          × (map read_frame (answer mask accepts c f).sent
              ≡ map read_frame c.sent
                ++ some (record { opcode = 10; payload = f.payload }, []) ∷ [])
    unfolding answer send_frame send_all
    ping_answered c f served on ping =
        elim (Option-cases (encode_frame 10 (mask c.tried) f.payload)) [
          | inl refused ↦ absurd (
              omega
                (arith, (encode_frame-none 10 (mask c.tried) f.payload).0 refused, served.short))
          | inr (frame, built) ↦
              let read =
                read_frame-encode_frame 10 (mask c.tried) f.payload frame [] (omega arith)
                  (keys c.tried) served.bytes built in
              rw (ping, on, built, accepted c.tried)
                (
                  refl,
                  map-append read_frame c.sent (frame ∷ [])
                      ∙ ap (λ (r : Option (Frame × Bytes)). map read_frame c.sent ++ r ∷ [])
                          (ap read_frame (sym (append-nil frame)) ∙ read),
                )
        ]

    answer_served :
        (c : WsClient) (f : Frame)
        → IsServed f
        → c.connected ≡ true
        → ((answer mask accepts c f).connected ≡ true)
          × (map read_frame (answer mask accepts c f).sent ≡ map read_frame c.sent ++ pong_of f)
    answer_served c f served on = elim (Bool-cases (f.opcode == 9)) [
      | inl ping ↦ rw ping (ping_answered c f served on ping)
      | inr other ↦
          let same : answer mask accepts c f ≡ c = unfold answer in rw other in
          rw (same, other) (on, sym (append-nil (map read_frame c.sent)))
    ]

    rounds_pongs :
        (fuel : ℕ) (c : WsClient) (fs : List Frame)
        → All IsServed fs
        → c.connected ≡ true
        → length (wire fs) < fuel
        → map read_frame (read_rounds mask accepts fuel c (wire fs)).sent
          ≡ map read_frame c.sent ++ pongs fs
    unfolding answer
    rounds_pongs zero c fs served on enough = absurd (omega arith)
    rounds_pongs (suc fuel) c [] served on enough =
        let done : read_frame [] ≡ none = unfold read_frame in refl in
        rw (read_rounds-ended (suc fuel) c [] done) (sym (append-nil (map read_frame c.sent)))
    rounds_pongs (suc fuel) c (f ∷ fs) served on enough =
        let got =
          read_frame-server_frame f.opcode f.payload (wire fs) (served.0).four_bits
            (served.0).short in
        let (still, told) = answer_served c f served.0 on in
        let open_ : f.opcode == 8 ≡ false = ground (arith, (served.0).no_close) in
        let fewer = read_frame-lt (wire (f ∷ fs)) got in
        rw (read_rounds-taken fuel c (wire (f ∷ fs)) f (wire fs) got, open_, still)
          (rounds_pongs fuel (answer mask accepts c f) fs served.1 still (omega arith)
            ∙ (ap (λ (t : List (Option (Frame × Bytes))). t ++ pongs fs) told
                ∙ append_assoc (map read_frame c.sent) (pong_of f) (pongs fs)))

    -- Over a socket that takes what is sent, with keys of four bytes: the reader of a connected client
    -- answers the pings among a server's frames, none of which closes or has more than 65535 bytes,
    -- each by one pong with the payload of the ping, in their order, and sends nothing else.
    pub reader_loop-pongs :
        (c : WsClient) (fs : List Frame)
        → All IsServed fs
        → c.connected ≡ true
        → map read_frame (reader_loop mask accepts c (wire fs)).sent
          ≡ map read_frame c.sent ++ pongs fs
    unfolding reader_loop
    reader_loop-pongs c fs served on =
        rounds_pongs (suc (length (wire fs))) c fs served on (omega arith)
