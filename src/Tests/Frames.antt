-- ===== src/Tests/Frames.antt =====
-- A ping and its pong, and addresses of a gateway (src/ws/WsClient.cpp).
use sipdemo.Base.{is_some, ◌≡◌, refl, true, List, [], ◌∷◌, ◌++◌, map, some, arith}
use sipdemo.Base.Int.{unsigned}
use sipdemo.Base.Text.{
  Text, text, starts_with, find, rfind, atoi, skip_spaces, read_signed, read_digits, digits_onto,
}
use sipdemo.Rtp.{Bytes}
use sipdemo.Rtp.Bounds.{AreBytes}
use sipdemo.Ws.Connect.{encode_key, send_bytes, read_response, header_end, request, Dial, connect}
use sipdemo.Ws.Connect.Key.{decode64, decode64-encode_key}
use sipdemo.Ws.Connect.Sockets.{left_open, written, one_if, connect_lem}
use sipdemo.Ws.Url.{UrlParts, parse_ws_url, split_port}
use sipdemo.Ws.Frame.{Mask, Frame, encode_frame, read_frame}
use sipdemo.Ws.Frame.RoundTrip.{read_frame-encode_frame}
use sipdemo.Ws.Client.{WsClient, reader_loop}
use sipdemo.Ws.Client.Reader.{wire, pongs, reader_loop-pongs}

abbrev mask : Mask
mask = record { key0 = 0x37; key1 = 0xfa; key2 = 0x21; key3 = 0x3d }

-- The masked "Hello" of RFC 6455.
hello :
    encode_frame 1 mask (text "Hello")
    ≡ some (0x81 ∷ 0x85 ∷ 0x37 ∷ 0xfa ∷ 0x21 ∷ 0x3d ∷ 0x7f ∷ 0x9f ∷ 0x4d ∷ 0x51 ∷ 0x58 ∷ [])
unfolding encode_frame
hello = refl

read_frame-encode_frame_example :
    read_frame
      ((0x81 ∷ 0x85 ∷ 0x37 ∷ 0xfa ∷ 0x21 ∷ 0x3d ∷ 0x7f ∷ 0x9f ∷ 0x4d ∷ 0x51 ∷ 0x58 ∷ []) ++ 7 ∷ [])
    ≡ some (record { opcode = 1; payload = text "Hello" }, 7 ∷ [])
read_frame-encode_frame_example =
    read_frame-encode_frame 1 mask (text "Hello")
      (0x81 ∷ 0x85 ∷ 0x37 ∷ 0xfa ∷ 0x21 ∷ 0x3d ∷ 0x7f ∷ 0x9f ∷ 0x4d ∷ 0x51 ∷ 0x58 ∷ []) (7 ∷ [])
      (omega arith) (omega arith, omega arith, omega arith, omega arith)
      (omega arith, (omega arith, (omega arith, (omega arith, (omega arith, tt))))) hello

abbrev client : WsClient
client = record { connected = true; sent = []; tried = 0 }

abbrev frames : List Frame
frames = record { opcode = 1; payload = 65 ∷ [] } ∷ record { opcode = 9; payload = 1 ∷ 2 ∷ [] } ∷ []

reader_loop-pongs_example :
    map read_frame (reader_loop (λ i. mask) (λ i. true) client (wire frames)).sent
    ≡ map read_frame client.sent ++ pongs frames
reader_loop-pongs_example =
    reader_loop-pongs (λ i. mask) (λ i. true)
      (λ i. (omega arith, omega arith, omega arith, omega arith)) (λ i. refl) client frames
      (
        record {
          four_bits = omega arith;
          no_close = λ e. omega (arith, e);
          short = omega arith;
          bytes = (omega arith, tt);
        },
        (
          record {
            four_bits = omega arith;
            no_close = λ e. omega (arith, e);
            short = omega arith;
            bytes = (omega arith, (omega arith, tt));
          },
          tt,
        ),
      )
      refl

gateway :
    parse_ws_url (text "ws://10.0.0.3:8000/audio")
    ≡ some (record { host = text "10.0.0.3"; port = 8000; path = text "/audio" })
unfolding parse_ws_url split_port starts_with find rfind atoi skip_spaces read_signed read_digits
    unsigned
gateway = refl

-- The key of RFC 6455, from its 16 bytes.
abbrev nonce : Bytes
nonce = text "the sample nonce"

nonce_encoded : encode_key nonce ≡ text "dGhlIHNhbXBsZSBub25jZQ=="
unfolding encode_key
nonce_encoded = refl

nonce-AreBytes : AreBytes nonce
nonce-AreBytes = (
  omega arith,
  (
    omega arith,
    (
      omega arith,
      (
        omega arith,
        (
          omega arith,
          (
            omega arith,
            (
              omega arith,
              (
                omega arith,
                (
                  omega arith,
                  (
                    omega arith,
                    (
                      omega arith,
                      (omega arith, (omega arith, (omega arith, (omega arith, (omega arith, tt))))),
                    ),
                  ),
                ),
              ),
            ),
          ),
        ),
      ),
    ),
  ),
)

decode64-encode_key_example : decode64 (encode_key nonce) ≡ nonce
decode64-encode_key_example = decode64-encode_key nonce nonce-AreBytes (omega arith)

-- A server that is reached, takes the request in two pieces and answers in two.
abbrev dial : Dial
dial = record {
  resolves = λ host port. true;
  opens = true;
  reaches = true;
  raw = nonce;
  sends = 100 ∷ 1000 ∷ [];
  reads = text "HTTP/1.1 101 Switching" ∷ text " Protocols\r\n\r\n" ∷ [];
}

connect_lem_example :
    let r = connect dial (text "ws://g:8080/s") client in
    (left_open 1 r.calls ≡ one_if r.ok)
    × (r.client.connected ≡ r.ok)
    × (r.ok ≡ true
        → (parts : UrlParts) × (parse_ws_url (text "ws://g:8080/s") ≡ some parts)
          × (written r.calls ≡ request parts (encode_key nonce))
          × (resp : Text) × (read_response dial.reads [] ≡ some resp)
          × (is_some (find header_end resp) ≡ true)
          × (is_some (find (text "101") resp) ≡ true))
connect_lem_example = connect_lem dial (text "ws://g:8080/s") client

dialed_ok : (connect dial (text "ws://g:8080/s") client).ok ≡ true
unfolding connect parse_ws_url starts_with find rfind atoi skip_spaces read_signed read_digits
    unsigned encode_key send_bytes read_response digits_onto
dialed_ok = refl
