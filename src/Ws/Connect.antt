-- ===== src/Ws/Connect.antt =====
-- `WsClient::connect` of src/ws/WsClient.cpp: the key, the request and the response of the
-- handshake. What the platform gives is a parameter: whether the name resolves and the socket opens
-- and reaches the host, the random bytes, and the results of the `send` and `recv` calls in turn. A
-- read of length 0 is a `recv` that failed or was closed; a list that ends is a call that failed.
pub mod Key
pub mod Sockets
use sipdemo.Base.{
  ℕ, zero, suc, ◌+◌, ◌*◌, ◌/◌, ◌%◌, ◌^◌, Bool, true, false, not, List, [], ◌∷◌, ◌++◌, Option, none,
  some, ltb, ◌==◌, if◌then◌else◌, length, is_empty, is_some, take, drop, get_elem?, bit_and, bit_or,
}
use sipdemo.Base.Bits.{shl, shr}
use sipdemo.Base.Text.{Text, text, find, to_string}
use sipdemo.Rtp.{Bytes}
use sipdemo.Ws.Url.{UrlParts, parse_ws_url}
use sipdemo.Ws.Client.{WsClient, close_fd}

abbrev pub alphabet : Text
alphabet = text "ABCDEFGHIJKLMNOPQRSTUVWXYZabcdefghijklmnopqrstuvwxyz0123456789+/"

-- `b64[n & 63]`, which is in the table.
unfoldable pub b64 : ℕ → ℕ
b64 n = elim (get_elem? alphabet (bit_and n 63)) [ none ↦ 0 | some c ↦ c ]

-- The loop over three bytes at a time, and what stands behind it for the byte that is left. With
-- the 16 bytes of `randomWsKey` nothing else is left.
unfoldable pub encode_key : Bytes → Text
unfolding b64
encode_key (a ∷ b ∷ c ∷ rest) =
    let n = bit_or (bit_or (shl a 16) (shl b 8)) c in
    b64 (shr n 18) ∷ b64 (shr n 12) ∷ b64 (shr n 6) ∷ b64 n ∷ encode_key rest
encode_key (a ∷ rest) = let n = shl a 16 in b64 (shr n 18) ∷ b64 (shr n 12) ∷ b'=' ∷ b'=' ∷ []
encode_key [] = []

-- What `sendAll` sends, and whether that was all.
unfoldable pub send_bytes : List ℕ → Bytes → Bool × Bytes
send_bytes ns [] = (true, [])
send_bytes [] (b ∷ bs) = (false, [])
send_bytes (n ∷ ns) (b ∷ bs) =
    let (all_sent, rest) = send_bytes ns (drop n (b ∷ bs)) in
    if n == 0 then (false, []) else (all_sent, take n (b ∷ bs) ++ rest)

abbrev pub header_end : Text
header_end = text "\r\n\r\n"

-- `while (resp.find("\r\n\r\n") == npos)`: the response, or `none` where the loop gives up.
unfoldable pub read_response : List Bytes → Text → Option Text
read_response [] resp = if is_some (find header_end resp) then some resp else none
read_response (chunk ∷ reads) resp =
    let more = read_response reads (resp ++ chunk) in
    if is_some (find header_end resp)
    then some resp
    else if is_empty chunk
    then none
    else if ltb 8192 (length (resp ++ chunk))
    then none
    else more

-- What one `connect` meets.
pub record Dial : Type 0 where
  pub resolves : Text → Text → Bool
  pub opens : Bool
  pub reaches : Bool
  pub raw : Bytes
  pub sends : List ℕ
  pub reads : List Bytes

abbrev pub request : UrlParts → Text → Text
request parts key =
    text "GET "
    ++ (parts.path
        ++ (text " HTTP/1.1\r\nHost: "
            ++ (parts.host
                ++ (text ":"
                    ++ (to_string parts.port
                        ++ (text
                              "\r\nUpgrade: websocket\r\nConnection: Upgrade\r\nSec-WebSocket-Key: "
                            ++ (key ++ text "\r\nSec-WebSocket-Version: 13\r\n\r\n")))))))

-- The calls of the socket that matter here: `::socket` that succeeds, `::close`, and what was sent.
pub data Call : Type 0 where
  opened closed : Call
  wrote : Bytes → Call

pub record Dialed : Type 0 where
  pub ok : Bool
  pub calls : List Call
  pub client : WsClient

abbrev refused : WsClient → List Call → Dialed
refused c calls = record { ok = false; calls = calls; client = c }

-- From the response on.
pub upgrade : WsClient → Bytes → Option Text → Dialed
upgrade c sent none = refused c (opened ∷ wrote sent ∷ closed ∷ [])
upgrade c sent (some resp) =
    if is_some (find (text "101") resp)
    then record {
      ok = true;
      calls = opened ∷ wrote sent ∷ [];
      client = record c { connected = true };
    }
    else refused c (opened ∷ wrote sent ∷ closed ∷ [])

-- From the parsed address on.
pub dial_host : Dial → WsClient → UrlParts → Dialed
unfolding upgrade
dial_host d c parts =
    if not (d.resolves parts.host (to_string parts.port))
    then refused c []
    else if not d.opens
    then refused c []
    else if not d.reaches
    then refused c (opened ∷ closed ∷ [])
    else (let (all_sent, sent) = send_bytes d.sends (request parts (encode_key d.raw)) in
        if not all_sent
        then refused c (opened ∷ wrote sent ∷ closed ∷ [])
        else upgrade c sent (read_response d.reads []))

-- `close()`: the socket of an earlier connection is closed.
abbrev pub close_calls : WsClient → List Call
close_calls c = if c.connected then closed ∷ [] else []

pub dial_parsed : Dial → WsClient → Option UrlParts → Dialed
unfolding dial_host
dial_parsed d c none = refused c []
dial_parsed d c (some parts) = dial_host d c parts

unfoldable pub connect : Dial → Text → WsClient → Dialed
unfolding dial_parsed
connect d url c =
    let r = dial_parsed d (close_fd c) (parse_ws_url url) in
    record r { calls = close_calls c ++ r.calls }
