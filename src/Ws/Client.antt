-- ===== src/Ws/Client.antt =====
-- `WsClient` behind its handshake (src/ws/WsClient.cpp): `sendFrameUnlocked`, `closeFdUnlocked` and
-- `readerLoop`. The masking keys and the result of each `sendAll` are parameters, by the number of
-- the frame. What the reader receives is the list of the bytes that the socket gives before it ends,
-- fails or is stopped.
pub mod Reader
use sipdemo.Base.{
  ℕ, zero, suc, ◌+◌, Bool, true, false, not, List, [], ◌∷◌, ◌++◌, Option, none, some, ◌==◌,
  if◌then◌else◌, length,
}
use sipdemo.Rtp.{Bytes}
use sipdemo.Base.Text.{Text}
use sipdemo.Ws.Frame.{Mask, encode_frame, Frame, read_frame}

-- `connected` also says that the socket is open, since the two change together; `sent` and `tried`
-- are the frames that went out and the number of calls of `sendAll`.
pub record WsClient : Type 0 where
  pub connected : Bool
  pub sent : List Bytes
  pub tried : ℕ

abbrev pub close_fd : WsClient → WsClient
close_fd c = record c { connected = false }

module _ (mask : ℕ → Mask) (accepts : ℕ → Bool) where
  -- `sendAll` of a frame.
  pub send_all : WsClient → Option Bytes → Bool × WsClient
  send_all c none = (false, c)
  send_all c (some frame) =
      if accepts c.tried
      then (true, record c { sent = c.sent ++ frame ∷ []; tried = c.tried + 1 })
      else (false, record c { connected = false; tried = c.tried + 1 })

  unfoldable pub send_frame : WsClient → ℕ → Bytes → Bool × WsClient
  unfolding send_all
  send_frame c opcode payload =
      if c.connected then send_all c (encode_frame opcode (mask c.tried) payload) else (false, c)

  abbrev pub send_binary : WsClient → Bytes → Bool × WsClient
  send_binary c payload = send_frame c 0x2 payload

  abbrev pub send_text : WsClient → Text → Bool × WsClient
  send_text c s = send_frame c 0x1 s

  -- The reader's answer to a frame that does not close: a ping gets a pong.
  pub answer : WsClient → Frame → WsClient
  answer c f = if f.opcode == 0x9 then (send_frame c 0xa f.payload).1 else c

  -- The reader's rounds; a closed socket gives no more bytes.
  pub read_rounds : ℕ → WsClient → Bytes → WsClient
  read_rounds zero c bytes = close_fd c
  read_rounds (suc fuel) c bytes = elim (read_frame bytes) [
    | none ↦ close_fd c
    | some (f, rest) ↦
        let c' = answer c f in
        let later = read_rounds fuel c' (if c'.connected then rest else []) in
        if f.opcode == 0x8 then close_fd c else later
  ]

  -- `readerLoop`. Each round takes two bytes at least.
  unfoldable pub reader_loop : WsClient → Bytes → WsClient
  unfolding read_rounds answer
  reader_loop c bytes = read_rounds (suc (length bytes)) c bytes
