-- ===== src/App/Media.antt =====
-- `MediaSession` of src/app/main.cpp. A function is one round of a thread's loop, or one call from the
-- main thread. The clock, the WebSocket masks and the results of its `sendAll` calls are parameters,
-- as is what `recvFrom` gives. A printed line is no state.
pub mod Runs
pub mod Active
pub mod Keeps
pub mod Pipeline
pub mod Sender
pub mod Latch
pub mod Keys
pub mod Contents
pub mod Recode
pub mod Echoes
pub mod Stream
use sipdemo.Base.{
  ℕ, ◌+◌, ◌/◌, ◌%◌, ◌^◌, Bool, true, false, not, ◌&&◌, List, [], ◌∷◌, ◌++◌, Option, none, some,
  ◌==◌, if◌then◌else◌, length, is_empty,
}
use sipdemo.Base.Int.{ℤ, pos, negsuc, ltb_ℤ, eqb_ℤ, unsigned}
use sipdemo.Base.Text.{Text, text, text_eq}
use sipdemo.Rtp.{Bytes, Outcome, fault, nullopt, value, RtpPacket, new_packet, parse, serialize}
use sipdemo.Jitter
use sipdemo.Jitter.{JitterBuffer}
use sipdemo.Dtmf
use sipdemo.Dtmf.{DtmfDecoder, new_decoder, feed}
use sipdemo.Codec.G711.{encode_mu_law_all, decode_mu_law_all, encode_a_law_all, decode_a_law_all}
use sipdemo.Codec.Resample.{upsample_8k_to_16k}
use sipdemo.Stats
use sipdemo.Stats.{Double, RtpStats, update}
use sipdemo.Queue
use sipdemo.Queue.{BoundedQueue, Waited, blocks, returns, try_push}
use sipdemo.Sip.Uas.{Endpoint}
use sipdemo.Net.{Datagram, Receipt, timed_out, failed, got}
use sipdemo.Ws.Frame.{Mask}
use sipdemo.Ws.Client.{WsClient, close_fd, send_binary, send_text}

-- `from == remote_`.
abbrev pub same_endpoint : Endpoint → Endpoint → Bool
same_endpoint a b = text_eq a.ip b.ip && a.port == b.port

-- The bytes of the samples as they lie in memory, on a little-endian machine.
pub sample_bytes : List ℤ → Bytes
sample_bytes [] = []
sample_bytes (s ∷ pcm) = unsigned 16 s % 256 ∷ unsigned 16 s / 256 ∷ sample_bytes pcm

-- The text that announces a digit.
abbrev pub dtmf_json : ℕ → Text
dtmf_json digit = text "{\"type\":\"dtmf\",\"digit\":\"" ++ (digit ∷ text "\"}")

module _ (f : Double) where
  open f use {Number}

  -- `echoed` is the datagrams given to `sendTo`, whose exceptions are dropped.
  pub record MediaSession : Type 0 where
    pub remote : Endpoint
    pub remote_latched : Bool
    pub payload_type : ℤ
    pub dtmf_payload_type : ℤ
    pub active : Bool
    pub queue : BoundedQueue RtpPacket
    pub jitter : JitterBuffer
    pub rtp_stats : RtpStats f
    pub dtmf : DtmfDecoder
    pub ws : WsClient
    pub ws_url : Text
    pub out_ssrc : ℕ
    pub out_seq : ℕ
    pub out_ts : ℕ
    pub echoed : List (Bytes × Endpoint)

  -- The constructor, where the socket could be bound.
  unfoldable pub create : Text → MediaSession
  create ws_url = record {
    remote = record { ip = []; port = 0 };
    remote_latched = false;
    payload_type = pos 0;
    dtmf_payload_type = negsuc 0;
    active = false;
    queue = Queue.create 200;
    jitter = Jitter.create (record { target_depth = 3; capacity = 100 });
    rtp_stats = Stats.create f 8000;
    dtmf = new_decoder;
    ws = record { connected = false; sent = []; tried = 0 };
    ws_url = ws_url;
    out_ssrc = 0x51d0de70;
    out_seq = 0;
    out_ts = 0;
    echoed = [];
  }

  -- `start`; `connect` is that of the WebSocket client.
  unfoldable pub start :
      (Text → WsClient → WsClient) → MediaSession → Endpoint → ℤ → ℤ → MediaSession
  start connect s remote payload_type dtmf_payload_type = record s {
    remote = remote;
    remote_latched = false;
    payload_type = payload_type;
    dtmf_payload_type = dtmf_payload_type;
    dtmf = Dtmf.reset s.dtmf;
    active = true;
    ws = if is_empty s.ws_url then s.ws else connect s.ws_url s.ws;
  }

  -- The first call of `stop` takes effect; a second one returns at once.
  unfoldable pub stop : MediaSession → MediaSession
  stop s =
      if s.active
      then record s { active = false; queue = Queue.close s.queue; ws = close_fd s.ws }
      else s

  -- `latchRemoteIfNeeded`.
  unfoldable pub latch : MediaSession → Endpoint → MediaSession
  latch s from =
      if not s.remote_latched
      then record s { remote = from; remote_latched = true }
      else if not (same_endpoint from s.remote)
      then record s { remote = from }
      else s

  -- An audio packet.
  unfoldable pub receive_audio : MediaSession → Number → RtpPacket → MediaSession
  receive_audio s now pkt = record s {
    rtp_stats = update f s.rtp_stats pkt.sequence pkt.timestamp now;
    jitter = Jitter.insert s.jitter pkt;
  }

  -- `static_cast<int>(pkt->payloadType) == dtmfPayloadType_`, where that is not negative.
  abbrev pub is_telephone_event : MediaSession → RtpPacket → Bool
  is_telephone_event s pkt =
      not (ltb_ℤ s.dtmf_payload_type (pos 0)) && eqb_ℤ (pos pkt.payload_type) s.dtmf_payload_type

  -- One round of `playoutLoop`.
  pub enqueue : MediaSession → Option RtpPacket → MediaSession
  enqueue s none = s
  enqueue s (some p) = record s { queue = (try_push p s.queue).1 }

  unfoldable pub playout_round : MediaSession → MediaSession
  unfolding enqueue
  playout_round s = let r = Jitter.pop s.jitter in enqueue (record s { jitter = r.after }) r.packet

  abbrev pub decoded : MediaSession → Bytes → List ℤ
  decoded s codes =
      if eqb_ℤ s.payload_type (pos 8) then decode_a_law_all codes else decode_mu_law_all codes

  abbrev pub encoded : MediaSession → List ℤ → Bytes
  encoded s pcm =
      if eqb_ℤ s.payload_type (pos 8) then encode_a_law_all pcm else encode_mu_law_all pcm

  abbrev pub echo_packet : MediaSession → List ℤ → RtpPacket
  echo_packet s pcm = record new_packet {
    payload_type = unsigned 8 s.payload_type;
    sequence = s.out_seq;
    timestamp = s.out_ts;
    ssrc = s.out_ssrc;
    payload = encoded s pcm;
  }

  module _ (mask : ℕ → Mask) (accepts : ℕ → Bool) where
    -- `onDtmfDigit`, where a digit came of `feed`.
    pub on_dtmf_digit : MediaSession → Option ℕ → MediaSession
    on_dtmf_digit s none = s
    on_dtmf_digit s (some digit) = record s {
      ws = (send_text mask accepts s.ws (dtmf_json digit)).1;
    }

    unfoldable pub receive_event : MediaSession → Bytes → MediaSession
    unfolding on_dtmf_digit
    receive_event s payload =
        let (digit, d) = feed s.dtmf payload in on_dtmf_digit (record s { dtmf = d }) digit

    -- The round of `recvLoop` behind the parser.
    pub receive_packet : MediaSession → Number → Outcome RtpPacket → Endpoint → MediaSession
    receive_packet s now fault from = s
    receive_packet s now nullopt from = s
    receive_packet s now (value pkt) from =
        let t = latch s from in
        if is_telephone_event t pkt then receive_event t pkt.payload else receive_audio t now pkt

    -- One round of `recvLoop`.
    unfoldable pub recv_round : MediaSession → Number → Receipt → MediaSession
    unfolding receive_packet
    recv_round s now timed_out = s
    recv_round s now failed = s
    recv_round s now (got dg) = receive_packet s now (parse dg.data_) dg.from

    -- The fork to the WebSocket, with 16 kHz samples.
    unfoldable pub fork : MediaSession → List ℤ → MediaSession
    unfolding sample_bytes
    fork s pcm =
        if s.ws.connected && not (is_empty pcm)
        then record s {
          ws = (send_binary mask accepts s.ws (sample_bytes (upsample_8k_to_16k pcm))).1;
        }
        else s

    -- The body of `outputLoop`.
    unfoldable pub echo : MediaSession → RtpPacket → MediaSession
    echo s item =
        let pcm = decoded s item.payload in
        let t = fork s pcm in
        record t {
          out_seq = (t.out_seq + 1) % 2 ^ 16;
          out_ts = (t.out_ts + length pcm % 2 ^ 32) % 2 ^ 32;
          echoed = t.echoed ++ (serialize (echo_packet t pcm), t.remote) ∷ [];
        }

    -- One round of `outputLoop`: it waits, ends (`false`), or goes on.
    pub after_pop :
        MediaSession
        → Waited (Option RtpPacket × BoundedQueue RtpPacket)
        → Waited (Bool × MediaSession)
    after_pop s blocks = blocks
    after_pop s (returns (none, q)) = returns (false, record s { queue = q })
    after_pop s (returns (some item, q)) = returns (true, echo (record s { queue = q }) item)

    unfoldable pub output_round : MediaSession → Waited (Bool × MediaSession)
    unfolding after_pop
    output_round s = after_pop s (Queue.pop s.queue)
