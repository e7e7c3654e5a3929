-- ===== src/App/Main.antt =====
-- The main thread of src/app/main.cpp: its command line, its sockets, and the loop that gives each
-- datagram to the SIP server and starts and stops the media session. An exception that nothing
-- catches ends the process. Which address can be bound beside those the process holds, and which
-- `sendTo` on the SIP socket throws, are parameters.
pub mod Agreement
pub mod Upkeep
pub mod Restart
use sipdemo.Base.{
  ℕ, ◌+◌, Bool, true, false, List, [], ◌∷◌, ◌++◌, Option, none, some, if◌then◌else◌, length,
}
use sipdemo.Base.Int.{unsigned}
use sipdemo.Base.Arguments.{Parsed, helped, threw, parsed, carry_on}
use sipdemo.Base.Text.{Text, text, text_eq, stoi}
use sipdemo.Rtp.{Bytes}
use sipdemo.Sip.Message.{SipMessage, serialize}
use sipdemo.Sip.Parser.{parse_sip}
use sipdemo.Sip.Uas
use sipdemo.Sip.Uas.{Endpoint, SipUas, Result, MediaAction, no_media, start, stop}
use sipdemo.Sip.Uas.Handle.{handle}
use sipdemo.Stats.{Double}
use sipdemo.Ws.Frame.{Mask}
use sipdemo.Ws.Connect.{Dial, connect}
use sipdemo.App.Media
use sipdemo.Net.{Datagram, Receipt, timed_out, failed, got}
use sipdemo.App.Media.{MediaSession}
use sipdemo.App.Media.Runs
use sipdemo.App.Media.Runs.{Event}

pub record Config : Type 0 where
  pub ip : Text
  pub sip_port : ℕ
  pub rtp_port : ℕ
  pub ws_url : Text

abbrev pub default_config : Config
default_config = record {
  ip = text "127.0.0.1";
  sip_port = 5060;
  rtp_port = 40000;
  ws_url = text "ws://127.0.0.1:8080/stream";
}

-- `static_cast<uint16_t>(std::stoi(v))` for one of the ports.
with_port : Text → (ℕ → Config) → Option Config
with_port v put = elim (stoi v) [ none ↦ none | some n ↦ some (put (unsigned 16 n)) ]

-- An option and its value, "" at the end of the line. Another word is ignored.
pub option_value : Config → Text → Text → Option Config
unfolding with_port
option_value c k v =
    if text_eq k (text "--ip")
    then some (record c { ip = v })
    else if text_eq k (text "--sip-port")
    then with_port v (λ n. record c { sip_port = n })
    else if text_eq k (text "--rtp-port")
    then with_port v (λ n. record c { rtp_port = n })
    else some (record c { ws_url = v })

abbrev takes_value : Text → Bool
takes_value k =
    if text_eq k (text "--ip")
    then true
    else if text_eq k (text "--sip-port")
    then true
    else if text_eq k (text "--rtp-port")
    then true
    else text_eq k (text "--ws-url")

abbrev asks_help : Text → Bool
asks_help k = if text_eq k (text "--help") then true else text_eq k (text "-h")

-- `parseArgs`.
unfoldable pub parse_args : Config → List Text → Parsed Config
unfolding option_value
parse_args c [] = parsed c
parse_args c (k ∷ []) =
    if takes_value k
    then carry_on (option_value c k []) parsed
    else if asks_help k
    then helped
    else parsed c
parse_args c (k ∷ v ∷ ks) =
    if takes_value k
    then carry_on (option_value c k v) (λ c'. parse_args c' ks)
    else if asks_help k
    then helped
    else parse_args c (v ∷ ks)

-- `replies` is what was sent on the SIP socket.
module _ (f : Double) where
  pub record Process : Type 0 where
    pub cfg : Config
    pub uas : SipUas
    pub media : Option (MediaSession f)
    pub replies : List (Bytes × Endpoint)

  pub data Status : Type 0 where
    crashed : Status
    exited running : Process → Status

-- What the platform gives: the random numbers, the masks and results of frames, what a handshake
-- meets that starts behind so many replies, and the sockets.
pub record World : Type 0 where
  pub rng : ℕ → ℕ
  pub mask : ℕ → Mask
  pub accepts : ℕ → Bool
  pub dial : ℕ → Dial
  pub binds : List (Text × ℕ) → Text → ℕ → Bool
  pub sends : ℕ → Bool

module _ (f : Double) (w : World) where
  -- The addresses that the sockets of the process hold.
  abbrev pub held : Process f → List (Text × ℕ)
  held p =
      (p.cfg.ip, p.cfg.sip_port)
      ∷ elim p.media [ none ↦ [] | some s ↦ (p.cfg.ip, p.cfg.rtp_port) ∷ [] ]

  -- `for (const auto& resp : res.responses) sipSock.sendTo(resp.serialize(), dg->from);`
  pub send_responses : Process f → List SipMessage → Endpoint → Option (Process f)
  send_responses p [] to = some p
  send_responses p (r ∷ rs) to =
      let sent =
        send_responses (record p { replies = p.replies ++ (serialize r, to) ∷ [] }) rs to in
      if w.sends (length p.replies) then sent else none

  -- `std::make_unique<MediaSession>(...)` binds the RTP port while a session before it still stands;
  -- the assignment then ends that one.
  pub take_action : Process f → Result → MediaAction → Status f
  take_action p res no_media = running p
  take_action p res start =
      if w.binds (held p) p.cfg.ip p.cfg.rtp_port
      then running (record p {
        media = some (
            Media.start f (λ url c. (connect (w.dial (length p.replies)) url c).client)
              (Media.create f p.cfg.ws_url) res.remote_rtp res.payload_type res.dtmf_payload_type);
      })
      else crashed
  take_action p res stop = running (record p { media = none })

  pub after_sending : Option (Process f) → Result → Status f
  after_sending none res = crashed
  after_sending (some p) res = take_action p res res.media

  -- The body of the loop for a datagram that is a SIP message.
  pub handle_message : Process f → Option SipMessage → Endpoint → Status f
  unfolding after_sending
  handle_message p none from = running p
  handle_message p (some msg) from =
      if msg.is_request
      then (let (res, u) = handle w.rng p.uas msg in
          after_sending (send_responses (record p { uas = u }) res.responses from) res)
      else running p

  -- One round of the loop of `main`.
  unfoldable pub main_round : Process f → Receipt → Status f
  unfolding handle_message take_action send_responses
  main_round p timed_out = running p
  main_round p failed = crashed
  main_round p (got dg) = handle_message p (parse_sip dg.data_) dg.from

  -- `main` up to its loop; `draws` is what the random generator has given before.
  unfoldable pub boot : Config → ℕ → Status f
  boot cfg draws =
      if w.binds [] cfg.ip cfg.sip_port
      then running (record {
        cfg = cfg;
        uas =
            Uas.create
              (record {
                local_ip = cfg.ip;
                sip_port = cfg.sip_port;
                rtp_port = cfg.rtp_port;
                user_agent = text "sipdemo/0.1";
              })
              draws;
        media = none;
        replies = [];
      })
      else crashed

  -- A round of the main thread, a step of a thread of the session, or the end by a signal.
  pub data Happening : Type 0 where
    round : Receipt → Happening
    media_step : Event f w.mask w.accepts → Happening
    signalled : Happening

  unfoldable pub step : Process f → Happening → Status f
  step p (round r) = main_round p r
  step p (media_step e) = elim p.media [
    | none ↦ running p
    | some s ↦ running (record p { media = some (Runs.step f w.mask w.accepts s e) })
  ]
  step p signalled = exited (record p { media = none })

  pub continue : Status f → (Process f → Status f) → Status f
  continue crashed go = crashed
  continue (exited p) go = exited p
  continue (running p) go = go p

  unfoldable pub run : Process f → List Happening → Status f
  unfolding continue
  run p [] = running p
  run p (h ∷ hs) = continue (step p h) (λ q. run q hs)
