-- ===== src/App/Media/Runs.antt =====
-- The threads of a media session (src/app/main.cpp) as steps of one state: a round of the receiver,
-- of the playout clock or of the output loop, a frame that the WebSocket reader takes, its end, and
-- `stop`. A run is any sequence of them.
use sipdemo.Base.{ℕ, Bool, List, [], ◌∷◌, Option, none, some}
use sipdemo.Rtp.{RtpPacket}
use sipdemo.Stats.{Double}
use sipdemo.Queue
use sipdemo.Queue.{BoundedQueue, Waited, blocks, returns}
use sipdemo.Ws.Frame.{Mask, Frame}
use sipdemo.Ws.Client.{answer, close_fd}
use sipdemo.Net.{Receipt}
use sipdemo.App.Media.{MediaSession, stop, recv_round, playout_round, output_round}

module _ (f : Double) (mask : ℕ → Mask) (accepts : ℕ → Bool) where
  open f use {Number}

  pub data Event : Type 0 where
    received : Number → Receipt → Event
    ticked emptied ws_ended stopped : Event
    ws_frame : Frame → Event

  -- The state after a round of the output loop; one that waits has changed nothing.
  pub after_round : MediaSession f → Waited (Bool × MediaSession f) → MediaSession f
  after_round s blocks = s
  after_round s (returns (more, t)) = t

  unfoldable pub step : MediaSession f → Event → MediaSession f
  unfolding after_round
  step s (received now r) = recv_round f mask accepts s now r
  step s ticked = playout_round f s
  step s emptied = after_round s (output_round f mask accepts s)
  step s (ws_frame frame) = record s { ws = answer mask accepts s.ws frame }
  step s ws_ended = record s { ws = close_fd s.ws }
  step s stopped = stop f s

  unfoldable pub run : MediaSession f → List Event → MediaSession f
  run s [] = s
  run s (e ∷ es) = run (step s e) es

  -- What the output loop takes from the queue in one round.
  pub item_of : Waited (Option RtpPacket × BoundedQueue RtpPacket) → Option RtpPacket
  item_of blocks = none
  item_of (returns (o, q)) = o

  unfoldable pub output_of : MediaSession f → Event → Option RtpPacket
  unfolding item_of
  output_of s emptied = item_of (Queue.pop s.queue)
  output_of s _ = none

  abbrev pub consed : Option RtpPacket → List RtpPacket → List RtpPacket
  consed none ps = ps
  consed (some p) ps = p ∷ ps

  -- The packets that the output loop echoes, in their order.
  unfoldable pub outputs : MediaSession f → List Event → List RtpPacket
  outputs s [] = []
  outputs s (e ∷ es) = consed (output_of s e) (outputs (step s e) es)
