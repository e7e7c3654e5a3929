-- ===== src/App/Media/Stream.antt =====
-- The RTP stream that the output loop sends back (src/app/main.cpp): its numbering, its timestamps
-- and its audio.
use sipdemo.Base.{ℕ, ◌<◌, ◌≡◌, refl, ap, ◌∙◌, Bool, List, [], ◌∷◌, ◌++◌, map, arith}
use sipdemo.Base.Int.{ℤ, pos}
use sipdemo.Base.Text.{Text}
use sipdemo.Rtp.{value}
use sipdemo.Rtp.Bounds.{AreBytes, parse-Fits}
use sipdemo.Stats.{Double}
use sipdemo.Sip.Uas.{Endpoint}
use sipdemo.Ws.Frame.{Mask}
use sipdemo.Ws.Client.{WsClient}
use sipdemo.Net.{timed_out, failed, got}
use sipdemo.App.Media.{create, start}
use sipdemo.App.Media.Echoes.{stream, read_back, Sends, run-stream}
use sipdemo.App.Media.Sender.{sender}
use sipdemo.App.Media.Contents.{BringsAll, outputs-All, start-Full}
use sipdemo.App.Media.Runs.{
  Event, received, ticked, emptied, ws_frame, ws_ended, stopped, run, outputs,
}

module _ (f : Double) (mask : ℕ → Mask) (accepts : ℕ → Bool) where
  -- The datagrams of a run are bytes.
  abbrev pub AreDatagrams : List (Event f mask accepts) → Type 0
  AreDatagrams [] = Unit
  AreDatagrams (received now (got dg) ∷ es) = AreBytes dg.data_ × AreDatagrams es
  AreDatagrams (_ ∷ es) = AreDatagrams es

  AreDatagrams-Brings :
      (es : List (Event f mask accepts))
      → AreDatagrams es
      → BringsAll (λ p. AreBytes p.payload) f mask accepts es
  AreDatagrams-Brings [] h = tt
  AreDatagrams-Brings (received now timed_out ∷ es) h = (tt, AreDatagrams-Brings es h)
  AreDatagrams-Brings (received now failed ∷ es) h = (tt, AreDatagrams-Brings es h)
  AreDatagrams-Brings (received now (got dg) ∷ es) h =
      (λ p e. (parse-Fits dg.data_ p h.0 e).1, AreDatagrams-Brings es h.1)
  AreDatagrams-Brings (ticked ∷ es) h = AreDatagrams-Brings es h
  AreDatagrams-Brings (emptied ∷ es) h = AreDatagrams-Brings es h
  AreDatagrams-Brings (ws_frame frame ∷ es) h = AreDatagrams-Brings es h
  AreDatagrams-Brings (ws_ended ∷ es) h = AreDatagrams-Brings es h
  AreDatagrams-Brings (stopped ∷ es) h = AreDatagrams-Brings es h

  start-Sends :
      (connect : Text → WsClient → WsClient) (url : Text) (remote : Endpoint) (pt : ℕ) (dtmf : ℤ)
      → Sends f mask accepts pt 0x51d0de70 0 0
          (sender f mask accepts (start f connect (create f url) remote (pos pt) dtmf))
  unfolding start create
  start-Sends connect url remote pt dtmf = record {
    codec_is = refl;
    source_is = refl;
    seq_is = refl;
    ts_is = refl;
  }

  -- Whatever bytes are received, in whatever order the threads run, and for a payload type below
  -- 128: the datagrams that the session has given to `sendTo`, read by the parser, are one packet for each
  -- that the output loop took, in order, with version 2, the session's source, the sequence numbers
  -- 0, 1, 2 ... modulo 2^16, as timestamp the number of samples before it modulo 2^32, and as
  -- payload the one that came in, where in mu-law the code 0x7f becomes 0xff.
  pub echo_stream :
      (connect : Text → WsClient → WsClient) (url : Text) (remote : Endpoint) (pt : ℕ) (dtmf : ℤ)
      (es : List (Event f mask accepts))
      → pt < 128
      → AreDatagrams es
      → read_back
          (run f mask accepts (start f connect (create f url) remote (pos pt) dtmf) es).echoed
        ≡ map value (
            stream pt 0x51d0de70 0 0
              (outputs f mask accepts (start f connect (create f url) remote (pos pt) dtmf) es))
  echo_stream connect url remote pt dtmf es small bytes =
      let s = start f connect (create f url) remote (pos pt) dtmf in
      let none_yet : s.echoed ≡ [] = unfold start create in refl in
      let taken =
        outputs-All (λ p. AreBytes p.payload) f mask accepts es s (AreDatagrams-Brings es bytes)
          (start-Full _ f mask accepts connect url remote (pos pt) dtmf) in
      run-stream f mask accepts pt 0x51d0de70 es s 0 0 small (omega arith)
        (start-Sends connect url remote pt dtmf) taken
      ∙ ap
          (λ ds. read_back ds ++ map value (stream pt 0x51d0de70 0 0 (outputs f mask accepts s es)))
          none_yet
