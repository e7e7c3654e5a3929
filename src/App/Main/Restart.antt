-- ===== src/App/Main/Restart.antt =====
-- When a request of the active call ends the process of src/app/main.cpp.
use sipdemo.Base.{
  ℕ, ◌≡◌, ◌≢◌, ◌⊎◌, refl, ap, ◌∙◌, Bool, true, false, Option-cases, inl, inr, List, [], ◌∷◌, ◌++◌,
  Option, none, some, is_some,
}
use sipdemo.Base.Text.{Text}
use sipdemo.Sip.Message.{SipMessage}
use sipdemo.Sip.Uas.{Endpoint, Result, start}
use sipdemo.Sip.Uas.Handle.{handle}
use sipdemo.Sip.Uas.Handle.Refine.{Reinvites}
use sipdemo.Stats.{Double}
use sipdemo.App.Main.{Process, crashed, World, held, take_action, after_sending, handle_message}
use sipdemo.App.Main.Agreement.{handle-Says, Sent, threw, sent, send_responses-Sent, Serves}

module _ (f : Double) (w : World) where
  -- An address that a socket of the process holds cannot be bound again, unless the system is to
  -- choose the port.
  abbrev pub IsExclusive : Type 0
  IsExclusive =
      (before after : List (Text × ℕ)) (ip : Text) (port : ℕ)
      → port ≢ 0
      → w.binds (before ++ (ip, port) ∷ after) ip port ≡ false

  restarts : (b : Bool) (R : Type 0) → b ≡ true → (b ≡ false) ⊎ R → R
  restarts b R on (inl off) = absurd (let clash = on in cc)
  restarts b R on (inr r) = r

  -- Either sending throws, or binding does.
  sent_crashes :
      (p : Process f) (res : Result) (o : Option (Process f))
      → IsExclusive
      → p.cfg.rtp_port ≢ 0
      → is_some p.media ≡ true
      → res.media ≡ start
      → Sent f w p o
      → after_sending f w o res ≡ crashed
  unfolding after_sending take_action
  sent_crashes p res none exclusive port there starts threw = refl
  sent_crashes p res (some q) exclusive port there starts (sent _ c u m) =
      elim (Option-cases q.media) [
        | inl empty ↦ absurd (let clash = ap is_some m ∙ there in let none_left = empty in cc)
        | inr (s, held_too) ↦
            let taken : w.binds (held f w q) q.cfg.ip q.cfg.rtp_port ≡ false = rw (held_too) (
              exclusive ((q.cfg.ip, q.cfg.sip_port) ∷ []) [] q.cfg.ip q.cfg.rtp_port (rw c port)) in
            rw (starts, taken) refl
      ]

  -- Where the configured RTP port is not 0, and the platform binds no address a second time that a
  -- socket of the process holds: a request of a call in progress, which has its media session, that
  -- makes the server start media again, which only an accepted INVITE of the call under another CSeq
  -- does, ends the process by an exception.
  pub restart_crashes :
      (p : Process f) (msg : SipMessage) (from : Endpoint)
      → Serves f w p
      → IsExclusive
      → p.cfg.rtp_port ≢ 0
      → p.uas.have_dialog ≡ true
      → (handle w.rng p.uas msg).0.media ≡ start
      → msg.is_request ≡ true
      → Reinvites p.uas msg × (handle_message f w p (some msg) from ≡ crashed)
  unfolding handle_message
  restart_crashes p msg from v exclusive port on starts request =
      let x = handle w.rng p.uas msg in
      let q = record p { uas = x.1 } in
      let says = rw starts at (handle-Says w.rng p.uas msg v.settled) in
      (
        restarts p.uas.have_dialog (Reinvites p.uas msg) on says.1,
        simp request (
            sent_crashes q x.0 _ exclusive port (v.covered on) starts
              (send_responses-Sent f w x.0.responses q from)),
      )
