-- ===== src/App/Main/Upkeep.antt =====
-- When the process of src/app/main.cpp stays up.
use mathlib.Core.Path.{subst}
use sipdemo.App.Media.{MediaSession}
use sipdemo.App.Media.Active.{IsOwn, start_active, step_active}
use sipdemo.Base.{
  Option, false, ℕ, ◌≡◌, refl, sym, ◌∙◌, Bool, true, Bool-cases, Option-cases, inl, inr, List, [],
  ◌∷◌, ◌++◌, none, some, length,
}
use sipdemo.Sip.Message.{SipMessage, serialize}
use sipdemo.Sip.Parser.{parse_sip}
use sipdemo.Sip.Uas.{Endpoint, Result, MediaAction, no_media, start, stop}
use sipdemo.Sip.Uas.Handle.{handle}
use sipdemo.Sip.Uas.Handle.Outcome.{IsSettled}
use sipdemo.Sip.Uas.Handle.Dialog.{handle-Follows}
use sipdemo.Sip.Uas.Handle.Refine.{Reinvites}
use sipdemo.Stats.{Double}
use sipdemo.Net.{timed_out, failed, got}
use sipdemo.App.Main.{
  Process, Status, running, World, held, send_responses, take_action, after_sending, handle_message,
  main_round, Happening, round, media_step, signalled, step, run, continue,
}
use sipdemo.App.Main.Agreement.{Says, handle-Says}

module _ (f : Double) (w : World) where
  -- Where there is a call, a session that has been started and not stopped; else no session.
  abbrev pub RunsWith : Option (MediaSession f) → Bool → Type 0
  RunsWith none call = call ≡ false
  RunsWith (some s) call = (call ≡ true) × (s.active ≡ true)

  -- Media runs exactly while there is a call.
  pub record Matches (p : Process f) : Type 0 where
    pub settled : IsSettled p.uas
    pub agree : RunsWith p.media p.uas.have_dialog

  -- The RTP port can be bound beside the SIP port.
  abbrev pub CanListen : Process f → Type 0
  CanListen p = w.binds ((p.cfg.ip, p.cfg.sip_port) ∷ []) p.cfg.ip p.cfg.rtp_port ≡ true

  -- The process goes on, with the same configuration.
  pub record GoesOn (p : Process f) (s : Status f) : Type 0 where
    pub after : Process f
    pub is_running : s ≡ running after
    pub matches : Matches after
    pub same_cfg : after.cfg ≡ p.cfg

  take_action-GoesOn :
      (b : Bool) (p : Process f) (res : Result) (a : MediaAction)
      → IsSettled p.uas
      → RunsWith p.media b
      → CanListen p
      → Says ⊥ b a p.uas.have_dialog
      → GoesOn p (take_action f w p res a)
  unfolding take_action
  take_action-GoesOn b p res no_media s m free (inl same) = record {
    after = p;
    is_running = refl;
    matches = record { settled = s; agree = subst (RunsWith p.media) (sym same) m };
    same_cfg = refl;
  }
  take_action-GoesOn b p res no_media s m free (inr (never, off)) = absurd never
  take_action-GoesOn b p res start s m free (on, inr never) = absurd never
  take_action-GoesOn b p res stop s m free off = record {
    after = record p { media = none };
    is_running = refl;
    matches = record { settled = s; agree = off };
    same_cfg = refl;
  }
  take_action-GoesOn b p res start s m free (on, inl idle) = elim (Option-cases p.media) [
    | inr (x, there_is) ↦
        absurd (let clash = sym (subst (λ o. RunsWith o b) there_is m).0 ∙ idle in cc)
    | inl empty ↦
        let bound : w.binds (held f w p) p.cfg.ip p.cfg.rtp_port ≡ true = rw empty free in
        rw bound (record {
          after = _;
          is_running = refl;
          matches = record { settled = s; agree = (on, start_active f w.mask w.accepts _ _ _ _ _) };
          same_cfg = refl;
        })
  ]

  Says-never : (R : Type 0) (b c : Bool) (a : MediaAction) → (R → ⊥) → Says R b a c → Says ⊥ b a c
  Says-never R b c no_media h (inl same) = inl same
  Says-never R b c no_media h (inr (r, off)) = absurd (h r)
  Says-never R b c start h (on, inl off) = (on, inl off)
  Says-never R b c start h (on, inr r) = absurd (h r)
  Says-never R b c stop h off = off

  -- No exception comes of sending.
  abbrev pub SendsAll : Type 0
  SendsAll = (n : ℕ) → w.sends n ≡ true

  all_sent :
      (rs : List SipMessage) (p : Process f) (to : Endpoint)
      → SendsAll
      → (q : Process f) × (send_responses f w p rs to ≡ some q)
        × (q.cfg ≡ p.cfg)
        × (q.uas ≡ p.uas)
        × (q.media ≡ p.media)
  unfolding send_responses
  all_sent [] p to ok = (p, refl, refl, refl, refl)
  all_sent (r ∷ rs) p to ok =
      let next = record p { replies = p.replies ++ (serialize r, to) ∷ [] } in
      let (q, e, c, u, m) = all_sent rs next to ok in (q, rw (ok (length p.replies)) e, c, u, m)

  message-GoesOn :
      (p : Process f) (msg : SipMessage) (from : Endpoint)
      → Matches p
      → SendsAll
      → CanListen p
      → (Reinvites p.uas msg → ⊥)
      → GoesOn p (handle_message f w p (some msg) from)
  unfolding handle_message after_sending
  message-GoesOn p msg from v ok free first = elim (Bool-cases msg.is_request) [
    | inr response ↦
        simp response (record { after = p; is_running = refl; matches = v; same_cfg = refl })
    | inl request ↦
        let x = handle w.rng p.uas msg in
        let (q, e, c, u, m) = all_sent x.0.responses (record p { uas = x.1 }) from ok in
        let settled = (handle-Follows w.rng p.uas msg v.settled).0 in
        let says =
          Says-never (Reinvites p.uas msg) p.uas.have_dialog x.1.have_dialog x.0.media first
            (handle-Says w.rng p.uas msg v.settled) in
        let goes =
          take_action-GoesOn p.uas.have_dialog q x.0 x.0.media (rw u settled)
            (subst (λ o. RunsWith o p.uas.have_dialog) (sym m) v.agree) (rw c free) (rw u says) in
        simp request (
          rw e (record {
            after = goes.after;
            is_running = goes.is_running;
            matches = goes.matches;
            same_cfg = goes.same_cfg ∙ c;
          }))
  ]

  -- The main thread receives without an exception, no signal comes, no datagram is an INVITE of the
  -- active call under another CSeq, and no step of the session's threads is a call of `stop`, which
  -- is for the main thread alone.
  abbrev pub IsCalm : Process f → Happening f w → Type 0
  IsCalm p (round timed_out) = Unit
  IsCalm p (round failed) = ⊥
  IsCalm p (round (got dg)) =
      (msg : SipMessage) → parse_sip dg.data_ ≡ some msg → Reinvites p.uas msg → ⊥
  IsCalm p (media_step e) = IsOwn f w.mask w.accepts e
  IsCalm p signalled = ⊥

  abbrev pub AreCalm : Process f → List (Happening f w) → Type 0
  AreCalm p [] = Unit
  AreCalm p (h ∷ hs) = IsCalm p h × ((q : Process f) → step f w p h ≡ running q → AreCalm q hs)

  step-GoesOn :
      (p : Process f) (h : Happening f w)
      → Matches p
      → SendsAll
      → CanListen p
      → IsCalm p h
      → GoesOn p (step f w p h)
  unfolding step main_round
  step-GoesOn p (round timed_out) v ok free calm = record {
    after = p;
    is_running = refl;
    matches = v;
    same_cfg = refl;
  }
  step-GoesOn p (round failed) v ok free calm = absurd calm
  step-GoesOn p signalled v ok free calm = absurd calm
  step-GoesOn p (round (got dg)) v ok free calm = elim (Option-cases (parse_sip dg.data_)) [
    | inl not_sip ↦ rw not_sip (
        unfold handle_message in
        record { after = p; is_running = refl; matches = v; same_cfg = refl })
    | inr (msg, is) ↦ rw is (message-GoesOn p msg dg.from v ok free (calm msg is))
  ]
  step-GoesOn p (media_step e) v ok free calm = elim (Option-cases p.media) [
    | inl none_yet ↦
        rw (none_yet, step) (record { after = p; is_running = refl; matches = v; same_cfg = refl })
    | inr (s, there) ↦
        let (call, on) = subst (λ o. RunsWith o p.uas.have_dialog) there v.agree in
        rw (there, step)
          (record {
            after = _;
            is_running = refl;
            matches = record {
              settled = v.settled;
              agree = (call, step_active f w.mask w.accepts s e calm ∙ on);
            };
            same_cfg = refl;
          })
  ]

  -- From a process that has a started session exactly while there is a call, where the RTP port can
  -- be bound and sending throws nothing, and for as long as receiving throws nothing, no signal
  -- comes, the active call is not negotiated again and none but the main thread calls `stop`: the
  -- process keeps running with its configuration through any datagrams and any steps of the
  -- session's threads, and while there is a call it still has a session, which has been started and
  -- not stopped, and without a call it has none.
  pub run-GoesOn :
      (hs : List (Happening f w)) (p : Process f)
      → Matches p
      → SendsAll
      → CanListen p
      → AreCalm p hs
      → (q : Process f) × (run f w p hs ≡ running q)
        × RunsWith q.media q.uas.have_dialog
        × (q.cfg ≡ p.cfg)
  unfolding run continue
  run-GoesOn [] p v ok free calm = (p, refl, v.agree, refl)
  run-GoesOn (h ∷ hs) p v ok free (calm, later_calm) =
      let g = step-GoesOn p h v ok free calm in
      let (q, e, m, c) =
        run-GoesOn hs g.after g.matches ok (rw g.same_cfg free) (later_calm g.after g.is_running) in
      (q, rw g.is_running e, m, c ∙ g.same_cfg)
