-- ===== src/App/Main/Agreement.antt =====
-- The SIP server and the media session of src/app/main.cpp: media runs while there is a call.
use sipdemo.Base.{
  ℕ, ◌≡◌, ◌⊎◌, refl, ap, sym, ◌∙◌, Bool, true, false, Bool-cases, Option-cases, inl, inr, List, [],
  ◌∷◌, ◌++◌, Option, none, some, is_some, length,
}
use sipdemo.Sip.Message.{SipMessage, serialize}
use sipdemo.Sip.Parser.{parse_sip}
use sipdemo.Sip.Uas.{Endpoint, SipUas, Result, MediaAction, no_media, start, stop}
use sipdemo.Sip.Uas.Handle.{handle}
use sipdemo.Sip.Uas.Handle.Outcome.{IsSettled}
use sipdemo.Sip.Uas.Handle.Dialog.{handle-Follows}
use sipdemo.Sip.Uas.Handle.Refine.{
  Phase, idle, in_call_of, phase, Move, stays, answers, hangs_up, answers_again, gives_up,
  Reinvites, handle-Move,
}
use sipdemo.Stats.{Double}
use sipdemo.Net.{timed_out, failed, got}
use sipdemo.App.Main.{
  Config, Process, Status, crashed, exited, running, World, held, send_responses, take_action,
  after_sending, handle_message, main_round, boot, Happening, round, media_step, signalled, step,
  run, continue,
}

abbrev active : Phase → Bool
active idle = false
active (in_call_of cid) = true

active-phase : (u : SipUas) → active (phase u) ≡ u.have_dialog
active-phase u = elim (Bool-cases u.have_dialog) [ inl on ↦ rw on refl | inr off ↦ rw off refl ]

-- What a media action says of a call, before (`b`) and after it (`c`).
abbrev pub Says : Type 0 → Bool → MediaAction → Bool → Type 0
Says R b no_media c = (c ≡ b) ⊎ (R × (c ≡ false))
Says R b start c = (c ≡ true) × ((b ≡ false) ⊎ R)
Says R b stop c = c ≡ false

Move-Says :
    (R : Type 0) (p q : Phase) (a : MediaAction) → Move R p a q → Says R (active p) a (active q)
Move-Says R _ _ _ (stays p) = inl refl
Move-Says R _ _ _ (answers cid) = (refl, inl refl)
Move-Says R _ _ _ (hangs_up cid) = refl
Move-Says R _ _ _ (answers_again cid r) = (refl, inr r)
Move-Says R _ _ _ (gives_up cid r) = inr (r, refl)

pub handle-Says :
    (rng : ℕ → ℕ) (u : SipUas) (msg : SipMessage)
    → IsSettled u
    → Says
        (Reinvites u msg)
        u.have_dialog
        (handle rng u msg).0.media
        (handle rng u msg).1.have_dialog
handle-Says rng u msg s =
    rw (active-phase u, active-phase (handle rng u msg).1) at
      (Move-Says (Reinvites u msg) (phase u) (phase (handle rng u msg).1) _
        (handle-Move rng u msg s))

module _ (f : Double) (w : World) where
  -- A predicate holds of the process, if it is running.
  abbrev pub WhileRunning {κ} : (Process f → Type κ) → Status f → Type κ
  WhileRunning P crashed = Unit
  WhileRunning P (exited p) = Unit
  WhileRunning P (running p) = P p

  -- What sending leaves: an exception, or a process with more replies.
  pub data Sent (p : Process f) : Option (Process f) → Type 0 where
    threw : Sent p none
    sent : (q : Process f) → q.cfg ≡ p.cfg → q.uas ≡ p.uas → q.media ≡ p.media → Sent p (some q)

  pub later :
      (p q : Process f) (o : Option (Process f))
      → q.cfg ≡ p.cfg
      → q.uas ≡ p.uas
      → q.media ≡ p.media
      → Sent q o
      → Sent p o
  later p q o c u m threw = threw
  later p q o c u m (sent r c' u' m') = sent r (c' ∙ c) (u' ∙ u) (m' ∙ m)

  pub send_responses-Sent :
      (rs : List SipMessage) (p : Process f) (to : Endpoint) → Sent p (send_responses f w p rs to)
  unfolding send_responses
  send_responses-Sent [] p to = sent p refl refl refl
  send_responses-Sent (r ∷ rs) p to = elim (Bool-cases (w.sends (length p.replies))) [
    | inr throws ↦ rw throws threw
    | inl goes ↦
        let q = record p { replies = p.replies ++ (serialize r, to) ∷ [] } in
        rw goes (later p q _ refl refl refl (send_responses-Sent rs q to))
  ]

  -- A call in progress has its media session.
  pub record Serves (p : Process f) : Type 0 where
    pub settled : IsSettled p.uas
    pub covered : p.uas.have_dialog ≡ true → is_some p.media ≡ true

  take_action-Serves :
      (R : Type 0) (b : Bool) (p : Process f) (res : Result) (a : MediaAction)
      → IsSettled p.uas
      → (b ≡ true → is_some p.media ≡ true)
      → Says R b a p.uas.have_dialog
      → WhileRunning Serves (take_action f w p res a)
  unfolding take_action
  take_action-Serves R b p res no_media s c (inl same) = record {
    settled = s;
    covered = λ on. c (sym same ∙ on);
  }
  take_action-Serves R b p res no_media s c (inr (r, off)) = record {
    settled = s;
    covered = λ on. let clash = off in absurd cc;
  }
  take_action-Serves R b p res stop s c off = record {
    settled = s;
    covered = λ on. let clash = off in absurd cc;
  }
  take_action-Serves R b p res start s c says =
      elim (Bool-cases (w.binds (held f w p) p.cfg.ip p.cfg.rtp_port)) [
        | inr refused ↦ rw refused tt
        | inl bound ↦ rw bound (record { settled = s; covered = λ on. refl })
      ]

  handled-Serves :
      (p : Process f) (msg : SipMessage) (o : Option (Process f))
      → Serves p
      → Sent (record p { uas = (handle w.rng p.uas msg).1 }) o
      → WhileRunning Serves (after_sending f w o (handle w.rng p.uas msg).0)
  unfolding after_sending
  handled-Serves p msg none v threw = tt
  handled-Serves p msg (some q) v (sent _ c u m) =
      let x = handle w.rng p.uas msg in
      let settled = (handle-Follows w.rng p.uas msg v.settled).0 in
      take_action-Serves (Reinvites p.uas msg) p.uas.have_dialog q x.0 x.0.media (rw u settled)
        (λ on. ap is_some m ∙ v.covered on) (rw u (handle-Says w.rng p.uas msg v.settled))

  message-Serves :
      (p : Process f) (o : Option SipMessage) (from : Endpoint)
      → Serves p
      → WhileRunning Serves (handle_message f w p o from)
  unfolding handle_message
  message-Serves p none from v = v
  message-Serves p (some msg) from v = elim (Bool-cases msg.is_request) [
    | inr response ↦ simp response v
    | inl request ↦
        let q = record p { uas = (handle w.rng p.uas msg).1 } in
        simp request (
          handled-Serves p msg _ v
            (send_responses-Sent (handle w.rng p.uas msg).0.responses q from))
  ]

  step-Serves : (p : Process f) (h : Happening f w) → Serves p → WhileRunning Serves (step f w p h)
  unfolding step main_round
  step-Serves p (round timed_out) v = v
  step-Serves p (round failed) v = tt
  step-Serves p (round (got dg)) v = message-Serves p (parse_sip dg.data_) dg.from v
  step-Serves p signalled v = tt
  step-Serves p (media_step e) v = elim (Option-cases p.media) [
    | inl idle_ ↦ rw (idle_, step) v
    | inr (s, there) ↦ rw (there, step) (record { settled = v.settled; covered = λ on. refl })
  ]

  continue-WhileRunning {κ} :
      (P : Process f → Type κ) (s : Status f) (go : Process f → Status f)
      → ((q : Process f) → s ≡ running q → WhileRunning P (go q))
      → WhileRunning P (continue f w s go)
  unfolding continue
  continue-WhileRunning P crashed go h = tt
  continue-WhileRunning P (exited p) go h = tt
  continue-WhileRunning P (running p) go h = h p refl

  run-Serves :
      (hs : List (Happening f w)) (p : Process f) → Serves p → WhileRunning Serves (run f w p hs)
  unfolding run
  run-Serves [] p v = v
  run-Serves (h ∷ hs) p v =
      continue-WhileRunning Serves (step f w p h) (λ q. run f w q hs)
        λ q e. run-Serves hs q (rw e at (step-Serves p h v))

  boot-Idle :
      (cfg : Config) (draws : ℕ)
      → WhileRunning
          (λ p. IsSettled p.uas × (p.uas.have_dialog ≡ false) × (p.media ≡ none))
          (boot f w cfg draws)
  unfolding boot
  boot-Idle cfg draws = elim (Bool-cases (w.binds [] cfg.ip cfg.sip_port)) [
    | inr refused ↦ rw refused tt
    | inl bound ↦ rw bound (inl refl, refl, refl)
  ]

  -- However the process starts, whatever datagrams come and whatever the threads of the session do:
  -- while the process runs, a call in progress has its media session, and the server is between two
  -- requests with an active dialog answered.
  pub boot-Serves :
      (cfg : Config) (draws : ℕ) (hs : List (Happening f w))
      → WhileRunning Serves (continue f w (boot f w cfg draws) (λ p. run f w p hs))
  boot-Serves cfg draws hs =
      continue-WhileRunning Serves (boot f w cfg draws) (λ p. run f w p hs)
        λ p e.
          let (settled, off, no_session) = rw e at (boot-Idle cfg draws) in
          run-Serves hs p
            (record { settled = settled; covered = λ on. absurd (let clash = off in cc) })
