-- ===== src/Tests/Processes.antt =====
-- Concrete runs of the process (src/app/main.cpp).
use sipdemo.Base.{
  ℕ, ◌≡◌, refl, sym, ap, ◌∙◌, Bool, true, false, not, List, [], ◌∷◌, ◌++◌, Option, none, some, ◌==◌,
  if◌then◌else◌, inl, Bool-cases, inr, ==_iff,
}
use sipdemo.Base.Arguments.{parsed, threw}
use sipdemo.Base.Text.{
  Text, text, text_eq, trim, lower, tokenize, split_newlines, find, find_from, starts_with, atoi,
  skip_spaces, read_signed, read_digits, strtol, stoi, rfind, strip_left, strip_right,
}
use sipdemo.Base.Int.{unsigned}
use sipdemo.Sip.Message.{SipMessage, get_in, get_all_in, remove_in, iequals}
use sipdemo.Sip.Parser.{parse_sip, header_param, parse_cseq}
use sipdemo.Sip.Sdp.{contains}
use sipdemo.Sip.Sdp.Parse.{parse_sdp}
use sipdemo.Sip.Sdp.Answer.{make_answer}
use sipdemo.Sip.Uas.{make_response, start}
use sipdemo.Sip.Uas.Handle.{handle}
use sipdemo.Sip.Uas.Handle.Dialog.{handle-Follows}
use sipdemo.Sip.Uas.Handle.Refine.{phase, Move, Reinvites, handle-Move}
use sipdemo.Net.{timed_out, got}
use sipdemo.App.Media.Runs.{ticked}
use sipdemo.App.Main.{
  default_config, parse_args, Process, World, Happening, round, media_step, boot, run, running,
  crashed, continue, handle_message,
}
use sipdemo.App.Main.Agreement.{WhileRunning, Serves, boot-Serves}
use sipdemo.App.Main.Upkeep.{RunsWith, run-GoesOn}
use sipdemo.App.Main.Restart.{IsExclusive, restart_crashes}
use sipdemo.Tests.Calls.{rng, idle, invite}
use sipdemo.Tests.Media.{naturals}
use sipdemo.Tests.Sessions.{mask, accepts, peer, session, session_on}

handle-Move_example :
    Move
      (Reinvites idle invite)
      (phase idle)
      (handle rng idle invite).0.media
      (phase (handle rng idle invite).1)
handle-Move_example = handle-Move rng idle invite (inl refl)

-- The port is held.
holds : List (Text × ℕ) → ℕ → Bool
holds [] port = false
holds ((ip, q) ∷ hs) port = let rest = holds hs port in if q == port then true else rest

abbrev world : World
world = record {
  rng = rng;
  mask = mask;
  accepts = accepts;
  dial = λ n. record {
    resolves = λ host port. false;
    opens = false;
    reaches = false;
    raw = [];
    sends = [];
    reads = [];
  };
  binds = λ hs ip port. if port == 0 then true else not (holds hs port);
  sends = λ n. true;
}

holds_lem :
    (before after : List (Text × ℕ)) (ip : Text) (port : ℕ)
    → holds (before ++ (ip, port) ∷ after) port ≡ true
unfolding holds
holds_lem [] after ip port = rw ((==_iff port port).1 refl) refl
holds_lem ((i, q) ∷ before) after ip port = elim (Bool-cases (q == port)) [
  | inl same ↦ rw same refl
  | inr other ↦ rw other (holds_lem before after ip port)
]

world-IsExclusive : IsExclusive naturals world
world-IsExclusive before after ip port nonzero = elim (Bool-cases (port == 0)) [
  | inl none_given ↦ absurd (nonzero ((==_iff port 0).0 none_given))
  | inr given ↦ rw (given, holds_lem before after ip port) refl
]

abbrev happenings : List (Happening naturals world)
happenings = round timed_out ∷ media_step ticked ∷ []

boot-Serves_example : WhileRunning naturals world (Serves naturals world) (
    continue naturals world
      (boot naturals world default_config 0)
      (λ p. run naturals world p happenings))
boot-Serves_example = boot-Serves naturals world default_config 0 happenings

-- A process in a call.
abbrev in_call : Process naturals
in_call = record {
  cfg = default_config;
  uas = (handle rng idle invite).1;
  media = some session;
  replies = [];
}

in_call_on : in_call.uas.have_dialog ≡ true
unfolding handle make_response parse_sdp make_answer contains get_in get_all_in remove_in iequals
    text_eq header_param parse_cseq trim lower tokenize split_newlines find find_from starts_with
    atoi skip_spaces read_signed read_digits strtol strip_left strip_right unsigned
in_call_on = refl

-- It hangs up, and a tick of the media comes late.
abbrev hang_up : List (Happening naturals world)
hang_up =
    round (got (record { data_ = text "BYE sip:b SIP/2.0\r\nCall-ID: abc\r\n\r\n"; from = peer }))
    ∷ media_step ticked
    ∷ []

-- Whether a parsed message is an INVITE.
abbrev invites : Option SipMessage → Bool
invites none = false
invites (some m) = text_eq m.method (text "INVITE")

bye_calm : invites (parse_sip (text "BYE sip:b SIP/2.0\r\nCall-ID: abc\r\n\r\n")) ≡ false
unfolding parse_sip get_in iequals trim lower find find_from starts_with strip_left strip_right
    text_eq split_newlines tokenize rfind
bye_calm = refl

run-GoesOn_example :
    (q : Process naturals) × (run naturals world in_call hang_up ≡ running q)
    × RunsWith naturals world q.media q.uas.have_dialog
    × (q.cfg ≡ default_config)
unfolding holds
run-GoesOn_example =
    run-GoesOn naturals world hang_up in_call
      (record {
        settled = (handle-Follows rng idle invite (inl refl)).0;
        agree = (in_call_on, session_on);
      })
      (λ n. refl) refl
      (
        (λ msg e r.
            let other : text_eq msg.method (text "INVITE") ≡ false =
              sym (ap invites e) ∙ bye_calm in
            let same = r.method_is in cc),
        λ q e. (tt, λ q' e'. tt),
      )

-- The same call, with another CSeq.
abbrev again : SipMessage
again = record invite {
  headers =
      (text "Via", text "SIP/2.0/UDP 10.0.0.2;branch=z9hG4bK2")
      ∷ (text "From", text "<sip:a>;tag=1")
      ∷ (text "To", text "<sip:b>")
      ∷ (text "Call-ID", text "abc")
      ∷ (text "CSeq", text "2 INVITE")
      ∷ [];
}

again_starts : (handle rng in_call.uas again).0.media ≡ start
unfolding handle make_response parse_sdp make_answer contains get_in get_all_in remove_in iequals
    text_eq header_param parse_cseq trim lower tokenize split_newlines find find_from starts_with
    atoi skip_spaces read_signed read_digits strtol strip_left strip_right unsigned
again_starts = refl

restart_crashes_example :
    Reinvites in_call.uas again
    × (handle_message naturals world in_call (some again) peer ≡ crashed)
restart_crashes_example =
    restart_crashes naturals world in_call again peer
      (record { settled = (handle-Follows rng idle invite (inl refl)).0; covered = λ on. refl })
      world-IsExclusive (λ e. cc) in_call_on again_starts refl

-- A port beyond 16 bits wraps, and an option at the end of the line has no value to read.
ports_parsed :
    (parse_args default_config (text "--sip-port" ∷ text "70000" ∷ [])
      ≡ parsed (record default_config { sip_port = 4464 }))
    × (parse_args default_config (text "--rtp-port" ∷ []) ≡ threw)
unfolding parse_args stoi text_eq strtol skip_spaces read_signed read_digits unsigned
ports_parsed = (refl, refl)
