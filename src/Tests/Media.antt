-- ===== src/Tests/Media.antt =====
-- Concrete runs of the jitter buffer (src/jitter/JitterBuffer.cpp), the DTMF decoder
-- (src/dtmf/Rfc4733.cpp), the codecs (src/codec/G711.cpp, src/codec/Resample.cpp) and the loss
-- figures (src/stats/RtpStats.cpp).
use sipdemo.Base.{
  ℕ, suc, ◌+◌, ◌-◌, ◌*◌, ◌≤◌, ◌≡◌, refl, List, [], ◌∷◌, map, some, arith, length, get_elem?,
}
use sipdemo.Base.Int.{ℤ, pos, negsuc, ◌+ℤ◌, ◌-ℤ◌, ◌≤ℤ◌, magnitude, unsigned, rem, quot}
use sipdemo.Rtp.{RtpPacket, new_packet}
use sipdemo.Jitter.{
  Config, create, extend, insert, pop, insert_at, accept, trim, count, emplace, find, erase,
  step_down, step_up, pop_next, pop_primed,
}
use sipdemo.Jitter.Extend.{extend_lem}
use sipdemo.Jitter.Invariant.{Ascending, Filed, IsValid}
use sipdemo.Jitter.Playout.{
  Event, AreWords, arrive, tick, run, playout, playout_in_order, run-create-IsValid,
}
use sipdemo.Jitter.Accounting.{Balance, arrivals, run-create-Balance}
use sipdemo.Dtmf.Press.{Press}
use sipdemo.Codec.G711.{encode_mu_law, decode_mu_law, encode_a_law, decode_a_law}
use sipdemo.Codec.G711.Tables.{decode_mu_law-encode_mu_law, decode_a_law-encode_a_law}
use sipdemo.Codec.Resample.{upsample_8k_to_16k, Between, successor, upsample_8k_to_16k_lem}
use sipdemo.Stats.{Double, expected, lost}
use sipdemo.Stats
use sipdemo.Stats.Loss.{update_all, in_order_figures}

abbrev packet : ℕ → RtpPacket
packet n = record new_packet { sequence = n }

-- Four packets about the wraparound, the third of which comes too early.
abbrev arrivals_and_ticks : List Event
arrivals_and_ticks =
    arrive (packet 65534)
    ∷ arrive (packet 65535)
    ∷ arrive (packet 1)
    ∷ tick
    ∷ arrive (packet 0)
    ∷ tick
    ∷ arrive (packet 65534)
    ∷ tick
    ∷ tick
    ∷ []

arrivals_and_ticks-AreWords : AreWords arrivals_and_ticks
arrivals_and_ticks-AreWords =
    (omega arith, (omega arith, (omega arith, (omega arith, (omega arith, tt)))))

abbrev two_deep : Config
two_deep = record { target_depth = 2; capacity = 50 }

playout_sequences :
    map (λ e. e.1.sequence) (playout arrivals_and_ticks (create two_deep))
    ≡ 65534 ∷ 65535 ∷ 0 ∷ 1 ∷ []
unfolding playout insert pop extend insert_at accept trim count emplace find erase step_down step_up
    pop_next pop_primed ◌+ℤ◌ ◌-ℤ◌ rem quot
playout_sequences = refl

playout_in_order_example :
    Ascending (pos 0) (playout arrivals_and_ticks (create two_deep))
    × Filed (playout arrivals_and_ticks (create two_deep))
playout_in_order_example = playout_in_order two_deep arrivals_and_ticks arrivals_and_ticks-AreWords

run-create-IsValid_example : IsValid (run arrivals_and_ticks (create two_deep))
run-create-IsValid_example =
    run-create-IsValid two_deep arrivals_and_ticks arrivals_and_ticks-AreWords

run-create-Balance_example :
    Balance
      (length (playout arrivals_and_ticks (create two_deep)))
      (arrivals arrivals_and_ticks)
      (run arrivals_and_ticks (create two_deep))
run-create-Balance_example = run-create-Balance two_deep arrivals_and_ticks

extend_example :
    (unsigned 16 (extend 3 (pos 65530)) ≡ 3)
    × (pos 65530 -ℤ pos 32768 ≤ℤ extend 3 (pos 65530))
    × (extend 3 (pos 65530) ≤ℤ pos 65530 +ℤ pos 32768)
extend_example = extend_lem 3 (pos 65530) (omega arith)

-- The key `5` twice, then `#`.
abbrev presses : List Press
presses =
    record { key = 5; volume = 10; first = 160; updates = 320 ∷ []; total = 480; resends = 2 }
    ∷ record { key = 5; volume = 10; first = 160; updates = []; total = 480; resends = 2 }
    ∷ record { key = 11; volume = 10; first = 160; updates = []; total = 320; resends = 0 }
    ∷ []

decode_mu_law-encode_mu_law_example :
    32 * magnitude (decode_mu_law (encode_mu_law (negsuc 999)) -ℤ negsuc 999)
    ≤ magnitude (negsuc 999) + 132
decode_mu_law-encode_mu_law_example =
    decode_mu_law-encode_mu_law (negsuc 999) (omega arith) (omega arith)

decode_a_law-encode_a_law_example :
    32 * magnitude (decode_a_law (encode_a_law (negsuc 999)) -ℤ negsuc 999)
    ≤ magnitude (negsuc 999) + 256
decode_a_law-encode_a_law_example =
    decode_a_law-encode_a_law (negsuc 999) (omega arith) (omega arith)

abbrev wave : List ℤ
wave = pos 100 ∷ negsuc 50 ∷ pos 3 ∷ []

upsample_8k_to_16k_example :
    (get_elem? (upsample_8k_to_16k wave) (2 * 1) ≡ some (negsuc 50))
    × ((m : ℤ) × (get_elem? (upsample_8k_to_16k wave) (suc (2 * 1)) ≡ some m)
        × Between (negsuc 50) (successor (negsuc 50) (get_elem? wave (suc 1))) m)
upsample_8k_to_16k_example =
    upsample_8k_to_16k_lem wave 1 (negsuc 50)
      ((omega arith, omega arith), ((omega arith, omega arith), ((omega arith, omega arith), tt)))
      refl

-- The figures for loss use no floating-point operation: any serve.
abbrev pub naturals : Double
naturals = record {
  Number = ℕ;
  number = λ n. n;
  add = ◌+◌;
  sub = ◌-◌;
  mul = ◌*◌;
  div = λ a b. a;
  fabs = λ a. a;
}

in_order_figures_example :
    let s = update_all naturals (Stats.create naturals 8000) (
      record { number = 65535; timestamp = 0; arrival = 0 }
      ∷ record { number = 65538; timestamp = 480; arrival = 0 }
      ∷ []) in
    (expected naturals s ≡ 65538 - 65535 + 1)
    × (lost naturals s ≡ pos (65538 - 65535 - 1))
    × (s.reordered ≡ 0)
in_order_figures_example =
    in_order_figures naturals 8000 (record { number = 65535; timestamp = 0; arrival = 0 })
      (record { number = 65538; timestamp = 480; arrival = 0 } ∷ []) (omega arith, omega arith, tt)
      (omega arith)
