-- ===== src/Stats.antt =====
-- include/sipdemo/RtpStats.h and src/stats/RtpStats.cpp: loss, reordering and interarrival jitter.
-- `double` and its operations are a parameter. The 64-bit extended numbers are integers, since a
-- signed overflow is undefined; the unsigned counters wrap.
pub mod Loss
use sipdemo.Base.{
  ℕ, zero, suc, ◌+◌, ◌-◌, ◌%◌, ◌^◌, Bool, true, false, List, [], ◌∷◌, ltb, ◌==◌, if◌then◌else◌,
}
use sipdemo.Base.Int.{ℤ, pos, ◌+ℤ◌, ◌-ℤ◌, ltb_ℤ, rem, signed, unsigned}
use sipdemo.Jitter.{step_down, step_up, inc64}

-- Floating-point numbers, by the operations that the code uses.
pub record Double : Type 1 where
  pub Number : Type 0
  pub number : ℕ → Number
  pub add : Number → Number → Number
  pub sub : Number → Number → Number
  pub mul : Number → Number → Number
  pub div : Number → Number → Number
  pub fabs : Number → Number

-- The loops are those of the jitter buffer's `extend`, which has the same text.
unfoldable pub extend : ℕ → ℤ → ℤ
extend seq reference =
    let base = reference -ℤ rem reference 65536 in
    let candidate = base +ℤ pos seq in step_up 3 (step_down 3 candidate reference) reference

module _ (f : Double) where
  open f use {Number, number, add, sub, mul, div, fabs}

  pub record RtpStats : Type 0 where
    pub clock_rate : ℕ
    pub started : Bool
    pub base_ext : ℤ
    pub max_ext : ℤ
    pub received : ℕ
    pub reordered : ℕ
    pub last_transit : Number
    pub have_transit : Bool
    pub jitter : Number

  pub create : ℕ → RtpStats
  create rate = record {
    clock_rate = rate;
    started = false;
    base_ext = pos 0;
    max_ext = pos 0;
    received = 0;
    reordered = 0;
    last_transit = number 0;
    have_transit = false;
    jitter = number 0;
  }

  -- The part of `update` on sequence numbers.
  pub count_packet : RtpStats → ℕ → RtpStats
  count_packet s seq =
      if s.started
      then (let ext = extend seq s.max_ext in
          record s {
            reordered = if ltb_ℤ ext s.max_ext then inc64 s.reordered else s.reordered;
            max_ext = if ltb_ℤ s.max_ext ext then ext else s.max_ext;
            received = inc64 s.received;
          })
      else record s {
        started = true;
        base_ext = pos seq;
        max_ext = pos seq;
        received = inc64 s.received;
      }

  -- The part on the transit time.
  pub time_packet : RtpStats → ℕ → Number → RtpStats
  time_packet s timestamp arrival =
      let transit = sub (mul arrival (number s.clock_rate)) (number timestamp) in
      let d = fabs (sub transit s.last_transit) in
      record s {
        jitter =
            if s.have_transit then add s.jitter (div (sub d s.jitter) (number 16)) else s.jitter;
        last_transit = transit;
        have_transit = true;
      }

  unfoldable pub update : RtpStats → ℕ → ℕ → Number → RtpStats
  update s seq timestamp arrival = time_packet (count_packet s seq) timestamp arrival

  unfoldable pub expected : RtpStats → ℕ
  expected s = if s.started then unsigned 64 (s.max_ext -ℤ s.base_ext +ℤ pos 1) else 0

  -- A difference of two `int64_t`, each the cast of a `uint64_t`, clamped at zero.
  unfoldable pub lost : RtpStats → ℤ
  lost s =
      let l = signed 64 (expected s) -ℤ signed 64 s.received in if ltb_ℤ (pos 0) l then l else pos 0

  -- `lost()` is not negative, so the cast of it to `double` is of a natural number.
  pub loss_fraction : RtpStats → Number
  loss_fraction s =
      if expected s == 0
      then number 0
      else div (number (unsigned 64 (lost s))) (number (expected s))

  pub jitter_ms : RtpStats → Number
  jitter_ms s = mul (div s.jitter (number s.clock_rate)) (number 1000)

  unfoldable pub reset : RtpStats → RtpStats
  reset s = record s {
    started = false;
    base_ext = pos 0;
    max_ext = pos 0;
    received = 0;
    reordered = 0;
    last_transit = number 0;
    have_transit = false;
    jitter = number 0;
  }
