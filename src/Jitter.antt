-- ===== src/Jitter.antt =====
-- include/sipdemo/JitterBuffer.h and src/jitter/JitterBuffer.cpp: the jitter buffer. The
-- `std::map` is the list of its entries in the order of their keys. The 64-bit keys are integers,
-- since a signed overflow is undefined; the 64-bit counters wrap.
pub mod Extend
pub mod Invariant
pub mod Insert
pub mod Pop
pub mod Playout
pub mod Accounting
use sipdemo.Base.{
  ℕ, zero, suc, ◌+◌, ◌-◌, ◌%◌, ◌^◌, Bool, true, false, List, [], ◌∷◌, Option, none, some, ltb,
  if◌then◌else◌, length,
}
use sipdemo.Base.Int.{ℤ, pos, pos_part, neg_part, ◌+ℤ◌, ◌-ℤ◌, ltb_ℤ, eqb_ℤ, rem}
use sipdemo.Rtp.{RtpPacket}

pub record Config : Type 0 where
  pub target_depth : ℕ
  pub capacity : ℕ

pub record JitterStats : Type 0 where
  pub received : ℕ
  pub lost : ℕ
  pub reordered : ℕ
  pub late_discarded : ℕ
  pub overflow_dropped : ℕ
  pub current_depth : ℕ

abbrev pub no_stats : JitterStats
no_stats = record {
  received = 0;
  lost = 0;
  reordered = 0;
  late_discarded = 0;
  overflow_dropped = 0;
  current_depth = 0;
}

abbrev pub Entry : Type 0
Entry = ℤ × RtpPacket

pub record JitterBuffer : Type 0 where
  pub cfg : Config
  pub buf : List Entry
  pub started : Bool
  pub primed : Bool
  pub highest_ext : ℤ
  pub playout_ext : ℤ
  pub counters : JitterStats

abbrev pub create : Config → JitterBuffer
create cfg = record {
  cfg = cfg;
  buf = [];
  started = false;
  primed = false;
  highest_ext = pos 0;
  playout_ext = pos 0;
  counters = no_stats;
}

-- `++` on a `uint64_t`.
abbrev pub inc64 : ℕ → ℕ
inc64 n = (n + 1) % 2 ^ 64

-- `while (candidate - reference > 32768) candidate -= 65536;`
unfoldable pub step_down : ℕ → ℤ → ℤ → ℤ
step_down zero candidate reference = candidate
step_down (suc fuel) candidate reference =
    let rest = step_down fuel (candidate -ℤ pos 65536) reference in
    if ltb_ℤ (pos 32768) (candidate -ℤ reference) then rest else candidate

-- `while (reference - candidate > 32768) candidate += 65536;`
unfoldable pub step_up : ℕ → ℤ → ℤ → ℤ
step_up zero candidate reference = candidate
step_up (suc fuel) candidate reference =
    let rest = step_up fuel (candidate +ℤ pos 65536) reference in
    if ltb_ℤ (pos 32768) (reference -ℤ candidate) then rest else candidate

-- Three rounds are enough for either loop (Jitter/Extend.antt).
unfoldable pub extend : ℕ → ℤ → ℤ
extend seq reference =
    let base = reference -ℤ rem reference 65536 in
    let candidate = base +ℤ pos seq in step_up 3 (step_down 3 candidate reference) reference

-- `buf_.count(ext)`, `buf_.emplace(ext, pkt)`, `buf_.find(ext)` and `buf_.erase(it)` on the map.
unfoldable pub count : List Entry → ℤ → Bool
count [] ext = false
count ((k, p) ∷ es) ext = if eqb_ℤ k ext then true else count es ext

unfoldable pub emplace : ℤ → RtpPacket → List Entry → List Entry
emplace ext pkt [] = (ext, pkt) ∷ []
emplace ext pkt ((k, p) ∷ es) =
    let later = (k, p) ∷ emplace ext pkt es in
    if ltb_ℤ ext k then (ext, pkt) ∷ (k, p) ∷ es else if eqb_ℤ ext k then (k, p) ∷ es else later

unfoldable pub find : List Entry → ℤ → Option RtpPacket
find [] ext = none
find ((k, p) ∷ es) ext = if eqb_ℤ k ext then some p else find es ext

unfoldable pub erase : List Entry → ℤ → List Entry
erase [] ext = []
erase ((k, p) ∷ es) ext = if eqb_ℤ k ext then es else (k, p) ∷ erase es ext

-- What the capacity loop changes: the queue, the playout cursor and the overflow counter.
pub record Trimmed : Type 0 where
  pub queue : List Entry
  pub cursor : ℤ
  pub dropped : ℕ

-- `while (buf_.size() > cfg_.capacity)`: each round drops the oldest entry and moves the cursor.
unfoldable pub trim : ℕ → List Entry → ℤ → ℕ → Trimmed
trim capacity [] cursor dropped = record { queue = []; cursor = cursor; dropped = dropped }
trim capacity ((k, p) ∷ es) cursor dropped =
    let smaller =
      trim capacity es (if ltb_ℤ k cursor then cursor else k +ℤ pos 1) (inc64 dropped) in
    if ltb capacity (length ((k, p) ∷ es))
    then smaller
    else record { queue = (k, p) ∷ es; cursor = cursor; dropped = dropped }

abbrev late : JitterBuffer → JitterBuffer
late j = record j {
  counters = record (j.counters) { late_discarded = inc64 (j.counters).late_discarded };
}

-- The packet is neither late nor a duplicate.
unfoldable pub accept : JitterBuffer → ℤ → RtpPacket → JitterBuffer
accept j ext pkt =
    let c = j.counters in
    let reordered = if ltb_ℤ ext j.highest_ext then inc64 c.reordered else c.reordered in
    let highest = if ltb_ℤ j.highest_ext ext then ext else j.highest_ext in
    let t = trim (j.cfg).capacity (emplace ext pkt j.buf) j.playout_ext c.overflow_dropped in
    record j {
      buf = t.queue;
      highest_ext = highest;
      playout_ext = t.cursor;
      counters = record c {
        received = inc64 c.received;
        reordered = reordered;
        overflow_dropped = t.dropped;
      };
    }

-- The checks on the extended number.
unfoldable pub insert_at : JitterBuffer → ℤ → RtpPacket → JitterBuffer
insert_at j ext pkt =
    if ltb_ℤ ext j.playout_ext then late j else if count j.buf ext then late j else accept j ext pkt

unfoldable pub insert : JitterBuffer → RtpPacket → JitterBuffer
insert j pkt =
    if j.started
    then insert_at j (extend pkt.sequence j.highest_ext) pkt
    else insert_at
        (record j {
          started = true;
          highest_ext = pos pkt.sequence;
          playout_ext = pos pkt.sequence;
        })
        (pos pkt.sequence) pkt

-- The packet, `wasLost`, and the new state.
pub record Popped : Type 0 where
  pub packet : Option RtpPacket
  pub was_lost : Bool
  pub after : JitterBuffer

abbrev pub nothing : JitterBuffer → Popped
nothing j = record { packet = none; was_lost = false; after = j }

-- The entry at the cursor is moved out.
abbrev pub taken : RtpPacket → JitterBuffer → Popped
taken p j = record {
  packet = some p;
  was_lost = false;
  after = record j { buf = erase j.buf j.playout_ext; playout_ext = j.playout_ext +ℤ pos 1 };
}

-- The slot at the cursor is declared lost.
abbrev pub passed : JitterBuffer → Popped
passed j = record {
  packet = none;
  was_lost = true;
  after = record j {
    playout_ext = j.playout_ext +ℤ pos 1;
    counters = record (j.counters) { lost = inc64 (j.counters).lost };
  };
}

-- The buffer is primed and not empty.
unfoldable pub pop_next : JitterBuffer → Popped
pop_next j = elim (find j.buf j.playout_ext) [ some p ↦ taken p j | none ↦ passed j ]

-- The buffer is primed.
unfoldable pub pop_primed : List Entry → JitterBuffer → Popped
pop_primed [] j = nothing j
pop_primed (e ∷ es) j = pop_next j

unfoldable pub pop : JitterBuffer → Popped
pop j =
    if j.started
    then if j.primed
      then pop_primed j.buf j
      else if ltb (length j.buf) (j.cfg).target_depth
      then nothing j
      else pop_primed j.buf (record j { primed = true })
    else nothing j

unfoldable pub reset : JitterBuffer → JitterBuffer
reset j = create j.cfg

unfoldable pub stats : JitterBuffer → JitterStats
stats j = record (j.counters) { current_depth = length j.buf }
