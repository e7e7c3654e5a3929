-- ===== src/Base/Arguments.antt =====
-- The outcome of reading a command line, for src/app/main.cpp and src/tools/rtp_sender.cpp.
use mathlib.Core.Option.{Option, none, some}

-- The help text and `exit(0)`, an exception of `stoi` or `stod`, or the options.
pub data Parsed {ℓ} (A : Type ℓ) : Type ℓ where
  helped threw : Parsed A
  parsed : A → Parsed A

abbrev pub carry_on {ℓ} : {A : Type ℓ} → Option A → (A → Parsed A) → Parsed A
carry_on none go = threw
carry_on (some a) go = go a
