-- ===== src/Generator/Args.antt =====
-- The command line of src/tools/rtp_sender.cpp. `std::stod` is a parameter, as are its numbers.
use sipdemo.Base.{ℕ, suc, List, [], ◌∷◌, Option, none, some, true, Bool, if◌then◌else◌, take, drop}
use sipdemo.Base.Arguments.{Parsed, helped, parsed, carry_on}
use sipdemo.Base.Int.{ℤ, pos, unsigned}
use sipdemo.Base.Text.{Text, text, text_eq, find, stoi}

module _ (Number : Type 0) (stod : Text → Option Number) where
  pub record Args : Type 0 where
    pub dest_ip : Text
    pub dest_port : ℕ
    pub seconds : ℤ
    pub payload_type : ℤ
    pub loss_pct : Number
    pub reorder_pct : Number
    pub max_delay_ms : ℤ
    pub wav_path : Text

  abbrev pub default_args : Number → Args
  default_args zero_pct = record {
    dest_ip = text "127.0.0.1";
    dest_port = 40000;
    seconds = pos 10;
    payload_type = pos 0;
    loss_pct = zero_pct;
    reorder_pct = zero_pct;
    max_delay_ms = pos 0;
    wav_path = [];
  }

  -- `parsePort`.
  pub parse_port : Text → Option ℕ
  parse_port s = elim (stoi s) [ none ↦ none | some n ↦ some (unsigned 16 n) ]

  abbrev put {ℓ} : {A : Type ℓ} → Option A → (A → Args) → Option Args
  put none f = none
  put (some a) f = some (f a)

  -- The value of `--dest`, which without a colon changes nothing.
  pub destination : Args → Text → Option Args
  unfolding parse_port
  destination a v = elim (find (text ":") v) [
    | none ↦ some a
    | some colon ↦
        put (parse_port (drop (suc colon) v))
          (λ port. record a { dest_ip = take colon v; dest_port = port })
  ]

  -- An option that takes a value, or `none`; its effect may be an exception, `some none`.
  pub option_value : Args → Text → Text → Option (Option Args)
  unfolding destination
  option_value a k v =
      if text_eq k (text "--dest")
      then some (destination a v)
      else if text_eq k (text "--secs")
      then some (put (stoi v) (λ n. record a { seconds = n }))
      else if text_eq k (text "--pt")
      then some (put (stoi v) (λ n. record a { payload_type = n }))
      else if text_eq k (text "--loss")
      then some (put (stod v) (λ x. record a { loss_pct = x }))
      else if text_eq k (text "--reorder")
      then some (put (stod v) (λ x. record a { reorder_pct = x }))
      else if text_eq k (text "--delay")
      then some (put (stoi v) (λ n. record a { max_delay_ms = n }))
      else if text_eq k (text "--wav")
      then some (some (record a { wav_path = v }))
      else none

  abbrev asks_help : Text → Bool
  asks_help k = if text_eq k (text "--help") then true else text_eq k (text "-h")

  -- `parseArgs`; the value at the end of the line is "".
  unfoldable pub parse_args : Args → List Text → Parsed Args
  unfolding option_value
  parse_args a [] = parsed a
  parse_args a (k ∷ []) = elim (option_value a k []) [
    | some o ↦ carry_on o parsed
    | none ↦ if asks_help k then helped else parsed a
  ]
  parse_args a (k ∷ v ∷ ks) = elim (option_value a k v) [
    | some o ↦ carry_on o (λ b. parse_args b ks)
    | none ↦ if asks_help k then helped else parse_args a (v ∷ ks)
  ]
