-- ===== src/Print/Plain.antt =====
-- What the format interpreter does with text that is no conversion.
use new_wiv_os.Base.{
  ℕ, zero, suc, ◌+◌, ◌<◌, none, some, List, [], ◌∷◌, ◌++◌, length, ◌≡◌, ◌≢◌, refl, arith, ==_false,
}
use new_wiv_os.Print.Format.{
  Arg, format_loop, vsnprintf_internal, conversion, finish_conversion, parse_flags, parse_width,
  parse_precision, parse_length,
}

-- No character of the format is a percent sign.
abbrev pub Plain : List ℕ → Type 0
Plain [] = Unit {0}
Plain (c ∷ format) = (c ≢ 0x25) × Plain format

format_loop-Plain :
    (fuel : ℕ) (format : List ℕ) (args : List Arg)
    → length format < fuel
    → Plain format
    → format_loop fuel format args ≡ some (format ++ 0 ∷ [])
unfolding format_loop
format_loop-Plain zero format args h p = absurd (omega arith)
format_loop-Plain (suc fuel) [] args h p = refl
format_loop-Plain (suc fuel) (c ∷ format) args h p =
    rw (==_false c 0x25 p.0, format_loop-Plain fuel format args (omega arith) p.1)

-- A format without a percent sign is written as it is, with a NUL behind it.
pub vsnprintf-Plain :
    (format : List ℕ) (args : List Arg)
    → Plain format
    → vsnprintf_internal format args ≡ some (format ++ 0 ∷ [])
unfolding vsnprintf_internal
vsnprintf-Plain format args p = format_loop-Plain (length format + 1) format args (omega arith) p

format_loop-percent :
    (fuel : ℕ) (format : List ℕ) (args : List Arg)
    → Plain format
    → format_loop fuel (format ++ 0x25 ∷ []) args ≡ none
unfolding format_loop conversion finish_conversion parse_flags parse_width parse_precision
    parse_length
format_loop-percent zero format args p = refl
format_loop-percent (suc fuel) [] args p = refl
format_loop-percent (suc fuel) (c ∷ format) args p =
    rw (==_false c 0x25 p.0, format_loop-percent fuel format args p.1)

-- Where plain text ends in a percent sign, the format is read behind its NUL.
pub vsnprintf_percent :
    (format : List ℕ) (args : List Arg)
    → Plain format
    → vsnprintf_internal (format ++ 0x25 ∷ []) args ≡ none
unfolding vsnprintf_internal
vsnprintf_percent format args p =
    format_loop-percent (length (format ++ 0x25 ∷ []) + 1) format args p
