-- ===== src/Print/Format.antt =====
-- The format interpreter of kernel/utils/system.c. A format is the list of its characters up to
-- its NUL, the variable arguments are a list; `none` is an argument that is missing or of another
-- kind, or a read behind the format's NUL. Characters are unsigned and a long has 64 bits, as on
-- riscv64.
use mathlib.Core.Option
use new_wiv_os.Base.{
  ℕ, zero, suc, ◌+◌, ◌-◌, ◌*◌, ◌%◌, ◌^◌, Bool, true, false, ◌||◌, if◌then◌else◌, leb, ◌==◌, bit_and,
  bit_or, Option, none, some, List, [], ◌∷◌, ◌++◌, length, replicate, take,
}
use new_wiv_os.Strings.Text.{isdigit}
use new_wiv_os.Print.{
  has, flag_left, flag_plus, flag_space, flag_hash, flag_zeropad, flag_precision, flag_uppercase,
  ntoa_long,
}

abbrev pub flag_char : ℕ
flag_char = 0x40

abbrev pub flag_short : ℕ
flag_short = 0x80

abbrev pub flag_long : ℕ
flag_long = 0x100

abbrev pub flag_long_long : ℕ
flag_long_long = 0x200

-- One variable argument: a number or pointer as 64 bits, or the characters of a string.
pub data Arg : Type 0 where
  word : ℕ → Arg
  text : List ℕ → Arg

-- What is left of the format and of the arguments, and what the conversion has gathered.
pub record Spec : Type 0 where
  pub format : List ℕ
  pub args : List Arg
  pub flags : ℕ
  pub width : ℕ
  pub precision : ℕ

abbrev pub clear : ℕ → ℕ → ℕ
clear flags flag = bit_and flags (2 ^ 32 - 1 - flag)

unfoldable pub flag_of : ℕ → Option ℕ
flag_of c =
    if c == b'-'
    then some flag_left
    else if c == b'+'
    then some flag_plus
    else if c == b' '
    then some flag_space
    else if c == 0x23
    then some flag_hash
    else if c == b'0'
    then some flag_zeropad
    else none

unfoldable pub parse_flags : List ℕ → ℕ → List ℕ × ℕ
unfolding flag_of
parse_flags [] flags = ([], flags)
parse_flags (c ∷ format) flags = elim (flag_of c) [
  | none ↦ (c ∷ format, flags)
  | some flag ↦ parse_flags format (bit_or flags flag)
]

unfoldable pub parse_digits : List ℕ → ℕ → List ℕ × ℕ
parse_digits [] n = ([], n)
parse_digits (c ∷ format) n =
    let rest = parse_digits format ((n * 10 + (c - b'0')) % 2 ^ 32) in
    if isdigit c then rest else (c ∷ format, n)

-- va_arg(args, int) as its 32 bits
unfoldable pub next_int : List Arg → Option (ℕ × List Arg)
next_int [] = none
next_int (word n ∷ args) = some (n % 2 ^ 32, args)
next_int (text s ∷ args) = none

unfoldable pub parse_width : Spec → Option Spec
unfolding parse_digits next_int
parse_width s = go s.format
  where
    go : List ℕ → Option Spec
    go [] = some s
    go (c ∷ format) =
        if isdigit c
        then (let r = parse_digits (c ∷ format) 0 in some (record s { format = r.0; width = r.1 }))
        else if c == 0x2A
        then elim (next_int s.args) [
          | none ↦ none
          | some (n, args) ↦
              if leb (2 ^ 31) n
              then some (record s {
                format = format;
                args = args;
                flags = bit_or s.flags flag_left;
                width = 2 ^ 32 - n;
              })
              else some (record s { format = format; args = args; width = n })
        ]
        else some s

-- Behind the dot: digits, or an argument of which a positive value counts.
unfoldable pub parse_precision_value : Spec → List ℕ → Option Spec
unfolding parse_digits next_int
parse_precision_value s [] = some s
parse_precision_value s (c ∷ format) =
    if isdigit c
    then (let r = parse_digits (c ∷ format) 0 in some (record s { format = r.0; precision = r.1 }))
    else if c == 0x2A
    then elim (next_int s.args) [
      | none ↦ none
      | some (n, args) ↦
          some
            (record s { format = format; args = args; precision = if leb (2 ^ 31) n then 0 else n })
    ]
    else some s

unfoldable pub parse_precision : Spec → List ℕ → Option Spec
unfolding parse_precision_value
parse_precision s [] = some s
parse_precision s (c ∷ format) =
    if c == b'.'
    then parse_precision_value (record s { format = format; flags = bit_or s.flags flag_precision })
        format
    else some s

-- A letter that may stand twice: the flag of one, and the flag that a second one adds.
unfoldable pub doubled : ℕ → ℕ → ℕ → List ℕ → ℕ → List ℕ × ℕ
doubled letter once twice [] flags = ([], bit_or flags once)
doubled letter once twice (c ∷ format) flags =
    if c == letter
    then (format, bit_or (bit_or flags once) twice)
    else (c ∷ format, bit_or flags once)

unfoldable pub parse_length : List ℕ → ℕ → List ℕ × ℕ
unfolding doubled
parse_length [] flags = ([], flags)
parse_length (c ∷ format) flags =
    if c == b'l'
    then doubled b'l' flag_long flag_long_long format flags
    else if c == b'h'
    then doubled b'h' flag_short flag_char format flags
    else if c == b'j' || c == b'z'
    then (format, bit_or flags flag_long)
    else (c ∷ format, flags)

-- The sign and the magnitude of a signed number of w bits.
abbrev pub signed_value : ℕ → ℕ → Bool × ℕ
signed_value w n =
    if leb (2 ^ (w - 1)) (n % 2 ^ w) then (true, 2 ^ w - n % 2 ^ w) else (false, n % 2 ^ w)

unfoldable pub argument_value : Bool → ℕ → ℕ → Bool × ℕ
argument_value is_signed flags n =
    if has flags flag_long_long || has flags flag_long
    then (if is_signed then signed_value 64 n else (false, n % 2 ^ 64))
    else if has flags flag_char
    then (false, n % 2 ^ 8)
    else if has flags flag_short
    then (if is_signed then signed_value 16 n else (false, n % 2 ^ 16))
    else if is_signed
    then signed_value 32 n
    else (false, n % 2 ^ 32)

-- The conversions d i u x X o b
unfoldable pub convert_number : ℕ → Spec → ℕ → List ℕ
unfolding argument_value
convert_number c s n =
    let base =
      if c == b'x' || c == b'X' then 16 else if c == b'o' then 8 else if c == b'b' then 2 else 10 in
    let is_signed = c == b'i' || c == b'd' in
    let f0 = if base == 10 then clear s.flags flag_hash else s.flags in
    let f1 = if c == b'X' then bit_or f0 flag_uppercase else f0 in
    let f2 = if is_signed then f1 else clear f1 (flag_plus + flag_space) in
    let f3 = if has f2 flag_precision then clear f2 flag_zeropad else f2 in
    let v = argument_value is_signed f3 n in ntoa_long v.1 v.0 base s.precision s.width f3

unfoldable pub spaces_around : ℕ → ℕ → List ℕ → ℕ → List ℕ
spaces_around flags l body width =
    if has flags flag_left
    then body ++ replicate (width - l) b' '
    else replicate (width - l) b' ' ++ body

unfoldable pub up_to_nul : List ℕ → List ℕ
up_to_nul [] = []
up_to_nul (c ∷ s) = if c == 0 then [] else c ∷ up_to_nul s

unfoldable pub convert_string : Spec → List ℕ → List ℕ
unfolding spaces_around up_to_nul
convert_string s chars =
    let body =
      if has s.flags flag_precision then take s.precision (up_to_nul chars) else up_to_nul chars in
    spaces_around s.flags (length body) body s.width

-- The conversion of the character c with the next argument, where c is one that takes an argument.
unfoldable pub convert : ℕ → Spec → Arg → Option (List ℕ)
unfolding convert_number convert_string spaces_around
convert c s (word n) =
    if c == b'c'
    then some (spaces_around s.flags 1 (n % 2 ^ 8 ∷ []) s.width)
    else if c == b's'
    then none
    else if c == b'p'
    then some (
        ntoa_long (n % 2 ^ 64) false 16 s.precision 16
          (bit_or s.flags (flag_zeropad + flag_uppercase)))
    else some (convert_number c s n)
convert c s (text chars) = if c == b's' then some (convert_string s chars) else none

unfoldable pub takes_argument : ℕ → Bool
takes_argument c =
    c == b'd'
    || c == b'i'
    || c == b'u'
    || c == b'x'
    || c == b'X'
    || c == b'o'
    || c == b'b'
    || c == b'c'
    || c == b's'
    || c == b'p'

-- One conversion behind its length: the output, and what is left.
unfoldable pub finish_conversion : Spec → List ℕ → List Arg → Option (List ℕ × List ℕ × List Arg)
unfolding convert takes_argument
finish_conversion s [] args = none
finish_conversion s (c ∷ format) [] = if takes_argument c then none else some (c ∷ [], format, [])
finish_conversion s (c ∷ format) (arg ∷ args) =
    if takes_argument c
    then elim (convert c s arg) [ none ↦ none | some out ↦ some (out, format, args) ]
    else some (c ∷ [], format, arg ∷ args)

-- Everything behind a %
unfoldable pub conversion : List ℕ → List Arg → Option (List ℕ × List ℕ × List Arg)
unfolding parse_flags parse_width parse_precision parse_length finish_conversion
conversion format args =
    let f = parse_flags format 0 in
    elim (parse_width
      (record { format = f.0; args = args; flags = f.1; width = 0; precision = 0 })) [
        | none ↦ none
        | some s ↦ elim (parse_precision s s.format) [
          | none ↦ none
          | some t ↦
              let l = parse_length t.format t.flags in
              finish_conversion (record t { format = l.0; flags = l.1 }) l.0 t.args
        ]
      ]

-- Each round takes a character of the format or more.
unfoldable pub format_loop : ℕ → List ℕ → List Arg → Option (List ℕ)
unfolding conversion
format_loop zero format args = none
format_loop (suc fuel) [] args = some (0 ∷ [])
format_loop (suc fuel) (c ∷ format) args =
    let plain = format_loop fuel format args in
    if c == 0x25
    then elim (conversion format args) [
      | none ↦ none
      | some (out, rest, left) ↦ Option.map (λ tail. out ++ tail) (format_loop fuel rest left)
    ]
    else Option.map (λ tail. c ∷ tail) plain

unfoldable pub vsnprintf_internal : List ℕ → List Arg → Option (List ℕ)
unfolding format_loop
vsnprintf_internal format args = format_loop (length format + 1) format args
