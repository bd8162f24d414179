-- ===== src/Print.antt =====
-- The number formatting of kernel/utils/system.c. The output is the list of the characters that
-- func->write gets; `buf` is the digit buffer as a stack, its last character first.
pub mod Numbers
pub mod Format
pub mod Plain
pub mod Calls
use new_wiv_os.Base.{
  ℕ, zero, suc, ◌+◌, ◌-◌, ◌*◌, ◌/◌, ◌%◌, ◌^◌, min, Bool, true, false, not, ◌&&◌, ◌||◌,
  if◌then◌else◌, ltb, leb, ◌==◌, bit_and, Option, none, some, List, [], ◌∷◌, ◌++◌, length,
  replicate,
}

abbrev pub flag_left : ℕ
flag_left = 0x1

abbrev pub flag_plus : ℕ
flag_plus = 0x2

abbrev pub flag_space : ℕ
flag_space = 0x4

abbrev pub flag_hash : ℕ
flag_hash = 0x8

abbrev pub flag_zeropad : ℕ
flag_zeropad = 0x10

abbrev pub flag_precision : ℕ
flag_precision = 0x20

abbrev pub flag_uppercase : ℕ
flag_uppercase = 0x400

-- PRINTF_NTOA_BUFFER_SIZE
abbrev pub buffer_size : ℕ
buffer_size = 32

unfoldable pub has : ℕ → ℕ → Bool
has flags flag = not (bit_and flags flag == 0)

-- _out_rev
unfoldable pub out_rev : List ℕ → ℕ → ℕ → List ℕ
unfolding has
out_rev buf width flags =
    (if not (has flags flag_left) && not (has flags flag_zeropad)
      then replicate (width - length buf) b' '
      else [])
    ++ (buf ++ (if has flags flag_left then replicate (width - length buf) b' ' else []))

-- buf[len++] = c where the buffer has room
unfoldable pub push : ℕ → List ℕ → List ℕ
push c buf = if ltb (length buf) buffer_size then c ∷ buf else buf

-- while(len < target && len < PRINTF_NTOA_BUFFER_SIZE) buf[len++] = '0'
unfoldable pub pad_zeros : ℕ → List ℕ → List ℕ
pad_zeros target buf = replicate (min target buffer_size - length buf) b'0' ++ buf

-- len--
unfoldable pub pop : List ℕ → List ℕ
pop [] = []
pop (c ∷ buf) = buf

-- "pad leading zeros": the buffer, and the width that is left
unfoldable pub leading_zeros : List ℕ → Bool → ℕ → ℕ → ℕ → List ℕ × ℕ
unfolding has pad_zeros
leading_zeros buf negative prec width flags =
    if has flags flag_left
    then (buf, width)
    else let rest =
        if not (width == 0)
          && has flags flag_zeropad
          && (negative || has flags (flag_plus + flag_space))
        then width - 1
        else width in
      let filled = pad_zeros prec buf in
      ((if has flags flag_zeropad then pad_zeros rest filled else filled), rest)

-- "handle hash"
unfoldable pub prefixed : List ℕ → ℕ → ℕ → ℕ → ℕ → List ℕ
unfolding has push pop
prefixed buf base prec width flags =
    if not (has flags flag_hash)
    then buf
    else let len = length buf in
      let shorter =
        if not (has flags flag_precision) && not (len == 0) && (len == prec || len == width)
        then (if not (length (pop buf) == 0) && base == 16 then pop (pop buf) else pop buf)
        else buf in
      let room = ltb (length shorter) buffer_size in
      let marked =
        if base == 16 && not (has flags flag_uppercase) && room
        then b'x' ∷ shorter
        else if base == 16 && has flags flag_uppercase && room
        then b'X' ∷ shorter
        else if base == 2 && room
        then b'b' ∷ shorter
        else shorter in
      push b'0' marked

-- The sign, if the buffer has room for one.
unfoldable pub signed : List ℕ → Bool → ℕ → List ℕ
unfolding has
signed buf negative flags =
    if not (ltb (length buf) buffer_size)
    then buf
    else if negative
    then b'-' ∷ buf
    else if has flags flag_plus
    then b'+' ∷ buf
    else if has flags flag_space
    then b' ' ∷ buf
    else buf

-- _ntoa_format
unfoldable pub ntoa_format : List ℕ → Bool → ℕ → ℕ → ℕ → ℕ → List ℕ
unfolding leading_zeros prefixed signed out_rev
ntoa_format buf negative base prec width flags =
    let padded = leading_zeros buf negative prec width flags in
    out_rev (signed (prefixed padded.0 base prec padded.1 flags) negative flags) padded.1 flags

-- The character of a digit; PRINT_FLAG_UPPERCASE ? 'A' : 'a' is always 'A'.
unfoldable pub digit_char : ℕ → ℕ
digit_char digit = if ltb digit 10 then b'0' + digit else b'A' + digit - 10

-- The digit loop, for the characters that the buffer still has room for.
unfoldable pub digits_loop : ℕ → ℕ → ℕ → List ℕ → List ℕ
unfolding digit_char
digits_loop zero value base buf = buf
digits_loop (suc room) value base buf =
    let rest = digits_loop room (value / base) base (digit_char (value % base) ∷ buf) in
    if value / base == 0 then digit_char (value % base) ∷ buf else rest

-- _ntoa_long and _ntoa_long_long, on 64-bit values
unfoldable pub ntoa_long : ℕ → Bool → ℕ → ℕ → ℕ → ℕ → List ℕ
unfolding digits_loop ntoa_format has
ntoa_long value negative base prec width flags =
    let flags' = if value == 0 then bit_and flags (2 ^ 32 - 1 - flag_hash) else flags in
    ntoa_format
      (if not (has flags' flag_precision) || not (value == 0)
        then digits_loop buffer_size value base []
        else [])
      negative base prec width flags'

-- debug_printf_function_t with a character buffer; `data` is NULL or not.
pub record Sink : Type 0 where
  pub has_data : Bool
  pub bytes : ℕ → ℕ
  pub current : ℕ
  pub size : ℕ

unfoldable pub printf_write_char_str : ℕ → Sink → Sink
printf_write_char_str c func =
    if func.has_data && (func.size == 0 || ltb func.size func.current)
    then record func {
      bytes = λ i. if i == func.current then c else func.bytes i;
      current = (func.current + 1) % 2 ^ 64;
    }
    else func
