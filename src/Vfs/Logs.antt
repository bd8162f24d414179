-- ===== src/Vfs/Logs.antt =====
-- What devfs_log_write prints.
use new_wiv_os.Base.{
  ℕ, ◌<◌, ◌^◌, ◌%◌, ◌++◌, ◌-◌, length, take, ◌≡◌, refl, arith, leb, lt→leb_false, false, some, List,
  [], ◌∷◌,
}
use new_wiv_os.Base.Run.{ok}
use new_wiv_os.Print.Format.{
  word, text, vsnprintf_internal, format_loop, conversion, convert_string, up_to_nul, parse_flags,
  flag_of, parse_width, parse_precision, parse_precision_value, next_int, parse_length,
  finish_conversion, takes_argument, convert, spaces_around,
}
use new_wiv_os.Strings.Text.{isdigit}
use new_wiv_os.Print.{has}
use new_wiv_os.Vfs.Nodes.{Store}
use new_wiv_os.Vfs.Devices.{log_format, devfs_log_write}

log_conversion :
    (bytes : List ℕ) (size : ℕ)
    → size < 2 ^ 31
    → conversion (b'.' ∷ 0x2A ∷ b's' ∷ []) (word size ∷ text bytes ∷ [])
      ≡ some (take size (up_to_nul bytes), [], [])
unfolding conversion parse_flags flag_of parse_width parse_precision parse_precision_value next_int
    parse_length finish_conversion takes_argument convert convert_string spaces_around isdigit has
log_conversion bytes size small =
    let same : size % 2 ^ 32 ≡ size = omega arith in
    let positive : leb (2 ^ 31) size ≡ false = lt→leb_false (2 ^ 31) size small in
    let none_left : 0 - length (take size (up_to_nul bytes)) ≡ 0 = omega arith in
    rw (same, positive, none_left) refl

-- The format of the log prints at most `size` bytes, up to a NUL, and the NUL that ends the call.
log_format-take :
    (bytes : List ℕ) (size : ℕ)
    → size < 2 ^ 31
    → vsnprintf_internal log_format (word size ∷ text bytes ∷ [])
      ≡ some (take size (up_to_nul bytes) ++ 0 ∷ [])
unfolding vsnprintf_internal format_loop
log_format-take bytes size small = rw (log_conversion bytes size small) refl

-- What devfs_log_write prints, and its answer.
pub devfs_log_write_lem :
    (node : ℕ) (bytes : List ℕ) (size : ℕ) (s : Store)
    → size < 2 ^ 31
    → devfs_log_write node bytes size s
      ≡ ok size (record s { printed = s.printed ++ (take size (up_to_nul bytes) ++ 0 ∷ []) })
unfolding devfs_log_write
devfs_log_write_lem node bytes size s small =
    rw (devfs_log_write, log_format-take bytes size small) refl
