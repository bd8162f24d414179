-- ===== src/Tests/Memory.antt =====
-- Runs of the routines of kernel/utils/string.c on concrete blocks and strings.
use new_wiv_os.Base.{◌%◌, ◌+◌, ◌≡◌, refl, arith, [], ◌∷◌, some}
use new_wiv_os.Strings.Memory.{Memory, memmove, memmove_lem}
use new_wiv_os.Strings.Tokens.{
  set_byte, has_byte, fill, span_loop, strspn, strcspn, strpbrk, cut_token, strtok_r,
}
use new_wiv_os.Strings.Scan.{strchrnul, strchr, align_loop, find_char, strchrnul-find_char}

-- Byte a holds a + 1.
abbrev ramp : Memory
ramp a = a + 1

memmove_lem_example : memmove ramp 6 4 5 8 ≡ 7
memmove_lem_example = memmove_lem ramp 6 4 5 8

strchrnul-find_char_example :
    strchrnul 0x1003 (b'a' ∷ b'b' ∷ 0 ∷ 7 ∷ 7 ∷ []) b'b'
    ≡ find_char (b'b' % 256) (b'a' ∷ b'b' ∷ 0 ∷ 7 ∷ 7 ∷ [])
strchrnul-find_char_example =
    strchrnul-find_char 0x1003 (b'a' ∷ b'b' ∷ 0 ∷ 7 ∷ 7 ∷ []) b'b'
      (omega arith, (omega arith, (omega arith, (omega arith, (omega arith, tt))))) (omega arith)

strchr_runs :
    strchr 0x1003 (b'a' ∷ b'b' ∷ 0 ∷ 7 ∷ 7 ∷ []) b'b' ≡ some (some (b'b' ∷ 0 ∷ 7 ∷ 7 ∷ []))
unfolding strchr strchrnul align_loop
strchr_runs = refl

strtok_r_runs :
    strtok_r 0x1000 (b',' ∷ b'a' ∷ b',' ∷ b'b' ∷ 0 ∷ []) (b',' ∷ b';' ∷ 0 ∷ [])
    ≡ some (record {
      token = some (b'a' ∷ 0 ∷ b'b' ∷ 0 ∷ []);
      save_addr = 0x1003;
      save = b'b' ∷ 0 ∷ [];
    })
unfolding strtok_r strspn cut_token strpbrk strcspn fill set_byte span_loop has_byte
strtok_r_runs = refl
