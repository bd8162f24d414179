-- ===== src/Print/Calls.antt =====
-- The calls of kernel/utils/system.c that print: sprintf into a buffer, printf and printf_scheduler to
-- the serial port of kernel/arch/riscv64/common.c, whose ready bit is set sooner or later. A run hangs
-- where the lock of the call is held for good, and faults where the format is read behind its end.
use new_wiv_os.Base.{
  lt→leb_false, ℕ, ◌+◌, ◌%◌, ◌^◌, ◌<◌, ◌≡◌, refl, ◌∙◌, arith, Bool, true, false, if◌then◌else◌,
  ◌==◌, none, some, List, [], ◌∷◌, ◌++◌, length,
}
use new_wiv_os.Base.Run.{ok, fault, hang, Cmd, Returns}
use new_wiv_os.Print.{Sink, printf_write_char_str}
use new_wiv_os.Print.Format.{Arg, signed_value, vsnprintf_internal}

-- PrintLock, PrintLock2, and what the serial port was sent.
pub record Printer : Type 0 where
  pub locked : Bool
  pub locked2 : Bool
  pub sent : List ℕ

-- The characters of a call, written one after the other.
unfoldable pub write_all : List ℕ → Sink → Sink
unfolding printf_write_char_str
write_all [] func = func
write_all (c ∷ cs) func = write_all cs (printf_write_char_str c func)

-- sprintf into a buffer, NULL or not, of the given bytes: the bytes after it and the answer, an
-- int as its sign and magnitude.
unfoldable pub sprintf : Bool → (ℕ → ℕ) → List ℕ → List Arg → Cmd Printer ((ℕ → ℕ) × (Bool × ℕ))
unfolding write_all vsnprintf_internal
sprintf has_data bytes format args p =
    if p.locked then hang else elim (vsnprintf_internal format args) [
      | none ↦ fault
      | some out ↦
          let func =
            write_all out (record { has_data = has_data; bytes = bytes; current = 0; size = 0 }) in
          ok (func.bytes, signed_value 32 func.current) p
    ]

-- arch_debug_printf_function for a writer of size 0 sends the character and counts it.
unfoldable pub send_all : List ℕ → Printer → (Bool × ℕ) × Printer
send_all out p = (signed_value 32 (length out % 2 ^ 64), record p { sent = p.sent ++ out })

unfoldable pub printf : List ℕ → List Arg → Cmd Printer (Bool × ℕ)
unfolding send_all vsnprintf_internal
printf format args p = if p.locked then hang else elim (vsnprintf_internal format args) [
  | none ↦ fault
  | some out ↦ let (n, p') = send_all out p in ok n p'
]

unfoldable pub printf_scheduler : List ℕ → List Arg → Cmd Printer (Bool × ℕ)
unfolding send_all vsnprintf_internal
printf_scheduler format args p = if p.locked2 then hang else elim (vsnprintf_internal format args) [
  | none ↦ fault
  | some out ↦ let (n, p') = send_all out p in ok n p'
]

-- A character of a text, or what stood there.
abbrev pub char_at : List ℕ → ℕ → (ℕ → ℕ) → ℕ → ℕ
char_at [] start bytes i = bytes i
char_at (c ∷ cs) start bytes i = if i == start then c else char_at cs (start + 1) bytes i

char_at-written :
    (cs : List ℕ) (start p c : ℕ) (bytes : ℕ → ℕ) (i : ℕ)
    → p < start
    → char_at cs start (λ j. if j == p then c else bytes j) i
      ≡ (if i == p then c else char_at cs start bytes i)
char_at-written [] start p c bytes i lt = refl
char_at-written (d ∷ cs) start p c bytes i lt =
    ground (arith, char_at-written cs (start + 1) p c bytes i (omega arith))

-- The writer after one character.
abbrev written : ℕ → Sink → Sink
written c func = record func {
  bytes = λ i. if i == func.current then c else func.bytes i;
  current = func.current + 1;
}

write-written :
    (c : ℕ) (func : Sink)
    → func.has_data ≡ true
    → func.size ≡ 0
    → func.current + 1 < 2 ^ 64
    → printf_write_char_str c func ≡ written c func
unfolding printf_write_char_str
write-written c func buffer unsized fits = ground arith

write_all-chars :
    (cs : List ℕ) (func : Sink)
    → func.has_data ≡ true
    → func.size ≡ 0
    → func.current + length cs < 2 ^ 64
    → ((write_all cs func).current ≡ func.current + length cs)
      × ((i : ℕ) → (write_all cs func).bytes i ≡ char_at cs func.current func.bytes i)
unfolding write_all
write_all-chars [] func buffer unsized fits = (omega arith, λ i. refl)
write_all-chars (c ∷ cs) func buffer unsized fits =
    let rest = write_all-chars cs (written c func) buffer unsized (omega arith) in
    rw (write_all, write-written c func buffer unsized (omega arith))
      (
        rest.0 ∙ omega arith,
        λ i.
            rest.1 i
            ∙ char_at-written cs (func.current + 1) func.current c func.bytes i (omega arith),
      )

small_signed : (n : ℕ) → n < 2 ^ 31 → signed_value 32 (0 + n) ≡ (false, n)
small_signed n small =
    let same : (0 + n) % 2 ^ 32 ≡ n = omega arith in rw (same, lt→leb_false (2 ^ 31) n small) refl

-- Where PrintLock is free and a format gives fewer than 2 ^ 31 characters `out`, sprintf into a buffer
-- writes them from its start, the NUL at their end included, leaves the other bytes, and answers
-- their number.
pub sprintf_lem :
    (bytes : ℕ → ℕ) (format : List ℕ) (args : List Arg) (out : List ℕ) (p : Printer)
    → vsnprintf_internal format args ≡ some out
    → length out < 2 ^ 31
    → p.locked ≡ false
    → Returns
        (sprintf true bytes format args p)
        λ r q. ((i : ℕ) → r.0 i ≡ char_at out 0 bytes i) × (r.1 ≡ (false, length out)) × (q ≡ p)
unfolding sprintf
sprintf_lem bytes format args out p gives short free =
    let func : Sink = record { has_data = true; bytes = bytes; current = 0; size = 0 } in
    let (counted, chars) = write_all-chars out func refl refl (omega arith) in
    let answer : signed_value 32 (write_all out func).current ≡ (false, length out) =
      rw counted (small_signed (length out) short) in
    rw (free, gives) (chars, answer, ground (arith, free))
