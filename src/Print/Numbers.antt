-- ===== src/Print/Numbers.antt =====
-- What the number formatting writes.
use new_wiv_os.Base.{
  ℕ, zero, suc, ◌+◌, ◌-◌, ◌*◌, ◌/◌, ◌%◌, ◌^◌, ◌≤◌, ◌<◌, max, Bool, true, false, not, ◌&&◌,
  if◌then◌else◌, ltb, ◌==◌, List, [], ◌∷◌, ◌++◌, length, replicate, ◌≡◌, ◌≢◌, refl, arith,
  Bool-cases, inl, inr,
}
use native.Mathlib.Nat.{pow-suc, div-add-mod, mod-lt, pow-zero, div-lt_iff_lt-mul}
use new_wiv_os.Print.{
  flag_left, flag_zeropad, has, out_rev, digit_char, digits_loop, Sink, printf_write_char_str,
}

length-append : (xs ys : List ℕ) → length (xs ++ ys) ≡ length xs + length ys
length-append [] ys = omega arith
length-append (x ∷ xs) ys = omega (arith, length-append xs ys)

length-spaces : (n c : ℕ) → length (replicate n c) ≡ n
length-spaces zero c = refl
length-spaces (suc n) c = omega (arith, length-spaces n c)

-- Unless zeros pad the number without a left adjustment, _out_rev writes as many characters as
-- the width asks for, or all of the buffer where that is longer.
pub length-out_rev :
    (buf : List ℕ) (width flags : ℕ)
    → (not (has flags flag_left) && has flags flag_zeropad) ≡ false
    → length (out_rev buf width flags) ≡ max (length buf) width
unfolding out_rev
length-out_rev buf width flags h = by_flags (has flags flag_left) (has flags flag_zeropad) h
  where
    by_flags :
        (l z : Bool)
        → (not l && z) ≡ false
        → length (
            (if not l && not z then replicate (width - length buf) b' ' else [])
            ++ (buf ++ (if l then replicate (width - length buf) b' ' else [])))
          ≡ max (length buf) width
    by_flags true z h = omega (
      arith,
      length-append buf (replicate (width - length buf) b' '),
      length-spaces (width - length buf) b' ',
    )
    by_flags false false h = omega (
      arith,
      length-append (replicate (width - length buf) b' ') (buf ++ []),
      length-append buf [],
      length-spaces (width - length buf) b' ',
    )
    by_flags false true h = absurd (ground arith)

-- The number that a character stands for.
unfoldable pub digit_of : ℕ → ℕ
digit_of c = if ltb c b'A' then c - b'0' else c - b'A' + 10

-- The number that the stack of digits stands for, its first digit with the given weight.
unfoldable pub number : ℕ → List ℕ → ℕ
unfolding digit_of
number base [] = 0
number base (c ∷ buf) = digit_of c * base ^ length buf + number base buf

digit_of-digit_char : (d : ℕ) → d < 16 → digit_of (digit_char d) ≡ d
unfolding digit_of digit_char
digit_of-digit_char d h = ground arith

-- Where the writer of sprintf has a size that is not 0 and its position is at most that size, it
-- takes no character.
pub write_char_sized :
    (c : ℕ) (func : Sink)
    → func.size ≢ 0
    → func.current ≤ func.size
    → printf_write_char_str c func ≡ func
unfolding printf_write_char_str
write_char_sized c func sized inside = ground arith

regroup : (q p b r n : ℕ) → q * (p * b) + (r * p + n) ≡ (b * q + r) * p + n
regroup q p b r n = grind arith

-- For bases from 2 to 16 and values that fit the characters that are left, the digit loop writes
-- the digits of the value in front of the number that the buffer stands for.
pub digits_loop-number :
    (room value base : ℕ) (buf : List ℕ)
    → 2 ≤ base
    → base ≤ 16
    → value < base ^ room
    → number base (digits_loop room value base buf) ≡ value * base ^ length buf + number base buf
unfolding digits_loop number
digits_loop-number zero value base buf low high small =
    let none_left : value ≡ 0 = omega (arith, pow-zero base) in rw none_left (omega arith)
digits_loop-number (suc room) value base buf low high small =
    elim (Bool-cases (value / base == 0)) [
      | inl last ↦
          let whole : value % base ≡ value =
            let zero_part : value / base ≡ 0 = ground (arith, last) in
            omega (arith, rw zero_part at (div-add-mod value base)) in
          rw (
            last,
            whole,
            digit_of-digit_char value (omega (arith, mod-lt value {m = base} (omega arith))),
          )
      | inr more ↦ rw (
        more,
        digits_loop-number room (value / base) base (digit_char (value % base) ∷ buf) low high
            ((div-lt_iff_lt-mul (omega arith)).1 (rw (pow-suc base room) at small)),
        digit_of-digit_char (value % base) (omega (arith, mod-lt value {m = base} (omega arith))),
        pow-suc base (length buf),
        regroup (value / base) (base ^ length buf) base (value % base) (number base buf),
        div-add-mod value base,
      )
    ]
