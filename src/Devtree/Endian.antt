-- ===== src/Devtree/Endian.antt =====
-- The byte order conversions of kernel/utils/utils.c, on a little-endian machine.
use new_wiv_os.Base.{
  ℕ, zero, suc, ◌+◌, ◌*◌, ◌/◌, ◌%◌, ◌^◌, ◌≤◌, ◌<◌, bit_and, bit_or, ◌≡◌, refl, ◌∙◌, arith,
}
use new_wiv_os.Base.Bits.{shl, shr, bit_or_step, bit_and-shl, bit_and-mask}
use native.Mathlib.Nat.{pow-suc}

unfoldable pub be32 : ℕ → ℕ
be32 input =
    bit_or
      (bit_or
        (bit_or (shl (bit_and input 0xFF) 24 % 2 ^ 32) (shl (bit_and input 0xFF00) 8 % 2 ^ 32))
        (shr (bit_and input 0xFF0000) 8))
      (shr (bit_and input 0xFF000000) 24)

-- One byte of be64: ((input >> from) & 0xFF) << to
abbrev moved : ℕ → ℕ → ℕ → ℕ
moved input from to = shl (bit_and (shr input from) 0xFF) to % 2 ^ 64

unfoldable pub be64 : ℕ → ℕ
be64 input =
    bit_or
      (bit_or
        (bit_or
          (bit_or
            (bit_or (bit_or (bit_or (moved input 0 56) (moved input 8 48)) (moved input 16 40))
              (moved input 24 32))
            (moved input 32 24))
          (moved input 40 16))
        (moved input 48 8))
      (moved input 56 0)

pub bit_or-zero : (a : ℕ) → bit_or a 0 ≡ a
bit_or-zero a = by_size a a (omega arith)
  where
    by_size : (size a : ℕ) → a ≤ size → bit_or a 0 ≡ a
    by_size size zero small = refl
    by_size (suc size) (suc a) small =
        let rest = by_size size (suc a / 2) (omega arith) in
        omega (arith, bit_or_step (suc a) 0, rest)
    by_size zero (suc a) small = absurd (omega arith)

-- Words without a common bit are added by `|`.
pub bit_or-high : (k a b : ℕ) → b < 2 ^ k → bit_or (a * 2 ^ k) b ≡ a * 2 ^ k + b
bit_or-high zero a b small =
    let none_left : b ≡ 0 = omega arith in rw none_left (bit_or-zero (a * 1) ∙ omega arith)
bit_or-high (suc k) a b small =
    let half : a * 2 ^ suc k / 2 ≡ a * 2 ^ k = rw (pow-suc 2 k) (halve a (2 ^ k)) in
    let low : a * 2 ^ suc k % 2 ≡ 0 = rw (pow-suc 2 k) (even a (2 ^ k)) in
    bit_or_step (a * 2 ^ suc k) b
    ∙ rw (half, low, bit_or-high k a (b / 2) (omega (arith, pow-suc 2 k)), pow-suc 2 k)
        (omega arith)
  where
    halve : (m p : ℕ) → m * (p * 2) / 2 ≡ m * p
    halve m p = omega arith

    even : (m p : ℕ) → m * (p * 2) % 2 ≡ 0
    even m p = omega arith

-- The word of four bytes, the first one lowest.
abbrev pub word32 : ℕ → ℕ → ℕ → ℕ → ℕ
word32 b0 b1 b2 b3 = b0 + b1 * 2 ^ 8 + b2 * 2 ^ 16 + b3 * 2 ^ 24

-- be32 turns the four bytes of a word round.
pub be32-word32 :
    (b0 b1 b2 b3 : ℕ)
    → b0 < 256
    → b1 < 256
    → b2 < 256
    → b3 < 256
    → be32 (word32 b0 b1 b2 b3) ≡ word32 b3 b2 b1 b0
unfolding be32
be32-word32 b0 b1 b2 b3 h0 h1 h2 h3 =
    let w = word32 b0 b1 b2 b3 in
    let p0 : shl (bit_and w 0xFF) 24 % 2 ^ 32 ≡ b0 * 2 ^ 24 = rw (bit_and-mask w 8) (omega arith) in
    let p1 : shl (bit_and w 0xFF00) 8 % 2 ^ 32 ≡ b1 * 2 ^ 16 =
      rw (bit_and-shl w 0xFF 8, bit_and-mask (shr w 8) 8) (omega arith) in
    let p2 : shr (bit_and w 0xFF0000) 8 ≡ b2 * 2 ^ 8 =
      rw (bit_and-shl w 0xFF 16, bit_and-mask (shr w 16) 8) (omega arith) in
    let p3 : shr (bit_and w 0xFF000000) 24 ≡ b3 =
      rw (bit_and-shl w 0xFF 24, bit_and-mask (shr w 24) 8) (omega arith) in
    let two : b0 * 2 ^ 24 + b1 * 2 ^ 16 ≡ (b0 * 256 + b1) * 2 ^ 16 = omega arith in
    let three : (b0 * 256 + b1) * 2 ^ 16 + b2 * 2 ^ 8 ≡ ((b0 * 256 + b1) * 256 + b2) * 2 ^ 8 =
      omega arith in
    rw
      (
        p0,
        p1,
        p2,
        p3,
        bit_or-high 24 b0 (b1 * 2 ^ 16) (omega arith),
        two,
        bit_or-high 16 (b0 * 256 + b1) (b2 * 2 ^ 8) (omega arith),
        three,
        bit_or-high 8 ((b0 * 256 + b1) * 256 + b2) b3 (omega arith),
      )
      (omega arith)
