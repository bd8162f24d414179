-- ===== src/Base/Bits.antt =====
-- Bits of machine words: the C operators on unsigned words at variables. `bit w k` is bit `k`.
use Prim.Native.Nat.{
  ℕ, zero, suc, ◌+◌, ◌-◌, ◌*◌, ◌/◌, ◌%◌, ◌^◌, ◌≤◌, ◌<◌, min, max, bit_and, bit_or, bit_xor, digits,
  differ, bit_and-bitwise, bit_or-bitwise, bit_xor-bitwise,
}
use mathlib.Core.Path.{◌≡◌, refl, ◌∙◌, ap, sym}
use native.Mathlib.Omega.{arith}
use native.Mathlib.Nat.{
  pow-suc, pow-succ', div-div-eq-div-mul, mod-eq-sub-mul-div, div-add-mod, one-le-pow,
  pow-le-pow_right,
}
use new_wiv_os.Base.Tests.{◌==◌, if◌then◌else◌}

abbrev pub shl : ℕ → ℕ → ℕ
shl x k = x * 2 ^ k

abbrev pub shr : ℕ → ℕ → ℕ
shr x k = x / 2 ^ k

unfoldable pub bit : ℕ → ℕ → ℕ
bit w zero = w % 2
bit w (suc k) = bit (w / 2) k

pub bit-le_one : (w k : ℕ) → bit w k ≤ 1
unfolding bit
bit-le_one w zero = omega arith
bit-le_one w (suc k) = bit-le_one (w / 2) k

-- A digit-wise operation: `op` on the low digits, `end` on what is left of the second word where
-- the first one has run out.
module _ (end : ℕ → ℕ) (op : ℕ → ℕ → ℕ) where
  -- Rounds beyond the first word's value change nothing.
  rounds_do : (x y : ℕ) (n m : ℕ) → x ≤ n → x ≤ m → digits end op n x y ≡ digits end op m x y
  rounds_do zero y zero zero low low' = refl
  rounds_do zero y zero (suc m) low low' = refl
  rounds_do zero y (suc n) zero low low' = refl
  rounds_do zero y (suc n) (suc m) low low' = refl
  rounds_do (suc x) y (suc n) (suc m) low low' =
      let rest = rounds_do (suc x / 2) (y / 2) n m (omega arith) (omega arith) in rw rest refl
  rounds_do (suc x) y zero m low low' = absurd (omega (arith, low))
  rounds_do (suc x) y n zero low low' = absurd (omega (arith, low'))

  -- The low digit can be taken off once.
  low_digit :
      (x y : ℕ)
      → digits end op (suc x) (suc x) y
        ≡ digits end op (suc x / 2) (suc x / 2) (y / 2) * 2 + op (suc x % 2) (y % 2)
  low_digit x y = rw (rounds_do (suc x / 2) (y / 2) x (suc x / 2) (omega arith) (omega arith)) refl

pub bit_and_step : (a b : ℕ) → bit_and a b ≡ bit_and (a / 2) (b / 2) * 2 + min (a % 2) (b % 2)
bit_and_step zero y = omega (arith, bit_and-bitwise 0 y, bit_and-bitwise 0 (y / 2))
bit_and_step (suc x) y =
    bit_and-bitwise (suc x) y
    ∙ low_digit (λ _. 0) min x y
    ∙ rw (bit_and-bitwise (suc x / 2) (y / 2)) refl

pub bit_or_step : (a b : ℕ) → bit_or a b ≡ bit_or (a / 2) (b / 2) * 2 + max (a % 2) (b % 2)
bit_or_step zero y = omega (arith, bit_or-bitwise 0 y, bit_or-bitwise 0 (y / 2))
bit_or_step (suc x) y =
    bit_or-bitwise (suc x) y
    ∙ low_digit (λ y. y) max x y
    ∙ rw (bit_or-bitwise (suc x / 2) (y / 2)) refl

pub bit_xor_step : (a b : ℕ) → bit_xor a b ≡ bit_xor (a / 2) (b / 2) * 2 + differ (a % 2) (b % 2)
bit_xor_step zero y = omega (arith, bit_xor-bitwise 0 y, bit_xor-bitwise 0 (y / 2))
bit_xor_step (suc x) y =
    bit_xor-bitwise (suc x) y
    ∙ low_digit (λ y. y) differ x y
    ∙ rw (bit_xor-bitwise (suc x / 2) (y / 2)) refl

-- Nothing is left of a word under an empty mask.
pub bit_and-zero : (a : ℕ) → bit_and a 0 ≡ 0
bit_and-zero a = by_size a a (omega arith)
  where
    by_size : (size a : ℕ) → a ≤ size → bit_and a 0 ≡ 0
    by_size size zero small = refl
    by_size (suc size) (suc a) small =
        let rest = by_size size (suc a / 2) (omega arith) in
        omega (arith, bit_and_step (suc a) 0, rest)
    by_size zero (suc a) small = absurd (omega arith)

-- The bits of a conjunction and of a disjunction.
pub bit-bit_and : (a b k : ℕ) → bit (bit_and a b) k ≡ min (bit a k) (bit b k)
unfolding bit
bit-bit_and a b zero = omega (arith, bit_and_step a b)
bit-bit_and a b (suc k) =
    let half : bit_and a b / 2 ≡ bit_and (a / 2) (b / 2) = omega (arith, bit_and_step a b) in
    rw half (bit-bit_and (a / 2) (b / 2) k)

pub bit-bit_or : (a b k : ℕ) → bit (bit_or a b) k ≡ max (bit a k) (bit b k)
unfolding bit
bit-bit_or a b zero = omega (arith, bit_or_step a b)
bit-bit_or a b (suc k) =
    let half : bit_or a b / 2 ≡ bit_or (a / 2) (b / 2) = omega (arith, bit_or_step a b) in
    rw half (bit-bit_or (a / 2) (b / 2) k)

pub bit-zero : (k : ℕ) → bit 0 k ≡ 0
unfolding bit
bit-zero zero = refl
bit-zero (suc k) = bit-zero k

-- `1 << k` has bit k and no other.
pub bit-pow : (k j : ℕ) → bit (2 ^ k) j ≡ (if k == j then 1 else 0)
unfolding bit
bit-pow zero zero = refl
bit-pow zero (suc j) = rw (bit-zero j) (ground arith)
bit-pow (suc k) zero = ground (arith, pow-suc 2 k)
bit-pow (suc k) (suc j) =
    let half : 2 ^ suc k / 2 ≡ 2 ^ k = omega (arith, pow-suc 2 k) in
    rw half (ground (arith, bit-pow k j))

-- `w & (1 << k)` is that bit in its place.
pub bit_and-pow : (w k : ℕ) → bit_and w (2 ^ k) ≡ bit w k * 2 ^ k
unfolding bit
bit_and-pow w zero = omega (arith, bit_and_step w 1, bit_and-zero (w / 2))
bit_and-pow w (suc k) =
    let half : 2 ^ suc k / 2 ≡ 2 ^ k = omega (arith, pow-suc 2 k) in
    let low : 2 ^ suc k % 2 ≡ 0 = omega (arith, pow-suc 2 k) in
    let split : bit_and w (2 ^ suc k) ≡ bit_and (w / 2) (2 ^ k) * 2 =
      bit_and_step w (2 ^ suc k) ∙ rw (half, low) (omega arith) in
    rw (split, bit_and-pow (w / 2) k, pow-suc 2 k) (omega arith)

-- A bit of a w-bit word is below its range.
pub pow-lt : (k n : ℕ) → k < n → 2 ^ k < 2 ^ n
pow-lt k n h =
    let le : 2 ^ suc k ≤ 2 ^ n = pow-le-pow_right {n = 2} (omega arith) {j = n} (omega arith) in
    omega (arith, le, pow-suc 2 k, one-le-pow k 2 (omega arith))

-- The complement of a w-bit word flips the bits below w.
pub bit-complement : (n w k : ℕ) → w < 2 ^ n → k < n → bit (2 ^ n - 1 - w) k ≡ 1 - bit w k
unfolding bit
bit-complement zero w k lt h = absurd (omega arith)
bit-complement (suc n) w zero lt h = omega (arith, pow-suc 2 n)
bit-complement (suc n) w (suc k) lt h =
    let half : (2 ^ suc n - 1 - w) / 2 ≡ 2 ^ n - 1 - w / 2 = omega (arith, pow-suc 2 n) in
    rw half (bit-complement n (w / 2) k (omega (arith, pow-suc 2 n)) (omega arith))

-- A field of bits shifted left by s: `w & (m << s)`.
pub bit_and-shl : (w m s : ℕ) → bit_and w (shl m s) ≡ shl (bit_and (shr w s) m) s
bit_and-shl w m zero = rw (one m, one (bit_and (w / 1) m), one' w) refl
  where
    one : (x : ℕ) → x * 1 ≡ x
    one x = omega arith

    one' : (x : ℕ) → x / 1 ≡ x
    one' x = omega arith
bit_and-shl w m (suc s) =
    let half : m * 2 ^ suc s / 2 ≡ m * 2 ^ s = rw (pow-suc 2 s) (halve m (2 ^ s)) in
    let low : m * 2 ^ suc s % 2 ≡ 0 = rw (pow-suc 2 s) (even m (2 ^ s)) in
    let sh : w / 2 / 2 ^ s ≡ w / 2 ^ suc s =
      div-div-eq-div-mul w 2 (2 ^ s) ∙ ap (λ d. w / d) (sym (pow-succ' 2 s)) in
    bit_and_step w (m * 2 ^ suc s)
    ∙ rw (half, low, bit_and-shl (w / 2) m s, sh, pow-suc 2 s) (omega arith)
  where
    halve : (m p : ℕ) → m * (p * 2) / 2 ≡ m * p
    halve m p = omega arith

    even : (m p : ℕ) → m * (p * 2) % 2 ≡ 0
    even m p = omega arith

mod-double : (a p : ℕ) → 0 < p → a % (p * 2) ≡ a / 2 % p * 2 + a % 2
mod-double a p h =
    let q : a / (2 * p) ≡ a / 2 / p = sym (div-div-eq-div-mul a 2 p) in
    let comm : p * 2 ≡ 2 * p = omega arith in
    rw (comm, mod-eq-sub-mul-div a (2 * p), q) (omega (arith, div-add-mod (a / 2) p))

-- `w & (2 ^ n - 1)` is the remainder.
pub bit_and-mask : (a n : ℕ) → bit_and a (2 ^ n - 1) ≡ a % 2 ^ n
bit_and-mask a zero = omega (arith, bit_and-zero a)
bit_and-mask a (suc n) =
    let pos : 1 ≤ 2 ^ n = one-le-pow n 2 (omega arith) in
    let half : (2 ^ suc n - 1) / 2 ≡ 2 ^ n - 1 = rw (pow-suc 2 n) (omega arith) in
    let low : (2 ^ suc n - 1) % 2 ≡ 1 = rw (pow-suc 2 n) (omega arith) in
    bit_and_step a (2 ^ suc n - 1)
    ∙ rw (half, low, bit_and-mask (a / 2) n, pow-suc 2 n, mod-double a (2 ^ n) pos) (omega arith)
