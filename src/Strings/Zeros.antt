-- ===== src/Strings/Zeros.antt =====
-- HASZERO of kernel/utils/string.c: eight bytes are tested for a NUL with one subtraction.
use Prim.Native.Nat.{bit_and, bit_xor, differ, bit_and-bitwise}
use native.Mathlib.Nat.{pow-suc, mod-lt, mod-eq_of_lt, mul-add-mod_self_right}
use new_wiv_os.Base.{
  ℕ, zero, suc, ◌+◌, ◌-◌, ◌*◌, ◌/◌, ◌%◌, ◌^◌, ◌≤◌, ◌<◌, ◌≡◌, ◌≢◌, ◌↔◌, refl, sym, ap, ◌∙◌, arith,
  min, ltb, ltb→lt, List, [], ◌∷◌, length, Bool-cases, ◌⊎◌, inl, inr,
}
use new_wiv_os.Base.Digits.{split}
use new_wiv_os.Base.Bits.{bit, bit_and_step, bit_xor_step, bit_and-pow, bit-bit_and}

-- ONES and HIGHS of a word of k bytes; the code has k = sizeof(size_t).
abbrev pub ones : ℕ → ℕ
ones zero = 0
ones (suc k) = 1 + ones k * 256

abbrev pub highs : ℕ → ℕ
highs k = ones k * 128

-- HASZERO(X)
unfoldable pub haszero : ℕ → ℕ → ℕ
haszero k x = bit_and (bit_and ((x + 256 ^ k - ones k) % 256 ^ k) (256 ^ k - 1 - x)) (highs k)

-- The word that stands in k bytes of memory.
abbrev pub word_of : List ℕ → ℕ
word_of [] = 0
word_of (b ∷ bs) = b + word_of bs * 256

abbrev pub Bytes : List ℕ → Type 0
Bytes [] = Unit {0}
Bytes (b ∷ bs) = (b < 256) × Bytes bs

abbrev pub NoZero : List ℕ → Type 0
NoZero [] = Unit {0}
NoZero (b ∷ bs) = (b ≢ 0) × NoZero bs

-- One byte of the test
byte_and :
    (a h b g : ℕ)
    → a < 256
    → b < 256
    → bit_and (a + h * 256) (b + g * 256) ≡ bit_and a b + bit_and h g * 256
byte_and a h b g la lb = split bit_and min bit_and_step refl 8 a h b g la lb

pub byte_xor :
    (a h b g : ℕ)
    → a < 256
    → b < 256
    → bit_xor (a + h * 256) (b + g * 256) ≡ bit_xor a b + bit_xor h g * 256
byte_xor a h b g la lb = split bit_xor differ bit_xor_step refl 8 a h b g la lb

high_bit : (a : ℕ) → a < 256 → bit a 7 ≡ a / 128
unfolding bit
high_bit a la = omega arith

-- A byte that is not NUL has no high bit in (b - 1) & ~b.
byte_test : (b : ℕ) → b < 256 → b ≢ 0 → bit_and (bit_and (b - 1) (255 - b)) 128 ≡ 0
byte_test b lb ne =
    let low : min (bit (b - 1) 7) (bit (255 - b) 7) ≡ 0 =
      omega (arith, high_bit (b - 1) (omega arith), high_bit (255 - b) (omega arith)) in
    bit_and-pow (bit_and (b - 1) (255 - b)) 7 ∙ rw (bit-bit_and (b - 1) (255 - b) 7, low) refl

small_mod : (d m : ℕ) → d < m → d % m ≡ d
small_mod d m lt = mod-eq_of_lt lt

-- The subtraction in a word wraps at most once.
pub difference : (x o d m : ℕ) → d < m → (d + o ≡ x) ⊎ (d + o ≡ x + m) → (x + m - o) % m ≡ d
difference x o d m lt (inl e) =
    let sum : x + m - o ≡ 1 * m + d = omega (arith, e) in
    rw (sum, mul-add-mod_self_right 1 m d) (small_mod d m lt)
difference x o d m lt (inr e) =
    let sum : x + m - o ≡ d = omega (arith, e) in rw sum (small_mod d m lt)

ones-lt : (k : ℕ) → ones k < 256 ^ k
ones-lt zero = omega arith
ones-lt (suc k) = omega (arith, ones-lt k, pow-suc 256 k)

word_of-lt : (bs : List ℕ) → Bytes bs → word_of bs < 256 ^ length bs
word_of-lt [] h = omega arith
word_of-lt (b ∷ bs) h = omega (arith, h.0, word_of-lt bs h.1, pow-suc 256 (length bs))

and_lt : (n a b : ℕ) → a < 2 ^ n → bit_and a b < 2 ^ n
and_lt zero a b h = let z : a ≡ 0 = omega (arith, h) in rw z (omega (arith, bit_and-bitwise 0 b))
and_lt (suc n) a b h =
    omega (
      arith,
      bit_and_step a b,
      pow-suc 2 n,
      and_lt n (a / 2) (b / 2) (omega (arith, h, pow-suc 2 n)),
    )

left_zero : (x : ℕ) → 0 + x ≡ x
left_zero x = omega arith

-- What the subtraction answers
restored_by :
    (y o m : ℕ) → y < m → o < m → ((y + m - o) % m + o ≡ y) ⊎ ((y + m - o) % m + o ≡ y + m)
restored_by y o m ly lo = elim (Bool-cases (ltb y o)) [
  | inl less ↦
      inr (rw (difference y o (y + m - o) m (ground arith) (inr (ground arith))) (ground arith))
  | inr more ↦
      inl (rw (difference y o (y - o) m (ground arith) (inl (ground arith))) (ground arith))
]

-- The two words of the test, with their low bytes apart.
tested :
    (k a d : ℕ)
    → a < 256
    → bit_and (a + d * 256) (highs (suc k)) ≡ bit_and a 128 + bit_and d (highs k) * 256
tested k a d la =
    let mask : highs (suc k) ≡ 128 + highs k * 256 = omega arith in
    rw mask (byte_and a d 128 (highs k) la (omega arith))

-- A byte that is not NUL leaves no borrow: the test goes on in the bytes behind it.
sum :
    (k b y d : ℕ)
    → b < 256
    → b ≢ 0
    → (d + ones k ≡ y) ⊎ (d + ones k ≡ y + 256 ^ k)
    → ((b - 1) + d * 256 + ones (suc k) ≡ b + y * 256)
      ⊎ ((b - 1) + d * 256 + ones (suc k) ≡ b + y * 256 + 256 ^ suc k)
sum k b y d lb ne (inl e) = inl (omega (arith, e, ne))
sum k b y d lb ne (inr e) = inr (omega (arith, e, ne, pow-suc 256 k))

haszero-step :
    (k b y : ℕ) → b < 256 → b ≢ 0 → y < 256 ^ k → haszero (suc k) (b + y * 256) ≡ haszero k y * 256
unfolding haszero
haszero-step k b y lb ne ly =
    let m = 256 ^ k in
    let d = (y + m - ones k) % m in
    let pow = pow-suc 256 k in
    let ld : d < m = mod-lt (y + m - ones k) (omega (arith, ly)) in
    let sums = restored_by y (ones k) m ly (ones-lt k) in
    let less : (b + y * 256 + 256 ^ suc k - ones (suc k)) % 256 ^ suc k ≡ (b - 1) + d * 256 =
      difference (b + y * 256) (ones (suc k)) ((b - 1) + d * 256) (256 ^ suc k)
        (omega (arith, ld, pow, lb, ne)) (sum k b y d lb ne sums) in
    let flip : 256 ^ suc k - 1 - (b + y * 256) ≡ (255 - b) + (m - 1 - y) * 256 =
      omega (arith, pow, ly, lb) in
    rw
      (
        haszero,
        less,
        flip,
        byte_and (b - 1) d (255 - b) (m - 1 - y) (omega (arith, lb)) (omega arith),
        tested k (bit_and (b - 1) (255 - b)) (bit_and d (m - 1 - y))
            (and_lt 8 (b - 1) (255 - b) (omega (arith, lb))),
        byte_test b lb ne,
      )
      (left_zero (haszero k y * 256))

-- A NUL borrows: the low byte of the difference is 255, whatever stands behind.
borrows :
    (k y : ℕ)
    → y < 256 ^ k
    → (h : ℕ) × ((0 + y * 256 + 256 ^ suc k - ones (suc k)) % 256 ^ suc k ≡ 255 + h * 256)
borrows k y ly = elim (Bool-cases (ltb (ones k) y)) [
  | inl less ↦
      let lt = ltb→lt (ones k) y less in
      let h = y - ones k - 1 in
      (
        h,
        difference (0 + y * 256) (ones (suc k)) (255 + h * 256) (256 ^ suc k)
            (omega (arith, lt, ly, pow-suc 256 k)) (inl (omega (arith, lt))),
      )
  | inr more ↦
      let le : y ≤ ones k = ground (arith, more) in
      let h = y + 256 ^ k - ones k - 1 in
      (
        h,
        difference (0 + y * 256) (ones (suc k)) (255 + h * 256) (256 ^ suc k)
            (omega (arith, le, ly, ones-lt k, pow-suc 256 k))
            (inr (omega (arith, le, ones-lt k, pow-suc 256 k))),
      )
]

-- A NUL leaves its own high bit.
haszero-here : (k y : ℕ) → y < 256 ^ k → haszero (suc k) (0 + y * 256) ≢ 0
unfolding haszero
haszero-here k y ly e =
    let m = 256 ^ k in
    let (h, less) = borrows k y ly in
    let flip : 256 ^ suc k - 1 - (0 + y * 256) ≡ 255 + (m - 1 - y) * 256 =
      omega (arith, pow-suc 256 k, ly) in
    let value : haszero (suc k) (0 + y * 256)
        ≡ 128 + bit_and (bit_and h (m - 1 - y)) (highs k) * 256 =
      rw
        (
          haszero,
          less,
          flip,
          byte_and 255 h 255 (m - 1 - y) (omega arith) (omega arith),
          tested k 255 (bit_and h (m - 1 - y)) (omega arith),
        )
        refl in
    omega (arith, e, value)

no_product : (x : ℕ) → x * 256 ≡ 0 → x ≡ 0
no_product x e = omega (arith, e)

-- The word of k bytes passes the test exactly if none of its bytes is NUL.
pub haszero-NoZero : (bs : List ℕ) → Bytes bs → (haszero (length bs) (word_of bs) ≡ 0) ↔ NoZero bs
unfolding haszero
haszero-NoZero [] h = ((λ e. tt), (λ n. refl))
haszero-NoZero (zero ∷ bs) h = (
  (λ e. absurd (haszero-here (length bs) (word_of bs) (word_of-lt bs h.1) e)),
  (λ n. absurd (n.0 refl)),
)
haszero-NoZero (suc b ∷ bs) h =
    let ne : suc b ≢ 0 = omega arith in
    let step = haszero-step (length bs) (suc b) (word_of bs) h.0 ne (word_of-lt bs h.1) in
    let (to, back) = haszero-NoZero bs h.1 in
    (
      (λ e. (ne, to (no_product (haszero (length bs) (word_of bs)) (sym step ∙ e)))),
      (λ n. step ∙ ap (λ x. x * 256) (back n.1)),
    )
