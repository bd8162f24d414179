-- ===== src/Strings/Words.antt =====
-- HASZERO of kernel/utils/string.c: eight bytes are tested for a NUL with one subtraction.
use Prim.Native.Nat.{bit_xor, differ}
use native.Mathlib.Nat.{pow-suc}
use new_wiv_os.Base.{
  ℕ, zero, suc, ◌+◌, ◌*◌, ◌/◌, ◌%◌, ◌^◌, ◌<◌, ◌≡◌, ◌≢◌, ◌↔◌, refl, sym, ap, ◌∙◌, arith, List, [],
  ◌∷◌, length,
}
use new_wiv_os.Base.Bits.{bit_xor_step}
use new_wiv_os.Strings.Zeros.{ones, haszero, word_of, Bytes, NoZero, byte_xor, haszero-NoZero}

differ_iff : (x y : ℕ) → x < 2 → y < 2 → (differ x y ≡ 0) ↔ (x ≡ y)
differ_iff zero y hx hy = ground arith
differ_iff (suc zero) zero hx hy = ground arith
differ_iff (suc zero) (suc zero) hx hy = ground arith
differ_iff (suc zero) (suc (suc y)) hx hy = absurd (omega arith)
differ_iff (suc (suc x)) y hx hy = absurd (omega arith)

differ-lt : (x y : ℕ) → x < 2 → y < 2 → differ x y < 2
differ-lt zero y hx hy = hy
differ-lt (suc zero) zero hx hy = omega arith
differ-lt (suc zero) (suc zero) hx hy = omega arith
differ-lt (suc zero) (suc (suc y)) hx hy = absurd (omega arith)
differ-lt (suc (suc x)) y hx hy = absurd (omega arith)

-- Two numbers of n digits have an empty difference only if they are equal.
xor_iff : (n a b : ℕ) → a < 2 ^ n → b < 2 ^ n → (bit_xor a b ≡ 0) ↔ (a ≡ b)
xor_iff zero a b la lb =
    let za : a ≡ 0 = omega (arith, la) in
    let zb : b ≡ 0 = omega (arith, lb) in rw (za, zb) ((λ e. refl), (λ e. refl))
xor_iff (suc n) a b la lb =
    let p = pow-suc 2 n in
    let (to, back) = xor_iff n (a / 2) (b / 2) (omega (arith, p, la)) (omega (arith, p, lb)) in
    let (low_to, low_back) = differ_iff (a % 2) (b % 2) (omega arith) (omega arith) in
    let step = bit_xor_step a b in
    (
      (λ e. omega (arith, to (omega (arith, step, e)), low_to (omega (arith, step, e)))),
      (λ e. omega (arith, step, back (omega (arith, e)), low_back (omega (arith, e)))),
    )

xor_lt : (n a b : ℕ) → a < 2 ^ n → b < 2 ^ n → bit_xor a b < 2 ^ n
xor_lt zero a b la lb =
    let za : a ≡ 0 = omega (arith, la) in
    let zb : b ≡ 0 = omega (arith, lb) in rw (za, zb) (omega arith)
xor_lt (suc n) a b la lb =
    let p = pow-suc 2 n in
    omega (
      arith,
      p,
      bit_xor_step a b,
      differ-lt (a % 2) (b % 2) (omega arith) (omega arith),
      xor_lt n (a / 2) (b / 2) (omega (arith, p, la)) (omega (arith, p, lb)),
    )

-- The bytes of w ^ k, where k has the byte c everywhere.
abbrev xored : ℕ → List ℕ → List ℕ
xored c [] = []
xored c (b ∷ bs) = bit_xor b c ∷ xored c bs

length-xored : (c : ℕ) (bs : List ℕ) → length (xored c bs) ≡ length bs
length-xored c [] = refl
length-xored c (b ∷ bs) = ap suc (length-xored c bs)

xored-Bytes : (c : ℕ) (bs : List ℕ) → c < 256 → Bytes bs → Bytes (xored c bs)
xored-Bytes c [] lc h = tt
xored-Bytes c (b ∷ bs) lc h = (xor_lt 8 b c h.0 lc, xored-Bytes c bs lc h.1)

word_of-xored :
    (c : ℕ) (bs : List ℕ)
    → c < 256
    → Bytes bs
    → bit_xor (word_of bs) (ones (length bs) * c) ≡ word_of (xored c bs)
word_of-xored c [] lc h = let none_left : 0 * c ≡ 0 = omega arith in rw none_left refl
word_of-xored c (b ∷ bs) lc h =
    let spread : ones (suc (length bs)) * c ≡ c + ones (length bs) * c * 256 =
      spread_over (ones (length bs)) c in
    rw (spread, byte_xor b (word_of bs) c (ones (length bs) * c) h.0 lc, word_of-xored c bs lc h.1)
      refl
  where
    spread_over : (o c : ℕ) → (1 + o * 256) * c ≡ c + o * c * 256
    spread_over o c = omega arith

-- None of the bytes is c.
abbrev pub NoByte : ℕ → List ℕ → Type 0
NoByte c [] = Unit {0}
NoByte c (b ∷ bs) = (b ≢ c) × NoByte c bs

NoByte-xored : (c : ℕ) (bs : List ℕ) → c < 256 → Bytes bs → NoZero (xored c bs) ↔ NoByte c bs
NoByte-xored c [] lc h = ((λ n. tt), (λ n. tt))
NoByte-xored c (b ∷ bs) lc h =
    let (to, back) = NoByte-xored c bs lc h.1 in
    let (eq_to, eq_back) = xor_iff 8 b c h.0 lc in
    ((λ n. ((λ e. n.0 (eq_back e)), to n.1)), (λ n. ((λ e. n.0 (eq_to e)), back n.1)))

-- The word of k bytes with c taken off by ^ passes the test exactly if none of its bytes is c.
pub haszero-NoByte :
    (c : ℕ) (bs : List ℕ)
    → c < 256
    → Bytes bs
    → (haszero (length bs) (bit_xor (word_of bs) (ones (length bs) * c)) ≡ 0) ↔ NoByte c bs
haszero-NoByte c bs lc h =
    let bytes = xored c bs in
    let (to, back) = haszero-NoZero bytes (xored-Bytes c bs lc h) in
    let (there, again) = NoByte-xored c bs lc h in
    let same : haszero (length bs) (bit_xor (word_of bs) (ones (length bs) * c))
        ≡ haszero (length bytes) (word_of bytes) =
      rw (word_of-xored c bs lc h, length-xored c bs) refl in
    ((λ e. there (to (sym same ∙ e))), (λ n. same ∙ back (again n)))
