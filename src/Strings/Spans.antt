-- ===== src/Strings/Spans.antt =====
-- What strspn and strcspn of kernel/utils/string.c count.
use Prim.Native.Nat.{bit_and-bitwise}
use new_wiv_os.Base.{
  ℕ, zero, suc, ◌*◌, ◌/◌, ◌%◌, ◌^◌, ◌≤◌, ◌≡◌, ◌≢◌, refl, sym, ap, ◌∙◌, arith, max, Bool, true,
  false, not, ◌||◌, if◌then◌else◌, ◌==◌, ==_refl, ==_false, some, List, [], ◌∷◌, bit_and, bit_or,
  Bool-cases, inl, inr, ℕ_discrete,
}
use new_wiv_os.Base.Bits.{bit, bit_and-pow, bit-bit_or, bit-pow, bit-le_one}
use native.Mathlib.Nat.{one-le-pow}
use new_wiv_os.Strings.Text.{buffer, NoNul}
use new_wiv_os.Strings.Tokens.{set_byte, has_byte, fill, span_loop, same_loop, strspn, strcspn}

-- Membership and the longest front of a text that lies in a set, for characters.
abbrev pub member : ℕ → List ℕ → Bool
member b [] = false
member b (c ∷ cs) = c == b || member b cs

abbrev pub front : (ℕ → Bool) → List ℕ → ℕ
front test [] = 0
front test (b ∷ s) = if test b then suc (front test s) else 0

word_bit : (w k : ℕ) → (not (bit_and w (2 ^ k) == 0)) ≡ (bit w k == 1)
word_bit w k =
    rw (bit_and-pow w k) (placed (bit w k) (2 ^ k) (bit-le_one w k) (one-le-pow k 2 (omega arith)))
  where
    placed : (x p : ℕ) → x ≤ 1 → 1 ≤ p → (not (x * p == 0)) ≡ (x == 1)
    placed zero p small pos = let none_left : 0 * p ≡ 0 = omega arith in rw none_left refl
    placed (suc zero) p small pos =
        let once : 1 * p ≡ p = omega arith in rw (once, ==_false p 0 (omega (arith, pos))) refl
    placed (suc (suc x)) p small pos = absurd (omega arith)

-- The bit of x in its word is set, the others stay.
bit-set_byte : (w x b : ℕ) → (bit (bit_or w (2 ^ x)) b == 1) ≡ (x == b || bit w b == 1)
bit-set_byte w x b =
    rw (bit-bit_or w (2 ^ x) b, bit-pow x b) (merged (x == b) (bit w b) (bit-le_one w b))
  where
    merged : (same : Bool) (v : ℕ) → v ≤ 1 → (max v (if same then 1 else 0) == 1) ≡ (same || v == 1)
    merged true v small = ground arith
    merged false v small = ground arith

same_place : (x b : ℕ) → x / 64 ≡ b / 64 → (x % 64 == b % 64) ≡ (x == b)
same_place x b e = ground (arith, e)

has_byte-set_byte :
    (byteset : ℕ → ℕ) (x b : ℕ) → has_byte (set_byte byteset x) b ≡ (x == b || has_byte byteset b)
unfolding has_byte set_byte
has_byte-set_byte byteset x b = elim (ℕ_discrete (x / 64) (b / 64)) [
  | yes e ↦
      rw (has_byte, set_byte, ← e, ==_refl (x / 64), word_bit, word_bit (byteset (x / 64)) (b % 64))
        (bit-set_byte (byteset (x / 64)) (x % 64) (b % 64)
          ∙ ap (λ t. t || bit (byteset (x / 64)) (b % 64) == 1) (same_place x b e))
  | no ne ↦
      let apart : (x == b) ≡ false = ==_false x b (λ q. ne (ap (λ k. k / 64) q)) in
      rw (has_byte, set_byte, ==_false (b / 64) (x / 64) (λ q. ne (sym q)), apart) refl
]

-- The set that fill makes has the bytes of its text, and those that were in it.
fill-member :
    (cs after : List ℕ) (byteset : ℕ → ℕ)
    → NoNul cs
    → (filled : ℕ → ℕ) × (fill byteset (buffer cs after) ≡ some filled)
      × ((b : ℕ) → has_byte filled b ≡ (member b cs || has_byte byteset b))
unfolding fill
fill-member [] after byteset h = (byteset, refl, λ b. refl)
fill-member (c ∷ cs) after byteset h =
    let (filled, runs, has) = fill-member cs after (set_byte byteset c) h.1 in
    (
      filled,
      rw (fill, ==_false c 0 h.0) runs,
      λ b.
          has b
          ∙ rw (has_byte-set_byte byteset c b) (swap (member b cs) (c == b) (has_byte byteset b)),
    )
  where
    swap : (p q r : Bool) → (p || (q || r)) ≡ ((q || p) || r)
    swap p q r = ground arith

span_loop-front :
    (test wanted : ℕ → Bool) (s after : List ℕ)
    → ((b : ℕ) → test b ≡ wanted b)
    → NoNul s
    → span_loop test (buffer s after) ≡ some (front wanted s)
unfolding span_loop
span_loop-front test wanted [] after same h = refl
span_loop-front test wanted (b ∷ s) after same h =
    let ih = span_loop-front test wanted s after same h.1 in
    elim (Bool-cases (wanted b)) [
      | inl in_set ↦ rw (span_loop, ==_false b 0 h.0, same b, in_set, ih) refl
      | inr out ↦ rw (span_loop, ==_false b 0 h.0, same b, out) refl
    ]

same_loop-front :
    (c : ℕ) (s after : List ℕ)
    → c ≢ 0
    → same_loop c (buffer s after) ≡ some (front (λ b. member b (c ∷ [])) s)
unfolding same_loop
same_loop-front c [] after ne = ground arith
same_loop-front c (b ∷ s) after ne = elim (ℕ_discrete c b) [
  | yes e ↦ rw (same_loop, ← e, ==_refl c, same_loop-front c s after ne) refl
  | no apart ↦ rw (same_loop, ==_false b c (λ q. apart (sym q)), ==_false c b apart) refl
]

front-never : (s : List ℕ) → front (λ b. false) s ≡ 0
front-never [] = refl
front-never (b ∷ s) = refl

has_byte-empty : (b : ℕ) → has_byte (λ i. 0) b ≡ false
unfolding has_byte
has_byte-empty b = rw (has_byte, bit_and-bitwise 0 (2 ^ (b % 64))) refl

-- The set that strspn and strcspn test against has the characters of its text and no others.
filled_lem :
    (cs after : List ℕ)
    → NoNul cs
    → (filled : ℕ → ℕ) × (fill (λ i. 0) (buffer cs after) ≡ some filled)
      × ((b : ℕ) → has_byte filled b ≡ member b cs)
filled_lem cs after h =
    let (filled, runs, has) = fill-member cs after (λ i. 0) h in
    (filled, runs, λ b. has b ∙ rw (has_byte-empty b) (without (member b cs)))
  where
    without : (p : Bool) → (p || false) ≡ p
    without p = ground arith

-- strspn of two strings without a NUL inside, whatever stands behind their NULs: the number of
-- characters at the front of the first that occur in the second.
pub strspn-front :
    (s cs after_s after_c : List ℕ)
    → NoNul s
    → NoNul cs
    → strspn (buffer s after_s) (buffer cs after_c) ≡ some (front (λ b. member b cs) s)
unfolding strspn
strspn-front s [] x [] hs hc = ap some (sym (front-never s))
strspn-front s [] x (d ∷ y) hs hc = ap some (sym (front-never s))
strspn-front s (c ∷ []) x y hs hc = rw (strspn, ==_false c 0 hc.0) (same_loop-front c s x hc.0)
strspn-front s (c ∷ d ∷ cs) x y hs hc =
    let (filled, runs, has) = filled_lem (c ∷ d ∷ cs) y hc in
    rw (strspn, ==_false c 0 hc.0, ==_false d 0 hc.1.0, runs)
      (span_loop-front (has_byte filled) (λ b. member b (c ∷ d ∷ cs)) s x has hs)

-- strcspn against two characters or more: the number of characters at the front of the text that
-- do not occur among them.
pub strcspn-front :
    (addr : ℕ) (s : List ℕ) (c d : ℕ) (cs after_s after_c : List ℕ)
    → NoNul s
    → NoNul (c ∷ d ∷ cs)
    → strcspn addr (buffer s after_s) (buffer (c ∷ d ∷ cs) after_c)
      ≡ some (front (λ b. not (member b (c ∷ d ∷ cs))) s)
unfolding strcspn
strcspn-front addr s c d cs x y hs hc =
    let (filled, runs, has) = filled_lem (c ∷ d ∷ cs) y hc in
    rw (strcspn, ==_false c 0 hc.0, ==_false d 0 hc.1.0, runs)
      (span_loop-front (λ b. not (has_byte filled b)) (λ b. not (member b (c ∷ d ∷ cs))) s x
        (λ b. ap not (has b)) hs)
