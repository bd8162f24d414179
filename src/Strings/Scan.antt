-- ===== src/Strings/Scan.antt =====
-- strchrnul of kernel/utils/string.c, which looks at eight bytes at a time, and strchr. A pointer is
-- an address with the list of the bytes from it to the end of its object.
use Prim.Native.Nat.{bit_xor}
use mathlib.Core.Option
use new_wiv_os.Base.{
  ℕ, suc, ◌+◌, ◌*◌, ◌%◌, ◌^◌, ◌<◌, ◌≡◌, ◌↔◌, refl, sym, ap, ◌∙◌, arith, Bool, true, ◌&&◌, ◌||◌,
  if◌then◌else◌, ◌==◌, Option, none, some, List, [], ◌∷◌, ◌++◌, length, ==_false, drop, Bool-cases,
  inl, inr,
}
use new_wiv_os.Strings.Text.{strlen}
use new_wiv_os.Strings.Zeros.{ones, haszero, word_of, Bytes, NoZero, haszero-NoZero}
use new_wiv_os.Strings.Words.{NoByte, haszero-NoByte}

-- for(; *s && *(unsigned char *)s != c; s++); the place where it stops
unfoldable pub find_char : ℕ → List ℕ → Option (List ℕ)
find_char c [] = none
find_char c (b ∷ s) = let rest = find_char c s in if b == 0 || b == c then some (b ∷ s) else rest

-- !HASZERO(*w) && !HASZERO(*w^k)
unfoldable pub goes_on : ℕ → List ℕ → Bool
unfolding haszero
goes_on c w = haszero 8 (word_of w) == 0 && haszero 8 (bit_xor (word_of w) (ones 8 * c)) == 0

-- The loop over words, and the one behind it; an object that ends inside of a word is read past its
-- end.
unfoldable pub word_loop : ℕ → List ℕ → Option (List ℕ)
unfolding goes_on find_char
word_loop c (b0 ∷ b1 ∷ b2 ∷ b3 ∷ b4 ∷ b5 ∷ b6 ∷ b7 ∷ s) =
    let rest = word_loop c s in
    if goes_on c (b0 ∷ b1 ∷ b2 ∷ b3 ∷ b4 ∷ b5 ∷ b6 ∷ b7 ∷ [])
    then rest
    else find_char c (b0 ∷ b1 ∷ b2 ∷ b3 ∷ b4 ∷ b5 ∷ b6 ∷ b7 ∷ s)
word_loop c s = none

-- The loop up to an aligned address, and what comes behind it.
unfoldable pub align_loop : ℕ → ℕ → List ℕ → Option (List ℕ)
unfolding word_loop
align_loop c addr [] = none
align_loop c addr (b ∷ s) =
    let rest = align_loop c ((addr + 1) % 2 ^ 64) s in
    if addr % 8 == 0 then word_loop c (b ∷ s) else if b == 0 || b == c then some (b ∷ s) else rest

unfoldable pub strchrnul : ℕ → List ℕ → ℕ → Option (List ℕ)
unfolding strlen align_loop
strchrnul addr s c =
    if c % 256 == 0 then Option.map (λ n. drop n s) (strlen s) else align_loop (c % 256) addr s

-- NULL is `some none`.
unfoldable pub strchr : ℕ → List ℕ → ℕ → Option (Option (List ℕ))
unfolding strchrnul
strchr addr s c = elim (strchrnul addr s c) [
  | none ↦ none
  | some [] ↦ none
  | some (b ∷ r) ↦ some (if b == c % 256 then some (b ∷ r) else none)
]

-- A word goes on exactly if none of its bytes is NUL or c.
goes_on_iff :
    (c : ℕ) (w : List ℕ)
    → length w ≡ 8
    → c < 256
    → Bytes w
    → (goes_on c w ≡ true) ↔ (NoZero w × NoByte c w)
unfolding goes_on
goes_on_iff c w len lc h =
    let zeros : (haszero 8 (word_of w) ≡ 0) ↔ NoZero w = rw len at (haszero-NoZero w h) in
    let others : (haszero 8 (bit_xor (word_of w) (ones 8 * c)) ≡ 0) ↔ NoByte c w =
      rw len at (haszero-NoByte c w lc h) in
    both (haszero 8 (word_of w)) (haszero 8 (bit_xor (word_of w) (ones 8 * c))) zeros others
  where
    both :
        {P Q : Type 0} (x y : ℕ) → (x ≡ 0) ↔ P → (y ≡ 0) ↔ Q → ((x == 0 && y == 0) ≡ true) ↔ (P × Q)
    both x y p q =
        ((λ e. (p.0 (ground arith), q.0 (ground arith))), (λ h. ground (arith, p.1 h.0, q.1 h.1)))

-- Bytes that are neither NUL nor c are passed over.
find_char-skips :
    (c : ℕ) (w s : List ℕ) → NoZero w → NoByte c w → find_char c (w ++ s) ≡ find_char c s
unfolding find_char
find_char-skips c [] s nz nc = refl
find_char-skips c (b ∷ w) s nz nc =
    rw (find_char, ==_false b 0 nz.0, ==_false b c nc.0) (find_char-skips c w s nz.1 nc.1)

Bytes-apart : (w s : List ℕ) → Bytes (w ++ s) → Bytes w × Bytes s
Bytes-apart [] s h = (tt, h)
Bytes-apart (b ∷ w) s h = let (front, behind) = Bytes-apart w s h.1 in ((h.0, front), behind)

-- The loop over words stops where the loop over bytes does.
word_step :
    (c : ℕ) (b0 b1 b2 b3 b4 b5 b6 b7 : ℕ) (s : List ℕ) (w : List ℕ)
    → w ≡ b0 ∷ b1 ∷ b2 ∷ b3 ∷ b4 ∷ b5 ∷ b6 ∷ b7 ∷ []
    → c < 256
    → Bytes w
    → word_loop c s ≡ find_char c s
    → (if goes_on c w then word_loop c s else find_char c (w ++ s)) ≡ find_char c (w ++ s)
word_step c b0 b1 b2 b3 b4 b5 b6 b7 s w shape lc h ih = elim (Bool-cases (goes_on c w)) [
  | inl passes ↦
      let (nz, nc) = (goes_on_iff c w (ap length shape) lc h).0 passes in
      rw passes (ih ∙ sym (find_char-skips c w s nz nc))
  | inr stops ↦ rw stops refl
]

word_loop-find_char :
    (c : ℕ) (s : List ℕ) → c < 256 → Bytes s → length s % 8 ≡ 0 → word_loop c s ≡ find_char c s
unfolding word_loop find_char
word_loop-find_char c [] lc h e = refl
word_loop-find_char c (b0 ∷ b1 ∷ b2 ∷ b3 ∷ b4 ∷ b5 ∷ b6 ∷ b7 ∷ s) lc h e =
    let w : List ℕ = b0 ∷ b1 ∷ b2 ∷ b3 ∷ b4 ∷ b5 ∷ b6 ∷ b7 ∷ [] in
    let (front, behind) = Bytes-apart w s h in
    word_step c b0 b1 b2 b3 b4 b5 b6 b7 s w refl lc front
      (word_loop-find_char c s lc behind (omega arith))
word_loop-find_char c s lc h e = absurd (omega arith)

align_loop-find_char :
    (c addr : ℕ) (s : List ℕ)
    → c < 256
    → Bytes s
    → (addr + length s) % 8 ≡ 0
    → align_loop c addr s ≡ find_char c s
unfolding align_loop find_char
align_loop-find_char c addr [] lc h e = refl
align_loop-find_char c addr (b ∷ s) lc h e = elim (Bool-cases (addr % 8 == 0)) [
  | inl aligned ↦ rw (align_loop, aligned) (word_loop-find_char c (b ∷ s) lc h (ground arith))
  | inr apart ↦
      let next : (addr + 1) % 2 ^ 64 % 8 ≡ (addr + 1) % 8 = omega arith in
      rw
        (
          align_loop,
          apart,
          align_loop-find_char c ((addr + 1) % 2 ^ 64) s lc h.1 (omega (arith, e)),
        )
        refl
]

-- Searching for the NUL is what strlen does.
find_char-strlen : (s : List ℕ) → Option.map (λ n. drop n s) (strlen s) ≡ find_char 0 s
unfolding find_char strlen
find_char-strlen [] = refl
find_char-strlen (b ∷ s) = elim (Bool-cases (b == 0)) [
  | inl nul ↦ rw nul refl
  | inr other ↦ rw other (sym (map_twice s (strlen s)) ∙ find_char-strlen s)
]
  where
    map_twice :
        (s : List ℕ) (o : Option ℕ)
        → Option.map (λ n. drop n s) o ≡ Option.map (λ n. drop n (b ∷ s)) (Option.map suc o)
    map_twice s none = refl
    map_twice s (some n) = refl

-- In an object that fills whole words, strchrnul stops where a search byte by byte does: at the
-- first byte that is NUL or, as an unsigned char, c, whatever the address and whatever c, NUL too.
pub strchrnul-find_char :
    (addr : ℕ) (s : List ℕ) (c : ℕ)
    → Bytes s
    → (addr + length s) % 8 ≡ 0
    → strchrnul addr s c ≡ find_char (c % 256) s
unfolding strchrnul
strchrnul-find_char addr s c h e = elim (Bool-cases (c % 256 == 0)) [
  | inl nul ↦
      let zero_c : c % 256 ≡ 0 = ground (arith, nul) in
      rw (strchrnul, nul, zero_c) (find_char-strlen s)
  | inr other ↦ rw (strchrnul, other) (align_loop-find_char (c % 256) addr s (omega arith) h e)
]
