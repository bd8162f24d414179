-- ===== src/Strings/Copies.antt =====
-- memcpy64 and strcpy of kernel/utils/string.c.
use mathlib.Core.Option
use new_wiv_os.Base.{
  ℕ, zero, suc, ◌+◌, ◌-◌, ◌*◌, ◌/◌, ◌≤◌, ◌≡◌, arith, ◌&&◌, if◌then◌else◌, leb, ltb, Option, List,
  ◌⊎◌, inl, inr,
}
use new_wiv_os.Strings.Memory.{Memory, memcpy}
use new_wiv_os.Strings.Text.{strlen}

-- One 64-bit word
unfoldable pub copy_word : ℕ → ℕ → Memory → Memory
copy_word d s m = λ a. if leb d a && ltb a (d + 8) then m (s + (a - d)) else m a

-- pdest[i] = psrc[i] for the given number of rounds from i on
unfoldable pub copy_words : ℕ → ℕ → ℕ → ℕ → Memory → Memory
unfolding copy_word
copy_words zero i d s m = m
copy_words (suc r) i d s m = copy_words r (i + 1) d s (copy_word (d + 8 * i) (s + 8 * i) m)

unfoldable pub memcpy64 : Memory → ℕ → ℕ → ℕ → Memory
unfolding copy_words
memcpy64 m dest src n = copy_words (n / 8) 0 dest src m

-- `text` is the object that s points to.
unfoldable pub strcpy : Memory → ℕ → ℕ → List ℕ → Option Memory
unfolding strlen memcpy
strcpy m d s text = Option.map (λ n. memcpy m d s (n + 1)) (strlen text)

words_apart :
    (r i d s : ℕ)
    → (d + 8 * (i + suc r) ≤ s) ⊎ (s + 8 * (i + suc r) ≤ d)
    → (d + 8 * (i + 1 + r) ≤ s) ⊎ (s + 8 * (i + 1 + r) ≤ d)
words_apart r i d s (inl h) = inl (omega (arith, h))
words_apart r i d s (inr h) = inr (omega (arith, h))

copy_words_lem :
    (r i d s : ℕ) (m : Memory) (a : ℕ)
    → (d + 8 * (i + r) ≤ s) ⊎ (s + 8 * (i + r) ≤ d)
    → copy_words r i d s m a
      ≡ (if leb (d + 8 * i) a && ltb a (d + 8 * (i + r)) then m (s + (a - d)) else m a)
unfolding copy_words copy_word
copy_words_lem zero i d s m a apart = ground arith
copy_words_lem (suc r) i d s m a apart = ground (
  arith,
  copy_words_lem r (i + 1) d s (copy_word (d + 8 * i) (s + 8 * i) m) a (words_apart r i d s apart),
)

-- Between two blocks that do not overlap, memcpy64 copies the whole words of n bytes, and leaves
-- the rest of the destination and everything else as it was.
pub memcpy64_lem :
    (m : Memory) (d s n a : ℕ)
    → (d + n ≤ s) ⊎ (s + n ≤ d)
    → memcpy64 m d s n a ≡ (if leb d a && ltb a (d + n / 8 * 8) then m (s + (a - d)) else m a)
unfolding memcpy64
memcpy64_lem m d s n a apart =
    ground (arith, copy_words_lem (n / 8) 0 d s m a (whole_words d s n apart))
  where
    whole_words :
        (d s n : ℕ)
        → (d + n ≤ s) ⊎ (s + n ≤ d)
        → (d + 8 * (0 + n / 8) ≤ s) ⊎ (s + 8 * (0 + n / 8) ≤ d)
    whole_words d s n (inl h) = inl (omega (arith, h))
    whole_words d s n (inr h) = inr (omega (arith, h))
