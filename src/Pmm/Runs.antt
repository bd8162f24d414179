-- ===== src/Pmm/Runs.antt =====
-- The search for a block of free pages.
use new_wiv_os.Base.{
  ℕ, zero, suc, ◌+◌, ◌*◌, ◌%◌, ◌^◌, ◌≤◌, ◌<◌, ltb, ◌≡◌, refl, arith, Bool-cases, inl, inr,
  ℕ_discrete, le→ltb_false,
}
use new_wiv_os.Pmm.{Search, found, exhausted, stuck, search_pages, is_bitmap_page_free}
use new_wiv_os.Pmm.Bitmap.{AllFree, is_free-AllFree}

-- The outcome of the search from multiple `from` of the alignment on.
abbrev pub Outcome : (ℕ → ℕ) → ℕ → ℕ → ℕ → ℕ → Search → Type 0
Outcome bitmap limit count alignment from (found index) =
    (k : ℕ) × (index ≡ k * alignment)
    × (from ≤ k)
    × (index < limit)
    × AllFree bitmap index count
    × ((j : ℕ) → from ≤ j → j < k → ¬ AllFree bitmap (j * alignment) count)
Outcome bitmap limit count alignment from exhausted =
    (j : ℕ) → from ≤ j → j * alignment < limit → ¬ AllFree bitmap (j * alignment) count
Outcome bitmap limit count alignment from stuck = ⊥

mul_le : (i j a : ℕ) → i ≤ j → i * a ≤ j * a
mul_le i j a h = grind arith

le-mul : (k a : ℕ) → 1 ≤ a → k ≤ k * a
le-mul k a h = grind arith

module _ (bitmap : ℕ → ℕ) (limit count alignment : ℕ) (moves : 1 ≤ alignment)
    (no_wrap : limit + alignment + count ≤ 2 ^ 64) where
  beyond_or_here :
      (k i : ℕ)
      → ¬ AllFree bitmap (k * alignment) count
      → k ≤ i
      → (suc k ≤ i → ¬ AllFree bitmap (i * alignment) count)
      → ¬ AllFree bitmap (i * alignment) count
  beyond_or_here k i taken a later = elim (ℕ_discrete i k) [
    | yes at ↦ rw at taken
    | no beyond ↦ later (omega arith)
  ]

  skip :
      (k : ℕ) (r : Search)
      → ¬ AllFree bitmap (k * alignment) count
      → Outcome bitmap limit count alignment (suc k) r
      → Outcome bitmap limit count alignment k r
  skip k (found index) taken (j, e, lo, hi, free, first) =
      (j, e, omega arith, hi, free, λ i a b. beyond_or_here k i taken a (λ c. first i c b))
  skip k exhausted taken later = λ i a b. beyond_or_here k i taken a (λ c. later i c b)
  skip k stuck taken h = h

  at_end : (k : ℕ) → limit ≤ k * alignment → Outcome bitmap limit count alignment k exhausted
  at_end k h j a b free = absurd (omega (arith, mul_le k j alignment a))

  pub search_pages-Outcome :
      (fuel k : ℕ)
      → limit ≤ fuel + k
      → Outcome bitmap limit count alignment k
          (search_pages fuel bitmap limit count alignment (k * alignment))
  unfolding search_pages
  search_pages-Outcome zero k enough =
      let far : limit ≤ k * alignment = omega (arith, le-mul k alignment moves) in
      rw (le→ltb_false (k * alignment) limit far) (at_end k far)
  search_pages-Outcome (suc fuel) k enough = elim (Bool-cases (ltb (k * alignment) limit)) [
    | inr end ↦ rw end (at_end k (ground arith))
    | inl more ↦
        let below : k * alignment < limit = ground arith in
        let next : (k * alignment + alignment) % 2 ^ 64 ≡ suc k * alignment = omega arith in
        let test = is_free-AllFree bitmap (k * alignment) count (omega arith) in
        elim (Bool-cases (is_bitmap_page_free bitmap (k * alignment) count)) [
          | inl free ↦
              rw (more, free)
                ((k, refl, omega arith, below, test.0 free, λ j a b. absurd (omega arith)))
          | inr taken ↦
              rw (more, taken, next)
                (skip k (search_pages fuel bitmap limit count alignment (suc k * alignment))
                  (λ free. cc (test.1 free)) (search_pages-Outcome fuel (suc k) (omega arith)))
        ]
  ]
