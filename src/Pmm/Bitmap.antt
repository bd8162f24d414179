-- ===== src/Pmm/Bitmap.antt =====
-- The bitmap of kernel/mem/pmm.c: what the bit macros and the two bit loops do to each page.
use new_wiv_os.Base.{
  ℕ, zero, suc, ◌+◌, ◌-◌, ◌*◌, ◌/◌, ◌%◌, ◌^◌, ◌≤◌, ◌<◌, Bool, true, false, not, if◌then◌else◌, ltb,
  leb, ◌==◌, bit_and, bit_or, ◌≡◌, refl, arith, ◌&&◌, ◌↔◌, Bool-cases, inl, inr,
}
use new_wiv_os.Base.Bits.{
  bit, bit-bit_and, bit-bit_or, bit-pow, bit_and-pow, bit-complement, bit_and-mask, bit-le_one,
}
use new_wiv_os.Pmm.{test_bit, set_bit, reset_bit, is_bitmap_page_free, set_pages, reset_pages}
use native.Mathlib.Nat.{one-le-pow, pow-le-pow_right}

-- A page is used if its bit is set.
unfoldable pub used : (ℕ → ℕ) → ℕ → Bool
used bitmap page = bit (bitmap (page / 32)) (page % 32) == 1

bit_and_31 : (pos : ℕ) → bit_and pos 0x1F ≡ pos % 32
bit_and_31 pos = bit_and-mask pos 5

test_word : (w k : ℕ) → not (bit_and w (1 * 2 ^ k) == 0) ≡ (bit w k == 1)
test_word w k =
    let one : 1 * 2 ^ k ≡ 2 ^ k = omega arith in
    rw (one, bit_and-pow w k)
      (by_bit (bit w k) (2 ^ k) (bit-le_one w k) (one-le-pow k 2 (omega arith)))
  where
    by_bit : (b p : ℕ) → b ≤ 1 → 1 ≤ p → not (b * p == 0) ≡ (b == 1)
    by_bit zero p h pos = ground arith
    by_bit (suc zero) p h pos = ground arith
    by_bit (suc (suc b)) p h pos = absurd (omega arith)

set_word : (w k j : ℕ) → bit (bit_or w (1 * 2 ^ k)) j ≡ (if k == j then 1 else bit w j)
set_word w k j =
    let one : 1 * 2 ^ k ≡ 2 ^ k = omega arith in
    rw (one, bit-bit_or) (ground (arith, bit-pow k j, bit-le_one w j))

reset_word :
    (w k j : ℕ)
    → k < 32
    → j < 32
    → bit (bit_and w (2 ^ 32 - 1 - 1 * 2 ^ k)) j ≡ (if k == j then 0 else bit w j)
reset_word w k j hk hj =
    let one : 1 * 2 ^ k ≡ 2 ^ k = omega arith in
    let le : 2 ^ k ≤ 2 ^ 31 = pow-le-pow_right {n = 2} (omega arith) {j = 31} (omega arith) in
    rw (one, bit-bit_and, bit-complement 32 (2 ^ k) j (omega arith) hj)
      (ground (arith, bit-pow k j, bit-le_one w j))

same_page : (i j : ℕ) → i / 32 ≡ j / 32 → i % 32 ≡ j % 32 → i ≡ j
same_page i j p q = omega arith

pub test_bit-used : (bitmap : ℕ → ℕ) (page : ℕ) → test_bit bitmap page ≡ used bitmap page
unfolding test_bit used
test_bit-used bitmap page = rw (bit_and_31 page) (test_word (bitmap (page / 32)) (page % 32))

-- set_bit marks that page and no other.
pub set_bit-used :
    (bitmap : ℕ → ℕ) (i j : ℕ)
    → used (set_bit bitmap i) j ≡ (if i == j then true else used bitmap j)
unfolding set_bit used
set_bit-used bitmap i j =
    rw (bit_and_31 i) (ground (arith, set_word (bitmap (i / 32)) (i % 32) (j % 32), same_page i j))

-- reset_bit clears that page and no other.
pub reset_bit-used :
    (bitmap : ℕ → ℕ) (i j : ℕ)
    → used (reset_bit bitmap i) j ≡ (if i == j then false else used bitmap j)
unfolding reset_bit used
reset_bit-used bitmap i j = rw (bit_and_31 i) (
    ground (
      arith,
      reset_word (bitmap (i / 32)) (i % 32) (j % 32) (omega arith) (omega arith),
      same_page i j,
    ))

-- is_bitmap_page_free says whether none of the count pages from index on is used.
abbrev pub AllFree : (ℕ → ℕ) → ℕ → ℕ → Type 0
AllFree bitmap index count = (i : ℕ) → index ≤ i → i < index + count → used bitmap i ≡ false

free_of_is_free :
    (bitmap : ℕ → ℕ) (index count : ℕ)
    → index + count ≤ 2 ^ 64
    → is_bitmap_page_free bitmap index count ≡ true
    → AllFree bitmap index count
unfolding is_bitmap_page_free
free_of_is_free bitmap index zero h e i lo hi = absurd (omega arith)
free_of_is_free bitmap index (suc zero) h e i lo hi =
    let at : i ≡ index = omega arith in rw at (ground (arith, test_bit-used bitmap index))
free_of_is_free bitmap index (suc (suc count)) h e i lo hi =
    let next : (index + 1) % 2 ^ 64 ≡ index + 1 = omega arith in
    elim (Bool-cases (i == index)) [
      | inl here ↦
          let at : i ≡ index = ground arith in rw at (ground (arith, test_bit-used bitmap index))
      | inr later ↦
          free_of_is_free bitmap (index + 1) (suc count) (omega arith) (rw (← next) (ground arith))
            i (ground arith) (omega arith)
    ]

is_free_of_free :
    (bitmap : ℕ → ℕ) (index count : ℕ)
    → index + count ≤ 2 ^ 64
    → AllFree bitmap index count
    → is_bitmap_page_free bitmap index count ≡ true
unfolding is_bitmap_page_free
is_free_of_free bitmap index zero h free = refl
is_free_of_free bitmap index (suc zero) h free =
    ground (arith, test_bit-used bitmap index, free index)
is_free_of_free bitmap index (suc (suc count)) h free =
    let next : (index + 1) % 2 ^ 64 ≡ index + 1 = omega arith in
    let rest =
      is_free_of_free bitmap (index + 1) (suc count) (omega arith)
        (λ i lo hi. free i (omega arith) (omega arith)) in
    rw next (ground (arith, test_bit-used bitmap index, free index, rest))

pub is_free-AllFree :
    (bitmap : ℕ → ℕ) (index count : ℕ)
    → index + count ≤ 2 ^ 64
    → (is_bitmap_page_free bitmap index count ≡ true) ↔ AllFree bitmap index count
is_free-AllFree bitmap index count h =
    (free_of_is_free bitmap index count h, is_free_of_free bitmap index count h)

-- The loop of set_bit marks exactly the pages of the block.
pub set_pages-used :
    (bitmap : ℕ → ℕ) (index rounds j : ℕ)
    → used (set_pages bitmap index rounds) j
      ≡ (if leb index j && ltb j (index + rounds) then true else used bitmap j)
unfolding set_pages
set_pages-used bitmap index zero j = ground arith
set_pages-used bitmap index (suc rounds) j =
    ground (
      arith,
      set_pages-used (set_bit bitmap index) (index + 1) rounds j,
      set_bit-used bitmap index j,
    )

-- The loop of reset_bit clears exactly the pages of the block.
pub reset_pages-used :
    (bitmap : ℕ → ℕ) (index count j : ℕ)
    → index + count < 2 ^ 64
    → used (reset_pages bitmap index count) j
      ≡ (if leb index j && ltb j (index + count) then false else used bitmap j)
unfolding reset_pages
reset_pages-used bitmap index zero j h = ground arith
reset_pages-used bitmap index (suc count) j h =
    let next : (index + 1) % 2 ^ 64 ≡ index + 1 = omega arith in
    rw next (
      ground (
        arith,
        reset_pages-used (reset_bit bitmap index) (index + 1) count j,
        reset_bit-used bitmap index j,
      ))
