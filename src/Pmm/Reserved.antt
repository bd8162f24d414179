-- ===== src/Pmm/Reserved.antt =====
-- The bitmap's own pages are marked as used, so that no block that is handed out lies over it.
use new_wiv_os.Base.{
  ℕ, ◌+◌, ◌*◌, ◌/◌, ◌^◌, ◌%◌, ◌≤◌, ◌<◌, true, false, ltb, ◌&&◌, ◌≡◌, refl, arith, Bool, Bool-cases,
  inl, inr, dec_lt,
}
use new_wiv_os.Pmm.{Pmm, page_size, wiped}
use new_wiv_os.Pmm.Bitmap.{used, AllFree}
use new_wiv_os.Pmm.Alloc.{Allocated, Cleared}

-- The bitmap starts at a page, and all pages that it lies in are used.
pub record BitmapUsed (s : Pmm) : Type 0 where
  pub page : ℕ
  pub placed : s.bitmap ≡ s.phys_offset + page * page_size
  pub reserved :
      (i : ℕ)
      → page ≤ i
      → i * page_size < page * page_size + (s.length + 31) / 32 * 4
      → used s.words i ≡ true

-- A page in both is used and free.
apart :
    (s : Pmm) (k count j : ℕ) (b : BitmapUsed s)
    → AllFree s.words k count
    → j < (s.length + 31) / 32
    → k * page_size + s.phys_offset < s.bitmap + 4 * j + 4
    → s.bitmap + 4 * j < k * page_size + s.phys_offset + page_size * count
    → ⊥
apart s k count j b free inside above below = elim (dec_lt b.page k) [
  | no before ↦
      clash (b.reserved b.page (omega arith) (omega (arith, inside)))
        (free b.page (omega (arith, before)) (omega (arith, b.placed, above, below)))
  | yes behind ↦
      clash (b.reserved k (omega (arith, behind)) (omega (arith, b.placed, inside, above)))
        (free k (omega arith) (omega (arith, b.placed, above, below)))
]
  where
    clash : {x : Bool} → x ≡ true → x ≡ false → ⊥
    clash t f = cc

-- Zeros over a block of free pages leave the bitmap's words.
pub wiped-free :
    (s : Pmm) (k count : ℕ) (words : ℕ → ℕ) (j : ℕ)
    → BitmapUsed s
    → AllFree s.words k count
    → wiped (k * page_size + s.phys_offset) (page_size * count) s.bitmap s.length words j ≡ words j
unfolding wiped
wiped-free s k count words j b free =
    elim (Bool-cases (
      ltb j ((s.length + 31) / 32)
      && (ltb (k * page_size + s.phys_offset) (s.bitmap + 4 * j + 4)
          && ltb (s.bitmap + 4 * j) (k * page_size + s.phys_offset + page_size * count)))) [
            | inr out ↦ rw (wiped, out) refl
            | inl hit ↦ absurd (
                apart s k count j b free (ground (arith, hit)) (ground (arith, hit))
                  (ground (arith, hit)))
          ]

used_same : (v w : ℕ → ℕ) (i : ℕ) → v (i / 32) ≡ w (i / 32) → used v i ≡ used w i
unfolding used
used_same v w i e = rw e refl

-- Where pmm_alloc hands out a block, zeroing it changes no page's mark.
pub Cleared-used :
    (s s' : Pmm) (count addr : ℕ) (c : Cleared s count addr s')
    → BitmapUsed s
    → Allocated s count 1 addr c.t
    → s.length * page_size + s.phys_offset + count * page_size ≤ 2 ^ 64
    → (i : ℕ) → used s'.words i ≡ used c.t.words i
Cleared-used s s' count addr c b got fits i =
    let start : (addr + c.t.phys_offset) % 2 ^ 64 ≡ got.k * 1 * page_size + s.phys_offset =
      omega (arith, got.address, got.in_bitmap, got.same_offset, fits) in
    let size : page_size * count % 2 ^ 64 ≡ page_size * count =
      omega (arith, got.in_bitmap, fits) in
    used_same s'.words c.t.words i (
      rw (c.words, start, size, got.same_bitmap, got.same_length)
        (wiped-free s (got.k * 1) count c.t.words (i / 32) b got.was_free))
