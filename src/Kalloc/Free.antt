-- ===== src/Kalloc/Free.antt =====
-- kfree gives back what kmalloc took.
use new_wiv_os.Base.{ℕ, ◌+◌, ◌-◌, ◌*◌, ◌/◌, ◌%◌, ◌^◌, ◌≤◌, false, ◌≡◌, ◌≢◌, arith, ◌⊎◌, inl, inr}
use new_wiv_os.Base.Run.{Run, ok, Returns}
use new_wiv_os.Pmm.{page_size, pmm_free}
use new_wiv_os.Pmm.Bitmap.{used}
use new_wiv_os.Pmm.Reserved.{BitmapUsed}
use new_wiv_os.Pmm.Alloc.{pmm_free_lem}
use new_wiv_os.Kalloc.{Heap, page_count, kmalloc, kfree}
use new_wiv_os.Kalloc.Blocks.{Block, Null, Fits, kmalloc_lem, page_count-bounds, lift_Returns}

Returns_at :
    {A S : Type 0} (P : A → S → Type 0) {r : Run S A} (a : A) (s : S)
    → r ≡ ok a s
    → Returns r P
    → P a s
Returns_at P a s e h = let g : Returns (ok a s) P = rw e at h in g

free_block :
    (h t : Heap) (size addr : ℕ)
    → Fits h size
    → h.pmm.length * page_size ≤ h.pmm.phys_offset
    → Block h size addr t
    → Returns (kfree addr t) λ _ s'. (i : ℕ) → used s'.pmm.words i ≡ used h.pmm.words i
unfolding kfree
free_block h t size addr fits low b =
    let header : (addr + 2 ^ 64 - page_size) % 2 ^ 64 ≡ b.page * page_size + h.pmm.phys_offset =
      omega (arith, b.address, b.in_bitmap, fits) in
    let phys : (b.page * page_size + h.pmm.phys_offset + 2 ^ 64 - h.pmm.phys_offset) % 2 ^ 64
        ≡ b.page * page_size =
      omega (arith, b.in_bitmap, fits) in
    let index : b.page * page_size / page_size ≡ b.page = omega arith in
    simp (header, b.same_offset, phys, b.header)
      (lift_Returns t.headers (pmm_free (b.page * page_size) (page_count size + 1) t.pmm) _ _
        (pmm_free_lem t.pmm (b.page * page_size) (page_count size + 1) b.unlocked
          (omega (arith, b.in_bitmap, fits, page_count-bounds size))
          (omega (arith, b.in_bitmap, b.same_offset)))
        (λ _ p (cleared, _, _, _) i.
          ground (arith, rw index at (cleared i), b.now_used i, b.was_free i)))

-- With the allocator's lock free, addresses that fit 64 bits, page numbers whose addresses are below
-- MEM_PHYS_OFFSET and the bitmap's own pages used, kfree of a block that kmalloc handed out returns, and every page is as free
-- as it was before the allocation.
pub kmalloc-kfree :
    (h t : Heap) (size addr : ℕ)
    → h.pmm.locked ≡ false
    → Fits h size
    → h.pmm.length * page_size ≤ h.pmm.phys_offset
    → BitmapUsed h.pmm
    → kmalloc size h ≡ ok addr t
    → addr ≢ 0
    → Returns (kfree addr t) λ _ s'. (i : ℕ) → used s'.pmm.words i ≡ used h.pmm.words i
kmalloc-kfree h t size addr open_ fits low marked run nonzero =
    by_outcome (Returns_at _ addr t run (kmalloc_lem h size open_ fits marked))
  where
    by_outcome :
        Block h size addr t ⊎ Null h size addr
        → Returns (kfree addr t) λ _ s'. (i : ℕ) → used s'.pmm.words i ≡ used h.pmm.words i
    by_outcome (inl b) = free_block h t size addr fits low b
    by_outcome (inr null) = absurd (nonzero null.0)
