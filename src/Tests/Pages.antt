-- ===== src/Tests/Pages.antt =====
-- Runs of the page allocator and of the heap on a bitmap of 16 pages, the first two in use.
use new_wiv_os.Base.{ℕ, ◌+◌, ◌^◌, ◌≡◌, refl, ◌⊎◌, ◌&&◌, arith, ltb, leb, ◌==◌, false, if◌then◌else◌}
use new_wiv_os.Base.Run.{Run, ok, fault, hang, Returns}
use new_wiv_os.Pmm.{Pmm, pmm_alloc_advanced, pmm_alloc, pmm_free}
use new_wiv_os.Base.Bits.{bit}
use new_wiv_os.Pmm.Bitmap.{used}
use new_wiv_os.Pmm.Alloc.{
  Allocated, Refused, Cleared, pmm_alloc_advanced_lem, pmm_alloc_lem, pmm_free_lem, alloc-free,
}
use new_wiv_os.Pmm.Reserved.{BitmapUsed}
use new_wiv_os.Kalloc.{Heap, kmalloc, kfree, page_count}
use new_wiv_os.Kalloc.Free.{kmalloc-kfree}

abbrev pages : Pmm
pages = record {
  bitmap = 2 ^ 40 + 0x1000;
  words = λ i. if i == 0 then 3 else 0;
  length = 16;
  free_pages = 14;
  phys_offset = 2 ^ 40;
  locked = false;
  memory = λ a. 7;
}

abbrev heap : Heap
heap = record { pmm = pages; headers = λ a. record { pages = 0; size = 0 } }

abbrev state_of : {S A : Type 0} → S → Run S A → S
state_of d (ok a s) = s
state_of d fault = d
state_of d hang = d

pmm_alloc_advanced_lem_example :
    Returns
      (pmm_alloc_advanced 3 4 pages)
      (λ addr s'. Allocated pages 3 4 addr s' ⊎ Refused pages 3 4 addr s')
pmm_alloc_advanced_lem_example = pmm_alloc_advanced_lem pages 3 4 refl (omega arith) (omega arith)

pmm_alloc_lem_example : Returns (pmm_alloc 2 pages) (Cleared pages 2)
pmm_alloc_lem_example = pmm_alloc_lem pages 2 refl (omega arith)

pmm_free_lem_example : Returns (pmm_free 4096 1 pages) λ _ s'.
    ((page : ℕ)
      → used s'.words page ≡ (if leb 1 page && ltb page 2 then false else used pages.words page))
    × (s'.locked ≡ false)
    × (s'.free_pages ≡ 15)
    × (s'.memory ≡ pages.memory)
pmm_free_lem_example = pmm_free_lem pages 4096 1 refl (omega arith) (omega arith)

alloc-free_example :
    Returns
      (pmm_free 8192 2 (state_of pages (pmm_alloc_advanced 2 2 pages)))
      λ _ s'. (page : ℕ) → used s'.words page ≡ used pages.words page
unfolding pmm_alloc_advanced
alloc-free_example =
    alloc-free pages (state_of pages (pmm_alloc_advanced 2 2 pages)) 2 2 8192 refl (omega arith)
      (omega arith) (omega arith) refl (omega arith)

-- The bitmap is page 1, which is used.
marked : BitmapUsed pages
unfolding used bit
marked = record {
  page = 1;
  placed = refl;
  reserved = λ i from below. let one : i ≡ 1 = omega (arith, from, below) in rw one refl;
}

kmalloc-kfree_example :
    Returns
      (kfree (2 ^ 40 + 0x3000) (state_of heap (kmalloc 5000 heap)))
      λ _ s'. (i : ℕ) → used s'.pmm.words i ≡ used pages.words i
unfolding kmalloc pmm_alloc pmm_alloc_advanced page_count
kmalloc-kfree_example =
    kmalloc-kfree heap (state_of heap (kmalloc 5000 heap)) 5000 (2 ^ 40 + 0x3000) refl (omega arith)
      (omega arith) marked refl (omega arith)
