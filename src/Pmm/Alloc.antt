-- ===== src/Pmm/Alloc.antt =====
-- pmm_alloc_advanced, pmm_alloc and pmm_free: what they return and what they do to the pages.
use new_wiv_os.Base.{
  ℕ, ◌+◌, ◌*◌, ◌/◌, ◌%◌, ◌^◌, ◌≤◌, ◌<◌, true, false, if◌then◌else◌, ltb, leb, ◌≡◌, ◌≢◌, refl, arith,
  ◌&&◌, ◌⊎◌, inl, inr, le→leb,
}
use new_wiv_os.Base.Run.{Run, ok, hang, Returns, Returns-and_then, Returns-mono}
use new_wiv_os.Strings.Memory.{memset_lem}
use new_wiv_os.Pmm.{
  Pmm, page_size, lock, unlock, Search, found, exhausted, stuck, search_pages, finish, rounds,
  wiped, pmm_alloc_advanced, pmm_alloc, pmm_free, release,
}
use new_wiv_os.Pmm.Bitmap.{used, AllFree, set_pages-used, reset_pages-used}
use new_wiv_os.Pmm.Runs.{Outcome, search_pages-Outcome}

-- The block of `count` pages from multiple `k` of the alignment on was allocated.
pub record Allocated (s : Pmm) (count alignment addr : ℕ) (s' : Pmm) : Type 0 where
  pub k : ℕ
  pub in_bitmap : k * alignment < s.length
  pub address : addr ≡ k * alignment * page_size % 2 ^ 64
  pub was_free : AllFree s.words (k * alignment) count
  pub now_used :
      (page : ℕ)
      → used s'.words page ≡ (
          if leb (k * alignment) page && ltb page (k * alignment + count)
          then true
          else used s.words page)
  pub first_fit : (j : ℕ) → j < k → ¬ AllFree s.words (j * alignment) count
  pub unlocked : s'.locked ≡ false
  pub same_length : s'.length ≡ s.length
  pub same_memory : s'.memory ≡ s.memory
  pub same_offset : s'.phys_offset ≡ s.phys_offset
  pub same_bitmap : s'.bitmap ≡ s.bitmap

-- No aligned block of the bitmap is free: the answer is 0 and nothing changes.
pub record Refused (s : Pmm) (count alignment addr : ℕ) (s' : Pmm) : Type 0 where
  pub null : addr ≡ 0
  pub full : (j : ℕ) → j * alignment < s.length → ¬ AllFree s.words (j * alignment) count
  pub same : s' ≡ s

finish_lem :
    (s : Pmm) (count alignment : ℕ) (r : Search)
    → s.locked ≡ false
    → s.length + alignment + count ≤ 2 ^ 64
    → Outcome s.words s.length count alignment 0 r
    → Returns
        (finish r count (record s { locked = true }))
        (λ addr s'. Allocated s count alignment addr s' ⊎ Refused s count alignment addr s')
unfolding finish unlock
finish_lem s count alignment (found index) open_ no_wrap (k, e, lo, hi, free, first) =
    let whole : rounds count index ≡ count = omega arith in
    inl (record {
      k = k;
      in_bitmap = omega arith;
      address = rw e refl;
      was_free = rw (← e) free;
      now_used = λ page. rw (whole, ← e) (set_pages-used s.words index count page);
      first_fit = λ j b. first j (omega arith) b;
      unlocked = refl;
      same_length = refl;
      same_memory = refl;
      same_offset = refl;
      same_bitmap = refl;
    })
finish_lem s count alignment exhausted open_ no_wrap none_free =
    inr (record { null = refl; full = λ j b. none_free j (omega arith) b; same = ground arith })
finish_lem s count alignment stuck open_ no_wrap h = h

-- With the lock free, an alignment of at least 1 and page numbers below 2 ^ 64,
-- pmm_alloc_advanced returns: it answers the first aligned block of free pages and marks exactly
-- its pages, or no aligned block of the bitmap is free and it answers 0 and changes nothing.
pub pmm_alloc_advanced_lem :
    (s : Pmm) (count alignment : ℕ)
    → s.locked ≡ false
    → 1 ≤ alignment
    → s.length + alignment + count ≤ 2 ^ 64
    → Returns
        (pmm_alloc_advanced count alignment s)
        (λ addr s'. Allocated s count alignment addr s' ⊎ Refused s count alignment addr s')
unfolding pmm_alloc_advanced
pmm_alloc_advanced_lem s count alignment open_ moves no_wrap = rw open_ (
    finish_lem (record s { locked = false }) count alignment _ refl no_wrap
      (outcome (search_pages-Outcome s.words s.length count alignment moves no_wrap s.length 0)))
  where
    start : 0 * alignment ≡ 0
    start = omega arith

    outcome :
        (s.length ≤ s.length + 0
          → Outcome s.words s.length count alignment 0
              (search_pages s.length s.words s.length count alignment (0 * alignment)))
        → Outcome s.words s.length count alignment 0
            (search_pages s.length s.words s.length count alignment 0)
    outcome h = rw start at (h (omega arith))

-- A call of pmm_alloc from s: the state t that the page search leaves, and then zeroed memory, the
-- bitmap's words included where they lie in it.
pub record Cleared (s : Pmm) (count addr : ℕ) (s' : Pmm) : Type 0 where
  pub t : Pmm
  pub outcome : Allocated s count 1 addr t ⊎ Refused s count 1 addr t
  pub words :
      s'.words
      ≡ wiped
          ((addr + t.phys_offset) % 2 ^ 64)
          (page_size * count % 2 ^ 64)
          t.bitmap
          t.length
          t.words
  pub locked : s'.locked ≡ t.locked
  pub offset : s'.phys_offset ≡ t.phys_offset
  pub zeroed :
      (a : ℕ)
      → s'.memory a ≡ (
          if leb ((addr + t.phys_offset) % 2 ^ 64) a
            && ltb a ((addr + t.phys_offset) % 2 ^ 64 + page_size * count % 2 ^ 64)
          then 0
          else t.memory a)

-- With the lock free and page numbers below 2 ^ 64, pmm_alloc returns what pmm_alloc_advanced
-- with alignment 1 does, and fills `count` pages with zeros from that address plus
-- MEM_PHYS_OFFSET on, the words of the bitmap that lie there too: also where it is 0 because no
-- block was free.
pub pmm_alloc_lem :
    (s : Pmm) (count : ℕ)
    → s.locked ≡ false
    → s.length + 1 + count ≤ 2 ^ 64
    → Returns (pmm_alloc count s) (Cleared s count)
unfolding pmm_alloc
pmm_alloc_lem s count open_ no_wrap =
    Returns-and_then (pmm_alloc_advanced count 1 s) _ _ _
      (pmm_alloc_advanced_lem s count 1 open_ (omega arith) no_wrap)
      (λ addr t h. record {
        t = t;
        outcome = h;
        words = refl;
        locked = refl;
        offset = refl;
        zeroed = λ a. memset_lem t.memory _ 0 _ a;
      })

-- pmm_free on both sides of MEM_PHYS_OFFSET.
pmm_free-cases :
    (s : Pmm) (addr count : ℕ)
    → s.locked ≡ false
    → addr / page_size + count < 2 ^ 64
    → (addr < s.phys_offset
        → Returns (pmm_free addr count s) λ _ s'.
          ((page : ℕ)
            → used s'.words page ≡ (
                if leb (addr / page_size) page && ltb page (addr / page_size + count)
                then false
                else used s.words page))
          × (s'.locked ≡ false)
          × (s'.free_pages ≡ (s.free_pages + count) % 2 ^ 64)
          × (s'.memory ≡ s.memory))
      × (s.phys_offset ≤ addr → pmm_free addr count s ≡ hang)
unfolding pmm_free release lock unlock
pmm_free-cases s addr count open_ no_wrap = (
  λ below.
      rw (le_false s.phys_offset addr below, open_)
        (λ page. reset_pages-used s.words (addr / page_size) count page no_wrap, refl, refl, refl),
  λ above. rw (le→leb s.phys_offset addr above) refl,
)
  where
    le_false : (a b : ℕ) → b < a → leb a b ≡ false
    le_false a b h = ground arith

-- With the lock free and page numbers below 2 ^ 64, pmm_free at an address below MEM_PHYS_OFFSET
-- clears exactly the pages of the block, counts them, gives the lock back, and leaves memory alone.
pub pmm_free_lem :
    (s : Pmm) (addr count : ℕ)
    → s.locked ≡ false
    → addr / page_size + count < 2 ^ 64
    → addr < s.phys_offset
    → Returns (pmm_free addr count s) λ _ s'.
      ((page : ℕ)
        → used s'.words page ≡ (
            if leb (addr / page_size) page && ltb page (addr / page_size + count)
            then false
            else used s.words page))
      × (s'.locked ≡ false)
      × (s'.free_pages ≡ (s.free_pages + count) % 2 ^ 64)
      × (s'.memory ≡ s.memory)
pmm_free_lem s addr count open_ no_wrap below = (pmm_free-cases s addr count open_ no_wrap).0 below

pub Returns_at :
    {A : Type 0} (P : A → Pmm → Type 0) {r : Run Pmm A} (a : A) (s : Pmm)
    → r ≡ ok a s
    → Returns r P
    → P a s
Returns_at P a s e h = let g : Returns (ok a s) P = rw e at h in g

-- With the lock free, an alignment of at least 1, page numbers that fit 52 bits and a bitmap
-- that ends at or below MEM_PHYS_OFFSET: where an allocation did not answer 0, pmm_free of the
-- same block returns, and every page is as free as it was before the allocation.
pub alloc-free :
    (s t : Pmm) (count alignment addr : ℕ)
    → s.locked ≡ false
    → 1 ≤ alignment
    → s.length + alignment + count ≤ 2 ^ 52
    → s.length * page_size ≤ s.phys_offset
    → pmm_alloc_advanced count alignment s ≡ ok addr t
    → addr ≢ 0
    → Returns (pmm_free addr count t) λ _ s'. (page : ℕ) → used s'.words page ≡ used s.words page
alloc-free s t count alignment addr open_ moves no_wrap low run nonzero =
    back
      (Returns_at _ addr t run (pmm_alloc_advanced_lem s count alignment open_ moves (omega arith)))
  where
    back :
        Allocated s count alignment addr t ⊎ Refused s count alignment addr t
        → Returns
            (pmm_free addr count t)
            λ _ s'. (page : ℕ) → used s'.words page ≡ used s.words page
    back (inr refused) = absurd (nonzero refused.null)
    back (inl h) =
        let page : addr / page_size ≡ h.k * alignment = omega (arith, h.address, h.in_bitmap) in
        let below : addr < t.phys_offset = omega (arith, h.address, h.in_bitmap, h.same_offset) in
        Returns-mono (pmm_free addr count t) _ _
          (pmm_free_lem t addr count h.unlocked (omega (arith, h.in_bitmap)) below)
          λ _ s' (cleared, _, _, _) i.
            ground (arith, rw page at (cleared i), h.now_used i, h.was_free i)
