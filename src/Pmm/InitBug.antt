-- ===== src/Pmm/InitBug.antt =====
-- pmm_init releases one page behind the region that holds the bitmap.
use new_wiv_os.Base.{
  ℕ, ◌+◌, ◌-◌, ◌*◌, ◌/◌, ◌%◌, ◌^◌, ◌≤◌, ◌<◌, true, false, ◌≡◌, ◌≢◌, refl, arith, [], ◌∷◌, lt→ltb,
  le→leb, ==_refl, ==_false,
}
use new_wiv_os.Base.Run.{Returns, Returns-and_then}
use new_wiv_os.Pmm.{Pmm, page_size, pmm_free, set_bit}
use new_wiv_os.Pmm.Bitmap.{used, set_bit-used}
use new_wiv_os.Pmm.Alloc.{pmm_free_lem}
use new_wiv_os.Pmm.Init.{Region, choose, pmm_init, release_regions}

-- One usable region of n pages at page b.
abbrev pub region : ℕ → ℕ → Region
region b n = record { base = b * page_size; length = n * page_size; usable = true }

module _ (b n offset : ℕ) (s : Pmm) where
  release_one :
      1 ≤ b
      → 3 ≤ n
      → b + n < n * page_size
      → (b + n) / 8 % page_size ≢ 0
      → (b + n) * page_size + page_size ≤ offset
      → offset < 2 ^ 64
      → s.locked ≡ false
      → s.phys_offset ≡ offset
      → Returns
          (release_regions (b * page_size) (b + n) (region b n ∷ []) s)
          (λ _ s'. used s'.words (b + n) ≡ false)
  unfolding release_regions
  release_one pos many fit odd low small open_ at =
      let start = b * page_size + ((b + n) / 8 + page_size - 1) / page_size * page_size in
      let count = n * page_size / page_size - (b + n) / 8 / page_size in
      let start_eq : start % 2 ^ 64 ≡ start = omega arith in
      let count_eq : (n * page_size / page_size + 2 ^ 64 - (b + n) / 8 / page_size) % 2 ^ 64
          ≡ count =
        omega arith in
      rw
        (
          le→leb (b * page_size) (b * page_size) (omega arith),
          ==_refl (b * page_size),
          start_eq,
          count_eq,
        )
        (Returns-and_then (pmm_free start count s) _ _ _
          (pmm_free_lem s start count open_ (omega arith) (omega arith))
          (λ _ t (cleared, _, _, _). ground (arith, cleared (b + n))))

-- For one usable region of n pages at page b, 1 <= b and 3 <= n, that has room for its bitmap
-- and lies a page below MEM_PHYS_OFFSET, whose bitmap of b + n bits is no whole number of pages,
-- and with the lock free: pmm_init returns, and page b + n, behind the region, is free.
pub pmm_init-past_end :
    (b n offset : ℕ) (s : Pmm)
    → 1 ≤ b
    → 3 ≤ n
    → b + n < n * page_size
    → (b + n) / 8 % page_size ≢ 0
    → (b + n) * page_size + page_size ≤ offset
    → offset < 2 ^ 64
    → s.locked ≡ false
    → Returns (pmm_init offset (region b n ∷ []) s) (λ _ s'. used s'.words (b + n) ≡ false)
unfolding pmm_init choose
pmm_init-past_end b n offset s pos many fit odd low small open_ =
    let new : (b * page_size + n * page_size + page_size - 1) % 2 ^ 64 / page_size ≡ b + n =
      omega arith in
    rw
      (
        lt→ltb 0 (b * page_size) (omega arith),
        new,
        lt→ltb (b + n) (n * page_size) fit,
        ==_false (b * page_size) 0 (omega arith),
      )
      (Returns-and_then (release_regions (b * page_size) (b + n) (region b n ∷ []) _) _ _ _
        (release_one b n offset _ pos many fit odd low small open_ refl)
        (λ _ t free. ground (
          arith,
          set_bit-used t.words (0x1000 / page_size) (b + n),
          set_bit-used (set_bit t.words (0x1000 / page_size)) (0x2000 / page_size) (b + n),
        )))
