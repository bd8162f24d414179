-- ===== src/Vmm/Unmap.antt =====
-- vmm_unmap at a huge page.
use new_wiv_os.Base.{
  ℕ, suc, ◌+◌, ◌-◌, ◌%◌, ◌^◌, ◌<◌, if◌then◌else◌, ◌==◌, bit_and, ◌≡◌, ◌≢◌, arith, ==_false,
  le→ltb_false,
}
use new_wiv_os.Base.Run.{ok}
use new_wiv_os.Vmm.{Tables, level, entry_at, put_entry, walk_null, unmap_loop}

-- The tables after the entry of a huge page has been cleared.
abbrev pub cleared : Tables → ℕ → ℕ → Tables
cleared t pt addr = record t {
  words = λ a. if a == entry_at pt (level addr 1) then 0 else t.words a;
}

module _ (t : Tables) (fuel size addr pt : ℕ) (top : (t.root + t.offset) % 2 ^ 64 ≢ 0)
    (walk : walk_null addr (t.max_level - 1) ((t.root + t.offset) % 2 ^ 64) t ≡ ok pt t)
    (table : pt ≢ 0) (huge : bit_and (t.words (entry_at pt (level addr 1))) 14 ≢ 0) where
  -- Where the walk finds the table of a huge page, and more than 0x200 pages are left, a round of
  -- vmm_unmap clears the page's entry and goes on 0x200000 bytes further with 0x201 pages less:
  -- one more than the page has.
  pub unmap_huge-far :
      0x200 < size
      → size < 2 ^ 64
      → unmap_loop (suc fuel) size addr t
        ≡ unmap_loop fuel (size - 0x201) ((addr + 0x200000) % 2 ^ 64) (cleared t pt addr)
  unfolding unmap_loop put_entry
  unmap_huge-far far fits =
      let rest : (size - 1 + 2 ^ 64 - 0x200) % 2 ^ 64 ≡ size - 0x201 = omega arith in
      rw (
        ==_false size 0 (omega arith),
        ==_false ((t.root + t.offset) % 2 ^ 64) 0 top,
        walk,
        ==_false pt 0 table,
        ==_false (bit_and (t.words (entry_at pt (level addr 1))) 14) 0 huge,
        le→ltb_false (size - 1) 0x1FF (omega arith),
        rest,
      )

  -- Where the walk from a root table that is not at 0 finds the table of a huge page, and
  -- exactly the page's 0x200 pages are left, a round of vmm_unmap clears the page's entry and
  -- goes on behind the page with a count of 2 ^ 64 - 1 pages.
  pub unmap_huge-wraps :
      size ≡ 0x200
      → unmap_loop (suc fuel) size addr t
        ≡ unmap_loop fuel (2 ^ 64 - 1) ((addr + 0x200000) % 2 ^ 64) (cleared t pt addr)
  unfolding unmap_loop put_entry
  unmap_huge-wraps exact = rw (
    exact,
    ==_false ((t.root + t.offset) % 2 ^ 64) 0 top,
    walk,
    ==_false pt 0 table,
    ==_false (bit_and (t.words (entry_at pt (level addr 1))) 14) 0 huge,
  )
