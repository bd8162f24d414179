-- ===== src/Pmm/Init.antt =====
-- pmm_init of kernel/mem/pmm.c: the choice of the region that holds the bitmap, the bitmap's
-- first contents, and the release of the usable regions. The messages it prints are left out.
use new_wiv_os.Base.{
  ℕ, ◌+◌, ◌-◌, ◌*◌, ◌/◌, ◌%◌, ◌^◌, Bool, if◌then◌else◌, ltb, leb, ◌==◌, ◌&&◌, List, [], ◌∷◌, min,
}
use new_wiv_os.Base.Run.{Cmd, pure, ◌>>=◌, ◌>>◌, hang_cmd, get_state, put_state}
use new_wiv_os.Pmm.{Pmm, page_size, pmm_free, set_bit}

-- limine_memmap_entry_t; `usable` is the test of the type against LIMINE_MEMMAP_USABLE.
pub record Region : Type 0 where
  pub base : ℕ
  pub length : ℕ
  pub usable : Bool

-- PmmBitmap, PmmLength and maxBase while the map is read.
pub record Choice : Type 0 where
  pub bitmap : ℕ
  pub length : ℕ
  pub max_base : ℕ

unfoldable pub choose : Choice → List Region → Choice
choose c [] = c
choose c (entry ∷ entries) =
    let new_length = (entry.base + entry.length + page_size - 1) % 2 ^ 64 / page_size in
    choose
      (if entry.usable && ltb c.bitmap entry.base && ltb new_length entry.length
        then record { bitmap = entry.base; length = new_length; max_base = entry.base }
        else c)
      entries

-- memset(PmmBitmap, 0xFF, n), seen in 32-bit words: word i has min 4 (n - 4 * i) of its bytes,
-- the low ones, filled.
unfoldable pub fill_words : (ℕ → ℕ) → ℕ → ℕ → ℕ
fill_words words n i = let low = 2 ^ (8 * min 4 (n - 4 * i)) in words i / low * low + (low - 1)

unfoldable pub release_regions : ℕ → ℕ → List Region → Cmd Pmm (Unit {0})
release_regions max_base length [] = pure tt
release_regions max_base length (entry ∷ entries) = do
  if entry.usable && leb entry.base max_base
      then (if entry.base == max_base
          then pmm_free
              ((entry.base + (length / 8 + page_size - 1) / page_size * page_size) % 2 ^ 64)
              ((entry.length / page_size + 2 ^ 64 - length / 8 / page_size) % 2 ^ 64)
          else pmm_free entry.base (entry.length / page_size))
      else pure tt
  release_regions max_base length entries

-- `offset` is limine_get_hhdm(); the state that it starts from is what the loader left.
unfoldable pub pmm_init : ℕ → List Region → Cmd Pmm (Unit {0})
pmm_init offset entries = do
  s ← get_state
  let c = choose (record { bitmap = 0; length = 0; max_base = 0 }) entries
  if c.bitmap == 0
      then hang_cmd
      else put_state (record s {
        bitmap = (c.bitmap + offset) % 2 ^ 64;
        words = fill_words s.words (c.length / 8);
        length = c.length;
        phys_offset = offset;
      })
  release_regions c.max_base c.length entries
  s' ← get_state
  put_state
      (record s' { words = set_bit (set_bit s'.words (0x1000 / page_size)) (0x2000 / page_size) })
