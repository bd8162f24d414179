-- ===== src/Pmm.antt =====
-- The physical page allocator, kernel/mem/pmm.c, with the bitmap macros of
-- kernel/arch/riscv64/defines.h. `words` is the bitmap as the macros see it, an array of 32-bit
-- words; `memory` is the bytes of the address space other than the bitmap.
pub mod Bitmap
pub mod Runs
pub mod Alloc
pub mod Reserved
pub mod Init
pub mod InitBug
use new_wiv_os.Base.{
  ℕ, zero, suc, ◌+◌, ◌-◌, ◌*◌, ◌/◌, ◌%◌, ◌^◌, Bool, true, false, not, if◌then◌else◌, ltb, leb, ◌&&◌,
  ◌==◌, bit_and, bit_or, List, [], ◌∷◌,
}
use new_wiv_os.Base.Bits.{shl, shr}
use new_wiv_os.Base.Run.{ok, hang, Cmd, pure, ◌>>=◌, ◌>>◌, hang_cmd, get_state, put_state}
use new_wiv_os.Strings.Memory.{Memory, memset}

abbrev pub page_size : ℕ
page_size = 0x1000

-- PmmBitmap as an address and as the words there, PmmLength, PmmFreePages, MEM_PHYS_OFFSET, PmmLock,
-- and the other memory.
pub record Pmm : Type 0 where
  pub bitmap : ℕ
  pub words : ℕ → ℕ
  pub length : ℕ
  pub free_pages : ℕ
  pub phys_offset : ℕ
  pub locked : Bool
  pub memory : Memory

unfoldable pub test_bit : (ℕ → ℕ) → ℕ → Bool
test_bit bitmap pos = not (bit_and (bitmap (shr pos 5)) (shl 1 (bit_and pos 0x1F)) == 0)

unfoldable pub update : (ℕ → ℕ) → ℕ → ℕ → ℕ → ℕ
update words i v j = if j == i then v else words j

unfoldable pub set_bit : (ℕ → ℕ) → ℕ → ℕ → ℕ
unfolding update
set_bit bitmap pos =
    update bitmap (shr pos 5) (bit_or (bitmap (shr pos 5)) (shl 1 (bit_and pos 0x1F)))

-- `~x` on 32 bits is 2 ^ 32 - 1 - x
unfoldable pub reset_bit : (ℕ → ℕ) → ℕ → ℕ → ℕ
unfolding update
reset_bit bitmap pos =
    update bitmap (shr pos 5) (bit_and (bitmap (shr pos 5)) (2 ^ 32 - 1 - shl 1 (bit_and pos 0x1F)))

-- PmmLock: with one CPU, locking a lock that is held never returns.
unfoldable pub lock : Cmd Pmm (Unit {0})
lock s = if s.locked then hang else ok tt (record s { locked = true })

unfoldable pub unlock : Cmd Pmm (Unit {0})
unlock s = ok tt (record s { locked = false })

unfoldable pub is_bitmap_page_free : (ℕ → ℕ) → ℕ → ℕ → Bool
unfolding test_bit
is_bitmap_page_free bitmap index zero = true
is_bitmap_page_free bitmap index (suc count) =
    let rest = is_bitmap_page_free bitmap ((index + 1) % 2 ^ 64) count in
    if test_bit bitmap index then false else rest

-- set_bit on the pages from index on, for the given number of rounds
unfoldable pub set_pages : (ℕ → ℕ) → ℕ → ℕ → ℕ → ℕ
unfolding set_bit
set_pages bitmap index zero = bitmap
set_pages bitmap index (suc rounds) = set_pages (set_bit bitmap index) (index + 1) rounds

-- `for(i = index; i < (count + index); i++)`: the sum may wrap, i does not.
abbrev pub rounds : ℕ → ℕ → ℕ
rounds count index = (count + index) % 2 ^ 64 - index

-- The search of pmm_alloc_advanced. The fuel is PmmLength; `hang` is an alignment that does not
-- move on. `none` is the end of the bitmap.
pub data Search : Type 0 where
  found : ℕ → Search
  exhausted : Search
  stuck : Search

pub search_pages : ℕ → (ℕ → ℕ) → ℕ → ℕ → ℕ → ℕ → Search
unfolding is_bitmap_page_free
search_pages zero bitmap limit count alignment index = if ltb index limit then stuck else exhausted
search_pages (suc fuel) bitmap limit count alignment index =
    let rest = search_pages fuel bitmap limit count alignment ((index + alignment) % 2 ^ 64) in
    if ltb index limit
    then (if is_bitmap_page_free bitmap index count then found index else rest)
    else exhausted

-- What pmm_alloc_advanced does with the page that it found.
finish : Search → ℕ → Cmd Pmm ℕ
unfolding set_pages unlock
finish (found index) count = do
  s ← get_state
  put_state (record s {
    free_pages = if s.free_pages == 0 then 0 else (s.free_pages + 2 ^ 64 - count) % 2 ^ 64;
    words = set_pages s.words index (rounds count index);
  })
  unlock
  pure (index * page_size % 2 ^ 64)
finish exhausted count = do unlock; pure 0
finish stuck count = hang_cmd

unfoldable pub pmm_alloc_advanced : ℕ → ℕ → Cmd Pmm ℕ
unfolding search_pages finish lock
pmm_alloc_advanced count alignment = do
  lock
  s ← get_state
  finish (search_pages s.length s.words s.length count alignment 0) count

-- What memset with 0 leaves of a byte at an address.
unfoldable pub wiped_byte : ℕ → ℕ → ℕ → ℕ → ℕ
wiped_byte start size at byte = if leb start at && ltb at (start + size) then 0 else byte

-- What memset with 0 leaves of the bitmap's words, for a bitmap at an address of so many pages.
unfoldable pub wiped : ℕ → ℕ → ℕ → ℕ → (ℕ → ℕ) → ℕ → ℕ
unfolding wiped_byte
wiped start size bitmap pages words j =
    let at = bitmap + 4 * j in
    let w = words j in
    if ltb j ((pages + 31) / 32) && (ltb start (at + 4) && ltb at (start + size))
    then wiped_byte start size at (w % 2 ^ 8)
      + wiped_byte start size (at + 1) (w / 2 ^ 8 % 2 ^ 8) * 2 ^ 8
      + wiped_byte start size (at + 2) (w / 2 ^ 16 % 2 ^ 8) * 2 ^ 16
      + wiped_byte start size (at + 3) (w / 2 ^ 24 % 2 ^ 8) * 2 ^ 24
    else w

-- The zeros are written over the bitmap too, where it lies in the range.
unfoldable pub pmm_alloc : ℕ → Cmd Pmm ℕ
unfolding memset wiped
pmm_alloc count = do
  addr ← pmm_alloc_advanced count 1
  s ← get_state
  let start = (addr + s.phys_offset) % 2 ^ 64
  let size = page_size * count % 2 ^ 64
  put_state (record s {
    memory = memset s.memory start 0 size;
    words = wiped start size s.bitmap s.length s.words;
  })
  pure addr

-- reset_bit on the pages from index on
unfoldable pub reset_pages : (ℕ → ℕ) → ℕ → ℕ → ℕ → ℕ
unfolding reset_bit
reset_pages bitmap index zero = bitmap
reset_pages bitmap index (suc count) =
    reset_pages (reset_bit bitmap index) ((index + 1) % 2 ^ 64) count

release : ℕ → ℕ → Cmd Pmm (Unit {0})
unfolding reset_pages lock unlock
release index count = do
  lock
  s ← get_state
  put_state (record s {
    free_pages = (s.free_pages + count) % 2 ^ 64;
    words = reset_pages s.words index count;
  })
  unlock

unfoldable pub pmm_free : ℕ → ℕ → Cmd Pmm (Unit {0})
unfolding release
pmm_free addr count = do
  s ← get_state
  if leb s.phys_offset addr then hang_cmd else release (addr / page_size) count
