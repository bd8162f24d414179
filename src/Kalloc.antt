-- ===== src/Kalloc.antt =====
-- The kernel heap, kernel/mem/alloc.c, over the page allocator. A block has a page of its own in
-- front, which begins with a kmem_header_t; `headers` holds those headers by address.
pub mod Blocks
pub mod Free
use new_wiv_os.Base.{
  ℕ, zero, suc, ◌+◌, ◌-◌, ◌*◌, ◌/◌, ◌%◌, ◌^◌, Bool, true, false, not, if◌then◌else◌, ltb, leb, ◌==◌,
  ◌||◌,
}
use new_wiv_os.Base.Run.{
  Run, ok, fault, hang, Cmd, and_then, pure, ◌>>=◌, ◌>>◌, hang_cmd, get_state, put_state,
}
use new_wiv_os.Strings.Memory.{Memory, memset, memcpy}
use new_wiv_os.Pmm.{Pmm, page_size, pmm_alloc, pmm_free}

-- kmem_header_t
pub record Header : Type 0 where
  pub pages : ℕ
  pub size : ℕ

pub record Heap : Type 0 where
  pub pmm : Pmm
  pub headers : ℕ → Header

-- A call of the page allocator.
abbrev pub lift_run : {A : Type 0} → (ℕ → Header) → Run Pmm A → Run Heap A
lift_run headers (ok a pmm) = ok a (record { pmm = pmm; headers = headers })
lift_run headers fault = fault
lift_run headers hang = hang

abbrev pub lift : {A : Type 0} → Cmd Pmm A → Cmd Heap A
lift m h = lift_run h.headers (m h.pmm)

abbrev pub set_memory : Heap → Memory → Heap
set_memory h m = record h { pmm = record h.pmm { memory = m } }

unfoldable pub write_header : (ℕ → Header) → ℕ → Header → ℕ → Header
write_header headers at header a = if a == at then header else headers a

-- ROUND_UP(N, S) of kernel/arch/common.h
unfoldable pub round_up : ℕ → ℕ → ℕ
round_up n s = (n + s - 1) % 2 ^ 64 / s * s

-- The number of pages that size bytes take.
unfoldable pub page_count : ℕ → ℕ
page_count size = if size % page_size == 0 then size / page_size else size / page_size + 1

unfoldable pub kmalloc : ℕ → Cmd Heap ℕ
unfolding write_header
kmalloc size = do
  ret ← lift (pmm_alloc (page_count size + 1))
  if ret == 0 then pure 0 else do
    h ← get_state
    let header = (ret + h.pmm.phys_offset) % 2 ^ 64
    put_state (record h {
      headers = write_header h.headers header (record { pages = page_count size; size = size });
    })
    pure ((header + page_size) % 2 ^ 64)

unfoldable pub kfree : ℕ → Cmd Heap (Unit {0})
kfree addr = do
  h ← get_state
  let header = (addr + 2 ^ 64 - page_size) % 2 ^ 64
  lift (pmm_free ((header + 2 ^ 64 - h.pmm.phys_offset) % 2 ^ 64) ((h.headers header).pages + 1))

-- The last part of krealloc: a new block, the common bytes, and the release of the old block.
move_block : ℕ → ℕ → Cmd Heap ℕ
unfolding kmalloc kfree
move_block addr size = do
  new_addr ← kmalloc size
  if new_addr == 0 then pure 0 else do
    h ← get_state
    let old_size = (h.headers ((addr + 2 ^ 64 - page_size) % 2 ^ 64)).size
    put_state (
        set_memory h
          (memcpy h.pmm.memory new_addr addr (if ltb size old_size then size else old_size)))
    kfree addr
    pure new_addr

unfoldable pub krealloc : ℕ → ℕ → Cmd Heap ℕ
unfolding move_block round_up
krealloc addr size =
    if addr == 0 then kmalloc size else if size == 0 then (do kfree addr; pure 0) else do
      h ← get_state
      let header = (addr + 2 ^ 64 - page_size) % 2 ^ 64
      let old = h.headers header
      if round_up old.size page_size == round_up size page_size
          then (do
            put_state
                (record h { headers = write_header h.headers header (record old { size = size }) })
            pure addr)
          else move_block addr size

unfoldable pub kcalloc : ℕ → ℕ → Cmd Heap ℕ
unfolding kmalloc memset
kcalloc num nsize =
    if num == 0 || nsize == 0
    then pure 0
    else let size = num * nsize % 2 ^ 64 in
      if not (nsize == size / num) then pure 0 else do
        addr ← kmalloc size
        if addr == 0 then pure 0 else do
          h ← get_state
          put_state (set_memory h (memset h.pmm.memory addr 0 size))
          pure addr
