-- ===== src/Vmm.antt =====
-- The page tables of kernel/arch/riscv64/vmm.c. `words` is the memory that holds the tables, by
-- the address of a 64-bit entry as the kernel sees it; `pages` is what pmm_alloc(1) hands out, in
-- order (behind its end no page is free, which hangs).
pub mod Entries
pub mod Unmap
use new_wiv_os.Base.{
  ℕ, zero, suc, ◌+◌, ◌-◌, ◌*◌, ◌/◌, ◌%◌, ◌^◌, Bool, true, false, not, ◌&&◌, if◌then◌else◌, ltb, leb,
  ◌==◌, bit_and, bit_or, List, [], ◌∷◌,
}
use new_wiv_os.Base.Bits.{shl, shr}
use new_wiv_os.Base.Run.{
  Run, ok, fault, hang, Cmd, and_then, pure, ◌>>=◌, ◌>>◌, hang_cmd, fault_cmd, get_state, put_state,
}

-- A pt_t (`root` is its entries) with MEM_PHYS_OFFSET, max_level and the memory of the tables.
pub record Tables : Type 0 where
  pub words : ℕ → ℕ
  pub offset : ℕ
  pub root : ℕ
  pub max_level : ℕ
  pub pages : List ℕ
  pub locked : Bool

unfoldable pub lock : Cmd Tables (Unit {0})
lock t = if t.locked then hang else ok tt (record t { locked = true })

unfoldable pub unlock : Cmd Tables (Unit {0})
unlock t = ok tt (record t { locked = false })

-- One field of get_addr_offsets
unfoldable pub level : ℕ → ℕ → ℕ
level addr i = shr (bit_and addr (shl 0x1FF (12 + 9 * i) % 2 ^ 64)) (12 + 9 * i)

-- pmm_alloc(1): the page is filled with zeros.
unfoldable pub take_from : List ℕ → Cmd Tables ℕ
take_from [] t = hang
take_from (p ∷ ps) t =
    let start = (p + t.offset) % 2 ^ 64 in
    ok p (record t {
      pages = ps;
      words = λ a. if leb start a && ltb a (start + 0x1000) then 0 else t.words a;
    })

abbrev pub entry_at : ℕ → ℕ → ℕ
entry_at pt i = (pt + 8 * i) % 2 ^ 64

unfoldable pub put_entry : ℕ → ℕ → ℕ → Cmd Tables (Unit {0})
put_entry pt i word t =
    ok tt (record t { words = λ a. if a == entry_at pt i then word else t.words a })

-- addr &= ~VMM_FLAG_MASK; addr <<= 2; and the table that is returned
unfoldable pub table_of : ℕ → ℕ → ℕ
table_of offset word =
    let addr = shl (bit_and word (2 ^ 64 - 1 - 0x3FF)) 2 % 2 ^ 64 in
    ((if bit_and addr offset == 0 then addr else bit_or addr offset) + offset) % 2 ^ 64

unfoldable pub vmm_get_or_alloc : ℕ → ℕ → ℕ → Cmd Tables ℕ
unfolding take_from put_entry table_of
vmm_get_or_alloc pt i flags = do
  t ← get_state
  if bit_and (t.words (entry_at pt i)) 1 == 0
      then (do
        addr ← take_from t.pages
        if addr == 0 then hang_cmd else do
          put_entry pt i (bit_or (shr addr 2) (bit_or flags 1))
          pure (table_of t.offset (shr addr 2)))
      else pure (table_of t.offset (t.words (entry_at pt i)))

-- NULL is 0.
unfoldable pub vmm_get_or_null : ℕ → ℕ → Cmd Tables ℕ
unfolding table_of
vmm_get_or_null pt i = do
  t ← get_state
  if bit_and (t.words (entry_at pt i)) 1 == 0
      then pure 0
      else pure (table_of t.offset (t.words (entry_at pt i)))

-- for(i = max_level - 1; i > 1; i--), on the way allocating
unfoldable pub walk_alloc : ℕ → ℕ → ℕ → Cmd Tables ℕ
unfolding vmm_get_or_alloc level
walk_alloc addr zero pt = pure pt
walk_alloc addr (suc zero) pt = pure pt
walk_alloc addr (suc (suc i)) pt = do
  next ← vmm_get_or_alloc pt (level addr (i + 2)) 1
  if next == 0 then pure 0 else walk_alloc addr (suc i) next

unfoldable pub walk_null : ℕ → ℕ → ℕ → Cmd Tables ℕ
unfolding vmm_get_or_null level
walk_null addr zero pt = pure pt
walk_null addr (suc zero) pt = pure pt
walk_null addr (suc (suc i)) pt = do
  next ← vmm_get_or_null pt (level addr (i + 2))
  if next == 0 then pure 0 else walk_null addr (suc i) next

-- The entry of a page: (phys >> 2) | (permissions & VMM_FLAG_MASK) | VMM_PRESENT
unfoldable pub leaf : ℕ → ℕ → ℕ
leaf phys permissions = bit_or (bit_or (shr phys 2) (bit_and permissions 0x3FF)) 1

-- One round of vmm_map_advanced.
unfoldable pub map_one : Bool → ℕ → ℕ → ℕ → Cmd Tables Bool
unfolding walk_alloc leaf put_entry
map_one huge permissions addr phys = do
  t ← get_state
  let top = (t.root + t.offset) % 2 ^ 64
  if top == 0 then pure false else do
    pt ← walk_alloc addr (t.max_level - 1) top
    if pt == 0
        then pure false
        else if huge
        then (do put_entry pt (level addr 1) (leaf phys permissions); pure true)
        else do
          level1 ← vmm_get_or_alloc pt (level addr 1) 1
          if level1 == 0
              then fault_cmd
              else do put_entry level1 (level addr 0) (leaf phys permissions); pure true

unfoldable pub map_loop : ℕ → Bool → ℕ → ℕ → ℕ → Cmd Tables Bool
unfolding map_one
map_loop zero huge permissions addr phys = pure true
map_loop (suc size) huge permissions addr phys = do
  mapped ← map_one huge permissions addr phys
  let step = if huge then 0x200000 else 0x1000
  if mapped
      then map_loop size huge permissions ((addr + step) % 2 ^ 64) ((phys + step) % 2 ^ 64)
      else pure false

unfoldable pub vmm_map_advanced : ℕ → ℕ → ℕ → ℕ → Bool → Cmd Tables Bool
unfolding map_loop lock unlock
vmm_map_advanced addr phys size permissions huge = do
  lock
  mapped ← map_loop size huge permissions addr phys
  unlock
  pure mapped

-- The loop of vmm_unmap, for at most `fuel` rounds; a missing last table is written through NULL.
unfoldable pub unmap_loop : ℕ → ℕ → ℕ → Cmd Tables Bool
unfolding walk_null put_entry
unmap_loop zero size addr = hang_cmd
unmap_loop (suc fuel) size addr = if size == 0 then pure true else do
  t ← get_state
  let top = (t.root + t.offset) % 2 ^ 64
  if top == 0 then pure false else do
    pt ← walk_null addr (t.max_level - 1) top
    s ← get_state
    if pt == 0
        then pure false
        else if not (bit_and (s.words (entry_at pt (level addr 1))) 14 == 0)
        then (if ltb (size - 1) 0x1FF then pure false else do
          put_entry pt (level addr 1) 0
          unmap_loop fuel ((size - 1 + 2 ^ 64 - 0x200) % 2 ^ 64) ((addr + 0x200000) % 2 ^ 64))
        else do
          level1 ← vmm_get_or_null pt (level addr 1)
          if level1 == 0 then fault_cmd else do
            put_entry level1 (level addr 0) 0
            unmap_loop fuel (size - 1) ((addr + 0x1000) % 2 ^ 64)

unfoldable pub vmm_unmap : ℕ → ℕ → ℕ → Cmd Tables Bool
unfolding unmap_loop lock unlock
vmm_unmap fuel addr size = do lock; unmapped ← unmap_loop fuel size addr; unlock; pure unmapped

-- ((uint64_t)(5 + max_level) << 60) | ((uint64_t)entries >> 12)
unfoldable pub riscv_vmm_create_satp : ℕ → ℕ → ℕ
riscv_vmm_create_satp max_level entries = bit_or (shl (5 + max_level) 60 % 2 ^ 64) (shr entries 12)
