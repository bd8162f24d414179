-- ===== src/Paging.antt =====
-- The page tables of kernel/arch/x86_64/vmm.c: four levels over the memory of entries that Vmm has,
-- whose lock, entries, level indices and supply of pages these functions share.
pub mod Entries
use new_wiv_os.Base.{
  ℕ, zero, suc, ◌+◌, ◌-◌, ◌%◌, ◌^◌, Bool, true, false, not, if◌then◌else◌, ltb, ◌==◌, bit_and,
  bit_or,
}
use new_wiv_os.Base.Run.{
  Run, ok, fault, hang, Cmd, and_then, pure, ◌>>=◌, ◌>>◌, hang_cmd, fault_cmd, get_state, put_state,
}
use new_wiv_os.Vmm.{Tables, lock, unlock, level, take_from, entry_at, put_entry}

abbrev pub vmm_present : ℕ
vmm_present = 1

abbrev pub vmm_write : ℕ
vmm_write = 2

abbrev pub vmm_user : ℕ
vmm_user = 4

abbrev pub vmm_large : ℕ
vmm_large = 0x80

-- ~VMM_FLAG_MASK
abbrev pub vmm_addr_mask : ℕ
vmm_addr_mask = 2 ^ 63 - 0x1000

-- pt_offset_t
pub record Offsets : Type 0 where
  pub pml4_off : ℕ
  pub pdp_off : ℕ
  pub pd_off : ℕ
  pub pt_off : ℕ

unfoldable pub get_addr_offsets : ℕ → Offsets
unfolding level
get_addr_offsets addr = record {
  pml4_off = level addr 3;
  pdp_off = level addr 2;
  pd_off = level addr 1;
  pt_off = level addr 0;
}

-- (addr & VMM_ADDR_MASK) + MEM_PHYS_OFFSET
unfoldable pub table_at : ℕ → ℕ → ℕ
table_at offset word = (bit_and word vmm_addr_mask + offset) % 2 ^ 64

unfoldable pub vmm_get_or_alloc : ℕ → ℕ → ℕ → Cmd Tables ℕ
unfolding take_from put_entry table_at
vmm_get_or_alloc pt i flags = do
  t ← get_state
  if bit_and (t.words (entry_at pt i)) vmm_present == 0
      then (do
        addr ← take_from t.pages
        if addr == 0 then hang_cmd else do
          put_entry pt i (bit_or addr (bit_or flags vmm_present))
          pure (table_at t.offset addr))
      else pure (table_at t.offset (t.words (entry_at pt i)))

unfoldable pub vmm_get_or_null : ℕ → ℕ → Cmd Tables ℕ
unfolding table_at
vmm_get_or_null pt i = do
  t ← get_state
  if bit_and (t.words (entry_at pt i)) vmm_present == 0
      then pure 0
      else pure (table_at t.offset (t.words (entry_at pt i)))

-- phys | permissions | VMM_PRESENT
unfoldable pub leaf : ℕ → ℕ → ℕ
leaf phys permissions = bit_or (bit_or phys permissions) vmm_present

-- One round of vmm_map_advanced.
unfoldable pub map_one : Bool → ℕ → ℕ → ℕ → Cmd Tables Bool
unfolding get_addr_offsets vmm_get_or_alloc leaf put_entry
map_one huge permissions addr phys = do
  t ← get_state
  let offset = get_addr_offsets addr
  let pml4 = (t.root + t.offset) % 2 ^ 64
  if pml4 == 0 then pure false else do
    pdp ← vmm_get_or_alloc pml4 offset.pml4_off 6
    if pdp == 0 then pure false else do
      pd ← vmm_get_or_alloc pdp offset.pdp_off 6
      if pd == 0
          then pure false
          else if huge
          then (do put_entry pd offset.pd_off (bit_or (leaf phys permissions) vmm_large); pure true)
          else do
            pt ← vmm_get_or_alloc pd offset.pd_off 6
            if pt == 0
                then pure false
                else do put_entry pt offset.pt_off (leaf phys permissions); pure true

unfoldable pub map_loop : ℕ → Bool → ℕ → ℕ → ℕ → Cmd Tables Bool
unfolding map_one
map_loop zero huge permissions addr phys = pure true
map_loop (suc size) huge permissions addr phys = do
  mapped ← map_one huge permissions addr phys
  let step = if huge then 0x200000 else 0x1000
  if mapped
      then map_loop size huge permissions ((addr + step) % 2 ^ 64) ((phys + step) % 2 ^ 64)
      else pure false

unfoldable pub vmm_map_advanced : ℕ → ℕ → ℕ → ℕ → Bool → Cmd Tables Bool
unfolding map_loop lock unlock
vmm_map_advanced addr phys size permissions huge = do
  lock
  mapped ← map_loop size huge permissions addr phys
  unlock
  pure mapped

-- The loop of vmm_unmap, for at most `fuel` rounds; a missing last table is written through NULL.
unfoldable pub unmap_loop : ℕ → ℕ → ℕ → Cmd Tables Bool
unfolding get_addr_offsets vmm_get_or_null put_entry
unmap_loop zero size addr = hang_cmd
unmap_loop (suc fuel) size addr = if size == 0 then pure true else do
  t ← get_state
  let offset = get_addr_offsets addr
  let pml4 = (t.root + t.offset) % 2 ^ 64
  if pml4 == 0 then pure false else do
    pdp ← vmm_get_or_null pml4 offset.pml4_off
    if pdp == 0 then pure false else do
      pd ← vmm_get_or_null pdp offset.pdp_off
      s ← get_state
      if pd == 0
          then pure false
          else if not (bit_and (s.words (entry_at pd offset.pd_off)) vmm_large == 0)
          then (if ltb (size - 1) 0x1FF then pure false else do
            put_entry pd offset.pd_off 0
            unmap_loop fuel ((size - 1 + 2 ^ 64 - 0x200) % 2 ^ 64) ((addr + 0x200000) % 2 ^ 64))
          else do
            pt ← vmm_get_or_null pd offset.pd_off
            if pt == 0 then fault_cmd else do
              put_entry pt offset.pt_off 0
              unmap_loop fuel (size - 1) ((addr + 0x1000) % 2 ^ 64)

unfoldable pub vmm_unmap : ℕ → ℕ → ℕ → Cmd Tables Bool
unfolding unmap_loop lock unlock
vmm_unmap fuel addr size = do lock; unmapped ← unmap_loop fuel size addr; unlock; pure unmapped
