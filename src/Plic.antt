-- ===== src/Plic.antt =====
-- The interrupt controller, kernel/arch/riscv64/plic.c. Its registers are 32-bit words that hold what
-- was written to them last; context_id is 0. The messages are left out.
pub mod Enable
use new_wiv_os.Base.{
  ℕ, zero, suc, ◌+◌, ◌-◌, ◌*◌, ◌/◌, ◌%◌, ◌^◌, bit_and, bit_or, Bool, true, false, if◌then◌else◌,
  ◌==◌, Option, none, some, List, [], ◌∷◌,
}
use new_wiv_os.Base.Bits.{shl}
use new_wiv_os.Base.Run.{ok, fault, hang, Cmd}
use new_wiv_os.Hashmap.{Key}
use new_wiv_os.Devtree.{
  Property, Tree, tree, Answer, refused, answer, outside, dtb_find_node, dtb_prop_read_u32,
  dtb_prop_read_address_range,
}

-- plic_address, plic_size, plic_ndev, and the registers by address.
pub record Plic : Type 0 where
  pub address : ℕ
  pub size : ℕ
  pub ndev : ℕ
  pub word : ℕ → ℕ

-- A write to *((volatile uint32_t *)a).
unfoldable pub poke : ℕ → ℕ → Plic → Plic
poke a value p = record p { word = λ b. if a == b then value else p.word b }

-- plic_address + (PLIC_PRIORITY_OFFSET + id * PLIC_PRIORITY_SOURCE_STRIDE), of 32-bit ids
unfoldable pub priority_at : Plic → ℕ → ℕ
priority_at p id = (p.address + id * 4 % 2 ^ 32) % 2 ^ 64

unfoldable pub plic_set_priority : ℕ → ℕ → Plic → Plic
unfolding poke priority_at
plic_set_priority id priority p = poke (priority_at p id) priority p

-- plic_address + PLIC_IE_OFFSET + ((id >> 5) << 2)
unfoldable pub enable_at : Plic → ℕ → ℕ
enable_at p id = (p.address + (0x2000 + id / 32 * 4)) % 2 ^ 64

-- 1 << (id & 0x1F)
unfoldable pub enable_mask : ℕ → ℕ
enable_mask id = 2 ^ (id % 32)

unfoldable pub arch_interrupt_enable : ℕ → Plic → Plic
unfolding plic_set_priority poke enable_at enable_mask
arch_interrupt_enable id p =
    let q = plic_set_priority id 1 p in
    poke (enable_at q id) (bit_or (q.word (enable_at q id)) (enable_mask id)) q

unfoldable pub arch_interrupt_disable : ℕ → Plic → Plic
unfolding plic_set_priority poke enable_at enable_mask
arch_interrupt_disable id p =
    let q = plic_set_priority id 1 p in
    poke (enable_at q id) (bit_and (q.word (enable_at q id)) (2 ^ 32 - 1 - enable_mask id)) q

-- plic_address + PLIC_CLAIM_OFFSET, also PLIC_COMPLETE_OFFSET
unfoldable pub claim_at : Plic → ℕ
claim_at p = (p.address + 0x200004) % 2 ^ 64

unfoldable pub plic_claim : Plic → ℕ
unfolding claim_at
plic_claim p = p.word (claim_at p)

unfoldable pub arch_interrupt_complete : ℕ → Plic → Plic
unfolding claim_at poke
arch_interrupt_complete id p = poke (claim_at p) id p

-- Of the type uint32_t.
unfoldable pub arch_interrupt_max : Plic → ℕ
arch_interrupt_max p = (p.ndev + 2 ^ 32 - 1) % 2 ^ 32

unfoldable pub arch_interrupt_min : Plic → ℕ
arch_interrupt_min p = 0

abbrev pub soc_path : Key
soc_path = b'/' ∷ b's' ∷ b'o' ∷ b'c' ∷ []

abbrev pub plic_path : Key
plic_path = b'/' ∷ b's' ∷ b'o' ∷ b'c' ∷ b'/' ∷ b'p' ∷ b'l' ∷ b'i' ∷ b'c' ∷ []

abbrev pub address_cells_name : Key
address_cells_name =
    b'#' ∷ b'a' ∷ b'd' ∷ b'd' ∷ b'r' ∷ b'e' ∷ b's' ∷ b's' ∷ b'-' ∷ b'c' ∷ b'e' ∷ b'l' ∷ b'l' ∷ b's'
    ∷ []

abbrev pub size_cells_name : Key
size_cells_name = b'#' ∷ b's' ∷ b'i' ∷ b'z' ∷ b'e' ∷ b'-' ∷ b'c' ∷ b'e' ∷ b'l' ∷ b'l' ∷ b's' ∷ []

abbrev pub reg_name : Key
reg_name = b'r' ∷ b'e' ∷ b'g' ∷ []

abbrev pub ndev_name : Key
ndev_name = b'r' ∷ b'i' ∷ b's' ∷ b'c' ∷ b'v' ∷ b',' ∷ b'n' ∷ b'd' ∷ b'e' ∷ b'v' ∷ []

abbrev pub props_of : Tree → List Property
props_of (tree name props children) = props

-- The value of a property, for the rest of plic_init_dtb: true is 0, false is -1.
abbrev pub reading : Answer → (ℕ → Cmd Plic Bool) → Cmd Plic Bool
reading refused next p = ok false p
reading outside next p = fault
reading (answer v) next p = next v p

-- dtb_prop_read_address_range writes *address and *size also where it answers -1.
unfoldable pub read_range : List Property → ℕ → ℕ → (Cmd Plic Bool) → Cmd Plic Bool
unfolding dtb_prop_read_address_range
read_range props address_cells size_cells next p =
    elim (dtb_prop_read_address_range true props reg_name address_cells size_cells p.address
      p.size) [
        | none ↦ fault
        | some (done, a, s) ↦
            let q = record p { address = a; size = s } in if done then next q else ok false q
      ]

unfoldable pub plic_init_dtb : Option Tree → Cmd Plic Bool
unfolding dtb_find_node dtb_prop_read_u32 read_range
plic_init_dtb root p = elim (dtb_find_node root plic_path 0 false) [
  | none ↦ ok false p
  | some plic ↦ elim (dtb_find_node root soc_path 0 false) [
    | none ↦ ok false p
    | some soc ↦
        reading (dtb_prop_read_u32 true (props_of soc) address_cells_name 0)
          (λ address_cells.
            reading (dtb_prop_read_u32 true (props_of soc) size_cells_name 0) (λ size_cells.
              read_range (props_of plic) address_cells size_cells (
                reading (dtb_prop_read_u32 true (props_of plic) ndev_name 0)
                  (λ ndev q. ok true (record q { ndev = ndev })))))
          p
  ]
]

-- plic_init, which does not return where the device tree has no usable node. The physical memory is
-- mapped at `phys`, MEM_PHYS_OFFSET.
unfoldable pub plic_init : Option Tree → ℕ → Cmd Plic (Unit {0})
unfolding plic_init_dtb
plic_init root phys p = elim (plic_init_dtb root p) [
  | ok found q ↦ if found then ok tt (record q { address = (q.address + phys) % 2 ^ 64 }) else hang
  | fault ↦ fault
  | hang ↦ hang
]
