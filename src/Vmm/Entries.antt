-- ===== src/Vmm/Entries.antt =====
-- Virtual addresses are cut into level indices, and table entries give back the tables that they
-- were made for.
use new_wiv_os.Base.{
  ℕ, zero, suc, ◌+◌, ◌-◌, ◌*◌, ◌/◌, ◌%◌, ◌^◌, ◌≤◌, ◌<◌, false, ◌==◌, bit_and, bit_or, List, ◌∷◌,
  ◌≡◌, ◌≢◌, arith, ◌∙◌, Bool-cases, inl, inr, ==_refl, ==_false,
}
use new_wiv_os.Base.Bits.{
  shl, shr, bit_and-shl, bit_and-mask, bit_or_step, bit_and_step, bit_and-zero,
}
use native.Mathlib.Nat.{div-eq_of_eq-mul_right, one-le-pow}
use new_wiv_os.Base.Run.{ok, Returns}
use new_wiv_os.Devtree.Endian.{bit_or-high, bit_or-zero}
use new_wiv_os.Vmm.{
  Tables, level, take_from, entry_at, put_entry, table_of, vmm_get_or_alloc, vmm_get_or_null,
}

level_of_mask : (addr s : ℕ) → shr (bit_and addr (shl 0x1FF s)) s ≡ addr / 2 ^ s % 512
level_of_mask addr s =
    rw (bit_and-shl addr 0x1FF s, bit_and-mask (addr / 2 ^ s) 9)
      (div-eq_of_eq-mul_right (one-le-pow s 2 (omega arith))
        (mul_comm (addr / 2 ^ s % 2 ^ 9) (2 ^ s)))
  where
    mul_comm : (a b : ℕ) → a * b ≡ b * a
    mul_comm a b = grind arith

-- Each of the five level indices of a virtual address is its nine bits of the address.
pub level-digit : (addr i : ℕ) → i ≤ 4 → level addr i ≡ addr / 2 ^ (12 + 9 * i) % 512
unfolding level
level-digit addr zero h = level_of_mask addr 12
level-digit addr (suc zero) h = level_of_mask addr 21
level-digit addr (suc (suc zero)) h = level_of_mask addr 30
level-digit addr (suc (suc (suc zero))) h = level_of_mask addr 39
level-digit addr (suc (suc (suc (suc zero)))) h = level_of_mask addr 48
level-digit addr (suc (suc (suc (suc (suc i))))) h = absurd (omega arith)

-- The bits of an entry for a table at a whole page.
entry_sum :
    (p flags : ℕ)
    → p % 4096 ≡ 0
    → flags < 2 ^ 10
    → bit_or flags 1 < 2 ^ 10
    → bit_or (shr p 2) (bit_or flags 1) ≡ p / 4096 * 2 ^ 10 + bit_or flags 1
entry_sum p flags whole small small' =
    let page : p / 4 ≡ p / 4096 * 2 ^ 10 = omega arith in
    rw page (bit_or-high 10 (p / 4096) (bit_or flags 1) small')

frame_bits : (w : ℕ) → w < 2 ^ 64 → bit_and w (2 ^ 64 - 1 - 0x3FF) ≡ w / 2 ^ 10 * 2 ^ 10
frame_bits w h = bit_and-shl w (2 ^ 54 - 1) 10 ∙ rw (bit_and-mask (shr w 10) 54) (omega arith)

-- On entries below 2 ^ 64 the flags do not show in the table that an entry stands for.
pub table_of-flags :
    (offset p flags : ℕ)
    → p % 4096 ≡ 0
    → p < 2 ^ 64
    → flags < 2 ^ 10
    → table_of offset (p / 4096 * 2 ^ 10 + flags) ≡ table_of offset (shr p 2)
unfolding table_of
table_of-flags offset p flags whole small small' =
    let cut : (p / 4096 * 2 ^ 10 + flags) / 2 ^ 10 ≡ p / 4 / 2 ^ 10 = omega arith in
    rw (frame_bits (p / 4096 * 2 ^ 10 + flags) (omega arith), frame_bits (p / 4) (omega arith), cut)

set_present : (flags : ℕ) → flags < 2 ^ 10 → (bit_or flags 1 < 2 ^ 10) × (bit_or flags 1 % 2 ≡ 1)
set_present flags small = (
  omega (arith, bit_or_step flags 1, bit_or-zero (flags / 2)),
  omega (arith, bit_or_step flags 1),
)

low_bit : (w : ℕ) → bit_and w 1 ≡ w % 2
low_bit w = omega (arith, bit_and_step w 1, bit_and-zero (w / 2))

-- A fresh entry is present, and stands for its table.
fresh_entry :
    (offset p flags : ℕ)
    → p % 4096 ≡ 0
    → p < 2 ^ 64
    → flags < 2 ^ 10
    → ((bit_and (bit_or (shr p 2) (bit_or flags 1)) 1 == 0) ≡ false)
      × (table_of offset (bit_or (shr p 2) (bit_or flags 1)) ≡ table_of offset (shr p 2))
fresh_entry offset p flags whole small few =
    let (room, odd) = set_present flags few in
    rw (entry_sum p flags whole few room) (
      rw (low_bit (p / 4096 * 2 ^ 10 + bit_or flags 1)) (==_false _ 0 (omega (arith, odd))),
      table_of-flags offset p (bit_or flags 1) whole small room,
    )

-- vmm_get_or_alloc returns, and vmm_get_or_null then finds the table that it answered, for flags
-- of ten bits and a next free page that is a whole page other than page 0.
pub get_or_alloc-get_or_null :
    (t : Tables) (pt i flags p : ℕ) (ps : List ℕ)
    → p % 4096 ≡ 0
    → p ≢ 0
    → p < 2 ^ 64
    → flags < 2 ^ 10
    → Returns
        (vmm_get_or_alloc pt i flags (record t { pages = p ∷ ps }))
        (λ a t'. vmm_get_or_null pt i t' ≡ ok a t')
unfolding vmm_get_or_alloc vmm_get_or_null take_from put_entry
get_or_alloc-get_or_null t pt i flags p ps whole nonzero small few =
    let (present, table) = fresh_entry t.offset p flags whole small few in
    elim (Bool-cases (bit_and (t.words (entry_at pt i)) 1 == 0)) [
      | inr there ↦ rw (there, there)
      | inl missing ↦ rw (missing, ==_false p 0 nonzero, ==_refl (entry_at pt i), present, table)
    ]
