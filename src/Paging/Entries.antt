-- ===== src/Paging/Entries.antt =====
-- Entries on the way to a page: what vmm_get_or_alloc makes, vmm_get_or_null finds.
use new_wiv_os.Base.{
  ℕ, ◌+◌, ◌-◌, ◌*◌, ◌/◌, ◌%◌, ◌^◌, ◌<◌, ◌≡◌, ◌≢◌, refl, sym, ap, ◌∙◌, arith, false, ◌==◌, ==_refl,
  ==_false, Bool-cases, inl, inr, bit_and, bit_or, List, ◌∷◌,
}
use new_wiv_os.Base.Bits.{bit_or_step, bit_and_step, bit_and-zero, bit_and-mask, bit_and-shl}
use new_wiv_os.Base.Run.{ok, Returns}
use new_wiv_os.Devtree.Endian.{bit_or-high, bit_or-zero}
use new_wiv_os.Vmm.{Tables, entry_at, put_entry, take_from}
use new_wiv_os.Paging.{table_at, vmm_addr_mask, vmm_get_or_alloc, vmm_get_or_null}

frame : (w : ℕ) → bit_and w vmm_addr_mask ≡ w / 2 ^ 12 % 2 ^ 51 * 2 ^ 12
frame w = bit_and-shl w (2 ^ 51 - 1) 12 ∙ ap (λ x. x * 2 ^ 12) (bit_and-mask (w / 2 ^ 12) 51)

-- A page's address and its flags share no bit.
entry_sum : (p flags : ℕ) → p % 4096 ≡ 0 → flags < 4096 → bit_or p flags ≡ p / 4096 * 2 ^ 12 + flags
entry_sum p flags whole few =
    let cut : p ≡ p / 4096 * 2 ^ 12 = omega (arith, whole) in
    ap (λ q. bit_or q flags) cut ∙ bit_or-high 12 (p / 4096) flags few

fresh_entry :
    (offset p flags : ℕ)
    → p % 4096 ≡ 0
    → flags < 4096
    → ((bit_and (bit_or p (bit_or flags 1)) 1 == 0) ≡ false)
      × (table_at offset (bit_or p (bit_or flags 1)) ≡ table_at offset p)
unfolding table_at
fresh_entry offset p flags whole few =
    let f = bit_or flags 1 in
    let or = bit_or_step flags 1 in
    let room : f < 4096 = omega (arith, or, few, bit_or-zero (flags / 2)) in
    let sum = entry_sum p f whole room in
    let w = bit_or p f in
    let low : bit_and w 1 ≡ 1 = omega (arith, bit_and_step w 1, bit_and-zero (w / 2), sum, or) in
    let same : w / 2 ^ 12 ≡ p / 2 ^ 12 = omega (arith, sum, room) in
    (
      rw low refl,
      ap (λ x. (x + offset) % 2 ^ 64)
          (frame w ∙ ap (λ x. x % 2 ^ 51 * 2 ^ 12) same ∙ sym (frame p)),
    )

-- vmm_get_or_alloc returns, and vmm_get_or_null then finds the table that it answered, for flags
-- of twelve bits and a next free page that is a whole page other than page 0.
pub get_or_alloc-found :
    (t : Tables) (pt i flags p : ℕ) (ps : List ℕ)
    → p % 4096 ≡ 0
    → p ≢ 0
    → flags < 4096
    → Returns
        (vmm_get_or_alloc pt i flags (record t { pages = p ∷ ps }))
        (λ a t'. vmm_get_or_null pt i t' ≡ ok a t')
unfolding vmm_get_or_alloc vmm_get_or_null take_from put_entry
get_or_alloc-found t pt i flags p ps whole nonzero few =
    let (present, table) = fresh_entry t.offset p flags whole few in
    elim (Bool-cases (bit_and (t.words (entry_at pt i)) 1 == 0)) [
      | inr there ↦ rw (there, there)
      | inl missing ↦ rw (missing, ==_false p 0 nonzero, ==_refl (entry_at pt i), present, table)
    ]
