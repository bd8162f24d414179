-- ===== src/Plic/Enable.antt =====
-- Which interrupts are enabled.
use new_wiv_os.Base.{
  ℕ, ◌+◌, ◌-◌, ◌/◌, ◌%◌, ◌^◌, ◌<◌, ◌≤◌, ◌≡◌, ◌≢◌, refl, ◌∙◌, ap, arith, false, if◌then◌else◌, ◌==◌,
  ==_false, ==_iff, Bool-cases, inl, inr,
}
use new_wiv_os.Base.Bits.{bit, bit-bit_or, bit-bit_and, bit-pow, bit-le_one, bit-complement, pow-lt}
use new_wiv_os.Plic.{
  Plic, priority_at, plic_set_priority, poke, enable_at, enable_mask, arch_interrupt_enable,
  arch_interrupt_disable,
}

-- The enable bit of an interrupt.
abbrev pub enabled : Plic → ℕ → ℕ
enabled p id = bit (p.word (enable_at p id)) (id % 32)

module _ (p : Plic) (fits : p.address + 0x400000 ≤ 2 ^ 64) where
  -- The registers of the priorities and of the enable bits do not overlap.
  apart : (i j : ℕ) → i < 1024 → j < 1024 → priority_at p i ≢ enable_at p j
  unfolding priority_at enable_at
  apart i j hi hj e = omega arith

  enable_at-eq : (i j : ℕ) → i < 1024 → j < 1024 → enable_at p i ≡ enable_at p j → i / 32 ≡ j / 32
  unfolding enable_at
  enable_at-eq i j hi hj e = omega arith

  -- A write to the priority leaves every enable bit, and the write after it changes one word.
  switched :
      (i j value : ℕ)
      → i < 1024
      → j < 1024
      → (poke (enable_at p i) value (plic_set_priority i 1 p)).word (enable_at p j)
        ≡ (if enable_at p i == enable_at p j then value else p.word (enable_at p j))
  unfolding poke plic_set_priority
  switched i j value hi hj = rw (==_false (priority_at p i) (enable_at p j) (apart i j hi hj)) refl

  kept :
      (i j : ℕ)
      → i < 1024
      → j < 1024
      → (plic_set_priority i 1 p).word (enable_at p j) ≡ p.word (enable_at p j)
  unfolding poke plic_set_priority
  kept i j hi hj = rw (==_false (priority_at p i) (enable_at p j) (apart i j hi hj)) refl

  -- The bit of j after a write to the enable word of i.
  module _ (i j value result : ℕ) (hi : i < 1024) (hj : j < 1024)
      (same_word : enable_at p i ≡ enable_at p j
        → bit value (j % 32) ≡ (if i == j then result else enabled p j)) where
    switch-bit :
        bit ((poke (enable_at p i) value (plic_set_priority i 1 p)).word (enable_at p j)) (j % 32)
        ≡ (if i == j then result else enabled p j)
    switch-bit = elim (Bool-cases (enable_at p i == enable_at p j)) [
      | inl same ↦ rw (switched i j value hi hj, same) (same_word ((==_iff _ _).0 same))
      | inr other ↦
          let ne : i ≢ j = λ e. ne_of other e in
          rw (switched i j value hi hj, other, ==_false i j ne) refl
    ]
      where
        ne_of : (enable_at p i == enable_at p j) ≡ false → i ≢ j
        ne_of other e = let h = ap (enable_at p) e in ground arith

  enable-enabled :
      (i j : ℕ)
      → i < 1024
      → j < 1024
      → enabled (arch_interrupt_enable i p) j ≡ (if i == j then 1 else enabled p j)
  unfolding arch_interrupt_enable enable_mask enable_at
  enable-enabled i j hi hj = switch-bit i j _ 1 hi hj λ same.
      bit-bit_or _ (2 ^ (i % 32)) (j % 32)
      ∙ rw (kept i i hi hi, same, bit-pow (i % 32) (j % 32))
          (ground
            (arith, bit-le_one (p.word (enable_at p j)) (j % 32), enable_at-eq i j hi hj same))

  disable-enabled :
      (i j : ℕ)
      → i < 1024
      → j < 1024
      → enabled (arch_interrupt_disable i p) j ≡ (if i == j then 0 else enabled p j)
  unfolding arch_interrupt_disable enable_mask enable_at
  disable-enabled i j hi hj = switch-bit i j _ 0 hi hj λ same.
      bit-bit_and _ (2 ^ 32 - 1 - 2 ^ (i % 32)) (j % 32)
      ∙ rw
          (
            kept i i hi hi,
            same,
            bit-complement 32 (2 ^ (i % 32)) (j % 32) (pow-lt (i % 32) 32 (omega arith))
                (omega arith),
            bit-pow (i % 32) (j % 32),
          )
          (ground
            (arith, bit-le_one (p.word (enable_at p j)) (j % 32), enable_at-eq i j hi hj same))

  -- For registers that do not wrap around the address space and ids below 1024, enabling an
  -- interrupt sets its enable bit, disabling it clears that bit, and neither changes the bit of
  -- another id.
  pub switch-enabled :
      (i j : ℕ)
      → i < 1024
      → j < 1024
      → (enabled (arch_interrupt_enable i p) j ≡ (if i == j then 1 else enabled p j))
        × (enabled (arch_interrupt_disable i p) j ≡ (if i == j then 0 else enabled p j))
  switch-enabled i j hi hj = (enable-enabled i j hi hj, disable-enabled i j hi hj)
