-- ===== src/Irq/Wide.antt =====
-- Interprocessor interrupts to harts that the shift of an int does not reach.
use new_wiv_os.Base.{
  ℕ, zero, suc, ◌+◌, ◌-◌, ◌*◌, ◌%◌, ◌^◌, ◌≤◌, ◌<◌, ◌≡◌, inl, inr, refl, ◌∙◌, ap, arith, bit_or,
  false, ltb, Bool-cases, le→ltb_false, ℕ_discrete, Option, none, some,
}
use new_wiv_os.Base.Run.{fault}
use new_wiv_os.Cpu.{Cpus, put_local}
use new_wiv_os.Irq.{
  Machine, int_bit, in_window, add_hart, mask_loop, send_loop, riscv_send_ipi_to_all_harts,
}
use new_wiv_os.Irq.Masks.{Harts}
use new_wiv_os.Irq.Ipi.{split_lt, sent}

-- What holds of the processors where there is a result.
abbrev OnSome : (Cpus → Type 0) → Option (ℕ × Cpus) → Type 0
OnSome P none = Unit
OnSome P (some (mask, t)) = P t

module _ (ids : ℕ → ℕ) (count top kind base : ℕ) where
  add_hart-Harts :
      (i mask : ℕ) (s : Cpus)
      → Harts ids count top s
      → OnSome (Harts ids count top) (add_hart kind base i mask s)
  unfolding add_hart put_local
  add_hart-Harts i mask s same = elim (Bool-cases (in_window base (s.locals i).current)) [
    | inr far ↦ rw far same
    | inl near ↦ rw near (on_bit (int_bit ((s.locals i).current - base)))
  ]
    where
      on_bit :
          (r : Option ℕ)
          → OnSome (Harts ids count top) (elim r [
            | none ↦ none
            | some one ↦
                some (bit_or mask one, put_local i (record (s.locals i) { ipi = kind % 256 }) s)
          ])
      on_bit none = tt
      on_bit (some one) = record {
        current = λ x. ground (arith, same.current x, same.current i);
        counted = same.counted;
        largest = same.largest;
      }

  mask_loop-Harts :
      (n i mask : ℕ) (s : Cpus)
      → Harts ids count top s
      → OnSome (Harts ids count top) (mask_loop n i kind base mask s)
  unfolding mask_loop
  mask_loop-Harts zero i mask s same = same
  mask_loop-Harts (suc n) i mask s same =
      next (add_hart kind base i mask s) (add_hart-Harts i mask s same) (mask_loop-Harts n (i + 1))
    where
      next :
          (r : Option (ℕ × Cpus))
          → OnSome (Harts ids count top) r
          → ((mask : ℕ) (s : Cpus)
              → Harts ids count top s
              → OnSome (Harts ids count top) (mask_loop n (i + 1) kind base mask s))
          → OnSome
              (Harts ids count top)
              (elim r [ none ↦ none | some (mask', s') ↦ mask_loop n (i + 1) kind base mask' s' ])
      next none h rest = tt
      next (some (mask', s')) h rest = rest mask' s' h

  -- A hart of the window that a shift of an int does not reach.
  module _ (x : ℕ) (low : base ≤ ids x) (high : ids x < base + 64) (wide : base + 32 ≤ ids x) where
    add_hart-wide :
        (mask : ℕ) (s : Cpus) → Harts ids count top s → add_hart kind base x mask s ≡ none
    unfolding add_hart int_bit in_window
    add_hart-wide mask s same = ground (arith, same.current x)

    mask_loop-wide :
        (n i mask : ℕ) (s : Cpus)
        → Harts ids count top s
        → i ≤ x
        → x < i + n
        → mask_loop n i kind base mask s ≡ none
    unfolding mask_loop
    mask_loop-wide zero i mask s same lo hi = absurd (omega arith)
    mask_loop-wide (suc n) i mask s same lo hi = elim (ℕ_discrete i x) [
      | yes e ↦
          let none_here : add_hart kind base i mask s ≡ none =
            ap (λ (j : ℕ). add_hart kind base j mask s) e ∙ add_hart-wide mask s same in
          rw (none_here, mask_loop) refl
      | no ne ↦
          next (add_hart kind base i mask s) (add_hart-Harts i mask s same)
            (λ m t h. mask_loop-wide n (i + 1) m t h (omega arith) (omega arith))
    ]
      where
        next :
            (r : Option (ℕ × Cpus))
            → OnSome (Harts ids count top) r
            → ((mask : ℕ) (s : Cpus)
                → Harts ids count top s
                → mask_loop n (i + 1) kind base mask s ≡ none)
            → elim r [ none ↦ none | some (mask', s') ↦ mask_loop n (i + 1) kind base mask' s' ]
              ≡ none
        next none h rest = refl
        next (some (mask', s')) h rest = rest mask' s' h

module _ (ids : ℕ → ℕ) (count top kind x : ℕ) (listed : x < count) (wide : 32 ≤ ids x % 64)
    (known : ids x ≤ top) (small : top < 2 ^ 63) where
  send_loop-wide :
      (fuel base : ℕ) (m : Machine)
      → Harts ids count top m.kernel.cpus
      → base % 64 ≡ 0
      → base ≤ ids x
      → ids x < base + fuel * 64
      → send_loop fuel kind base m ≡ fault
  unfolding send_loop
  send_loop-wide zero base m same aligned low enough = absurd (omega arith)
  send_loop-wide (suc fuel) base m same aligned low enough =
      let go : ltb m.kernel.cpus.max_hart base ≡ false =
        ap (λ (h : ℕ). ltb h base) same.largest ∙ le→ltb_false top base (omega arith) in
      let counted = ap (λ (n : ℕ). mask_loop n 0 kind base 0 m.kernel.cpus) same.counted in
      rw go (elim (split_lt (ids x) (base + 64)) [
        | inl here ↦
            rw
              (counted
                ∙ mask_loop-wide ids count top kind base x low here (omega arith) count 0 0
                    m.kernel.cpus same (omega arith) (omega arith))
              refl
        | inr later ↦
            let wrap : (base + 64) % 2 ^ 64 ≡ base + 64 = omega arith in
            next (mask_loop m.kernel.cpus.count 0 kind base 0 m.kernel.cpus)
              (mask_loop-Harts ids count top kind base m.kernel.cpus.count 0 0 m.kernel.cpus same)
              (λ mask cpus h.
                ap (λ (b : ℕ). send_loop fuel kind b (sent m mask base cpus)) wrap
                ∙ send_loop-wide fuel (base + 64) (sent m mask base cpus) h (omega arith) later
                    (omega arith))
      ])
    where
      next :
          (r : Option (ℕ × Cpus))
          → OnSome (Harts ids count top) r
          → ((mask : ℕ) (cpus : Cpus)
              → Harts ids count top cpus
              → send_loop fuel kind ((base + 64) % 2 ^ 64) (sent m mask base cpus) ≡ fault)
          → elim r [
            | none ↦ fault
            | some (mask, cpus) ↦ send_loop fuel kind ((base + 64) % 2 ^ 64) (sent m mask base cpus)
          ]
            ≡ fault
      next none h rest = refl
      next (some (mask, cpus)) h rest = rest mask cpus h

-- Where a processor of the table has a hart id that is at most the largest known one, itself below
-- 2 ^ 63, and leaves a remainder of at least 32 by 64, every interprocessor interrupt whose loop has
-- rounds up to that hart's window shifts an int by its width or more, which is undefined, wherever
-- the other harts are.
pub send_ipi-wide :
    (fuel kind x : ℕ) (m : Machine)
    → x < m.kernel.cpus.count
    → 32 ≤ (m.kernel.cpus.locals x).current % 64
    → (m.kernel.cpus.locals x).current ≤ m.kernel.cpus.max_hart
    → m.kernel.cpus.max_hart < 2 ^ 63
    → (m.kernel.cpus.locals x).current < fuel * 64
    → riscv_send_ipi_to_all_harts fuel kind m ≡ fault
unfolding riscv_send_ipi_to_all_harts
send_ipi-wide fuel kind x m listed wide known small enough =
    send_loop-wide (λ i. (m.kernel.cpus.locals i).current) m.kernel.cpus.count
      m.kernel.cpus.max_hart kind x listed wide known small fuel 0 m
      (record { current = λ i. refl; counted = refl; largest = refl }) (omega arith) (omega arith)
      (omega arith)
