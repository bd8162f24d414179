-- ===== src/Irq/Ipi.antt =====
-- Which processors an interprocessor interrupt reaches.
use new_wiv_os.Base.{
  ℕ, zero, suc, ◌+◌, ◌*◌, ◌%◌, ◌^◌, ◌≤◌, ◌<◌, ◌≡◌, ◌⊎◌, inl, inr, refl, sym, ◌∙◌, ap, arith, true,
  false, if◌then◌else◌, ltb, Bool-cases, ltb→lt, some, List, [], ◌∷◌, ◌++◌,
}
use mathlib.Core.List.{append-nil, append_assoc}
use new_wiv_os.Base.Bits.{bit, bit-zero}
use new_wiv_os.Base.Run.{ok, Returns, Returns-and_then, Returns-mono}
use new_wiv_os.Cpu.{Cpus}
use new_wiv_os.Sched.{back}
use new_wiv_os.Irq.{
  Machine, riscv_handle_timer_int, ipi_reschedule, set_timer, mask_loop, send_loop,
  riscv_send_ipi_to_all_harts,
}
use new_wiv_os.Irq.Masks.{has_hart, Harts, Grown, Grown-trans, mask_loop-Added}

-- The calls of the firmware from one window on: each with the base of its window, where bit j of the
-- mask tells whether a processor has the hart base + j; the last window is the one of `top`.
abbrev pub Exact : (ℕ → ℕ) → ℕ → ℕ → ℕ → List (ℕ × ℕ) → Type 0
Exact ids count top base [] = top < base
Exact ids count top base ((mask, b) ∷ calls) =
    (b ≡ base)
    × (base ≤ top)
    × ((j : ℕ) → j < 64 → bit mask j ≡ (if has_hart ids count 0 (base + j) then 1 else 0))
    × Exact ids count top (base + 64) calls

pub split_lt : (a b : ℕ) → (a < b) ⊎ (b ≤ a)
split_lt a b = ground arith

abbrev pub sent : Machine → ℕ → ℕ → Cpus → Machine
sent m mask base cpus = record m {
  kernel = record m.kernel { cpus = cpus };
  ipis = m.ipis ++ (mask, base) ∷ [];
}

module _ (ids : ℕ → ℕ) (count top kind : ℕ) (small : top < 2 ^ 63)
    (fit : (x : ℕ) → x < count → (ids x % 64 < 31) × (ids x ≤ top)) where
  -- What a machine has sent from a window on.
  record Sent (base : ℕ) (m : Machine) (t : Machine) : Type 0 where
    calls : List (ℕ × ℕ)
    recorded : t.ipis ≡ m.ipis ++ calls
    same_timers : t.timers ≡ m.timers
    exact : Exact ids count top base calls
    grown : Grown kind m.kernel.cpus t.kernel.cpus
    reached : (x : ℕ) → x < count → base ≤ ids x → (t.kernel.cpus.locals x).ipi ≡ kind % 256

  send_loop-Sent :
      (fuel base : ℕ) (m : Machine)
      → Harts ids count top m.kernel.cpus
      → base % 64 ≡ 0
      → base ≤ top + 64
      → top + 64 < base + fuel * 64
      → Returns (send_loop fuel kind base m) λ _ t. Sent base m t
  unfolding send_loop
  send_loop-Sent zero base m same aligned low enough = absurd (omega arith)
  send_loop-Sent (suc fuel) base m same aligned low enough = elim (Bool-cases (ltb top base)) [
    | inl past ↦
        let stop : ltb m.kernel.cpus.max_hart base ≡ true =
          ap (λ (h : ℕ). ltb h base) same.largest ∙ past in
        rw stop (record {
          calls = [];
          recorded = sym (append-nil m.ipis);
          same_timers = refl;
          exact = ltb→lt top base past;
          grown = λ x. inl refl;
          reached =
              λ x lt lo. absurd (let h = fit x lt in let p = ltb→lt top base past in omega arith);
        })
    | inr more ↦
        let (mask, cpus, e, added) =
          mask_loop-Added ids count top kind base aligned count 0 0 m.kernel.cpus same
            (λ x lt. let h = fit x (omega arith) in (h.0, omega arith)) in
        let go : ltb m.kernel.cpus.max_hart base ≡ false =
          ap (λ (h : ℕ). ltb h base) same.largest ∙ more in
        let e' : mask_loop m.kernel.cpus.count 0 kind base 0 m.kernel.cpus ≡ some (mask, cpus) =
          ap (λ (n : ℕ). mask_loop n 0 kind base 0 m.kernel.cpus) same.counted ∙ e in
        let le : base ≤ top = ground (arith, more) in
        let wrap : (base + 64) % 2 ^ 64 ≡ base + 64 = omega arith in
        rw (go, e', wrap)
          (Returns-mono (send_loop fuel kind (base + 64) (sent m mask base cpus))
            (λ _ t. Sent (base + 64) (sent m mask base cpus) t) (λ _ t. Sent base m t)
            (send_loop-Sent fuel (base + 64) (sent m mask base cpus) added.harts (omega arith)
              (omega arith) (omega arith))
            (λ _ t rest. record {
              calls = (mask, base) ∷ rest.calls;
              recorded = rest.recorded ∙ append_assoc m.ipis ((mask, base) ∷ []) rest.calls;
              same_timers = rest.same_timers;
              exact = (refl, le, λ j lt. added.bits j lt ∙ rw (bit-zero j) refl, rest.exact);
              grown =
                  Grown-trans ids count top kind base aligned m.kernel.cpus cpus t.kernel.cpus
                    added.grown rest.grown;
              reached = λ x lt lo. elim (split_lt (ids x) (base + 64)) [
                | inr later ↦ rest.reached x lt later
                | inl now ↦ elim (rest.grown x) [
                  | inr hit ↦ hit
                  | inl kept ↦ kept ∙ added.reached x (omega arith) (omega arith) (lo, now)
                ]
              ];
            }))
  ]

abbrev ticking : Machine → Machine
ticking m =
    let next = (m.last_timer_event + 10000) % 2 ^ 64 in
    set_timer next (record m { ticks = (m.ticks + 1) % 2 ^ 64; last_timer_event = next })

-- The calls and the interrupts after one tick, for the harts of the slots.
pub record Ticked (ids : ℕ → ℕ) (count top : ℕ) (m t : Machine) : Type 0 where
  pub calls : List (ℕ × ℕ)
  pub recorded : t.ipis ≡ m.ipis ++ calls
  pub exact : Exact ids count top 0 calls
  pub reached : (i : ℕ) → i < count → (t.kernel.cpus.locals i).ipi ≡ 1
  pub next_event : t.timers ≡ m.timers ++ (m.last_timer_event + 10000) % 2 ^ 64 ∷ []

-- Where every hart id leaves a remainder below 31 by 64 and is at most cpu_max_hart_id, a timer
-- interrupt asks for the next one 10000 cycles after the last; it leaves IPI_RESCHEDULE in the slot of
-- each processor, and calls the firmware once for each window of 64 harts up to the largest, with
-- a mask whose bits are the harts of the window that have a slot.
pub timer-Ticked :
    (fuel : ℕ) (m : Machine)
    → m.kernel.cpus.max_hart < 2 ^ 63
    → ((i : ℕ)
        → i < m.kernel.cpus.count
        → ((m.kernel.cpus.locals i).current % 64 < 31)
          × ((m.kernel.cpus.locals i).current ≤ m.kernel.cpus.max_hart))
    → m.kernel.cpus.max_hart + 64 < fuel * 64
    → Returns (riscv_handle_timer_int fuel m) λ o t.
      (o ≡ back)
      × Ticked
          (λ i. (m.kernel.cpus.locals i).current)
          m.kernel.cpus.count
          m.kernel.cpus.max_hart
          m
          t
unfolding riscv_handle_timer_int riscv_send_ipi_to_all_harts
timer-Ticked fuel m small fit enough =
    let ids : ℕ → ℕ = (λ i. (m.kernel.cpus.locals i).current) in
    let count = m.kernel.cpus.count in
    let top = m.kernel.cpus.max_hart in
    Returns-and_then (send_loop fuel ipi_reschedule 0 (ticking m)) (λ _. ok back)
      (λ _ t. Sent ids count top ipi_reschedule small fit 0 (ticking m) t) _
      (send_loop-Sent ids count top ipi_reschedule small fit fuel 0 (ticking m)
        (record { current = λ i. refl; counted = refl; largest = refl }) (omega arith) (omega arith)
        (omega arith))
      (λ _ t s. (
        refl,
        record {
          calls = s.calls;
          recorded = s.recorded;
          exact = s.exact;
          reached = λ i lt. s.reached i lt (omega arith);
          next_event = s.same_timers;
        },
      ))
