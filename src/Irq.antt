-- ===== src/Irq.antt =====
-- Traps and interprocessor interrupts, kernel/arch/riscv64/int.c. The firmware's calls and the writes
-- of stvec are recorded; the messages are left out.
pub mod Masks
pub mod Ipi
pub mod Wide
use new_wiv_os.Base.{
  ℕ, zero, suc, ◌+◌, ◌-◌, ◌*◌, ◌%◌, ◌^◌, bit_and, bit_or, Bool, true, false, not, ◌&&◌, ◌||◌,
  if◌then◌else◌, ltb, leb, ◌==◌, Option, none, some, List, [], ◌∷◌, ◌++◌,
}
use new_wiv_os.Base.Run.{
  Run, ok, fault, hang, Cmd, and_then, pure, ◌>>=◌, ◌>>◌, hang_cmd, get_state, put_state,
}
use new_wiv_os.Cpu.{CpuLocal, Cpus, own, put_local, arch_cpu_get_count, arch_cpu_get_maxhartid}
use new_wiv_os.Sched.{Regs, Kernel, Outcome, back, on_tasks, scheduler_schedule}

-- The kernel with last_timer_event, tick_count, the calls of riscv_sbi_set_timer and of
-- riscv_sbi_send_ipi (mask and base) in order, and the registers sie, sscratch and stvec of the
-- running processor, and whether its software interrupt is pending.
pub record Machine : Type 0 where
  pub kernel : Kernel
  pub last_timer_event : ℕ
  pub ticks : ℕ
  pub timers : List ℕ
  pub ipis : List (ℕ × ℕ)
  pub sie : ℕ
  pub sscratch : ℕ
  pub stvec : ℕ
  pub soft_pending : Bool

-- IPI_RESCHEDULE
abbrev pub ipi_reschedule : ℕ
ipi_reschedule = 1

abbrev pub sie_stie : ℕ
sie_stie = 2 ^ 5

abbrev pub sie_ssie : ℕ
sie_ssie = 2 ^ 1

abbrev pub set_irq : Bool → Machine → Machine
set_irq irq m = record m { kernel = record m.kernel { irq = irq } }

unfoldable pub arch_enable_interrupts : Machine → Machine
arch_enable_interrupts m = set_irq true m

-- The answer is the flag as it was.
unfoldable pub arch_disable_interrupts : Machine → Bool × Machine
arch_disable_interrupts m = (m.kernel.irq, set_irq false m)

unfoldable pub arch_interrupts_enabled : Machine → Bool
arch_interrupts_enabled m = m.kernel.irq

abbrev pub set_timer : ℕ → Machine → Machine
set_timer event m = record m { timers = m.timers ++ event ∷ [] }

-- arch_interrupt_init, with riscv_isr at `isr`. The first timer call takes -1.
unfoldable pub arch_interrupt_init : ℕ → Machine → Machine
unfolding arch_enable_interrupts arch_disable_interrupts
arch_interrupt_init isr m =
    let masked = (arch_disable_interrupts m).1 in
    let open_m = arch_enable_interrupts (record masked { sscratch = 0; stvec = isr }) in
    let early = set_timer (2 ^ 64 - 1) open_m in
    set_timer 10000
      (record early { sie = bit_or (bit_or early.sie sie_stie) sie_ssie; last_timer_event = 10000 })

unfoldable pub arch_interrupt_init_smp : ℕ → Machine → Machine
unfolding arch_enable_interrupts arch_disable_interrupts
arch_interrupt_init_smp isr m =
    let masked = (arch_disable_interrupts m).1 in
    arch_enable_interrupts
      (record masked { sscratch = 0; stvec = isr; sie = bit_or masked.sie sie_ssie })

-- 1 << d, of an int, as a uint64_t: bit 31 is the sign, and a longer shift is undefined.
unfoldable pub int_bit : ℕ → Option ℕ
int_bit d = if ltb d 31 then some (2 ^ d) else if d == 31 then some (2 ^ 64 - 2 ^ 31) else none

-- cpu >= base && ((int64_t)cpu - (int64_t)base) < 64
unfoldable pub in_window : ℕ → ℕ → Bool
in_window base cpu = leb base cpu && (ltb (cpu - base) 64 || leb (2 ^ 63) (cpu - base))

-- The body of the loop over the processors, for processor i.
unfoldable pub add_hart : ℕ → ℕ → ℕ → ℕ → Cpus → Option (ℕ × Cpus)
unfolding in_window int_bit put_local
add_hart kind base i mask s =
    let c = s.locals i in
    if in_window base c.current
    then (elim (int_bit (c.current - base)) [
      | none ↦ none
      | some one ↦ some (bit_or mask one, put_local i (record c { ipi = kind % 256 }) s)
    ])
    else some (mask, s)

unfoldable pub mask_loop : ℕ → ℕ → ℕ → ℕ → ℕ → Cpus → Option (ℕ × Cpus)
unfolding add_hart
mask_loop zero i kind base mask s = some (mask, s)
mask_loop (suc n) i kind base mask s = elim (add_hart kind base i mask s) [
  | none ↦ none
  | some (mask', s') ↦ mask_loop n (i + 1) kind base mask' s'
]

-- The loop over the windows of 64 harts; base wraps.
unfoldable pub send_loop : ℕ → ℕ → ℕ → Cmd Machine (Unit {0})
unfolding mask_loop arch_cpu_get_count arch_cpu_get_maxhartid
send_loop zero kind base m = hang
send_loop (suc fuel) kind base m =
    if ltb (arch_cpu_get_maxhartid m.kernel.cpus) base
    then ok tt m
    else elim (mask_loop (arch_cpu_get_count m.kernel.cpus) 0 kind base 0 m.kernel.cpus) [
      | none ↦ fault
      | some (mask, cpus) ↦ send_loop fuel kind ((base + 64) % 2 ^ 64) (record m {
        kernel = record m.kernel { cpus = cpus };
        ipis = m.ipis ++ (mask, base) ∷ [];
      })
    ]

-- riscv_send_ipi_to_all_harts
unfoldable pub riscv_send_ipi_to_all_harts : ℕ → ℕ → Cmd Machine (Unit {0})
unfolding send_loop
riscv_send_ipi_to_all_harts fuel kind = send_loop fuel kind 0

-- riscv_handle_software_int: ipiType has 8 bits.
unfoldable pub riscv_handle_software_int : ℕ → Regs → Cmd Machine Outcome
unfolding put_local scheduler_schedule
riscv_handle_software_int fuel regs m =
    let cpus = m.kernel.cpus in
    let kinds = (own cpus).ipi in
    let clear =
      put_local cpus.self (record (own cpus) { ipi = bit_and kinds (2 ^ 8 - 1 - ipi_reschedule) })
        cpus in
    let n = record m { soft_pending = false; kernel = record m.kernel { cpus = clear } } in
    if bit_and kinds ipi_reschedule == 0
    then ok back n
    else elim (scheduler_schedule fuel regs n.kernel) [
      | ok outcome k ↦ ok outcome (record n { kernel = k })
      | fault ↦ fault
      | hang ↦ hang
    ]

-- riscv_handle_timer_int
unfoldable pub riscv_handle_timer_int : ℕ → Cmd Machine Outcome
unfolding riscv_send_ipi_to_all_harts
riscv_handle_timer_int fuel m =
    let next = (m.last_timer_event + 10000) % 2 ^ 64 in
    let n = set_timer next (record m { ticks = (m.ticks + 1) % 2 ^ 64; last_timer_event = next }) in
    and_then (riscv_send_ipi_to_all_harts fuel ipi_reschedule n) (λ _. ok back)

-- The interrupts of riscv_handle_trap; an unknown one does not return.
unfoldable pub interrupt : ℕ → ℕ → ℕ → Regs → Cmd Machine Outcome
unfolding riscv_handle_software_int riscv_handle_timer_int
interrupt ipi_fuel fuel number regs =
    if number == 1
    then riscv_handle_software_int fuel regs
    else if number == 5
    then riscv_handle_timer_int ipi_fuel
    else if number == 9
    then pure back
    else hang_cmd

-- The exceptions of riscv_handle_trap: page faults (12, 13, 15), access faults (7, 5, 1) and calls
-- from user mode (8) return to the instruction, the others (2 is an illegal one) do not.
unfoldable pub exception : ℕ → Cmd Machine Outcome
exception cause =
    if cause == 2
    then hang_cmd
    else if cause == 12 || cause == 13 || cause == 15
    then pure back
    else if cause == 8
    then pure back
    else if cause == 7 || cause == 5 || cause == 1
    then pure back
    else hang_cmd

-- riscv_handle_trap of a 64-bit cause. `ipi_fuel` bounds the windows of harts, `fuel` the search of
-- the next task.
unfoldable pub riscv_handle_trap : ℕ → ℕ → ℕ → Regs → Cmd Machine Outcome
unfolding interrupt exception
riscv_handle_trap ipi_fuel fuel cause regs =
    if leb (2 ^ 63) cause then interrupt ipi_fuel fuel (cause % 2 ^ 63) regs else exception cause
