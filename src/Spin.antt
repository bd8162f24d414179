-- ===== src/Spin.antt =====
-- The spinlock of kernel/arch/riscv64/spinlock.c, in its debug and its normal form, with kernel/arch/riscv64/int.c's interrupt flag and kernel/arch/riscv64/cpu.c's
-- preemption counter. Every shared access is one atomic step; a processor is a program counter with
-- its live locals. The messages of deadlock_detect, after which the loop goes on, are left out.
pub mod Invariant
pub mod Progress
pub mod X86
use new_wiv_os.Base.{ℕ, ◌+◌, ◌-◌, ◌%◌, ◌^◌, ◌<◌, ◌≡◌, ◌≢◌, Bool, true, false, if◌then◌else◌, ◌==◌}

-- Where a processor stands. `saved` is irq_status; `loops` that the caller is
-- spinlock_lock_debug.
pub data Pc : Type 0 where
  outside : Pc  -- in code that does not hold the lock
  trying : (loops saved : Bool) → Pc  -- spinlock_try_lock_debug, before __sync_lock_test_and_set
  won : (saved : Bool) → Pc  -- before the writes of last_acquirer
  counting : (saved : Bool) → Pc  -- before arch_cpu_increment_preempt_counter
  entering : (saved : Bool) → Pc  -- the lock is taken, before interrupts are enabled again
  lost : (loops saved : Bool) → Pc  -- the lock was taken, before interrupts are enabled again
  retry : Pc  -- the head of the loop in spinlock_lock_debug
  adding : (saved : Bool) → Pc  -- spinlock_lock_normal, before the counter is incremented
  added : (saved : Bool) → Pc  -- before interrupts are enabled again
  spinning : Pc  -- the loop of spinlock_lock_normal
  inside : Pc  -- between spinlock_lock and spinlock_unlock
  leaving : (saved : Bool) → Pc  -- spinlock_unlock, before __sync_lock_release
  released : (saved : Bool) → Pc  -- before arch_cpu_decrement_preempt_counter
  done : (saved : Bool) → Pc  -- before interrupts are enabled again

-- One processor: where it stands, SSTATUS.SIE, and its preemption counter.
pub record Cpu : Type 0 where
  pub pc : Pc
  pub irq : Bool
  pub preempt : ℕ

-- spinlock_debug_t; of last_acquirer the processor.
pub record Lock : Type 0 where
  pub word : ℕ
  pub acquirer : ℕ

-- arch_disable_interrupts, which answers the flag as it was
abbrev pub disabled : Cpu → (Bool → Pc) → Cpu
disabled c next = record c { pc = next c.irq; irq = false }

-- if(irq_status) arch_enable_interrupts();
abbrev pub restored : Cpu → Bool → Pc → Cpu
restored c saved next = record c { pc = next; irq = if saved then true else c.irq }

-- One step of processor `me`. The constructors from lock_call to give_up are the debug form and, with
-- `pass` for `sign`, spinlock_try_lock_normal; those from normal_call to wait are spinlock_lock_normal.
pub data Move (me : ℕ) (l : Lock) (c : Cpu) : Pc → Lock → Cpu → Type 0 where
  lock_call : Move me l c Pc.outside l (record c { pc = Pc.retry })
  try_call : Move me l c Pc.outside l (disabled c (Pc.trying false))
  begin_try : Move me l c Pc.retry l (disabled c (Pc.trying true))
  take :
      {loops saved : Bool}
      → l.word ≡ 0
      → Move me l c (Pc.trying loops saved) (record l { word = 1 }) (record c { pc = Pc.won saved })
  miss :
      {loops saved : Bool}
      → l.word ≢ 0
      → Move me l c
          (Pc.trying loops saved)
          (record l { word = 1 })
          (record c { pc = Pc.lost loops saved })
  sign :
      {saved : Bool}
      → Move me l c
          (Pc.won saved)
          (record l { acquirer = me })
          (record c { pc = Pc.counting saved })
  pass : {saved : Bool} → Move me l c (Pc.won saved) l (record c { pc = Pc.counting saved })
  count :
      {saved : Bool}
      → Move me l c
          (Pc.counting saved)
          l
          (record c { pc = Pc.entering saved; preempt = (c.preempt + 1) % 2 ^ 64 })
  enter : {saved : Bool} → Move me l c (Pc.entering saved) l (restored c saved Pc.inside)
  again : {saved : Bool} → Move me l c (Pc.lost true saved) l (restored c saved Pc.retry)
  give_up : {saved : Bool} → Move me l c (Pc.lost false saved) l (restored c saved Pc.outside)
  normal_call : Move me l c Pc.outside l (disabled c Pc.adding)
  add :
      {saved : Bool}
      → Move me l c
          (Pc.adding saved)
          l
          (record c { pc = Pc.added saved; preempt = (c.preempt + 1) % 2 ^ 64 })
  spin : {saved : Bool} → Move me l c (Pc.added saved) l (restored c saved Pc.spinning)
  grab : l.word ≡ 0 → Move me l c Pc.spinning (record l { word = 1 }) (record c { pc = Pc.inside })
  wait :
      l.word ≢ 0 → Move me l c Pc.spinning (record l { word = 1 }) (record c { pc = Pc.spinning })
  unlock_call : Move me l c Pc.inside l (disabled c Pc.leaving)
  release :
      {saved : Bool}
      → Move me l c (Pc.leaving saved) (record l { word = 0 }) (record c { pc = Pc.released saved })
  uncount :
      {saved : Bool}
      → Move me l c
          (Pc.released saved)
          l
          (record c { pc = Pc.done saved; preempt = (c.preempt + 2 ^ 64 - 1) % 2 ^ 64 })
  return : {saved : Bool} → Move me l c (Pc.done saved) l (restored c saved Pc.outside)

-- One lock and the processors that use it. A processor that never moves stays outside.
pub record System : Type 0 where
  pub lock : Lock
  pub cpus : ℕ → Cpu

abbrev pub put : (ℕ → Cpu) → ℕ → Cpu → ℕ → Cpu
put cpus i c j = if i == j then c else cpus j

pub data Step (s : System) : System → Type 0 where
  move :
      (i : ℕ) {l : Lock} {c : Cpu}
      → Move i s.lock (s.cpus i) (s.cpus i).pc l c
      → Step s (record { lock = l; cpus = put s.cpus i c })

-- INIT_SPINLOCK, with every processor outside, its interrupts as `irq` says, its counter 0.
abbrev pub start_state : (ℕ → Bool) → System
start_state irq = record {
  lock = record { word = 0; acquirer = 2 ^ 64 - 1 };
  cpus = λ i. record { pc = Pc.outside; irq = irq i; preempt = 0 };
}

pub data Steps (s : System) : System → Type 0 where
  here : Steps s s
  then_step : {t u : System} → Steps s t → Step t u → Steps s u
