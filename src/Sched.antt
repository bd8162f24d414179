-- ===== src/Sched.antt =====
-- The switch of threads: scheduler_schedule of kernel/tasking/scheduler.c with
-- kernel/arch/riscv64/scheduler.c. A register set is its tp and the other words; the live floating
-- point registers are one value. A lock that is held is one that another processor holds for good.
pub mod Enter
pub mod Switch
pub mod Start
use new_wiv_os.Base.{
  ℕ, zero, suc, ◌+◌, ◌-◌, ◌*◌, ◌%◌, ◌^◌, Bool, true, false, not, ◌||◌, if◌then◌else◌, ltb, leb,
  ◌==◌, Option, none, some,
}
use new_wiv_os.Base.Run.{
  Run, ok, fault, hang, Cmd, and_then, pure, ◌>>=◌, ◌>>◌, hang_cmd, fault_cmd, get_state, put_state,
}
use new_wiv_os.Vmm.{riscv_vmm_create_satp}
use new_wiv_os.Tasking.{
  Process, Thread, Tasks, gone, max_threads, process_get_process_no_lock, scheduler_get_next_task,
}
use new_wiv_os.Cpu.{
  Cpus, own, copies_fpu, arch_cpu_get_index, arch_cpu_get_preempt_counter, arch_cpu_get_current_pid,
  arch_cpu_get_current_tid, arch_cpu_get_current_taskid, arch_cpu_get_thread_user_stack,
  arch_cpu_set_current_pid, arch_cpu_set_current_tid, arch_cpu_set_current_taskid,
  arch_cpu_set_thread_user_stack, arch_cpu_set_thread_kernel_stack,
}

-- irq_regs_t: tp, and the words at the other offsets.
pub record Regs : Type 0 where
  pub tp : ℕ
  pub words : ℕ → ℕ

-- The fields of a thread_t that the switch keeps: saved_regs, cpu_number, ustack_address, fpu_state.
pub record Context : Type 0 where
  pub saved_regs : Regs
  pub cpu_number : ℕ
  pub ustack_address : ℕ
  pub fpu_state : ℕ

-- The tasks, the processors, the contexts by the address of their thread, SchedulerRunning, the
-- lock SchedulerLock, sstatus.SIE and the floating point registers of the running processor, the
-- `entries` of a page table by its address, max_level, and the address of CPULocals.
pub record Kernel : Type 0 where
  pub tasks : Tasks
  pub cpus : Cpus
  pub contexts : ℕ → Context
  pub running : Bool
  pub scheduler_locked : Bool
  pub irq : Bool
  pub fpu : ℕ
  pub entries : ℕ → ℕ
  pub max_level : ℕ
  pub cpu_locals : ℕ

-- How a call ends: it returns, the processor idles, or it loads the registers of a thread with a
-- new satp (0 keeps the page table).
pub data Outcome : Type 0 where
  back idle : Outcome
  switched : (thread satp : ℕ) → Outcome

-- if(irq_status) arch_enable_interrupts();
abbrev pub restore_irq : Bool → Kernel → Kernel
restore_irq irq k = record k { irq = if irq then true else k.irq }

abbrev pub set_context : ℕ → Context → Kernel → Kernel
set_context a c k = record k { contexts = λ b. if a == b then c else k.contexts b }

abbrev pub set_thread : ℕ → Thread → Kernel → Kernel
set_thread a thread k = record k {
  tasks = record k.tasks { threads = λ b. if b == a then some thread else k.tasks.threads b };
}

abbrev pub entry_lock : Bool → Kernel → Kernel
entry_lock locked k = record k { tasks = record k.tasks { entry_locked = locked } }

-- A run over the tasks alone.
unfoldable pub on_tasks : {A : Type 0} → Cmd Tasks A → Cmd Kernel A
on_tasks m k = elim (m k.tasks) [
  | ok a t ↦ ok a (record k { tasks = t })
  | fault ↦ fault
  | hang ↦ hang
]

-- What is saved of the thread that runs; pid 0 has neither a user stack nor floating point state.
unfoldable pub saved_context : Regs → ℕ → Kernel → Context → Context
unfolding copies_fpu arch_cpu_get_thread_user_stack
saved_context regs pid k c =
    let d = record c { saved_regs = regs; cpu_number = gone } in
    if pid == 0 then d else record d {
      fpu_state = if copies_fpu k.cpus then k.fpu else d.fpu_state;
      ustack_address = arch_cpu_get_thread_user_stack k.cpus;
    }

-- The block under currentTaskID != -1.
unfoldable pub leave_task : Regs → ℕ → ℕ → Cmd Kernel (Unit {0})
unfolding saved_context
leave_task regs pid task k =
    if task == gone
    then ok tt k
    else if leb (max_threads * 2) task
    then fault
    else let a = k.tasks.active task in
      if a == 0 || a == gone then ok tt k else elim (k.tasks.threads a) [
        | none ↦ fault
        | some thread ↦ ok tt (
            set_thread a (record thread { locked = false })
              (set_context a (saved_context regs pid k (k.contexts a)) k))
      ]

-- arch_scheduler_idle with arch_scheduler_idle_halt, up to the loop of wfi. vmm_set_pt is left out.
unfoldable pub arch_scheduler_idle : Kernel → Kernel
unfolding arch_cpu_set_current_taskid arch_cpu_set_current_pid arch_cpu_set_current_tid
arch_scheduler_idle k =
    let cpus =
      arch_cpu_set_current_tid gone
        (arch_cpu_set_current_pid gone (arch_cpu_set_current_taskid gone k.cpus)) in
    record (entry_lock false k) { cpus = cpus; scheduler_locked = false; irq = true }

-- The processor's fields, and what else is loaded, for the next thread. A processor that has loaded
-- a thread's floating point state has the thread's registers.
unfoldable pub enter_task : ℕ → Thread → Kernel → Kernel
unfolding copies_fpu arch_cpu_get_index arch_cpu_set_current_pid arch_cpu_set_current_tid
    arch_cpu_set_current_taskid arch_cpu_set_thread_kernel_stack arch_cpu_set_thread_user_stack
enter_task a next k =
    let c = k.contexts a in
    let cpus =
      arch_cpu_set_current_taskid next.task
        (arch_cpu_set_current_tid next.tid (arch_cpu_set_current_pid next.pid k.cpus)) in
    let cpus' =
      if next.pid == 0
      then cpus
      else arch_cpu_set_thread_user_stack c.ustack_address
          (arch_cpu_set_thread_kernel_stack next.kstack cpus) in
    record k {
      cpus = cpus';
      fpu = if next.pid == 0 then k.fpu else if copies_fpu cpus then c.fpu_state else k.fpu;
      contexts =
          λ b. if a == b then record c { cpu_number = arch_cpu_get_index cpus' } else k.contexts b;
    }

-- arch_scheduler_unlock_locks, which arch_scheduler_context_switch calls before it loads registers.
unfoldable pub arch_scheduler_unlock_locks : Kernel → Kernel
arch_scheduler_unlock_locks k = record (entry_lock false k) { scheduler_locked = false }

-- The registers that are loaded: tp is the processor's cpu_t, of 70 bytes.
abbrev pub with_tp : ℕ → Kernel → Kernel
with_tp a k =
    set_context a
      (record (k.contexts a) {
        saved_regs = record (k.contexts a).saved_regs { tp = k.cpu_locals + k.cpus.self * 70 };
      })
      k

unfoldable pub arch_scheduler_switch_task : ℕ → Option ℕ → Cmd Kernel Outcome
unfolding riscv_vmm_create_satp arch_scheduler_unlock_locks
arch_scheduler_switch_task a none k = ok (switched a 0) (arch_scheduler_unlock_locks (with_tp a k))
arch_scheduler_switch_task a (some entries) k =
    ok (switched a (riscv_vmm_create_satp k.max_level entries))
      (arch_scheduler_unlock_locks (with_tp a k))

-- currentProcess, for the process of the next thread.
unfoldable pub current_process : ℕ → ℕ → Option Process → Cmd Kernel (Option Process)
unfolding on_tasks process_get_process_no_lock
current_process pid next_pid process =
    if next_pid == pid
    then pure process
    else if not (pid == gone)
    then on_tasks (process_get_process_no_lock pid)
    else pure none

-- The page table to load, or none where it stays; NULL processes are read.
unfoldable pub choose_table : ℕ → Option Process → Option Process → Kernel → Option (Option ℕ)
choose_table pid none current k = none
choose_table pid (some process) none k =
    if pid == gone then some (some (k.entries process.page_table)) else none
choose_table pid (some process) (some current) k =
    if pid == gone || not (process.page_table == current.page_table)
    then some (some (k.entries process.page_table))
    else some none

-- The rest of scheduler_schedule, for the thread at address a that runs next.
unfoldable pub run_task : ℕ → ℕ → Thread → Cmd Kernel Outcome
unfolding enter_task on_tasks process_get_process_no_lock current_process choose_table
    arch_scheduler_switch_task
run_task pid a next = do
  k ← get_state
  put_state (enter_task a next k)
  process ← on_tasks (process_get_process_no_lock next.pid)
  current ← current_process pid next.pid process
  l ← get_state
  elim (choose_table pid process current l) [
    | none ↦ fault_cmd
    | some entries ↦ arch_scheduler_switch_task a entries
  ]

-- From the choice of the next thread on. NULL idles the processor.
unfoldable pub next_task : ℕ → ℕ → ℕ → Cmd Kernel Outcome
next_task fuel pid task = do
  a ← on_tasks (scheduler_get_next_task fuel task)
  k ← get_state
  (if a == 0
      then (λ l. ok idle (arch_scheduler_idle l))
      else elim (k.tasks.threads a) [ none ↦ fault_cmd | some next ↦ run_task pid a next ])

-- scheduler_schedule, for at most `fuel` rounds of the search.
unfoldable pub scheduler_schedule : ℕ → Regs → Cmd Kernel Outcome
scheduler_schedule fuel regs k =
    let masked = record k { irq = false } in
    if not k.running || not (arch_cpu_get_preempt_counter k.cpus == 0)
    then ok back (restore_irq k.irq masked)
    else if k.tasks.entry_locked
    then hang
    else if k.scheduler_locked
    then ok back (restore_irq k.irq (entry_lock false masked))
    else let pid = arch_cpu_get_current_pid k.cpus in
      let task = arch_cpu_get_current_taskid k.cpus in
      and_then
        (leave_task regs pid task (record (entry_lock true masked) { scheduler_locked = true }))
        (λ _. next_task fuel pid task)
