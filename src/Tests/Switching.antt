-- ===== src/Tests/Switching.antt =====
-- Runs of the scheduler and of the interrupts between processors on small machines.
use new_wiv_os.Base.{ℕ, ◌+◌, ◌≡◌, refl, arith, ◌==◌, if◌then◌else◌, true, false, none, some, []}
use new_wiv_os.Base.Run.{fault, Returns}
use new_wiv_os.Tasking.Next.{taken}
use new_wiv_os.Sched.{Regs, Context, Kernel, back, switched, scheduler_schedule}
use new_wiv_os.Sched.Enter.{Entered}
use new_wiv_os.Sched.Switch.{Ready, left_behind, schedule-Entered}
use new_wiv_os.Irq.{Machine, riscv_handle_timer_int, riscv_send_ipi_to_all_harts}
use new_wiv_os.Irq.Ipi.{Ticked, timer-Ticked}
use new_wiv_os.Irq.Wide.{send_ipi-wide}
use new_wiv_os.Sched.Start.{quiet, scheduler_init, scheduler_init_lem}
use new_wiv_os.Tests.Harts.{idle_cpu}
use new_wiv_os.Tasking.{gone, Process, Thread, Tasks, scheduler_get_next_task}
use new_wiv_os.Cpu.{
  arch_cpu_get_preempt_counter, arch_cpu_get_current_taskid, arch_cpu_get_current_pid,
}

abbrev first_thread : Thread
first_thread = record { tid = 0; pid = 0; task = 0; kstack = 0x9000; stack = 0x9000; locked = true }

abbrev second_thread : Thread
second_thread = record {
  tid = 1;
  pid = 0;
  task = 1;
  kstack = 0xa000;
  stack = 0xa000;
  locked = false;
}

abbrev kernel_process : Process
kernel_process = record {
  pid = 0;
  page_table = 0x500;
  threads = λ i. 0;
  locked = false;
  alloc_address = 0;
}

-- Two threads of process 0 at the addresses 16 and 32.
abbrev two_tasks : Tasks
two_tasks = record {
  table = λ i. if i == 0 then some kernel_process else none;
  table_locked = false;
  threads =
      λ a. if a == 16 then some first_thread else if a == 32 then some second_thread else none;
  active = λ i. if i == 0 then 16 else if i == 1 then 32 else 0;
  total = 2;
  entry_locked = false;
  requests = [];
}

abbrev regs : Regs
regs = record { tp = 7; words = λ i. 8 }

abbrev context : Context
context = record {
  saved_regs = record { tp = 0; words = λ i. 0 };
  cpu_number = gone;
  ustack_address = 0;
  fpu_state = 0;
}

abbrev kernel : ℕ → Kernel
kernel preempt = record {
  tasks = two_tasks;
  cpus = record {
    locals = λ i. record idle_cpu { preempt = preempt; current = i + 3 };
    count = 2;
    inited = true;
    max_hart = 4;
    ctr = 0;
    save_size = 0;
    self = 0;
  };
  contexts = λ a. context;
  running = true;
  scheduler_locked = false;
  irq = true;
  fpu = 0;
  entries = λ a. 0x600;
  max_level = 3;
  cpu_locals = 0x70000;
}

abbrev after : Tasks
after = taken (left_behind regs 16 first_thread (kernel 0)).tasks 1 second_thread

ready :
    Ready 4 regs
      (kernel 0)
      32
      first_thread
      (record second_thread { locked = true })
      after
      kernel_process
      (some kernel_process)
unfolding arch_cpu_get_preempt_counter arch_cpu_get_current_taskid arch_cpu_get_current_pid
    scheduler_get_next_task
ready = record {
  runs = refl;
  inited = refl;
  no_preempt = refl;
  unlocked = (refl, refl);
  has_task = omega arith;
  not_null = (omega arith, omega arith);
  old_lives = refl;
  chosen = refl;
  found = omega arith;
  next_lives = refl;
  table_free = refl;
  small = omega arith;
  lives = refl;
  before = (omega arith, refl);
}

schedule-Entered_example : Returns (scheduler_schedule 4 regs (kernel 0)) λ o l.
    (o ≡ switched 32 0)
    × Entered
        (record (left_behind regs 16 first_thread (kernel 0)) { tasks = after })
        32
        (record second_thread { locked = true })
        l
    × ((l.contexts 16).saved_regs.words ≡ regs.words)
unfolding arch_cpu_get_current_taskid arch_cpu_get_current_pid
schedule-Entered_example =
    schedule-Entered 4 regs (kernel 0) 32 first_thread (record second_thread { locked = true })
      after kernel_process (some kernel_process) ready

abbrev machine : Machine
machine = record {
  kernel = kernel 0;
  last_timer_event = 10000;
  ticks = 0;
  timers = [];
  ipis = [];
  sie = 0;
  sscratch = 0;
  stvec = 0;
  soft_pending = false;
}

abbrev ids : ℕ → ℕ
ids i = i + 3

timer-Ticked_example :
    Returns (riscv_handle_timer_int 2 machine) λ o t. (o ≡ back) × Ticked ids 2 4 machine t
timer-Ticked_example =
    timer-Ticked 2 machine (omega arith) (λ i lt. (omega arith, omega arith)) (omega arith)

-- The same machine with hart ids from 40 on.
abbrev wide : Machine
wide = record machine {
  kernel = record (kernel 0) {
    cpus = record (kernel 0).cpus {
      locals = λ i. record idle_cpu { current = i + 40 };
      max_hart = 41;
    };
  };
}

send_ipi-wide_example : riscv_send_ipi_to_all_harts 2 1 wide ≡ fault
send_ipi-wide_example =
    send_ipi-wide 2 1 1 wide (omega arith) (omega arith) (omega arith) (omega arith) (omega arith)

scheduler_init_lem_example :
    Returns (scheduler_init 16 0x9000 0x500 (record (kernel 0) { tasks = quiet two_tasks })) λ _ l.
      (l.running ≡ true)
      × (l.tasks.total ≡ 1)
      × ((i : ℕ) → l.tasks.active i ≡ (if i == 0 then 16 else 0))
      × (l.tasks.threads 16
          ≡ some (record {
            tid = 0;
            pid = 0;
            task = 0;
            kstack = 0x11000;
            stack = 0x11000;
            locked = false;
          }))
scheduler_init_lem_example = scheduler_init_lem 16 0x9000 0x500 (kernel 0) (omega arith)
