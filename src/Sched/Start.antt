-- ===== src/Sched/Start.antt =====
-- The start of the scheduler: process_init_process_table of kernel/tasking/process.c and scheduler_init
-- of kernel/tasking/scheduler.c.
use new_wiv_os.Base.{ℕ, ◌+◌, ◌*◌, ◌≡◌, ◌≢◌, arith, true, false, if◌then◌else◌, ◌==◌, none, some}
use new_wiv_os.Base.Run.{Cmd, pure, ◌>>=◌, ◌>>◌, get_state, put_state, Returns}
use new_wiv_os.Tasking.{
  Tasks, process_create, thread_create, scheduler_add_task, lock_table, unlock_table,
}
use new_wiv_os.Sched.{Kernel, on_tasks}

unfoldable pub process_init_process_table : Cmd Tasks (Unit {0})
unfolding lock_table unlock_table
process_init_process_table = do
  lock_table
  s ← get_state
  put_state (record s { table = λ pid. none })
  unlock_table

-- The part of scheduler_init over the tasks. kmalloc returns `fresh` for the thread and `kernel_stack`
-- for its stack.
unfoldable pub init_tasks : ℕ → ℕ → ℕ → Cmd Tasks (Unit {0})
unfolding process_init_process_table process_create thread_create scheduler_add_task
init_tasks fresh kernel_stack kernel_page_map = do
  process_init_process_table
  s ← get_state
  put_state (record s { active = λ i. 0 })
  process_create kernel_page_map
  tid ← thread_create fresh kernel_stack 0
  scheduler_add_task 0 tid
  pure tt

unfoldable pub scheduler_init : ℕ → ℕ → ℕ → Cmd Kernel (Unit {0})
unfolding on_tasks init_tasks
scheduler_init fresh kernel_stack kernel_page_map = do
  on_tasks (init_tasks fresh kernel_stack kernel_page_map)
  k ← get_state
  put_state (record k { running = true })

-- Tasks whose locks are free and that count no active one.
abbrev pub quiet : Tasks → Tasks
quiet s = record s { table_locked = false; total = 0; entry_locked = false }

-- From tasks whose locks are free, none of them active, scheduler_init makes the kernel's thread the
-- only task, in slot 0, that no processor runs yet, and starts the scheduler.
pub scheduler_init_lem :
    (fresh kernel_stack kernel_page_map : ℕ) (k : Kernel)
    → fresh ≢ 0
    → Returns
        (scheduler_init fresh kernel_stack kernel_page_map (record k { tasks = quiet k.tasks }))
        λ _ l.
          (l.running ≡ true)
          × (l.tasks.total ≡ 1)
          × ((i : ℕ) → l.tasks.active i ≡ (if i == 0 then fresh else 0))
          × (l.tasks.threads fresh
              ≡ some (record {
                tid = 0;
                pid = 0;
                task = 0;
                kstack = kernel_stack + 8 * 0x1000;
                stack = kernel_stack + 8 * 0x1000;
                locked = false;
              }))
unfolding scheduler_init
scheduler_init_lem fresh kernel_stack kernel_page_map k some_thread = ground (arith, some_thread)
