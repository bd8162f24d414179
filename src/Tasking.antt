-- ===== src/Tasking.antt =====
-- Processes, threads and active tasks: kernel/tasking/process.c, thread.c and scheduler.c. Threads
-- live at addresses; a process is kept in its table slot. NULL is 0, and `gone` is (void *)-1. The
-- messages, the register set-up and the state of the floating point unit are left out.
pub mod Slots
pub mod Stacks
pub mod Next
use new_wiv_os.Base.{
  ℕ, zero, suc, ◌+◌, ◌-◌, ◌*◌, ◌/◌, ◌%◌, ◌^◌, Bool, true, false, not, ◌||◌, if◌then◌else◌, ltb, leb,
  ◌==◌, Option, none, some, List, [], ◌∷◌, ◌++◌,
}
use new_wiv_os.Base.Run.{
  Run, ok, fault, hang, Cmd, and_then, pure, ◌>>=◌, ◌>>◌, hang_cmd, fault_cmd, get_state, put_state,
}

abbrev pub max_processes : ℕ
max_processes = 256

abbrev pub max_threads : ℕ
max_threads = 256

-- (size_t)-1, also as a pointer
abbrev pub gone : ℕ
gone = 2 ^ 64 - 1

-- process_t
pub record Process : Type 0 where
  pub pid : ℕ
  pub page_table : ℕ
  pub threads : ℕ → ℕ
  pub locked : Bool
  pub alloc_address : ℕ

-- thread_t, with the stack pointer that arch_thread_set_stack stores
pub record Thread : Type 0 where
  pub tid : ℕ
  pub pid : ℕ
  pub task : ℕ
  pub kstack : ℕ
  pub stack : ℕ
  pub locked : Bool

-- A call of vmm_map or vmm_unmap: the page table, the address and the number of pages. The physical
-- pages of a stack are what pmm_alloc returns.
pub data Request : Type 0 where
  map_pages unmap_pages : ℕ → ℕ → ℕ → Request

-- ProcessTable, the threads, ActiveTasks and TotalActiveTasks, the two global locks that the
-- functions below take, and the calls of the page tables in order.
pub record Tasks : Type 0 where
  pub table : ℕ → Option Process
  pub table_locked : Bool
  pub threads : ℕ → Option Thread
  pub active : ℕ → ℕ
  pub total : ℕ
  pub entry_locked : Bool
  pub requests : List Request

unfoldable pub lock_table : Cmd Tasks (Unit {0})
lock_table s = if s.table_locked then hang else ok tt (record s { table_locked = true })

unfoldable pub unlock_table : Cmd Tasks (Unit {0})
unlock_table s = ok tt (record s { table_locked = false })

unfoldable pub set_process : ℕ → Process → Cmd Tasks (Unit {0})
set_process pid p s = ok tt (record s { table = λ i. if i == pid then some p else s.table i })

-- The slot searches: the first of `n` slots from i on that passes the test.
unfoldable pub first_slot : (ℕ → Bool) → ℕ → ℕ → Option ℕ
first_slot free zero i = none
first_slot free (suc n) i = if free i then some i else first_slot free n (i + 1)

unfoldable pub is_none : Option Process → Bool
is_none none = true
is_none (some p) = false

-- The rest of process_create, for the slot that was found.
unfoldable pub place : ℕ → Option ℕ → Cmd Tasks ℕ
unfolding unlock_table set_process
place page_table none = do unlock_table; pure gone
place page_table (some pid) = do
  set_process pid (record {
    pid = pid;
    page_table = page_table;
    threads = λ i. 0;
    locked = false;
    alloc_address = 0x0000780000000000;
  })
  unlock_table
  pure pid

unfoldable pub process_create : ℕ → Cmd Tasks ℕ
unfolding first_slot is_none lock_table place
process_create page_table = do
  lock_table
  s ← get_state
  place page_table (first_slot (λ i. is_none (s.table i)) max_processes 0)

-- process_get_process leaves the process locked; an empty slot is a NULL whose lock is taken.
unfoldable pub process_get_process : ℕ → Cmd Tasks (Option Process)
unfolding lock_table unlock_table set_process
process_get_process pid = if leb max_processes pid then pure none else do
  lock_table
  s ← get_state
  elim (s.table pid) [
    | none ↦ fault_cmd
    | some p ↦ if p.locked then hang_cmd else do
      set_process pid (record p { locked = true })
      unlock_table
      pure (some (record p { locked = true }))
  ]

unfoldable pub process_get_process_no_lock : ℕ → Cmd Tasks (Option Process)
unfolding lock_table unlock_table
process_get_process_no_lock pid =
    if leb max_processes pid
    then pure none
    else do lock_table; s ← get_state; unlock_table; pure (s.table pid)

-- STACK_LOCATION_TOP - (STACK_SIZE + STACK_GUARD_SIZE) * (tid + 1)
unfoldable pub stack_guard : ℕ → ℕ
stack_guard tid = 0x0000800000000000 - (4 * 0x1000 + 0x1000) * (tid + 1)

unfoldable pub stack_bottom : ℕ → ℕ
unfolding stack_guard
stack_bottom tid = stack_guard tid + 0x1000

-- The stack of a user thread, and the calls that map it; the kernel's threads use kstack.
unfoldable pub user_stack : ℕ → ℕ → ℕ → ℕ → Cmd Tasks ℕ
unfolding stack_bottom stack_guard
user_stack pid page_table tid kstack s =
    if pid == 0
    then ok kstack s
    else ok (stack_bottom tid + 4 * 0x1000) (record s {
      requests =
          s.requests
          ++ map_pages page_table (stack_bottom tid) 4
            ∷ unmap_pages page_table (stack_guard tid) 1
            ∷ [];
    })

-- thread_create, for the addresses that kmalloc returns for the thread and its kernel stack.
unfoldable pub thread_create : ℕ → ℕ → ℕ → Cmd Tasks ℕ
unfolding process_get_process first_slot user_stack set_process
thread_create fresh kernel_stack pid = do
  found ← process_get_process pid
  elim found [
    | none ↦ pure gone
    | some p ↦ elim (first_slot (λ i. p.threads i == 0 || p.threads i == gone) max_threads 0) [
      | none ↦ (do set_process pid (record p { locked = false }); pure gone)
      | some tid ↦ (do
        let kstack = kernel_stack + 8 * 0x1000
        stack ← user_stack pid p.page_table tid kstack
        s ← get_state
        let thread : Thread = record {
          tid = tid;
          pid = pid;
          task = gone;
          kstack = kstack;
          stack = stack;
          locked = false;
        }
        put_state (record s { threads = λ a. if a == fresh then some thread else s.threads a })
        set_process pid
            (record p { threads = λ i. if i == tid then fresh else p.threads i; locked = false })
        pure tid)
    ]
  ]

-- scheduler_add_task
unfoldable pub scheduler_add_task : ℕ → ℕ → Cmd Tasks ℕ
unfolding process_get_process first_slot set_process
scheduler_add_task pid tid = do
  found ← process_get_process pid
  elim found [
    | none ↦ pure gone
    | some p ↦
        if p.threads tid == 0
        then (do set_process pid (record p { locked = false }); pure gone)
        else do
          s ← get_state
          elim (s.threads (p.threads tid)) [
            | none ↦ fault_cmd
            | some thread ↦
                if not (thread.task == gone)
                then (do set_process pid (record p { locked = false }); pure gone)
                else if s.entry_locked
                then hang_cmd
                else elim (first_slot (λ i. s.active i == 0 || s.active i == gone) (max_threads * 2)
                    0) [
                      | none ↦ (do set_process pid (record p { locked = false }); pure gone)
                      | some task ↦ (do
                        put_state (record s {
                          threads = λ a.
                              if a == p.threads tid
                              then some (record thread { task = task })
                              else s.threads a;
                          active = λ i. if i == task then p.threads tid else s.active i;
                          total = (s.total + 1) % 2 ^ 64;
                        })
                        set_process pid (record p { locked = false })
                        pure task)
                    ]
          ]
  ]

-- The loop of scheduler_get_next_task: i counts the tasks that were busy. The answer is a thread,
-- or NULL; a slot behind ActiveTasks is a fault.
unfoldable pub next_loop : ℕ → ℕ → ℕ → Cmd Tasks ℕ
next_loop zero i current s = hang
next_loop (suc fuel) i current s =
    if not (ltb i s.total)
    then ok 0 s
    else if leb (max_threads * 2) current
    then fault
    else let slot = if s.active current == 0 then 0 else current in
      let next = if slot + 1 == max_threads * 2 then 0 else slot + 1 in
      if s.active slot == 0
      then ok 0 s
      else if s.active slot == gone
      then next_loop fuel i next s
      else elim (s.threads (s.active slot)) [
        | none ↦ fault
        | some thread ↦
            if thread.locked
            then next_loop fuel (i + 1) next s
            else ok (s.active slot) (record s {
              threads = λ a.
                  if a == s.active slot
                  then some (record thread { locked = true })
                  else s.threads a;
            })
      ]

-- For at most `fuel` rounds. currentTask++ wraps from -1 to 0.
unfoldable pub scheduler_get_next_task : ℕ → ℕ → Cmd Tasks ℕ
unfolding next_loop
scheduler_get_next_task fuel current = next_loop fuel 0 ((current + 1) % 2 ^ 64)
