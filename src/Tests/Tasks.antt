-- ===== src/Tests/Tasks.antt =====
-- Runs of the process table and of the choice of the next task.
use new_wiv_os.Base.{
  ℕ, ◌+◌, ◌≤◌, ◌<◌, ◌≡◌, refl, arith, ◌==◌, Bool, true, false, if◌then◌else◌, [], none, some, zero,
  suc,
}
use new_wiv_os.Base.Run.{ok, Returns}
use new_wiv_os.Tasking.{Thread, Tasks, process_create, next_loop}
use new_wiv_os.Tasking.Slots.{Created, process_create_lem}
use new_wiv_os.Tasking.Next.{Slot, taken, next_loop-taken}

abbrev thread_of : ℕ → Bool → Thread
thread_of tid locked = record {
  tid = tid;
  pid = 0;
  task = tid;
  kstack = 0x9000;
  stack = 0x9000;
  locked = locked;
}

-- Tasks 0 (locked) and 1 (free).
abbrev tasks : Tasks
tasks = record {
  table = λ i. none;
  table_locked = false;
  threads = λ a.
      if a == 0x4000
      then some (thread_of 0 true)
      else if a == 0x5000
      then some (thread_of 1 false)
      else none;
  active = λ i. if i == 0 then 0x4000 else if i == 1 then 0x5000 else 0;
  total = 2;
  entry_locked = false;
  requests = [];
}

abbrev busy_slot : Slot tasks 0 true
busy_slot = record {
  thread = thread_of 0 true;
  some_thread = omega arith;
  not_gone = omega arith;
  lives = refl;
  lock = refl;
}

abbrev free_slot : Slot tasks 1 false
free_slot = record {
  thread = thread_of 1 false;
  some_thread = omega arith;
  not_gone = omega arith;
  lives = refl;
  lock = refl;
}

only_busy : (j : ℕ) → 0 ≤ j → j < 0 + 1 → Slot tasks j true
only_busy zero a b = busy_slot
only_busy (suc j) a b = absurd (omega arith)

process_create_lem_example : Returns (process_create 0x7000 tasks) (Created tasks 0x7000)
process_create_lem_example = process_create_lem tasks 0x7000 refl

next_loop-taken_example : next_loop 5 0 0 tasks ≡ ok 0x5000 (taken tasks 1 (thread_of 1 false))
next_loop-taken_example =
    next_loop-taken 5 1 0 0 tasks (omega arith) (omega arith) (omega arith) only_busy free_slot
