-- ===== src/Tasking/Stacks.antt =====
-- The user stacks of a process's threads.
use new_wiv_os.Base.{ℕ, ◌+◌, ◌*◌, ◌≤◌, ◌<◌, arith}
use new_wiv_os.Tasking.{stack_guard, stack_bottom, max_threads}

-- For threads a < b below MAX_THREADS, the stack of b ends at or below the guard page of a, and
-- the guard page of b lies at least 2 ^ 40 bytes above BASE_ALLOC_ADDRESS.
pub stack_bottom-stack_guard :
    (a b : ℕ)
    → a < b
    → b < max_threads
    → (stack_bottom b + 4 * 0x1000 ≤ stack_guard a)
      × (0x0000780000000000 + 0x10000000000 ≤ stack_guard b)
unfolding stack_bottom stack_guard
stack_bottom-stack_guard a b less small = (omega arith, omega arith)
