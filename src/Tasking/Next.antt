-- ===== src/Tasking/Next.antt =====
-- The task that the scheduler takes next.
use new_wiv_os.Base.{
  ℕ, zero, suc, ◌+◌, ◌*◌, ◌≤◌, ◌<◌, Bool, true, false, if◌then◌else◌, ◌==◌, some, ◌≡◌, ◌≢◌, arith,
  ==_false, lt→ltb, lt→leb_false, ◌∙◌, sym,
}
use mathlib.Core.Path.{subst}
use new_wiv_os.Base.Run.{ok, fault}
use new_wiv_os.Tasking.{Thread, Tasks, max_threads, gone, next_loop, scheduler_get_next_task}

-- Slot i holds a thread, whose lock is held, or free.
pub record Slot (s : Tasks) (i : ℕ) (locked : Bool) : Type 0 where
  pub thread : Thread
  pub some_thread : s.active i ≢ 0
  pub not_gone : s.active i ≢ gone
  pub lives : s.threads (s.active i) ≡ some thread
  pub lock : thread.locked ≡ locked

-- The state after the thread of slot i has been locked.
abbrev pub taken : Tasks → ℕ → Thread → Tasks
taken s i thread = record s {
  threads = λ a. if a == s.active i then some (record thread { locked = true }) else s.threads a;
}

module _ (fuel i current : ℕ) (s : Tasks) (more : i < s.total)
    (room : current + 1 < max_threads * 2) where
  step_taken :
      (free : Slot s current false)
      → next_loop (suc fuel) i current s ≡ ok (s.active current) (taken s current free.thread)
  unfolding next_loop
  step_taken free = rw (
    lt→ltb i s.total more,
    lt→leb_false (max_threads * 2) current (omega arith),
    ==_false (s.active current) 0 free.some_thread,
    ==_false (s.active current) 0 free.some_thread,
    ==_false (s.active current) gone free.not_gone,
    free.lives,
    free.lock,
    ==_false (s.active current) 0 free.some_thread,
  )

  step_busy :
      Slot s current true
      → next_loop (suc fuel) i current s ≡ next_loop fuel (i + 1) (current + 1) s
  unfolding next_loop
  step_busy busy = rw (
    lt→ltb i s.total more,
    lt→leb_false (max_threads * 2) current (omega arith),
    ==_false (s.active current) 0 busy.some_thread,
    ==_false (s.active current) 0 busy.some_thread,
    ==_false (s.active current) gone busy.not_gone,
    busy.lives,
    busy.lock,
    ==_false (s.active current) 0 busy.some_thread,
    ==_false (current + 1) (max_threads * 2) (omega arith),
  )

-- Where the k slots from `current` on hold locked threads and slot current + k a free one, all
-- of them before the last slot, and i + k is below the number of tasks, k + 1 rounds of the
-- search or more answer that thread and lock it.
pub next_loop-taken :
    (fuel k i current : ℕ) (s : Tasks)
    → k < fuel
    → i + k < s.total
    → current + k + 1 < max_threads * 2
    → ((j : ℕ) → current ≤ j → j < current + k → Slot s j true)
    → (free : Slot s (current + k) false)
    → next_loop fuel i current s ≡ ok (s.active (current + k)) (taken s (current + k) free.thread)
next_loop-taken zero k i current s enough more room busy free = absurd (omega arith)
next_loop-taken (suc fuel) zero i current s enough more room busy free =
    here (current + 0) (omega arith) free
  where
    here :
        (c : ℕ)
        → c ≡ current
        → (free : Slot s c false)
        → next_loop (suc fuel) i current s ≡ ok (s.active c) (taken s c free.thread)
    here c e free =
        subst (λ d. next_loop (suc fuel) i d s ≡ ok (s.active c) (taken s c free.thread)) e
          (step_taken fuel i c s (omega arith) (omega arith) free)
next_loop-taken (suc fuel) (suc k) i current s enough more room busy free =
    step_busy fuel i current s (omega arith) (omega arith)
      (busy current (omega arith) (omega arith))
    ∙ there (current + suc k) (omega arith) free (
        next_loop-taken fuel k (i + 1) (current + 1) s (omega arith) (omega arith) (omega arith)
          (λ j a b. busy j (omega arith) (omega arith)))
  where
    there :
        (c : ℕ)
        → c ≡ current + 1 + k
        → (free : Slot s c false)
        → ((free : Slot s (current + 1 + k) false)
            → next_loop fuel (i + 1) (current + 1) s
              ≡ ok (s.active (current + 1 + k)) (taken s (current + 1 + k) free.thread))
        → next_loop fuel (i + 1) (current + 1) s ≡ ok (s.active c) (taken s c free.thread)
    there c e free rest =
        subst
          (λ d.
            (free : Slot s d false)
            → next_loop fuel (i + 1) (current + 1) s ≡ ok (s.active d) (taken s d free.thread))
          (sym e) rest free

-- After the task of slot 511, the last one, with tasks in the list, scheduler_get_next_task
-- reads behind ActiveTasks.
pub next_task_beyond :
    (fuel : ℕ) (s : Tasks) → 0 < s.total → scheduler_get_next_task (suc fuel) 511 s ≡ fault
unfolding scheduler_get_next_task next_loop
next_task_beyond fuel s more = rw (lt→ltb 0 s.total more)
