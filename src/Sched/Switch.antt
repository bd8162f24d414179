-- ===== src/Sched/Switch.antt =====
-- What a switch of threads does.
use new_wiv_os.Base.{
  ℕ, ◌*◌, ◌<◌, ◌≡◌, ◌≢◌, inl, inr, refl, sym, ap, ◌∙◌, arith, Bool, true, false, not, ◌||◌,
  if◌then◌else◌, ◌==◌, ==_refl, ==_iff, ==_false, lt→leb_false, Bool-cases, Option, some,
}
use new_wiv_os.Base.Run.{ok, Cmd, and_then, Returns}
use new_wiv_os.Tasking.{
  Process, Thread, Tasks, gone, max_threads, max_processes, scheduler_get_next_task,
}
use new_wiv_os.Cpu.{
  arch_cpu_get_preempt_counter, arch_cpu_get_current_pid, arch_cpu_get_current_taskid,
}
use new_wiv_os.Sched.{
  Regs, Context, Kernel, back, switched, on_tasks, saved_context, leave_task, run_task, next_task,
  scheduler_schedule, set_thread, set_context, entry_lock,
}
use new_wiv_os.Sched.Enter.{Entered, Before, satp_for, loaded-Entered, run_task-lem}

-- Where the scheduler does not run, or the processor's preemption counter is not 0, scheduler_schedule
-- returns and changes nothing.
schedule_back :
    (fuel : ℕ) (regs : Regs) (k : Kernel)
    → (not k.running || not (arch_cpu_get_preempt_counter k.cpus == 0)) ≡ true
    → scheduler_schedule fuel regs k ≡ ok back k
unfolding scheduler_schedule
schedule_back fuel regs k off = ground arith

-- The state when the next thread is chosen: both locks are held and interrupts are off; the thread at
-- a0 is saved and can be taken.
abbrev pub left_behind : Regs → ℕ → Thread → Kernel → Kernel
left_behind regs a0 old k =
    let m = record (entry_lock true (record k { irq = false })) { scheduler_locked = true } in
    set_thread a0 (record old { locked = false })
      (set_context a0 (saved_context regs (arch_cpu_get_current_pid k.cpus) m (m.contexts a0)) m)

on_tasks-ok :
    {A : Type 0} (m : Cmd Tasks A) (k : Kernel) (v : A) (after : Tasks)
    → m k.tasks ≡ ok v after
    → on_tasks m k ≡ ok v (record k { tasks = after })
unfolding on_tasks
on_tasks-ok m k v after h = rw (h, on_tasks) refl

saved_context-regs :
    (regs : Regs) (pid : ℕ) (k : Kernel) (c : Context)
    → (saved_context regs pid k c).saved_regs ≡ regs
unfolding saved_context
saved_context-regs regs pid k c = ground arith

last_branch :
    {A : Type 0} (p q r : Bool) (w x y z : A)
    → p ≡ false
    → q ≡ false
    → r ≡ false
    → (if p then w else if q then x else if r then y else z) ≡ z
last_branch p q r w x y z hp hq hr = rw (hp, hq, hr) refl

module _ (fuel : ℕ) (regs : Regs) (k : Kernel) (a : ℕ) (old next : Thread) (after : Tasks)
    (process : Process) where
  -- The thread that runs.
  abbrev pub a0 : ℕ
  a0 = k.tasks.active (arch_cpu_get_current_taskid k.cpus)

  -- What scheduler_schedule needs to switch from the thread at a0 to the one at a.
  pub record Ready (current : Option Process) : Type 0 where
    pub runs : k.running ≡ true
    pub inited : k.cpus.inited ≡ true
    pub no_preempt : arch_cpu_get_preempt_counter k.cpus ≡ 0
    pub unlocked : (k.tasks.entry_locked ≡ false) × (k.scheduler_locked ≡ false)
    pub has_task : arch_cpu_get_current_taskid k.cpus < max_threads * 2
    pub not_null : (a0 ≢ 0) × (a0 ≢ gone)
    pub old_lives : k.tasks.threads a0 ≡ some old
    pub chosen :
        scheduler_get_next_task fuel
          (arch_cpu_get_current_taskid k.cpus)
          (left_behind regs a0 old k).tasks
        ≡ ok a after
    pub found : a ≢ 0
    pub next_lives : after.threads a ≡ some next
    pub table_free : after.table_locked ≡ false
    pub small : next.pid < max_processes
    pub lives : after.table next.pid ≡ some process
    pub before :
        Before
          (arch_cpu_get_current_pid k.cpus)
          a
          next
          (record (left_behind regs a0 old k) { tasks = after })
          process
          table_free
          small
          lives
          current

  leave_task-lem :
      (current : Option Process)
      → Ready current
      → leave_task regs
          (arch_cpu_get_current_pid k.cpus)
          (arch_cpu_get_current_taskid k.cpus)
          (record (entry_lock true (record k { irq = false })) { scheduler_locked = true })
        ≡ ok tt (left_behind regs a0 old k)
  unfolding leave_task
  leave_task-lem current r =
      rw
        (
          ==_false (arch_cpu_get_current_taskid k.cpus) gone
              (λ e. let h = r.has_task in omega arith),
          lt→leb_false (max_threads * 2) (arch_cpu_get_current_taskid k.cpus) r.has_task,
          ==_false a0 0 r.not_null.0,
          ==_false a0 gone r.not_null.1,
          r.old_lives,
        )
        refl

  abbrev entered : Kernel
  entered = record (entry_lock true (record k { irq = false })) { scheduler_locked = true }

  schedule-goes :
      (current : Option Process)
      → Ready current
      → scheduler_schedule fuel regs k
        ≡ and_then
            (leave_task regs
              (arch_cpu_get_current_pid k.cpus)
              (arch_cpu_get_current_taskid k.cpus)
              entered)
            (λ _.
              next_task fuel (arch_cpu_get_current_pid k.cpus) (arch_cpu_get_current_taskid k.cpus))
  unfolding scheduler_schedule
  schedule-goes current r =
      let quiet : (not k.running || not (arch_cpu_get_preempt_counter k.cpus == 0)) ≡ false =
        ground (arith, r.runs, r.no_preempt) in
      last_branch _ _ _ _ _ _ _ quiet r.unlocked.0 r.unlocked.1

  next_task-lem :
      (current : Option Process)
      → Ready current
      → next_task fuel
          (arch_cpu_get_current_pid k.cpus)
          (arch_cpu_get_current_taskid k.cpus)
          (left_behind regs a0 old k)
        ≡ run_task
            (arch_cpu_get_current_pid k.cpus)
            a
            next
            (record (left_behind regs a0 old k) { tasks = after })
  unfolding next_task
  next_task-lem current r =
      rw
        (
          on_tasks-ok (scheduler_get_next_task fuel (arch_cpu_get_current_taskid k.cpus))
              (left_behind regs a0 old k) a after r.chosen,
          ==_false a 0 r.found,
          r.next_lives,
        )
        refl

  -- A switch loads the chosen thread on this processor, as Entered says, with the page table of its
  -- process where that is another one, and leaves the registers in the context of the thread that
  -- ran.
  pub schedule-Entered :
      (current : Option Process)
      → Ready current
      → Returns (scheduler_schedule fuel regs k) λ o l.
        (o
          ≡ switched a (
              satp_for
                (arch_cpu_get_current_pid k.cpus)
                process
                current
                (record (left_behind regs a0 old k) { tasks = after })))
        × Entered (record (left_behind regs a0 old k) { tasks = after }) a next l
        × ((l.contexts a0).saved_regs.words ≡ regs.words)
  schedule-Entered current r =
      let pid = arch_cpu_get_current_pid k.cpus in
      let l = record (left_behind regs a0 old k) { tasks = after } in
      rw
        (
          schedule-goes current r,
          leave_task-lem current r,
          next_task-lem current r,
          run_task-lem pid a next l process r.table_free r.small r.lives current r.before,
        )
        (refl, loaded-Entered a next l r.inited, kept (loaded-Entered a next l r.inited))
    where
      kept :
          {l : Kernel}
          → Entered (record (left_behind regs a0 old k) { tasks = after }) a next l
          → (l.contexts a0).saved_regs.words ≡ regs.words
      kept {l} e = elim (Bool-cases (a == a0)) [
        | inl same ↦
            let p : a ≡ a0 = (==_iff a a0).0 same in
            ap (λ (b : ℕ). (l.contexts b).saved_regs.words) (sym p)
            ∙ e.words
            ∙ ap (λ (b : ℕ). ((left_behind regs a0 old k).contexts b).saved_regs.words) p
            ∙ saved
        | inr other ↦
            let q : l.contexts a0 ≡ (left_behind regs a0 old k).contexts a0 =
              e.other_contexts a0 ∙ rw other refl in
            ap (λ c. c.saved_regs.words) q ∙ saved
      ]
        where
          saved : ((left_behind regs a0 old k).contexts a0).saved_regs.words ≡ regs.words
          saved = rw (==_refl a0) (ap (λ r. r.words) (saved_context-regs regs _ _ _))
