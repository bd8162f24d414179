-- ===== src/Sched/Enter.antt =====
-- Loading a thread: the rest of scheduler_schedule once the thread is chosen.
use new_wiv_os.Base.{
  ℕ, ◌+◌, ◌*◌, ◌<◌, ◌≡◌, ◌≢◌, inl, inr, refl, sym, ap, ◌∙◌, arith, true, false, not, ◌&&◌, ◌||◌,
  if◌then◌else◌, ◌==◌, ==_refl, ==_iff, ==_false, lt→leb_false, Bool-cases, Option, none, some,
}
use new_wiv_os.Base.Run.{ok, fault_cmd, Cmd}
use new_wiv_os.Vmm.{riscv_vmm_create_satp}
use new_wiv_os.Tasking.{Process, Thread, gone, max_processes, process_get_process_no_lock}
use new_wiv_os.Cpu.{
  own, put_local, copies_fpu, arch_cpu_get_index, arch_cpu_set_current_pid,
  arch_cpu_set_current_tid, arch_cpu_set_current_taskid, arch_cpu_set_thread_user_stack,
  arch_cpu_set_thread_kernel_stack,
}
use new_wiv_os.Sched.{
  Kernel, Outcome, switched, on_tasks, enter_task, current_process, choose_table,
  arch_scheduler_switch_task, arch_scheduler_unlock_locks, run_task,
}

-- The look at the process table.
abbrev unlocked : Kernel → Kernel
unlocked k = record k { tasks = record k.tasks { table_locked = false } }

module _ (pid : ℕ) (k : Kernel) (free : k.tasks.table_locked ≡ false)
    (small : pid < max_processes) where
  no_lock-table : on_tasks (process_get_process_no_lock pid) k ≡ ok (k.tasks.table pid) (unlocked k)
  unfolding on_tasks process_get_process_no_lock
  no_lock-table = rw (lt→leb_false max_processes pid small, free) refl

-- The processor runs the thread at address a, from state k.
pub record Entered (k : Kernel) (a : ℕ) (next : Thread) (l : Kernel) : Type 0 where
  pub pid : (own l.cpus).pid ≡ next.pid
  pub tid : (own l.cpus).tid ≡ next.tid
  pub task : (own l.cpus).task ≡ next.task
  pub stack_for_kernel :
      (own l.cpus).thread_kernel_stack
      ≡ (if next.pid == 0 then (own k.cpus).thread_kernel_stack else next.kstack)
  pub stack_for_user :
      (own l.cpus).thread_user_stack
      ≡ (if next.pid == 0 then (own k.cpus).thread_user_stack else (k.contexts a).ustack_address)
  pub fpu :
      l.fpu ≡ (if not (next.pid == 0) && copies_fpu k.cpus then (k.contexts a).fpu_state else k.fpu)
  pub tp : (l.contexts a).saved_regs.tp ≡ k.cpu_locals + k.cpus.self * 70
  pub words : (l.contexts a).saved_regs.words ≡ (k.contexts a).saved_regs.words
  pub cpu_number : (l.contexts a).cpu_number ≡ (own k.cpus).current
  pub other_contexts : (b : ℕ) → l.contexts b ≡ (if a == b then l.contexts b else k.contexts b)
  pub other_cpus :
      (i : ℕ) → l.cpus.locals i ≡ (if k.cpus.self == i then l.cpus.locals i else k.cpus.locals i)
  pub threads : l.tasks.threads ≡ k.tasks.threads
  pub unlocked : (l.scheduler_locked ≡ false) × (l.tasks.entry_locked ≡ false)

-- The satp that is loaded: 0 where the page table stays.
abbrev pub satp_for : ℕ → Process → Option Process → Kernel → ℕ
satp_for pid process none k = riscv_vmm_create_satp k.max_level (k.entries process.page_table)
satp_for pid process (some current) k =
    if pid == gone || not (process.page_table == current.page_table)
    then riscv_vmm_create_satp k.max_level (k.entries process.page_table)
    else 0

-- The state when the registers are loaded.
abbrev pub loaded : ℕ → Thread → Kernel → Kernel
loaded a next k =
    let l = enter_task a next k in
    arch_scheduler_unlock_locks (record l {
      tasks = record l.tasks { table_locked = false };
      contexts = λ b.
          if a == b
          then record (l.contexts a) {
            saved_regs = record (l.contexts a).saved_regs { tp = l.cpu_locals + l.cpus.self * 70 };
          }
          else l.contexts b;
    })

pub loaded-Entered :
    (a : ℕ) (next : Thread) (k : Kernel) → k.cpus.inited ≡ true → Entered k a next (loaded a next k)
unfolding enter_task arch_scheduler_unlock_locks put_local copies_fpu arch_cpu_get_index
    arch_cpu_set_current_pid arch_cpu_set_current_tid arch_cpu_set_current_taskid
    arch_cpu_set_thread_user_stack arch_cpu_set_thread_kernel_stack
loaded-Entered a next k inited = record {
  pid = ground arith;
  tid = ground arith;
  task = ground arith;
  stack_for_kernel = ground arith;
  stack_for_user = ground arith;
  fpu = ground arith;
  tp = ground arith;
  words = ground arith;
  cpu_number = ground arith;
  other_contexts = λ b. ground arith;
  other_cpus = λ i. ground arith;
  threads = refl;
  unlocked = (refl, refl);
}

module _ (pid a : ℕ) (next : Thread) (k : Kernel) (process : Process)
    (free : k.tasks.table_locked ≡ false) (small : next.pid < max_processes)
    (lives : k.tasks.table next.pid ≡ some process) where
  -- The process that ran before.
  abbrev pub Before : Option Process → Type 0
  Before none = pid ≡ gone
  Before (some current) = (pid < max_processes) × (k.tasks.table pid ≡ some current)

  -- The state at the choice of the page table.
  abbrev at_choice : Kernel
  at_choice = unlocked (enter_task a next k)

  current_process-lem :
      (current : Option Process)
      → Before current
      → current_process pid next.pid (some process) at_choice
        ≡ ok (if next.pid == pid then some process else current) at_choice
  unfolding current_process enter_task
  current_process-lem none gone_before =
      rw (==_false next.pid pid (λ e. omega arith), (==_iff pid gone).1 gone_before) refl
  current_process-lem (some current) (small', lives') = elim (Bool-cases (next.pid == pid)) [
    | inl same ↦ rw same refl
    | inr other ↦
        rw
          (
            other,
            ==_false pid gone (λ e. omega arith),
            no_lock-table pid at_choice refl small',
            lives',
          )
          refl
  ]

  -- The page table that is loaded.
  table_for : Option Process → Option ℕ
  table_for none = some (k.entries process.page_table)
  table_for (some current) =
      if process.page_table == current.page_table then none else some (k.entries process.page_table)

  choose_table-lem :
      (current : Option Process)
      → Before current
      → choose_table pid
          (some process)
          (if next.pid == pid then some process else current)
          at_choice
        ≡ some (table_for current)
  unfolding choose_table table_for enter_task
  choose_table-lem none gone_before =
      rw (==_false next.pid pid (λ e. omega arith), (==_iff pid gone).1 gone_before) refl
  choose_table-lem (some current) (small', lives') =
      let known : pid ≢ gone = λ e. omega arith in
      elim (Bool-cases (next.pid == pid)) [
        | inl same ↦
            let e : some process ≡ some current =
              sym lives ∙ ap k.tasks.table ((==_iff next.pid pid).0 same) ∙ lives' in
            let p : process.page_table ≡ current.page_table = ground (arith, e) in
            rw (same, ==_false pid gone known, ==_refl process.page_table, (==_iff _ _).1 p) refl
        | inr other ↦ rw (other, ==_false pid gone known) (ground arith)
      ]

  switch_task-lem :
      (current : Option Process)
      → Before current
      → arch_scheduler_switch_task a (table_for current) at_choice
        ≡ ok (switched a (satp_for pid process current k)) (loaded a next k)
  unfolding arch_scheduler_switch_task table_for enter_task
  switch_task-lem none before = refl
  switch_task-lem (some current) (small', lives') =
      elim (Bool-cases (process.page_table == current.page_table)) [
        | inl same ↦ rw (same, ==_false pid gone (λ e. omega arith)) refl
        | inr other ↦ rw other (ground arith)
      ]

  -- With both processes in the table, the thread is loaded, with the page table of its process where
  -- that is another one.
  pub run_task-lem :
      (current : Option Process)
      → Before current
      → run_task pid a next k ≡ ok (switched a (satp_for pid process current k)) (loaded a next k)
  unfolding run_task
  run_task-lem current before =
      rw
        (
          no_lock-table next.pid (enter_task a next k) free small,
          lives,
          current_process-lem current before,
        )
        (ap (λ o. load_table o at_choice) (choose_table-lem current before)
          ∙ switch_task-lem current before)
    where
      load_table : Option (Option ℕ) → Cmd Kernel Outcome
      load_table none = fault_cmd
      load_table (some entries) = arch_scheduler_switch_task a entries
