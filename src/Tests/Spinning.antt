-- ===== src/Tests/Spinning.antt =====
-- Two processors at one spinlock.
use new_wiv_os.Base.{ℕ, ◌-◌, ◌^◌, ◌≡◌, refl, [], ◌∷◌, Bool, true, false, ◌==◌}
use new_wiv_os.Spin.{
  trying, won, inside, Cpu, Lock, try_call, take, disabled, System, put, move, start_state, Steps,
  here, then_step,
}
use new_wiv_os.Spin.Invariant.{Inv, reachable-Inv, mutual_exclusion}
use new_wiv_os.Base.Run.{ok, hang}
use new_wiv_os.Spin.X86.{
  spinlock_lock_debug, spinlock_lock_normal, spinlock_try_lock_normal, lock_normal-turned,
}
use new_wiv_os.Spin.Progress.{lock_available}

abbrev flags : ℕ → Bool
flags i = i == 0

abbrev here_now : System → ℕ → Lock → Cpu → System
here_now s i l c = record { lock = l; cpus = put s.cpus i c }

-- Processor 0 takes the lock with its interrupts on; then processor 1 begins to try.
abbrev called : System
called =
    here_now (start_state flags) 0 (start_state flags).lock
      (disabled ((start_state flags).cpus 0) (trying false))

abbrev owned : System
owned =
    here_now called 0 (record { word = 1; acquirer = 2 ^ 64 - 1 })
      (record { pc = won true; irq = false; preempt = 0 })

abbrev second : System
second = here_now owned 1 owned.lock (disabled (owned.cpus 1) (trying false))

to_second : Steps (start_state flags) second
to_second =
    then_step (then_step (then_step here (move 0 try_call)) (move 0 (take refl))) (move 1 try_call)

reachable-Inv_example : Inv flags second
reachable-Inv_example = reachable-Inv flags to_second

mutual_exclusion_example : ◌≡◌ {A = ℕ} 0 0
mutual_exclusion_example = mutual_exclusion flags to_second 0 0 refl refl

lock_available_example : (t : System) × Steps second t × ((t.cpus 1).pc ≡ inside)
lock_available_example = lock_available flags to_second 1 refl

lock_normal-turned_example :
    (spinlock_lock_normal 5 0 ≡ hang) × ((spinlock_try_lock_normal 0).0 ≡ 0)
lock_normal-turned_example = lock_normal-turned 4 0

lock_debug-first_run :
    spinlock_lock_debug 7 (1 ∷ 1 ∷ 0 ∷ 1 ∷ []) (record { word = 1; line = 0 })
    ≡ ok tt (record { word = 1; line = 7 })
unfolding spinlock_lock_debug
lock_debug-first_run = refl
