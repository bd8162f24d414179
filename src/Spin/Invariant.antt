-- ===== src/Spin/Invariant.antt =====
-- What holds in every state that the processors reach: the lock's word says whether one holds the
-- lock, one at most does, the preemption counters count the lock, and interrupts are given back.
mod Defs
mod Moves
pub use Defs.*
pub use Moves.{put_self, put_other}
use Moves.{Move-Inv}
use new_wiv_os.Base.{
  ℕ, ◌+◌, ◌-◌, ◌%◌, ◌^◌, ◌<◌, ◌≤◌, ◌≡◌, ◌≢◌, refl, arith, Bool, true, false, if◌then◌else◌, ◌==◌,
}
use new_wiv_os.Spin.{
  Pc, outside, trying, won, counting, entering, lost, retry, adding, added, spinning, inside,
  leaving, released, done, Cpu, System, Step, move, start_state, Steps, here, then_step,
}

start_state-Inv : (irq : ℕ → Bool) → Inv irq (start_state irq)
start_state-Inv irq = record {
  word = omega arith;
  owner = λ w. absurd (omega arith);
  taken = λ i h. cc;
  unique = λ i j h g. cc;
  local = λ i. record { counter = refl; flagged = refl; saves = refl };
}

Step-Inv : {irq : ℕ → Bool} {s t : System} → Step s t → Inv irq s → Inv irq t
Step-Inv (move i mv) inv = Move-Inv inv i mv

Steps-Inv : {irq : ℕ → Bool} {s t : System} → Steps s t → Inv irq s → Inv irq t
Steps-Inv here inv = inv
Steps-Inv (then_step steps step) inv = Step-Inv step (Steps-Inv steps inv)

-- In every state that the processors reach from a free lock, whatever their interrupt flags: the
-- word is 0 or 1, and is 1 exactly when a processor is between its winning test-and-set and its
-- release; one processor at most is; each preemption counter is what its processor's place counts,
-- so 1 inside and 0 outside; and each interrupt flag is the caller's outside and inside of the lock
-- and between two tries of spinlock_lock_debug and spinlock_lock_normal, and off at the other places
-- of the lock's own code, where irq_status keeps the caller's.
pub reachable-Inv : (irq : ℕ → Bool) {s : System} → Steps (start_state irq) s → Inv irq s
reachable-Inv irq steps = Steps-Inv steps (start_state-Inv irq)

-- Two processors that hold the lock in a state that the processors reach from a free lock are the
-- same processor.
pub mutual_exclusion :
    (irq : ℕ → Bool) {s : System}
    → Steps (start_state irq) s
    → (i j : ℕ) → holds (s.cpus i).pc ≡ true
    → holds (s.cpus j).pc ≡ true
    → i ≡ j
mutual_exclusion irq steps = (reachable-Inv irq steps).unique
