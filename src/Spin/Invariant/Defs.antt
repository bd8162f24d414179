-- ===== src/Spin/Invariant/Defs.antt =====
-- What holds of one processor and of the whole system.
use new_wiv_os.Base.{ℕ, ◌<◌, ◌≡◌, Bool, true, false}
use new_wiv_os.Spin.{
  Pc, outside, trying, won, counting, entering, lost, retry, adding, added, spinning, inside,
  leaving, released, done, Cpu, System,
}

-- From the winning test-and-set to the release.
abbrev pub holds : Pc → Bool
holds (won saved) = true
holds (counting saved) = true
holds (entering saved) = true
holds inside = true
holds (leaving saved) = true
holds other = false

-- What the lock adds to the preemption counter.
abbrev pub counted : Pc → ℕ
counted (entering saved) = 1
counted inside = 1
counted (leaving saved) = 1
counted (released saved) = 1
counted (added saved) = 1
counted spinning = 1
counted other = 0

-- The interrupt flag of a processor whose callers run with the flag `was`.
abbrev pub flag : Bool → Pc → Bool
flag was outside = was
flag was retry = was
flag was inside = was
flag was spinning = was
flag was other = false

-- irq_status where the lock's code has one
abbrev pub kept_flag : Bool → Pc → Bool
kept_flag was outside = was
kept_flag was retry = was
kept_flag was inside = was
kept_flag was spinning = was
kept_flag was (adding saved) = saved
kept_flag was (added saved) = saved
kept_flag was (trying loops saved) = saved
kept_flag was (won saved) = saved
kept_flag was (counting saved) = saved
kept_flag was (entering saved) = saved
kept_flag was (lost loops saved) = saved
kept_flag was (leaving saved) = saved
kept_flag was (released saved) = saved
kept_flag was (done saved) = saved

pub record CpuInv (was : Bool) (c : Cpu) : Type 0 where
  pub counter : c.preempt ≡ counted c.pc
  pub flagged : c.irq ≡ flag was c.pc
  pub saves : kept_flag was c.pc ≡ was

pub record Inv (irq : ℕ → Bool) (s : System) : Type 0 where
  pub word : s.lock.word < 2
  pub owner : s.lock.word ≡ 1 → (k : ℕ) × (holds (s.cpus k).pc ≡ true)
  pub taken : (i : ℕ) → holds (s.cpus i).pc ≡ true → s.lock.word ≡ 1
  pub unique : (i j : ℕ) → holds (s.cpus i).pc ≡ true → holds (s.cpus j).pc ≡ true → i ≡ j
  pub local : (i : ℕ) → CpuInv (irq i) (s.cpus i)
