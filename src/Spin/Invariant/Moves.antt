-- ===== src/Spin/Invariant/Moves.antt =====
-- A step of one processor keeps each part of the invariant.
use new_wiv_os.Base.{
  ℕ, ◌<◌, ◌≡◌, ◌≢◌, refl, arith, Bool, true, false, ℕ_discrete, Bool-cases, inl, inr,
}
use new_wiv_os.Spin.{Pc, Cpu, Lock, Move, lock_call, take, miss, grab, wait, System, put}
use new_wiv_os.Spin.Invariant.Defs.{holds, CpuInv, Inv}

Move-CpuInv :
    {me : ℕ} {l m : Lock} {c d : Cpu} {p : Pc} {was : Bool}
    → Move me l c p m d
    → c.pc ≡ p
    → CpuInv was c
    → CpuInv was d
Move-CpuInv lock_call e inv = record {
  counter = ground (arith, e, inv.counter);
  flagged = ground (arith, e, inv.flagged);
  saves = refl;
}
Move-CpuInv mv e inv = record {
  counter = ground (arith, e, inv.counter);
  flagged = ground (arith, e, inv.flagged, inv.saves);
  saves = ground (arith, e, inv.saves);
}

pub put_self : (cpus : ℕ → Cpu) (i : ℕ) (c : Cpu) → put cpus i c i ≡ c
put_self cpus i c = ground arith

pub put_other : (cpus : ℕ → Cpu) (i : ℕ) (c : Cpu) (j : ℕ) → i ≢ j → put cpus i c j ≡ cpus j
put_other cpus i c j ne = ground arith

Move-word : {me : ℕ} {l m : Lock} {c d : Cpu} {p : Pc} → Move me l c p m d → l.word < 2 → m.word < 2
Move-word lock_call h = ground arith
Move-word mv h = ground arith

-- The lock's word after a step of a processor that `holds` as `was` says.
Move-held :
    {me : ℕ} {l m : Lock} {c d : Cpu} {p : Pc}
    → Move me l c p m d
    → (holds p ≡ true → l.word ≡ 1)
    → holds d.pc ≡ true
    → m.word ≡ 1
Move-held lock_call h t = ground (arith, h)
Move-held mv h t = ground (arith, h)

-- A step of a processor that does not hold the lock leaves a taken lock taken
Move-others :
    {me : ℕ} {l m : Lock} {c d : Cpu} {p : Pc}
    → Move me l c p m d
    → l.word ≡ 1
    → holds p ≡ false
    → (m.word ≡ 1) × (holds d.pc ≡ false)
Move-others (take free) w h = absurd (omega arith)
Move-others (grab free) w h = absurd (omega arith)
Move-others lock_call w h = ground arith
Move-others mv w h = ground arith

-- A step of the holder, which keeps the lock or frees it
Move-holder :
    {me : ℕ} {l m : Lock} {c d : Cpu} {p : Pc}
    → Move me l c p m d
    → l.word ≡ 1
    → holds p ≡ true
    → holds d.pc ≡ false
    → m.word ≡ 0
Move-holder lock_call w h g = ground arith
Move-holder mv w h g = ground arith

-- A step with a free lock
Move-free :
    {me : ℕ} {l m : Lock} {c d : Cpu} {p : Pc}
    → Move me l c p m d
    → l.word ≡ 0
    → m.word ≡ 1
    → (holds p ≡ false)
    → holds d.pc ≡ true
Move-free (miss busy) w m h = absurd (busy w)
Move-free (wait busy) w m h = absurd (busy w)
Move-free lock_call w m h = ground arith
Move-free mv w m h = ground arith

module _ {irq : ℕ → Bool} {s : System} (inv : Inv irq s) (i : ℕ) {m : Lock} {d : Cpu}
    (mv : Move i s.lock (s.cpus i) (s.cpus i).pc m d) where
  abbrev after : System
  after = record { lock = m; cpus = put s.cpus i d }

  at_self : after.cpus i ≡ d
  at_self = put_self s.cpus i d

  at_other : {j : ℕ} → i ≢ j → after.cpus j ≡ s.cpus j
  at_other {j} ne = put_other s.cpus i d j ne

  -- When another processor holds the lock, this one does not, before and after.
  others : {j : ℕ} → i ≢ j → holds (s.cpus j).pc ≡ true → (m.word ≡ 1) × (holds d.pc ≡ false)
  others {j} ne h = elim (Bool-cases (holds (s.cpus i).pc)) [
    | inl mine ↦ absurd (ne (inv.unique i j mine h))
    | inr idle ↦ Move-others mv (inv.taken j h) idle
  ]

  after_idle : m.word ≡ 1 → holds d.pc ≡ false → (k : ℕ) × (holds (after.cpus k).pc ≡ true)
  after_idle w g = elim (Bool-cases (holds (s.cpus i).pc)) [
    | inl mine ↦ absurd (omega (arith, w, Move-holder mv (inv.taken i mine) mine g))
    | inr idle ↦ elim (ℕ_discrete s.lock.word 0) [
      | yes free ↦ absurd (cc (g, Move-free mv free w idle))
      | no ne ↦
          let (k, h) = inv.owner (omega (arith, inv.word, ne)) in
          (k, rw (at_other {j = k} (λ e. cc (idle, rw (← e) at h))) h)
    ]
  ]

  after_owner : m.word ≡ 1 → (k : ℕ) × (holds (after.cpus k).pc ≡ true)
  after_owner w = elim (Bool-cases (holds d.pc)) [
    | inl mine ↦ (i, rw at_self mine)
    | inr idle ↦ after_idle w idle
  ]

  after_taken : (j : ℕ) → holds (after.cpus j).pc ≡ true → m.word ≡ 1
  after_taken j h = elim (ℕ_discrete i j) [
    | yes e ↦ Move-held mv (inv.taken i) (rw (← e, at_self) at h)
    | no ne ↦ (others ne (rw (at_other ne) at h)).0
  ]

  after_unique : (j k : ℕ) → holds (after.cpus j).pc ≡ true → holds (after.cpus k).pc ≡ true → j ≡ k
  after_unique j k h g = elim (ℕ_discrete i j) [
    | yes e ↦ elim (ℕ_discrete i k) [
      | yes f ↦ cc (e, f)
      | no ne ↦ absurd (cc (rw (← e, at_self) at h, (others ne (rw (at_other ne) at g)).1))
    ]
    | no ne ↦ elim (ℕ_discrete i k) [
      | yes f ↦ absurd (cc (rw (← f, at_self) at g, (others ne (rw (at_other ne) at h)).1))
      | no apart ↦ inv.unique j k (rw (at_other ne) at h) (rw (at_other apart) at g)
    ]
  ]

  after_local : (j : ℕ) → CpuInv (irq j) (after.cpus j)
  after_local j = elim (ℕ_discrete i j) [
    | yes e ↦ rw (← e, at_self) (Move-CpuInv mv refl (inv.local i))
    | no ne ↦ rw (at_other ne) (inv.local j)
  ]

  pub Move-Inv : Inv irq after
  Move-Inv = record {
    word = Move-word mv inv.word;
    owner = after_owner;
    taken = after_taken;
    unique = after_unique;
    local = after_local;
  }
