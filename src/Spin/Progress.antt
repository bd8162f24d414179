-- ===== src/Spin/Progress.antt =====
-- The lock is never lost: from every reachable state a waiting processor can be let in.
use new_wiv_os.Base.{
  ℕ, ◌+◌, ◌%◌, ◌^◌, ◌≡◌, ◌≢◌, refl, ap, ◌∙◌, arith, Bool, true, false, if◌then◌else◌, ℕ_discrete,
}
use new_wiv_os.Spin.{
  Pc, trying, won, counting, entering, lost, retry, adding, added, spinning, inside, leaving, Cpu,
  Lock, Move, begin_try, take, sign, count, enter, again, add, spin, grab, unlock_call, release,
  System, put, Step, move, start_state, Steps, here, then_step,
}
use new_wiv_os.Spin.Invariant.{holds, Inv, reachable-Inv, put_self, put_other}

-- In spinlock_lock_debug or spinlock_lock_normal, or in a spinlock_try_lock that has not yet looked.
abbrev pub waits : Pc → Bool
waits retry = true
waits (trying loops saved) = true
waits (lost true saved) = true
waits (adding saved) = true
waits (added saved) = true
waits spinning = true
waits other = false

-- Steps of processor `i` only.
data Alone (i : ℕ) : Lock → Cpu → Lock → Cpu → Type 0 where
  stop : {l : Lock} {c : Cpu} → Alone i l c l c
  go : {l m n : Lock} {c d e : Cpu} → Move i l c c.pc m d → Alone i m d n e → Alone i l c n e

-- A state that `s` leads to, where only processor `i` and the lock may differ.
record Reached (s : System) (i : ℕ) (m : Lock) (d : Cpu) : Type 0 where
  state : System
  steps : Steps s state
  lock : state.lock ≡ m
  cpu : state.cpus i ≡ d
  others : (j : ℕ) → i ≢ j → state.cpus j ≡ s.cpus j

Step-first : {s t u : System} → Step s t → Steps t u → Steps s u
Step-first x here = then_step here x
Step-first x (then_step ys y) = then_step (Step-first x ys) y

Steps-join : {s t u : System} → Steps s t → Steps t u → Steps s u
Steps-join xs here = xs
Steps-join xs (then_step ys y) = then_step (Steps-join xs ys) y

Alone-Reached :
    {i : ℕ} {l m : Lock} {c d : Cpu}
    → Alone i l c m d
    → (s : System) → s.lock ≡ l
    → s.cpus i ≡ c
    → Reached s i m d
Alone-Reached stop s a b = record {
  state = s;
  steps = here;
  lock = a;
  cpu = b;
  others = λ j ne. refl;
}
Alone-Reached {i} (go {m = m} {d = d} mv rest) s a b =
    let u : System = record { lock = m; cpus = put s.cpus i d } in
    let r = Alone-Reached rest u refl (put_self s.cpus i d) in
    record {
      state = r.state;
      steps = Step-first (move i (rw (a, b) mv)) r.steps;
      lock = r.lock;
      cpu = r.cpu;
      others = λ j ne. r.others j ne ∙ put_other s.cpus i d j ne;
    }

-- What a holder does to free the lock.
abbrev at_pc : Pc → Bool → ℕ → Cpu
at_pc p irq n = record { pc = p; irq = irq; preempt = n }

-- A processor's own steps that free the lock.
abbrev Frees : ℕ → Lock → Cpu → Type 0
Frees i l c = (m : Lock) × (d : Cpu) × (m.word ≡ 0) × Alone i l c m d

go-Frees : {i : ℕ} {l m : Lock} {c d : Cpu} → Move i l c c.pc m d → Frees i m d → Frees i l c
go-Frees mv (m, d, free, rest) = (m, d, free, go mv rest)

leaving-Frees :
    {i : ℕ} (l : Lock) (saved irq : Bool) (n : ℕ) → Frees i l (at_pc (leaving saved) irq n)
leaving-Frees l saved irq n = (_, _, refl, go release stop)

inside-Frees : {i : ℕ} (l : Lock) (irq : Bool) (n : ℕ) → Frees i l (at_pc inside irq n)
inside-Frees l irq n = go-Frees unlock_call (leaving-Frees l irq false n)

entering-Frees :
    {i : ℕ} (l : Lock) (saved irq : Bool) (n : ℕ) → Frees i l (at_pc (entering saved) irq n)
entering-Frees l saved irq n = go-Frees enter (inside-Frees l (if saved then true else irq) n)

counting-Frees :
    {i : ℕ} (l : Lock) (saved irq : Bool) (n : ℕ) → Frees i l (at_pc (counting saved) irq n)
counting-Frees l saved irq n = go-Frees count (entering-Frees l saved irq ((n + 1) % 2 ^ 64))

holds-Frees :
    {i : ℕ} (l : Lock) (p : Pc) (irq : Bool) (n : ℕ) → holds p ≡ true → Frees i l (at_pc p irq n)
holds-Frees l (won saved) irq n h = go-Frees sign (counting-Frees _ saved irq n)
holds-Frees l (counting saved) irq n h = counting-Frees l saved irq n
holds-Frees l (entering saved) irq n h = entering-Frees l saved irq n
holds-Frees l inside irq n h = inside-Frees l irq n
holds-Frees l (leaving saved) irq n h = leaving-Frees l saved irq n
holds-Frees l other irq n h = absurd cc

-- A waiting processor's own steps that take a free lock.
abbrev Enters : ℕ → Lock → Cpu → Type 0
Enters i l c = (m : Lock) × (d : Cpu) × (d.pc ≡ inside) × Alone i l c m d

trying-Enters :
    {i : ℕ} (l : Lock) (loops saved irq : Bool) (n : ℕ)
    → l.word ≡ 0
    → Enters i l (at_pc (trying loops saved) irq n)
trying-Enters l loops saved irq n free =
    (_, _, refl, go (take free) (go sign (go count (go enter stop))))

go-Enters : {i : ℕ} {l m : Lock} {c d : Cpu} → Move i l c c.pc m d → Enters i m d → Enters i l c
go-Enters mv (m, d, at, rest) = (m, d, at, go mv rest)

retry-Enters : {i : ℕ} (l : Lock) (irq : Bool) (n : ℕ) → l.word ≡ 0 → Enters i l (at_pc retry irq n)
retry-Enters l irq n free = go-Enters begin_try (trying-Enters l true irq false n free)

spinning-Enters :
    {i : ℕ} (l : Lock) (irq : Bool) (n : ℕ) → l.word ≡ 0 → Enters i l (at_pc spinning irq n)
spinning-Enters l irq n free = (_, _, refl, go (grab free) stop)

added-Enters :
    {i : ℕ} (l : Lock) (saved irq : Bool) (n : ℕ)
    → l.word ≡ 0
    → Enters i l (at_pc (added saved) irq n)
added-Enters l saved irq n free =
    go-Enters spin (spinning-Enters l (if saved then true else irq) n free)

waits-Enters :
    {i : ℕ} (l : Lock) (p : Pc) (irq : Bool) (n : ℕ)
    → waits p ≡ true
    → l.word ≡ 0
    → Enters i l (at_pc p irq n)
waits-Enters l (trying loops saved) irq n w free = trying-Enters l loops saved irq n free
waits-Enters l retry irq n w free = retry-Enters l irq n free
waits-Enters l (lost true saved) irq n w free =
    go-Enters again (retry-Enters l (if saved then true else irq) n free)
waits-Enters l (adding saved) irq n w free =
    go-Enters add (added-Enters l saved irq ((n + 1) % 2 ^ 64) free)
waits-Enters l (added saved) irq n w free = added-Enters l saved irq n free
waits-Enters l spinning irq n w free = spinning-Enters l irq n free
waits-Enters l (lost false saved) irq n w free = absurd cc
waits-Enters l other irq n w free = absurd cc

waits-idle : (p : Pc) → waits p ≡ true → holds p ≡ false
waits-idle p w = ground arith

-- A state that `s` leads to, with the lock free and processor `i` where it was.
Freed : System → ℕ → Type 0
Freed s i = (t : System) × Steps s t × (t.lock.word ≡ 0) × ((t.cpus i).pc ≡ (s.cpus i).pc)

Freed-of :
    {irq : ℕ → Bool} {s : System} → Inv irq s → (i : ℕ) → holds (s.cpus i).pc ≡ false → Freed s i
unfolding Freed
Freed-of {s = s} inv i idle = elim (ℕ_discrete s.lock.word 0) [
  | yes free ↦ (s, here, free, refl)
  | no busy ↦
      let (k, held) = inv.owner (omega (arith, busy, inv.word)) in
      let (m, d, free, alone) =
        holds-Frees {i = k} s.lock (s.cpus k).pc (s.cpus k).irq (s.cpus k).preempt held in
      let r = Alone-Reached alone s refl refl in
      let ne : k ≢ i = λ e. cc (idle, rw e at held) in
      (r.state, r.steps, ap Lock.word r.lock ∙ free, ap Cpu.pc (r.others i ne))
]

-- From every state that the processors reach, a processor that waits for the lock in
-- spinlock_lock_debug or spinlock_lock_normal, or has begun a spinlock_try_lock, can come to hold it: some
-- sequence of steps leads to a state where it is inside.
pub lock_available :
    (irq : ℕ → Bool) {s : System}
    → Steps (start_state irq) s
    → (i : ℕ) → waits (s.cpus i).pc ≡ true
    → (t : System) × Steps s t × ((t.cpus i).pc ≡ inside)
unfolding Freed
lock_available irq {s} steps i w =
    let inv = reachable-Inv irq steps in
    let (t, before, free, same) = Freed-of inv i (waits-idle _ w) in
    let (m, d, at, alone) =
      waits-Enters {i = i} t.lock (t.cpus i).pc (t.cpus i).irq (t.cpus i).preempt (rw same w)
        free in
    let r = Alone-Reached alone t refl refl in
    (r.state, Steps-join before r.steps, ap Cpu.pc r.cpu ∙ at)
