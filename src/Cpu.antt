-- ===== src/Cpu.antt =====
-- The processors of kernel/arch/riscv64/cpu.c and cpu.h. CPULocals is a function on indices; `self` is
-- the index that tp points to on the running processor. The messages are left out, and so is the
-- enabling of the floating point unit in sstatus.
pub mod Slots
pub mod Boot
pub mod Isa
use new_wiv_os.Base.{
  ℕ, zero, suc, ◌+◌, ◌-◌, ◌*◌, ◌%◌, ◌^◌, bit_and, bit_or, Bool, true, false, not, ◌||◌,
  if◌then◌else◌, ltb, leb, ◌==◌, Option, none, some, List, [], ◌∷◌,
}
use new_wiv_os.Base.Bits.{shl}
use new_wiv_os.Base.Run.{
  ok, fault, hang, Cmd, and_then, pure, ◌>>=◌, ◌>>◌, hang_cmd, get_state, put_state,
}
use new_wiv_os.Hashmap.{Key}
use new_wiv_os.Strings.Text.{isalpha}
use new_wiv_os.Devtree.{Property, Tree, tree, dtb_find_node, dtb_prop_read_string}
use new_wiv_os.Tasking.{gone, first_slot}

-- cpu_t
pub record CpuLocal : Type 0 where
  pub current : ℕ
  pub thread_user_stack : ℕ
  pub thread_kernel_stack : ℕ
  pub kernel_stack : ℕ
  pub preempt : ℕ
  pub pid : ℕ
  pub tid : ℕ
  pub task : ℕ
  pub ipi : ℕ
  pub flags : ℕ
  pub isa : ℕ

-- CPULocals, cpu_count, cpu_is_inited, cpu_max_hart_id, ctr, save_size, and tp as an index.
pub record Cpus : Type 0 where
  pub locals : ℕ → CpuLocal
  pub count : ℕ
  pub inited : Bool
  pub max_hart : ℕ
  pub ctr : ℕ
  pub save_size : ℕ
  pub self : ℕ

abbrev pub max_cpus : ℕ
max_cpus = 256

-- RISCV_FEATURE_DOUBLE_FP and RISCV_FEATURE_SINGLE_FP
abbrev pub double_fp : ℕ
double_fp = shl 1 3

abbrev pub single_fp : ℕ
single_fp = shl 1 5

-- CPU_FLAG_TIMER
abbrev pub flag_timer : ℕ
flag_timer = shl 1 0

-- get_cpu_struct()
abbrev pub own : Cpus → CpuLocal
own s = s.locals s.self

unfoldable pub put_local : ℕ → CpuLocal → Cpus → Cpus
put_local i c s = record s { locals = λ j. if i == j then c else s.locals j }

-- fpu_init on the processor of slot i
unfoldable pub fpu_init : ℕ → Cpus → Cpus
fpu_init i s =
    let isa = (s.locals i).isa in
    let width : ℕ =
      if not (bit_and isa double_fp == 0)
      then 8
      else if not (bit_and isa single_fp == 0)
      then 4
      else 0 in
    if width == 0 then s else record s { save_size = width * 32 + 4 }

-- The loop over the letters of the ISA string; `none` where it reads behind the string's object, or
-- shifts by the negative count that a capital letter gives.
unfoldable pub isa_loop : List ℕ → ℕ → Option ℕ
isa_loop [] isa = none
isa_loop (c ∷ cs) isa =
    if c == 0 || not (isalpha c)
    then some isa
    else if ltb c b'a'
    then none
    else isa_loop cs (bit_or isa (shl 1 (c - b'a')))

-- isa += 4, which skips the part that says the width
unfoldable pub skip_width : List ℕ → Option (List ℕ)
skip_width (a ∷ b ∷ c ∷ d ∷ isa) = some isa
skip_width isa = none

abbrev pub cpu_path : Key
cpu_path = b'/' ∷ b'c' ∷ b'p' ∷ b'u' ∷ b's' ∷ b'/' ∷ b'c' ∷ b'p' ∷ b'u' ∷ []

abbrev pub isa_name : Key
isa_name = b'r' ∷ b'i' ∷ b's' ∷ b'c' ∷ b'v' ∷ b',' ∷ b'i' ∷ b's' ∷ b'a' ∷ []

abbrev pub properties_of : Tree → List Property
properties_of (tree name props children) = props

-- isaFeatures after the test of the device tree; the string is read without a test for NULL.
unfoldable pub read_isa : Option Tree → ℕ → Option ℕ
unfolding dtb_find_node dtb_prop_read_string skip_width isa_loop
read_isa root isa = elim (dtb_find_node root cpu_path 0 false) [
  | none ↦ some isa
  | some node ↦ elim (dtb_prop_read_string true (properties_of node) isa_name) [
    | none ↦ none
    | some text ↦ elim (skip_width text) [ none ↦ none | some letters ↦ isa_loop letters isa ]
  ]
]

-- &CPUStacks[i].stack[CPU_STACK_SIZE], where CPUStacks is at `stacks`
unfoldable pub stack_top : ℕ → ℕ → ℕ
stack_top stacks i = stacks + (i + 1) * (0x1000 + 16384)

-- The slot after init_cpu but for isaFeatures.
abbrev pub cleared : ℕ → ℕ → CpuLocal → CpuLocal
cleared hart top c = record c {
  current = hart;
  kernel_stack = top;
  preempt = 0;
  pid = gone;
  tid = gone;
  task = gone;
  flags = 0;
}

-- init_cpu; an index behind CPULocals is a fault.
unfoldable pub init_cpu : Option Tree → ℕ → ℕ → Cmd Cpus (Unit {0})
unfolding read_isa stack_top put_local
init_cpu root stacks hart s =
    if leb max_cpus s.count then fault else elim (read_isa root (s.locals s.count).isa) [
      | none ↦ fault
      | some isa ↦
          let c = cleared hart (stack_top stacks s.count) (s.locals s.count) in
          let t = put_local s.count (record c { isa = isa }) s in
          ok tt (record t { count = (s.count + 1) % 2 ^ 32 })
    ]

-- riscv_smp_entry on the processor of hart `hart`, up to its last loop: it takes the first slot with
-- its id and counts itself. Without such a slot its tp is none of CPULocals.
unfoldable pub riscv_smp_entry : ℕ → Cmd Cpus (Unit {0})
unfolding first_slot fpu_init
riscv_smp_entry hart s = elim (first_slot (λ i. (s.locals i).current == hart) max_cpus 0) [
  | none ↦ fault
  | some i ↦ ok tt (let t = fpu_init i s in record t { ctr = (t.ctr + 1) % 2 ^ 64 })
]

-- limine_mp_riscv64_response_t, with the hartid of each processor
pub record MpResponse : Type 0 where
  pub bsp : ℕ
  pub harts : List ℕ

-- The loop over the processors. The wait for ctr ends when the processor that was started has
-- counted itself, so its entry runs there.
unfoldable pub start_loop : Option Tree → ℕ → ℕ → List ℕ → Cmd Cpus (Unit {0})
unfolding init_cpu riscv_smp_entry
start_loop root stacks bsp [] = pure tt
start_loop root stacks bsp (hart ∷ harts) = do
  s ← get_state
  put_state (record s { max_hart = if ltb s.max_hart hart then hart else s.max_hart })
  if hart == bsp then pure tt else (do init_cpu root stacks hart; riscv_smp_entry hart)
  start_loop root stacks bsp harts

-- riscv_cpu_init. Without an answer of the boot loader it does not return.
unfoldable pub riscv_cpu_init : Option Tree → ℕ → Option MpResponse → Cmd Cpus (Unit {0})
unfolding init_cpu fpu_init put_local start_loop
riscv_cpu_init root stacks none = hang_cmd
riscv_cpu_init root stacks (some mp) = do
  init_cpu root stacks mp.bsp
  s ← get_state
  let t = put_local 0 (record (s.locals 0) { flags = flag_timer }) s
  put_state (fpu_init 0 (record t { self = 0 }))
  start_loop root stacks mp.bsp mp.harts
  u ← get_state
  put_state (record u { inited = true })

-- The accessors of arch/cpu.h, on the running processor.
unfoldable pub arch_cpu_get_count : Cpus → ℕ
arch_cpu_get_count s = s.count

unfoldable pub arch_cpu_get_maxhartid : Cpus → ℕ
arch_cpu_get_maxhartid s = s.max_hart

-- A field of the own slot, or `missing` before riscv_cpu_init has ended.
abbrev pub when_inited : (CpuLocal → ℕ) → ℕ → Cpus → ℕ
when_inited field missing s = if s.inited then field (own s) else missing

-- A change of the own slot, once riscv_cpu_init has ended.
abbrev pub change_own : (CpuLocal → CpuLocal) → Cpus → Cpus
change_own change s = if s.inited then put_local s.self (change (own s)) s else s

unfoldable pub arch_cpu_get_index : Cpus → ℕ
arch_cpu_get_index = when_inited (λ c. c.current) gone

unfoldable pub arch_cpu_increment_preempt_counter : Cpus → Cpus
unfolding put_local
arch_cpu_increment_preempt_counter =
    change_own (λ c. record c { preempt = (c.preempt + 1) % 2 ^ 64 })

unfoldable pub arch_cpu_decrement_preempt_counter : Cpus → Cpus
unfolding put_local
arch_cpu_decrement_preempt_counter =
    change_own (λ c. record c { preempt = (c.preempt + 2 ^ 64 - 1) % 2 ^ 64 })

unfoldable pub arch_cpu_get_preempt_counter : Cpus → ℕ
arch_cpu_get_preempt_counter = when_inited (λ c. c.preempt) 0

unfoldable pub arch_cpu_get_current_pid : Cpus → ℕ
arch_cpu_get_current_pid = when_inited (λ c. c.pid) gone

unfoldable pub arch_cpu_get_current_tid : Cpus → ℕ
arch_cpu_get_current_tid = when_inited (λ c. c.tid) gone

unfoldable pub arch_cpu_get_current_taskid : Cpus → ℕ
arch_cpu_get_current_taskid = when_inited (λ c. c.task) gone

unfoldable pub arch_cpu_get_thread_user_stack : Cpus → ℕ
arch_cpu_get_thread_user_stack = when_inited (λ c. c.thread_user_stack) 0

unfoldable pub arch_cpu_get_thread_kernel_stack : Cpus → ℕ
arch_cpu_get_thread_kernel_stack = when_inited (λ c. c.thread_kernel_stack) 0

unfoldable pub arch_cpu_set_current_pid : ℕ → Cpus → Cpus
unfolding put_local
arch_cpu_set_current_pid pid = change_own (λ c. record c { pid = pid })

unfoldable pub arch_cpu_set_current_tid : ℕ → Cpus → Cpus
unfolding put_local
arch_cpu_set_current_tid tid = change_own (λ c. record c { tid = tid })

unfoldable pub arch_cpu_set_current_taskid : ℕ → Cpus → Cpus
unfolding put_local
arch_cpu_set_current_taskid task = change_own (λ c. record c { task = task })

unfoldable pub arch_cpu_set_thread_user_stack : ℕ → Cpus → Cpus
unfolding put_local
arch_cpu_set_thread_user_stack address = change_own (λ c. record c { thread_user_stack = address })

unfoldable pub arch_cpu_set_thread_kernel_stack : ℕ → Cpus → Cpus
unfolding put_local
arch_cpu_set_thread_kernel_stack address =
    change_own (λ c. record c { thread_kernel_stack = address })

unfoldable pub arch_cpu_get_fpu_save_size : Cpus → ℕ
arch_cpu_get_fpu_save_size s = s.save_size

-- Whether arch_cpu_save_fpu_state and arch_cpu_restore_fpu_state copy the registers.
unfoldable pub copies_fpu : Cpus → Bool
copies_fpu s = not (bit_and (own s).isa double_fp == 0) || not (bit_and (own s).isa single_fp == 0)
