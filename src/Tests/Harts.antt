-- ===== src/Tests/Harts.antt =====
-- Runs of the processors, their interrupts and the switch of threads on small machines.
use new_wiv_os.Base.{
  ℕ, ◌+◌, ◌≡◌, refl, arith, ◌==◌, if◌then◌else◌, true, false, none, some, [], ◌∷◌,
}
use new_wiv_os.Base.Bits.{bit}
use new_wiv_os.Base.Run.{Returns}
use new_wiv_os.Devtree
use new_wiv_os.Devtree.{
  Property, Tree, tree, dtb_find_node, dtb_prop_read_string, find_property, pick, matches,
  text_length, same_start, skip_slash,
}
use new_wiv_os.Hashmap.{same_key}
use new_wiv_os.Strings.Text.{isalpha}
use new_wiv_os.Cpu.{CpuLocal, Cpus, isa_name, init_cpu, riscv_cpu_init, read_isa}
use new_wiv_os.Cpu.Isa.{names_letter, init_cpu-features}
use new_wiv_os.Cpu.Slots.{Known}
use new_wiv_os.Cpu.Boot.{riscv_cpu_init-Known}
use new_wiv_os.Plic.{Plic, arch_interrupt_enable, arch_interrupt_disable}
use new_wiv_os.Plic.Enable.{enabled, switch-enabled}

abbrev isa : Property
isa = record {
  name = isa_name;
  bytes = b'r' ∷ b'v' ∷ b'6' ∷ b'4' ∷ b'i' ∷ b'm' ∷ b'a' ∷ b'c' ∷ b'_' ∷ 0 ∷ [];
  data_len = 10;
}

abbrev cpu_tree : Tree
cpu_tree = tree [] [] (
    Devtree.child
      (tree (b'c' ∷ b'p' ∷ b'u' ∷ b's' ∷ []) [] (
        Devtree.child (tree (b'c' ∷ b'p' ∷ b'u' ∷ b'@' ∷ b'0' ∷ []) (isa ∷ []) Devtree.nil)
          Devtree.nil))
      Devtree.nil)

abbrev pub idle_cpu : CpuLocal
idle_cpu = record {
  current = 0;
  thread_user_stack = 0;
  thread_kernel_stack = 0;
  kernel_stack = 0;
  preempt = 0;
  pid = 0;
  tid = 0;
  task = 0;
  ipi = 0;
  flags = 0;
  isa = 0;
}

abbrev no_cpus : Cpus
no_cpus = record {
  locals = λ i. idle_cpu;
  count = 0;
  inited = false;
  max_hart = 0;
  ctr = 0;
  save_size = 0;
  self = 0;
}

init_cpu-features_example : Returns (init_cpu (some cpu_tree) 0x1000 3 no_cpus) λ _ t.
    (t.count ≡ 0 + 1)
    × ((t.locals 0).current ≡ 3)
    × ((k : ℕ)
        → bit (t.locals 0).isa k
          ≡ (if names_letter (b'i' ∷ b'm' ∷ b'a' ∷ b'c' ∷ []) (k + b'a') then 1 else bit 0 k))
    × ((i : ℕ) → t.locals i ≡ (if i == 0 then t.locals i else idle_cpu))
unfolding dtb_find_node skip_slash same_key dtb_prop_read_string isalpha
init_cpu-features_example =
    init_cpu-features (some cpu_tree)
      (tree (b'c' ∷ b'p' ∷ b'u' ∷ b'@' ∷ b'0' ∷ []) (isa ∷ []) Devtree.nil) b'r' b'v' b'6' b'4'
      (b'i' ∷ b'm' ∷ b'a' ∷ b'c' ∷ []) b'_' (0 ∷ []) 0x1000 3 no_cpus refl refl (omega arith) refl
      (omega arith)

riscv_cpu_init-Known_example :
    Returns
      (riscv_cpu_init none 0x1000 (some (record { bsp = 1; harts = 0 ∷ 1 ∷ 5 ∷ [] })) no_cpus)
      λ _ t. Known 0 (1 ∷ 0 ∷ 5 ∷ []) 5 t × (t.inited ≡ true)
unfolding read_isa
riscv_cpu_init-Known_example =
    riscv_cpu_init-Known none 0x1000 (record { bsp = 1; harts = 0 ∷ 1 ∷ 5 ∷ [] }) no_cpus
      (λ isa. (isa, refl)) refl refl (omega arith)

abbrev plic : Plic
plic = record { address = 0x0c000000; size = 0x600000; ndev = 31; word = λ a. 0 }

switch-enabled_example :
    (enabled (arch_interrupt_enable 10 plic) 10 ≡ 1)
    × (enabled (arch_interrupt_disable 10 plic) 10 ≡ 0)
switch-enabled_example = switch-enabled plic (omega arith) 10 10 (omega arith) (omega arith)
