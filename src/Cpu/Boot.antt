-- ===== src/Cpu/Boot.antt =====
-- The processors after riscv_cpu_init.
use new_wiv_os.Base.{
  ℕ, suc, ◌+◌, ◌≤◌, max, ◌≡◌, refl, ◌∙◌, arith, true, if◌then◌else◌, ltb, ◌==◌, Bool-cases, inl,
  inr, Option, some, List, [], ◌∷◌, ◌++◌, length, length-append,
}
use mathlib.Core.List.{append-nil, append_assoc}
use new_wiv_os.Base.Run.{and_then, Returns, Returns-and_then}
use new_wiv_os.Devtree.{Tree}
use new_wiv_os.Cpu.{
  Cpus, max_cpus, flag_timer, MpResponse, put_local, fpu_init, read_isa, init_cpu, riscv_smp_entry,
  start_loop, riscv_cpu_init,
}
use new_wiv_os.Cpu.Slots.{others, largest, Known, fpu_init-same, smp_entry-Known, init_cpu-Known}

-- The rest of the processors.
module _ (root : Option Tree) (tp stacks bsp : ℕ)
    (reads : (isa : ℕ) → (f : ℕ) × (read_isa root isa ≡ some f)) where
  start_loop-Known :
      (harts known_harts : List ℕ) (top : ℕ) (s : Cpus)
      → length known_harts + length (others bsp harts) ≤ max_cpus
      → Known tp known_harts top s
      → Returns
          (start_loop root stacks bsp harts s)
          λ _ t. Known tp (known_harts ++ others bsp harts) (largest top harts) t
  unfolding start_loop
  start_loop-Known [] known_harts top s room known = rw (append-nil known_harts) known
  start_loop-Known (hart ∷ harts) known_harts top s room known =
      let u : Cpus = record s { max_hart = if ltb s.max_hart hart then hart else s.max_hart } in
      let m : u.max_hart ≡ max top hart = ground (arith, known.largest_hart) in
      let known' : Known tp known_harts (max top hart) u = record {
        counted = known.counted;
        listed = known.listed;
        largest_hart = m;
        own_slot = known.own_slot;
      } in
      elim (Bool-cases (hart == bsp)) [
        | inl same ↦
            rw same (start_loop-Known harts known_harts (max top hart) u (rw same at room) known')
        | inr other ↦
            let room' : length known_harts + suc (length (others bsp harts)) ≤ max_cpus =
              rw other at room in
            rw other (
              Returns-and_then (and_then (init_cpu root stacks hart u) (λ _. riscv_smp_entry hart))
                (λ _. start_loop root stacks bsp harts)
                (λ _ t. Known tp (known_harts ++ hart ∷ []) (max top hart) t) _
                (Returns-and_then (init_cpu root stacks hart u) (λ _. riscv_smp_entry hart)
                  (λ _ t.
                    Known tp (known_harts ++ hart ∷ []) (max top hart) t
                    × ((t.locals (length known_harts)).current ≡ hart))
                  _
                  (init_cpu-Known root tp stacks hart u reads known_harts (max top hart)
                    (omega arith) known')
                  (λ _ t h.
                    smp_entry-Known tp hart (length known_harts) t (known_harts ++ hart ∷ [])
                      (max top hart) h.1 (omega arith) h.0))
                (λ _ t h. rw (← append_assoc known_harts (hart ∷ []) (others bsp harts)) (
                  start_loop-Known harts (known_harts ++ hart ∷ []) (max top hart) t
                    (omega (arith, length-append known_harts (hart ∷ []))) h)))
      ]

-- Slot 0 gets its flag, and tp points to it.
flagged-Known :
    (tp bsp : ℕ) (s : Cpus)
    → Known tp (bsp ∷ []) 0 s
    → let t = put_local 0 (record (s.locals 0) { flags = flag_timer }) s in
      Known 0 (bsp ∷ []) 0 (fpu_init 0 (record t { self = 0 }))
unfolding put_local
flagged-Known tp bsp s known =
    let t : Cpus = put_local 0 (record (s.locals 0) { flags = flag_timer }) s in
    let same = fpu_init-same 0 (record t { self = 0 }) in
    record {
      counted = same.1 ∙ known.counted;
      listed = rw same.0 known.listed;
      largest_hart = same.2 ∙ known.largest_hart;
      own_slot = same.3;
    }

module _ (root : Option Tree) (stacks : ℕ) (mp : MpResponse) (s : Cpus)
    (reads : (isa : ℕ) → (f : ℕ) × (read_isa root isa ≡ some f)) where
  -- Where the ISA string can be read and the processors fit CPULocals, riscv_cpu_init returns:
  -- the first slots belong to the bootstrap hart and then to each other hart in the boot loader's
  -- order, cpu_count is their number, tp points to the first slot, and cpu_max_hart_id is the
  -- largest listed id.
  pub riscv_cpu_init-Known :
      s.count ≡ 0
      → s.max_hart ≡ 0
      → 1 + length (others mp.bsp mp.harts) ≤ max_cpus
      → Returns (riscv_cpu_init root stacks (some mp) s) λ _ t.
        Known 0 (mp.bsp ∷ others mp.bsp mp.harts) (largest 0 mp.harts) t × (t.inited ≡ true)
  unfolding riscv_cpu_init
  riscv_cpu_init-Known empty none_yet room =
      Returns-and_then (init_cpu root stacks mp.bsp s) _
        (λ _ t. Known s.self (mp.bsp ∷ []) 0 t × ((t.locals 0).current ≡ mp.bsp)) _
        (init_cpu-Known root s.self stacks mp.bsp s reads [] 0 (omega arith)
          (record { counted = empty; listed = tt; largest_hart = none_yet; own_slot = refl }))
        (λ _ t h.
          let u = put_local 0 (record (t.locals 0) { flags = flag_timer }) t in
          Returns-and_then
            (start_loop root stacks mp.bsp mp.harts (fpu_init 0 (record u { self = 0 }))) _
            (λ _ v. Known 0 (mp.bsp ∷ others mp.bsp mp.harts) (largest 0 mp.harts) v) _
            (start_loop-Known root 0 stacks mp.bsp reads mp.harts (mp.bsp ∷ []) 0
              (fpu_init 0 (record u { self = 0 })) (omega arith)
              (flagged-Known s.self mp.bsp t h.0))
            (λ _ v k. (
              record {
                counted = k.counted;
                listed = k.listed;
                largest_hart = k.largest_hart;
                own_slot = k.own_slot;
              },
              refl,
            )))
