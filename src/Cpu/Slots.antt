-- ===== src/Cpu/Slots.antt =====
-- What init_cpu and riscv_smp_entry do to the table of processors.
use new_wiv_os.Base.{
  ℕ, suc, ◌+◌, ◌%◌, ◌^◌, ◌<◌, max, ◌≡◌, refl, ◌∙◌, arith, if◌then◌else◌, ◌==◌, ==_iff, ==_false,
  lt→leb_false, Option, none, some, List, [], ◌∷◌, ◌++◌, length, length-append,
}
use new_wiv_os.Base.Run.{ok, fault, Returns}
use new_wiv_os.Devtree.{Tree}
use new_wiv_os.Tasking.{first_slot}
use new_wiv_os.Tasking.Slots.{Found, first_slot-Found}
use new_wiv_os.Cpu.{
  CpuLocal, Cpus, max_cpus, put_local, fpu_init, read_isa, cleared, stack_top, init_cpu,
  riscv_smp_entry,
}

-- From index i on, the slots belong to the given harts.
abbrev pub Listed : (ℕ → CpuLocal) → ℕ → List ℕ → Type 0
Listed locals i [] = Unit
Listed locals i (hart ∷ harts) = ((locals i).current ≡ hart) × Listed locals (suc i) harts

-- The harts that are started, and the largest hart id.
abbrev pub others : ℕ → List ℕ → List ℕ
others bsp [] = []
others bsp (hart ∷ harts) = if hart == bsp then others bsp harts else hart ∷ others bsp harts

abbrev pub largest : ℕ → List ℕ → ℕ
largest m [] = m
largest m (hart ∷ harts) = largest (max m hart) harts

Listed-same :
    (l l' : ℕ → CpuLocal) (i : ℕ) (harts : List ℕ)
    → ((j : ℕ) → j < i + length harts → (l' j).current ≡ (l j).current)
    → Listed l i harts
    → Listed l' i harts
Listed-same l l' i [] same h = tt
Listed-same l l' i (hart ∷ harts) same h =
    (same i (omega arith) ∙ h.0, Listed-same l l' (suc i) harts (λ j lt. same j (omega arith)) h.1)

Listed-snoc :
    (l : ℕ → CpuLocal) (i hart : ℕ) (harts : List ℕ)
    → Listed l i harts
    → (l (i + length harts)).current ≡ hart
    → Listed l i (harts ++ hart ∷ [])
Listed-snoc l i hart [] h e = (let z : i + 0 ≡ i = omega arith in rw z at e, tt)
Listed-snoc l i hart (x ∷ harts) h e =
    let z : i + suc (length harts) ≡ suc i + length harts = omega arith in
    (h.0, Listed-snoc l (suc i) hart harts h.1 (rw z at e))

-- The processors that are known so far.
pub record Known (tp : ℕ) (harts : List ℕ) (top : ℕ) (s : Cpus) : Type 0 where
  pub counted : s.count ≡ length harts
  pub listed : Listed s.locals 0 harts
  pub largest_hart : s.max_hart ≡ top
  pub own_slot : s.self ≡ tp

-- fpu_init writes save_size only.
pub fpu_init-same :
    (i : ℕ) (s : Cpus)
    → ((fpu_init i s).locals ≡ s.locals)
      × ((fpu_init i s).count ≡ s.count)
      × ((fpu_init i s).max_hart ≡ s.max_hart)
      × ((fpu_init i s).self ≡ s.self)
unfolding fpu_init
fpu_init-same i s = ground arith

-- The processor of a hart that has a slot finds one, and only counts itself and its registers.
module _ (tp hart j : ℕ) (s : Cpus) where
  pub smp_entry-Known :
      (harts : List ℕ) (top : ℕ)
      → (s.locals j).current ≡ hart
      → j < max_cpus
      → Known tp harts top s
      → Returns (riscv_smp_entry hart s) λ _ t. Known tp harts top t
  unfolding riscv_smp_entry
  smp_entry-Known harts top here room known =
      found (first_slot (λ i. (s.locals i).current == hart) max_cpus 0)
        (first_slot-Found (λ i. (s.locals i).current == hart) max_cpus 0)
    where
      after : ℕ → Cpus
      after i = let t = fpu_init i s in record t { ctr = (t.ctr + 1) % 2 ^ 64 }

      found :
          (r : Option ℕ)
          → Found (λ i. (s.locals i).current == hart) max_cpus 0 r
          → Returns (elim r [ none ↦ fault | some i ↦ ok tt (after i) ]) λ _ t. Known tp harts top t
      found none all = let e = all j (omega arith) (omega arith) in ground (arith, e)
      found (some i) first =
          let same = fpu_init-same i s in
          record {
            counted = same.1 ∙ known.counted;
            listed = rw same.0 known.listed;
            largest_hart = same.2 ∙ known.largest_hart;
            own_slot = same.3 ∙ known.own_slot;
          }

-- The slot that was written.
written :
    (c : CpuLocal) (l : ℕ → CpuLocal) (hart n j : ℕ)
    → n ≡ j
    → c.current ≡ hart
    → (if n == j then c else l j).current ≡ hart
written c l hart n j e h = rw ((==_iff n j).1 e) h

-- One more processor.
module _ (root : Option Tree) (tp stacks hart : ℕ) (s : Cpus)
    (reads : (isa : ℕ) → (f : ℕ) × (read_isa root isa ≡ some f)) where
  pub init_cpu-Known :
      (harts : List ℕ) (top : ℕ)
      → length harts < max_cpus
      → Known tp harts top s
      → Returns
          (init_cpu root stacks hart s)
          λ _ t. Known tp (harts ++ hart ∷ []) top t × ((t.locals (length harts)).current ≡ hart)
  unfolding init_cpu put_local
  init_cpu-Known harts top room known =
      let n : s.count ≡ length harts = known.counted in
      let (f, e) = reads (s.locals s.count).isa in
      let c : CpuLocal = record (cleared hart (stack_top stacks s.count) (s.locals s.count)) {
        isa = f;
      } in
      let l : ℕ → CpuLocal = (λ j. if s.count == j then c else s.locals j) in
      rw (lt→leb_false max_cpus s.count (omega arith), e)
        (
          record {
            counted = omega (arith, length-append harts (hart ∷ []));
            listed =
                Listed-snoc l 0 hart harts
                  (Listed-same s.locals l 0 harts
                    (λ j lt. rw (==_false s.count j (λ p. omega arith)) refl) known.listed)
                  (written c s.locals hart s.count (0 + length harts) (omega arith) refl);
            largest_hart = known.largest_hart;
            own_slot = known.own_slot;
          },
          written c s.locals hart s.count (length harts) n refl,
        )
