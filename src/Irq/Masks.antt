-- ===== src/Irq/Masks.antt =====
-- What one window of 64 harts adds: the bits of its mask, and the interrupts in the slots.
use new_wiv_os.Base.{
  ℕ, zero, suc, ◌+◌, ◌-◌, ◌%◌, ◌^◌, ◌≤◌, ◌<◌, ◌≡◌, ◌⊎◌, inl, inr, refl, ◌∙◌, arith, bit_or, Bool,
  true, false, ◌||◌, if◌then◌else◌, ◌==◌, ==_iff, Bool-cases, ℕ_discrete, some,
}
use new_wiv_os.Base.Bits.{bit, bit-bit_or, bit-pow, bit-le_one}
use new_wiv_os.Cpu.{Cpus, put_local}
use new_wiv_os.Irq.{int_bit, in_window, add_hart, mask_loop}

int_bit-short : (d : ℕ) → d < 31 → int_bit d ≡ some (2 ^ d)
unfolding int_bit
int_bit-short d h = ground arith

-- Whether one of n slots from i on belongs to a hart.
abbrev pub has_hart : (ℕ → ℕ) → ℕ → ℕ → ℕ → Bool
has_hart ids zero i hart = false
has_hart ids (suc n) i hart = ids i == hart || has_hart ids n (i + 1) hart

-- The slots hold the given harts.
pub record Harts (ids : ℕ → ℕ) (count top : ℕ) (s : Cpus) : Type 0 where
  pub current : (i : ℕ) → (s.locals i).current ≡ ids i
  pub counted : s.count ≡ count
  pub largest : s.max_hart ≡ top

-- Interrupts of a kind were only added, and only to these.
abbrev pub Grown : ℕ → Cpus → Cpus → Type 0
Grown kind s t = (i : ℕ) → ((t.locals i).ipi ≡ (s.locals i).ipi) ⊎ ((t.locals i).ipi ≡ kind % 256)

module _ (ids : ℕ → ℕ) (count top kind base : ℕ) (aligned : base % 64 ≡ 0) where
  -- A hart is in the window.
  abbrev pub Near : ℕ → Type 0
  Near hart = (base ≤ hart) × (hart < base + 64)

  window-Near : (hart : ℕ) → Near hart → in_window base hart ≡ true
  unfolding in_window
  window-Near hart near = ground arith

  window-far :
      (hart : ℕ) → hart < 2 ^ 63 → (hart < base) ⊎ (base + 64 ≤ hart) → in_window base hart ≡ false
  unfolding in_window
  window-far hart small (inl below) = ground arith
  window-far hart small (inr above) = ground arith

  window-cases : (hart : ℕ) → Near hart ⊎ ((hart < base) ⊎ (base + 64 ≤ hart))
  window-cases hart = ground arith

  -- What one processor adds.
  pub record Added (n i mask : ℕ) (s : Cpus) (mask' : ℕ) (t : Cpus) : Type 0 where
    pub bits :
        (j : ℕ) → j < 64 → bit mask' j ≡ (if has_hart ids n i (base + j) then 1 else bit mask j)
    pub harts : Harts ids count top t
    pub grown : Grown kind s t
    pub reached : (x : ℕ) → i ≤ x → x < i + n → Near (ids x) → (t.locals x).ipi ≡ kind % 256

  module _ (i mask : ℕ) (s : Cpus) (same : Harts ids count top s) (short : ids i % 64 < 31)
      (small : ids i < 2 ^ 63) where
    add-Near :
        Near (ids i)
        → (mask' : ℕ) × (t : Cpus) × (add_hart kind base i mask s ≡ some (mask', t))
          × Added 1 i mask s mask' t
    unfolding add_hart put_local
    add-Near near =
        let d = ids i - base in
        let w : in_window base (s.locals i).current ≡ true =
          rw (same.current i) (window-Near (ids i) near) in
        let b : int_bit ((s.locals i).current - base) ≡ some (2 ^ d) =
          rw (same.current i) (int_bit-short d (omega arith)) in
        (
          bit_or mask (2 ^ d),
          put_local i (record (s.locals i) { ipi = kind % 256 }) s,
          rw (w, b) refl,
          record {
            bits = λ j lt.
                bit-bit_or mask (2 ^ d) j ∙ rw (bit-pow d j) (ground (arith, bit-le_one mask j));
            harts = record {
              current = λ x. ground (arith, same.current x, same.current i);
              counted = same.counted;
              largest = same.largest;
            };
            grown = λ x. elim (Bool-cases (i == x)) [
              | inl here ↦ inr (rw here refl)
              | inr other ↦ inl (rw other refl)
            ];
            reached = λ x lo hi near'. rw ((==_iff i x).1 (omega arith)) refl;
          },
        )

    not-Near : (ids i < base) ⊎ (base + 64 ≤ ids i) → Near (ids i) → ⊥
    not-Near (inl below) near = omega arith
    not-Near (inr above) near = omega arith

    apart :
        (j : ℕ)
        → j < 64
        → (ids i < base) ⊎ (base + 64 ≤ ids i)
        → bit mask j ≡ (if has_hart ids 1 i (base + j) then 1 else bit mask j)
    apart j lt (inl below) = ground arith
    apart j lt (inr above) = ground arith

    add_far :
        (ids i < base) ⊎ (base + 64 ≤ ids i)
        → (mask' : ℕ) × (t : Cpus) × (add_hart kind base i mask s ≡ some (mask', t))
          × Added 1 i mask s mask' t
    unfolding add_hart
    add_far far = (
      mask,
      s,
      rw (same.current i, window-far (ids i) small far) refl,
      record {
        bits = λ j lt. apart j lt far;
        harts = same;
        grown = λ x. inl refl;
        reached =
            λ x lo hi near. absurd (not-Near far (let e : x ≡ i = omega arith in rw e at near));
      },
    )

  pub Grown-trans : (s t u : Cpus) → Grown kind s t → Grown kind t u → Grown kind s u
  Grown-trans s t u first second x = elim (second x) [
    | inr hit ↦ inr hit
    | inl same ↦ elim (first x) [ inl before ↦ inl (same ∙ before) | inr hit ↦ inr (same ∙ hit) ]
  ]

  add_hart-Added :
      (i mask : ℕ) (s : Cpus)
      → Harts ids count top s
      → ids i % 64 < 31
      → ids i < 2 ^ 63
      → (mask' : ℕ) × (t : Cpus) × (add_hart kind base i mask s ≡ some (mask', t))
        × Added 1 i mask s mask' t
  add_hart-Added i mask s same short small = elim (window-cases (ids i)) [
    | inl near ↦ add-Near i mask s same short small near
    | inr far ↦ add_far i mask s same short small far
  ]

  -- What the loop over the processors adds.
  pub mask_loop-Added :
      (n i mask : ℕ) (s : Cpus)
      → Harts ids count top s
      → ((x : ℕ) → x < i + n → (ids x % 64 < 31) × (ids x < 2 ^ 63))
      → (mask' : ℕ) × (t : Cpus) × (mask_loop n i kind base mask s ≡ some (mask', t))
        × Added n i mask s mask' t
  unfolding mask_loop
  mask_loop-Added zero i mask s same fit = (
    mask,
    s,
    refl,
    record {
      bits = λ j lt. refl;
      harts = same;
      grown = λ x. inl refl;
      reached = λ x lo hi near. absurd (omega arith);
    },
  )
  mask_loop-Added (suc n) i mask s same fit =
      let (m1, t1, e1, one) =
        add_hart-Added i mask s same (fit i (omega arith)).0 (fit i (omega arith)).1 in
      let (m2, t2, e2, rest) =
        mask_loop-Added n (i + 1) m1 t1 one.harts (λ x lt. fit x (omega arith)) in
      (
        m2,
        t2,
        rw (e1, mask_loop) e2,
        record {
          bits = λ j lt. ground (arith, one.bits j lt, rest.bits j lt);
          harts = rest.harts;
          grown = Grown-trans s t1 t2 one.grown rest.grown;
          reached = λ x lo hi near. elim (ℕ_discrete i x) [
            | yes e ↦ elim (rest.grown x) [
              | inr hit ↦ hit
              | inl kept ↦ kept ∙ one.reached x lo (omega arith) near
            ]
            | no ne ↦ rest.reached x (omega arith) (omega arith) near
          ];
        },
      )
