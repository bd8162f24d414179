-- ===== src/Kalloc/Blocks.antt =====
-- kmalloc, kfree and kcalloc: the blocks that they hand out.
use new_wiv_os.Base.{
  ℕ, zero, suc, ◌+◌, ◌*◌, ◌/◌, ◌%◌, ◌^◌, ◌≤◌, ◌<◌, true, false, if◌then◌else◌, ltb, leb, ◌==◌, ◌&&◌,
  ◌≡◌, ◌≢◌, refl, ◌∙◌, arith, ◌⊎◌, inl, inr, ℕ_discrete, ap, ==_false, ==_refl,
}
use new_wiv_os.Base.Run.{
  Run, ok, hang, fault, Returns, Returns-and_then, Cmd, ◌>>=◌, ◌>>◌, pure, get_state, put_state,
}
use native.Mathlib.Nat.{div-mul-le_self, mod-eq_of_lt, div-eq_of_eq-mul_right}
use new_wiv_os.Pmm.{Pmm, page_size, pmm_alloc}
use new_wiv_os.Pmm.Bitmap.{used, AllFree}
use new_wiv_os.Pmm.Reserved.{BitmapUsed, Cleared-used}
use new_wiv_os.Pmm.Alloc.{Allocated, Refused, Cleared, pmm_alloc_lem}
use new_wiv_os.Kalloc.{Heap, Header, lift, lift_run, page_count, kmalloc, kcalloc, write_header}

-- The pages of kmalloc cover the size that was asked for, with less than a page to spare.
pub page_count-bounds :
    (size : ℕ)
    → (size ≤ page_count size * page_size) × (page_count size * page_size < size + page_size)
unfolding page_count
page_count-bounds size = ground arith

overflow_ne : (num nsize : ℕ) → 1 ≤ num → 2 ^ 64 ≤ num * nsize → nsize ≢ num * nsize % 2 ^ 64 / num
overflow_ne num nsize pos big e =
    absurd (omega (arith, div-mul-le_self (num * nsize % 2 ^ 64) num, ap (λ (q : ℕ). q * num) e))

fits_eq : (num nsize : ℕ) → 1 ≤ num → num * nsize < 2 ^ 64 → num * nsize % 2 ^ 64 / num ≡ nsize
fits_eq num nsize pos small = rw (mod-eq_of_lt small) (div-eq_of_eq-mul_right pos refl)

-- kcalloc refuses every product that does not fit 64 bits, with 0 and no change.
pub kcalloc_overflow :
    (num nsize : ℕ) (h : Heap) → 2 ^ 64 ≤ num * nsize → kcalloc num nsize h ≡ ok 0 h
unfolding kcalloc
kcalloc_overflow zero nsize h big = absurd (omega arith)
kcalloc_overflow (suc num) zero h big = absurd (omega arith)
kcalloc_overflow (suc num) (suc nsize) h big =
    rw (==_false (suc nsize) _ (overflow_ne (suc num) (suc nsize) (omega arith) big)) (ground arith)

pub lift_Returns :
    {A : Type 0} (hs : ℕ → Header) (r : Run Pmm A) (P : A → Pmm → Type 0) (Q : A → Heap → Type 0)
    → Returns r P
    → ((a : A) (p : Pmm) → P a p → Q a (record { pmm = p; headers = hs }))
    → Returns (lift_run hs r) Q
lift_Returns hs (ok a p) P Q h next = next a p h
lift_Returns hs fault P Q h next = h
lift_Returns hs hang P Q h next = h

-- A block that kmalloc handed out: whole pages that were free, one for the header and enough for
-- the bytes, with the header filled in and the bytes zero.
pub record Block (h : Heap) (size addr : ℕ) (h' : Heap) : Type 0 where
  pub page : ℕ
  pub address : addr ≡ page * page_size + h.pmm.phys_offset + page_size
  pub in_bitmap : page < h.pmm.length
  pub was_free : AllFree h.pmm.words page (page_count size + 1)
  pub now_used :
      (i : ℕ)
      → used h'.pmm.words i
        ≡ (if leb page i && ltb i (page + (page_count size + 1)) then true else used h.pmm.words i)
  pub header :
      h'.headers (page * page_size + h.pmm.phys_offset)
      ≡ record { pages = page_count size; size = size }
  pub zeroed : (i : ℕ) → i < size → h'.pmm.memory (addr + i) ≡ 0
  pub unlocked : h'.pmm.locked ≡ false
  pub same_offset : h'.pmm.phys_offset ≡ h.pmm.phys_offset

-- NULL: page 0 was free (its address is 0), or no run of free pages is long enough.
abbrev pub Null : Heap → ℕ → ℕ → Type 0
Null h size addr =
    (addr ≡ 0)
    × ((AllFree h.pmm.words 0 (page_count size + 1))
        ⊎ ((j : ℕ) → j < h.pmm.length → ¬ AllFree h.pmm.words j (page_count size + 1)))

-- The addresses of all pages, and size bytes behind them, stay below 2 ^ 64.
abbrev pub Fits : Heap → ℕ → Type 0
Fits h size = h.pmm.length * page_size + h.pmm.phys_offset + size + 4 * page_size ≤ 2 ^ 64

-- What kmalloc does once the pages are there, for the answer ret of pmm_alloc.
after_alloc : ℕ → ℕ → Cmd Heap ℕ
after_alloc size ret = if ret == 0 then pure 0 else do
  h ← get_state
  let header = (ret + h.pmm.phys_offset) % 2 ^ 64
  put_state (record h {
    headers = write_header h.headers header (record { pages = page_count size; size = size });
  })
  pure ((header + page_size) % 2 ^ 64)

zero_if :
    (start room old i : ℕ)
    → i + page_size < room
    → (if leb start (start + page_size + i) && ltb (start + page_size + i) (start + room)
        then 0
        else old)
      ≡ 0
zero_if start room old i h = ground arith

module _ (h : Heap) (size : ℕ) (fits : Fits h size) (marked : BitmapUsed h.pmm) where
  after_null :
      (p : Pmm) (hs : ℕ → Header) {ret : ℕ}
      → ret ≡ 0
      → Null h size 0
      → Returns
          (after_alloc size ret (record { pmm = p; headers = hs }))
          (λ addr h'. Block h size addr h' ⊎ Null h size addr)
  unfolding after_alloc
  after_null p hs e n = rw e (inr n)

  after_block :
      (p : Pmm) (hs : ℕ → Header) (ret : ℕ) (c : Cleared h.pmm (page_count size + 1) ret p)
      → (got : Allocated h.pmm (page_count size + 1) 1 ret c.t) → 1 ≤ got.k
      → Returns
          (after_alloc size ret (record { pmm = p; headers = hs }))
          (λ addr h'. Block h size addr h' ⊎ Null h size addr)
  unfolding after_alloc write_header
  after_block p hs ret c got pos =
      let offset : p.phys_offset ≡ h.pmm.phys_offset = cc (c.offset, got.same_offset) in
      let start : got.k * 1 ≡ got.k = omega arith in
      let at : ret ≡ got.k * page_size = omega (arith, got.address, got.in_bitmap, fits) in
      let few : page_count size * page_size < size + page_size = (page_count-bounds size).1 in
      let header : (ret + p.phys_offset) % 2 ^ 64 ≡ got.k * page_size + h.pmm.phys_offset =
        omega (arith, got.in_bitmap, fits) in
      rw (==_false ret 0 (omega arith), header)
        (inl (record {
          page = got.k;
          address = omega (arith, got.in_bitmap, fits);
          in_bitmap = omega (arith, got.in_bitmap);
          was_free = rw start at got.was_free;
          now_used = λ i.
              let kept : used p.words i ≡ used c.t.words i =
                Cleared-used h.pmm p (page_count size + 1) ret c marked got
                  (omega (arith, (page_count-bounds size).1, fits)) i in
              kept ∙ rw (← start) (got.now_used i);
          header = rw (==_refl (got.k * page_size + h.pmm.phys_offset)) refl;
          zeroed = λ i lt.
              let whole : page_size * (page_count size + 1) % 2 ^ 64
                  ≡ page_size * (page_count size + 1) =
                omega (arith, fits) in
              let begin : (ret + c.t.phys_offset) % 2 ^ 64 ≡ got.k * page_size + h.pmm.phys_offset =
                omega (arith, got.same_offset, got.in_bitmap, fits) in
              let addr : (got.k * page_size + h.pmm.phys_offset + page_size) % 2 ^ 64
                  ≡ got.k * page_size + h.pmm.phys_offset + page_size =
                omega (arith, got.in_bitmap, fits) in
              let inside : i + page_size < page_size * (page_count size + 1) =
                omega (arith, (page_count-bounds size).0) in
              rw
                (
                  addr,
                  c.zeroed (got.k * page_size + h.pmm.phys_offset + page_size + i),
                  begin,
                  whole,
                )
                (zero_if (got.k * page_size + h.pmm.phys_offset) _ (c.t.memory _) i inside);
          unlocked = cc (c.locked, got.unlocked);
          same_offset = offset;
        }))

  after :
      (ret : ℕ) (p : Pmm) (hs : ℕ → Header)
      → Cleared h.pmm (page_count size + 1) ret p
      → Returns
          (after_alloc size ret (record { pmm = p; headers = hs }))
          (λ addr h'. Block h size addr h' ⊎ Null h size addr)
  after ret p hs c = split c.outcome
    where
      split :
          Allocated h.pmm (page_count size + 1) 1 ret c.t
            ⊎ Refused h.pmm (page_count size + 1) 1 ret c.t
          → Returns
              (after_alloc size ret (record { pmm = p; headers = hs }))
              (λ addr h'. Block h size addr h' ⊎ Null h size addr)
      split (inl got) = elim (ℕ_discrete got.k 0) [
        | yes first ↦
            after_null p hs (omega (arith, got.address)) (refl, inl (rw first at got.was_free))
        | no later ↦ after_block p hs ret c got (omega arith)
      ]
      split (inr full) = after_null p hs full.null (
        refl,
        inr (λ j b. let one : j * 1 ≡ j = omega arith in rw one at (full.full j (rw one b))),
      )

pub kmalloc_lem :
    (h : Heap) (size : ℕ)
    → h.pmm.locked ≡ false
    → Fits h size
    → BitmapUsed h.pmm
    → Returns (kmalloc size h) (λ addr h'. Block h size addr h' ⊎ Null h size addr)
unfolding kmalloc after_alloc
kmalloc_lem h size open_ fits marked =
    Returns-and_then (lift (pmm_alloc (page_count size + 1)) h) (after_alloc size)
      (λ ret k. Cleared h.pmm (page_count size + 1) ret k.pmm) _
      (lift_Returns h.headers (pmm_alloc (page_count size + 1) h.pmm) _ _
        (pmm_alloc_lem h.pmm (page_count size + 1) open_ (omega (arith, page_count-bounds size)))
        (λ a p q. q))
      (λ ret k q. after h size fits marked ret k.pmm k.headers q)
