-- ===== src/Tasking/Slots.antt =====
-- The slot searches, and the process table.
use new_wiv_os.Base.{
  ℕ, zero, suc, ◌+◌, ◌≤◌, ◌<◌, Bool, true, false, if◌then◌else◌, ◌==◌, Option, none, some, ◌≡◌,
  refl, arith, Bool-cases, inl, inr, ◌⊎◌, ℕ_discrete, sym, ap,
}
use mathlib.Core.Path.{subst}
use new_wiv_os.Base.Run.{Returns}
use new_wiv_os.Tasking.{
  Tasks, first_slot, is_none, max_processes, gone, process_create, lock_table, unlock_table,
  set_process, place,
}

-- What a search of n slots from i on answers.
abbrev pub Found : (ℕ → Bool) → ℕ → ℕ → Option ℕ → Type 0
Found free n i none = (j : ℕ) → i ≤ j → j < i + n → free j ≡ false
Found free n i (some k) =
    (i ≤ k) × (k < i + n) × (free k ≡ true) × ((j : ℕ) → i ≤ j → j < k → free j ≡ false)

-- A slot search answers the first slot that passes, or none where no slot passes.
pub first_slot-Found : (free : ℕ → Bool) (n i : ℕ) → Found free n i (first_slot free n i)
unfolding first_slot
first_slot-Found free zero i = λ j a b. absurd (omega arith)
first_slot-Found free (suc n) i = elim (Bool-cases (free i)) [
  | inl here ↦ rw here (omega arith, omega arith, here, λ j a b. absurd (omega arith))
  | inr taken ↦ rw taken (widen (first_slot free n (i + 1)) taken (first_slot-Found free n (i + 1)))
]
  where
    at_or_behind : (j : ℕ) → free i ≡ false → i ≤ j → (i + 1 ≤ j → free j ≡ false) → free j ≡ false
    at_or_behind j taken a later = elim (ℕ_discrete i j) [
      | yes e ↦ rw e at taken
      | no other ↦ later (omega arith)
    ]

    widen : (r : Option ℕ) → free i ≡ false → Found free n (i + 1) r → Found free (suc n) i r
    widen none taken all = λ j a b. at_or_behind j taken a (λ c. all j c (omega arith))
    widen (some k) taken (lo, hi, free_k, first) =
        (omega arith, omega arith, free_k, λ j a b. at_or_behind j taken a (λ c. first j c b))

-- A new process for the page table was put into the first empty slot, or every slot is in use.
abbrev pub Created : Tasks → ℕ → ℕ → Tasks → Type 0
Created s page_table pid s' =
    ((pid < max_processes)
      × (is_none (s.table pid) ≡ true)
      × ((j : ℕ) → j < pid → is_none (s.table j) ≡ false)
      × ((i : ℕ)
          → s'.table i ≡ (
              if i == pid
              then some (record {
                pid = pid;
                page_table = page_table;
                threads = λ i. 0;
                locked = false;
                alloc_address = 0x0000780000000000;
              })
              else s.table i))
      × (s'.table_locked ≡ false))
    ⊎ ((pid ≡ gone)
        × ((j : ℕ) → j < max_processes → is_none (s.table j) ≡ false)
        × (s'.table ≡ s.table)
        × (s'.table_locked ≡ false))

place_lem :
    (s : Tasks) (page_table : ℕ) (r : Option ℕ)
    → Found (λ i. is_none (s.table i)) max_processes 0 r
    → Returns (place page_table r (record s { table_locked = true })) (Created s page_table)
unfolding place unlock_table set_process
place_lem s page_table none all = inr (refl, (λ j b. all j (omega arith) b), refl, refl)
place_lem s page_table (some pid) (lo, hi, empty, first) =
    inl (hi, empty, (λ j b. first j (omega arith) b), (λ i. refl), refl)

create_unlocked :
    (s : Tasks) (page_table : ℕ)
    → Returns (process_create page_table (record s { table_locked = false })) (Created s page_table)
unfolding process_create lock_table
create_unlocked s page_table =
    place_lem s page_table (first_slot (λ i. is_none (s.table i)) max_processes 0)
      (first_slot-Found (λ i. is_none (s.table i)) max_processes 0)

-- With the table's lock free, process_create fills the first empty slot of the table with the new
-- process and answers its index, or answers -1 and leaves the table where no slot is empty. It
-- gives the lock back.
pub process_create_lem :
    (s : Tasks) (page_table : ℕ)
    → s.table_locked ≡ false
    → Returns (process_create page_table s) (Created s page_table)
process_create_lem s page_table open_ =
    subst (λ t. Returns (process_create page_table t) (Created s page_table))
      (sym (ap (λ b. record s { table_locked = b }) open_)) (create_unlocked s page_table)
