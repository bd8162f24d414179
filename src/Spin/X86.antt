-- ===== src/Spin/X86.antt =====
-- The x86-64 spinlock, kernel/arch/x86_64/spinlock.c, on the lock's word: the debug form, which the
-- kernel uses, and the normal form. A run sees the words that other processors leave between its
-- steps as a list; the messages of deadlock_detect are left out.
use new_wiv_os.Base.{
  ℕ, zero, suc, ◌+◌, ◌-◌, ◌%◌, ◌^◌, ◌≡◌, refl, ◌∙◌, ap, arith, if◌then◌else◌, ◌==◌, ==_iff,
  Bool-cases, inl, inr, List, [], ◌∷◌, ◌++◌,
}
use new_wiv_os.Base.Run.{Run, ok, hang}

-- lock bts: the old bit 0, and the word with the bit set.
unfoldable pub bts : ℕ → ℕ × ℕ
bts w = (w % 2, w - w % 2 + 1)

-- lock btr: the old bit 0, and the word with the bit cleared.
unfoldable pub btr : ℕ → ℕ × ℕ
btr w = (w % 2, w - w % 2)

-- The answer and the new word. xadd adds a register that holds 0.
unfoldable pub locked_read : ℕ → ℕ × ℕ
locked_read w = (w, w)

-- xchg with `ret`, which holds 0: `value` is not written.
unfoldable pub locked_write : ℕ → ℕ → ℕ × ℕ
locked_write w value = (w, 0)

-- The answer is whether the new word is not 0.
unfoldable pub locked_inc : ℕ → ℕ × ℕ
locked_inc w = (if (w + 1) % 2 ^ 32 == 0 then 0 else 1, (w + 1) % 2 ^ 32)

unfoldable pub locked_dec : ℕ → ℕ × ℕ
locked_dec w = (if (w + 2 ^ 32 - 1) % 2 ^ 32 == 0 then 0 else 1, (w + 2 ^ 32 - 1) % 2 ^ 32)

-- spinlock_debug_t; of last_acquirer the line.
pub record DebugLock : Type 0 where
  pub word : ℕ
  pub line : ℕ

unfoldable pub spinlock_try_lock_debug : ℕ → DebugLock → ℕ × DebugLock
unfolding bts
spinlock_try_lock_debug line l =
    let (old, word) = bts l.word in
    (old, if old == 0 then record { word = word; line = line } else record l { word = word })

-- spinlock_lock_debug, for the words that its attempts find; it goes on after deadlock_detect. It
-- hangs where every one of them was taken.
unfoldable pub spinlock_lock_debug : ℕ → List ℕ → DebugLock → Run DebugLock (Unit {0})
unfolding spinlock_try_lock_debug
spinlock_lock_debug line [] l = hang
spinlock_lock_debug line (word ∷ words) l =
    let (old, l') = spinlock_try_lock_debug line (record l { word = word }) in
    let rest = spinlock_lock_debug line words l' in if old == 0 then ok tt l' else rest

unfoldable pub spinlock_unlock : DebugLock → DebugLock
unfolding btr
spinlock_unlock l = record l { word = (btr l.word).1 }

-- spinlock_try_lock_normal answers `ret`, which the instruction does not set.
unfoldable pub spinlock_try_lock_normal : ℕ → ℕ × ℕ
unfolding bts
spinlock_try_lock_normal w = (0, (bts w).1)

-- spinlock_lock_normal, for at most `fuel` rounds: btr, and out where the carry is set.
unfoldable pub spinlock_lock_normal : ℕ → ℕ → Run ℕ (Unit {0})
unfolding btr
spinlock_lock_normal zero w = hang
spinlock_lock_normal (suc fuel) w =
    let rest = spinlock_lock_normal fuel (btr w).1 in
    if (btr w).0 == 1 then ok tt (btr w).1 else rest

-- Every word that was found has bit 0.
abbrev pub AllTaken : List ℕ → Type 0
AllTaken [] = Unit
AllTaken (w ∷ ws) = (w % 2 ≡ 1) × AllTaken ws

-- The debug lock is taken at the first word whose bit 0 is clear, with that bit set and the caller's
-- line, whatever the words behind it.
pub lock_debug-first :
    (line : ℕ) (taken : List ℕ) (word : ℕ) (words : List ℕ) (l : DebugLock)
    → AllTaken taken
    → word % 2 ≡ 0
    → spinlock_lock_debug line (taken ++ (word ∷ words)) l
      ≡ ok tt (record { word = word + 1; line = line })
unfolding spinlock_lock_debug
lock_debug-first line [] word words l all free = ground (arith, free)
lock_debug-first line (w ∷ taken) word words l all free = ground (
  arith,
  all.0,
  lock_debug-first line taken word words (record l { word = w - w % 2 + 1 }) all.1 free,
)

spins : (w : ℕ) → w % 2 ≡ 0 → (fuel : ℕ) → spinlock_lock_normal fuel w ≡ hang
unfolding spinlock_lock_normal
spins w free zero = refl
spins w free (suc fuel) =
    rw (free, spinlock_lock_normal)
      (ap (spinlock_lock_normal fuel) (minus_zero w) ∙ spins w free fuel)
  where
    minus_zero : (w : ℕ) → w - 0 ≡ w
    minus_zero w = omega arith

-- The normal lock is turned round: spinlock_lock_normal returns at once from a lock that is taken, and
-- frees it, and spins for ever on one that is free and that nobody else touches; and
-- spinlock_try_lock_normal answers 0, that the lock was taken now, for every word.
pub lock_normal-turned :
    (fuel w : ℕ)
    → (spinlock_lock_normal (suc fuel) w ≡ (if w % 2 == 1 then ok tt (w - 1) else hang))
      × ((spinlock_try_lock_normal w).0 ≡ 0)
unfolding spinlock_lock_normal spinlock_try_lock_normal
lock_normal-turned fuel w = (
  elim (Bool-cases (w % 2 == 1)) [
    | inl taken ↦ rw (taken, (==_iff (w % 2) 1).0 taken) refl
    | inr free ↦ rw free (spins (w - w % 2) (omega arith) fuel)
  ],
  refl,
)
