-- ===== src/Strings/Memory.antt =====
-- The byte block routines of kernel/utils/string.c. Addresses are natural numbers; a block that
-- is copied or filled does not wrap round the end of the address space.
use new_wiv_os.Base.{
  ℕ, zero, suc, ◌+◌, ◌-◌, ◌%◌, ◌≤◌, ◌<◌, ◌≡◌, refl, ◌⊎◌, inl, inr, ◌↔◌, ◌&&◌, arith, ltb, leb, ◌==◌,
  if◌then◌else◌,
}

abbrev pub Memory : Type 0
Memory = ℕ → ℕ

unfoldable pub write : Memory → ℕ → ℕ → Memory
write m a v b = if b == a then v else m b

-- p[i] = (uint8_t)c for n rounds from i on
memset_loop : ℕ → ℕ → ℕ → ℕ → Memory → Memory
memset_loop zero i s c m = m
memset_loop (suc n) i s c m = memset_loop n (i + 1) s c (write m (s + i) (c % 256))

unfoldable pub memset : Memory → ℕ → ℕ → ℕ → Memory
unfolding memset_loop write
memset m s c n = memset_loop n 0 s c m

-- *dest++ = *source++
unfoldable pub memcpy : Memory → ℕ → ℕ → ℕ → Memory
unfolding write
memcpy m dest source zero = m
memcpy m dest source (suc n) = memcpy (write m dest (m source)) (dest + 1) (source + 1) n

-- pdest[i] = psrc[i] for i upwards
copy_up : ℕ → ℕ → ℕ → ℕ → Memory → Memory
copy_up zero i d s m = m
copy_up (suc r) i d s m = copy_up r (i + 1) d s (write m (d + i) (m (s + i)))

-- pdest[n - i - 1] = psrc[n - i - 1] for i upwards
copy_down : ℕ → ℕ → ℕ → ℕ → ℕ → Memory → Memory
copy_down zero i n d s m = m
copy_down (suc r) i n d s m =
    copy_down r (i + 1) n d s (write m (d + (n - i - 1)) (m (s + (n - i - 1))))

unfoldable pub memmove : Memory → ℕ → ℕ → ℕ → Memory
unfolding copy_up copy_down write
memmove m dest src n =
    if ltb dest src
    then copy_up n 0 dest src m
    else if ltb src dest
    then copy_down n 0 n dest src m
    else m

-- The results -1, 0 and 1 of the comparisons.
pub data Sign : Type 0 where
  minus_one equal one : Sign

unfoldable pub memcmp : Memory → ℕ → ℕ → ℕ → Sign
memcmp m s1 s2 zero = equal
memcmp m s1 s2 (suc n) =
    let rest = memcmp m (s1 + 1) (s2 + 1) n in
    let a = m s1 in
    let b = m s2 in
    if a == b then rest else if ltb a b then minus_one else if ltb b a then one else rest

memset_loop_lem :
    (n i s c : ℕ) (m : Memory) (a : ℕ)
    → memset_loop n i s c m a ≡ (if leb (s + i) a && ltb a (s + i + n) then c % 256 else m a)
unfolding memset_loop write
memset_loop_lem zero i s c m a = ground arith
memset_loop_lem (suc n) i s c m a =
    ground (arith, memset_loop_lem n (i + 1) s c (write m (s + i) (c % 256)) a)

-- memset sets exactly the n bytes from s on, to the low byte of c.
pub memset_lem :
    (m : Memory) (s c n a : ℕ)
    → memset m s c n a ≡ (if leb s a && ltb a (s + n) then c % 256 else m a)
unfolding memset
memset_lem m s c n a = ground (arith, memset_loop_lem n 0 s c m a)

memcpy_apart : (d s n : ℕ) → (d ≤ s) ⊎ (s + suc n ≤ d) → (d + 1 ≤ s + 1) ⊎ (s + 1 + n ≤ d + 1)
memcpy_apart d s n (inl h) = inl (omega arith)
memcpy_apart d s n (inr h) = inr (omega arith)

-- For a destination at or below the source, or behind the source block, memcpy copies the n old
-- bytes of the source block and changes nothing else.
pub memcpy_lem :
    (m : Memory) (d s n a : ℕ)
    → (d ≤ s) ⊎ (s + n ≤ d)
    → memcpy m d s n a ≡ (if leb d a && ltb a (d + n) then m (s + (a - d)) else m a)
unfolding memcpy write
memcpy_lem m d s zero a h = ground arith
memcpy_lem m d s (suc n) a h =
    ground (arith, memcpy_lem (write m d (m s)) (d + 1) (s + 1) n a (memcpy_apart d s n h))

copy_up_lem :
    (r i d s : ℕ) (m : Memory) (a : ℕ)
    → d < s
    → copy_up r i d s m a ≡ (if leb (d + i) a && ltb a (d + i + r) then m (s + (a - d)) else m a)
unfolding copy_up write
copy_up_lem zero i d s m a h = ground arith
copy_up_lem (suc r) i d s m a h =
    ground (arith, copy_up_lem r (i + 1) d s (write m (d + i) (m (s + i))) a h)

copy_down_lem :
    (r i n d s : ℕ) (m : Memory) (a : ℕ)
    → s < d
    → i + r ≡ n
    → copy_down r i n d s m a ≡ (if leb d a && ltb a (d + r) then m (s + (a - d)) else m a)
unfolding copy_down write
copy_down_lem zero i n d s m a h e = ground arith
copy_down_lem (suc r) i n d s m a h e =
    let k : n - i - 1 ≡ r = omega arith in
    rw k (
      ground (arith, copy_down_lem r (i + 1) n d s (write m (d + r) (m (s + r))) a h (omega arith)))

-- memmove copies the n old bytes of the source block to the destination block and changes
-- nothing else, however the two blocks overlap.
pub memmove_lem :
    (m : Memory) (dest src n a : ℕ)
    → memmove m dest src n a
      ≡ (if leb dest a && ltb a (dest + n) then m (src + (a - dest)) else m a)
unfolding memmove
memmove_lem m dest src n a =
    ground (arith, copy_up_lem n 0 dest src m a, copy_down_lem n 0 n dest src m a)

same_of_memcmp :
    (m : Memory) (s1 s2 n : ℕ)
    → memcmp m s1 s2 n ≡ equal
    → (i : ℕ) → i < n
    → m (s1 + i) ≡ m (s2 + i)
unfolding memcmp
same_of_memcmp m s1 s2 zero h i lt = elim lt [ ]
same_of_memcmp m s1 s2 (suc n) h zero lt = rw (right_zero s1, right_zero s2) (ground arith)
  where
    right_zero : (x : ℕ) → x + 0 ≡ x
    right_zero x = omega arith
same_of_memcmp m s1 s2 (suc n) h (suc i) lt =
    rw (shift s1 i, shift s2 i)
      (same_of_memcmp m (s1 + 1) (s2 + 1) n (ground arith) i (omega arith))
  where
    shift : (x j : ℕ) → x + suc j ≡ x + 1 + j
    shift x j = omega arith

memcmp_of_same :
    (m : Memory) (s1 s2 n : ℕ)
    → ((i : ℕ) → i < n → m (s1 + i) ≡ m (s2 + i))
    → memcmp m s1 s2 n ≡ equal
unfolding memcmp
memcmp_of_same m s1 s2 zero h = refl
memcmp_of_same m s1 s2 (suc n) h =
    let head : m s1 ≡ m s2 = rw (right_zero s1, right_zero s2) at (h 0 (omega arith)) in
    ground (
      arith,
      memcmp_of_same m (s1 + 1) (s2 + 1) n
          (λ i lt. rw (shift s1 i, shift s2 i) at (h (suc i) (omega arith))),
    )
  where
    right_zero : (x : ℕ) → x + 0 ≡ x
    right_zero x = omega arith

    shift : (x j : ℕ) → x + suc j ≡ x + 1 + j
    shift x j = omega arith

-- memcmp answers equal exactly on blocks with the same bytes.
pub memcmp-equal_iff :
    (m : Memory) (s1 s2 n : ℕ)
    → (memcmp m s1 s2 n ≡ equal) ↔ ((i : ℕ) → i < n → m (s1 + i) ≡ m (s2 + i))
memcmp-equal_iff m s1 s2 n = (same_of_memcmp m s1 s2 n, memcmp_of_same m s1 s2 n)
