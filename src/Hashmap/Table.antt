-- ===== src/Hashmap/Table.antt =====
-- The hash map as a partial function from keys to values.
use new_wiv_os.Base.{
  ℕ, zero, suc, ◌%◌, ◌<◌, Bool, true, false, if◌then◌else◌, Option, none, some, ◌≡◌, ◌≢◌, refl,
  List, [], ◌∷◌, arith, length, get_elem?, get_or, set, length-set, get_or-set_self, get_or-set_ne,
  length-replicate, get_or-replicate, ℕ_discrete, Bool-cases, inl, inr, ==_false, ◌∙◌, sym, ap,
}
use mathlib.Core.Path.{subst}
use new_wiv_os.Base.Run.{ok, Returns}
use new_wiv_os.Hashmap.{
  Key, Chain, Hashmap, hashmap_string_hash, same_key, lock, unlock, slot, read_chain, write_chain,
  hashmap_create, chain_set, chain_get, chain_remove, chain_has, hashmap_set, hashmap_get,
  hashmap_remove, hashmap_has,
}
use new_wiv_os.Hashmap.Keys.{hash_congr}
use new_wiv_os.Hashmap.Chain.{
  find, or_null, is_some, Distinct, chain_get-find, chain_has-find, chain_set-old, find-chain_set,
  chain_remove-old, find-chain_remove, chain_set-Distinct, chain_remove-Distinct,
}

-- The home bucket of a key.
abbrev pub home : Hashmap → Key → ℕ
home m key = hashmap_string_hash key % m.hash_size

abbrev pub chain_of : Hashmap → Key → Chain
chain_of m key = get_or m.buckets (home m key) []

-- The map that a state stands for: a key is looked up in its home bucket.
unfoldable pub view : Hashmap → Key → Option ℕ
view m key = find key (chain_of m key)

pub record IsValid (m : Hashmap) : Type 0 where
  pub sized : length m.buckets ≡ m.hash_size
  pub positive : m.hash_size ≢ 0
  pub unlocked : m.locked ≡ false
  pub distinct : (i : ℕ) → Distinct (get_or m.buckets i [])

-- A new map of a size that is not 0 is valid and empty.
pub create-IsValid :
    (hash_size : ℕ)
    → hash_size ≢ 0
    → IsValid (hashmap_create hash_size) × ((q : Key) → view (hashmap_create hash_size) q ≡ none)
unfolding hashmap_create view find
create-IsValid n ne = (
  record {
    sized = length-replicate n [];
    positive = ne;
    unlocked = refl;
    distinct = λ i. rw (get_or-replicate {A = Chain} n i []) tt;
  },
  λ q. rw (get_or-replicate {A = Chain} n (hashmap_string_hash q % n) []) refl,
)

get_elem?-get_or :
    (xs : List Chain) (i : ℕ) → i < length xs → get_elem? xs i ≡ some (get_or xs i [])
get_elem?-get_or [] i h = absurd (omega arith)
get_elem?-get_or (x ∷ xs) zero h = refl
get_elem?-get_or (x ∷ xs) (suc i) h = get_elem?-get_or xs i (omega arith)

module _ (m : Hashmap) (v : IsValid m) (k : Key) where
  home-lt : home m k < length m.buckets
  home-lt = ground (arith, v.sized, v.positive)

  slot-ok : (b : Bool) → slot k (record m { locked = b }) ≡ ok (home m k) (record m { locked = b })
  unfolding slot
  slot-ok b = rw (==_false m.hash_size 0 v.positive)

  read_chain-ok :
      (b : Bool)
      → read_chain (home m k) (record m { locked = b })
        ≡ ok (chain_of m k) (record m { locked = b })
  unfolding read_chain
  read_chain-ok b = rw (read_chain, get_elem?-get_or m.buckets (home m k) home-lt)

  -- The map after the home chain of k has been replaced.
  abbrev replaced : Chain → Hashmap
  replaced c = record m { buckets = set m.buckets (home m k) c }

  replaced-IsValid : (c : Chain) → Distinct c → IsValid (replaced c)
  replaced-IsValid c d = record {
    sized = length-set m.buckets (home m k) c ∙ v.sized;
    positive = v.positive;
    unlocked = v.unlocked;
    distinct = λ i. elim (ℕ_discrete (home m k) i) [
      | yes here ↦ rw (← here, get_or-set_self m.buckets (home m k) c [] home-lt) d
      | no other ↦ rw (get_or-set_ne m.buckets (home m k) i c [] other) (v.distinct i)
    ];
  }

  view-replaced :
      (c : Chain) (r : Option ℕ)
      → ((q : Key) → find q c ≡ (if same_key k q then r else find q (chain_of m k)))
      → (q : Key) → view (replaced c) q ≡ (if same_key k q then r else view m q)
  unfolding view
  view-replaced c r reads q = elim (ℕ_discrete (home m k) (home m q)) [
    | yes same ↦ rw (← same, get_or-set_self m.buckets (home m k) c [] home-lt) (reads q)
    | no other ↦ elim (Bool-cases (same_key k q)) [
      | inl e ↦ absurd (other (rw (hash_congr k q e)))
      | inr e ↦ rw (get_or-set_ne m.buckets (home m k) (home m q) c [] other, e)
    ]
  ]

  canon : m ≡ record m { locked = false }
  canon = ap (λ b. record m { locked = b }) v.unlocked

  get-run :
      hashmap_get k (record m { locked = false })
      ≡ ok (chain_get k (chain_of m k)) (record m { locked = false })
  unfolding hashmap_get lock unlock
  get-run = rw (slot-ok true, read_chain-ok true)

  has-run :
      hashmap_has k (record m { locked = false })
      ≡ ok (chain_has k (chain_of m k)) (record m { locked = false })
  unfolding hashmap_has lock unlock
  has-run = rw (slot-ok true, read_chain-ok true)

  set-run :
      (x : ℕ)
      → hashmap_set k x (record m { locked = false })
        ≡ ok
            (chain_set k x (chain_of m k)).0
            (record (replaced (chain_set k x (chain_of m k)).1) { locked = false })
  unfolding hashmap_set lock unlock write_chain
  set-run x = rw (slot-ok true, read_chain-ok true)

  remove-run :
      hashmap_remove k (record m { locked = false })
      ≡ ok
          (chain_remove k (chain_of m k)).0
          (record (replaced (chain_remove k (chain_of m k)).1) { locked = false })
  unfolding hashmap_remove lock unlock write_chain
  remove-run = rw (slot-ok true, read_chain-ok true)

  unlocked_again : (c : Chain) → record (replaced c) { locked = false } ≡ replaced c
  unlocked_again c = ap (λ b. record (replaced c) { locked = b }) (sym v.unlocked)

-- hashmap_get on a valid map answers the value of the key, or NULL when it has none, and leaves
-- the map as it was.
pub get-view : (m : Hashmap) → IsValid m → (k : Key) → hashmap_get k m ≡ ok (or_null (view m k)) m
unfolding view
get-view m v k =
    subst (λ s. hashmap_get k s ≡ ok (or_null (view m k)) s) (sym (canon m v k))
      (get-run m v k
        ∙ ap (λ x. ok x (record m { locked = false })) (chain_get-find k (chain_of m k)))

-- hashmap_has on a valid map answers whether the key has a value, and leaves the map as it was.
pub has-view : (m : Hashmap) → IsValid m → (k : Key) → hashmap_has k m ≡ ok (is_some (view m k)) m
unfolding view
has-view m v k =
    subst (λ s. hashmap_has k s ≡ ok (is_some (view m k)) s) (sym (canon m v k))
      (has-run m v k
        ∙ ap (λ x. ok x (record m { locked = false })) (chain_has-find k (chain_of m k)))

abbrev pub Sets : (m : Hashmap) (k : Key) (r : Option ℕ) → ℕ → Hashmap → Type 0
Sets m k r old m' =
    (old ≡ or_null (view m k))
    × IsValid m'
    × ((q : Key) → view m' q ≡ (if same_key k q then r else view m q))

-- hashmap_set on a valid map returns the value that the key had, or NULL, and leaves a valid map
-- in which the key has the new value and every other key the value it had.
pub set-view :
    (m : Hashmap) → IsValid m → (k : Key) (x : ℕ) → Returns (hashmap_set k x m) (Sets m k (some x))
unfolding view
set-view m v k x =
    let c = chain_set k x (chain_of m k) in
    subst (λ s. Returns s (Sets m k (some x)))
      (sym (
        ap (hashmap_set k x) (canon m v k)
        ∙ set-run m v k x
        ∙ ap (ok c.0) (unlocked_again m v k c.1)))
      (
        chain_set-old k x (chain_of m k),
        replaced-IsValid m v k c.1 (chain_set-Distinct k x (chain_of m k) (v.distinct (home m k))),
        view-replaced m v k c.1 (some x) (λ q. find-chain_set k q x (chain_of m k)),
      )

-- hashmap_remove on a valid map returns the value that the key had, or NULL, and leaves a valid
-- map in which the key has no value and every other key the value it had.
pub remove-view :
    (m : Hashmap) → IsValid m → (k : Key) → Returns (hashmap_remove k m) (Sets m k none)
unfolding view
remove-view m v k =
    let c = chain_remove k (chain_of m k) in
    subst (λ s. Returns s (Sets m k none))
      (sym (
        ap (hashmap_remove k) (canon m v k)
        ∙ remove-run m v k
        ∙ ap (ok c.0) (unlocked_again m v k c.1)))
      (
        chain_remove-old k (chain_of m k),
        replaced-IsValid m v k c.1 (chain_remove-Distinct k (chain_of m k) (v.distinct (home m k))),
        view-replaced m v k c.1 none
            (λ q. find-chain_remove k q (chain_of m k) (v.distinct (home m k))),
      )
