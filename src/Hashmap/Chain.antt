-- ===== src/Hashmap/Chain.antt =====
-- One chain of the hash map, as a partial function from keys to values.
use new_wiv_os.Base.{
  ℕ, Bool, true, false, if◌then◌else◌, Option, none, some, ◌≡◌, refl, [], ◌∷◌, arith,
}
use new_wiv_os.Hashmap.{Key, Chain, same_key, chain_set, chain_get, chain_remove, chain_has}
use new_wiv_os.Hashmap.Keys.{same_key_symm, same_key_congr, same_key_right}

unfoldable pub find : Key → Chain → Option ℕ
find q [] = none
find q (entry ∷ chain) = if same_key entry.key q then some entry.value else find q chain

-- The pointer that stands for a value that may be missing.
abbrev pub or_null : Option ℕ → ℕ
or_null none = 0
or_null (some v) = v

abbrev pub is_some : Option ℕ → Bool
is_some none = false
is_some (some v) = true

-- No key stands twice in the chain.
abbrev pub Distinct : Chain → Type 0
Distinct [] = Unit {0}
Distinct (entry ∷ chain) = (find entry.key chain ≡ none) × Distinct chain

pub find_congr : (a b : Key) (c : Chain) → same_key a b ≡ true → find a c ≡ find b c
unfolding find
find_congr a b [] h = refl
find_congr a b (e ∷ c) h = ground (
  arith,
  find_congr a b c,
  same_key_congr a b e.key,
  same_key_symm a e.key,
  same_key_symm b e.key,
)

pub chain_get-find : (q : Key) (c : Chain) → chain_get q c ≡ or_null (find q c)
unfolding find chain_get
chain_get-find q [] = refl
chain_get-find q (e ∷ c) = ground (arith, chain_get-find q c)

pub chain_has-find : (q : Key) (c : Chain) → chain_has q c ≡ is_some (find q c)
unfolding find chain_has
chain_has-find q [] = refl
chain_has-find q (e ∷ c) = ground (arith, chain_has-find q c)

module _ (k : Key) where
  pub chain_set-old : (v : ℕ) (c : Chain) → (chain_set k v c).0 ≡ or_null (find k c)
  unfolding find chain_set
  chain_set-old v [] = refl
  chain_set-old v (e ∷ c) = ground (arith, chain_set-old v c)

  pub find-chain_set :
      (q : Key) (v : ℕ) (c : Chain)
      → find q (chain_set k v c).1 ≡ (if same_key k q then some v else find q c)
  unfolding find chain_set
  find-chain_set q v [] = refl
  find-chain_set q v (e ∷ c) =
      ground (arith, find-chain_set q v c, same_key_congr e.key k q, same_key_right e.key k q)

  pub chain_remove-old : (c : Chain) → (chain_remove k c).0 ≡ or_null (find k c)
  unfolding find chain_remove
  chain_remove-old [] = refl
  chain_remove-old (e ∷ c) = ground (arith, chain_remove-old c)

  pub find-chain_remove :
      (q : Key) (c : Chain)
      → Distinct c
      → find q (chain_remove k c).1 ≡ (if same_key k q then none else find q c)
  unfolding find chain_remove
  find-chain_remove q [] d = ground arith
  find-chain_remove q (e ∷ c) d = ground (
    arith,
    find-chain_remove q c d.1,
    same_key_congr e.key k q,
    find_congr e.key q c,
    same_key_symm k q,
    same_key_right e.key k q,
  )

  pub chain_set-Distinct : (v : ℕ) (c : Chain) → Distinct c → Distinct (chain_set k v c).1
  unfolding find chain_set
  chain_set-Distinct v [] d = (refl, tt)
  chain_set-Distinct v (e ∷ c) d =
      ground (arith, chain_set-Distinct v c d.1, find-chain_set e.key v c, same_key_symm k e.key)

  pub chain_remove-Distinct : (c : Chain) → Distinct c → Distinct (chain_remove k c).1
  unfolding find chain_remove
  chain_remove-Distinct [] d = tt
  chain_remove-Distinct (e ∷ c) d =
      ground (arith, chain_remove-Distinct c d.1, find-chain_remove e.key c d.1)
