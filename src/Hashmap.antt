-- ===== src/Hashmap.antt =====
-- The string hash map of kernel/utils/lists.c. A key is the list of its characters (strdup and
-- strcmp read it up to its NUL), a value is a pointer as a number, NULL is 0. A chain of entries
-- is a list; characters are unsigned, as on riscv64.
pub mod Keys
pub mod Chain
pub mod Table
use new_wiv_os.Base.{
  ℕ, zero, suc, ◌+◌, ◌-◌, ◌*◌, ◌%◌, ◌^◌, Bool, true, false, if◌then◌else◌, ◌==◌, Option, none, some,
  List, [], ◌∷◌, ◌++◌, map, length, get_elem?, set, replicate,
}
use new_wiv_os.Base.Bits.{shl}
use new_wiv_os.Base.Run.{
  Run, ok, fault, hang, Cmd, and_then, pure, ◌>>=◌, ◌>>◌, fault_cmd, get_state, put_state,
}
use new_wiv_os.Strings.Memory.{Sign, minus_one, equal, one}
use new_wiv_os.Strings.Text.{strcmp, buffer}

abbrev pub Key : Type 0
Key = List ℕ

-- hashmap_entry_t
pub record Entry : Type 0 where
  pub key : Key
  pub value : ℕ

abbrev pub Chain : Type 0
Chain = List Entry

-- hashmap_t
pub record Hashmap : Type 0 where
  pub locked : Bool
  pub hash_size : ℕ
  pub buckets : List Chain

-- hash = c + (hash << 6) + (hash << 16) - hash, on 32 bits, up to the NUL
unfoldable pub hash_loop : ℕ → Key → ℕ
hash_loop hash [] = hash
hash_loop hash (c ∷ key) =
    let rest =
      hash_loop ((c + shl hash 6 % 2 ^ 32 + shl hash 16 % 2 ^ 32 + 2 ^ 32 - hash) % 2 ^ 32) key in
    if c == 0 then hash else rest

unfoldable pub hashmap_string_hash : Key → ℕ
unfolding hash_loop
hashmap_string_hash key = hash_loop 0 key

-- !strcmp(a, b)
unfoldable pub same_key : Key → Key → Bool
unfolding strcmp
same_key a b = elim (strcmp (buffer a []) (buffer b [])) [
  | none ↦ false
  | some r ↦ elim r [ minus_one ↦ false | equal ↦ true | one ↦ false ]
]

unfoldable pub lock : Cmd Hashmap (Unit {0})
lock m = if m.locked then hang else ok tt (record m { locked = true })

unfoldable pub unlock : Cmd Hashmap (Unit {0})
unlock m = ok tt (record m { locked = false })

-- hash % map->hashSize, a division by zero for a map of size 0
unfoldable pub slot : Key → Cmd Hashmap ℕ
slot key m = if m.hash_size == 0 then fault else ok (hashmap_string_hash key % m.hash_size) m

unfoldable pub read_chain : ℕ → Cmd Hashmap Chain
read_chain i m = elim (get_elem? m.buckets i) [ none ↦ fault | some c ↦ ok c m ]

unfoldable pub write_chain : ℕ → Chain → Cmd Hashmap (Unit {0})
write_chain i c m = ok tt (record m { buckets = set m.buckets i c })

unfoldable pub hashmap_create : ℕ → Hashmap
hashmap_create hash_size = record {
  locked = false;
  hash_size = hash_size;
  buckets = replicate hash_size [];
}

-- The walk of hashmap_set along a chain: the value that was replaced (NULL for a new key), and the
-- chain with the value in place or with a new entry at its end.
unfoldable pub chain_set : Key → ℕ → Chain → ℕ × Chain
chain_set key value [] = (0, record { key = key; value = value } ∷ [])
chain_set key value (entry ∷ chain) =
    let rest = chain_set key value chain in
    if same_key entry.key key
    then (entry.value, record entry { value = value } ∷ chain)
    else (rest.0, entry ∷ rest.1)

unfoldable pub chain_get : Key → Chain → ℕ
chain_get key [] = 0
chain_get key (entry ∷ chain) = if same_key entry.key key then entry.value else chain_get key chain

unfoldable pub chain_remove : Key → Chain → ℕ × Chain
chain_remove key [] = (0, [])
chain_remove key (entry ∷ chain) =
    let rest = chain_remove key chain in
    if same_key entry.key key then (entry.value, chain) else (rest.0, entry ∷ rest.1)

unfoldable pub chain_has : Key → Chain → Bool
chain_has key [] = false
chain_has key (entry ∷ chain) = if same_key entry.key key then true else chain_has key chain

unfoldable pub hashmap_set : Key → ℕ → Cmd Hashmap ℕ
hashmap_set key value = do
  lock
  i ← slot key
  chain ← read_chain i
  write_chain i (chain_set key value chain).1
  unlock
  pure (chain_set key value chain).0

unfoldable pub hashmap_get : Key → Cmd Hashmap ℕ
hashmap_get key = do lock; i ← slot key; chain ← read_chain i; unlock; pure (chain_get key chain)

unfoldable pub hashmap_remove : Key → Cmd Hashmap ℕ
hashmap_remove key = do
  lock
  i ← slot key
  chain ← read_chain i
  write_chain i (chain_remove key chain).1
  unlock
  pure (chain_remove key chain).0

unfoldable pub hashmap_has : Key → Cmd Hashmap Bool
hashmap_has key = do lock; i ← slot key; chain ← read_chain i; unlock; pure (chain_has key chain)

-- The keys that hashmap_to_list pushes behind one another on a new list.
unfoldable pub keys : List Chain → List Key
keys [] = []
keys (chain ∷ chains) = map (λ (e : Entry). e.key) chain ++ keys chains

unfoldable pub hashmap_to_list : Cmd Hashmap (List Key)
unfolding keys
hashmap_to_list = do lock; m ← get_state; unlock; pure (keys m.buckets)
