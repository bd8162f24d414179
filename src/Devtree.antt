-- ===== src/Devtree.antt =====
-- The flattened device tree's properties and nodes, kernel/utils/dtb.c. A name is the list of its
-- characters; the locks of the property lists and of the tree, taken and released inside each
-- function, are left out, and so is the copy of the path that strsep cuts up.
pub mod Endian
pub mod Props
pub mod Nodes
pub mod Blob
use new_wiv_os.Base.{
  ℕ, zero, suc, ◌+◌, ◌-◌, ◌*◌, ◌%◌, ◌^◌, Bool, true, false, not, ◌&&◌, ◌||◌, if◌then◌else◌, ltb,
  leb, ◌==◌, Option, none, some, List, [], ◌∷◌, length, get_elem?, drop,
}
use new_wiv_os.Strings.Memory.{Sign, minus_one, equal, one}
use new_wiv_os.Strings.Text.{strcmp, strncmp, strlen, strsep, buffer}
use new_wiv_os.Hashmap.{Key, same_key}
use new_wiv_os.Devtree.Endian.{be32, be64, word32}

-- dtb_prop_t; `bytes` is the object that data points to.
pub record Property : Type 0 where
  pub name : Key
  pub bytes : List ℕ
  pub data_len : ℕ

-- What a reader answers: -1 or NULL, a result, or a read behind the object.
pub data Answer : Type 0 where
  refused : Answer
  answer : ℕ → Answer
  outside : Answer

-- The walk of the property list.
unfoldable pub find_property : Key → List Property → Option Property
find_property name [] = none
find_property name (prop ∷ props) =
    if same_key name prop.name then some prop else find_property name props

-- The 32-bit word at a byte offset, on a little-endian machine.
unfoldable pub load32 : List ℕ → ℕ → Option ℕ
load32 (b0 ∷ b1 ∷ b2 ∷ b3 ∷ bytes) zero = some (word32 b0 b1 b2 b3)
load32 [] i = none
load32 (b ∷ bytes) zero = none
load32 (b ∷ bytes) (suc i) = load32 bytes i

unfoldable pub load64 : List ℕ → ℕ → Option ℕ
unfolding load32
load64 bytes i = elim (load32 bytes i) [
  | none ↦ none
  | some low ↦ elim (load32 bytes (i + 4)) [ none ↦ none | some high ↦ some (low + high * 2 ^ 32) ]
]

-- `present` is DTBNodes != NULL. The offset counts words, the test takes it for bytes.
unfoldable pub dtb_prop_read_u32 : Bool → List Property → Key → ℕ → Answer
unfolding find_property load32
dtb_prop_read_u32 present props name offset =
    if not present then refused else elim (find_property name props) [
      | none ↦ refused
      | some prop ↦
          if ltb prop.data_len (offset + 4)
          then refused
          else elim (load32 prop.bytes (4 * offset)) [
            | none ↦ outside
            | some word ↦ answer (be32 word)
          ]
    ]

unfoldable pub dtb_prop_read_u64 : Bool → List Property → Key → ℕ → Answer
unfolding find_property load64
dtb_prop_read_u64 present props name offset =
    if not present then refused else elim (find_property name props) [
      | none ↦ refused
      | some prop ↦
          if ltb prop.data_len (offset + 4)
          then refused
          else elim (load64 prop.bytes (4 * offset)) [
            | none ↦ outside
            | some word ↦ answer (be64 word)
          ]
    ]

-- One switch of dtb_prop_read_address_range: the new value of *address or *size, `old` where the
-- number of cells is none of the cases.
unfoldable pub read_cells : Bool → List Property → Key → ℕ → ℕ → ℕ → Answer
unfolding dtb_prop_read_u32 dtb_prop_read_u64
read_cells present props name cells offset old =
    if cells == 0
    then answer 0
    else if cells == 1
    then dtb_prop_read_u32 present props name offset
    else if cells == 2
    then dtb_prop_read_u64 present props name offset
    else answer old

-- dtb_prop_read_address_range for pointers that are not NULL, from the old *address and *size:
-- the status (true for 0, false for -1) and the new values; `none` is a read behind the object.
unfoldable pub dtb_prop_read_address_range :
    Bool → List Property → Key → ℕ → ℕ → ℕ → ℕ → Option (Bool × ℕ × ℕ)
unfolding read_cells
dtb_prop_read_address_range present props name address_cells size_cells address size =
    elim (read_cells present props name address_cells 0 address) [
      | refused ↦ some (false, address, size)
      | outside ↦ none
      | answer a ↦ elim (read_cells present props name size_cells address_cells size) [
        | refused ↦ some (false, a, size)
        | outside ↦ none
        | answer s ↦ some (true, a, s)
      ]
    ]

-- The bytes that dtb_prop_read_string returns a pointer to, or `none` for NULL.
unfoldable pub dtb_prop_read_string : Bool → List Property → Key → Option (List ℕ)
unfolding find_property
dtb_prop_read_string present props name =
    if not present
    then none
    else elim (find_property name props) [ none ↦ none | some prop ↦ some prop.bytes ]

-- The loop of dtb_prop_read_stringlist, for the bytes at current_str and its offset from data; the
-- answer is the offset of the string. Each round moves on, so data_len rounds are enough.
unfoldable pub stringlist_loop : ℕ → List ℕ → ℕ → ℕ → ℕ → ℕ → Answer
stringlist_loop zero bytes data_len offset current index =
    if ltb offset data_len then outside else refused
stringlist_loop (suc fuel) bytes data_len offset current index =
    let rest = λ (n : ℕ).
      stringlist_loop fuel (drop (n + 1) bytes) data_len (offset + (n + 1)) (current + 1) index in
    if ltb offset data_len
    then (if current == index
        then answer offset
        else elim (strlen bytes) [ none ↦ outside | some n ↦ rest n ])
    else refused

unfoldable pub dtb_prop_read_stringlist : Bool → List Property → Key → ℕ → Answer
unfolding find_property stringlist_loop
dtb_prop_read_stringlist present props name index =
    if not present then refused else elim (find_property name props) [
      | none ↦ refused
      | some prop ↦ stringlist_loop prop.data_len prop.bytes prop.data_len 0 0 index
    ]

mutual
  -- A gentree_node_t with its dtb_node_t.
  pub data Tree : Type 0 where
    tree : Key → List Property → Children → Tree

  pub data Children : Type 0 where
    nil : Children
    child : Tree → Children → Children

abbrev pub name_of : Tree → Key
name_of (tree name props children) = name

abbrev pub children_of : Tree → Children
children_of (tree name props children) = children

-- strlen of a name, which is a string
unfoldable pub text_length : Key → ℕ
unfolding strlen
text_length name = elim (strlen (buffer name [])) [ none ↦ 0 | some n ↦ n ]

-- !strncmp(name, node_to_match, strlen(node_to_match))
unfoldable pub same_start : Key → Key → Bool
unfolding text_length strncmp
same_start name wanted = elim (strncmp (buffer name []) (buffer wanted []) (text_length wanted)) [
  | none ↦ false
  | some r ↦ elim r [ minus_one ↦ false | equal ↦ true | one ↦ false ]
]

-- The test of dtb_find_node (0x40 is the at sign) where it does not look for an exact name.
unfoldable pub matches : Key → Key → Bool
unfolding text_length same_start
matches name wanted =
    (ltb (text_length wanted) (text_length name)
        && (elim (get_elem? name (text_length wanted)) [ none ↦ false | some c ↦ c == 0x40 ])
      || leb (text_length name) (text_length wanted))
    && same_start name wanted

-- The walk of the children: the child that was taken, and currentIndex.
unfoldable pub pick : Bool → Key → ℕ → ℕ → Children → Option Tree × ℕ
unfolding matches
pick exact wanted index current nil = (none, current)
pick exact wanted index current (child t ts) =
    let found = not exact && matches (name_of t) wanted in
    let next = pick exact wanted index (if found then current + 1 else current) ts in
    if found && index == current
    then (some t, current)
    else if exact && not (same_key (name_of t) wanted)
    then (some t, current)
    else next

-- The loop over the parts of the path. Each round cuts a delimiter off.
unfoldable pub find_loop : ℕ → Bool → ℕ → ℕ → Tree → Option (List ℕ) → Option Tree
unfolding pick strsep
find_loop zero exact index current t path = none
find_loop (suc fuel) exact index current t path = elim (strsep path (b'/' ∷ 0 ∷ [])) [
  | none ↦ none
  | some (none, rest) ↦ some t
  | some (some part, rest) ↦
      if same_key part []
      then some t
      else let found = pick exact part index current (children_of t) in
        elim found.0 [ none ↦ none | some next ↦ find_loop fuel exact index found.1 next rest ]
]

-- A leading '/' is skipped.
unfoldable pub skip_slash : List ℕ → List ℕ
skip_slash [] = []
skip_slash (c ∷ path) = if c == b'/' then path else c ∷ path

-- dtb_find_node in a tree with a root (DTBNodes, `none` for NULL).
unfoldable pub dtb_find_node : Option Tree → Key → ℕ → Bool → Option Tree
unfolding find_loop
dtb_find_node none name index exact = none
dtb_find_node (some root) name index exact =
    find_loop (length name + 2) exact index 0 root (some (skip_slash (buffer name [])))
