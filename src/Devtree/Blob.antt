-- ===== src/Devtree/Blob.antt =====
-- dtb_init of kernel/utils/dtb.c, which reads the flattened tree, over the general trees of Trees.
-- The blob is the bytes from `address` on; a read behind them faults. `kmalloc` has the addresses of
-- the dtb_node_t and gentree_node_t in the order in which they are asked for. The header's pointers
-- are taken as offsets.
pub mod Blocks
pub mod Stream
pub mod Whole
pub mod Flat
pub mod Built
use new_wiv_os.Base.{
  ℕ, zero, suc, ◌+◌, ◌-◌, ◌*◌, ◌/◌, Bool, true, false, not, if◌then◌else◌, ltb, ◌==◌, Option, none,
  some, List, [], ◌∷◌, ◌++◌, length, take, drop,
}
use new_wiv_os.Base.Run.{
  Run, ok, fault, hang, Cmd, pure, and_then, ◌>>=◌, ◌>>◌, fault_cmd, get_state,
}
use new_wiv_os.Strings.Text.{strlen}
use new_wiv_os.Hashmap.{Key}
use new_wiv_os.Trees.{
  Node, node, Children, nil, child, Gentree, gentree_create, gentree_insert, gentree_get_parent,
}
use new_wiv_os.Devtree.{Property, load32}
use new_wiv_os.Devtree.Endian.{be32}

-- dtb_node_t
pub record DtbNode : Type 0 where
  pub name : Key
  pub props : List Property
  pub tree_node : ℕ
  pub root_node : Bool

-- DTBNodes, the nodes by address, currentNode (0 for NULL), first_node_found, and the number of
-- addresses of kmalloc that are handed out.
pub record Parser : Type 0 where
  pub tree : Gentree
  pub nodes : ℕ → DtbNode
  pub current : ℕ
  pub found : Bool
  pub used : ℕ

unfoldable pub round_up4 : ℕ → ℕ
round_up4 n = (n + 3) / 4 * 4

abbrev pub set_node : ℕ → DtbNode → (ℕ → DtbNode) → ℕ → DtbNode
set_node at new nodes p = if p == at then new else nodes p

-- The value of the tree's node at an address.
unfoldable mutual
  pub value_below : ℕ → Node → Option ℕ
  value_below wanted (node address value children) =
      let deeper = value_among wanted children in if address == wanted then some value else deeper

  pub value_among : ℕ → Children → Option ℕ
  value_among wanted nil = none
  value_among wanted (child t ts) =
      let later = value_among wanted ts in
      elim (value_below wanted t) [ some value ↦ some value | none ↦ later ]

-- A read of a 32-bit field.
unfoldable pub read32 : List ℕ → ℕ → Cmd Parser ℕ
unfolding load32 be32
read32 bytes i s = elim (load32 bytes i) [ none ↦ fault | some word ↦ ok (be32 word) s ]

-- strdup of the string that stands at the start of the bytes.
unfoldable pub read_name : List ℕ → Cmd Parser Key
unfolding strlen
read_name bytes s = elim (strlen bytes) [ none ↦ fault | some n ↦ ok (take n bytes) s ]

-- FDT_BEGIN_NODE with the node's name.
unfoldable pub begin_node : (ℕ → ℕ) → Key → Cmd Parser (Unit {0})
unfolding gentree_insert
begin_node kmalloc name s =
    let new = kmalloc s.used in
    let parent = if s.current == 0 then 0 else (s.nodes s.current).tree_node in
    elim (gentree_insert (kmalloc (s.used + 1)) parent new s.tree) [
      | ok tree_node tree ↦ ok tt (record {
        tree = tree;
        nodes =
            set_node new
              (record { name = name; props = []; tree_node = tree_node; root_node = not s.found })
              s.nodes;
        current = new;
        found = true;
        used = s.used + 2;
      })
      | fault ↦ fault
      | hang ↦ hang
    ]

-- list_push_back(currentNode->props, prop)
unfoldable pub add_property : Property → Cmd Parser (Unit {0})
add_property prop s =
    let at = s.nodes s.current in
    if s.current == 0
    then fault
    else ok tt (record s {
      nodes = set_node s.current (record at { props = at.props ++ (prop ∷ []) }) s.nodes;
    })

-- FDT_END_NODE: the parent becomes currentNode, but for the root.
unfoldable pub end_node : Cmd Parser (Unit {0})
unfolding gentree_get_parent value_below
end_node s =
    let at = s.nodes s.current in
    if s.current == 0
    then fault
    else if at.root_node
    then ok tt s
    else elim (gentree_get_parent at.tree_node s.tree) [
      | ok (some (parent, index)) tree ↦ elim s.tree [
        | none ↦ fault
        | some root ↦ elim (value_below parent root) [
          | none ↦ fault
          | some up ↦ ok tt (record s { current = up })
        ]
      ]
      | ok none tree ↦ fault
      | fault ↦ fault
      | hang ↦ hang
    ]

-- FDT_PROP, from the bytes after the token; the answer is the size of the property. `strings` is
-- the bytes from header + be32(header->off_dt_strings) on.
unfoldable pub read_prop : List ℕ → List ℕ → Cmd Parser ℕ
unfolding read32 read_name add_property
read_prop strings bytes = do
  len ← read32 bytes 0
  offset ← read32 bytes 4
  name ← read_name (drop offset strings)
  (if ltb (length (drop 8 bytes)) len then fault_cmd else (do
    add_property (record { name = name; bytes = take len (drop 8 bytes); data_len = len })
    pure (8 + len)))

-- The switch on the token, over the bytes that follow it: the size of what the block holds.
unfoldable pub read_block : (ℕ → ℕ) → List ℕ → ℕ → List ℕ → Cmd Parser ℕ
unfolding read_name begin_node read_prop end_node
read_block kmalloc strings token bytes =
    if token == 1
    then (do name ← read_name bytes; begin_node kmalloc name; pure (length name + 1))
    else if token == 3
    then read_prop strings bytes
    else if token == 2
    then (do end_node; pure 0)
    else pure 0

-- The loop, from parsedSize on; `bytes` is what current_block points to. Each round takes at least
-- four bytes, so that the length of the blob is enough rounds.
unfoldable pub init_loop : ℕ → (ℕ → ℕ) → List ℕ → ℕ → ℕ → List ℕ → Cmd Parser (Unit {0})
unfolding read32 read_block round_up4
init_loop zero kmalloc strings limit parsed bytes s = if ltb parsed limit then hang else ok tt s
init_loop (suc fuel) kmalloc strings limit parsed bytes s =
    let rest = λ (n : ℕ). init_loop fuel kmalloc strings limit (parsed + n) (drop n bytes) in
    if ltb parsed limit
    then (do
      token ← read32 bytes 0
      size ← read_block kmalloc strings token (drop 4 bytes)
      (if token == 9 then pure tt else rest (round_up4 (4 + size))))
        s
    else ok tt s

-- dtb_init behind the two tests of the header. size_dt_struct is compared as it is loaded, without
-- be32.
unfoldable pub read_blocks : (ℕ → ℕ) → List ℕ → Cmd Parser Bool
unfolding read32 load32 init_loop gentree_create
read_blocks kmalloc blob = do
  start ← read32 blob 8
  strings ← read32 blob 12
  s ← get_state
  (elim (load32 blob 36) [
    | none ↦ fault_cmd
    | some limit ↦ λ _.
        (do
          init_loop (length blob + 1) kmalloc (drop strings blob) limit 0 (drop start blob)
          pure true)
          (record s { tree = gentree_create; current = 0; found = false })
  ])

-- dtb_init: true for 0, false for -1.
unfoldable pub dtb_init : (ℕ → ℕ) → List ℕ → Cmd Parser Bool
unfolding read32 read_blocks
dtb_init kmalloc blob = do
  magic ← read32 blob 0
  (if not (magic == 0xD00DFEED) then pure false else (do
    last ← read32 blob 24
    (if ltb 17 last then pure false else read_blocks kmalloc blob)))
