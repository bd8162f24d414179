-- ===== src/Tests/Blobs.antt =====
-- dtb_init on a blob of two nodes, the root with one property.
use new_wiv_os.Base.{ℕ, ◌+◌, true, false, some, none, [], ◌∷◌, List, ◌≡◌, refl, arith}
use new_wiv_os.Base.Run.{ok, Returns}
use new_wiv_os.Strings.Text.{NoNul}
use new_wiv_os.Trees.{node, nil, child}
use new_wiv_os.Devtree.Blob.{Parser, round_up4, set_node, dtb_init}
use new_wiv_os.Devtree.Blob.Blocks.{Block, encode_all}
use new_wiv_os.Devtree.Blob.Whole.{FdtHeader, blob_of}
use new_wiv_os.Devtree.Blob.Flat.{Leaf, flat_blocks, leaf_table, leaf_node}
use new_wiv_os.Devtree.Blob.Built.{dtb_init-flat_blocks}

abbrev root : Leaf
root = record { name = []; values = (0, b'a' ∷ [], 7 ∷ []) ∷ [] }

abbrev leaf : Leaf
leaf = record { name = b'n' ∷ []; values = [] }

abbrev blocks : List Block
blocks = flat_blocks root (leaf ∷ [])

abbrev header : FdtHeader
header = record {
  total = 86;
  start = 40;
  strings = 84;
  reserved = 86;
  version = 17;
  last = 16;
  boot = 0;
  strings_size = 2;
  size = 44;
}

abbrev bytes : List ℕ
bytes = encode_all blocks (0 ∷ 0 ∷ 0 ∷ 9 ∷ b'a' ∷ 0 ∷ [])

abbrev addresses : ℕ → ℕ
addresses n = 100 + n

abbrev before : Parser
before = record {
  tree = none;
  current = 0;
  found = false;
  used = 0;
  nodes = λ _. record { name = []; props = []; tree_node = 0; root_node = false };
}

letter_a : NoNul (b'a' ∷ [])
letter_a = (omega arith, tt)

letter_n : NoNul (b'n' ∷ [])
letter_n = (omega arith, tt)

dtb_init-flat_blocks_example :
    dtb_init addresses (blob_of header bytes) before
    ≡ ok true (record {
      tree = some (node 101 100 (child (node 103 102 nil) nil));
      nodes =
          leaf_table addresses 2 (leaf ∷ []) (set_node 100 (leaf_node root 101 true) before.nodes);
      current = 100;
      found = true;
      used = 4;
    })
unfolding round_up4
dtb_init-flat_blocks_example =
    dtb_init-flat_blocks addresses header bytes (b'a' ∷ 0 ∷ []) root (leaf ∷ []) before
      (λ i j e. omega (arith, e)) (λ i. omega arith) (omega arith) (omega arith) (omega arith)
      (tt, ((omega arith, omega arith, letter_a, refl), (letter_n, (tt, (tt, tt))))) refl
      (omega arith)

-- The tree of the two nodes, and the property of the root.
two_nodes : Returns (dtb_init addresses (blob_of header bytes) before) λ r t.
    (r ≡ true)
    × (t.tree ≡ some (node 101 100 (child (node 103 102 nil) nil)))
    × (t.current ≡ 100)
    × ((t.nodes 100).props ≡ record { name = b'a' ∷ []; bytes = 7 ∷ []; data_len = 1 } ∷ [])
    × ((t.nodes 102).name ≡ b'n' ∷ [])
unfolding dtb_init
two_nodes = (refl, refl, refl, refl, refl)
