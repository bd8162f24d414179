-- ===== src/Devtree/Blob/Built.antt =====
-- dtb_init on the blob of a root node with children that have none.
use new_wiv_os.Base.{
  ℕ, ◌+◌, ◌*◌, ◌^◌, ◌<◌, ◌≤◌, true, some, List, ◌∷◌, length, drop, ◌≡◌, ◌≢◌, ◌∙◌, ap,
}
use new_wiv_os.Base.Run.{ok, pure, and_then}
use new_wiv_os.Trees.{node, nil, gentree_create}
use new_wiv_os.Devtree.Blob.{Parser, set_node, dtb_init}
use new_wiv_os.Devtree.Blob.Blocks.{encode_all, size_all, AllEncodable}
use new_wiv_os.Devtree.Blob.Whole.{FdtHeader, blob_of, raw, dtb_init-encode}
use new_wiv_os.Devtree.Blob.Flat.{Leaf, flat_blocks, leaf_nodes, leaf_table, leaf_node, flat-read}

-- Where kmalloc's addresses are distinct and not 0, for a header of version 17 or an older one whose
-- offsets have 32 bits, with the encodable blocks of a root node and of children without children at
-- off_dt_struct, FDT_END behind them, and their size below size_dt_struct as it is loaded: dtb_init
-- returns 0; the tree is the root and its children, the last one first; and the table has for each
-- of them its name, its properties in order and its place in the tree.
pub dtb_init-flat_blocks :
    (kmalloc : ℕ → ℕ) (h : FdtHeader) (rest after : List ℕ) (root : Leaf) (ls : List Leaf)
    (s : Parser)
    → ((i j : ℕ) → kmalloc i ≡ kmalloc j → i ≡ j)
    → ((i : ℕ) → kmalloc i ≢ 0)
    → h.start < 2 ^ 32
    → h.strings < 2 ^ 32
    → h.last ≤ 17
    → AllEncodable (drop h.strings (blob_of h rest)) (flat_blocks root ls)
    → drop h.start (blob_of h rest) ≡ encode_all (flat_blocks root ls) (0 ∷ 0 ∷ 0 ∷ 9 ∷ after)
    → size_all (flat_blocks root ls) < raw h.size
    → dtb_init kmalloc (blob_of h rest) s
      ≡ ok true (record {
        tree =
            some (
              node
                (kmalloc (s.used + 1))
                (kmalloc s.used)
                (leaf_nodes kmalloc (s.used + 2) ls nil));
        nodes =
            leaf_table kmalloc
              (s.used + 2)
              ls
              (set_node (kmalloc s.used) (leaf_node root (kmalloc (s.used + 1)) true) s.nodes);
        current = kmalloc s.used;
        found = true;
        used = s.used + 2 + 2 * length ls;
      })
unfolding gentree_create
dtb_init-flat_blocks kmalloc h rest after root ls s apart present start strings old w at room =
    dtb_init-encode kmalloc h rest after (flat_blocks root ls) s start strings old w at room
    ∙ ap (λ r. and_then r (λ unit. pure true)) (flat-read kmalloc apart present s s.used root ls)
