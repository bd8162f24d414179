-- ===== src/Devtree/Blob/Flat.antt =====
-- What dtb_init builds from a root node whose children have no children of their own.
use new_wiv_os.Base.{
  ℕ, suc, ◌+◌, ◌*◌, ◌<◌, Bool, true, false, ==_refl, ==_false, some, none, List, [], ◌∷◌, ◌++◌,
  length, ◌≡◌, ◌≢◌, refl, ap, ◌∙◌, fun_ext, arith,
}
use mathlib.Core.List.{append-nil, append_assoc}
use new_wiv_os.Base.Run.{ok}
use new_wiv_os.Hashmap.{Key}
use new_wiv_os.Trees.{
  gentree_node_create, node, Children, nil, child, gentree_insert, gentree_get_parent, push_below,
}
use new_wiv_os.Trees.Parents.{parent_first}
use new_wiv_os.Devtree.{Property}
use new_wiv_os.Devtree.Blob.{
  DtbNode, Parser, set_node, begin_node, add_property, end_node, value_below,
}
use new_wiv_os.Devtree.Blob.Blocks.{Block, begins, has, ends, perform_all}

-- A node without children: its name, and its properties as offset, name and value.
pub record Leaf : Type 0 where
  pub name : Key
  pub values : List (ℕ × Key × List ℕ)

abbrev pub properties : List (ℕ × Key × List ℕ) → List Property
properties [] = []
properties ((offset, name, value) ∷ ps) =
    record { name = name; bytes = value; data_len = length value } ∷ properties ps

-- The blocks of properties, of the children, and of the whole tree, in front of others.
abbrev pub haves : List (ℕ × Key × List ℕ) → List Block → List Block
haves [] rest = rest
haves ((offset, name, value) ∷ ps) rest = has offset name value ∷ haves ps rest

abbrev pub leaf_blocks : List Leaf → List Block → List Block
leaf_blocks [] rest = rest
leaf_blocks (l ∷ ls) rest = begins l.name ∷ haves l.values (ends ∷ leaf_blocks ls rest)

abbrev pub flat_blocks : Leaf → List Leaf → List Block
flat_blocks root ls = begins root.name ∷ haves root.values (leaf_blocks ls (ends ∷ []))

-- The tree's nodes of the children from the address numbered k on, the last one first.
abbrev pub leaf_nodes : (ℕ → ℕ) → ℕ → List Leaf → Children → Children
leaf_nodes kmalloc k [] cs = cs
leaf_nodes kmalloc k (l ∷ ls) cs =
    leaf_nodes kmalloc (k + 2) ls (child (node (kmalloc (k + 1)) (kmalloc k) nil) cs)

abbrev pub leaf_node : Leaf → ℕ → Bool → DtbNode
leaf_node l tree_node root_node = record {
  name = l.name;
  props = properties l.values;
  tree_node = tree_node;
  root_node = root_node;
}

-- The children by address
abbrev pub leaf_table : (ℕ → ℕ) → ℕ → List Leaf → (ℕ → DtbNode) → ℕ → DtbNode
leaf_table kmalloc k [] nodes = nodes
leaf_table kmalloc k (l ∷ ls) nodes =
    leaf_table kmalloc (k + 2) ls (set_node (kmalloc k) (leaf_node l (kmalloc (k + 1)) false) nodes)

set_twice :
    (a : ℕ) (x y : DtbNode) (f : ℕ → DtbNode) → set_node a y (set_node a x f) ≡ set_node a y f
set_twice a x y f = fun_ext (λ p. ground arith)

set_self : (a : ℕ) (x : DtbNode) (f : ℕ → DtbNode) → set_node a x f a ≡ x
set_self a x f = rw (==_refl a) refl

-- The state with a node whose blocks are being read.
abbrev partway : Parser → ℕ → DtbNode → (ℕ → DtbNode) → Parser
partway s cur n f = record s { current = cur; nodes = set_node cur n f }

add_reading :
    (prop : Property) (s : Parser) (cur : ℕ) (n : DtbNode) (f : ℕ → DtbNode)
    → cur ≢ 0
    → add_property prop (partway s cur n f)
      ≡ ok tt (partway s cur (record n { props = n.props ++ prop ∷ [] }) f)
unfolding add_property
add_reading prop s cur n f ne =
    rw (add_property, ==_false cur 0 ne, ==_refl cur)
      (ap (λ (t : ℕ → DtbNode). ok tt (record s { current = cur; nodes = t }))
        (set_twice cur n (record n { props = n.props ++ prop ∷ [] }) f))

module _ (kmalloc : ℕ → ℕ) where
  haves-add :
      (ps : List (ℕ × Key × List ℕ)) (rest : List Block) (s : Parser) (cur : ℕ) (n : DtbNode)
      (f : ℕ → DtbNode)
      → cur ≢ 0
      → perform_all kmalloc (haves ps rest) (partway s cur n f)
        ≡ perform_all kmalloc rest (partway s cur (record n { props = n.props ++ properties ps }) f)
  haves-add [] rest s cur n f ne = rw (append-nil n.props) refl
  haves-add ((offset, name, value) ∷ ps) rest s cur n f ne =
      let prop : Property = record { name = name; bytes = value; data_len = length value } in
      let more : DtbNode = record n { props = n.props ++ prop ∷ [] } in
      rw (add_reading prop s cur n f ne) (
        haves-add ps rest s cur more f ne
        ∙ ap
            (λ (xs : List Property).
              perform_all kmalloc rest (partway s cur (record n { props = xs }) f))
            (append_assoc n.props (prop ∷ []) (properties ps)))

  -- The state between two children, with the tree's root at tn and its dtb_node_t at d.
  abbrev between : Parser → ℕ → ℕ → ℕ → Children → (ℕ → DtbNode) → Parser
  between s k tn d cs f = record s {
    tree = some (node tn d cs);
    nodes = f;
    current = d;
    found = true;
    used = k;
  }

  leaf-begin :
      (l : Leaf) (s : Parser) (k tn d : ℕ) (cs : Children) (f : ℕ → DtbNode)
      → d ≢ 0
      → tn ≢ 0
      → (f d).tree_node ≡ tn
      → begin_node kmalloc l.name (between s k tn d cs f)
        ≡ ok tt (
            partway
              (between s (k + 2) tn d (child (node (kmalloc (k + 1)) (kmalloc k) nil) cs) f)
              (kmalloc k)
              (record { name = l.name; props = []; tree_node = kmalloc (k + 1); root_node = false })
              f)
  unfolding begin_node gentree_insert push_below gentree_node_create
  leaf-begin l s k tn d cs f nd nt at =
      rw (begin_node, ==_false d 0 nd, at, gentree_insert, ==_false tn 0 nt, ==_refl tn) refl

  leaf-end :
      (l : Leaf) (s : Parser) (k tn d a t : ℕ) (cs : Children) (f : ℕ → DtbNode)
      → a ≢ 0
      → t ≢ tn
      → end_node (partway (between s k tn d (child (node t a nil) cs) f) a (leaf_node l t false) f)
        ≡ ok tt (between s k tn d (child (node t a nil) cs) (set_node a (leaf_node l t false) f))
  unfolding end_node gentree_get_parent value_below
  leaf-end l s k tn d a t cs f na other =
      rw
        (
          end_node,
          ==_false a 0 na,
          ==_refl a,
          gentree_get_parent,
          ==_false t tn other,
          parent_first t tn d a cs,
          ==_refl tn,
        )
        refl

  module _ (apart : (i j : ℕ) → kmalloc i ≡ kmalloc j → i ≡ j)
      (some_address : (i : ℕ) → kmalloc i ≢ 0) (s : Parser) (u : ℕ) where
    -- Each child is hung below the root, and stands in the table under its address.
    leaves-read :
        (ls : List Leaf) (rest : List Block) (k : ℕ) (cs : Children) (f : ℕ → DtbNode)
        → u + 1 < k
        → (f (kmalloc u)).tree_node ≡ kmalloc (u + 1)
        → perform_all kmalloc (leaf_blocks ls rest) (between s k (kmalloc (u + 1)) (kmalloc u) cs f)
          ≡ perform_all kmalloc rest (
              between s
                (k + 2 * length ls)
                (kmalloc (u + 1))
                (kmalloc u)
                (leaf_nodes kmalloc k ls cs)
                (leaf_table kmalloc k ls f))
    leaves-read [] rest k cs f later root =
        let none_more : k + 2 * 0 ≡ k = omega arith in rw none_more refl
    leaves-read (l ∷ ls) rest k cs f later root =
        let new : DtbNode = leaf_node l (kmalloc (k + 1)) false in
        let count : k + 2 + 2 * length ls ≡ k + 2 * suc (length ls) = omega arith in
        let cs' : Children = child (node (kmalloc (k + 1)) (kmalloc k) nil) cs in
        let not_node : kmalloc (k + 1) ≢ kmalloc (u + 1) =
          λ e. let same : k + 1 ≡ u + 1 = apart _ _ e in absurd (omega (arith, same)) in
        let not_root : kmalloc u ≢ kmalloc k =
          λ e. let same : u ≡ k = apart _ _ e in absurd (omega (arith, same)) in
        let kept : (set_node (kmalloc k) new f (kmalloc u)).tree_node ≡ kmalloc (u + 1) =
          rw (==_false (kmalloc u) (kmalloc k) not_root) root in
        rw
          (leaf-begin l s k (kmalloc (u + 1)) (kmalloc u) cs f (some_address u)
            (some_address (u + 1)) root)
          (haves-add l.values (ends ∷ leaf_blocks ls rest)
              (between s (k + 2) (kmalloc (u + 1)) (kmalloc u) cs' f) (kmalloc k)
              (record { name = l.name; props = []; tree_node = kmalloc (k + 1); root_node = false })
              f (some_address k)
            ∙ rw
                (leaf-end l s (k + 2) (kmalloc (u + 1)) (kmalloc u) (kmalloc k) (kmalloc (k + 1)) cs
                  f (some_address k) not_node)
                (leaves-read ls rest (k + 2) cs' (set_node (kmalloc k) new f) (omega arith) kept
                  ∙ ap
                      (λ (n : ℕ). perform_all kmalloc rest (
                        between s n (kmalloc (u + 1)) (kmalloc u)
                          (leaf_nodes kmalloc (k + 2) ls cs')
                          (leaf_table kmalloc (k + 2) ls (set_node (kmalloc k) new f))))
                      count))

    -- The children leave the root's entry of the table.
    leaf_table-root :
        (ls : List Leaf) (k : ℕ) (f : ℕ → DtbNode)
        → u < k
        → leaf_table kmalloc k ls f (kmalloc u) ≡ f (kmalloc u)
    leaf_table-root [] k f later = refl
    leaf_table-root (l ∷ ls) k f later =
        let not_root : kmalloc u ≢ kmalloc k =
          λ e. let same : u ≡ k = apart _ _ e in absurd (omega (arith, same)) in
        leaf_table-root ls (k + 2) (set_node (kmalloc k) (leaf_node l (kmalloc (k + 1)) false) f)
          (omega arith)
        ∙ rw (==_false (kmalloc u) (kmalloc k) not_root) refl

    -- The end of the root leaves the state.
    root-end :
        (l : Leaf) (k tn : ℕ) (cs : Children) (f : ℕ → DtbNode)
        → f (kmalloc u) ≡ leaf_node l tn true
        → end_node (between s k tn (kmalloc u) cs f) ≡ ok tt (between s k tn (kmalloc u) cs f)
    unfolding end_node
    root-end l k tn cs f at = rw (end_node, ==_false (kmalloc u) 0 (some_address u), at) refl

    -- What the blocks of a root and its children do, from the empty tree on.
    pub flat-read :
        (root : Leaf) (ls : List Leaf)
        → perform_all kmalloc
            (flat_blocks root ls)
            (record s { tree = none; current = 0; found = false; used = u })
          ≡ ok tt (
              between s
                (u + 2 + 2 * length ls)
                (kmalloc (u + 1))
                (kmalloc u)
                (leaf_nodes kmalloc (u + 2) ls nil)
                (leaf_table kmalloc
                  (u + 2)
                  ls
                  (set_node (kmalloc u) (leaf_node root (kmalloc (u + 1)) true) s.nodes)))
    unfolding begin_node gentree_insert gentree_node_create
    flat-read root ls =
        let d = kmalloc u in
        let tn = kmalloc (u + 1) in
        let top : DtbNode = leaf_node root tn true in
        let own : set_node d top s.nodes d ≡ top = set_self d top s.nodes in
        let table : ℕ → DtbNode = leaf_table kmalloc (u + 2) ls (set_node d top s.nodes) in
        haves-add root.values (leaf_blocks ls (ends ∷ [])) (between s (u + 2) tn d nil s.nodes) d
          (record { name = root.name; props = []; tree_node = tn; root_node = true }) s.nodes
          (some_address u)
        ∙ leaves-read ls (ends ∷ []) (u + 2) nil (set_node d top s.nodes) (omega arith)
            (ap DtbNode.tree_node own)
        ∙ rw
            (root-end root (u + 2 + 2 * length ls) tn (leaf_nodes kmalloc (u + 2) ls nil) table
              (leaf_table-root ls (u + 2) (set_node d top s.nodes) (omega arith) ∙ own))
            refl
