-- ===== src/Trees.antt =====
-- The general trees of kernel/utils/lists.c. A node is its address with its value and its list of
-- children; two pointers are equal where the addresses are. The lists' cells are those of Lists, and
-- the locks, taken and released inside each function, are left out.
pub mod Parents
use new_wiv_os.Base.{
  ℕ, zero, suc, ◌+◌, Bool, true, false, ◌||◌, if◌then◌else◌, ◌==◌, Option, none, some,
}
use new_wiv_os.Base.Run.{Run, ok, fault, Cmd}

mutual
  -- gentree_node_t
  pub data Node : Type 0 where
    node : (address value : ℕ) → Children → Node

  pub data Children : Type 0 where
    nil : Children
    child : Node → Children → Children

abbrev pub address_of : Node → ℕ
address_of (node address value children) = address

-- gentree_t, by its root.
abbrev pub Gentree : Type 0
Gentree = Option Node

unfoldable pub gentree_create : Gentree
gentree_create = none

unfoldable pub gentree_node_create : ℕ → ℕ → Node
gentree_node_create fresh value = node fresh value nil

-- list_push_front(subroot->children, node), in the tree
unfoldable mutual
  pub push_below : ℕ → Node → Node → Node
  push_below subroot new (node address value children) =
      if address == subroot
      then node address value (child new children)
      else node address value (push_among subroot new children)

  pub push_among : ℕ → Node → Children → Children
  push_among subroot new nil = nil
  push_among subroot new (child t ts) = child (push_below subroot new t) (push_among subroot new ts)

-- gentree_insert of a node at `fresh`, which kmalloc returns; the answer is its address.
unfoldable pub gentree_insert : ℕ → ℕ → ℕ → Cmd Gentree ℕ
unfolding gentree_node_create push_below
gentree_insert fresh subroot value none = ok fresh (some (gentree_node_create fresh value))
gentree_insert fresh subroot value (some root) =
    if subroot == 0
    then fault
    else ok fresh (some (push_below subroot (gentree_node_create fresh value) root))

-- list_contains(subroot->children, node), counted from `index`
unfoldable pub position : ℕ → ℕ → Children → Option ℕ
position address index nil = none
position address index (child t ts) =
    if address_of t == address then some index else position address (index + 1) ts

-- gentree_get_parent_recursive: the parent's address and the index, or none for NULL.
unfoldable mutual
  unfolding position

  pub parent_below : ℕ → Node → Option (ℕ × ℕ)
  parent_below address (node subroot value children) =
      let deeper = parent_among address children in
      elim (position address 0 children) [ some index ↦ some (subroot, index) | none ↦ deeper ]

  pub parent_among : ℕ → Children → Option (ℕ × ℕ)
  parent_among address nil = none
  parent_among address (child t ts) =
      let later = parent_among address ts in
      elim (parent_below address t) [ some found ↦ some found | none ↦ later ]

-- gentree_get_parent of a node that is not NULL; an empty tree's root is read.
unfoldable pub gentree_get_parent : ℕ → Cmd Gentree (Option (ℕ × ℕ))
unfolding parent_below
gentree_get_parent address none = fault
gentree_get_parent address (some root) =
    if address == address_of root
    then ok none (some root)
    else ok (parent_below address root) (some root)

-- list_remove_indexed(parent->children, index), in the tree
unfoldable pub without : ℕ → Children → Children
without index nil = nil
without zero (child t ts) = ts
without (suc index) (child t ts) = child t (without index ts)

unfoldable mutual
  unfolding without

  pub remove_below : ℕ → ℕ → Node → Node
  remove_below parent index (node address value children) =
      if address == parent
      then node address value (without index children)
      else node address value (remove_among parent index children)

  pub remove_among : ℕ → ℕ → Children → Children
  remove_among parent index nil = nil
  remove_among parent index (child t ts) =
      child (remove_below parent index t) (remove_among parent index ts)

-- gentree_remove. The root, and a node that is not in the tree, stay.
unfoldable pub gentree_remove : ℕ → Cmd Gentree (Unit {0})
unfolding parent_below remove_below
gentree_remove address none = fault
gentree_remove address (some root) =
    if address == address_of root then ok tt (some root) else elim (parent_below address root) [
      | none ↦ ok tt (some root)
      | some (parent, index) ↦ ok tt (some (remove_below parent index root))
    ]
