-- ===== src/Trees/Parents.antt =====
-- The parent of a node that was inserted, and its removal.
use new_wiv_os.Base.{
  ℕ, ◌+◌, ◌≡◌, ◌≢◌, refl, ◌∙◌, ap, arith, Bool, true, false, ◌||◌, ◌==◌, ==_iff, ==_false,
  Bool-cases, inl, inr, none, some,
}
use new_wiv_os.Base.Run.{ok, Returns}
use new_wiv_os.Trees.{
  Node, node, Children, nil, child, address_of, push_below, push_among, gentree_insert, position,
  parent_below, parent_among, gentree_get_parent, without, remove_below, remove_among,
  gentree_remove,
}

-- Whether an address is in the tree.
abbrev mutual
  pub has : ℕ → Node → Bool
  has x (node address value children) = address == x || has_among x children

  pub has_among : ℕ → Children → Bool
  has_among x nil = false
  has_among x (child t ts) = has x t || has_among x ts

or_left : (b c : Bool) → (b || c) ≡ false → b ≡ false
or_left b c h = ground arith

or_right : (b c : Bool) → (b || c) ≡ false → c ≡ false
or_right b c h = ground arith

-- An address that is not in the tree has no parent there.
position-absent : (x i : ℕ) (ts : Children) → has_among x ts ≡ false → position x i ts ≡ none
unfolding position
position-absent x i nil h = refl
position-absent x i (child (node address value children) ts) h =
    ground (arith, position-absent x (i + 1) ts)

mutual
  unfolding parent_below parent_among

  below-absent : (x : ℕ) (t : Node) → has x t ≡ false → parent_below x t ≡ none
  below-absent x (node address value children) h =
      ground (arith, position-absent x 0 children, among-absent x children)

  among-absent : (x : ℕ) (ts : Children) → has_among x ts ≡ false → parent_among x ts ≡ none
  among-absent x nil h = refl
  among-absent x (child t ts) h = ground (arith, below-absent x t, among-absent x ts)

-- Where the subroot is not in a tree, the tree stays.
mutual
  unfolding push_below push_among

  push_below-absent : (s : ℕ) (new t : Node) → has s t ≡ false → push_below s new t ≡ t
  push_below-absent s new (node address value children) h =
      ground (arith, push_among-absent s new children)

  push_among-absent :
      (s : ℕ) (new : Node) (ts : Children) → has_among s ts ≡ false → push_among s new ts ≡ ts
  push_among-absent s new nil h = refl
  push_among-absent s new (child t ts) h =
      ground (arith, push_below-absent s new t, push_among-absent s new ts)

-- A push keeps the addresses of the children of other nodes.
address_of-push : (s : ℕ) (new t : Node) → address_of (push_below s new t) ≡ address_of t
unfolding push_below
address_of-push s new (node address value children) = ground arith

pub parent_first :
    (x address v value : ℕ) (children : Children)
    → parent_below x (node address v (child (node x value nil) children)) ≡ some (address, 0)
unfolding parent_below
parent_first x address v value children = ground arith

parent_deeper :
    (x address v : ℕ) (children : Children)
    → position x 0 children ≡ none
    → parent_below x (node address v children) ≡ parent_among x children
unfolding parent_below
parent_deeper x address v children h = ground (arith, h)

among_found :
    (x : ℕ) (t : Node) (ts : Children) (s : ℕ)
    → parent_below x t ≡ some (s, 0)
    → parent_among x (child t ts) ≡ some (s, 0)
unfolding parent_among
among_found x t ts s h = ground (arith, h)

among_later :
    (x : ℕ) (t : Node) (ts : Children)
    → parent_below x t ≡ none
    → parent_among x (child t ts) ≡ parent_among x ts
unfolding parent_among
among_later x t ts h = ground (arith, h)

module _ (x s value : ℕ) where
  abbrev new_node : Node
  new_node = node x value nil

  -- Among children, none of which is the new node, the search starts with their own children.
  position-push :
      (i : ℕ) (ts : Children)
      → has_among x ts ≡ false
      → position x i (push_among s new_node ts) ≡ none
  unfolding position push_below
  position-push i nil h = refl
  position-push i (child (node address v children) ts) h = elim (Bool-cases (address == s)) [
    | inl here ↦ rw here (ground (arith, position-push (i + 1) ts))
    | inr there ↦ rw there (ground (arith, position-push (i + 1) ts))
  ]

  mutual
    unfolding parent_below push_below position

    parent-push :
        (t : Node)
        → has x t ≡ false
        → has s t ≡ true
        → parent_below x (push_below s new_node t) ≡ some (s, 0)
    parent-push (node address v children) new old = elim (Bool-cases (address == s)) [
      | inl here ↦ rw here (
          parent_first x address v value children
          ∙ ap (λ (a : ℕ). some (a, 0)) ((==_iff address s).0 here))
      | inr there ↦
          let absent : has_among x children ≡ false = or_right (address == x) _ new in
          let present : has_among s children ≡ true = ground (arith, there, old) in
          rw there (
            parent_deeper x address v (push_among s new_node children)
              (position-push 0 children absent)
            ∙ among-push children absent present)
    ]

    among-push :
        (ts : Children)
        → has_among x ts ≡ false
        → has_among s ts ≡ true
        → parent_among x (push_among s new_node ts) ≡ some (s, 0)
    among-push nil new old = cc
    among-push (child t ts) new old = elim (Bool-cases (has s t)) [
      | inl here ↦
          let found = parent-push t (or_left (has x t) _ new) here in
          among_found x (push_below s new_node t) (push_among s new_node ts) s found
      | inr there ↦
          let present : has_among s ts ≡ true = ground (arith, there, old) in
          rw (push_below-absent s new_node t there) (
            among_later x t (push_among s new_node ts) (below-absent x t (or_left (has x t) _ new))
            ∙ among-push ts (or_right (has x t) _ new) present)
    ]

-- Removing the first child of the subroot undoes a push.
mutual
  unfolding push_below remove_below without

  remove_below-push : (s : ℕ) (new t : Node) → remove_below s 0 (push_below s new t) ≡ t
  remove_below-push s new (node address v children) = elim (Bool-cases (address == s)) [
    | inl here ↦ rw (here, here) refl
    | inr there ↦ rw (there, there, remove_among-push s new children) refl
  ]

  remove_among-push :
      (s : ℕ) (new : Node) (ts : Children) → remove_among s 0 (push_among s new ts) ≡ ts
  remove_among-push s new nil = refl
  remove_among-push s new (child t ts) =
      rw (remove_below-push s new t, remove_among-push s new ts) refl

not_root :
    (x s : ℕ) (new t : Node) → has x t ≡ false → (x == address_of (push_below s new t)) ≡ false
not_root x s new (node address v children) h =
    ap (λ (a : ℕ). x == a) (address_of-push s new (node address v children)) ∙ ground (arith, h)

-- A node that is inserted below a node of the tree, at an address that the tree does not use, has
-- that node for its parent, as the first child; removing it gives the old tree back.
pub insert-remove :
    (x s value : ℕ) (root : Node)
    → s ≢ 0
    → has s root ≡ true
    → has x root ≡ false
    → Returns (gentree_insert x s value (some root)) λ a t.
      (a ≡ x)
      × (gentree_get_parent x t ≡ ok (some (s, 0)) t)
      × (gentree_remove x t ≡ ok tt (some root))
unfolding gentree_insert gentree_get_parent gentree_remove
insert-remove x s value root some_node old new =
    let parent : parent_below x (push_below s (node x value nil) root) ≡ some (s, 0) =
      parent-push x s value root new old in
    let other : (x == address_of (push_below s (node x value nil) root)) ≡ false =
      not_root x s (node x value nil) root new in
    rw (==_false s 0 some_node) (
      refl,
      rw (other, parent) refl,
      rw (other, parent) (ap (λ t. ok tt (some t)) (remove_below-push s (node x value nil) root)),
    )
