-- ===== src/Devtree/Nodes.antt =====
-- Which child dtb_find_node takes at each part of a path.
use new_wiv_os.Base.{
  ℕ, zero, suc, ◌+◌, true, false, if◌then◌else◌, some, List, [], ◌∷◌, get_elem?, ◌≡◌, refl, arith,
  Bool-cases, inl, inr, ==_refl, ==_false,
}
use new_wiv_os.Hashmap.{Key, same_key}
use new_wiv_os.Devtree.{Tree, Children, nil, child, name_of, matches, pick}

-- The children whose names match, in order.
unfoldable pub matching : Key → Children → List Tree
matching wanted nil = []
matching wanted (child t ts) =
    if matches (name_of t) wanted then t ∷ matching wanted ts else matching wanted ts

pick-matching_from :
    (wanted : Key) (k current : ℕ) (ts : Children)
    → (pick false wanted (current + k) current ts).0 ≡ get_elem? (matching wanted ts) k
unfolding pick matching
pick-matching_from wanted k current nil = refl
pick-matching_from wanted zero current (child t ts) =
    elim (Bool-cases (matches (name_of t) wanted)) [
      | inr other ↦ rw other (pick-matching_from wanted zero current ts)
      | inl same ↦ let at : current + 0 ≡ current = omega arith in rw (same, at, ==_refl current)
    ]
pick-matching_from wanted (suc k) current (child t ts) =
    elim (Bool-cases (matches (name_of t) wanted)) [
      | inr other ↦ rw other (pick-matching_from wanted (suc k) current ts)
      | inl same ↦
          let later : current + 1 + k ≡ current + suc k = omega arith in
          rw (==_false (current + suc k) current (omega arith), same)
            (rw later at (pick-matching_from wanted k (current + 1) ts))
    ]

-- Without `exact`, dtb_find_node's walk of the children takes number `index` of those that match.
pub pick-matching :
    (wanted : Key) (index : ℕ) (ts : Children)
    → (pick false wanted index 0 ts).0 ≡ get_elem? (matching wanted ts) index
pick-matching wanted index ts =
    let start : 0 + index ≡ index = omega arith in
    rw start at (pick-matching_from wanted index 0 ts)

-- With `exact`, a child that dtb_find_node's walk takes has another name than the wanted one.
pub pick_exact-same_key :
    (wanted : Key) (index current : ℕ) (ts : Children) (t : Tree)
    → (pick true wanted index current ts).0 ≡ some t
    → same_key (name_of t) wanted ≡ false
unfolding pick
pick_exact-same_key wanted index current nil t e = ground arith
pick_exact-same_key wanted index current (child u us) t e =
    ground (arith, pick_exact-same_key wanted index current us t)
