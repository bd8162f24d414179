-- ===== src/Tests/Chains.antt =====
-- Runs of the list operations on a list of three nodes.
use new_wiv_os.Base.{◌≡◌, refl, arith, ◌==◌, false, if◌then◌else◌, [], ◌∷◌, Option, none, some}
use new_wiv_os.Base.Run.{Returns}
use new_wiv_os.Lists.{Ptr, Node, Store, node, list_remove}
use new_wiv_os.Lists.Seg.{Cells, IsList}
use new_wiv_os.Lists.Fronts.{Removed}
use new_wiv_os.Lists.Unlink.{remove-append}

abbrev chain : Ptr → Option Node
chain a =
    if a == 8
    then some (node 10 0 16)
    else if a == 16
    then some (node 20 8 24)
    else if a == 24
    then some (node 30 16 0)
    else none

abbrev three : Store
three = record { nodes = chain; length = 3; root = 8; tail = 24; locked = false }

abbrev cells : Cells
cells = (8, 10) ∷ (16, 20) ∷ (24, 30) ∷ []

abbrev three-IsList : IsList three cells
three-IsList = record {
  root = refl;
  tail = refl;
  length = refl;
  chain = (omega arith, refl, refl, (omega arith, refl, refl, (omega arith, refl, refl, tt)));
  unlocked = refl;
}

remove-append_example :
    Returns
      (list_remove 16 three)
      (λ r t. (r ≡ 20) × Removed three cells ((8, 10) ∷ (24, 30) ∷ []) 16 t)
remove-append_example =
    remove-append three ((8, 10) ∷ []) 16 20 ((24, 30) ∷ []) (omega arith) three-IsList
