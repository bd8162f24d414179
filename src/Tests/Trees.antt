-- ===== src/Tests/Trees.antt =====
-- A node that is inserted into a general tree of two nodes.
use new_wiv_os.Base.{◌≡◌, refl, arith, some}
use new_wiv_os.Base.Run.{ok, Returns}
use new_wiv_os.Trees.{node, nil, child, gentree_insert, gentree_get_parent, gentree_remove}
use new_wiv_os.Trees.Parents.{insert-remove}

insert-remove_example :
    Returns (gentree_insert 9 8 5 (some (node 7 1 (child (node 8 2 nil) nil)))) λ a t.
      (a ≡ 9)
      × (gentree_get_parent 9 t ≡ ok (some (8, 0)) t)
      × (gentree_remove 9 t ≡ ok tt (some (node 7 1 (child (node 8 2 nil) nil))))
insert-remove_example =
    insert-remove 9 8 5 (node 7 1 (child (node 8 2 nil) nil)) (omega arith) refl refl
