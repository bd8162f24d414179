-- ===== src/Lists/Ops.antt =====
-- The reads and writes through a pointer that a node lives at.
use native.Mathlib.Omega.{arith}
use new_wiv_os.Base.{Option, some, ◌≡◌, ◌≢◌, refl, ==_false}
use new_wiv_os.Base.Run.{ok, fault}
use new_wiv_os.Lists.{Ptr, null, Node, Store, write, load, store, set_next, set_previous}

module _ (p : Ptr) (s : Store) (x : Node) (ne : p ≢ null) (at : s.nodes p ≡ some x) where
  pub load-ok : load p s ≡ ok x s
  unfolding load
  load-ok = rw (==_false p null ne, at)

  pub set_next-ok :
      (q : Ptr)
      → set_next p q s ≡ ok tt (record s { nodes = write s.nodes p (some (record x { next = q })) })
  unfolding set_next store
  set_next-ok q = rw (load-ok, ==_false p null ne)

  pub set_previous-ok :
      (q : Ptr)
      → set_previous p q s
        ≡ ok tt (record s { nodes = write s.nodes p (some (record x { previous = q })) })
  unfolding set_previous store
  set_previous-ok q = rw (load-ok, ==_false p null ne)

pub store-ok :
    (p : Ptr) (s : Store) (x : Node)
    → p ≢ null
    → store p x s ≡ ok tt (record s { nodes = write s.nodes p (some x) })
unfolding store
store-ok p s x ne = rw (==_false p null ne)

pub load-null : (s : Store) → load null s ≡ fault
unfolding load
load-null s = refl

pub write_self : (n : Ptr → Option Node) (p : Ptr) (c : Option Node) → write n p c p ≡ c
unfolding write
write_self n p c = ground arith

pub write_ne :
    (n : Ptr → Option Node) (p : Ptr) (c : Option Node) (a : Ptr) → a ≢ p → write n p c a ≡ n a
unfolding write
write_ne n p c a ne = rw (==_false a p ne)
