-- ===== src/Lists/Push.antt =====
-- list_push_back and list_push_front of kernel/utils/lists.c.
use new_wiv_os.Base.{
  ℕ, ◌+◌, ◌^◌, ◌<◌, true, false, Option, none, some, ◌≡◌, ◌≢◌, refl, sym, ◌∙◌, [], ◌∷◌, ◌++◌,
  length, length-append, arith, ==_refl, ==_false,
}
use new_wiv_os.Base.Run.{Returns}
use new_wiv_os.Lists.{
  Ptr, null, Node, node, Store, write, lock, unlock, store, list_push_back, list_push_front,
}
use new_wiv_os.Lists.Seg.{
  Cells, has, first, last, Seg, IsList, canon, IsList-canon, ne_of_has, ne-last, frame,
  not_has_of_none, last-ne-null, snoc, relink_last, node_at_last, last-append,
}
use new_wiv_os.Lists.Ops.{set_next-ok, set_previous-ok, store-ok, write_self, write_ne}

-- The nodes of neither the list nor `fresh` are written.
abbrev pub Spares : (Ptr → Option Node) → Cells → Ptr → Store → Type 0
Spares n xs fresh t = (a : Ptr) → has a xs ≡ false → a ≢ fresh → t.nodes a ≡ n a

module _ (fresh : Ptr) (v : ℕ) (n : Ptr → Option Node) (ne : fresh ≢ null)
    (unused : n fresh ≡ none) where
  push_back-nil :
      Returns
        (list_push_back fresh v (canon n []))
        (λ p t. (p ≡ fresh) × IsList t ((fresh, v) ∷ []) × Spares n [] fresh t)
  unfolding list_push_back lock unlock store write
  push_back-nil = rw (==_false fresh null ne) (
    refl,
    record {
      root = refl;
      tail = refl;
      length = refl;
      unlocked = refl;
      chain = (ne, rw (==_refl fresh) refl, refl, tt);
    },
    ground arith,
  )

  push_back-cons :
      (p : Ptr) (w : ℕ) (xs : Cells)
      → length xs + 2 < 2 ^ 64
      → Seg n null ((p, w) ∷ xs) null
      → Returns (list_push_back fresh v (canon n ((p, w) ∷ xs))) (λ q t.
        (q ≡ fresh) × IsList t (((p, w) ∷ xs) ++ (fresh, v) ∷ []) × Spares n ((p, w) ∷ xs) fresh t)
  unfolding list_push_back lock unlock
  push_back-cons p w xs room s =
      let cells = (p, w) ∷ xs in
      let l = last p xs in
      let (y, q, at) = node_at_last n null p w xs null s in
      let ne_l : l ≢ null = last-ne-null n null p w xs null s in
      let out : has fresh cells ≡ false = not_has_of_none n fresh null cells null unused s in
      let apart : l ≢ fresh = cc (at, unused) in
      let m₁ = write n fresh (some (node v l null)) in
      let s₁ : Store = record {
        nodes = m₁;
        length = length cells;
        root = p;
        tail = l;
        locked = true;
      } in
      let at₁ : m₁ l ≡ some (node y q null) = write_ne n fresh _ l apart ∙ at in
      let m = write m₁ l (some (node y q fresh)) in
      let at_fresh : m fresh ≡ some (node v l null) =
        write_ne m₁ l _ fresh (λ e. apart (sym e)) ∙ write_self n fresh _ in
      rw
        (
          store-ok fresh _ _ ne,
          ==_false l null ne_l,
          set_next-ok l s₁ (node y q null) ne_l at₁ fresh,
          ==_false p null s.0,
        )
        (
          refl,
          record {
            root = refl;
            tail = rw last-append refl;
            length = omega (arith, length-append xs ((fresh, v) ∷ []));
            unlocked = refl;
            chain = snoc m null cells fresh v null ne out at_fresh (
                relink_last n m null p w xs null fresh
                  (λ a h far.
                    write_ne m₁ l _ a far
                    ∙ write_ne n fresh _ a (λ e. ne_of_has fresh a cells out h (sym e)))
                  (λ w' q' e. write_self m₁ l _ ∙ ground (arith, at, e)) s);
          },
          λ a h far. write_ne m₁ l _ a (ne-last a null p w xs h) ∙ write_ne n fresh _ a far,
        )

  push_front-nil :
      Returns
        (list_push_front fresh v (canon n []))
        (λ p t. (p ≡ fresh) × IsList t ((fresh, v) ∷ []) × Spares n [] fresh t)
  unfolding list_push_front lock unlock
  push_front-nil = rw (store-ok fresh _ _ ne) (
    refl,
    record {
      root = refl;
      tail = refl;
      length = refl;
      unlocked = refl;
      chain = (ne, write_self n fresh _, refl, tt);
    },
    λ a h far. write_ne n fresh _ a far,
  )

  push_front-cell :
      (p : Ptr) (w : ℕ) (xs : Cells)
      → length xs + 2 < 2 ^ 64
      → Seg n null ((p, w) ∷ xs) null
      → Returns (list_push_front fresh v (canon n ((p, w) ∷ xs))) (λ q t.
        (q ≡ fresh) × IsList t ((fresh, v) ∷ (p, w) ∷ xs) × Spares n ((p, w) ∷ xs) fresh t)
  unfolding list_push_front lock unlock
  push_front-cell p w xs room s =
      let cells = (p, w) ∷ xs in
      let out : has fresh cells ≡ false = not_has_of_none n fresh null cells null unused s in
      let apart : p ≢ fresh = cc (s.1, unused) in
      let m₁ = write n fresh (some (node v null p)) in
      let s₁ : Store = record {
        nodes = m₁;
        length = length cells;
        root = p;
        tail = last p xs;
        locked = true;
      } in
      let at₁ : m₁ p ≡ some (node w null (first xs null)) = write_ne n fresh _ p apart ∙ s.1 in
      let m = write m₁ p (some (node w fresh (first xs null))) in
      rw
        (
          store-ok fresh _ _ ne,
          ==_false p null s.0,
          set_previous-ok p s₁ (node w null (first xs null)) s.0 at₁ fresh,
        )
        (
          refl,
          record {
            root = refl;
            tail = refl;
            length = omega arith;
            unlocked = refl;
            chain = (
              ne,
              write_ne m₁ p _ fresh (λ e. apart (sym e)) ∙ write_self n fresh _,
              out,
              (
                s.0,
                write_self m₁ p _,
                s.2,
                frame n m p xs null
                    (λ a h.
                      write_ne m₁ p _ a (λ e. ne_of_has p a xs s.2 h (sym e))
                      ∙ write_ne n fresh _ a
                          (λ e. ne_of_has fresh a cells out (ground arith) (sym e)))
                    s.3,
              ),
            );
          },
          λ a h far. write_ne m₁ p _ a (ground arith) ∙ write_ne n fresh _ a far,
        )

module _ (fresh : Ptr) (v : ℕ) (s : Store) (xs : Cells) (ne : fresh ≢ null)
    (unused : s.nodes fresh ≡ none) (room : length xs + 1 < 2 ^ 64) (is : IsList s xs) where
  -- Given an unused address that is not NULL and a list of fewer than 2 ^ 64 - 1 nodes with its
  -- lock free, list_push_back puts the value behind the list in a node at that address, writes
  -- no other node outside of the list, and gives the lock back.
  pub push_back-append :
      Returns
        (list_push_back fresh v s)
        (λ p t. (p ≡ fresh) × IsList t (xs ++ (fresh, v) ∷ []) × Spares s.nodes xs fresh t)
  push_back-append = rw (IsList-canon s xs is) (by_cells xs room is.chain)
    where
      by_cells :
          (ys : Cells)
          → length ys + 1 < 2 ^ 64
          → Seg s.nodes null ys null
          → Returns
              (list_push_back fresh v (canon s.nodes ys))
              (λ p t. (p ≡ fresh) × IsList t (ys ++ (fresh, v) ∷ []) × Spares s.nodes ys fresh t)
      by_cells [] r c = push_back-nil fresh v s.nodes ne unused
      by_cells ((p, w) ∷ ys) r c = push_back-cons fresh v s.nodes ne unused p w ys (omega arith) c

  -- Given an unused address that is not NULL and a list of fewer than 2 ^ 64 - 1 nodes with its
  -- lock free, list_push_front puts the value in front of the list in a node at that address,
  -- writes no other node outside of the list, and gives the lock back.
  pub push_front-cons :
      Returns
        (list_push_front fresh v s)
        (λ p t. (p ≡ fresh) × IsList t ((fresh, v) ∷ xs) × Spares s.nodes xs fresh t)
  push_front-cons = rw (IsList-canon s xs is) (by_cells xs room is.chain)
    where
      by_cells :
          (ys : Cells)
          → length ys + 1 < 2 ^ 64
          → Seg s.nodes null ys null
          → Returns
              (list_push_front fresh v (canon s.nodes ys))
              (λ p t. (p ≡ fresh) × IsList t ((fresh, v) ∷ ys) × Spares s.nodes ys fresh t)
      by_cells [] r c = push_front-nil fresh v s.nodes ne unused
      by_cells ((p, w) ∷ ys) r c = push_front-cell fresh v s.nodes ne unused p w ys (omega arith) c
