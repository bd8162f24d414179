-- ===== src/Lists/Remove.antt =====
-- list_remove_back, list_pop, list_remove and list_remove_indexed.
use new_wiv_os.Base.{
  ℕ, ◌+◌, ◌^◌, ◌<◌, true, false, Option, none, some, ◌≡◌, ◌≢◌, refl, sym, ◌∙◌, [], ◌∷◌, ◌++◌,
  length, length-append, arith, ==_false,
}
use new_wiv_os.Base.Run.{Returns}
use new_wiv_os.Lists.{
  Ptr, null, Node, node, Store, write, lock, unlock, free, list_remove_back, list_pop,
}
use new_wiv_os.Lists.Seg.{
  Cells, has, first, last, Seg, IsList, not_has-snoc, ne_of_has, ne-last, frame, last-ne-null,
  unsnoc, relink_last, node_at_last, last-append, first-append,
}
use new_wiv_os.Lists.Ops.{load-ok, set_next-ok, write_self, write_ne}
use new_wiv_os.Lists.Fronts.{Removed}

-- The store of a list whose last cell is f.
abbrev pub ends_in : (Ptr → Option Node) → Cells → Ptr → Store
ends_in n xs f = record {
  nodes = n;
  length = length xs + 1;
  root = first xs f;
  tail = f;
  locked = false;
}

pub IsList-ends_in :
    (s : Store) (xs : Cells) (f : Ptr) (w : ℕ)
    → IsList s (xs ++ (f, w) ∷ [])
    → s ≡ ends_in s.nodes xs f
IsList-ends_in s xs f w is = ground (
  arith,
  is.root,
  is.tail,
  is.length,
  is.unlocked,
  first-append xs ((f, w) ∷ []) null,
  last-append null xs ((f, w) ∷ []),
  length-append xs ((f, w) ∷ []),
)

pub ends_in-IsList :
    (n : Ptr → Option Node) (xs : Cells) (f : Ptr) (w : ℕ)
    → Seg n null (xs ++ (f, w) ∷ []) null
    → IsList (ends_in n xs f) (xs ++ (f, w) ∷ [])
ends_in-IsList n xs f w s = record {
  root = sym (first-append xs ((f, w) ∷ []) null);
  tail = sym (last-append null xs ((f, w) ∷ []));
  length = sym (length-append xs ((f, w) ∷ []));
  chain = s;
  unlocked = refl;
}

module _ (n : Ptr → Option Node) (f : Ptr) (w : ℕ) where
  -- What list_remove_back and list_pop share: the node before f ends the list.
  module _ (p : Ptr) (v : ℕ) (xs : Cells) (s : Seg n null ((p, v) ∷ xs ++ (f, w) ∷ []) null) where
    abbrev l : Ptr
    l = last p xs

    cut :
        (ne : f ≢ null) × (has f ((p, v) ∷ xs) ≡ false)
        × (n f ≡ some (node w (last p xs) null))
        × Seg n null ((p, v) ∷ xs) f
    cut = unsnoc n null ((p, v) ∷ xs) f w null s

    ended :
        (y : ℕ) × (q : Ptr) × (n (last p xs) ≡ some (node y q f))
        × Seg (write n (last p xs) (some (node y q null))) null ((p, v) ∷ xs) null
    ended =
        let (y, q, at) = node_at_last n null p v xs f cut.3 in
        (
          y,
          q,
          at,
          relink_last n (write n (last p xs) (some (node y q null))) null p v xs f null
              (λ a h far. write_ne n (last p xs) _ a far)
              (λ w' q' e. write_self n (last p xs) _ ∙ ground (arith, at, e)) cut.3,
        )

    remove_back-more :
        length xs + 2 < 2 ^ 64
        → Returns (list_remove_back (ends_in n ((p, v) ∷ xs) f)) (λ r t.
          (r ≡ w)
          × Removed (ends_in n ((p, v) ∷ xs) f) ((p, v) ∷ xs ++ (f, w) ∷ []) ((p, v) ∷ xs) f t)
    unfolding list_remove_back lock unlock free
    remove_back-more room =
        let (ne, out, at, front) = cut in
        let (y, q, at_l, chain) = ended in
        let ne_l : last p xs ≢ null = last-ne-null n null p v xs f front in
        let far : f ≢ last p xs = ne-last f null p v xs out in
        let k = length ((p, v) ∷ xs) + 1 in
        let s₁ : Store = record { nodes = n; length = k; root = p; tail = f; locked = true } in
        let s₂ : Store = record {
          nodes = n;
          length = k;
          root = p;
          tail = last p xs;
          locked = true;
        } in
        let m = write n (last p xs) (some (node y q null)) in
        rw
          (
            ==_false f null ne,
            load-ok f s₁ (node w (last p xs) null) ne at,
            ==_false (last p xs) null ne_l,
            set_next-ok (last p xs) s₂ (node y q f) ne_l at_l null,
          )
          (
            refl,
            record {
              list = record {
                root = refl;
                tail = refl;
                length = omega arith;
                unlocked = refl;
                chain =
                    frame m (write m f none) null ((p, v) ∷ xs) null
                      (λ a h. write_ne m f none a (λ e. ne_of_has f a ((p, v) ∷ xs) out h (sym e)))
                      chain;
              };
              freed = write_self m f none;
              spares = λ a h.
                  let (far', out') = not_has-snoc a f w ((p, v) ∷ xs) h in
                  write_ne m f none a far'
                  ∙ write_ne n (last p xs) _ a (ne-last a null p v xs out');
            },
          )

    pop-more :
        length xs + 2 < 2 ^ 64
        → Returns
            (list_pop (ends_in n ((p, v) ∷ xs) f))
            (λ r t. (r ≡ f) × IsList t ((p, v) ∷ xs) × (t.nodes f ≡ n f))
    unfolding list_pop lock unlock
    pop-more room =
        let (ne, out, at, front) = cut in
        let (y, q, at_l, chain) = ended in
        let ne_l : last p xs ≢ null = last-ne-null n null p v xs f front in
        let k = length ((p, v) ∷ xs) + 1 in
        let s₁ : Store = record { nodes = n; length = k; root = p; tail = f; locked = true } in
        let s₂ : Store = record {
          nodes = n;
          length = k;
          root = p;
          tail = last p xs;
          locked = true;
        } in
        rw
          (
            ==_false f null ne,
            load-ok f s₁ (node w (last p xs) null) ne at,
            ==_false (last p xs) null ne_l,
            set_next-ok (last p xs) s₂ (node y q f) ne_l at_l null,
          )
          (
            refl,
            record {
              root = refl;
              tail = refl;
              length = omega arith;
              unlocked = refl;
              chain = chain;
            },
            write_ne n (last p xs) _ f (ne-last f null p v xs out),
          )

  remove_back-one :
      Seg n null ((f, w) ∷ []) null
      → Returns
          (list_remove_back (ends_in n [] f))
          (λ r t. (r ≡ w) × Removed (ends_in n [] f) ((f, w) ∷ []) [] f t)
  unfolding list_remove_back lock unlock free
  remove_back-one s =
      rw
        (
          ==_false f null s.0,
          load-ok f (record { nodes = n; length = 0 + 1; root = f; tail = f; locked = true })
              (node w null null) s.0 s.1,
        )
        (
          refl,
          record {
            list = record { root = refl; tail = refl; length = refl; chain = tt; unlocked = refl };
            freed = write_self n f none;
            spares = λ a h. write_ne n f none a (ground arith);
          },
        )

  pop-one :
      Seg n null ((f, w) ∷ []) null
      → Returns (list_pop (ends_in n [] f)) (λ r t. (r ≡ f) × IsList t [] × (t.nodes f ≡ n f))
  unfolding list_pop lock unlock
  pop-one s =
      rw
        (
          ==_false f null s.0,
          load-ok f (record { nodes = n; length = 0 + 1; root = f; tail = f; locked = true })
              (node w null null) s.0 s.1,
        )
        (
          refl,
          record { root = refl; tail = refl; length = refl; chain = tt; unlocked = refl },
          refl,
        )

module _ (s : Store) (xs : Cells) (f : Ptr) (w : ℕ) (room : length xs + 1 < 2 ^ 64)
    (is : IsList s (xs ++ (f, w) ∷ [])) where
  -- For a list that is not empty, of fewer than 2 ^ 64 nodes, with its lock free,
  -- list_remove_back returns the last value, frees its node, writes no node outside of the list,
  -- and leaves the front of the list with its lock free.
  pub remove_back-append :
      Returns (list_remove_back s) (λ r t. (r ≡ w) × Removed s (xs ++ (f, w) ∷ []) xs f t)
  remove_back-append = rw (IsList-ends_in s xs f w is) (by_cells xs room is.chain)
    where
      by_cells :
          (ys : Cells)
          → length ys + 1 < 2 ^ 64
          → Seg s.nodes null (ys ++ (f, w) ∷ []) null
          → Returns
              (list_remove_back (ends_in s.nodes ys f))
              (λ r t. (r ≡ w) × Removed (ends_in s.nodes ys f) (ys ++ (f, w) ∷ []) ys f t)
      by_cells [] r c = remove_back-one s.nodes f w c
      by_cells ((p, v) ∷ ys) r c = remove_back-more s.nodes f w p v ys c (omega arith)

  -- list_pop returns the last node, which stays allocated as it was, and takes it off the list.
  pub pop-append : Returns (list_pop s) (λ r t. (r ≡ f) × IsList t xs × (t.nodes f ≡ s.nodes f))
  pop-append = rw (IsList-ends_in s xs f w is) (by_cells xs room is.chain)
    where
      by_cells :
          (ys : Cells)
          → length ys + 1 < 2 ^ 64
          → Seg s.nodes null (ys ++ (f, w) ∷ []) null
          → Returns
              (list_pop (ends_in s.nodes ys f))
              (λ r t. (r ≡ f) × IsList t ys × (t.nodes f ≡ s.nodes f))
      by_cells [] r c = pop-one s.nodes f w c
      by_cells ((p, v) ∷ ys) r c = pop-more s.nodes f w p v ys c (omega arith)
