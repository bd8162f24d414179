-- ===== src/Lists/Fronts.antt =====
-- list_remove_front.
use new_wiv_os.Base.{
  ℕ, suc, ◌+◌, ◌^◌, ◌<◌, true, false, Option, none, some, ◌≡◌, ◌≢◌, refl, sym, ◌∙◌, [], ◌∷◌, length,
  arith, ==_false,
}
use new_wiv_os.Base.Run.{Returns}
use new_wiv_os.Lists.{Ptr, null, Node, node, Store, write, lock, unlock, free, list_remove_front}
use new_wiv_os.Lists.Seg.{
  Cells, has, first, last, Seg, IsList, canon, IsList-canon, ne_of_has, frame,
}
use new_wiv_os.Lists.Ops.{load-ok, set_previous-ok, write_self, write_ne}

-- The cell c is gone: the list is xs, the node is freed, and only the list's nodes were written.
pub record Removed (s : Store) (before xs : Cells) (p : Ptr) (t : Store) : Type 0 where
  pub list : IsList t xs
  pub freed : t.nodes p ≡ none
  pub spares : (a : Ptr) → has a before ≡ false → t.nodes a ≡ s.nodes a

module _ (n : Ptr → Option Node) (p : Ptr) (v : ℕ) where
  remove_front-one :
      Seg n null ((p, v) ∷ []) null
      → Returns
          (list_remove_front (canon n ((p, v) ∷ [])))
          (λ r t. (r ≡ v) × Removed (canon n ((p, v) ∷ [])) ((p, v) ∷ []) [] p t)
  unfolding list_remove_front lock unlock free
  remove_front-one s =
      rw
        (
          ==_false p null s.0,
          load-ok p (record { nodes = n; length = 1; root = p; tail = p; locked = true })
              (node v null null) s.0 s.1,
        )
        (
          refl,
          record {
            list = record { root = refl; tail = refl; length = refl; chain = tt; unlocked = refl };
            freed = write_self n p none;
            spares = λ a h. write_ne n p none a (ground arith);
          },
        )

  remove_front-more :
      (q : Ptr) (w : ℕ) (xs : Cells)
      → length xs + 2 < 2 ^ 64
      → Seg n null ((p, v) ∷ (q, w) ∷ xs) null
      → Returns (list_remove_front (canon n ((p, v) ∷ (q, w) ∷ xs))) (λ r t.
        (r ≡ v) × Removed (canon n ((p, v) ∷ (q, w) ∷ xs)) ((p, v) ∷ (q, w) ∷ xs) ((q, w) ∷ xs) p t)
  unfolding list_remove_front lock unlock free
  remove_front-more q w xs room (ne, at, out, (ne', at', out', s)) =
      let l = last q xs in
      let s₁ : Store = record {
        nodes = n;
        length = suc (suc (length xs));
        root = p;
        tail = l;
        locked = true;
      } in
      let s₂ : Store = record {
        nodes = n;
        length = suc (suc (length xs));
        root = q;
        tail = l;
        locked = true;
      } in
      let m = write n q (some (node w null (first xs null))) in
      let apart : p ≢ q = ground arith in
      rw
        (
          ==_false p null ne,
          load-ok p s₁ (node v null q) ne at,
          ==_false q null ne',
          set_previous-ok q s₂ (node w p (first xs null)) ne' at' null,
        )
        (
          refl,
          record {
            list = record {
              root = refl;
              tail = refl;
              length = omega arith;
              unlocked = refl;
              chain = (
                ne',
                write_ne m p none q (λ e. apart (sym e)) ∙ write_self n q _,
                out',
                frame n (write m p none) q xs null
                    (λ a h.
                      write_ne m p none a (λ e. ne_of_has p a xs (ground arith) h (sym e))
                      ∙ write_ne n q _ a (λ e. ne_of_has q a xs out' h (sym e)))
                    s,
              );
            };
            freed = write_self m p none;
            spares = λ a h. write_ne m p none a (ground arith) ∙ write_ne n q _ a (ground arith);
          },
        )

-- For a list that is not empty, of fewer than 2 ^ 64 nodes, with its lock free,
-- list_remove_front returns the first value, frees its node, writes no node outside of the list,
-- and leaves the rest of the list with its lock free.
pub remove_front-cons :
    (s : Store) (p : Ptr) (v : ℕ) (xs : Cells)
    → length xs + 1 < 2 ^ 64
    → IsList s ((p, v) ∷ xs)
    → Returns (list_remove_front s) (λ r t. (r ≡ v) × Removed s ((p, v) ∷ xs) xs p t)
remove_front-cons s p v xs room is = rw (IsList-canon s _ is) (by_cells xs room is.chain)
  where
    by_cells :
        (ys : Cells)
        → length ys + 1 < 2 ^ 64
        → Seg s.nodes null ((p, v) ∷ ys) null
        → Returns
            (list_remove_front (canon s.nodes ((p, v) ∷ ys)))
            (λ r t. (r ≡ v) × Removed (canon s.nodes ((p, v) ∷ ys)) ((p, v) ∷ ys) ys p t)
    by_cells [] r c = remove_front-one s.nodes p v c
    by_cells ((q, w) ∷ ys) r c = remove_front-more s.nodes p v q w ys (omega arith) c
