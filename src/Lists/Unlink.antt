-- ===== src/Lists/Unlink.antt =====
-- list_remove of a node inside the list, and list_remove of any node of the list.
use new_wiv_os.Base.{
  ℕ, suc, ◌+◌, ◌^◌, ◌<◌, Bool, true, false, Option, none, some, ◌≡◌, ◌≢◌, refl, sym, ◌∙◌, [], ◌∷◌,
  ◌++◌, length, length-append, arith, ==_refl, ==_false,
}
use new_wiv_os.Base.Run.{Returns, Returns-and_then}
use new_wiv_os.Lists.{
  Ptr, null, Node, node, Store, write, lock, unlock, free, list_remove_back, list_remove_front,
  list_remove,
}
use new_wiv_os.Lists.Seg.{
  Cells, has, first, last, Seg, IsList, canon, IsList-canon, canon-IsList, has-last, ne_of_has,
  ne-last, frame, last-ne-null, unsnoc, split, append, relink_last, node_at_last, last-append,
  not_has-cons, not_has-append, has-cons_tail,
}
use new_wiv_os.Lists.Ops.{load-ok, set_next-ok, set_previous-ok, write_self, write_ne}
use mathlib.Core.List.{append-nil}
use new_wiv_os.Lists.Fronts.{Removed, remove_front-cons}
use new_wiv_os.Lists.Remove.{ends_in, IsList-ends_in, ends_in-IsList, remove_back-append}

module _ (n : Ptr → Option Node) (p : Ptr) (v : ℕ) (xs : Cells) (f : Ptr) (w : ℕ) (q : Ptr) (u : ℕ)
    (ys : Cells) where
  abbrev before : Cells
  before = (p, v) ∷ xs

  abbrev behind : Cells
  behind = (q, u) ∷ ys

  abbrev middle : ℕ → Bool → Store
  middle k b = record { nodes = n; length = k; root = p; tail = last q ys; locked = b }

  module _ (s : Seg n null (before ++ (f, w) ∷ behind) null) where
    parts :
        Seg n null before f
        × Seg n (last p xs) ((f, w) ∷ behind) null
        × ((a : Ptr) → has a before ≡ true → has a ((f, w) ∷ behind) ≡ false)
    parts = split n null before ((f, w) ∷ behind) null s

    unlink :
        (k : ℕ)
        → suc k < 2 ^ 64
        → k ≡ length (before ++ behind)
        → Returns (list_remove f (middle (suc k) false)) (λ r t.
          (r ≡ w)
          × Removed (middle (suc k) false) (before ++ (f, w) ∷ behind) (before ++ behind) f t)
    unfolding list_remove lock unlock free
    unlink k room count =
        let (front, (ne_f, at_f, out_f, (ne_q, at_q, out_q, back)), apart) = parts in
        let l = last p xs in
        let (y, r, at_l) = node_at_last n null p v xs f front in
        let ne_l : l ≢ null = last-ne-null n null p v xs f front in
        let l_out = not_has-cons l f w behind (apart l (has-last null p v xs)) in
        let l_q = (not_has-cons l q u ys l_out.1).0 in
        let p_out = not_has-cons p f w behind (apart p (ground arith)) in
        let f_q = (not_has-cons f q u ys out_f).0 in
        let m₁ = write n l (some (node y r q)) in
        let m₂ = write m₁ q (some (node u l (first ys null))) in
        let m₃ = write m₂ f none in
        let s₁ = record (middle (suc k) true) { nodes = m₁ } in
        let keep : (a : Ptr) → a ≢ l → a ≢ q → a ≢ f → m₃ a ≡ n a =
          λ a al aq af. write_ne m₂ f none a af ∙ write_ne m₁ q _ a aq ∙ write_ne n l _ a al in
        rw
          (
            load-ok f (middle (suc k) true) (node w l q) ne_f at_f,
            ==_false f p (λ e. p_out.0 (sym e)),
            ==_false f (last q ys) (ne-last f f q u ys out_f),
            set_next-ok l (middle (suc k) true) (node y r f) ne_l at_l q,
            load-ok f s₁ (node w l q) ne_f (write_ne n l _ f (λ e. l_out.0 (sym e)) ∙ at_f),
            set_previous-ok q s₁ (node u f (first ys null)) ne_q
                (write_ne n l _ q (λ e. l_q (sym e)) ∙ at_q) l,
          )
          (
            refl,
            record {
              list = record {
                root = refl;
                tail = sym (last-append p xs behind);
                length = omega arith;
                unlocked = refl;
                chain =
                    append m₃ null before behind null
                      (λ a h. (not_has-cons a f w behind (apart a h)).1)
                      (relink_last n m₃ null p v xs f q
                        (λ a h far.
                          let a_out = not_has-cons a f w behind (apart a h) in
                          keep a far (not_has-cons a q u ys a_out.1).0 a_out.0)
                        (λ w' q' e.
                          write_ne m₂ f none l l_out.0
                          ∙ write_ne m₁ q _ l l_q
                          ∙ write_self n l _
                          ∙ ground (arith, at_l, e))
                        front)
                      (
                        ne_q,
                        write_ne m₂ f none q (λ e. f_q (sym e)) ∙ write_self m₁ q _,
                        out_q,
                        frame n m₃ q ys null
                            (λ a h.
                              keep a
                                (λ e.
                                  ne_of_has l a behind l_out.1 (has-cons_tail a q u ys h) (sym e))
                                (λ e. ne_of_has q a ys out_q h (sym e))
                                (λ e.
                                  ne_of_has f a behind out_f (has-cons_tail a q u ys h) (sym e)))
                            back,
                      );
              };
              freed = write_self m₂ f none;
              spares = λ a h.
                  let (in_front, in_back) = not_has-append a before ((f, w) ∷ behind) h in
                  let a_out = not_has-cons a f w behind in_back in
                  keep a (ne-last a null p v xs in_front) (not_has-cons a q u ys a_out.1).0 a_out.0;
            },
          )

-- The node is the first one: the code unlocks and calls list_remove_front.
at_front :
    (n : Ptr → Option Node) (f : Ptr) (w : ℕ) (ys : Cells)
    → length ys + 1 < 2 ^ 64
    → Seg n null ((f, w) ∷ ys) null
    → Returns
        (list_remove f (canon n ((f, w) ∷ ys)))
        (λ r t. (r ≡ w) × Removed (canon n ((f, w) ∷ ys)) ((f, w) ∷ ys) ys f t)
unfolding list_remove lock unlock
at_front n f w ys room s =
    let held : Store = record (canon n ((f, w) ∷ ys)) { locked = true } in
    rw (load-ok f held (node w null (first ys null)) s.0 s.1, ==_refl f)
      (Returns-and_then (list_remove_front (canon n ((f, w) ∷ ys))) _ _ _
        (remove_front-cons (canon n ((f, w) ∷ ys)) f w ys room (canon-IsList n _ s))
        (λ r t h. (refl, h.1)))

-- The node is the last one of several: the code unlocks and calls list_remove_back.
at_back :
    (n : Ptr → Option Node) (p : Ptr) (v : ℕ) (xs : Cells) (f : Ptr) (w : ℕ)
    → length xs + 2 < 2 ^ 64
    → Seg n null ((p, v) ∷ xs ++ (f, w) ∷ []) null
    → Returns (list_remove f (ends_in n ((p, v) ∷ xs) f)) (λ r t.
      (r ≡ w) × Removed (ends_in n ((p, v) ∷ xs) f) ((p, v) ∷ xs ++ (f, w) ∷ []) ((p, v) ∷ xs) f t)
unfolding list_remove lock unlock
at_back n p v xs f w room s =
    let store : Store = ends_in n ((p, v) ∷ xs) f in
    let held : Store = record store { locked = true } in
    let (ne, out, at, front) = unsnoc n null ((p, v) ∷ xs) f w null s in
    rw
      (
        load-ok f held (node w (last p xs) null) ne at,
        ==_false f p (not_has-cons f p v xs out).0,
        ==_refl f,
      )
      (Returns-and_then (list_remove_back store) _ _ _
        (remove_back-append store ((p, v) ∷ xs) f w (omega arith)
          (ends_in-IsList n ((p, v) ∷ xs) f w s))
        (λ r t h. (refl, h.1)))

-- For a list of fewer than 2 ^ 64 nodes with its lock free, list_remove of any node of it
-- returns the node's value, takes it out of the list, frees it, writes no node outside of the
-- list, and leaves the lock free.
pub remove-append :
    (s : Store) (xs : Cells) (f : Ptr) (w : ℕ) (ys : Cells)
    → length (xs ++ ys) + 1 < 2 ^ 64
    → IsList s (xs ++ (f, w) ∷ ys)
    → Returns (list_remove f s) (λ r t. (r ≡ w) × Removed s (xs ++ (f, w) ∷ ys) (xs ++ ys) f t)
remove-append s [] f w ys room is = rw (IsList-canon s _ is) (at_front s.nodes f w ys room is.chain)
remove-append s ((p, v) ∷ xs) f w [] room is =
    rw (append-nil, IsList-ends_in s ((p, v) ∷ xs) f w is)
      (at_back s.nodes p v xs f w (omega (arith, length-append xs [])) is.chain)
remove-append s ((p, v) ∷ xs) f w ((q, u) ∷ ys) room is = rw (as_middle) (
    unlink s.nodes p v xs f w q u ys is.chain (length ((p, v) ∷ xs ++ (q, u) ∷ ys)) (omega arith)
      refl)
  where
    as_middle :
        s ≡ middle s.nodes p v xs f w q u ys (suc (length ((p, v) ∷ xs ++ (q, u) ∷ ys))) false
    as_middle = ground (
      arith,
      is.root,
      is.tail,
      is.length,
      is.unlocked,
      last-append p xs ((f, w) ∷ (q, u) ∷ ys),
      length-append xs ((f, w) ∷ (q, u) ∷ ys),
      length-append xs ((q, u) ∷ ys),
    )
