-- ===== src/Lists/Search.antt =====
-- list_contains, list_get_indexed, list_remove_indexed, list_get_front, list_get_back and
-- list_destroy of kernel/utils/lists.c.
use new_wiv_os.Base.{
  ℕ, zero, suc, ◌+◌, ◌-◌, ◌%◌, ◌^◌, ◌≤◌, ◌<◌, true, false, if◌then◌else◌, ◌==◌, Option, none, ◌≡◌,
  refl, sym, [], ◌∷◌, ◌++◌, length, length-append, arith, ==_false, Bool-cases, inl, inr,
}
use new_wiv_os.Base.Run.{ok, fault, Returns, Returns-mono}
use new_wiv_os.Lists.{
  Ptr, null, Node, Store, write, lock, unlock, free, contains_loop, list_contains, get_indexed_loop,
  list_get_indexed, list_remove, list_remove_indexed, list_get_front, list_destroy, destroy_loop,
}
use new_wiv_os.Lists.Seg.{Cells, has, first, Seg, IsList, canon, IsList-canon, frame, ne_of_has}
use new_wiv_os.Lists.Ops.{load-ok, write_ne, load-null}

-- The index of the first cell with the value, counted from i, or -1 as a size_t.
unfoldable pub position : ℕ → Cells → ℕ → ℕ
position value [] i = 2 ^ 64 - 1
position value ((p, v) ∷ xs) i = if v == value then i else position value xs (i + 1)

-- The address of cell i, or NULL behind the end.
unfoldable pub address : Cells → ℕ → Ptr
address [] i = null
address ((p, v) ∷ xs) zero = p
address ((p, v) ∷ xs) (suc i) = address xs i

contains_loop-position :
    (fuel : ℕ) (s : Store) (prev : Ptr) (xs : Cells) (value i : ℕ)
    → Seg s.nodes prev xs null
    → length xs < fuel
    → i + length xs < 2 ^ 64
    → contains_loop fuel (first xs null) value i s ≡ ok (position value xs i) s
unfolding contains_loop position
contains_loop-position zero s prev xs value i c enough room = absurd (omega arith)
contains_loop-position (suc fuel) s prev [] value i c enough room = refl
contains_loop-position (suc fuel) s prev ((p, v) ∷ xs) value i (ne, at, out, c) enough room =
    let next : (i + 1) % 2 ^ 64 ≡ i + 1 = omega arith in
    rw (==_false p null ne, load-ok p s _ ne at, next)
      (elim (Bool-cases (v == value)) [
        | inl hit ↦ rw hit
        | inr miss ↦
            rw miss (contains_loop-position fuel s p xs value (i + 1) c (omega arith) (omega arith))
      ])

get_indexed_loop-address :
    (fuel : ℕ) (s : Store) (prev : Ptr) (xs : Cells) (k i : ℕ)
    → Seg s.nodes prev xs null
    → length xs < fuel
    → i + length xs < 2 ^ 64
    → get_indexed_loop fuel (first xs null) (i + k) i s ≡ ok (address xs k) s
unfolding get_indexed_loop address
get_indexed_loop-address zero s prev xs k i c enough room = absurd (omega arith)
get_indexed_loop-address (suc fuel) s prev [] k i c enough room = refl
get_indexed_loop-address (suc fuel) s prev ((p, v) ∷ xs) zero i (ne, at, out, c) enough room =
    let here : (i == i + 0) ≡ true = ground arith in
    rw (==_false p null ne, load-ok p s _ ne at, here)
get_indexed_loop-address (suc fuel) s prev ((p, v) ∷ xs) (suc k) i (ne, at, out, c) enough room =
    let next : (i + 1) % 2 ^ 64 ≡ i + 1 = omega arith in
    let later : (i == i + suc k) ≡ false = ground arith in
    let shift : i + suc k ≡ i + 1 + k = omega arith in
    rw (==_false p null ne, load-ok p s _ ne at, later, next, shift)
      (get_indexed_loop-address fuel s p xs k (i + 1) c (omega arith) (omega arith))

module _ (s : Store) (xs : Cells) (room : length xs + 1 < 2 ^ 64) (is : IsList s xs) where
  -- For a list of fewer than 2 ^ 64 - 1 nodes with its lock free, list_contains answers the
  -- index of the first node with the value, or -1, and changes nothing.
  pub contains-position : (value : ℕ) → list_contains value s ≡ ok (position value xs 0) s
  unfolding list_contains lock unlock
  contains-position value = rw (
    IsList-canon s xs is,
    contains_loop-position (length xs + 1) (record (canon s.nodes xs) { locked = true }) null xs
        value 0 is.chain (omega arith) (omega arith),
  )

  -- list_get_indexed answers the node at the index, or NULL behind the end, and changes nothing.
  pub get_indexed-address : (index : ℕ) → list_get_indexed index s ≡ ok (address xs index) s
  unfolding list_get_indexed lock unlock
  get_indexed-address index =
      let start : 0 + index ≡ index = omega arith in
      rw
        (
          IsList-canon s xs is,
          ← start,
          get_indexed_loop-address (length xs + 1) (record (canon s.nodes xs) { locked = true })
              null xs index 0 is.chain (omega arith) (omega arith),
        )
        (rw start)

address-append :
    (xs : Cells) (f : Ptr) (w : ℕ) (ys : Cells) → address (xs ++ (f, w) ∷ ys) (length xs) ≡ f
unfolding address
address-append [] f w ys = refl
address-append (x ∷ xs) f w ys = address-append xs f w ys

address_beyond : (xs : Cells) (i : ℕ) → length xs ≤ i → address xs i ≡ null
unfolding address
address_beyond [] i h = refl
address_beyond (x ∷ xs) zero h = absurd (omega arith)
address_beyond (x ∷ xs) (suc i) h = address_beyond xs i (omega arith)

-- list_remove_indexed at an index of the list removes that node as list_remove does.
pub remove_indexed-append :
    (s : Store) (xs : Cells) (f : Ptr) (w : ℕ) (ys : Cells)
    → length xs + length ys + 2 < 2 ^ 64
    → IsList s (xs ++ (f, w) ∷ ys)
    → list_remove_indexed (length xs) s ≡ list_remove f s
unfolding list_remove_indexed
remove_indexed-append s xs f w ys room is =
    let whole : length (xs ++ (f, w) ∷ ys) + 1 < 2 ^ 64 =
      omega (arith, length-append xs ((f, w) ∷ ys)) in
    rw (get_indexed-address s (xs ++ (f, w) ∷ ys) whole is (length xs), address-append xs f w ys)

-- For a list of fewer than 2 ^ 64 - 1 nodes with its lock free, list_remove_indexed at or behind
-- the length of the list reads through NULL.
pub remove_indexed_beyond :
    (s : Store) (xs : Cells) (index : ℕ)
    → length xs + 1 < 2 ^ 64
    → IsList s xs
    → length xs ≤ index
    → list_remove_indexed index s ≡ fault
unfolding list_remove_indexed list_remove lock
remove_indexed_beyond s xs index room is h =
    rw (get_indexed-address s xs room is index, address_beyond xs index h, is.unlocked, load-null)

-- list_get_front answers the first value, or NULL for the empty list, and changes nothing.
abbrev pub front_value : Cells → ℕ
front_value [] = 0
front_value ((p, v) ∷ xs) = v

get_front-nil : (n : Ptr → Option Node) → list_get_front (canon n []) ≡ ok 0 (canon n [])
unfolding list_get_front lock unlock
get_front-nil n = refl

get_front-cons :
    (n : Ptr → Option Node) (p : Ptr) (v : ℕ) (xs : Cells)
    → Seg n null ((p, v) ∷ xs) null
    → list_get_front (canon n ((p, v) ∷ xs)) ≡ ok v (canon n ((p, v) ∷ xs))
unfolding list_get_front lock unlock
get_front-cons n p v xs c =
    rw (==_false p null c.0, load-ok p (record (canon n ((p, v) ∷ xs)) { locked = true }) _ c.0 c.1)

-- list_get_front answers the value of the first node, or NULL for an empty list, and changes
-- nothing.
pub get_front_lem :
    (s : Store) (xs : Cells) → IsList s xs → list_get_front s ≡ ok (front_value xs) s
get_front_lem s xs is = rw (IsList-canon s xs is) (by_cells xs is.chain)
  where
    by_cells :
        (ys : Cells)
        → Seg s.nodes null ys null
        → list_get_front (canon s.nodes ys) ≡ ok (front_value ys) (canon s.nodes ys)
    by_cells [] c = get_front-nil s.nodes
    by_cells ((p, v) ∷ ys) c = get_front-cons s.nodes p v ys c

destroy_loop_lem :
    (fuel : ℕ) (s : Store) (prev : Ptr) (xs : Cells)
    → Seg s.nodes prev xs null
    → length xs < fuel
    → Returns
        (destroy_loop fuel (first xs null) s)
        (λ _ t. (a : Ptr) → t.nodes a ≡ (if has a xs then none else s.nodes a))
unfolding destroy_loop free
destroy_loop_lem zero s prev xs c enough = absurd (omega arith)
destroy_loop_lem (suc fuel) s prev [] c enough = λ a. refl
destroy_loop_lem (suc fuel) s prev ((p, v) ∷ xs) (ne, at, out, c) enough =
    let m = write s.nodes p none in
    rw (==_false p null ne, load-ok p s _ ne at)
      (Returns-mono (destroy_loop fuel (first xs null) (record s { nodes = m })) _ _
        (destroy_loop_lem fuel (record s { nodes = m }) p xs
          (frame s.nodes m p xs null
            (λ a h. write_ne s.nodes p none a (λ e. ne_of_has p a xs out h (sym e))) c)
          (omega arith))
        (λ _ t gone a. unfold write in ground (arith, gone a)))

-- For a list with its lock free, list_destroy returns, every node of the list is freed, and
-- every other node is as it was.
pub destroy_lem :
    (s : Store) (xs : Cells)
    → IsList s xs
    → Returns
        (list_destroy s)
        (λ _ t. (a : Ptr) → t.nodes a ≡ (if has a xs then none else s.nodes a))
unfolding list_destroy
destroy_lem s xs is =
    rw (IsList-canon s xs is)
      (destroy_loop_lem (length xs + 1) (canon s.nodes xs) null xs is.chain (omega arith))
