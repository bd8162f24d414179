-- ===== src/Lists/Seg.antt =====
-- What a doubly linked list stands for: its cells (address and value) in order, and the lemmas by
-- which a chain of nodes is extended, cut and relinked.
use new_wiv_os.Base.{
  ℕ, Bool, true, false, ◌||◌, ◌==◌, Option, none, some, ◌≡◌, ◌≢◌, refl, List, [], ◌∷◌, ◌++◌, length,
  arith, Bool-cases, inl, inr, ◌∙◌,
}
use new_wiv_os.Lists.{Ptr, null, Node, node, Store}

abbrev pub Cells : Type 0
Cells = List (Ptr × ℕ)

abbrev pub has : Ptr → Cells → Bool
has a [] = false
has a ((p, _) ∷ xs) = a == p || has a xs

-- The address of the first cell, or `stop` behind the last one.
abbrev pub first : Cells → Ptr → Ptr
first [] stop = stop
first ((p, _) ∷ xs) stop = p

-- The address of the last cell, or what stands before the first one.
abbrev pub last : Ptr → Cells → Ptr
last prev [] = prev
last prev ((p, _) ∷ xs) = last p xs

-- The nodes of the cells are linked both ways, from `prev` in front to `stop` behind.
abbrev pub Seg : (Ptr → Option Node) → Ptr → Cells → Ptr → Type 0
Seg nodes prev [] stop = Unit {0}
Seg nodes prev ((p, v) ∷ xs) stop =
    (p ≢ null)
    × (nodes p ≡ some (node v prev (first xs stop)))
    × (has p xs ≡ false)
    × Seg nodes p xs stop

-- The list_t stands for the cells, and its lock is free.
pub record IsList (s : Store) (xs : Cells) : Type 0 where
  pub root : s.root ≡ first xs null
  pub tail : s.tail ≡ last null xs
  pub length : s.length ≡ length xs
  pub chain : Seg s.nodes null xs null
  pub unlocked : s.locked ≡ false

pub has-append : (a : Ptr) (xs ys : Cells) → has a (xs ++ ys) ≡ (has a xs || has a ys)
has-append a [] ys = refl
has-append a ((p, v) ∷ xs) ys = ground (arith, has-append a xs ys)

pub not_has-snoc :
    (a f : Ptr) (w : ℕ) (xs : Cells)
    → has a (xs ++ (f, w) ∷ []) ≡ false
    → (a ≢ f) × (has a xs ≡ false)
not_has-snoc a f w [] h = ground arith
not_has-snoc a f w ((p, v) ∷ xs) h = ground (arith, not_has-snoc a f w xs)

-- What being outside of a non-empty list says, and of being in its tail.
pub not_has-cons :
    (a p : Ptr) (v : ℕ) (xs : Cells) → has a ((p, v) ∷ xs) ≡ false → (a ≢ p) × (has a xs ≡ false)
not_has-cons a p v xs h = ground arith

pub not_has-append :
    (a : Ptr) (xs ys : Cells) → has a (xs ++ ys) ≡ false → (has a xs ≡ false) × (has a ys ≡ false)
not_has-append a xs ys h = split_or (has a xs) (has a ys) (rw (has-append a xs ys) at h)
  where
    split_or : (b c : Bool) → (b || c) ≡ false → (b ≡ false) × (c ≡ false)
    split_or b c e = ground arith

pub has-cons_tail : (a p : Ptr) (v : ℕ) (xs : Cells) → has a xs ≡ true → has a ((p, v) ∷ xs) ≡ true
has-cons_tail a p v xs h = ground arith

pub first-append : (xs ys : Cells) (stop : Ptr) → first (xs ++ ys) stop ≡ first xs (first ys stop)
first-append [] ys stop = refl
first-append (x ∷ xs) ys stop = refl

pub last-append : (prev : Ptr) (xs ys : Cells) → last prev (xs ++ ys) ≡ last (last prev xs) ys
last-append prev [] ys = refl
last-append prev ((p, v) ∷ xs) ys = last-append p xs ys

pub has-last :
    (prev p : Ptr) (v : ℕ) (xs : Cells) → has (last prev ((p, v) ∷ xs)) ((p, v) ∷ xs) ≡ true
has-last prev p v [] = ground arith
has-last prev p v ((q, w) ∷ xs) = ground (arith, has-last p q w xs)

pub ne_of_has : (a b : Ptr) (xs : Cells) → has a xs ≡ false → has b xs ≡ true → a ≢ b
ne_of_has a b xs out h e = cc (out, rw (← e) at h)

pub ne-last : (a prev p : Ptr) (v : ℕ) (xs : Cells) → has a ((p, v) ∷ xs) ≡ false → a ≢ last p xs
ne-last a prev p v xs out = ne_of_has a (last p xs) ((p, v) ∷ xs) out (has-last prev p v xs)

module _ (n : Ptr → Option Node) where
  -- A chain survives every change that spares its own nodes.
  pub frame :
      (m : Ptr → Option Node) (prev : Ptr) (xs : Cells) (stop : Ptr)
      → ((a : Ptr) → has a xs ≡ true → m a ≡ n a)
      → Seg n prev xs stop
      → Seg m prev xs stop
  frame m prev [] stop same s = tt
  frame m prev ((p, v) ∷ xs) stop same (ne, at, out, s) =
      (ne, ground (arith, same p), out, frame m p xs stop (λ a h. same a (ground arith)) s)

  -- Every node of a chain is allocated, and none is NULL.
  pub not_has_of_none :
      (a prev : Ptr) (xs : Cells) (stop : Ptr) → n a ≡ none → Seg n prev xs stop → has a xs ≡ false
  not_has_of_none a prev [] stop free s = refl
  not_has_of_none a prev ((p, v) ∷ xs) stop free (ne, at, out, s) =
      ground (arith, not_has_of_none a p xs stop free s)

  pub last-ne-null :
      (prev p : Ptr) (v : ℕ) (xs : Cells) (stop : Ptr)
      → Seg n prev ((p, v) ∷ xs) stop
      → last prev ((p, v) ∷ xs) ≢ null
  last-ne-null prev p v [] stop (ne, at, out, s) = ne
  last-ne-null prev p v ((q, w) ∷ xs) stop (ne, at, out, s) = last-ne-null p q w xs stop s

  -- A cell is put behind a chain.
  pub snoc :
      (prev : Ptr) (xs : Cells) (f : Ptr) (v : ℕ) (stop : Ptr)
      → f ≢ null
      → has f xs ≡ false
      → n f ≡ some (node v (last prev xs) stop)
      → Seg n prev xs f
      → Seg n prev (xs ++ (f, v) ∷ []) stop
  snoc prev [] f v stop ne out at s = (ne, at, refl, tt)
  snoc prev ((p, w) ∷ xs) f v stop ne out at (ne', at', out', s) = (
    ne',
    rw first-append at',
    rw has-append (ground arith),
    snoc p xs f v stop ne (ground arith) at s,
  )

  -- The last cell of a chain.
  pub unsnoc :
      (prev : Ptr) (xs : Cells) (f : Ptr) (v : ℕ) (stop : Ptr)
      → Seg n prev (xs ++ (f, v) ∷ []) stop
      → (f ≢ null)
        × (has f xs ≡ false)
        × (n f ≡ some (node v (last prev xs) stop))
        × Seg n prev xs f
  unsnoc prev [] f v stop (ne, at, out, s) = (ne, refl, at, tt)
  unsnoc prev ((p, w) ∷ xs) f v stop (ne, at, out, s) =
      let (ne', out', at', s') = unsnoc p xs f v stop s in
      let apart : (has p xs || (p == f || false)) ≡ false = rw has-append at out in
      (ne', ground arith, at', (ne, rw first-append at at, ground arith, s'))

  -- The last node's `next` is set, and the other nodes stay.
  pub relink_last :
      (m : Ptr → Option Node) (prev p : Ptr) (v : ℕ) (xs : Cells) (stop stop' : Ptr)
      → ((a : Ptr) → has a ((p, v) ∷ xs) ≡ true → a ≢ last p xs → m a ≡ n a)
      → ((w : ℕ) (q : Ptr)
          → n (last p xs) ≡ some (node w q stop)
          → m (last p xs) ≡ some (node w q stop'))
      → Seg n prev ((p, v) ∷ xs) stop
      → Seg m prev ((p, v) ∷ xs) stop'
  relink_last m prev p v [] stop stop' same new (ne, at, out, s) = (ne, new v prev at, refl, tt)
  relink_last m prev p v ((q, w) ∷ xs) stop stop' same new (ne, at, out, s) =
      let other : p ≢ last q xs = ne-last p p q w xs out in
      (
        ne,
        same p (ground arith) other ∙ at,
        out,
        relink_last m p q w xs stop stop' (λ a h. same a (ground arith)) new s,
      )

  -- Two chains that meet and share no node are one chain.
  pub append :
      (prev : Ptr) (xs ys : Cells) (stop : Ptr)
      → ((a : Ptr) → has a xs ≡ true → has a ys ≡ false)
      → Seg n prev xs (first ys stop)
      → Seg n (last prev xs) ys stop
      → Seg n prev (xs ++ ys) stop
  append prev [] ys stop apart s t = t
  append prev ((p, v) ∷ xs) ys stop apart (ne, at, out, s) t = (
    ne,
    rw first-append at,
    rw (has-append, out, apart p (ground arith)) refl,
    append p xs ys stop (λ a h. apart a (ground arith)) s t,
  )

  -- A chain is cut in two that share no node.
  pub split :
      (prev : Ptr) (xs ys : Cells) (stop : Ptr)
      → Seg n prev (xs ++ ys) stop
      → Seg n prev xs (first ys stop)
        × Seg n (last prev xs) ys stop
        × ((a : Ptr) → has a xs ≡ true → has a ys ≡ false)
  split prev [] ys stop s = (tt, s, λ a h. cc)
  split prev ((p, v) ∷ xs) ys stop (ne, at, out, s) =
      let (front, back, apart) = split p xs ys stop s in
      let out' : (has p xs || has p ys) ≡ false = rw has-append at out in
      (
        (ne, rw first-append at at, ground arith, front),
        back,
        λ a h. elim (Bool-cases (a == p)) [
          | inl e ↦ let e' : a ≡ p = ground arith in rw e' (ground arith)
          | inr e ↦ apart a (ground arith)
        ],
      )

  -- What the last node of a chain holds.
  pub node_at_last :
      (prev p : Ptr) (v : ℕ) (xs : Cells) (stop : Ptr)
      → Seg n prev ((p, v) ∷ xs) stop
      → (w : ℕ) × (q : Ptr) × (n (last p xs) ≡ some (node w q stop))
  node_at_last prev p v [] stop (ne, at, out, s) = (v, prev, at)
  node_at_last prev p v ((q, w) ∷ xs) stop (ne, at, out, s) = node_at_last p q w xs stop s

-- The store that stands for the cells, by its nodes.
abbrev pub canon : (Ptr → Option Node) → Cells → Store
canon n xs = record {
  nodes = n;
  length = length xs;
  root = first xs null;
  tail = last null xs;
  locked = false;
}

pub IsList-canon : (s : Store) (xs : Cells) → IsList s xs → s ≡ canon s.nodes xs
IsList-canon s xs is = ground (arith, is.root, is.tail, is.length, is.unlocked)

pub canon-IsList :
    (n : Ptr → Option Node) (xs : Cells) → Seg n null xs null → IsList (canon n xs) xs
canon-IsList n xs s = record { root = refl; tail = refl; length = refl; chain = s; unlocked = refl }
