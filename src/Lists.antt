-- ===== src/Lists.antt =====
-- The doubly linked lists of kernel/utils/lists.c. `nodes` is the heap of list_node_t, the other
-- fields are one list_t; a node is at the address that kmalloc returned, which the functions that
-- allocate take as `fresh` (NULL where memory is exhausted: the code writes through it, a fault).
-- A value is a pointer, as a number; NULL is 0.
pub mod Seg
pub mod Ops
pub mod Push
pub mod Fronts
pub mod Remove
pub mod Unlink
pub mod Search
use new_wiv_os.Base.{
  ℕ, zero, suc, ◌+◌, ◌-◌, ◌%◌, ◌^◌, Bool, true, false, not, if◌then◌else◌, ltb, leb, ◌==◌, Option,
  none, some,
}
use new_wiv_os.Base.Run.{
  Run, ok, fault, hang, Cmd, and_then, pure, ◌>>=◌, ◌>>◌, hang_cmd, fault_cmd, get_state, put_state,
}

abbrev pub Ptr : Type 0
Ptr = ℕ

abbrev pub null : Ptr
null = 0

-- list_node_t
pub record Node : Type 0 where
  pub value : ℕ
  pub previous : Ptr
  pub next : Ptr

-- list_t and the heap that its nodes live in
pub record Store : Type 0 where
  pub nodes : Ptr → Option Node
  pub length : ℕ
  pub root : Ptr
  pub tail : Ptr
  pub locked : Bool

abbrev pub node : ℕ → Ptr → Ptr → Node
node v p n = record { value = v; previous = p; next = n }

unfoldable pub write : (Ptr → Option Node) → Ptr → Option Node → Ptr → Option Node
write nodes p c a = if a == p then c else nodes a

unfoldable pub lock : Cmd Store (Unit {0})
lock s = if s.locked then hang else ok tt (record s { locked = true })

unfoldable pub unlock : Cmd Store (Unit {0})
unlock s = ok tt (record s { locked = false })

-- `p->…`: a fault at NULL and where no node lives
unfoldable pub load : Ptr → Cmd Store Node
load p s = if p == null then fault else elim (s.nodes p) [ none ↦ fault | some n ↦ ok n s ]

unfoldable pub store : Ptr → Node → Cmd Store (Unit {0})
unfolding write
store p n s = if p == null then fault else ok tt (record s { nodes = write s.nodes p (some n) })

unfoldable pub set_next : Ptr → Ptr → Cmd Store (Unit {0})
set_next p q = do n ← load p; store p (record n { next = q })

unfoldable pub set_previous : Ptr → Ptr → Cmd Store (Unit {0})
set_previous p q = do n ← load p; store p (record n { previous = q })

unfoldable pub free : Ptr → Cmd Store (Unit {0})
unfolding write
free p s = ok tt (record s { nodes = write s.nodes p none })

abbrev pub set_root : Ptr → Cmd Store (Unit {0})
set_root p s = ok tt (record s { root = p })

abbrev pub set_tail : Ptr → Cmd Store (Unit {0})
set_tail p s = ok tt (record s { tail = p })

abbrev pub add_length : Cmd Store (Unit {0})
add_length s = ok tt (record s { length = (s.length + 1) % 2 ^ 64 })

abbrev pub sub_length : Cmd Store (Unit {0})
sub_length s = ok tt (record s { length = (s.length + 2 ^ 64 - 1) % 2 ^ 64 })

-- The list_t that list_create initialises.
unfoldable pub list_create : (Ptr → Option Node) → Store
list_create nodes = record { nodes = nodes; length = 0; root = null; tail = null; locked = false }

unfoldable pub list_push_before : Ptr → Ptr → ℕ → Cmd Store Ptr
list_push_before fresh last_node value = do
  lock
  s ← get_state
  store fresh (node value s.tail last_node)
  if s.tail == last_node
      then (do store fresh (node value null last_node); set_tail fresh)
      else pure tt
  set_previous last_node fresh
  add_length
  unlock
  pure fresh

unfoldable pub list_push_back : Ptr → ℕ → Cmd Store Ptr
list_push_back fresh value = do
  lock
  s ← get_state
  store fresh (node value s.tail null)
  if s.tail == null then pure tt else set_next s.tail fresh
  set_tail fresh
  if s.root == null then set_root fresh else pure tt
  add_length
  unlock
  pure fresh

unfoldable pub list_push_front : Ptr → ℕ → Cmd Store Ptr
list_push_front fresh value = do
  lock
  s ← get_state
  store fresh (node value null s.root)
  if s.root == null then set_tail fresh else set_previous s.root fresh
  set_root fresh
  add_length
  unlock
  pure fresh

unfoldable pub list_remove_back : Cmd Store ℕ
list_remove_back = do
  lock
  s ← get_state
  if s.tail == null then (do unlock; pure 0) else do
    n ← load s.tail
    set_tail n.previous
    if n.previous == null then set_root null else set_next n.previous null
    free s.tail
    sub_length
    unlock
    pure n.value

unfoldable pub list_remove_front : Cmd Store ℕ
list_remove_front = do
  lock
  s ← get_state
  if s.root == null then (do unlock; pure 0) else do
    n ← load s.root
    set_root n.next
    if n.next == null then set_tail null else set_previous n.next null
    free s.root
    sub_length
    unlock
    pure n.value

-- As list_remove_back, but the node is handed to the caller and not freed.
unfoldable pub list_pop : Cmd Store Ptr
list_pop = do
  lock
  s ← get_state
  if s.tail == null then (do unlock; pure null) else do
    n ← load s.tail
    set_tail n.previous
    if n.previous == null then set_root null else set_next n.previous null
    sub_length
    unlock
    pure s.tail

unfoldable pub list_remove : Ptr → Cmd Store ℕ
list_remove p = do
  lock
  n ← load p
  s ← get_state
  if p == s.root
      then (do unlock; list_remove_front; pure n.value)
      else if p == s.tail
      then (do unlock; list_remove_back; pure n.value)
      else do
        set_next n.previous n.next
        m ← load p
        set_previous m.next m.previous
        sub_length
        free p
        unlock
        pure n.value

unfoldable pub list_get_back : Cmd Store ℕ
list_get_back = do
  lock
  s ← get_state
  if s.tail == null then (do unlock; pure 0) else do n ← load s.tail; unlock; pure n.value

unfoldable pub list_get_front : Cmd Store ℕ
list_get_front = do
  lock
  s ← get_state
  if s.root == null then (do unlock; pure 0) else do n ← load s.root; unlock; pure n.value

-- The `foreach` of list_contains; the answer is the index, or -1 as a size_t.
unfoldable pub contains_loop : ℕ → Ptr → ℕ → ℕ → Cmd Store ℕ
contains_loop zero p value index = hang_cmd
contains_loop (suc fuel) p value index = if p == null then pure (2 ^ 64 - 1) else do
  n ← load p
  if n.value == value then pure index else contains_loop fuel n.next value ((index + 1) % 2 ^ 64)

unfoldable pub list_contains : ℕ → Cmd Store ℕ
unfolding contains_loop
list_contains value = do
  lock
  s ← get_state
  index ← contains_loop (s.length + 1) s.root value 0
  unlock
  pure index

unfoldable pub get_indexed_loop : ℕ → Ptr → ℕ → ℕ → Cmd Store Ptr
get_indexed_loop zero p index current = hang_cmd
get_indexed_loop (suc fuel) p index current = if p == null then pure null else do
  n ← load p
  if current == index then pure p else get_indexed_loop fuel n.next index ((current + 1) % 2 ^ 64)

unfoldable pub list_get_indexed : ℕ → Cmd Store Ptr
unfolding get_indexed_loop
list_get_indexed index = do
  lock
  s ← get_state
  p ← get_indexed_loop (s.length + 1) s.root index 0
  unlock
  pure p

unfoldable pub list_remove_indexed : ℕ → Cmd Store ℕ
unfolding list_get_indexed list_remove
list_remove_indexed index = do p ← list_get_indexed index; list_remove p

destroy_loop : ℕ → Ptr → Cmd Store (Unit {0})
destroy_loop zero p = hang_cmd
destroy_loop (suc fuel) p =
    if p == null then pure tt else do n ← load p; free p; destroy_loop fuel n.next

-- list_destroy; the release of the list_t itself is the caller's store going out of use.
unfoldable pub list_destroy : Cmd Store (Unit {0})
unfolding destroy_loop
list_destroy = do s ← get_state; destroy_loop (s.length + 1) s.root
