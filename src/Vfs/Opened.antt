-- ===== src/Vfs/Opened.antt =====
-- What kopen returns for a path through a mount point.
use new_wiv_os.Base.{
  ℕ, suc, ◌≡◌, ◌≢◌, refl, ap, ◌∙◌, true, false, if◌then◌else◌, ◌==◌, ==_refl, ==_false, Bool-cases,
  inl, inr, Option, none, some, List, [], ◌∷◌, bit_and,
}
use new_wiv_os.Base.Run.{ok, and_then, pure}
use new_wiv_os.Strings.Text.{buffer}
use new_wiv_os.Hashmap.{Key}
use new_wiv_os.Vfs.Paths.{IsName}
use new_wiv_os.Vfs.Remounts.{whole}
use new_wiv_os.Vfs.Nodes.{
  Node, DeviceNode, Store, Drivers, vfs_directory, o_creat, has_flag, through, set_node, vfs_open,
  vfs_finddir, vfs_create,
}
use new_wiv_os.Vfs.Devices.{devfs_finddir, devfs_finddir_fn, find_device, node_for, kernel_drivers}
use new_wiv_os.Vfs.Open.{missing, reached, walk, open_node, finish_open, kopen}
use new_wiv_os.Vfs.Walking.{Behind, kopen-walk, Registered, strsep-name, walk-Registered}

-- A node without an open function
vfs_open-none :
    (drivers : Drivers) (s : Store) (c flags : ℕ) (n : Node)
    → c ≢ 0
    → s.nodes c ≡ some n
    → n.functions.open_fn ≡ 0
    → vfs_open drivers c flags s ≡ ok tt s
unfolding vfs_open through
vfs_open-none drivers s c flags n ne at no_open =
    rw (vfs_open, through, ==_false c 0 ne, at)
      (ap (λ f. if f == 0 then ok tt s else and_then (drivers.open_at f c flags s) (λ u. pure tt))
        no_open)

open_node-none :
    (drivers : Drivers) (s : Store) (c flags : ℕ) (n : Node)
    → c ≢ 0
    → s.nodes c ≡ some n
    → n.functions.open_fn ≡ 0
    → open_node drivers flags c s ≡ ok c s
unfolding open_node
open_node-none drivers s c flags n ne at no_open =
    ap (λ r. and_then r (λ unit t. ok c t)) (vfs_open-none drivers s c flags n ne at no_open)

finish_open-none :
    (drivers : Drivers) (s : Store) (start next c flags : ℕ) (n : Node)
    → (if next == 0 then start else next) ≡ c
    → c ≢ 0
    → s.nodes c ≡ some n
    → n.functions.open_fn ≡ 0
    → finish_open drivers flags (reached start next) s ≡ ok c s
unfolding finish_open
finish_open-none drivers s start next c flags n at_c ne at no_open =
    ap (λ k. open_node drivers flags k s) at_c ∙ open_node-none drivers s c flags n ne at no_open

pub set_node_self : (c : ℕ) (n : Node) (s : Store) → (set_node c n s).nodes c ≡ some n
unfolding set_node
set_node_self c n s = rw (set_node, ==_refl c) refl

-- Opening /m/t, where /m is a mount point whose node is the directory of devices and t the name of a
-- device without an open function, returns a new node with the device's name, data, flags, index
-- and functions. Nothing else changes.
pub kopen-Registered :
    (fuel : ℕ) (s : Store) (m t : Key) (after : List ℕ) (flags a c : ℕ) (n : Node) (d : DeviceNode)
    → Behind s m t a
    → (r : Registered s t a c n d) → d.functions.open_fn ≡ 0
    → kopen (suc (suc fuel)) kernel_drivers (whole false (m ∷ t ∷ []) after) flags s
      ≡ ok c (set_node c (node_for d) (record s { fresh = r.more }))
unfolding node_for
kopen-Registered fuel s m t after flags a c n d b r no_open =
    kopen-walk (suc (suc fuel)) kernel_drivers s m t after flags a b
    ∙ rw (walk-Registered fuel s t flags a c n d r b.names.1.0 b.real) (
        finish_open-none kernel_drivers (set_node c (node_for d) (record s { fresh = r.more })) c c
          c flags (node_for d) (rw (==_false c 0 r.real) refl) r.real
          (set_node_self c (node_for d) _) no_open)

finddir-out :
    (s : Store) (t : Key) (a : ℕ) (n : Node) (path : Option (List ℕ))
    → a ≢ 0
    → s.nodes a ≡ some n
    → has_flag n vfs_directory ≡ true
    → n.functions.finddir_fn ≡ devfs_finddir_fn
    → find_device (buffer t []) s.devices ≡ none
    → vfs_finddir kernel_drivers a (buffer t []) path s ≡ ok (0, path) s
unfolding vfs_finddir through kernel_drivers devfs_finddir
finddir-out s t a n path ne at flag finds out =
    rw (vfs_finddir, through, ==_false a 0 ne, at, flag, finds, devfs_finddir, out) refl

vfs_create-none :
    (drivers : Drivers) (s : Store) (token : List ℕ) (flags a : ℕ) (n : Node)
    → a ≢ 0
    → s.nodes a ≡ some n
    → has_flag n vfs_directory ≡ true
    → n.functions.create_fn ≡ 0
    → vfs_create drivers a token flags s ≡ ok 0 s
unfolding vfs_create through
vfs_create-none drivers s token flags a n ne at flag no_create =
    rw (vfs_create, through, ==_false a 0 ne, at, flag)
      (ap (λ f. if f == 0 then ok 0 s else drivers.create_at f a token flags s) no_create)

walk-missing :
    (fuel : ℕ) (s : Store) (t : Key) (flags a : ℕ)
    → IsName t
    → vfs_finddir kernel_drivers a (buffer t []) none s ≡ ok (0, none) s
    → vfs_create kernel_drivers a (buffer t []) flags s ≡ ok 0 s
    → walk (suc fuel) kernel_drivers flags a 0 (some (buffer t [])) s
      ≡ ok (if bit_and flags o_creat == 0 then missing else reached a 0) s
unfolding walk
walk-missing fuel s t flags a h finds creates = elim (Bool-cases (bit_and flags o_creat == 0)) [
  | inl plain ↦ rw (walk, strsep-name t h, finds, plain) refl
  | inr creating ↦ rw (walk, strsep-name t h, finds, creating, creates) refl
]

finish_open-missing :
    (s : Store) (flags a : ℕ) (n : Node)
    → a ≢ 0
    → s.nodes a ≡ some n
    → n.functions.open_fn ≡ 0
    → finish_open kernel_drivers flags
        (if bit_and flags o_creat == 0 then missing else reached a 0)
        s
      ≡ ok (if bit_and flags o_creat == 0 then 0 else a) s
unfolding finish_open
finish_open-missing s flags a n ne at no_open = elim (Bool-cases (bit_and flags o_creat == 0)) [
  | inl plain ↦ rw plain refl
  | inr creating ↦ rw creating (finish_open-none kernel_drivers s a 0 a flags n refl ne at no_open)
]

-- Where t names no device: with O_CREAT, and a directory whose node has neither a create nor an open
-- function, kopen returns the node of the directory itself, as if it were the new file; without
-- O_CREAT it returns NULL. Nothing changes.
pub kopen_missing :
    (fuel : ℕ) (s : Store) (m t : Key) (after : List ℕ) (flags a : ℕ) (n : Node)
    → Behind s m t a
    → s.nodes a ≡ some n
    → has_flag n vfs_directory ≡ true
    → n.functions.finddir_fn ≡ devfs_finddir_fn
    → n.functions.create_fn ≡ 0
    → n.functions.open_fn ≡ 0
    → find_device (buffer t []) s.devices ≡ none
    → kopen (suc (suc fuel)) kernel_drivers (whole false (m ∷ t ∷ []) after) flags s
      ≡ ok (if bit_and flags o_creat == 0 then 0 else a) s
kopen_missing fuel s m t after flags a n b at flag finds no_create no_open out =
    kopen-walk (suc (suc fuel)) kernel_drivers s m t after flags a b
    ∙ ap (λ r. and_then r (finish_open kernel_drivers flags))
        (walk-missing (suc fuel) s t flags a b.names.1.0
          (finddir-out s t a n none b.real at flag finds out)
          (vfs_create-none kernel_drivers s (buffer t []) flags a n b.real at flag no_create))
    ∙ finish_open-missing s flags a n b.real at no_open
