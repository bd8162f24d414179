-- ===== src/Vfs/Walking.antt =====
-- How kopen finds a device behind a mount point.
use mathlib.Core.List.{append_assoc}
use new_wiv_os.Base.{
  ℕ, zero, suc, ◌-◌, ◌≡◌, ◌≢◌, refl, sym, ap, ◌∙◌, arith, true, false, ==_false, Option, none, some,
  List, [], ◌∷◌, ◌++◌, length, length-append, drop,
}
use new_wiv_os.Base.Run.{ok, and_then}
use new_wiv_os.Strings.Text.{strsep, buffer, strsep_loop-last}
use new_wiv_os.Strings.Search.{strstr, strdup-buffer, strstr-here}
use new_wiv_os.Hashmap.{Key}
use new_wiv_os.Vfs.{node_of}
use new_wiv_os.Vfs.Paths.{slash, IsName, IsPath, joined, IsName-NoNul, buffer-append}
use new_wiv_os.Vfs.Lookup.{deepest}
use new_wiv_os.Vfs.Remounts.{whole, joined-NoNul}
use new_wiv_os.Vfs.Whole.{vfs_get_mountpoint-deepest}
use new_wiv_os.Vfs.Nodes.{
  Node, DeviceNode, DeviceEntry, Store, Drivers, vfs_directory, has_flag, through, set_node,
  allocate, vfs_finddir,
}
use new_wiv_os.Vfs.Devices.{devfs_finddir, devfs_finddir_fn, find_device, node_for, kernel_drivers}
use new_wiv_os.Vfs.Open.{reached, walk, new_start, finish_open, kopen}

drop-append : (p q : List ℕ) (n : ℕ) → n ≡ length p → drop n (p ++ q) ≡ q
drop-append [] q zero e = refl
drop-append [] q (suc n) e = absurd (omega arith)
drop-append (c ∷ p) q zero e = absurd (omega arith)
drop-append (c ∷ p) q (suc n) e = drop-append p q n (omega arith)

new_start-name :
    (prefix t behind : List ℕ)
    → IsName t
    → length (buffer t behind) ≡ length (buffer t [])
    → new_start (prefix ++ buffer t []) (some (buffer t behind)) ≡ some (some (buffer t []))
unfolding new_start
new_start-name prefix [] behind h room = absurd (h.0 refl)
new_start-name prefix (c ∷ cs) behind h room =
    let text = buffer (c ∷ cs) [] in
    ap (λ r. strstr r (buffer (c ∷ cs) behind))
      (drop-append prefix text (length (prefix ++ text) - length (buffer (c ∷ cs) behind))
        (omega (arith, length-append prefix text, room)))
    ∙ strstr-here c cs [] behind (IsName-NoNul (c ∷ cs) h)

-- The path /m/t, where m is the deepest mount point on the way and holds node a.
pub record Behind (s : Store) (m t : Key) (a : ℕ) : Type 0 where
  pub names : IsPath (m ∷ t ∷ [])
  pub mounted : node_of (deepest s.tree (m ∷ t ∷ [])).0 ≡ a
  pub left : (deepest s.tree (m ∷ t ∷ [])).1 ≡ t ∷ []
  pub real : a ≢ 0

-- The part of kopen before its loop
pub kopen-walk :
    (fuel : ℕ) (drivers : Drivers) (s : Store) (m t : Key) (after : List ℕ) (flags a : ℕ)
    → Behind s m t a
    → kopen fuel drivers (whole false (m ∷ t ∷ []) after) flags s
      ≡ and_then (walk fuel drivers flags a 0 (some (buffer t [])) s) (finish_open drivers flags)
unfolding kopen
kopen-walk fuel drivers s m t after flags a b =
    let save = whole false (m ∷ t ∷ []) [] in
    let g = vfs_get_mountpoint-deepest s.tree false (m ∷ t ∷ []) [] b.names in
    let (behind, at, room) = rw b.left at g.rest in
    let split : save ≡ (b'/' ∷ (m ++ b'/' ∷ [])) ++ buffer t [] =
      ap (λ r. b'/' ∷ r) (buffer-append m t [] ∙ sym (append_assoc m (b'/' ∷ []) (buffer t []))) in
    let start : new_start save (some (buffer t behind)) ≡ some (some (buffer t [])) =
      ap (λ x. new_start x (some (buffer t behind))) split
      ∙ (new_start-name (b'/' ∷ (m ++ b'/' ∷ [])) t behind b.names.1.0 room) in
    rw
      (
        kopen,
        strdup-buffer (b'/' ∷ joined false m (t ∷ [])) after
            (slash, joined-NoNul false m (t ∷ []) b.names),
        g.runs,
        b.mounted,
        at,
        ==_false a 0 b.real,
        start,
        b.mounted,
      )
      refl

-- The device list's entry for a name, and the state in which devfs_finddir finds it.
pub record Registered (s : Store) (t : Key) (a c : ℕ) (n : Node) (d : DeviceNode) : Type 0 where
  pub entry : DeviceEntry
  pub listed : find_device (buffer t []) s.devices ≡ some entry
  pub device : s.device_nodes entry.node ≡ some d
  pub directory : s.nodes a ≡ some n
  pub flag : has_flag n vfs_directory ≡ true
  pub finds : n.functions.finddir_fn ≡ devfs_finddir_fn
  pub more : List ℕ
  pub supply : s.fresh ≡ c ∷ more
  pub real : c ≢ 0

finddir-Registered :
    (s : Store) (t : Key) (a c : ℕ) (n : Node) (d : DeviceNode) (path : Option (List ℕ))
    (r : Registered s t a c n d)
    → a ≢ 0
    → vfs_finddir kernel_drivers a (buffer t []) path s
      ≡ ok (c, path) (set_node c (node_for d) (record s { fresh = r.more }))
unfolding vfs_finddir through kernel_drivers devfs_finddir allocate
finddir-Registered s t a c n d path r ne =
    rw
      (
        vfs_finddir,
        through,
        ==_false a 0 ne,
        r.directory,
        r.flag,
        r.finds,
        devfs_finddir,
        r.listed,
        r.device,
        allocate,
        r.supply,
        ==_false c 0 r.real,
      )
      refl

pub strsep-name :
    (t : Key)
    → IsName t
    → strsep (some (buffer t [])) (b'/' ∷ 0 ∷ []) ≡ some (some (buffer t []), none)
unfolding strsep
strsep-name t h = rw (strsep, strsep_loop-last b'/' slash t [] h.1) refl

pub walk-Registered :
    (fuel : ℕ) (s : Store) (t : Key) (flags a c : ℕ) (n : Node) (d : DeviceNode)
    (r : Registered s t a c n d)
    → IsName t
    → a ≢ 0
    → walk (suc (suc fuel)) kernel_drivers flags a 0 (some (buffer t [])) s
      ≡ ok (reached c c) (set_node c (node_for d) (record s { fresh = r.more }))
unfolding walk
walk-Registered fuel s t flags a c n d r h ne =
    rw (walk, strsep-name t h, finddir-Registered s t a c n d none r ne, ==_false c 0 r.real, walk)
      refl
