-- ===== src/Vfs/Boot.antt =====
-- From vfs_init to the log device: the directory of devices is mounted, opened through and written to.
use new_wiv_os.Base.{ℕ, ◌≡◌, ◌≢◌, refl, arith, ==_refl, some, List, [], ◌∷◌}
use new_wiv_os.Strings.Text.{strcmp}
use new_wiv_os.Hashmap.{Key, same_key}
use new_wiv_os.Vfs.{Tree, branch, nil, more, same_name}
use new_wiv_os.Vfs.Paths.{IsName}
use new_wiv_os.Vfs.Nodes.{Node, Store, has_flag, refused, set_node}
use new_wiv_os.Vfs.Devices.{root_name, devfs_node, log_node, set_device_node, find_device}
use new_wiv_os.Vfs.Walking.{Behind, Registered}

abbrev pub dev_name : Key
dev_name = b'd' ∷ b'e' ∷ b'v' ∷ []

abbrev pub log_key : Key
log_key = b'l' ∷ b'o' ∷ b'g' ∷ []

abbrev pub mounted_tree : ℕ → Tree
mounted_tree a = branch root_name 0 (more (branch dev_name a nil) nil)

-- The store after vfs_init, with kmalloc's first two answers a and b.
abbrev pub booted : Store → ℕ → ℕ → List ℕ → Store
booted s a b rest =
    let empty : Store = record s {
      tree = branch root_name 0 nil;
      devices = [];
      fresh = b ∷ rest;
    } in
    let hung : Store =
      record (set_node a (record devfs_node { reference_count = refused })
        (set_node a devfs_node empty)) { tree = mounted_tree a; fresh = rest } in
    record (set_device_node b log_node hung) { devices = record { name = log_key; node = b } ∷ [] }

abbrev pub mounted_node : Node
mounted_node = record devfs_node { reference_count = refused }

pub booted-node :
    (s : Store) (a b : ℕ) (rest : List ℕ) → (booted s a b rest).nodes a ≡ some mounted_node
unfolding set_node set_device_node
booted-node s a b rest = rw (==_refl a) refl

booted-device :
    (s : Store) (a b : ℕ) (rest : List ℕ) → (booted s a b rest).device_nodes b ≡ some log_node
unfolding set_node set_device_node
booted-device s a b rest = rw (==_refl b) refl

pub log-IsName : IsName log_key
log-IsName = (
  (λ e. absurd cc),
  (omega arith, omega arith, (omega arith, omega arith, (omega arith, omega arith, tt))),
)

pub dev-IsName : IsName dev_name
dev-IsName = (
  (λ e. absurd cc),
  (omega arith, omega arith, (omega arith, omega arith, (omega arith, omega arith, tt))),
)

pub booted-Behind :
    (s : Store) (a b : ℕ) (rest : List ℕ) → a ≢ 0 → Behind (booted s a b rest) dev_name log_key a
unfolding same_key strcmp set_node set_device_node
booted-Behind s a b rest na = record {
  names = (dev-IsName, (log-IsName, tt));
  mounted = refl;
  left = refl;
  real = na;
}

pub booted-Registered :
    (s : Store) (a b c : ℕ) (rest : List ℕ)
    → c ≢ 0
    → Registered (booted s a b (c ∷ rest)) log_key a c mounted_node log_node
unfolding find_device same_name strcmp has_flag set_device_node
booted-Registered s a b c rest nc = record {
  entry = record { name = log_key; node = b };
  listed = refl;
  device = booted-device s a b (c ∷ rest);
  directory = booted-node s a b (c ∷ rest);
  flag = refl;
  finds = refl;
  more = rest;
  supply = refl;
  real = nc;
}
