-- ===== src/Vfs/Nodes.antt =====
-- The nodes of kernel/fs/vfs.h and the calls that kernel/fs/vfs.c passes on to a node's functions. A
-- function pointer is a number, NULL is 0; what stands behind it is the argument `drivers`.
use new_wiv_os.Base.{
  ℕ, ◌-◌, ◌^◌, Bool, true, not, ◌||◌, if◌then◌else◌, ◌==◌, Option, none, some, List, [], ◌∷◌,
  bit_and,
}
use new_wiv_os.Base.Run.{ok, fault, Cmd, pure, ◌>>◌}
use new_wiv_os.Hashmap.{Key}
use new_wiv_os.Vfs.{Tree, mount_path}

abbrev pub vfs_file : ℕ
vfs_file = 1

abbrev pub vfs_directory : ℕ
vfs_directory = 2

abbrev pub vfs_filesystem : ℕ
vfs_filesystem = 4

abbrev pub o_creat : ℕ
o_creat = 0x10

-- (size_t)-1
abbrev pub refused : ℕ
refused = 2 ^ 64 - 1

-- vfs_functions_t
pub record Functions : Type 0 where
  pub open_fn : ℕ
  pub close_fn : ℕ
  pub read_fn : ℕ
  pub write_fn : ℕ
  pub lseek_fn : ℕ
  pub ioctl_fn : ℕ
  pub finddir_fn : ℕ
  pub readdir_fn : ℕ
  pub create_fn : ℕ
  pub mount_fn : ℕ
  pub print_tree_fn : ℕ

-- vfs_node_t; the name as its bytes, `payload` is its data
pub record Node : Type 0 where
  pub name : List ℕ
  pub payload : ℕ
  pub flags : ℕ
  pub intern_index : ℕ
  pub size : ℕ
  pub reference_count : ℕ
  pub offset : ℕ
  pub status : ℕ
  pub functions : Functions

-- devfs_node_t
pub record DeviceNode : Type 0 where
  pub name : List ℕ
  pub payload : ℕ
  pub flags : ℕ
  pub intern_index : ℕ
  pub functions : Functions

-- devfs_entry_t
pub record DeviceEntry : Type 0 where
  pub name : Key
  pub node : ℕ

-- VFSTree, DevFSList, the nodes by address, the answers that kmalloc still gives (NULL when they
-- are used up), and the characters that were printed.
pub record Store : Type 0 where
  pub tree : Tree
  pub devices : List DeviceEntry
  pub nodes : ℕ → Option Node
  pub device_nodes : ℕ → Option DeviceNode
  pub fresh : List ℕ
  pub printed : List ℕ

-- What the functions at an address do; the first argument is the address.
pub record Drivers : Type 0 where
  pub open_at : ℕ → ℕ → ℕ → Cmd Store ℕ
  pub close_at : ℕ → ℕ → Cmd Store ℕ
  pub read_at : ℕ → ℕ → ℕ → ℕ → Cmd Store ℕ
  pub write_at : ℕ → ℕ → List ℕ → ℕ → Cmd Store ℕ
  pub lseek_at : ℕ → ℕ → ℕ → ℕ → Cmd Store ℕ
  pub ioctl_at : ℕ → ℕ → ℕ → ℕ → Cmd Store ℕ
  pub finddir_at : ℕ → ℕ → List ℕ → Option (List ℕ) → Cmd Store (ℕ × Option (List ℕ))
  pub readdir_at : ℕ → ℕ → ℕ → Cmd Store ℕ
  pub create_at : ℕ → ℕ → List ℕ → ℕ → Cmd Store ℕ
  pub mount_at : ℕ → ℕ → List ℕ → ℕ → List ℕ → ℕ → Cmd Store ℕ

unfoldable pub has_flag : Node → ℕ → Bool
has_flag n flag = not (bit_and n.flags flag == 0)

-- if(!node || !(node->flags & ...) || !node->functions.f) return refusal; return node->functions.f(...)
unfoldable pub through :
    {A : Type 0} → A → (Node → Bool) → (Functions → ℕ) → (ℕ → Cmd Store A) → ℕ → Cmd Store A
through refusal serves slot call node s = if node == 0 then ok refusal s else elim (s.nodes node) [
  | none ↦ fault
  | some n ↦
      if not (serves n) || slot n.functions == 0 then ok refusal s else call (slot n.functions) s
]

-- Any node will do.
abbrev pub any_node : Node → Bool
any_node n = true

unfoldable pub vfs_open : Drivers → ℕ → ℕ → Cmd Store (Unit {0})
unfolding through
vfs_open drivers node flags =
    through tt any_node Functions.open_fn (λ f. drivers.open_at f node flags >> pure tt) node

unfoldable pub vfs_close : Drivers → ℕ → Cmd Store (Unit {0})
unfolding through
vfs_close drivers node =
    through tt any_node Functions.close_fn (λ f. drivers.close_at f node >> pure tt) node

unfoldable pub vfs_read : Drivers → ℕ → ℕ → ℕ → Cmd Store ℕ
unfolding through
vfs_read drivers node buffer size =
    through refused any_node Functions.read_fn (λ f. drivers.read_at f node buffer size) node

unfoldable pub vfs_write : Drivers → ℕ → List ℕ → ℕ → Cmd Store ℕ
unfolding through
vfs_write drivers node buffer size =
    through refused any_node Functions.write_fn (λ f. drivers.write_at f node buffer size) node

unfoldable pub vfs_lseek : Drivers → ℕ → ℕ → ℕ → Cmd Store ℕ
unfolding through
vfs_lseek drivers node offset kind =
    through refused any_node Functions.lseek_fn (λ f. drivers.lseek_at f node offset kind) node

unfoldable pub vfs_ioctl : Drivers → ℕ → ℕ → ℕ → Cmd Store ℕ
unfolding through
vfs_ioctl drivers node request arg =
    through refused any_node Functions.ioctl_fn (λ f. drivers.ioctl_at f node request arg) node

unfoldable pub vfs_finddir :
    Drivers → ℕ → List ℕ → Option (List ℕ) → Cmd Store (ℕ × Option (List ℕ))
unfolding through has_flag
vfs_finddir drivers node name path =
    through (0, path) (λ n. has_flag n vfs_directory) Functions.finddir_fn
      (λ f. drivers.finddir_at f node name path) node

unfoldable pub vfs_readdir : Drivers → ℕ → ℕ → Cmd Store ℕ
unfolding through has_flag
vfs_readdir drivers node dirent =
    through refused (λ n. has_flag n vfs_directory) Functions.readdir_fn
      (λ f. drivers.readdir_at f node dirent) node

unfoldable pub vfs_create : Drivers → ℕ → List ℕ → ℕ → Cmd Store ℕ
unfolding through has_flag
vfs_create drivers node name flags =
    through 0 (λ n. has_flag n vfs_directory) Functions.create_fn
      (λ f. drivers.create_at f node name flags) node

unfoldable pub vfs_node_mount : Drivers → ℕ → List ℕ → ℕ → List ℕ → ℕ → Cmd Store ℕ
unfolding through has_flag
vfs_node_mount drivers node device flags path arg =
    through refused (λ n. has_flag n vfs_filesystem) Functions.mount_fn
      (λ f. drivers.mount_at f node device flags path arg) node

unfoldable pub set_node : ℕ → Node → Store → Store
set_node a n s = record s { nodes = λ b. if b == a then some n else s.nodes b }

-- kmalloc
unfoldable pub allocate : Cmd Store ℕ
allocate s = elim s.fresh [ [] ↦ ok 0 s | a ∷ more ↦ ok a (record s { fresh = more }) ]

-- vfs_mount; the path is written to.
unfoldable pub vfs_mount : List ℕ → ℕ → Cmd Store (Unit {0})
unfolding set_node mount_path
vfs_mount path node s = elim (s.nodes node) [
  | none ↦ fault
  | some n ↦ elim (mount_path s.tree path node) [
    | none ↦ fault
    | some tree ↦
        ok tt (record (set_node node (record n { reference_count = refused }) s) { tree = tree })
  ]
]
