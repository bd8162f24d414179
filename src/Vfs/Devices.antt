-- ===== src/Vfs/Devices.antt =====
-- The directory of devices, kernel/fs/devfs/devfs.c, and vfs_init. The lock of DevFSList, which each
-- function takes and releases itself, is left out. What kmalloc returns is cleared.
use new_wiv_os.Base.{ℕ, if◌then◌else◌, ◌==◌, Option, none, some, List, [], ◌∷◌, ◌++◌}
use new_wiv_os.Base.Run.{ok, fault, Cmd, and_then, ◌>>=◌, ◌>>◌, fault_cmd, get_state, put_state}
use new_wiv_os.Strings.Text.{buffer}
use new_wiv_os.Hashmap.{Key}
use new_wiv_os.Vfs.{branch, nil, same_name, characters}
use new_wiv_os.Vfs.Nodes.{
  Functions, Node, DeviceNode, DeviceEntry, Store, Drivers, vfs_directory, refused, set_node,
  allocate, vfs_mount,
}
use new_wiv_os.Print.Format.{word, text, vsnprintf_internal}

-- TIOCGWINSZ of kernel/fs/ioctl.h
abbrev pub tiocgwinsz : ℕ
tiocgwinsz = 0x5413

-- Where the functions of this file stand; the numbers only have to differ.
abbrev pub devfs_finddir_fn : ℕ
devfs_finddir_fn = 1

abbrev pub devfs_print_tree_fn : ℕ
devfs_print_tree_fn = 2

abbrev pub devfs_log_write_fn : ℕ
devfs_log_write_fn = 3

abbrev pub devfs_log_ioctl_fn : ℕ
devfs_log_ioctl_fn = 4

abbrev pub no_functions : Functions
no_functions = record {
  open_fn = 0;
  close_fn = 0;
  read_fn = 0;
  write_fn = 0;
  lseek_fn = 0;
  ioctl_fn = 0;
  finddir_fn = 0;
  readdir_fn = 0;
  create_fn = 0;
  mount_fn = 0;
  print_tree_fn = 0;
}

-- The walk of DevFSList.
unfoldable pub find_device : List ℕ → List DeviceEntry → Option DeviceEntry
unfolding same_name
find_device name [] = none
find_device name (entry ∷ entries) =
    if same_name entry.name name then some entry else find_device name entries

-- The vfs_node_t that stands for a device node.
unfoldable pub node_for : DeviceNode → Node
node_for d = record {
  name = d.name;
  payload = d.payload;
  flags = d.flags;
  intern_index = d.intern_index;
  size = 0;
  reference_count = 0;
  offset = 0;
  status = 0;
  functions = d.functions;
}

unfoldable pub devfs_finddir : ℕ → List ℕ → Option (List ℕ) → Cmd Store (ℕ × Option (List ℕ))
unfolding find_device node_for allocate set_node
devfs_finddir node name path s = elim (find_device name s.devices) [
  | none ↦ ok (0, path) s
  | some entry ↦ elim (s.device_nodes entry.node) [
    | none ↦ fault
    | some d ↦
        and_then (allocate s)
          (λ a t. if a == 0 then fault else ok (a, path) (set_node a (node_for d) t))
  ]
]

-- devfs_mount
unfoldable pub devfs_mount : List ℕ → ℕ → Cmd Store (Unit {0})
unfolding characters
devfs_mount name node s =
    ok tt (record s { devices = s.devices ++ record { name = characters name; node = node } ∷ [] })

-- "%.*s"
abbrev pub log_format : List ℕ
log_format = 0x25 ∷ b'.' ∷ 0x2A ∷ b's' ∷ []

unfoldable pub devfs_log_write : ℕ → List ℕ → ℕ → Cmd Store ℕ
unfolding vsnprintf_internal
devfs_log_write node bytes size s =
    elim (vsnprintf_internal log_format (word size ∷ text bytes ∷ [])) [
      | none ↦ fault
      | some out ↦ ok size (record s { printed = s.printed ++ out })
    ]

unfoldable pub devfs_log_ioctl : ℕ → ℕ → ℕ → Cmd Store ℕ
devfs_log_ioctl node request arg s = ok (if request == tiocgwinsz then 0 else refused) s

-- The node of the directory, and the node of the log device, as kmalloc and the assignments of
-- devfs_init make them.
abbrev pub devfs_node : Node
devfs_node = record {
  name = buffer (b'D' ∷ b'e' ∷ b'v' ∷ b'F' ∷ b'S' ∷ []) [];
  payload = 0;
  flags = vfs_directory;
  intern_index = 0;
  size = 0;
  reference_count = 0;
  offset = 0;
  status = 0;
  functions = record no_functions {
    finddir_fn = devfs_finddir_fn;
    print_tree_fn = devfs_print_tree_fn;
  };
}

abbrev pub log_node : DeviceNode
log_node = record {
  name = buffer (b'S' ∷ b'e' ∷ b'r' ∷ b'i' ∷ b'a' ∷ b'l' ∷ b'L' ∷ b'o' ∷ b'g' ∷ []) [];
  payload = 0;
  flags = 0;
  intern_index = 0;
  functions = record no_functions { write_fn = devfs_log_write_fn; ioctl_fn = devfs_log_ioctl_fn };
}

-- "/dev/" and "log"
abbrev pub dev_path : List ℕ
dev_path = b'/' ∷ b'd' ∷ b'e' ∷ b'v' ∷ b'/' ∷ 0 ∷ []

abbrev pub log_name : List ℕ
log_name = b'l' ∷ b'o' ∷ b'g' ∷ 0 ∷ []

unfoldable pub set_device_node : ℕ → DeviceNode → Store → Store
set_device_node a d s = record s { device_nodes = λ b. if b == a then some d else s.device_nodes b }

-- A store through NULL
unfoldable pub store_at : ℕ → (Store → Store) → Cmd Store (Unit {0})
store_at a f s = if a == 0 then fault else ok tt (f s)

unfoldable pub devfs_init : Cmd Store (Unit {0})
unfolding allocate set_node set_device_node store_at vfs_mount devfs_mount
devfs_init = do
  s ← get_state
  put_state (record s { devices = [] })
  a ← allocate
  store_at a (set_node a devfs_node)
  vfs_mount dev_path a
  b ← allocate
  store_at b (set_device_node b log_node)
  devfs_mount log_name b

-- "root"
abbrev pub root_name : Key
root_name = b'r' ∷ b'o' ∷ b'o' ∷ b't' ∷ []

unfoldable pub vfs_init : Cmd Store (Unit {0})
unfolding devfs_init
vfs_init = do s ← get_state; put_state (record s { tree = branch root_name 0 nil }); devfs_init

-- The functions that the kernel has for nodes; there is no other code to call.
unfoldable pub kernel_drivers : Drivers
unfolding devfs_finddir devfs_log_write devfs_log_ioctl
kernel_drivers = record {
  open_at = λ f node flags. fault_cmd;
  close_at = λ f node. fault_cmd;
  read_at = λ f node bytes size. fault_cmd;
  write_at = λ f node bytes size.
      if f == devfs_log_write_fn then devfs_log_write node bytes size else fault_cmd;
  lseek_at = λ f node offset kind. fault_cmd;
  ioctl_at = λ f node request arg.
      if f == devfs_log_ioctl_fn then devfs_log_ioctl node request arg else fault_cmd;
  finddir_at =
      λ f node name path. if f == devfs_finddir_fn then devfs_finddir node name path else fault_cmd;
  readdir_at = λ f node dirent. fault_cmd;
  create_at = λ f node name flags. fault_cmd;
  mount_at = λ f node device flags path arg. fault_cmd;
}
