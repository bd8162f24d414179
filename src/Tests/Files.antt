-- ===== src/Tests/Files.antt =====
-- The file system with the mount point /dev.
use new_wiv_os.Base.{◌≡◌, refl, true, false, none, some, [], ◌∷◌, arith}
use new_wiv_os.Base.Run.{ok}
use new_wiv_os.Strings.Text.{strcmp}
use new_wiv_os.Hashmap.{same_key}
use new_wiv_os.Vfs.{Tree, branch, nil, mount_path, vfs_get_mountpoint}
use new_wiv_os.Vfs.Remounts.{Resolved, whole, Remount, mount_path-Remount}
use new_wiv_os.Vfs.Whole.{vfs_get_mountpoint-deepest, mount-get}
use new_wiv_os.Vfs.Nodes.{Store, has_flag, set_node}
use new_wiv_os.Vfs.Devices.{
  root_name, set_device_node, kernel_drivers, log_node, node_for, find_device,
}
use new_wiv_os.Vfs.Open.{kopen}
use new_wiv_os.Vfs.Walking.{Behind, Registered}
use new_wiv_os.Vfs.Opened.{kopen-Registered, kopen_missing}
use new_wiv_os.Vfs.Halting.{Halts}
use new_wiv_os.Vfs.Ends.{kopen-Halts}
use new_wiv_os.Vfs.Boot.{
  dev_name, log_key, dev-IsName, log-IsName, booted, mounted_node, booted-Behind, booted-Registered,
  booted-node,
}

abbrev bare : Tree
bare = branch root_name 9 nil

mount_path-Remount_example :
    Remount bare (whole true (dev_name ∷ log_key ∷ []) []) (dev_name ∷ log_key ∷ []) 7
mount_path-Remount_example =
    mount_path-Remount bare true (dev_name ∷ log_key ∷ []) [] 7 (dev-IsName, (log-IsName, tt))

vfs_get_mountpoint-deepest_example :
    Resolved true [] bare (whole true (dev_name ∷ []) []) (dev_name ∷ [])
vfs_get_mountpoint-deepest_example =
    vfs_get_mountpoint-deepest bare true (dev_name ∷ []) [] (dev-IsName, tt)

mount-get_example :
    (mounted : Tree) × (mount_path bare (whole true (dev_name ∷ []) []) 7 ≡ some mounted)
    × (vfs_get_mountpoint mounted (some (whole false (dev_name ∷ []) [])) ≡ some (7, none))
mount-get_example =
    mount-get bare true false (dev_name ∷ []) [] [] 7 (dev-IsName, tt) (omega arith) refl

abbrev cold : Store
cold = record {
  tree = bare;
  devices = [];
  nodes = λ a. none;
  device_nodes = λ a. none;
  fresh = 0x1000 ∷ 0x2000 ∷ 0x3000 ∷ [];
  printed = [];
}

abbrev warm : Store
warm = booted cold 0x1000 0x2000 (0x3000 ∷ [])

found : Registered warm log_key 0x1000 0x3000 mounted_node log_node
found = booted-Registered cold 0x1000 0x2000 0x3000 [] (omega arith)

kopen-Registered_example :
    kopen 2 kernel_drivers (whole false (dev_name ∷ log_key ∷ []) []) 0 warm
    ≡ ok 0x3000 (set_node 0x3000 (node_for log_node) (record warm { fresh = found.more }))
kopen-Registered_example =
    kopen-Registered 0 warm dev_name log_key [] 0 0x1000 0x3000 mounted_node log_node
      (booted-Behind cold 0x1000 0x2000 (0x3000 ∷ []) (omega arith)) found refl

abbrev no_devices : Store
no_devices = record warm { devices = [] }

missing-Behind : Behind no_devices dev_name log_key 0x1000
unfolding same_key strcmp set_device_node
missing-Behind = record {
  names = (dev-IsName, (log-IsName, tt));
  mounted = refl;
  left = refl;
  real = omega arith;
}

kopen_missing_example :
    kopen 2 kernel_drivers (whole false (dev_name ∷ log_key ∷ []) []) 0x10 no_devices
    ≡ ok 0x1000 no_devices
unfolding has_flag find_device
kopen_missing_example =
    kopen_missing 0 no_devices dev_name log_key [] 0x10 0x1000 mounted_node missing-Behind
      (booted-node cold 0x1000 0x2000 (0x3000 ∷ [])) refl refl refl refl refl

kopen-Halts_example :
    Halts (kopen 12 kernel_drivers (whole false (dev_name ∷ log_key ∷ []) []) 0 warm)
kopen-Halts_example = kopen-Halts 12 (whole false (dev_name ∷ log_key ∷ []) []) 0 warm (omega arith)
