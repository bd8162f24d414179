-- ===== src/Vfs.antt =====
-- The virtual file system, kernel/fs/vfs.c: the tree of mount points. A pointer to a vfs_node_t is a
-- number, NULL is 0. The locks of the lists of children, which each function takes and releases
-- itself, and the message "Already mounted" are left out.
pub mod Paths
pub mod Mounts
pub mod Lookup
pub mod Remounts
pub mod Whole
pub mod Nodes
pub mod Devices
pub mod Open
pub mod Walking
pub mod Opened
pub mod Logs
pub mod Boot
pub mod Halting
pub mod Ends
use mathlib.Core.Option
use new_wiv_os.Base.{
  ℕ, zero, suc, ◌+◌, Bool, true, false, if◌then◌else◌, ◌==◌, Option, none, some, List, [], ◌∷◌,
  length, get_or, set, drop, ltb, not, ◌&&◌, ◌-◌,
}
use new_wiv_os.Strings.Memory.{Sign, minus_one, equal, one}
use new_wiv_os.Strings.Text.{strcmp, strlen, strsep, buffer}
use new_wiv_os.Hashmap.{Key}

mutual
  -- A gentree_node_t with its vfs_entry_t: name, mounted node, children.
  pub data Tree : Type 0 where
    branch : Key → ℕ → Branches → Tree

  pub data Branches : Type 0 where
    nil : Branches
    more : Tree → Branches → Branches

abbrev pub name_of : Tree → Key
name_of (branch name node branches) = name

abbrev pub node_of : Tree → ℕ
node_of (branch name node branches) = node

abbrev pub branches_of : Tree → Branches
branches_of (branch name node branches) = branches

-- !strcmp(name, token); a token of strsep has its NUL.
unfoldable pub same_name : Key → List ℕ → Bool
unfolding strcmp
same_name name token = elim (strcmp (buffer name []) token) [
  | none ↦ false
  | some r ↦ elim r [ minus_one ↦ false | equal ↦ true | one ↦ false ]
]

-- strdup
unfoldable pub characters : List ℕ → Key
characters [] = []
characters (c ∷ token) = if c == 0 then [] else c ∷ characters token

-- The walk of the children.
unfoldable pub find_child : List ℕ → Branches → Option Tree
unfolding same_name
find_child token nil = none
find_child token (more t ts) = if same_name (name_of t) token then some t else find_child token ts

-- The children with the child of that name changed, or with a new child in front.
unfoldable pub replace_child : List ℕ → Tree → Branches → Branches
unfolding same_name
replace_child token new nil = nil
replace_child token new (more t ts) =
    if same_name (name_of t) token then more new ts else more t (replace_child token new ts)

unfoldable pub put_child : List ℕ → Tree → Branches → Branches
unfolding find_child replace_child
put_child token new ts = elim (find_child token ts) [
  | none ↦ more new ts
  | some old ↦ replace_child token new ts
]

-- entry->node = node, unless there is one already
unfoldable pub mount_here : Tree → ℕ → Tree
mount_here (branch name old ts) node = if old == 0 then branch name node ts else branch name old ts

-- The child to go on in: the one that is found, or a new one.
unfoldable pub child_for : List ℕ → Branches → Tree
unfolding find_child characters
child_for token ts = elim (find_child token ts) [
  | none ↦ branch (characters token) 0 nil
  | some t ↦ t
]

-- What the recursion does with the token that strsep returned and the changed rest of the path.
unfoldable pub vfs_mount_recursive : ℕ → Option (List ℕ) → Tree → ℕ → Option Tree
unfolding strsep same_name mount_here child_for put_child
vfs_mount_recursive zero path t node = none
vfs_mount_recursive (suc fuel) path t node = elim (strsep path (b'/' ∷ 0 ∷ [])) [
  | none ↦ none
  | some (none, rest) ↦ some (mount_here t node)
  | some (some token, rest) ↦
      if same_name [] token
      then some (mount_here t node)
      else elim (vfs_mount_recursive fuel rest (child_for token (branches_of t)) node) [
        | none ↦ none
        | some new ↦ some (branch (name_of t) (node_of t) (put_child token new (branches_of t)))
      ]
]

-- The node, and what *path is afterwards, by recursion on the tree; `none` is a read past the end of
-- the path's object. `go_in` is the search of the children with the call that follows it, or `none`
-- where no child has the name.
unfoldable mutual
  unfolding strsep same_name

  pub vfs_get_mountpoint_recursive : Option (List ℕ) → Tree → Option (ℕ × Option (List ℕ))
  vfs_get_mountpoint_recursive path (branch name node ts) = elim (strsep path (b'/' ∷ 0 ∷ [])) [
    | none ↦ none
    | some (none, rest) ↦ some (node, rest)
    | some (some token, rest) ↦
        let below = go_in token rest ts in
        if same_name [] token
        then some (node, rest)
        else elim below [ none ↦ some (node, some token) | some answer ↦ answer ]
  ]

  pub go_in : List ℕ → Option (List ℕ) → Branches → Option (Option (ℕ × Option (List ℕ)))
  go_in token rest nil = none
  go_in token rest (more t ts) =
      let here = vfs_get_mountpoint_recursive rest t in
      let later = go_in token rest ts in if same_name (name_of t) token then some here else later

-- A '/' at the end of a path of at least two characters is overwritten.
unfoldable pub cut_slash : List ℕ → Option (List ℕ)
unfolding strlen
cut_slash path = elim (strlen path) [
  | none ↦ none
  | some n ↦ some (if ltb 1 n && get_or path (n - 1) 0 == b'/' then set path (n - 1) 0 else path)
]

-- vfs_get_mountpoint behind that: the argument is *path.
unfoldable pub mountpoint_of : Tree → List ℕ → Option (ℕ × Option (List ℕ))
unfolding strlen vfs_get_mountpoint_recursive
mountpoint_of root path =
    if not (get_or path 0 0 == b'/') then some (0, some path) else elim (strlen path) [
      | none ↦ none
      | some n ↦
          if n == 1
          then some (node_of root, none)
          else vfs_get_mountpoint_recursive (some (drop 1 path)) root
    ]

unfoldable pub vfs_get_mountpoint : Tree → Option (List ℕ) → Option (ℕ × Option (List ℕ))
unfolding cut_slash mountpoint_of
vfs_get_mountpoint root none = some (0, none)
vfs_get_mountpoint root (some path) = Option.bind (cut_slash path) (mountpoint_of root)

-- vfs_mount on the tree
unfoldable pub mount_path : Tree → List ℕ → ℕ → Option Tree
unfolding strlen mount_here vfs_mount_recursive
mount_path root path node = elim (strlen path) [
  | none ↦ none
  | some n ↦
      if get_or path 0 0 == b'/' && n == 1
      then some (mount_here root node)
      else vfs_mount_recursive (length path) (some (drop 1 path)) root node
]
