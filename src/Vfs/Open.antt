-- ===== src/Vfs/Open.antt =====
-- kopen of kernel/fs/vfs.c. Its calls of a file system's finddir may move the path on, so that its
-- loop runs for at most `fuel` rounds.
use new_wiv_os.Base.{
  ℕ, zero, suc, ◌-◌, if◌then◌else◌, ◌==◌, Option, none, some, List, [], ◌∷◌, length, drop, bit_and,
}
use new_wiv_os.Base.Run.{ok, fault, hang, Cmd, and_then}
use new_wiv_os.Strings.Text.{strsep}
use new_wiv_os.Strings.Search.{strdup, strstr}
use new_wiv_os.Vfs.{vfs_get_mountpoint}
use new_wiv_os.Vfs.Nodes.{Store, Drivers, o_creat, vfs_open, vfs_finddir, vfs_create}

-- How the loop ends: kopen returns NULL, or it is left with startPoint and nextNode.
pub data Walk : Type 0 where
  missing : Walk
  reached : (start next : ℕ) → Walk

unfoldable pub walk : ℕ → Drivers → ℕ → ℕ → ℕ → Option (List ℕ) → Cmd Store Walk
unfolding strsep vfs_finddir vfs_create
walk zero drivers flags start next path s = hang
walk (suc fuel) drivers flags start next path s = elim (strsep path (b'/' ∷ 0 ∷ [])) [
  | none ↦ fault
  | some (none, rest) ↦ ok (reached start next) s
  | some (some token, rest) ↦
      and_then (vfs_finddir drivers start token rest s)
        (λ (found : ℕ × Option (List ℕ)) (t : Store).
          if found.0 == 0
          then (if bit_and flags o_creat == 0
              then ok missing t
              else and_then (vfs_create drivers start token flags t)
                  (λ created u. ok (reached start created) u))
          else walk fuel drivers flags found.0 found.0 found.1 t)
]

-- The place in the untouched copy where the path is left: strstr from the same offset on.
unfoldable pub new_start : List ℕ → Option (List ℕ) → Option (Option (List ℕ))
unfolding strstr
new_start save none = some none
new_start save (some filename) = strstr (drop (length save - length filename) save) filename

unfoldable pub open_node : Drivers → ℕ → ℕ → Cmd Store ℕ
unfolding vfs_open
open_node drivers flags node s = and_then (vfs_open drivers node flags s) (λ unit t. ok node t)

unfoldable pub finish_open : Drivers → ℕ → Walk → Cmd Store ℕ
unfolding open_node
finish_open drivers flags missing s = ok 0 s
finish_open drivers flags (reached start next) s =
    open_node drivers flags (if next == 0 then start else next) s

unfoldable pub kopen : ℕ → Drivers → List ℕ → ℕ → Cmd Store ℕ
unfolding strdup vfs_get_mountpoint new_start walk finish_open
kopen fuel drivers name flags s = elim (strdup name) [
  | none ↦ fault
  | some save ↦ elim (vfs_get_mountpoint s.tree (some save)) [
    | none ↦ fault
    | some (start, filename) ↦ if start == 0 then ok 0 s else elim (new_start save filename) [
      | none ↦ fault
      | some path ↦ and_then (walk fuel drivers flags start 0 path s) (finish_open drivers flags)
    ]
  ]
]
