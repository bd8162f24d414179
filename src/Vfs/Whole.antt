-- ===== src/Vfs/Whole.antt =====
-- Whole paths: mounting and looking up, from the first slash on.
use new_wiv_os.Base.{
  ℕ, suc, ◌<◌, ◌≡◌, ◌≢◌, refl, ◌∙◌, arith, Bool, true, false, Option, none, some, List, [], ◌∷◌,
  get_or, drop,
}
use new_wiv_os.Strings.Text.{strlen}
use new_wiv_os.Hashmap.{Key}
use new_wiv_os.Hashmap.Keys.{same_key_refl}
use new_wiv_os.Vfs.{
  Tree, Branches, branch, more, vfs_get_mountpoint_recursive, cut_slash, mountpoint_of,
  vfs_get_mountpoint, mount_path,
}
use mathlib.Core.Option
use new_wiv_os.Vfs.Paths.{IsName, IsPath, child_of, same_path}
use new_wiv_os.Vfs.Mounts.{node_at}
use new_wiv_os.Vfs.Lookup.{deepest, get-Found, deepest-node_at}
use new_wiv_os.Vfs.Remounts.{
  Resolved, whole, length-joined, strlen-whole, mount_path-Remount, cut_after, cut_slash-whole,
}

mountpoint_of-long :
    (b : Tree) (path : List ℕ) (n : ℕ)
    → strlen path ≡ some (suc n)
    → 0 < n
    → get_or path 0 0 ≡ b'/'
    → mountpoint_of b path ≡ vfs_get_mountpoint_recursive (some (drop 1 path)) b
unfolding mountpoint_of
mountpoint_of-long b path n e lt first = rw (mountpoint_of, e) (ground arith)

-- For every path from the root, with or without a slash at its end, vfs_get_mountpoint returns the
-- node of the deepest branch on the path, and leaves in *path the first name behind that branch, or
-- NULL.
pub vfs_get_mountpoint-deepest :
    (b : Tree) (slashed : Bool) (ts : List Key) (after : List ℕ)
    → IsPath ts
    → Resolved slashed after b (whole slashed ts after) ts
unfolding vfs_get_mountpoint cut_slash mountpoint_of strlen Option.bind
vfs_get_mountpoint-deepest b slashed [] after h = record { left = none; runs = refl; rest = refl }
vfs_get_mountpoint-deepest b slashed (t ∷ ts) after h =
    let f = get-Found false (t ∷ ts) (cut_after slashed after) b h in
    record {
      left = f.left;
      runs =
          rw (vfs_get_mountpoint, cut_slash-whole slashed t ts after h)
            (mountpoint_of-long b (whole false (t ∷ ts) (cut_after slashed after)) _
                (strlen-whole false t ts (cut_after slashed after) h)
                (omega (arith, length-joined false t ts h)) refl
              ∙ f.runs);
      rest = f.rest;
    }

same_path_refl : (ts : List Key) → same_path ts ts ≡ true
same_path_refl [] = refl
same_path_refl (t ∷ ts) = rw (same_path, same_key_refl t, same_path_refl ts) refl

-- A node that vfs_mount hangs up at a path that named none is what vfs_get_mountpoint finds there
-- afterwards, with nothing left of the path, whether or not either path ends in a slash.
pub mount-get :
    (b : Tree) (slashed again : Bool) (ts : List Key) (behind after : List ℕ) (node : ℕ)
    → IsPath ts
    → node ≢ 0
    → node_at b ts ≡ 0
    → (mounted : Tree) × (mount_path b (whole slashed ts behind) node ≡ some mounted)
      × (vfs_get_mountpoint mounted (some (whole again ts after)) ≡ some (node, none))
mount-get b slashed again ts behind after node h ne free =
    let m = mount_path-Remount b slashed ts behind node h in
    let g = vfs_get_mountpoint-deepest m.after again ts after h in
    let at : node_at m.after ts ≡ node = m.view ts ∙ rw (same_path_refl ts, free) refl in
    let d = deepest-node_at m.after ts (rw at ne) in
    let left : g.left ≡ none = rw d.0 at g.rest in
    (m.after, m.runs, g.runs ∙ rw (d.1, at, left) refl)

-- Where the path is /t/v, and the root's first child t has no node and no child v, vfs_get_mountpoint
-- answers NULL, whatever is mounted at the root.
pub mountpoint_hidden :
    (root_name : Key) (root : ℕ) (bs others : Branches) (t v : Key) (after : List ℕ)
    → IsName t
    → IsName v
    → child_of v bs ≡ none
    → (left : Option (List ℕ)) × (vfs_get_mountpoint
          (branch root_name root (more (branch t 0 bs) others))
          (some (whole false (t ∷ v ∷ []) after))
        ≡ some (0, left))
mountpoint_hidden root_name root bs others t v after ht hv out =
    let b = branch root_name root (more (branch t 0 bs) others) in
    let g = vfs_get_mountpoint-deepest b false (t ∷ v ∷ []) after (ht, (hv, tt)) in
    let stops : deepest b (t ∷ v ∷ []) ≡ (branch t 0 bs, v ∷ []) =
      rw (deepest, same_key_refl t, out) refl in
    (g.left, g.runs ∙ rw stops refl)
