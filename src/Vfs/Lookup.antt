-- ===== src/Vfs/Lookup.antt =====
-- vfs_get_mountpoint: how far a path goes in the tree of mount points.
use new_wiv_os.Base.{
  ℕ, ◌≡◌, ◌≢◌, refl, ap, ◌∙◌, if◌then◌else◌, Bool, true, false, Bool-cases, Option-cases, inl, inr,
  Option, none, some, List, [], ◌∷◌, length,
}
use new_wiv_os.Strings.Text.{strcmp, strsep, buffer, strsep_loop, in_delimiters}
use mathlib.Core.Option
use new_wiv_os.Hashmap.{Key}
use new_wiv_os.Vfs.{
  Tree, Branches, branch, nil, more, node_of, branches_of, name_of, same_name, find_child,
  vfs_get_mountpoint_recursive, go_in,
}
use new_wiv_os.Vfs.Paths.{
  IsPath, joined, rest_path, child_of, same_name-same_key, find_child-child_of, IsName-NoNul,
  same_name-empty, strsep-Cut,
}
use new_wiv_os.Vfs.Mounts.{node_at}

-- The deepest branch on a path, and the names that are left.
abbrev pub deepest : Tree → List Key → Tree × List Key
deepest b [] = (b, [])
deepest b (t ∷ ts) = elim (child_of t (branches_of b)) [
  | none ↦ (b, t ∷ ts)
  | some c ↦ deepest c ts
]

-- *path afterwards: NULL, or the first name that is left, cut off by a NUL.
abbrev pub LeftPath : Bool → List ℕ → List Key → Option (List ℕ) → Type 0
LeftPath slashed after [] path = path ≡ none
LeftPath slashed after (t ∷ ts) path =
    (behind : List ℕ) × (path ≡ some (buffer t behind))
    × (length (buffer t behind) ≡ length (buffer (joined slashed t ts) after))

get-end :
    (slashed : Bool) (after : List ℕ) (b : Tree)
    → vfs_get_mountpoint_recursive (rest_path slashed [] after) b ≡ some (node_of b, none)
unfolding vfs_get_mountpoint_recursive strsep strsep_loop in_delimiters same_name strcmp
get-end true after (branch name node ts) = refl
get-end false after (branch name node ts) = refl

-- The search of the children goes on in the child that find_child finds.
go_in-find_child :
    (token : List ℕ) (rest : Option (List ℕ)) (ts : Branches)
    → go_in token rest ts ≡ Option.map (vfs_get_mountpoint_recursive rest) (find_child token ts)
unfolding go_in find_child
go_in-find_child token rest nil = refl
go_in-find_child token rest (more t ts) = elim (Bool-cases (same_name (name_of t) token)) [
  | inl same ↦ rw same refl
  | inr other ↦ rw other (go_in-find_child token rest ts)
]

-- One call, where strsep cuts a token off.
get-token :
    (name : Key) (node : ℕ) (ts : Branches) (path rest : Option (List ℕ)) (token : List ℕ)
    → strsep path (b'/' ∷ 0 ∷ []) ≡ some (some token, rest)
    → same_name [] token ≡ false
    → vfs_get_mountpoint_recursive path (branch name node ts)
      ≡ elim (Option.map (vfs_get_mountpoint_recursive rest) (find_child token ts)) [
        | none ↦ some (node, some token)
        | some answer ↦ answer
      ]
unfolding vfs_get_mountpoint_recursive
get-token name node ts path rest token cut named =
    ap
      (λ (o : Option (Option (List ℕ) × Option (List ℕ))).
        elim o as (λ x. Option (ℕ × Option (List ℕ))) [
          | none ↦ none
          | some (none, rest) ↦ some (node, rest)
          | some (some token, rest) ↦
              if same_name [] token then some (node, rest) else elim (go_in token rest ts) [
                | none ↦ some (node, some token)
                | some answer ↦ answer
              ]
        ])
      cut
    ∙ rw (named, go_in-find_child token rest ts) refl

pub record Found (slashed : Bool) (after : List ℕ) (path : Option (List ℕ)) (ts : List Key)
    (b : Tree) : Type 0 where
  pub left : Option (List ℕ)
  pub runs : vfs_get_mountpoint_recursive path b ≡ some (node_of (deepest b ts).0, left)
  pub rest : LeftPath slashed after (deepest b ts).1 left

get-step :
    (slashed : Bool) (t : Key) (ts : List Key) (after : List ℕ) (b : Tree)
    → IsPath (t ∷ ts)
    → ((c : Tree) → Found slashed after (rest_path slashed ts after) ts c)
    → Found slashed after (rest_path slashed (t ∷ ts) after) (t ∷ ts) b
get-step slashed t ts after (branch name node bs) h next =
    let c = strsep-Cut slashed t ts after h.0 in
    let token : List ℕ = buffer t c.behind in
    let find =
      find_child-child_of t token (λ name. same_name-same_key name t c.behind (IsName-NoNul t h.0))
        bs in
    let step =
      get-token name node bs (rest_path slashed (t ∷ ts) after) (rest_path slashed ts after) token
        c.cut (same_name-empty t c.behind h.0) in
    elim (Option-cases (child_of t bs)) [
      | inl out ↦ record {
        left = some token;
        runs = rw (step, find, deepest, out) refl;
        rest = rw (deepest, out) (c.behind, refl, c.room);
      }
      | inr (child, at) ↦
          let f = next child in
          record {
            left = f.left;
            runs = rw (step, find, deepest, at) f.runs;
            rest = rw (deepest, at) f.rest;
          }
    ]

pub get-Found :
    (slashed : Bool) (ts : List Key) (after : List ℕ) (b : Tree)
    → IsPath ts
    → Found slashed after (rest_path slashed ts after) ts b
get-Found slashed [] after b h = record { left = none; runs = get-end slashed after b; rest = refl }
get-Found slashed (t ∷ ts) after b h =
    get-step slashed t ts after b h (λ c. get-Found slashed ts after c h.1)

-- A path with a node ends at its own branch.
pub deepest-node_at :
    (b : Tree) (ts : List Key)
    → node_at b ts ≢ 0
    → ((deepest b ts).1 ≡ []) × (node_of (deepest b ts).0 ≡ node_at b ts)
deepest-node_at b [] h = (refl, refl)
deepest-node_at b (t ∷ ts) h = elim (Option-cases (child_of t (branches_of b))) [
  | inl out ↦ absurd (h (rw (node_at, out) refl))
  | inr (c, at) ↦ rw (deepest, node_at, at) (deepest-node_at c ts (rw (node_at, at) at h))
]
