-- ===== src/Vfs/Mounts.antt =====
-- Mount points as a partial function from paths to nodes: what vfs_mount does to it.
use new_wiv_os.Base.{
  ℕ, zero, suc, ◌<◌, ◌≡◌, ◌≢◌, refl, sym, ap, ◌∙◌, arith, Bool, true, false, ◌&&◌, if◌then◌else◌,
  ◌==◌, Bool-cases, Option-cases, inl, inr, Option, none, some, List, [], ◌∷◌, length,
}
use new_wiv_os.Strings.Text.{strcmp, strsep, buffer, NoNul, strsep_loop, in_delimiters}
use new_wiv_os.Hashmap.{Key, same_key}
use new_wiv_os.Hashmap.Keys.{same_key_refl, same_key_congr, same_key_right}
use new_wiv_os.Vfs.{
  Tree, Branches, branch, nil, more, name_of, node_of, branches_of, same_name, replace_child,
  put_child, mount_here, child_for, vfs_mount_recursive,
}
use new_wiv_os.Vfs.Paths.{
  IsName, IsPath, rest_path, child_of, same_path, same_name-same_key, find_child-child_of,
  characters-buffer, IsName-NoNul, same_name-empty, strsep-Cut, child_of-name, child_of_congr,
}

-- The node at a path; 0 where the tree has no such branch.
abbrev pub node_at : Tree → List Key → ℕ
node_at b [] = node_of b
node_at b (t ∷ ts) = elim (child_of t (branches_of b)) [ none ↦ 0 | some c ↦ node_at c ts ]

-- A token that strcmp compares like the name t.
module _ (t token : Key) (is : (name : Key) → same_name name token ≡ same_key name t) where
  child_of-replace_child :
      (new : Tree) (u : Key) (bs : Branches)
      → same_key (name_of new) t ≡ true
      → child_of t bs ≢ none
      → child_of u (replace_child token new bs) ≡ (if same_key t u then some new else child_of u bs)
  unfolding replace_child
  child_of-replace_child new u nil name found = absurd (found refl)
  child_of-replace_child new u (more b bs) name found = rw (is (name_of b)) (
      ground (
        arith,
        same_key_congr (name_of new) t u name,
        same_key_congr (name_of b) t u,
        same_key_right (name_of b) t u,
        λ (h : child_of t bs ≢ none). child_of-replace_child new u bs name h,
        found,
      ))

  child_of-put_child :
      (new : Tree) (u : Key) (bs : Branches)
      → same_key (name_of new) t ≡ true
      → child_of u (put_child token new bs) ≡ (if same_key t u then some new else child_of u bs)
  unfolding put_child
  child_of-put_child new u bs name = elim (Option-cases (child_of t bs)) [
    | inl out ↦
        ground
          (arith, find_child-child_of t token is bs, out, same_key_congr (name_of new) t u name)
    | inr (old, in_bs) ↦ ground (
      arith,
      find_child-child_of t token is bs,
      in_bs,
      child_of-replace_child new u bs name (λ e. cc (e, in_bs)),
    )
  ]

child_for-child_of :
    (t behind : Key) (bs : Branches)
    → NoNul t
    → child_for (buffer t behind) bs ≡ (elim (child_of t bs) [ none ↦ branch t 0 nil | some c ↦ c ])
unfolding child_for
child_for-child_of t behind bs h =
    rw
      (
        child_for,
        find_child-child_of t (buffer t behind) (λ name. same_name-same_key name t behind h) bs,
      )
      (ap (λ (x : Key). elim (child_of t bs) as (λ o. Tree) [ none ↦ branch x 0 nil | some c ↦ c ])
        (characters-buffer t behind h))

pub record Mounted (fuel : ℕ) (path : Option (List ℕ)) (ts : List Key) (b : Tree) (node : ℕ)
    : Type 0 where
  pub after : Tree
  pub runs : vfs_mount_recursive fuel path b node ≡ some after
  pub name : name_of after ≡ name_of b
  pub view :
      (us : List Key)
      → node_at after us ≡ (if same_path ts us && (node_at b us == 0) then node else node_at b us)

pub mount_here-view :
    (b : Tree) (node : ℕ) (us : List Key)
    → node_at (mount_here b node) us
      ≡ (if same_path [] us && (node_at b us == 0) then node else node_at b us)
unfolding mount_here
mount_here-view (branch name old bs) node [] = ground arith
mount_here-view (branch name old bs) node (u ∷ us) = ground arith

node_at_new : (t : Key) (us : List Key) → node_at (branch t 0 nil) us ≡ 0
node_at_new t [] = refl
node_at_new t (u ∷ us) = refl

-- One step down: the child that is put back holds what the recursion made of it.
module _ (t : Key) (behind : List ℕ) (bs : Branches) (h : IsName t) where
  abbrev token : List ℕ
  token = buffer t behind

  is : (name : Key) → same_name name token ≡ same_key name t
  is name = same_name-same_key name t behind (IsName-NoNul t h)

  abbrev below : Tree
  below = elim (child_of t bs) [ none ↦ branch t 0 nil | some c ↦ c ]

  name-below : same_key (name_of below) t ≡ true
  name-below = elim (Option-cases (child_of t bs)) [
    | inl out ↦ rw (name_of, out) (same_key_refl t)
    | inr (c, at) ↦ rw (name_of, at) (child_of-name t bs c at)
  ]

  below-new : child_of t bs ≡ none → below ≡ branch t 0 nil
  below-new out = rw (below, out) refl

  below-old : (c : Tree) → child_of t bs ≡ some c → below ≡ c
  below-old c at = rw (below, at) refl

  below-view :
      (u : Key) (us : List Key)
      → same_key t u ≡ true
      → node_at (branch [] 0 bs) (u ∷ us) ≡ node_at below us
  below-view u us e = elim (Option-cases (child_of t bs)) [
    | inl out ↦
        rw (node_at, child_of_congr t u bs e, out)
          (sym (node_at_new t us) ∙ ap (λ (b : Tree). node_at b us) (sym (below-new out)))
    | inr (c, at) ↦
        rw (node_at, child_of_congr t u bs e, at)
          (ap (λ (b : Tree). node_at b us) (sym (below-old c at)))
  ]

  put_child-view :
      (name : Key) (old : ℕ) (new : Tree) (node : ℕ) (ts : List Key)
      → name_of new ≡ name_of below
      → ((us : List Key)
          → node_at new us
            ≡ (if same_path ts us && (node_at below us == 0) then node else node_at below us))
      → (us : List Key)
      → node_at (branch name old (put_child token new bs)) us ≡ (
          if same_path (t ∷ ts) us && (node_at (branch name old bs) us == 0)
          then node
          else node_at (branch name old bs) us)
  put_child-view name old new node ts same view [] = ground arith
  put_child-view name old new node ts same view (u ∷ us) = elim (Bool-cases (same_key t u)) [
    | inl e ↦
        rw (node_at, child_of-put_child t token is new u bs (rw same name-below), e)
          (view us ∙ rw (below-view u us e) refl)
    | inr e ↦ rw (node_at, child_of-put_child t token is new u bs (rw same name-below), e) refl
  ]

mount-step :
    (slashed : Bool) (fuel : ℕ) (t : Key) (ts : List Key) (after : List ℕ) (b : Tree) (node : ℕ)
    (h : IsPath (t ∷ ts))
    → Mounted fuel
        (rest_path slashed ts after)
        ts
        (below t (strsep-Cut slashed t ts after h.0).behind (branches_of b) h.0)
        node
    → Mounted (suc fuel) (rest_path slashed (t ∷ ts) after) (t ∷ ts) b node
unfolding vfs_mount_recursive
mount-step slashed fuel t ts after (branch name old bs) node h m =
    let c = strsep-Cut slashed t ts after h.0 in
    record {
      after = branch name old (put_child (buffer t c.behind) m.after bs);
      runs =
          rw
            (
              vfs_mount_recursive,
              c.cut,
              same_name-empty t c.behind h.0,
              child_for-child_of t c.behind bs (IsName-NoNul t h.0),
              m.runs,
            )
            refl;
      name = refl;
      view = put_child-view t c.behind bs h.0 name old m.after node ts m.name m.view;
    }

name-mount_here : (b : Tree) (node : ℕ) → name_of (mount_here b node) ≡ name_of b
unfolding mount_here
name-mount_here (branch name old bs) node = ground arith

mount-end :
    (slashed : Bool) (fuel : ℕ) (after : List ℕ) (b : Tree) (node : ℕ)
    → vfs_mount_recursive (suc fuel) (rest_path slashed [] after) b node ≡ some (mount_here b node)
unfolding vfs_mount_recursive strsep strsep_loop in_delimiters same_name strcmp
mount-end true fuel after b node = refl
mount-end false fuel after b node = refl

pub mount-Mounted :
    (slashed : Bool) (fuel : ℕ) (ts : List Key) (after : List ℕ) (b : Tree) (node : ℕ)
    → IsPath ts
    → length ts < fuel
    → Mounted fuel (rest_path slashed ts after) ts b node
mount-Mounted slashed zero ts after b node h lt = absurd (omega arith)
mount-Mounted slashed (suc fuel) [] after b node h lt = record {
  after = mount_here b node;
  runs = mount-end slashed fuel after b node;
  name = name-mount_here b node;
  view = mount_here-view b node;
}
mount-Mounted slashed (suc fuel) (t ∷ ts) after b node h lt =
    mount-step slashed fuel t ts after b node h (
      mount-Mounted slashed fuel ts after
        (below t (strsep-Cut slashed t ts after h.0).behind (branches_of b) h.0) node h.1
        (omega arith))
