-- ===== src/Vfs/Remounts.antt =====
-- Whole paths: mounting, and the slash at the end that a search cuts off.
use new_wiv_os.Base.{
  ℕ, zero, suc, ◌+◌, ◌-◌, ◌<◌, ◌≡◌, ◌≢◌, refl, sym, ap, ◌∙◌, arith, Bool, true, false, ◌&&◌,
  if◌then◌else◌, ◌==◌, Option, some, List, [], ◌∷◌, ◌++◌, length, get_or, set, drop, length-append,
}
use new_wiv_os.Strings.Text.{strlen, buffer, NoNul, Without, strlen-length}
use new_wiv_os.Hashmap.{Key}
use new_wiv_os.Vfs.{
  Tree, node_of, mount_here, vfs_mount_recursive, cut_slash, vfs_get_mountpoint, mount_path,
}
use mathlib.Core.List.{append_assoc}
use new_wiv_os.Vfs.Paths.{slash, IsName, IsPath, joined, same_path, IsName-NoNul, buffer-append}
use new_wiv_os.Vfs.Mounts.{node_at, mount_here-view, mount-Mounted}
use new_wiv_os.Vfs.Lookup.{deepest, LeftPath}

-- A path from the root, with a slash at its end where `slashed`, and the bytes behind its NUL.
abbrev pub whole : Bool → List Key → List ℕ → List ℕ
whole slashed [] after = b'/' ∷ 0 ∷ after
whole slashed (t ∷ ts) after = b'/' ∷ buffer (joined slashed t ts) after

NoNul-append : (p q : Key) → NoNul p → NoNul q → NoNul (p ++ q)
NoNul-append [] q hp hq = hq
NoNul-append (c ∷ p) q hp hq = (hp.0, NoNul-append p q hp.1 hq)

pub joined-NoNul :
    (slashed : Bool) (t : Key) (ts : List Key) → IsPath (t ∷ ts) → NoNul (joined slashed t ts)
joined-NoNul true t [] h = NoNul-append t (b'/' ∷ []) (IsName-NoNul t h.0) (slash, tt)
joined-NoNul false t [] h = IsName-NoNul t h.0
joined-NoNul slashed t (u ∷ us) h =
    NoNul-append t (b'/' ∷ joined slashed u us) (IsName-NoNul t h.0)
      (slash, joined-NoNul slashed u us h.1)

length-name : (t : Key) → IsName t → 0 < length t
length-name [] h = absurd (h.0 refl)
length-name (c ∷ t) h = omega arith

pub length-joined :
    (slashed : Bool) (t : Key) (ts : List Key)
    → IsPath (t ∷ ts)
    → length ts < length (joined slashed t ts)
length-joined true t [] h = omega (arith, length-append t (b'/' ∷ []))
length-joined false t [] h = length-name t h.0
length-joined slashed t (u ∷ us) h =
    omega (arith, length-append t (b'/' ∷ joined slashed u us), length-joined slashed u us h.1)

pub length-buffer : (q after : Key) → length (buffer q after) ≡ length q + 1 + length after
length-buffer [] after = omega arith
length-buffer (c ∷ q) after = omega (arith, length-buffer q after)

pub strlen-whole :
    (slashed : Bool) (t : Key) (ts : List Key) (after : List ℕ)
    → IsPath (t ∷ ts)
    → strlen (whole slashed (t ∷ ts) after) ≡ some (suc (length (joined slashed t ts)))
strlen-whole slashed t ts after h =
    strlen-length (b'/' ∷ joined slashed t ts) after (slash, joined-NoNul slashed t ts h)

mount_path-long :
    (b : Tree) (path : List ℕ) (node n : ℕ)
    → strlen path ≡ some (suc n)
    → 0 < n
    → mount_path b path node ≡ vfs_mount_recursive (length path) (some (drop 1 path)) b node
unfolding mount_path
mount_path-long b path node n e lt = rw (mount_path, e) (ground arith)

-- A mount at the path of the names ts that returns, and what the paths name afterwards.
pub record Remount (b : Tree) (path : List ℕ) (ts : List Key) (node : ℕ) : Type 0 where
  pub after : Tree
  pub runs : mount_path b path node ≡ some after
  pub view :
      (us : List Key)
      → node_at after us ≡ (if same_path ts us && (node_at b us == 0) then node else node_at b us)

-- Mounting a node at a path from the root, with or without a slash at its end, returns, and changes
-- the map from paths to nodes only at that path, and there only if it named none.
pub mount_path-Remount :
    (b : Tree) (slashed : Bool) (ts : List Key) (behind : List ℕ) (node : ℕ)
    → IsPath ts
    → Remount b (whole slashed ts behind) ts node
unfolding mount_path strlen
mount_path-Remount b slashed [] behind node h = record {
  after = mount_here b node;
  runs = refl;
  view = mount_here-view b node;
}
mount_path-Remount b slashed (t ∷ ts) behind node h =
    let m =
      mount-Mounted slashed (length (whole slashed (t ∷ ts) behind)) (t ∷ ts) behind b node h
        (omega (arith, length-joined slashed t ts h, length-buffer (joined slashed t ts) behind)) in
    record {
      after = m.after;
      runs =
          mount_path-long b (whole slashed (t ∷ ts) behind) node _
            (strlen-whole slashed t ts behind h) (omega (arith, length-joined slashed t ts h))
          ∙ m.runs;
      view = m.view;
    }

-- The path that the search goes down: the one of the call, without the slash at its end.
abbrev pub cut_after : Bool → List ℕ → List ℕ
cut_after slashed after = if slashed then 0 ∷ after else after

-- vfs_get_mountpoint finds the deepest branch on the path.
pub record Resolved (slashed : Bool) (after : List ℕ) (b : Tree) (path : List ℕ) (ts : List Key)
    : Type 0 where
  pub left : Option (List ℕ)
  pub runs : vfs_get_mountpoint b (some path) ≡ some (node_of (deepest b ts).0, left)
  pub rest : LeftPath false (cut_after slashed after) (deepest b ts).1 left

get_or-buffer : (q after : Key) (i : ℕ) → i < length q → get_or (buffer q after) i 0 ≡ get_or q i 0
get_or-buffer [] after i h = elim h [ ]
get_or-buffer (c ∷ q) after zero h = refl
get_or-buffer (c ∷ q) after (suc i) h = get_or-buffer q after i (omega arith)

get_or-append : (p q : Key) (n i : ℕ) → n ≡ length p + i → get_or (p ++ q) n 0 ≡ get_or q i 0
get_or-append [] q n i e = ap (λ k. get_or q k 0) (omega arith)
get_or-append (c ∷ p) q zero i e = absurd (omega arith)
get_or-append (c ∷ p) q (suc n) i e = get_or-append p q n i (omega arith)

set-append : (p q : Key) (c d n : ℕ) → n ≡ length p → set (p ++ c ∷ q) n d ≡ p ++ d ∷ q
set-append [] q c d zero e = refl
set-append [] q c d (suc n) e = absurd (omega arith)
set-append (x ∷ p) q c d zero e = absurd (omega arith)
set-append (x ∷ p) q c d (suc n) e = ap (λ r. x ∷ r) (set-append p q c d n (omega arith))

buffer-split : (q after : Key) → buffer q after ≡ q ++ 0 ∷ after
buffer-split [] after = refl
buffer-split (c ∷ q) after = ap (λ r. c ∷ r) (buffer-split q after)

get_or-Without : (t : Key) (i : ℕ) → Without b'/' slash t → get_or t i 0 ≢ b'/'
get_or-Without [] i h = omega arith
get_or-Without (c ∷ t) zero h = h.0
get_or-Without (c ∷ t) (suc i) h = get_or-Without t i h.2

-- The last character of a path without a slash at its end
last-rest :
    (t u : Key) (us : List Key) (n m : ℕ)
    → length (joined false u us) ≡ suc m
    → n ≡ length t + suc m
    → get_or (joined false u us) m 0 ≢ b'/'
    → get_or (joined false t (u ∷ us)) n 0 ≢ b'/'
last-rest t u us n m e at last = rw (get_or-append t (b'/' ∷ joined false u us) n (suc m) at) last

last-joined :
    (t : Key) (ts : List Key) (n : ℕ)
    → IsPath (t ∷ ts)
    → length (joined false t ts) ≡ suc n
    → get_or (joined false t ts) n 0 ≢ b'/'
last-joined t [] n h e = get_or-Without t n h.0.1
last-joined t (u ∷ us) zero h e =
    absurd
      (omega (arith, e, length-append t (b'/' ∷ joined false u us), length-joined false u us h.1))
last-joined t (u ∷ us) (suc n) h e =
    last-rest t u us (suc n) (length (joined false u us) - 1)
      (omega (arith, length-joined false u us h.1))
      (omega (arith, e, length-append t (b'/' ∷ joined false u us), length-joined false u us h.1))
      (last-joined u us (length (joined false u us) - 1) h.1
        (omega (arith, length-joined false u us h.1)))

slashed-joined : (t : Key) (ts : List Key) → joined true t ts ≡ joined false t ts ++ b'/' ∷ []
slashed-joined t [] = refl
slashed-joined t (u ∷ us) =
    ap (λ r. t ++ b'/' ∷ r) (slashed-joined u us)
    ∙ sym (append_assoc t (b'/' ∷ joined false u us) (b'/' ∷ []))

cut_slash-plain :
    (path : List ℕ) (n : ℕ)
    → strlen path ≡ some (suc n)
    → get_or path n 0 ≢ b'/'
    → cut_slash path ≡ some path
unfolding cut_slash
cut_slash-plain path n len last = rw (cut_slash, len) (ground arith)

cut_slash-slashed :
    (path : List ℕ) (n : ℕ)
    → strlen path ≡ some (suc n)
    → 0 < n
    → get_or path n 0 ≡ b'/'
    → cut_slash path ≡ some (set path n 0)
unfolding cut_slash
cut_slash-slashed path n len lt last = rw (cut_slash, len) (ground arith)

length-true : (t : Key) (ts : List Key) → length (joined true t ts) ≡ length (joined false t ts) + 1
length-true t ts =
    rw (slashed-joined t ts) (omega (arith, length-append (joined false t ts) (b'/' ∷ [])))

last-whole :
    (t : Key) (ts : List Key) (after : List ℕ) (m : ℕ)
    → IsPath (t ∷ ts)
    → length (joined false t ts) ≡ suc m
    → get_or (whole false (t ∷ ts) after) (length (joined false t ts)) 0 ≢ b'/'
last-whole t ts after m h e =
    rw e (rw (get_or-buffer (joined false t ts) after m (omega arith)) (last-joined t ts m h e))

whole-true :
    (t : Key) (ts : List Key) (after : List ℕ)
    → whole true (t ∷ ts) after ≡ (b'/' ∷ joined false t ts) ++ b'/' ∷ 0 ∷ after
whole-true t ts after =
    ap (λ r. b'/' ∷ r)
      (ap (λ q. buffer q after) (slashed-joined t ts) ∙ buffer-append (joined false t ts) [] after)

pub cut_slash-whole :
    (slashed : Bool) (t : Key) (ts : List Key) (after : List ℕ)
    → IsPath (t ∷ ts)
    → cut_slash (whole slashed (t ∷ ts) after)
      ≡ some (whole false (t ∷ ts) (cut_after slashed after))
cut_slash-whole false t ts after h =
    cut_slash-plain (whole false (t ∷ ts) after) (length (joined false t ts))
      (strlen-whole false t ts after h)
      (last-whole t ts after (length (joined false t ts) - 1) h
        (omega (arith, length-joined false t ts h)))
cut_slash-whole true t ts after h =
    let q = joined false t ts in
    let n = length q + 1 in
    cut_slash-slashed (whole true (t ∷ ts) after) n
      (strlen-whole true t ts after h ∙ ap (λ k. some (suc k)) (length-true t ts)) (omega arith)
      (rw (whole-true t ts after) (get_or-append (b'/' ∷ q) (b'/' ∷ 0 ∷ after) n 0 (omega arith)))
    ∙ ap some (
        ap (λ r. set r n 0) (whole-true t ts after)
        ∙ set-append (b'/' ∷ q) (0 ∷ after) b'/' 0 n (omega arith)
        ∙ ap (λ r. b'/' ∷ r) (sym (buffer-split q (0 ∷ after))))
