-- ===== src/Vfs/Paths.antt =====
-- Paths as lists of names, and how strsep takes them apart.
use new_wiv_os.Base.{
  ℕ, suc, ◌≡◌, ◌≢◌, refl, ap, arith, Bool, true, false, ◌&&◌, if◌then◌else◌, Option, none, some,
  List, [], ◌∷◌, ◌++◌, length,
}
use new_wiv_os.Strings.Text.{
  strcmp, strsep, buffer, NoNul, Without, strsep_loop-found, strsep_loop-last,
}
use new_wiv_os.Hashmap.{Key, same_key}
use new_wiv_os.Hashmap.Keys.{same_key_right}
use new_wiv_os.Vfs.{Tree, Branches, nil, more, name_of, same_name, characters, find_child}

pub slash : ◌≢◌ {A = ℕ} b'/' 0
slash = omega arith

-- A name on a path: some characters, none of them a slash or a NUL.
abbrev pub IsName : Key → Type 0
IsName name = (name ≢ []) × Without b'/' slash name

abbrev pub IsPath : List Key → Type 0
IsPath [] = Unit {0}
IsPath (t ∷ ts) = IsName t × IsPath ts

-- The names with a slash between each two, and one at the end where `slashed`.
abbrev pub joined : Bool → Key → List Key → Key
joined slashed t [] = if slashed then t ++ b'/' ∷ [] else t
joined slashed t (u ∷ ts) = t ++ b'/' ∷ joined slashed u ts

-- The rest of a path, as strsep leaves it: NULL behind the last name.
abbrev pub rest_path : Bool → List Key → List ℕ → Option (List ℕ)
rest_path slashed [] after = if slashed then some (0 ∷ after) else none
rest_path slashed (t ∷ ts) after = some (buffer (joined slashed t ts) after)

abbrev pub child_of : Key → Branches → Option Tree
child_of t nil = none
child_of t (more b bs) = if same_key (name_of b) t then some b else child_of t bs

abbrev pub same_path : List Key → List Key → Bool
same_path [] [] = true
same_path [] (u ∷ us) = false
same_path (t ∷ ts) [] = false
same_path (t ∷ ts) (u ∷ us) = same_key t u && same_path ts us

strcmp-after : (s t after : List ℕ) → NoNul t → strcmp s (buffer t after) ≡ strcmp s (buffer t [])
unfolding strcmp
strcmp-after [] t after h = refl
strcmp-after (a ∷ s) [] after h = ground arith
strcmp-after (a ∷ s) (b ∷ t) after h = ground (arith, strcmp-after s t after h.1)

pub Without-NoNul : (t : Key) → Without b'/' slash t → NoNul t
Without-NoNul [] h = tt
Without-NoNul (c ∷ t) h = (h.1, Without-NoNul t h.2)

pub same_name-same_key :
    (name t after : List ℕ) → NoNul t → same_name name (buffer t after) ≡ same_key name t
unfolding same_name same_key
same_name-same_key name t after h =
    rw (same_name, same_key, strcmp-after (buffer name []) t after h)

pub characters-buffer : (t after : List ℕ) → NoNul t → characters (buffer t after) ≡ t
unfolding characters
characters-buffer [] after h = refl
characters-buffer (c ∷ t) after h = ground (arith, characters-buffer t after h.1)

-- A token that strcmp compares like the name t.
module _ (t token : Key) (is : (name : Key) → same_name name token ≡ same_key name t) where
  pub find_child-child_of : (bs : Branches) → find_child token bs ≡ child_of t bs
  unfolding find_child
  find_child-child_of nil = refl
  find_child-child_of (more b bs) = ground (arith, is (name_of b), find_child-child_of bs)

pub IsName-NoNul : (t : Key) → IsName t → NoNul t
IsName-NoNul t h = Without-NoNul t h.1

pub same_name-empty : (t after : List ℕ) → IsName t → same_name [] (buffer t after) ≡ false
unfolding same_name strcmp
same_name-empty [] after h = absurd (h.0 refl)
same_name-empty (c ∷ t) after h = ground (arith, h.1)

pub buffer-append : (t q after : List ℕ) → buffer (t ++ b'/' ∷ q) after ≡ t ++ b'/' ∷ buffer q after
buffer-append [] q after = refl
buffer-append (c ∷ t) q after = ap (λ x. c ∷ x) (buffer-append t q after)

-- strsep takes the first name off a path.
pub record Cut (slashed : Bool) (t : Key) (ts : List Key) (after : List ℕ) : Type 0 where
  pub behind : List ℕ
  pub cut :
      strsep (rest_path slashed (t ∷ ts) after) (b'/' ∷ 0 ∷ [])
      ≡ some (some (buffer t behind), rest_path slashed ts after)
  pub room : length (buffer t behind) ≡ length (buffer (joined slashed t ts) after)

room_lem :
    (t q after : List ℕ)
    → length (buffer t (buffer q after)) ≡ length (buffer (t ++ b'/' ∷ q) after)
room_lem [] q after = refl
room_lem (c ∷ t) q after = ap suc (room_lem t q after)

pub strsep-Cut :
    (slashed : Bool) (t : Key) (ts : List Key) (after : List ℕ) → IsName t → Cut slashed t ts after
unfolding strsep
strsep-Cut false t [] after h = record {
  behind = after;
  cut = rw (strsep, strsep_loop-last b'/' slash t after h.1);
  room = refl;
}
strsep-Cut true t [] after h = record {
  behind = 0 ∷ after;
  cut = rw (strsep, buffer-append t [] after, strsep_loop-found b'/' slash t (0 ∷ after) h.1);
  room = room_lem t [] after;
}
strsep-Cut slashed t (u ∷ us) after h = record {
  behind = buffer (joined slashed u us) after;
  cut = rw (
    strsep,
    buffer-append t (joined slashed u us) after,
    strsep_loop-found b'/' slash t (buffer (joined slashed u us) after) h.1,
  );
  room = room_lem t (joined slashed u us) after;
}

pub child_of-name :
    (t : Key) (bs : Branches) (c : Tree) → child_of t bs ≡ some c → same_key (name_of c) t ≡ true
child_of-name t nil c h = absurd cc
child_of-name t (more b bs) c h = ground (arith, child_of-name t bs c)

pub child_of_congr :
    (t u : Key) (bs : Branches) → same_key t u ≡ true → child_of u bs ≡ child_of t bs
child_of_congr t u nil h = refl
child_of_congr t u (more b bs) h =
    ground (arith, child_of_congr t u bs h, same_key_right (name_of b) t u h)
