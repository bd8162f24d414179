-- ===== src/Strings/Text.antt =====
-- The NUL-terminated strings of kernel/utils/string.c and kernel/utils/ctype.h. A pointer is the
-- list of the bytes from it to the end of its object; `none` is a read past that end.
use mathlib.Core.Option
use new_wiv_os.Base.{
  ℕ, zero, suc, ◌+◌, ◌-◌, ◌%◌, ◌^◌, ◌≡◌, refl, ◌≢◌, ◌↔◌, Bool, true, false, ◌&&◌, ◌||◌, not, arith,
  ltb, leb, ◌==◌, if◌then◌else◌, List, [], ◌∷◌, ◌++◌, Option, none, some, length, bit_or,
}
use new_wiv_os.Strings.Memory.{Sign, minus_one, equal, one}

-- isdigit((uint8_t)(c - '0') <= 9)
unfoldable pub isdigit : ℕ → Bool
isdigit c = leb ((c + 2 ^ 32 - b'0') % 256) 9

-- ((unsigned) c | 32) - 'a' < 26
unfoldable pub isalpha : ℕ → Bool
isalpha c = ltb ((bit_or c 32 + 2 ^ 32 - b'a') % 2 ^ 32) 26

unfoldable pub strcmp : List ℕ → List ℕ → Option Sign
strcmp [] t = none
strcmp (a ∷ s) [] = none
strcmp (a ∷ s) (b ∷ t) =
    let rest = strcmp s t in
    if a == b && not (a == 0)
    then rest
    else if ltb a b
    then some minus_one
    else if ltb b a
    then some one
    else if a == 0 || b == 0
    then some equal
    else rest

unfoldable pub strncmp : List ℕ → List ℕ → ℕ → Option Sign
strncmp s t zero = some equal
strncmp [] t (suc n) = none
strncmp (a ∷ s) [] (suc n) = none
strncmp (a ∷ s) (b ∷ t) (suc n) =
    let rest = strncmp s t n in
    if a == b && not (a == 0)
    then rest
    else if ltb a b
    then some minus_one
    else if ltb b a
    then some minus_one
    else if a == 0 || b == 0
    then some equal
    else rest

unfoldable pub strlen : List ℕ → Option ℕ
strlen [] = none
strlen (a ∷ s) = let rest = strlen s in if a == 0 then some 0 else Option.map suc rest

-- The inner loop of strsep: is c one of the delimiters, or the NUL that ends them?
unfoldable pub in_delimiters : ℕ → List ℕ → Option Bool
in_delimiters c [] = none
in_delimiters c (sc ∷ span) =
    let rest = in_delimiters c span in
    if sc == c then some true else if sc == 0 then some false else rest

-- strsep on a buffer: the bytes of the token as they stand after the call (cut by a NUL where the
-- delimiter stood), and the new value of *stringPointer.
unfoldable pub strsep_loop : List ℕ → List ℕ → Option (List ℕ × Option (List ℕ))
strsep_loop [] delimiter = none
strsep_loop (c ∷ str) delimiter =
    let rest = strsep_loop str delimiter in
    elim (in_delimiters c delimiter) [
      | none ↦ none
      | some true ↦ if c == 0 then some (c ∷ str, none) else some (0 ∷ str, some str)
      | some false ↦ Option.map (λ (r : List ℕ × Option (List ℕ)). (c ∷ r.0, r.1)) rest
    ]

-- `some (none, none)` is the NULL that strsep returns for a NULL *stringPointer.
unfoldable pub strsep : Option (List ℕ) → List ℕ → Option (Option (List ℕ) × Option (List ℕ))
unfolding strsep_loop in_delimiters
strsep none delimiter = some (none, none)
strsep (some str) delimiter =
    Option.map (λ (r : List ℕ × Option (List ℕ)). (some r.0, r.1)) (strsep_loop str delimiter)

-- A string's characters, and the buffer that holds them: characters, NUL, and what follows.
abbrev pub buffer : List ℕ → List ℕ → List ℕ
buffer [] after = 0 ∷ after
buffer (c ∷ cs) after = c ∷ buffer cs after

abbrev pub NoNul : List ℕ → Type 0
NoNul [] = Unit {0}
NoNul (c ∷ cs) = (c ≢ 0) × NoNul cs

-- The dictionary order of character strings.
abbrev pub compare_text : List ℕ → List ℕ → Sign
compare_text [] [] = equal
compare_text [] (b ∷ t) = minus_one
compare_text (a ∷ s) [] = one
compare_text (a ∷ s) (b ∷ t) =
    if a == b then compare_text s t else if ltb a b then minus_one else one

-- strlen counts the characters before the NUL.
pub strlen-length : (cs after : List ℕ) → NoNul cs → strlen (buffer cs after) ≡ some (length cs)
unfolding strlen
strlen-length [] after h = refl
strlen-length (c ∷ cs) after h = ground (arith, strlen-length cs after h.1)

-- For two strings without a NUL inside, strcmp is their dictionary order, whatever stands behind
-- their NULs.
pub strcmp-compare_text :
    (s t after_s after_t : List ℕ)
    → NoNul s
    → NoNul t
    → strcmp (buffer s after_s) (buffer t after_t) ≡ some (compare_text s t)
unfolding strcmp
strcmp-compare_text [] [] x y hs ht = refl
strcmp-compare_text [] (b ∷ t) x y hs ht = ground arith
strcmp-compare_text (a ∷ s) [] x y hs ht = ground arith
strcmp-compare_text (a ∷ s) (b ∷ t) x y hs ht =
    ground (arith, strcmp-compare_text s t x y hs.1 ht.1)

pub compare_text-equal_iff : (s t : List ℕ) → (compare_text s t ≡ equal) ↔ (s ≡ t)
compare_text-equal_iff [] [] = ((λ h. refl), (λ h. refl))
compare_text-equal_iff [] (b ∷ t) = ground arith
compare_text-equal_iff (a ∷ s) [] = ground arith
compare_text-equal_iff (a ∷ s) (b ∷ t) = ground (arith, compare_text-equal_iff s t)

-- The first n characters.
abbrev pub take_text : ℕ → List ℕ → List ℕ
take_text zero s = []
take_text (suc n) [] = []
take_text (suc n) (c ∷ s) = c ∷ take_text n s

-- For two strings without a NUL inside, strncmp over n characters answers 0 exactly if their
-- first n characters agree.
pub strncmp-equal_iff :
    (n : ℕ) (s t after_s after_t : List ℕ)
    → NoNul s
    → NoNul t
    → (strncmp (buffer s after_s) (buffer t after_t) n ≡ some equal)
      ↔ (take_text n s ≡ take_text n t)
unfolding strncmp
strncmp-equal_iff zero s t x y hs ht = ((λ h. refl), (λ h. refl))
strncmp-equal_iff (suc n) [] [] x y hs ht = ((λ h. refl), (λ h. refl))
strncmp-equal_iff (suc n) [] (b ∷ t) x y hs ht = ground arith
strncmp-equal_iff (suc n) (a ∷ s) [] x y hs ht = ground arith
strncmp-equal_iff (suc n) (a ∷ s) (b ∷ t) x y hs ht =
    ground (arith, strncmp-equal_iff n s t x y hs.1 ht.1)

-- strncmp never answers 1.
pub strncmp-ne-one : (n : ℕ) (s t : List ℕ) → strncmp s t n ≢ some one
unfolding strncmp
strncmp-ne-one zero s t = ground arith
strncmp-ne-one (suc n) [] t = ground arith
strncmp-ne-one (suc n) (a ∷ s) [] = ground arith
strncmp-ne-one (suc n) (a ∷ s) (b ∷ t) = ground (arith, strncmp-ne-one n s t)

module _ (d : ℕ) (nonzero : d ≢ 0) where
  -- No character of the text is d.
  abbrev pub Without : List ℕ → Type 0
  Without [] = Unit {0}
  Without (c ∷ cs) = (c ≢ d) × (c ≢ 0) × Without cs

  pub strsep_loop-found :
      (cs rest : List ℕ)
      → Without cs
      → strsep_loop (cs ++ d ∷ rest) (d ∷ 0 ∷ []) ≡ some (buffer cs rest, some rest)
  unfolding strsep_loop in_delimiters
  strsep_loop-found [] rest h = ground arith
  strsep_loop-found (c ∷ cs) rest h = ground (arith, strsep_loop-found cs rest h.2)

  pub strsep_loop-last :
      (cs after : List ℕ)
      → Without cs
      → strsep_loop (buffer cs after) (d ∷ 0 ∷ []) ≡ some (buffer cs after, none)
  unfolding strsep_loop in_delimiters
  strsep_loop-last [] after h = ground arith
  strsep_loop-last (c ∷ cs) after h = ground (arith, strsep_loop-last cs after h.2)
