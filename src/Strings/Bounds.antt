-- ===== src/Strings/Bounds.antt =====
-- How long what the searches of strings return is.
use new_wiv_os.Base.{
  ℕ, zero, suc, ◌<◌, ◌≤◌, arith, true, false, Bool, if◌then◌else◌, ◌==◌, not, Option, none, some,
  List, [], ◌∷◌, length, drop, take,
}
use mathlib.Core.Option
use new_wiv_os.Strings.Memory.{Sign, minus_one, equal, one}
use new_wiv_os.Strings.Text.{strlen, strncmp, strsep_loop, in_delimiters}
use new_wiv_os.Strings.Search.{strdup, strstr, strstr_loop}

-- strsep leaves less than it was given.
abbrev pub room : Option (List ℕ) → ℕ
room none = 0
room (some path) = suc (length path)

-- The rest that strsep leaves is shorter than n.
abbrev pub Small : ℕ → Option (List ℕ × Option (List ℕ)) → Type 0
Small n none = Unit {0}
Small n (some r) = room r.1 < n

Small-map :
    (n c : ℕ) (r : Option (List ℕ × Option (List ℕ)))
    → Small n r
    → Small (suc n) (Option.map (λ (q : List ℕ × Option (List ℕ)). (c ∷ q.0, q.1)) r)
Small-map n c none h = tt
Small-map n c (some r) h = omega (arith, h)

pub strsep_loop-Small :
    (str delimiter : List ℕ) → Small (suc (length str)) (strsep_loop str delimiter)
unfolding strsep_loop
strsep_loop-Small [] delimiter = tt
strsep_loop-Small (c ∷ str) delimiter =
    cases (in_delimiters c delimiter)
      (Small-map (suc (length str)) c (strsep_loop str delimiter) (strsep_loop-Small str delimiter))
  where
    cases :
        (o : Option Bool)
        → Small (suc (suc (length str))) (
            Option.map
              (λ (q : List ℕ × Option (List ℕ)). (c ∷ q.0, q.1))
              (strsep_loop str delimiter))
        → Small (suc (suc (length str))) (elim o [
          | none ↦ none
          | some true ↦ if c == 0 then some (c ∷ str, none) else some (0 ∷ str, some str)
          | some false ↦
              Option.map
                (λ (r : List ℕ × Option (List ℕ)). (c ∷ r.0, r.1))
                (strsep_loop str delimiter)
        ])
    cases none h = tt
    cases (some true) h = ground arith
    cases (some false) h = h

-- A place in a text of n bytes
abbrev pub Within : ℕ → Option (Option (List ℕ)) → Type 0
Within n none = Unit {0}
Within n (some place) = room place ≤ suc n

Within-if :
    (n : ℕ) (b : Bool) (x y : Option (Option (List ℕ)))
    → Within n x
    → Within n y
    → Within n (if b then x else y)
Within-if n true x y h g = h
Within-if n false x y h g = g

Within-suc : (n : ℕ) (x : Option (Option (List ℕ))) → Within n x → Within (suc n) x
Within-suc n none h = tt
Within-suc n (some place) h = omega (arith, h)

strstr_loop-Within : (c n : ℕ) (str text : List ℕ) → Within (length text) (strstr_loop c str n text)
unfolding strstr_loop
strstr_loop-Within c n str [] = tt
strstr_loop-Within c n str (sc ∷ rest) =
    let later =
      Within-suc (length rest) (strstr_loop c str n rest) (strstr_loop-Within c n str rest) in
    Within-if (length (sc ∷ rest)) (sc == 0) _ _ (omega arith) (
      Within-if (length (sc ∷ rest)) (not (sc == c)) _ _ later
        (compared later (strncmp rest str n)))
  where
    compared :
        Within (suc (length rest)) (strstr_loop c str n rest)
        → (o : Option Sign)
        → Within (suc (length rest)) (elim o [
          | none ↦ none
          | some r ↦ elim r [
            | minus_one ↦ strstr_loop c str n rest
            | equal ↦ some (some (sc ∷ rest))
            | one ↦ strstr_loop c str n rest
          ]
        ])
    compared later none = tt
    compared later (some minus_one) = later
    compared later (some equal) = omega arith
    compared later (some one) = later

pub strstr-Within : (text str : List ℕ) → Within (length text) (strstr text str)
unfolding strstr
strstr-Within text [] = tt
strstr-Within text (c ∷ str) =
    Within-if (length text) (c == 0) _ _ (omega arith) (measured (strlen str))
  where
    measured :
        (o : Option ℕ)
        → Within (length text) (elim o [ none ↦ none | some n ↦ strstr_loop c str n text ])
    measured none = tt
    measured (some n) = strstr_loop-Within c n str text

pub length-drop : (n : ℕ) (xs : List ℕ) → length (drop n xs) ≤ length xs
length-drop zero xs = omega arith
length-drop (suc n) [] = omega arith
length-drop (suc n) (x ∷ xs) = omega (arith, length-drop n xs)

length-take : (n : ℕ) (xs : List ℕ) → length (take n xs) ≤ length xs
length-take zero xs = omega arith
length-take (suc n) [] = omega arith
length-take (suc n) (x ∷ xs) = omega (arith, length-take n xs)

pub Within-mono : (n m : ℕ) (x : Option (Option (List ℕ))) → n ≤ m → Within n x → Within m x
Within-mono n m none le h = tt
Within-mono n m (some place) le h = omega (arith, le, h)

-- A copy of at most n bytes
abbrev pub Fits : ℕ → Option (List ℕ) → Type 0
Fits n none = Unit {0}
Fits n (some text) = length text ≤ n

pub strdup-Fits : (name : List ℕ) → Fits (length name) (strdup name)
unfolding strdup
strdup-Fits name = counted (strlen name)
  where
    counted : (o : Option ℕ) → Fits (length name) (Option.map (λ (n : ℕ). take (suc n) name) o)
    counted none = tt
    counted (some n) = length-take (suc n) name
