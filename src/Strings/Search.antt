-- ===== src/Strings/Search.antt =====
-- The searches of kernel/utils/string.c: strstr and copies of strings.
use mathlib.Core.Option
use new_wiv_os.Base.{
  ℕ, suc, ◌≡◌, refl, not, if◌then◌else◌, ◌==◌, ==_refl, ==_false, ap, List, [], ◌∷◌, Option, none,
  some, length, take,
}
use new_wiv_os.Strings.Memory.{minus_one, equal, one}
use new_wiv_os.Strings.Text.{strlen, strncmp, buffer, NoNul, strlen-length, strncmp-equal_iff}

-- strdup: the new object has strlen + 1 bytes.
unfoldable pub strdup : List ℕ → Option (List ℕ)
unfolding strlen
strdup str = Option.map (λ n. take (suc n) str) (strlen str)

-- The two loops of strstr, behind the first character c of the text that is looked for.
unfoldable pub strstr_loop : ℕ → List ℕ → ℕ → List ℕ → Option (Option (List ℕ))
unfolding strncmp
strstr_loop c str n [] = none
strstr_loop c str n (sc ∷ rest) =
    let later = strstr_loop c str n rest in
    if sc == 0 then some none else if not (sc == c) then later else elim (strncmp rest str n) [
      | none ↦ none
      | some r ↦ elim r [ minus_one ↦ later | equal ↦ some (some (sc ∷ rest)) | one ↦ later ]
    ]

-- `some none` is NULL.
unfoldable pub strstr : List ℕ → List ℕ → Option (Option (List ℕ))
unfolding strlen strstr_loop
strstr text [] = none
strstr text (c ∷ str) =
    if c == 0
    then some (some text)
    else elim (strlen str) [ none ↦ none | some n ↦ strstr_loop c str n text ]

take-buffer : (cs after : List ℕ) → take (suc (length cs)) (buffer cs after) ≡ buffer cs []
take-buffer [] after = refl
take-buffer (c ∷ cs) after = ap (λ r. c ∷ r) (take-buffer cs after)

-- strdup copies the characters and the NUL.
pub strdup-buffer : (cs after : List ℕ) → NoNul cs → strdup (buffer cs after) ≡ some (buffer cs [])
unfolding strdup
strdup-buffer cs after h = rw (strdup, strlen-length cs after h) (ap some (take-buffer cs after))

-- A text is found in front of itself.
pub strstr-here :
    (c : ℕ) (cs after behind : List ℕ)
    → NoNul (c ∷ cs)
    → strstr (buffer (c ∷ cs) after) (buffer (c ∷ cs) behind) ≡ some (some (buffer (c ∷ cs) after))
unfolding strstr strstr_loop
strstr-here c cs after behind h =
    let same = (strncmp-equal_iff (length cs) cs cs after behind h.1 h.1).1 refl in
    rw (strstr, strlen-length cs behind h.1, strstr_loop, same, ==_refl c, ==_false c 0 h.0) refl
