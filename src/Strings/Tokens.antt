-- ===== src/Strings/Tokens.antt =====
-- Sets of bytes in kernel/utils/string.c: strspn, strcspn, strpbrk, lfind and strtok_r. A pointer is
-- an address with the list of the bytes from it to the end of its object; `none` is a read past it.
use mathlib.Core.Option
use new_wiv_os.Base.{
  ℕ, suc, ◌+◌, ◌-◌, ◌/◌, ◌%◌, ◌^◌, Bool, not, ◌&&◌, if◌then◌else◌, ◌==◌, Option, none, some, List,
  [], ◌∷◌, length, drop, set, bit_and, bit_or,
}
use new_wiv_os.Strings.Scan.{strchrnul, strchr}

-- BITOP(byteset, b, |=)
unfoldable pub set_byte : (ℕ → ℕ) → ℕ → ℕ → ℕ
set_byte byteset b = λ i. if i == b / 64 then bit_or (byteset i) (2 ^ (b % 64)) else byteset i

-- BITOP(byteset, b, &), as a test
unfoldable pub has_byte : (ℕ → ℕ) → ℕ → Bool
has_byte byteset b = not (bit_and (byteset (b / 64)) (2 ^ (b % 64)) == 0)

-- for (; *c && BITOP(byteset, *c, |=); c++);
unfoldable pub fill : (ℕ → ℕ) → List ℕ → Option (ℕ → ℕ)
unfolding set_byte
fill byteset [] = none
fill byteset (b ∷ c) =
    let rest = fill (set_byte byteset b) c in if b == 0 then some byteset else rest

-- for (; *s && test(*s); s++); how far it goes
unfoldable pub span_loop : (ℕ → Bool) → List ℕ → Option ℕ
span_loop test [] = none
span_loop test (b ∷ s) =
    let rest = span_loop test s in if not (b == 0) && test b then Option.map suc rest else some 0

-- for (; *s == *c; s++);
unfoldable pub same_loop : ℕ → List ℕ → Option ℕ
same_loop c [] = none
same_loop c (b ∷ s) = let rest = same_loop c s in if b == c then Option.map suc rest else some 0

unfoldable pub strspn : List ℕ → List ℕ → Option ℕ
unfolding same_loop
strspn s [] = none
strspn s (c ∷ []) = if c == 0 then some 0 else none
strspn s (c ∷ d ∷ cs) =
    if c == 0 then some 0 else if d == 0 then same_loop c s else elim (fill (λ i. 0) (c ∷ d ∷ cs)) [
      | none ↦ none
      | some byteset ↦ span_loop (has_byte byteset) s
    ]

unfoldable pub strcspn : ℕ → List ℕ → List ℕ → Option ℕ
unfolding strchrnul
strcspn addr s [] = none
strcspn addr s (c ∷ []) =
    if c == 0 then Option.map (λ r. length s - length r) (strchrnul addr s c) else none
strcspn addr s (c ∷ d ∷ cs) =
    if not (c == 0) && not (d == 0)
    then elim (fill (λ i. 0) (c ∷ d ∷ cs)) [
      | none ↦ none
      | some byteset ↦ span_loop (λ b. not (has_byte byteset b)) s
    ]
    else Option.map (λ r. length s - length r) (strchrnul addr s c)

-- The place of the first byte out of b, as an offset; `some none` is NULL.
unfoldable pub strpbrk : ℕ → List ℕ → List ℕ → Option (Option ℕ)
unfolding strcspn
strpbrk addr s b = elim (strcspn addr s b) [
  | none ↦ none
  | some n ↦ elim (drop n s) [ [] ↦ none | c ∷ r ↦ some (if c == 0 then none else some n) ]
]

-- The place that strchr finds, as a number
unfoldable pub lfind : ℕ → List ℕ → ℕ → Option ℕ
unfolding strchr
lfind addr s accept =
    Option.map
      (λ (r : Option (List ℕ)). elim r [
        | none ↦ 0
        | some p ↦ (addr + (length s - length p)) % 2 ^ 64
      ])
      (strchr addr s accept)

-- A token and what saveptr is afterwards.
pub record Token : Type 0 where
  pub token : Option (List ℕ)
  pub save_addr : ℕ
  pub save : List ℕ

-- strtok_r behind the delimiters in front of a token at addr
unfoldable pub cut_token : ℕ → List ℕ → List ℕ → Option Token
unfolding strpbrk lfind
cut_token addr str delim = elim (strpbrk addr str delim) [
  | none ↦ none
  | some none ↦
      Option.map
        (λ (p : ℕ). record {
          token = some str;
          save_addr = p;
          save = drop ((p + 2 ^ 64 - addr) % 2 ^ 64) str;
        })
        (lfind addr str 0)
  | some (some n) ↦ some (record {
    token = some (set str n 0);
    save_addr = (addr + n + 1) % 2 ^ 64;
    save = drop (n + 1) str;
  })
]

-- strtok_r for a string at addr: str, or *saveptr where that is NULL.
unfoldable pub strtok_r : ℕ → List ℕ → List ℕ → Option Token
unfolding strspn cut_token
strtok_r addr str delim = elim (strspn str delim) [
  | none ↦ none
  | some n ↦ elim (drop n str) [
    | [] ↦ none
    | c ∷ r ↦
        if c == 0
        then some (record { token = none; save_addr = (addr + n) % 2 ^ 64; save = c ∷ r })
        else cut_token ((addr + n) % 2 ^ 64) (c ∷ r) delim
  ]
]
