-- ===== src/Hashmap/Keys.antt =====
-- When strcmp takes two keys for the same, and that such keys have one hash.
use new_wiv_os.Base.{
  ℕ, ◌+◌, ◌-◌, ◌%◌, ◌^◌, true, false, if◌then◌else◌, ◌==◌, some, ◌≡◌, refl, ◌↔◌, sym, ◌∙◌, ap, [],
  ◌∷◌, arith, Bool-cases, inl, inr,
}
use new_wiv_os.Strings.Text.{strcmp, buffer, compare_text, compare_text-equal_iff}
use new_wiv_os.Base.Bits.{shl}
use new_wiv_os.Hashmap.{Key, same_key, hash_loop, hashmap_string_hash}

-- The characters up to the NUL.
unfoldable pub trim : Key → Key
trim [] = []
trim (c ∷ key) = if c == 0 then [] else c ∷ trim key

strcmp-trim :
    (a b : Key) → strcmp (buffer a []) (buffer b []) ≡ some (compare_text (trim a) (trim b))
unfolding strcmp trim
strcmp-trim [] [] = refl
strcmp-trim [] (d ∷ b) = ground arith
strcmp-trim (c ∷ a) [] = ground arith
strcmp-trim (c ∷ a) (d ∷ b) = ground (arith, strcmp-trim a b)

pub same_key_iff : (a b : Key) → (same_key a b ≡ true) ↔ (trim a ≡ trim b)
unfolding same_key
same_key_iff a b =
    rw (same_key, strcmp-trim a b) (ground (arith, compare_text-equal_iff (trim a) (trim b)))

pub same_key_refl : (a : Key) → same_key a a ≡ true
same_key_refl a = (same_key_iff a a).1 refl

pub same_key_symm : (a b : Key) → same_key a b ≡ same_key b a
same_key_symm a b = ground (arith, same_key_iff a b, same_key_iff b a)

pub same_key_congr : (a b c : Key) → same_key a b ≡ true → same_key a c ≡ same_key b c
same_key_congr a b c h = ground (arith, same_key_iff a b, same_key_iff a c, same_key_iff b c)

hash_loop-trim : (h : ℕ) (a : Key) → hash_loop h a ≡ hash_loop h (trim a)
unfolding hash_loop trim
hash_loop-trim h [] = refl
hash_loop-trim h (c ∷ a) =
    let h' = (c + shl h 6 % 2 ^ 32 + shl h 16 % 2 ^ 32 + 2 ^ 32 - h) % 2 ^ 32 in
    elim (Bool-cases (c == 0)) [
      | inl end ↦ rw end
      | inr more ↦ rw more (hash_loop-trim h' a ∙ sym (step more h'))
    ]
  where
    step :
        (c == 0) ≡ false
        → (h' : ℕ) → (if c == 0 then h else hash_loop h' (trim a)) ≡ hash_loop h' (trim a)
    step more h' = rw more

pub same_key_right : (a b c : Key) → same_key b c ≡ true → same_key a b ≡ same_key a c
same_key_right a b c h = ground (arith, same_key_iff a b, same_key_iff a c, same_key_iff b c)

-- Keys that strcmp takes for the same have one hash.
pub hash_congr : (a b : Key) → same_key a b ≡ true → hashmap_string_hash a ≡ hashmap_string_hash b
unfolding hashmap_string_hash
hash_congr a b h =
    hash_loop-trim 0 a ∙ ap (hash_loop 0) ((same_key_iff a b).0 h) ∙ sym (hash_loop-trim 0 b)
