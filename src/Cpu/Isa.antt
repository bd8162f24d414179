-- ===== src/Cpu/Isa.antt =====
-- The features that the ISA string names.
use new_wiv_os.Base.{
  ℕ, ◌+◌, ◌-◌, ◌/◌, ◌^◌, ◌≤◌, ◌<◌, ◌≡◌, refl, ◌∙◌, arith, ==_refl, lt→leb_false, Bool, true, false,
  ◌||◌, not, if◌then◌else◌, ◌==◌, Option, some, List, [], ◌∷◌, ◌++◌, bit_or,
}
use new_wiv_os.Base.Bits.{bit, shl, bit_or_step, bit-bit_or, bit-pow, bit-le_one}
use new_wiv_os.Strings.Text.{isalpha}
use new_wiv_os.Base.Run.{Returns}
use new_wiv_os.Devtree.{Tree, dtb_find_node, dtb_prop_read_string}
use new_wiv_os.Cpu.{
  Cpus, max_cpus, cpu_path, isa_name, properties_of, skip_width, isa_loop, read_isa, put_local,
  init_cpu,
}

-- Feature letters.
abbrev pub AllLower : List ℕ → Type 0
AllLower [] = Unit
AllLower (x ∷ xs) = ((b'a' ≤ x) × (x ≤ b'z')) × AllLower xs

abbrev pub names_letter : List ℕ → ℕ → Bool
names_letter [] c = false
names_letter (x ∷ xs) c = (x == c) || names_letter xs c

-- A small letter has bit 5.
bit_or-lower : (x : ℕ) → b'a' ≤ x → x ≤ b'z' → bit_or x 32 ≡ x
bit_or-lower x low high =
    let top : x / 2 / 2 / 2 / 2 / 2 / 2 ≡ 1 = omega arith in
    let last : bit_or (x / 2 / 2 / 2 / 2 / 2 / 2) 0 ≡ 1 = rw top refl in
    omega (
      arith,
      last,
      bit_or_step x 32,
      bit_or_step (x / 2) 16,
      bit_or_step (x / 2 / 2) 8,
      bit_or_step (x / 2 / 2 / 2) 4,
      bit_or_step (x / 2 / 2 / 2 / 2) 2,
      bit_or_step (x / 2 / 2 / 2 / 2 / 2) 1,
    )

isalpha-lower : (x : ℕ) → b'a' ≤ x → x ≤ b'z' → isalpha x ≡ true
unfolding isalpha
isalpha-lower x low high = rw (bit_or-lower x low high) (ground arith)

-- The features after one letter.
letter-bit :
    (isa x k : ℕ)
    → b'a' ≤ x
    → bit (bit_or isa (shl 1 (x - b'a'))) k ≡ (if x == k + b'a' then 1 else bit isa k)
letter-bit isa x k low =
    let one : shl 1 (x - b'a') ≡ 2 ^ (x - b'a') = omega arith in
    bit-bit_or isa (shl 1 (x - b'a')) k
    ∙ rw (one, bit-pow (x - b'a') k) (ground (arith, bit-le_one isa k))

-- Letters from 'a' to 'z' that end at the NUL or at a character that is none set the bit of each
-- letter, and leave the bits of all others.
pub isa_loop-features :
    (letters : List ℕ) (c : ℕ) (rest : List ℕ) (isa : ℕ)
    → AllLower letters
    → ((c == 0) || not (isalpha c)) ≡ true
    → (f : ℕ) × (isa_loop (letters ++ (c ∷ rest)) isa ≡ some f)
      × ((k : ℕ) → bit f k ≡ (if names_letter letters (k + b'a') then 1 else bit isa k))
unfolding isa_loop
isa_loop-features [] c rest isa lower stop = (isa, rw stop, λ k. refl)
isa_loop-features (x ∷ letters) c rest isa lower stop =
    let (f, e, bits) =
      isa_loop-features letters c rest (bit_or isa (shl 1 (x - b'a'))) lower.1 stop in
    (
      f,
      rw (isalpha-lower x lower.0.0 lower.0.1) (ground (arith, e)),
      λ k. bits k ∙ rw (letter-bit isa x k lower.0.0) (ground arith),
    )

module _ (root : Option Tree) (node : Tree) (a b c d : ℕ) (letters : List ℕ) (end : ℕ)
    (rest : List ℕ) (stacks hart : ℕ) (s : Cpus) where
  -- With a cpu node whose ISA string names letters from 'a' to 'z' behind its first four characters,
  -- and a free slot, init_cpu gives the next slot to the hart, with the features of the letters and
  -- those that the slot had; it counts the processor and leaves the other slots.
  pub init_cpu-features :
      dtb_find_node root cpu_path 0 false ≡ some node
      → dtb_prop_read_string true (properties_of node) isa_name
        ≡ some (a ∷ b ∷ c ∷ d ∷ letters ++ (end ∷ rest))
      → AllLower letters
      → ((end == 0) || not (isalpha end)) ≡ true
      → s.count < max_cpus
      → Returns (init_cpu root stacks hart s) λ _ t.
        (t.count ≡ s.count + 1)
        × ((t.locals s.count).current ≡ hart)
        × ((k : ℕ)
            → bit (t.locals s.count).isa k
              ≡ (if names_letter letters (k + b'a') then 1 else bit (s.locals s.count).isa k))
        × ((i : ℕ) → t.locals i ≡ (if i == s.count then t.locals i else s.locals i))
  unfolding init_cpu read_isa skip_width put_local
  init_cpu-features found text lower stop room =
      let (f, e, bits) = isa_loop-features letters end rest (s.locals s.count).isa lower stop in
      rw (found, text, e, lt→leb_false max_cpus s.count room, ==_refl s.count)
        (omega arith, refl, bits, λ i. ground arith)
