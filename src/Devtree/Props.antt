-- ===== src/Devtree/Props.antt =====
-- The readers of device tree properties.
use new_wiv_os.Base.{
  ℕ, zero, suc, ◌+◌, ◌*◌, ◌≤◌, ◌<◌, true, none, some, List, [], ◌∷◌, ◌++◌, length, drop, ◌≡◌, refl,
  arith, le→ltb_false, lt→ltb, ==_refl, ==_false,
}
use new_wiv_os.Strings.Text.{buffer, NoNul, strlen-length}
use new_wiv_os.Hashmap.{Key}
use new_wiv_os.Devtree.Endian.{word32, be32-word32}
use new_wiv_os.Devtree.{
  Property, Answer, refused, answer, outside, find_property, load32, dtb_prop_read_u32,
  stringlist_loop, dtb_prop_read_stringlist,
}

-- Four bytes, the first one highest.
abbrev pub big_endian : ℕ → ℕ → ℕ → ℕ → ℕ
big_endian b0 b1 b2 b3 = ((b0 * 256 + b1) * 256 + b2) * 256 + b3

load32-append :
    (before after : List ℕ) (b0 b1 b2 b3 : ℕ)
    → load32 (before ++ b0 ∷ b1 ∷ b2 ∷ b3 ∷ after) (length before) ≡ some (word32 b0 b1 b2 b3)
unfolding load32
load32-append [] after b0 b1 b2 b3 = refl
load32-append (x ∷ []) after b0 b1 b2 b3 = refl
load32-append (x ∷ y ∷ []) after b0 b1 b2 b3 = refl
load32-append (x ∷ y ∷ z ∷ []) after b0 b1 b2 b3 = refl
load32-append (x ∷ y ∷ z ∷ w ∷ before) after b0 b1 b2 b3 =
    load32-append (y ∷ z ∷ w ∷ before) after b0 b1 b2 b3

load32_beyond : (bytes : List ℕ) (i : ℕ) → length bytes < i + 4 → load32 bytes i ≡ none
unfolding load32
load32_beyond [] zero h = refl
load32_beyond [] (suc i) h = refl
load32_beyond (a ∷ []) zero h = refl
load32_beyond (a ∷ b ∷ []) zero h = refl
load32_beyond (a ∷ b ∷ c ∷ []) zero h = refl
load32_beyond (a ∷ b ∷ c ∷ d ∷ bytes) zero h = absurd (omega arith)
load32_beyond (a ∷ []) (suc i) h = load32_beyond [] i (omega arith)
load32_beyond (a ∷ b ∷ []) (suc i) h = load32_beyond (b ∷ []) i (omega arith)
load32_beyond (a ∷ b ∷ c ∷ []) (suc i) h = load32_beyond (b ∷ c ∷ []) i (omega arith)
load32_beyond (a ∷ b ∷ c ∷ d ∷ bytes) (suc i) h = load32_beyond (b ∷ c ∷ d ∷ bytes) i (omega arith)

-- With a device tree, a property that is found, and word `offset` inside its data,
-- dtb_prop_read_u32 answers the big-endian number of that word's bytes.
pub read_u32-big_endian :
    (props : List Property) (name : Key) (prop : Property) (offset : ℕ)
    → (before after : List ℕ) (b0 b1 b2 b3 : ℕ) → find_property name props ≡ some prop
    → prop.bytes ≡ before ++ b0 ∷ b1 ∷ b2 ∷ b3 ∷ after
    → length before ≡ 4 * offset
    → offset + 4 ≤ prop.data_len
    → b0 < 256
    → b1 < 256
    → b2 < 256
    → b3 < 256
    → dtb_prop_read_u32 true props name offset ≡ answer (big_endian b0 b1 b2 b3)
unfolding dtb_prop_read_u32
read_u32-big_endian props name prop offset before after b0 b1 b2 b3 found bytes at room h0 h1 h2
      h3 =
    rw
      (
        found,
        le→ltb_false prop.data_len (offset + 4) room,
        bytes,
        ← at,
        load32-append before after b0 b1 b2 b3,
        be32-word32 b0 b1 b2 b3 h0 h1 h2 h3,
      )
      (ap_answer (omega arith))
  where
    ap_answer : {x y : ℕ} → x ≡ y → answer x ≡ answer y
    ap_answer e = rw e

-- For a property that is found, with data_len the size of its data: where a word offset passes
-- the test as a number of bytes, and its word ends behind the data, dtb_prop_read_u32 reads
-- behind that object.
pub read_u32_beyond :
    (props : List Property) (name : Key) (prop : Property) (offset : ℕ)
    → find_property name props ≡ some prop
    → prop.data_len ≡ length prop.bytes
    → offset + 4 ≤ prop.data_len
    → prop.data_len < 4 * offset + 4
    → dtb_prop_read_u32 true props name offset ≡ outside
unfolding dtb_prop_read_u32
read_u32_beyond props name prop offset found size passes far = rw (
  found,
  le→ltb_false prop.data_len (offset + 4) passes,
  load32_beyond prop.bytes (4 * offset) (omega arith),
)

-- The data of a list of strings, each with its NUL.
abbrev pub joined : List (List ℕ) → List ℕ
joined [] = []
joined (s ∷ ss) = buffer s (joined ss)

abbrev pub AllText : List (List ℕ) → Type 0
AllText [] = Unit {0}
AllText (s ∷ ss) = NoNul s × AllText ss

-- Where string i starts.
abbrev pub start_of : List (List ℕ) → ℕ → Answer → ℕ → Answer
start_of [] i missing at = missing
start_of (s ∷ ss) zero missing at = answer at
start_of (s ∷ ss) (suc i) missing at = start_of ss i missing (at + (length s + 1))

length-buffer : (s after : List ℕ) → length (buffer s after) ≡ length s + 1 + length after
length-buffer [] after = omega arith
length-buffer (c ∷ s) after = omega (arith, length-buffer s after)

drop-buffer : (s after : List ℕ) → drop (length s + 1) (buffer s after) ≡ after
drop-buffer [] after = refl
drop-buffer (c ∷ s) after =
    let next : suc (length s) + 1 ≡ suc (length s + 1) = omega arith in
    rw next (drop-buffer s after)

stringlist_loop-start_of :
    (fuel : ℕ) (ss : List (List ℕ)) (data_len offset current index : ℕ)
    → AllText ss
    → data_len ≡ offset + length (joined ss)
    → length (joined ss) ≤ fuel
    → stringlist_loop fuel (joined ss) data_len offset current (current + index)
      ≡ start_of ss index refused offset
unfolding stringlist_loop
stringlist_loop-start_of zero [] d o c i t e f = rw (le→ltb_false o d (omega arith))
stringlist_loop-start_of (suc fuel) [] d o c i t e f = rw (le→ltb_false o d (omega arith))
stringlist_loop-start_of zero (s ∷ ss) d o c i t e f =
    absurd (omega (arith, length-buffer s (joined ss)))
stringlist_loop-start_of (suc fuel) (s ∷ ss) d o c zero t e f =
    let end : c + 0 ≡ c = omega arith in
    rw (end, lt→ltb o d (omega (arith, length-buffer s (joined ss))), ==_refl c)
stringlist_loop-start_of (suc fuel) (s ∷ ss) d o c (suc i) t e f =
    let later : c + suc i ≡ c + 1 + i = omega arith in
    rw (
      lt→ltb o d (omega (arith, length-buffer s (joined ss))),
      ==_false c (c + suc i) (omega arith),
      strlen-length s (joined ss) t.0,
      drop-buffer s (joined ss),
      later,
      stringlist_loop-start_of fuel ss d (o + (length s + 1)) (c + 1) i t.1
          (omega (arith, length-buffer s (joined ss))) (omega (arith, length-buffer s (joined ss))),
    )

-- With a device tree and a property that is found and holds strings with their NULs,
-- dtb_prop_read_stringlist answers where string `index` starts, or NULL behind the last one.
pub read_stringlist-start_of :
    (props : List Property) (name : Key) (prop : Property) (ss : List (List ℕ)) (index : ℕ)
    → find_property name props ≡ some prop
    → prop.bytes ≡ joined ss
    → prop.data_len ≡ length (joined ss)
    → AllText ss
    → dtb_prop_read_stringlist true props name index ≡ start_of ss index refused 0
unfolding dtb_prop_read_stringlist
read_stringlist-start_of props name prop ss index found bytes size text =
    let start : 0 + index ≡ index = omega arith in
    rw (found, bytes, size)
      (rw start at (
        stringlist_loop-start_of (length (joined ss)) ss (length (joined ss)) 0 0 index text
          (omega arith) (omega arith)))
