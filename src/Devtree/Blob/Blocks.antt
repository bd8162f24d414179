-- ===== src/Devtree/Blob/Blocks.antt =====
-- The blocks of a flattened device tree and their bytes.
use new_wiv_os.Base.{
  ℕ, ◌+◌, ◌-◌, ◌/◌, ◌%◌, ◌^◌, ◌<◌, List, [], ◌∷◌, ◌++◌, length, drop, replicate, ◌≡◌,
}
use new_wiv_os.Base.Run.{Cmd, pure, ◌>>◌}
use new_wiv_os.Strings.Text.{buffer, NoNul}
use new_wiv_os.Hashmap.{Key}
use new_wiv_os.Devtree.Blob.{Parser, round_up4, begin_node, add_property, end_node}

-- The blocks in front of FDT_END. A property's name is at an offset of the strings block.
pub data Block : Type 0 where
  begins : Key → Block
  has : (offset : ℕ) → Key → List ℕ → Block
  ends : Block
  nop : Block

abbrev pub tag : Block → ℕ
tag (begins name) = 1
tag (has offset name value) = 3
tag ends = 2
tag nop = 4

-- The bytes behind the token, without the padding.
abbrev pub body : Block → ℕ
body (begins name) = length name + 1
body (has offset name value) = 8 + length value
body ends = 0
body nop = 0

abbrev pub padding : ℕ → List ℕ → List ℕ
padding n rest = replicate (round_up4 n - n) 0 ++ rest

abbrev pub word_bytes : ℕ → List ℕ → List ℕ
word_bytes n rest = n / 2 ^ 24 ∷ n / 2 ^ 16 % 256 ∷ n / 2 ^ 8 % 256 ∷ n % 256 ∷ rest

-- A block's bytes, in front of `rest`.
abbrev pub encode : Block → List ℕ → List ℕ
encode (begins name) rest = 0 ∷ 0 ∷ 0 ∷ 1 ∷ buffer name (padding (4 + (length name + 1)) rest)
encode (has offset name value) rest =
    0
    ∷ 0
    ∷ 0
    ∷ 3
    ∷ word_bytes (length value) (word_bytes offset (value ++ padding (4 + (8 + length value)) rest))
encode ends rest = 0 ∷ 0 ∷ 0 ∷ 2 ∷ rest
encode nop rest = 0 ∷ 0 ∷ 0 ∷ 4 ∷ rest

abbrev pub encode_all : List Block → List ℕ → List ℕ
encode_all [] rest = rest
encode_all (b ∷ bs) rest = encode b (encode_all bs rest)

abbrev pub size_all : List Block → ℕ
size_all [] = 0
size_all (b ∷ bs) = round_up4 (4 + body b) + size_all bs

-- Names have no NUL, a property's name stands in the strings block, and its words have 32 bits.
abbrev pub Encodable : List ℕ → Block → Type 0
Encodable strings (begins name) = NoNul name
Encodable strings (has offset name value) =
    (length value < 2 ^ 32)
    × (offset < 2 ^ 32)
    × NoNul name
    × (drop offset strings ≡ buffer name (drop (offset + (length name + 1)) strings))
Encodable strings ends = Unit {0}
Encodable strings nop = Unit {0}

abbrev pub AllEncodable : List ℕ → List Block → Type 0
AllEncodable strings [] = Unit {0}
AllEncodable strings (b ∷ bs) = Encodable strings b × AllEncodable strings bs

-- What dtb_init does for a block.
abbrev pub perform : (ℕ → ℕ) → Block → Cmd Parser (Unit {0})
perform kmalloc (begins name) = begin_node kmalloc name
perform kmalloc (has offset name value) =
    add_property (record { name = name; bytes = value; data_len = length value })
perform kmalloc ends = end_node
perform kmalloc nop = pure tt

abbrev pub perform_all : (ℕ → ℕ) → List Block → Cmd Parser (Unit {0})
perform_all kmalloc [] = pure tt
perform_all kmalloc (b ∷ bs) = perform kmalloc b >> perform_all kmalloc bs
