-- ===== src/Devtree/Blob/Whole.antt =====
-- dtb_init on a whole blob: the header and the stream of blocks.
use new_wiv_os.Base.{
  ℕ, zero, suc, ◌+◌, ◌/◌, ◌%◌, ◌^◌, ◌<◌, ◌≤◌, true, false, ltb, List, [], ◌∷◌, length, drop, ◌≡◌,
  refl, ap, arith, replicate, ◌-◌, le→ltb_false, length-append,
}
use new_wiv_os.Base.Run.{pure, ◌>>◌}
use new_wiv_os.Strings.Text.{buffer}
use new_wiv_os.Trees.{gentree_create}
use new_wiv_os.Devtree.Endian.{word32}
use new_wiv_os.Devtree.Blob.{Parser, round_up4, dtb_init}
use new_wiv_os.Devtree.Blob.Blocks.{
  Block, begins, has, ends, nop, padding, word_bytes, encode, encode_all, size_all, AllEncodable,
  perform_all,
}
use new_wiv_os.Devtree.Blob.Stream.{be32-word, init_loop-encode}

-- fdt_header_t but for the magic number.
pub record FdtHeader : Type 0 where
  pub total : ℕ
  pub start : ℕ
  pub strings : ℕ
  pub reserved : ℕ
  pub version : ℕ
  pub last : ℕ
  pub boot : ℕ
  pub strings_size : ℕ
  pub size : ℕ

-- A blob: the header, big-endian, in front of `rest`.
abbrev pub blob_of : FdtHeader → List ℕ → List ℕ
blob_of h rest = word_bytes 0xD00DFEED (
    word_bytes h.total (
      word_bytes h.start (
        word_bytes h.strings (
          word_bytes h.reserved (
            word_bytes h.version (
              word_bytes h.last
                (word_bytes h.boot (word_bytes h.strings_size (word_bytes h.size rest)))))))))

-- A big-endian number as a little-endian machine loads it.
abbrev pub raw : ℕ → ℕ
raw n = word32 (n / 2 ^ 24) (n / 2 ^ 16 % 256) (n / 2 ^ 8 % 256) (n % 256)

length-padding : (n : ℕ) (rest : List ℕ) → length rest ≤ length (padding n rest)
length-padding n rest = rw (length-append (replicate (round_up4 n - n) 0) rest) (omega arith)

length-buffer : (cs after : List ℕ) → length after < length (buffer cs after)
length-buffer [] after = omega arith
length-buffer (c ∷ cs) after = omega (arith, length-buffer cs after)

longer-encode : (b : Block) (rest : List ℕ) → length rest < length (encode b rest)
longer-encode (begins name) rest =
    let n = 4 + (length name + 1) in
    omega (arith, length-buffer name (padding n rest), length-padding n rest)
longer-encode (has offset name value) rest =
    let n = 4 + (8 + length value) in
    omega (arith, length-append value (padding n rest), length-padding n rest)
longer-encode ends rest = omega arith
longer-encode nop rest = omega arith

length-encode_all : (bs : List Block) (rest : List ℕ) → length bs ≤ length (encode_all bs rest)
length-encode_all [] rest = omega arith
length-encode_all (b ∷ bs) rest =
    omega (arith, longer-encode b (encode_all bs rest), length-encode_all bs rest)

length-drop : (n : ℕ) (xs : List ℕ) → length (drop n xs) ≤ length xs
length-drop zero xs = omega arith
length-drop (suc n) [] = omega arith
length-drop (suc n) (x ∷ xs) = omega (arith, length-drop n xs)

-- For a header of version 17 or an older one whose words have 32 bits, with encodable blocks and
-- FDT_END at off_dt_struct, where the size of the blocks is below size_dt_struct as it is loaded:
-- dtb_init returns 0, and from an empty tree has done what each block stands for, in order.
pub dtb_init-encode :
    (kmalloc : ℕ → ℕ) (h : FdtHeader) (rest after : List ℕ) (bs : List Block) (s : Parser)
    → h.start < 2 ^ 32
    → h.strings < 2 ^ 32
    → h.last ≤ 17
    → AllEncodable (drop h.strings (blob_of h rest)) bs
    → drop h.start (blob_of h rest) ≡ encode_all bs (0 ∷ 0 ∷ 0 ∷ 9 ∷ after)
    → size_all bs < raw h.size
    → dtb_init kmalloc (blob_of h rest) s
      ≡ (perform_all kmalloc bs >> pure true)
          (record s { tree = gentree_create; current = 0; found = false })
unfolding dtb_init
dtb_init-encode kmalloc h rest after bs s hstart hstrings hlast w at room =
    let whole = blob_of h rest in
    let stream = encode_all bs (0 ∷ 0 ∷ 0 ∷ 9 ∷ after) in
    let enough : length bs < length whole + 1 =
      let read : length (drop h.start whole) ≡ length stream = ap length at in
      omega
        (arith, read, length-drop h.start whole, length-encode_all bs (0 ∷ 0 ∷ 0 ∷ 9 ∷ after)) in
    let fits : 0 + size_all bs < raw h.size = omega (arith, room) in
    let last : h.last < 2 ^ 32 = omega (arith, hlast) in
    let old : ltb 17 h.last ≡ false = le→ltb_false _ _ hlast in
    rw
      (
        be32-word h.last last,
        old,
        be32-word h.start hstart,
        be32-word h.strings hstrings,
        at,
        init_loop-encode kmalloc (drop h.strings whole) bs after
            (record s { tree = gentree_create; current = 0; found = false }) (length whole + 1)
            (raw h.size) 0 w enough fits,
      )
      refl
