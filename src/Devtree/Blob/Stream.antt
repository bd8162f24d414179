-- ===== src/Devtree/Blob/Stream.antt =====
-- The stream of blocks that dtb_init reads, written out as bytes and read back.
use new_wiv_os.Base.{
  ℕ, zero, suc, ◌+◌, ◌-◌, ◌==◌, ◌/◌, ◌%◌, ◌^◌, ◌<◌, List, [], ◌∷◌, ◌++◌, length, take, drop,
  replicate, ◌≡◌, refl, ◌∙◌, arith, false, ltb, lt→ltb, le→ltb_false, length-append,
  length-replicate,
}
use new_wiv_os.Base.Run.{Run, ok, fault, hang, Cmd, pure, and_then, ◌>>◌}
use new_wiv_os.Strings.Text.{buffer, NoNul, strlen-length}
use new_wiv_os.Devtree.{load32}
use new_wiv_os.Devtree.Endian.{word32, be32, be32-word32}
use new_wiv_os.Devtree.Blob.{Parser, round_up4, read32, read_name, read_block, init_loop}
use new_wiv_os.Devtree.Blob.Blocks.{
  Block, begins, has, ends, nop, tag, body, padding, encode, encode_all, size_all, Encodable,
  AllEncodable, perform, perform_all,
}

take-append : (xs ys : List ℕ) → take (length xs) (xs ++ ys) ≡ xs
take-append [] ys = refl
take-append (x ∷ xs) ys = rw (take-append xs ys) refl

take-buffer : (cs after : List ℕ) → take (length cs) (buffer cs after) ≡ cs
take-buffer [] after = refl
take-buffer (c ∷ cs) after = rw (take-buffer cs after) refl

drop-append : (xs ys : List ℕ) (k n : ℕ) → n ≡ length xs + k → drop n (xs ++ ys) ≡ drop k ys
drop-append [] ys k n e = let same : n ≡ k = omega arith in rw same refl
drop-append (x ∷ xs) ys k n e =
    let same : n ≡ suc (length xs + k) = omega arith in
    rw same (drop-append xs ys k (length xs + k) refl)

drop-buffer :
    (cs after : List ℕ) (k n : ℕ) → n ≡ length cs + 1 + k → drop n (buffer cs after) ≡ drop k after
drop-buffer [] after k n e = let same : n ≡ suc k = omega arith in rw same refl
drop-buffer (c ∷ cs) after k n e =
    let same : n ≡ suc (length cs + 1 + k) = omega arith in
    rw same (drop-buffer cs after k (length cs + 1 + k) refl)

drop4 : (a b c d : ℕ) (xs : List ℕ) (k n : ℕ) → n ≡ 4 + k → drop n (a ∷ b ∷ c ∷ d ∷ xs) ≡ drop k xs
drop4 a b c d xs k n e = let same : n ≡ suc (suc (suc (suc k))) = omega arith in rw same refl

drop-padding : (n k : ℕ) (rest : List ℕ) → n + k ≡ round_up4 n → drop k (padding n rest) ≡ rest
drop-padding n k rest e =
    let zeros : k ≡ length (replicate {A = ℕ} (round_up4 n - n) 0) + 0 =
      rw (length-replicate {A = ℕ} (round_up4 n - n) 0) (omega arith) in
    drop-append (replicate (round_up4 n - n) 0) rest 0 k zeros

round_up4-pad : (n : ℕ) → n + (round_up4 n - n) ≡ round_up4 n
unfolding round_up4
round_up4-pad n = omega arith

four : round_up4 4 ≡ 4 + 0
unfolding round_up4
four = refl

-- The next block starts where the round goes on.
drop-encode : (b : Block) (rest : List ℕ) → drop (round_up4 (4 + body b)) (encode b rest) ≡ rest
drop-encode (begins name) rest =
    let n = 4 + (length name + 1) in
    let k = round_up4 n - n in
    let pad = round_up4-pad n in
    let all : round_up4 n ≡ 4 + (length name + 1 + k) = omega arith in
    drop4 0 0 0 1 _ (length name + 1 + k) _ all
    ∙ drop-buffer name _ k (length name + 1 + k) refl
    ∙ drop-padding n k rest pad
drop-encode (has offset name value) rest =
    let n = 4 + (8 + length value) in
    let k = round_up4 n - n in
    let pad = round_up4-pad n in
    let all : round_up4 n ≡ 4 + (8 + length value + k) = omega arith in
    let words : 8 + length value + k ≡ 4 + (4 + length value + k) = omega arith in
    let word : 4 + length value + k ≡ 4 + (length value + k) = omega arith in
    drop4 0 0 0 3 _ (8 + length value + k) _ all
    ∙ drop4 _ _ _ _ _ (4 + length value + k) _ words
    ∙ drop4 _ _ _ _ _ (length value + k) _ word
    ∙ drop-append value _ k (length value + k) refl
    ∙ drop-padding n k rest pad
drop-encode ends rest = drop4 0 0 0 2 rest 0 _ four
drop-encode nop rest = drop4 0 0 0 4 rest 0 _ four

pub be32-word :
    (n : ℕ)
    → n < 2 ^ 32
    → be32 (word32 (n / 2 ^ 24) (n / 2 ^ 16 % 256) (n / 2 ^ 8 % 256) (n % 256)) ≡ n
be32-word n small =
    be32-word32 (n / 2 ^ 24) (n / 2 ^ 16 % 256) (n / 2 ^ 8 % 256) (n % 256) (omega arith)
      (omega arith) (omega arith) (omega arith)
    ∙ omega arith

read_name-buffer :
    (name after : List ℕ) (s : Parser) → NoNul name → read_name (buffer name after) s ≡ ok name s
unfolding read_name
read_name-buffer name after s h =
    rw (read_name, strlen-length name after h, take-buffer name after) refl

read32-encode : (b : Block) (rest : List ℕ) (s : Parser) → read32 (encode b rest) 0 s ≡ ok (tag b) s
unfolding read32 load32 be32
read32-encode (begins name) rest s = refl
read32-encode (has offset name value) rest s = refl
read32-encode ends rest s = refl
read32-encode nop rest s = refl

-- The switch does for an encoded block what it stands for.
read_block-encode :
    (kmalloc : ℕ → ℕ) (strings : List ℕ) (b : Block) (rest : List ℕ) (s : Parser)
    → Encodable strings b
    → read_block kmalloc strings (tag b) (drop 4 (encode b rest)) s
      ≡ (perform kmalloc b >> pure (body b)) s
unfolding read_block
read_block-encode kmalloc strings (begins name) rest s w =
    rw (read_name-buffer name (padding (4 + (length name + 1)) rest) s w) refl
read_block-encode kmalloc strings (has offset name value) rest s w =
    let after = padding (4 + (8 + length value)) rest in
    let fits : ltb (length (value ++ after)) (length value) ≡ false =
      le→ltb_false _ _ (rw (length-append value after) (omega arith)) in
    rw
      (
        be32-word (length value) w.0,
        be32-word offset w.1,
        w.3,
        read_name-buffer name (drop (offset + (length name + 1)) strings) s w.2,
        fits,
        take-append value after,
      )
      refl
read_block-encode kmalloc strings ends rest s w = refl
read_block-encode kmalloc strings nop rest s w = refl

tag-other : (b : Block) → (tag b == 9) ≡ false
tag-other (begins name) = refl
tag-other (has offset name value) = refl
tag-other ends = refl
tag-other nop = refl

-- What follows a command and a number may be replaced by what it does on every state.
then_do :
    (r : Run Parser (Unit {0})) (n : ℕ) (k : ℕ → Cmd Parser (Unit {0})) (k' : Cmd Parser (Unit {0}))
    → ((t : Parser) → k n t ≡ k' t)
    → and_then (and_then r (λ _. pure n)) k ≡ and_then r (λ _. k')
then_do (ok tt t) n k k' e = e t
then_do fault n k k' e = refl
then_do hang n k k' e = refl

-- A stream of blocks with FDT_END behind it is read to its end: each block does what it stands for,
-- in order, and nothing behind FDT_END is looked at.
pub init_loop-encode :
    (kmalloc : ℕ → ℕ) (strings : List ℕ) (bs : List Block) (after : List ℕ) (s : Parser)
    (fuel limit parsed : ℕ)
    → AllEncodable strings bs
    → length bs < fuel
    → parsed + size_all bs < limit
    → init_loop fuel kmalloc strings limit parsed (encode_all bs (0 ∷ 0 ∷ 0 ∷ 9 ∷ after)) s
      ≡ perform_all kmalloc bs s
unfolding init_loop
init_loop-encode kmalloc strings bs after s zero limit parsed w few room = elim few [ ]
init_loop-encode kmalloc strings [] after s (suc fuel) limit parsed w few room =
    rw (lt→ltb parsed limit (omega arith)) refl
init_loop-encode kmalloc strings (b ∷ bs) after s (suc fuel) limit parsed w few room =
    let rest = encode_all bs (0 ∷ 0 ∷ 0 ∷ 9 ∷ after) in
    rw
      (
        lt→ltb parsed limit (omega arith),
        read32-encode b rest s,
        read_block-encode kmalloc strings b rest s w.0,
        tag-other b,
      )
      (then_do (perform kmalloc b s) (body b) _ (perform_all kmalloc bs) (λ t.
        rw (drop-encode b rest) (
          init_loop-encode kmalloc strings bs after t fuel limit _ w.1 (omega arith)
            (omega arith))))
