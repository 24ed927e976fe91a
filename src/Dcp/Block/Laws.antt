-- ===== src/Dcp/Block/Laws.antt =====
-- Reading back written DCP blocks, and the loop over them without its fuel.
use pnio_rs.Prelude.{ℕ, zero, suc, ◌+◌, ◌%◌, ◌≤◌, ◌<◌, ◌≡◌, arith, refl, sym, ap, ◌∙◌}
use pnio_rs.Prelude.{
  Bool, true, false, Option, none, some, List, [], ◌∷◌, ◌++◌, Bytes, length, take,
}
use pnio_rs.Prelude.{drop, Result, ok, ◌>>=◌, All, IsU16, be16_lem}
use pnio_rs.Prelude.{length-append, length-replicate, take-length-append}
use pnio_rs.Prelude.{drop-length-append, append_assoc}
use pnio_rs.Dcp.Block.{
  DcpError, DcpBlock, parse_block, parse_loop, parse_from, parse_blocks, block_len, write_block,
  write_blocks, pad, total_len, blocks_encoded_len,
}

abbrev pub FitsInfo : Bool → Option ℕ → Type 0
FitsInfo true (some info) = IsU16 info
FitsInfo true none = ⊥
FitsInfo false (some info) = ⊥
FitsInfo false none = Unit

-- A block with or without information, whose length fits its field.
abbrev pub FitsBlock : Bool → DcpBlock → Type 0
FitsBlock has_info b = FitsInfo has_info b.block_info × (block_len b < 65536)

abbrev pub size : DcpBlock → ℕ
size b = 4 + block_len b + block_len b % 2

length-pad : (n : ℕ) → length (pad n) ≡ n % 2
length-pad n = length-replicate (n % 2) 0

tail_lem :
    (value rest : Bytes) (n : ℕ)
    → length ((value ++ pad n) ++ rest) ≡ length value + n % 2 + length rest
tail_lem value rest n =
    omega (arith, length-append (value ++ pad n) rest, length-append value (pad n), length-pad n)

cut_lem : (value rest : Bytes) (n : ℕ) → take (length value) ((value ++ pad n) ++ rest) ≡ value
cut_lem value rest n =
    ap (take (length value)) (append_assoc value (pad n) rest)
    ∙ take-length-append value (pad n ++ rest)

-- A written block is read back with the bytes that it takes, wherever it stands in the buffer.
parse_block-write :
    (has_info : Bool) (option suboption : ℕ) (info : Option ℕ) (value rest : Bytes) (total p : ℕ)
    → let b : DcpBlock = record {
      option = option;
      suboption = suboption;
      block_info = info;
      value = value;
    } in
      FitsBlock has_info b
      → p + size b + length rest ≡ total
      → parse_block has_info total p (write_block b ++ rest) ≡ ok (b, size b)
unfolding parse_block write_block
parse_block-write true option suboption (some info) value rest total p (hi, hl) e =
    ground (
      arith,
      be16_lem (2 + length value) hl,
      be16_lem info hi,
      cut_lem value rest (2 + length value),
    )
parse_block-write true option suboption none value rest total p (hi, hl) e = absurd hi
parse_block-write false option suboption none value rest total p (hi, hl) e =
    ground (arith, be16_lem (0 + length value) hl, cut_lem value rest (0 + length value))
parse_block-write false option suboption (some info) value rest total p (hi, hl) e = absurd hi

length-write_block :
    (option suboption : ℕ) (info : Option ℕ) (value : Bytes)
    → let b : DcpBlock = record {
      option = option;
      suboption = suboption;
      block_info = info;
      value = value;
    } in
      length (write_block b) ≡ size b
unfolding write_block
length-write_block option suboption none value =
    omega (arith, length-append value (pad (0 + length value)), length-pad (0 + length value))
length-write_block option suboption (some info) value =
    omega (arith, length-append value (pad (2 + length value)), length-pad (2 + length value))

abbrev pub collect : DcpBlock → Result DcpError (List DcpBlock) → Result DcpError (List DcpBlock)
collect b r = r >>= λ rest. ok (b ∷ rest)

-- The step of the loop on a block that was written.
loop_block :
    (has_info : Bool) (b : DcpBlock) (rest : Bytes) (total fuel p : ℕ)
    → FitsBlock has_info b
    → p + size b + length rest ≡ total
    → parse_loop has_info total (suc fuel) p (write_block b ++ rest)
      ≡ collect b (parse_loop has_info total fuel (p + size b) rest)
unfolding parse_loop write_block
loop_block has_info b rest total fuel p fits e =
    let behind : drop (size b) (write_block b ++ rest) ≡ rest =
      ap (λ (n : ℕ). drop n (write_block b ++ rest))
        (sym (length-write_block b.option b.suboption b.block_info b.value))
      ∙ drop-length-append (write_block b) rest in
    ap
      (λ (m : Result DcpError (DcpBlock × ℕ)). m >>= λ (r : DcpBlock × ℕ).
        parse_loop has_info total fuel (p + r.1) (drop r.1 (write_block b ++ rest)) >>= λ later.
        ok (r.0 ∷ later))
      (parse_block-write has_info b.option b.suboption b.block_info b.value rest total p fits e)
    ∙ ap (λ (buf : Bytes). collect b (parse_loop has_info total fuel (p + size b) buf)) behind

loop_lem :
    (has_info : Bool) (bs : List DcpBlock) (total fuel p : ℕ)
    → All (FitsBlock has_info) bs
    → length (write_blocks bs) ≤ fuel
    → p + length (write_blocks bs) ≡ total
    → parse_loop has_info total fuel p (write_blocks bs) ≡ ok bs
unfolding write_blocks
loop_lem has_info [] total fuel p h hf e = unfold parse_loop in refl
loop_lem has_info (b ∷ bs) total zero p h hf e = absurd (
    omega (
      arith,
      length-append (write_block b) (write_blocks bs),
      length-write_block b.option b.suboption b.block_info b.value,
    ))
loop_lem has_info (b ∷ bs) total (suc fuel) p (hb, hbs) hf e =
    let len : length (write_block b ++ write_blocks bs) ≡ size b + length (write_blocks bs) =
      omega (
        arith,
        length-append (write_block b) (write_blocks bs),
        length-write_block b.option b.suboption b.block_info b.value,
      ) in
    loop_block has_info b (write_blocks bs) total fuel p hb (omega (arith, len))
    ∙ ap (collect b)
        (loop_lem has_info bs total fuel (p + size b) hbs (omega (arith, len)) (omega (arith, len)))

-- A list of blocks, all with or all without information, is read back as it was written: nothing of
-- the padding is left, and no block is lost.
pub parse_blocks-write_blocks :
    (has_info : Bool) (bs : List DcpBlock)
    → All (FitsBlock has_info) bs
    → parse_blocks (write_blocks bs) has_info ≡ ok bs
unfolding parse_blocks parse_from
parse_blocks-write_blocks has_info bs h =
    loop_lem has_info bs (length (write_blocks bs)) (length (write_blocks bs)) 0 h (omega arith)
      (omega arith)

length-write_blocks : (bs : List DcpBlock) → length (write_blocks bs) ≡ total_len bs
unfolding write_blocks
length-write_blocks [] = refl
length-write_blocks (b ∷ bs) = omega (
  arith,
  length-append (write_block b) (write_blocks bs),
  length-write_block b.option b.suboption b.block_info b.value,
  length-write_blocks bs,
)

-- The length that a header announces is the length of the blocks, as long as it fits its field.
pub blocks_encoded_len_lem :
    (bs : List DcpBlock)
    → length (write_blocks bs) < 65536
    → blocks_encoded_len bs ≡ length (write_blocks bs)
unfolding blocks_encoded_len
blocks_encoded_len_lem bs h = omega (arith, length-write_blocks bs)
