-- ===== src/Cm/Block/Laws.antt =====
-- Reading back written blocks, and the splitting of a buffer into blocks.
use pnio_rs.Prelude.{ℕ, zero, suc, ◌+◌, ◌≤◌, ◌<◌, ◌≡◌, arith, length, refl, ap, ◌∙◌}
use pnio_rs.Prelude.{List, [], ◌∷◌, ◌++◌, Bytes, drop, IsU16, be16_lem, ◌>>=◌, All}
use pnio_rs.Prelude.{drop_append, length-drop, Result, ok, >>=-cong}
use pnio_rs.Prelude.{take-length-append, drop-length-append, length-append}
use pnio_rs.Cm.Block.{BlockError, BlockHeader, parse, write, header_len, read_loop, read_all}

-- The header that `write` gives a body of `len` bytes.
abbrev pub header_of : ℕ → ℕ → BlockHeader
header_of block_type len = record {
  block_type = block_type;
  block_length = len + 2;
  version_high = 1;
  version_low = 0;
}

-- A written block is read back with its body, whatever follows it.
pub block_parse-write :
    (block_type : ℕ) (body rest : Bytes)
    → IsU16 block_type
    → length body + 2 < 65536
    → parse (write block_type (length body) ++ (body ++ rest))
      ≡ ok (header_of block_type (length body), body)
unfolding parse write
block_parse-write block_type body rest ht hl = ground (
  arith,
  be16_lem block_type ht,
  be16_lem (length body + 2) hl,
  length-append body rest,
  take-length-append body rest,
)

shorter : (n : ℕ) (b : ℕ) (bs : Bytes) → length (drop (header_len + n) (b ∷ bs)) ≤ length bs
shorter n b bs = omega (arith, length-drop (header_len + n) (b ∷ bs))

abbrev collect :
    BlockHeader × Bytes
    → Result BlockError (List (BlockHeader × Bytes))
    → Result BlockError (List (BlockHeader × Bytes))
collect p r = r >>= λ rest. ok (p ∷ rest)

-- The fuel does not matter once it covers the buffer.
read_loop_fuel :
    (f g : ℕ) (buf : Bytes) → length buf ≤ f → length buf ≤ g → read_loop f buf ≡ read_loop g buf
unfolding read_loop
read_loop_fuel zero zero [] hf hg = refl
read_loop_fuel zero (suc g) [] hf hg = refl
read_loop_fuel (suc f) zero [] hf hg = refl
read_loop_fuel (suc f) (suc g) [] hf hg = refl
read_loop_fuel zero g (b ∷ bs) hf hg = absurd (omega arith)
read_loop_fuel (suc f) zero (b ∷ bs) hf hg = absurd (omega arith)
read_loop_fuel (suc f) (suc g) (b ∷ bs) hf hg = >>=-cong (parse (b ∷ bs)) (λ p. ap (collect p) (
    read_loop_fuel f g (drop (header_len + length p.1) (b ∷ bs))
      (omega (arith, shorter (length p.1) b bs)) (omega (arith, shorter (length p.1) b bs))))

-- The loop's equation, with no fuel: `read_all` parses the block in front and goes on behind its
-- header and body until nothing is left, and stops at the first block that does not parse.
pub read_all_step :
    (b : ℕ) (bs : Bytes)
    → read_all (b ∷ bs)
      ≡ (parse (b ∷ bs) >>= λ p. collect p (read_all (drop (header_len + length p.1) (b ∷ bs))))
unfolding read_all read_loop
read_all_step b bs = >>=-cong (parse (b ∷ bs)) (λ p. ap (collect p) (
    read_loop_fuel (length bs) _ (drop (header_len + length p.1) (b ∷ bs))
      (shorter (length p.1) b bs) (omega arith)))

read_all-block :
    (t : ℕ) (body rest : Bytes)
    → IsU16 t
    → length body + 2 < 65536
    → read_all (write t (length body) ++ (body ++ rest))
      ≡ collect (header_of t (length body), body) (read_all rest)
unfolding write
read_all-block t body rest ht hl =
    let behind : drop (header_len + length body) (write t (length body) ++ (body ++ rest)) ≡ rest =
      drop_append (write t (length body)) (body ++ rest) (length body)
      ∙ drop-length-append body rest in
    read_all_step _ _
    ∙ ap
        (λ (r : Result BlockError (BlockHeader × Bytes)). r >>= λ p.
          collect p
            (read_all (drop (header_len + length p.1) (write t (length body) ++ (body ++ rest)))))
        (block_parse-write t body rest ht hl)
    ∙ ap (λ (b : Bytes). collect (header_of t (length body), body) (read_all b)) behind

-- A block's type and body.
abbrev pub FitsBlock : ℕ × Bytes → Type 0
FitsBlock p = IsU16 p.0 × (length p.1 + 2 < 65536)

abbrev pub write_all : List (ℕ × Bytes) → Bytes
write_all [] = []
write_all (p ∷ ps) = write p.0 (length p.1) ++ (p.1 ++ write_all ps)

abbrev pub headers : List (ℕ × Bytes) → List (BlockHeader × Bytes)
headers [] = []
headers (p ∷ ps) = (header_of p.0 (length p.1), p.1) ∷ headers ps

-- Blocks written one after the other are split into the same blocks, in order.
pub read_all-write_all :
    (ps : List (ℕ × Bytes)) → All FitsBlock ps → read_all (write_all ps) ≡ ok (headers ps)
read_all-write_all [] h = unfold read_all read_loop in refl
read_all-write_all (p ∷ ps) (hp, hps) =
    read_all-block p.0 p.1 (write_all ps) hp.0 hp.1
    ∙ ap (collect (header_of p.0 (length p.1), p.1)) (read_all-write_all ps hps)
