-- ===== src/Dcp/Block/Reads.antt =====
-- What `parse_blocks` reads in a buffer, block by block.
use pnio_rs.Prelude.{
  ℕ, zero, suc, ◌+◌, ◌-◌, Option, ◌%◌, ◌≤◌, ◌<◌, ◌≡◌, arith, refl, inl, inr, Bool, true, false,
  Bool-cases, ltb, none, some, List, [], ◌∷◌, Bytes, length, drop, length-drop, slice, byte_at,
  u16_at, Result, ok, err, ◌>>=◌,
}
use pnio_rs.Dcp.Block.{
  DcpError, too_short, malformed, DcpBlock, body_of, parse_block, parse_loop, parse_from,
  parse_blocks,
}
use pnio_rs.Dcp.Block.Laws.{collect}

-- The length that a block's header announces, and the bytes up to the next block: an odd block has a
-- pad byte.
abbrev pub body_len : Bytes → ℕ
body_len rest = u16_at rest 2

abbrev pub step_of : Bytes → ℕ
step_of rest = 4 + body_len rest + body_len rest % 2

-- The result of reading `rest`, which begins at position `p` of a buffer of `total` bytes. Each case
-- has the bounds of the bytes that it reads.
pub data Reads (has_info : Bool) (total : ℕ)
    : ℕ → Bytes → Result DcpError (List DcpBlock) → Type 0 where
  done : {p : ℕ} → Reads has_info total p [] (ok [])
  no_header :
      {p : ℕ} {rest : Bytes}
      → 0 < length rest
      → length rest < 4
      → Reads has_info total p rest (err (too_short (p + 4) total))
  no_body :
      {p : ℕ} {rest : Bytes}
      → 4 ≤ length rest
      → length rest < 4 + body_len rest
      → Reads has_info total p rest (err (too_short (p + (4 + body_len rest)) total))
  no_info :
      {p : ℕ} {rest : Bytes}
      → has_info ≡ true
      → 4 + body_len rest ≤ length rest
      → body_len rest < 2
      → Reads has_info total p rest (err (malformed "block too short for BlockInfo"))
  with_info :
      {p : ℕ} {rest : Bytes} {later : Result DcpError (List DcpBlock)}
      → has_info ≡ true
      → 4 + body_len rest ≤ length rest
      → 2 ≤ body_len rest
      → Reads has_info total (p + step_of rest) (drop (step_of rest) rest) later
      → Reads has_info total p rest (
          collect
            (record {
              option = byte_at rest 0;
              suboption = byte_at rest 1;
              block_info = some (u16_at rest 4);
              value = slice rest 6 (4 + body_len rest);
            })
            later)
  plain :
      {p : ℕ} {rest : Bytes} {later : Result DcpError (List DcpBlock)}
      → has_info ≡ false
      → 4 + body_len rest ≤ length rest
      → Reads has_info total (p + step_of rest) (drop (step_of rest) rest) later
      → Reads has_info total p rest (
          collect
            (record {
              option = byte_at rest 0;
              suboption = byte_at rest 1;
              block_info = none;
              value = slice rest 4 (4 + body_len rest);
            })
            later)

-- What is left stands at the end of the buffer, unless nothing is left.
Placed : ℕ → ℕ → Bytes → Type 0
Placed total p [] = Unit
Placed total p (b ∷ bs) = p + length (b ∷ bs) ≡ total

drop-Placed :
    (total p k : ℕ) (rest behind : Bytes)
    → p + length rest ≡ total
    → length behind ≡ length rest - k
    → Placed total (p + k) behind
unfolding Placed
drop-Placed total p k rest [] e l = tt
drop-Placed total p k rest (b ∷ bs) e l = omega arith

-- One turn of the loop, on a buffer that is not at its end, given the turns behind it.
turn-Reads :
    (has_info : Bool) (total p : ℕ) (rest : Bytes)
    (later : DcpBlock × ℕ → Result DcpError (List DcpBlock))
    → 0 < length rest
    → p + length rest ≡ total
    → ((b : DcpBlock)
        → 4 + body_len rest ≤ length rest
        → Reads has_info total
            (p + step_of rest)
            (drop (step_of rest) rest)
            (later (b, step_of rest)))
    → Reads has_info total p rest
        (parse_block has_info total p rest >>= λ (r : DcpBlock × ℕ). collect r.0 (later r))
unfolding parse_block
turn-Reads has_info total p rest later some_left e h = elim (Bool-cases (ltb total (p + 4))) [
  | inl short ↦ rw short (no_header some_left (ground arith))
  | inr long ↦ rw long (elim (Bool-cases (ltb total (p + (4 + body_len rest)))) [
    | inl cut ↦ rw cut (no_body (ground arith) (ground arith))
    | inr whole ↦ rw whole (body has_info (ground arith) h)
  ])
]
  where
    body :
        (has_info : Bool)
        → 4 + body_len rest ≤ length rest
        → ((b : DcpBlock)
            → 4 + body_len rest ≤ length rest
            → Reads has_info total
                (p + step_of rest)
                (drop (step_of rest) rest)
                (later (b, step_of rest)))
        → Reads has_info total p rest (
            body_of has_info rest (4 + body_len rest)
            >>= (λ (f : Option ℕ × Bytes). ok (
              record {
                option = byte_at rest 0;
                suboption = byte_at rest 1;
                block_info = f.0;
                value = f.1;
              },
              step_of rest,
            ))
            >>= λ (r : DcpBlock × ℕ). collect r.0 (later r))
    body true fits h = elim (Bool-cases (ltb (4 + body_len rest) 6)) [
      | inl none_fits ↦ rw none_fits (no_info refl fits (ground arith))
      | inr room ↦ rw room (with_info refl fits (ground arith) (h _ fits))
    ]
    body false fits h = plain refl fits (h _ fits)

loop-Reads :
    (has_info : Bool) (total fuel p : ℕ) (rest : Bytes)
    → length rest ≤ fuel
    → Placed total p rest
    → Reads has_info total p rest (parse_loop has_info total fuel p rest)
unfolding parse_loop Placed
loop-Reads has_info total fuel p [] hf e = done
loop-Reads has_info total zero p (b ∷ bs) hf e = absurd (omega arith)
loop-Reads has_info total (suc fuel) p (b ∷ bs) hf e =
    let rest : Bytes = b ∷ bs in
    turn-Reads has_info total p rest (λ r. parse_loop has_info total fuel (p + r.1) (drop r.1 rest))
      (omega arith) e
      (λ block fits.
        let len : length (drop (step_of rest) rest) ≡ length rest - step_of rest =
          length-drop (step_of rest) rest in
        loop-Reads has_info total fuel (p + step_of rest) (drop (step_of rest) rest)
          (omega (arith, len))
          (drop-Placed total p (step_of rest) rest (drop (step_of rest) rest) e len))

-- Every buffer is read to its end or to its first broken block, and no byte out of the buffer is
-- read: a block has a header of four bytes and as many bytes of content as that announces, of which
-- the first two are its information where blocks have it; the next block begins behind the content
-- and the pad byte of an odd one; and the error names the position and the length that were missing,
-- or the information that has no room.
pub parse_blocks-Reads :
    (has_info : Bool) (buf : Bytes) → Reads has_info (length buf) 0 buf (parse_blocks buf has_info)
unfolding parse_blocks parse_from Placed
parse_blocks-Reads has_info buf =
    loop-Reads has_info (length buf) (length buf) 0 buf (omega arith) (whole buf)
  where
    whole : (buf : Bytes) → Placed (length buf) 0 buf
    whole [] = tt
    whole (b ∷ bs) = omega arith
