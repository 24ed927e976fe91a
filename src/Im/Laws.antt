-- ===== src/Im/Laws.antt =====
-- The I&M store: what was written is read, and what was saved is loaded.
use pnio_rs.Prelude.{ℕ, ◌≡◌, ◌≢◌, arith, some, Bytes, ◌++◌, length, ok, ap, ◌∙◌}
use pnio_rs.Prelude.{[], refl, sym, slice, length-append, slice_append, append_assoc, append-nil}
use pnio_rs.Cm.Block
use pnio_rs.Cm.Block.Laws.{block_parse-write}
use pnio_rs.Im.{
  ImStore, im1_len, im2_len, im3_len, shape_of, put_body, read, write, load, persisted,
}

-- The bodies have their fixed lengths.
pub record IsStore (s : ImStore) : Type 0 where
  pub im1_full : length s.im1 ≡ im1_len
  pub im2_full : length s.im2 ≡ im2_len
  pub im3_full : length s.im3 ≡ im3_len

-- A write that is accepted keeps the lengths, whatever the record was.
pub write-IsStore :
    (s s' : ImStore) (index : ℕ) (full : Bytes)
    → IsStore s
    → write s index full ≡ ok s'
    → IsStore s'
unfolding write
write-IsStore s s' index full i h = ground arith

-- The record of an index, whole and of its length, is accepted; it is then read back as it was
-- written, and the other indices still read what they did.
pub im_read-write :
    (s : ImStore) (index t : ℕ) (body rest : Bytes)
    → shape_of index ≡ some (t, length body)
    → (write s index (Block.write t (length body) ++ (body ++ rest)) ≡ ok (put_body s index body))
      × (read (put_body s index body) index ≡ some (Block.write t (length body) ++ body))
      × ((other : ℕ) → other ≢ index → read (put_body s index body) other ≡ read s other)
unfolding write read
im_read-write s index t body rest h =
    (ground (arith, block_parse-write t body rest), ground arith, λ other ne. ground arith)

length-persisted : (s : ImStore) → IsStore s → length (persisted s) ≡ 124
unfolding persisted
length-persisted s i = omega (
  arith,
  length-append s.im1 (s.im2 ++ s.im3),
  length-append s.im2 s.im3,
  i.im1_full,
  i.im2_full,
  i.im3_full,
)

im1_lem : (s : ImStore) → IsStore s → slice (persisted s) 0 54 ≡ s.im1
unfolding persisted
im1_lem s i = slice_append [] s.im1 (s.im2 ++ s.im3) 0 54 refl (omega (arith, i.im1_full))

im2_lem : (s : ImStore) → IsStore s → slice (persisted s) 54 70 ≡ s.im2
unfolding persisted
im2_lem s i = slice_append s.im1 s.im2 s.im3 54 70 i.im1_full (omega (arith, i.im2_full))

im3_lem : (s : ImStore) → IsStore s → slice (persisted s) 70 124 ≡ s.im3
unfolding persisted
im3_lem s i =
    let front : length (s.im1 ++ s.im2) ≡ 70 =
      omega (arith, length-append s.im1 s.im2, i.im1_full, i.im2_full) in
    ap (λ (b : Bytes). slice b 70 124)
      (sym (append_assoc s.im1 s.im2 s.im3)
        ∙ ap (λ (c : Bytes). (s.im1 ++ s.im2) ++ c) (sym (append-nil s.im3)))
    ∙ slice_append (s.im1 ++ s.im2) s.im3 [] 70 124 front (omega (arith, i.im3_full))

-- A store that was saved is loaded again.
pub load-persisted :
    (s : ImStore) (p : Bytes)
    → IsStore s
    → load (some p) (some (persisted s)) ≡ record s { path = some p }
unfolding load
load-persisted s p i = rw (length-persisted s i) (cc (im1_lem s i, im2_lem s i, im3_lem s i))
