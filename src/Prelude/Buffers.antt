-- ===== src/Prelude/Buffers.antt =====
-- Writing into a preallocated buffer: `out[a..b].copy_from_slice(src)`.
use Prim.Native.Nat.{ℕ, zero, suc, ◌+◌, ◌-◌, ◌≤◌}
use mathlib.Core.Path.{◌≡◌, refl, sym, ap, ◌∙◌}
use mathlib.Core.Logic.{◌⊎◌, inl, inr}
use mathlib.Core.List.{List, [], ◌∷◌, ◌++◌, append-nil, append_assoc}
use native.Mathlib.Omega.{arith}
use pnio_rs.Prelude.Lists.{
  length, take, drop, length-append, take-length-append, drop-length-append, length-take,
  length-drop,
}
use pnio_rs.Prelude.Words.{Bytes, slice}

-- The bytes of `src` from `pos` on; what stands before and behind them stays.
unfoldable pub copy_at : Bytes → ℕ → Bytes → Bytes
copy_at out pos src = take pos out ++ (src ++ drop (pos + length src) out)

pub length-copy_at :
    (out : Bytes) (pos : ℕ) (src : Bytes)
    → pos + length src ≤ length out
    → length (copy_at out pos src) ≡ length out
unfolding copy_at
length-copy_at out pos src h = omega (
  arith,
  length-append (take pos out) (src ++ drop (pos + length src) out),
  length-append src (drop (pos + length src) out),
  length-take pos out,
  length-drop (pos + length src) out,
)

drop-all : (xs : Bytes) → drop (length xs) xs ≡ []
drop-all [] = refl
drop-all (x ∷ xs) = drop-all xs

-- A copy that fills the buffer leaves nothing of it.
pub copy_at-all : (out src : Bytes) → length src ≡ length out → copy_at out 0 src ≡ src
unfolding copy_at
copy_at-all out src h =
    ap (λ (k : ℕ). src ++ drop k out) (omega arith)
    ∙ ap (λ (rest : Bytes). src ++ rest) (drop-all out)
    ∙ append-nil src

-- Copies one after the other, each from where the last one ended.
unfoldable pub copy_all : Bytes → ℕ → List Bytes → Bytes
copy_all out pos [] = out
copy_all out pos (c ∷ cs) = copy_all (copy_at out pos c) (pos + length c) cs

abbrev pub concat : List Bytes → Bytes
concat [] = []
concat (c ∷ cs) = c ++ concat cs

module _ {ℓ} {A : Type ℓ} where
  pub drop_append : (xs ys : List A) (n : ℕ) → drop (length xs + n) (xs ++ ys) ≡ drop n ys
  drop_append [] ys n = ap (λ (k : ℕ). drop k ys) (omega arith)
  drop_append (x ∷ xs) ys n =
      let e : length (x ∷ xs) + n ≡ suc (length xs + n) = omega arith in rw e (drop_append xs ys n)

  drop-nil : (n : ℕ) → drop {A = A} n [] ≡ []
  drop-nil zero = refl
  drop-nil (suc n) = refl

  pub drop-drop : (m n : ℕ) (xs : List A) → drop m (drop n xs) ≡ drop (n + m) xs
  drop-drop m zero xs = ap (λ (k : ℕ). drop k xs) (omega arith)
  drop-drop m (suc n) [] = drop-nil m ∙ sym (drop-nil (suc n + m))
  drop-drop m (suc n) (x ∷ xs) =
      let e : suc n + m ≡ suc (n + m) = omega arith in rw e (drop-drop m n xs)

copy_at_next :
    (pre out c : Bytes)
    → copy_at (pre ++ drop (length pre) out) (length pre) c
      ≡ (pre ++ c) ++ drop (length (pre ++ c)) out
unfolding copy_at
copy_at_next pre out c =
    rw
      (
        take-length-append pre,
        drop_append pre,
        drop-drop (length c) (length pre) out,
        length-append pre c,
      )
      (sym (append_assoc pre c _))

copy_all_from :
    (cs : List Bytes) (pre out : Bytes)
    → copy_all (pre ++ drop (length pre) out) (length pre) cs
      ≡ (pre ++ concat cs) ++ drop (length (pre ++ concat cs)) out
unfolding copy_all
copy_all_from [] pre out = rw append-nil
copy_all_from (c ∷ cs) pre out =
    rw (copy_at_next pre out c, ← length-append pre c)
      (copy_all_from cs (pre ++ c) out
        ∙ ap (λ (t : Bytes). t ++ drop (length t) out) (append_assoc pre c (concat cs)))

-- The buffer begins with the chunks in order, and behind them it is as it was.
pub copy_all_lem :
    (cs : List Bytes) (out : Bytes) → copy_all out 0 cs ≡ concat cs ++ drop (length (concat cs)) out
copy_all_lem cs out = copy_all_from cs [] out

-- A part of a known place and length is cut out of the middle.
pub slice_append {ℓ} :
    {A : Type ℓ} (xs ys zs : List A) (from to : ℕ)
    → length xs ≡ from
    → from + length ys ≡ to
    → slice (xs ++ (ys ++ zs)) from to ≡ ys
slice_append xs ys zs from to hf ht =
    let n : to - from ≡ length ys = omega arith in
    rw (n, ← hf, drop-length-append xs (ys ++ zs)) (take-length-append ys zs)

take_prefix :
    (k off : ℕ) (out rest : Bytes)
    → k ≤ off
    → off ≤ length out
    → take k (take off out ++ rest) ≡ take k out
take_prefix zero off out rest h fits = refl
take_prefix (suc k) zero out rest h fits = absurd (omega arith)
take_prefix (suc k) (suc off) [] rest h fits = absurd (omega arith)
take_prefix (suc k) (suc off) (x ∷ out) rest h fits =
    ap (◌∷◌ x) (take_prefix k off out rest (omega arith) (omega arith))

take-drop : (m a : ℕ) (xs : Bytes) → take m (drop a xs) ≡ drop a (take (a + m) xs)
take-drop m zero xs = ap (λ (k : ℕ). take k xs) (omega arith)
take-drop zero (suc a) [] = let e : suc a + 0 ≡ suc a = omega arith in rw e refl
take-drop (suc m) (suc a) [] = let e : suc a + suc m ≡ suc (a + suc m) = omega arith in rw e refl
take-drop m (suc a) (x ∷ xs) =
    let e : suc a + m ≡ suc (a + m) = omega arith in rw e (take-drop m a xs)

-- The bytes that a copy put are read back.
pub slice-copy_at :
    (out : Bytes) (off : ℕ) (src : Bytes)
    → off + length src ≤ length out
    → slice (copy_at out off src) off (off + length src) ≡ src
unfolding copy_at
slice-copy_at out off src h =
    slice_append (take off out) src (drop (off + length src) out) off (off + length src)
      (omega (arith, length-take off out)) refl

slice_before :
    (out : Bytes) (off : ℕ) (src : Bytes) (a m : ℕ)
    → off + length src ≤ length out
    → a + m ≤ off
    → slice (copy_at out off src) a (a + m) ≡ slice out a (a + m)
unfolding copy_at
slice_before out off src a m h before =
    let n : a + m - a ≡ m = omega arith in
    rw n (
      take-drop m a _
      ∙ ap (drop a)
          (take_prefix (a + m) off out (src ++ drop (off + length src) out) before (omega arith))
      ∙ sym (take-drop m a out))

slice_behind :
    (out : Bytes) (off : ℕ) (src : Bytes) (a m : ℕ)
    → off + length src ≤ length out
    → off + length src ≤ a
    → slice (copy_at out off src) a (a + m) ≡ slice out a (a + m)
unfolding copy_at
slice_behind out off src a m h behind =
    let front : length (take off out) + length src ≡ off + length src =
      omega (arith, length-take off out) in
    let gap : ℕ = a - (off + length src) in
    let split : a ≡ length (take off out ++ src) + gap =
      omega (arith, length-append (take off out) src) in
    let whole : off + length src + gap ≡ a = omega arith in
    let same : drop a (take off out ++ (src ++ drop (off + length src) out)) ≡ drop a out =
      ap (drop a) (sym (append_assoc (take off out) src (drop (off + length src) out)))
      ∙ ap (λ (k : ℕ). drop k ((take off out ++ src) ++ drop (off + length src) out)) split
      ∙ drop_append (take off out ++ src) (drop (off + length src) out) gap
      ∙ drop-drop gap (off + length src) out
      ∙ ap (λ (k : ℕ). drop k out) whole in
    ap (take (a + m - a)) same

-- A copy leaves what lies apart from it.
pub slice_apart :
    (out : Bytes) (off : ℕ) (src : Bytes) (a m : ℕ)
    → off + length src ≤ length out
    → (off + length src ≤ a) ⊎ (a + m ≤ off)
    → slice (copy_at out off src) a (a + m) ≡ slice out a (a + m)
slice_apart out off src a m h (inl behind) = slice_behind out off src a m h behind
slice_apart out off src a m h (inr before) = slice_before out off src a m h before

pub copy_at_front : (out src : Bytes) → copy_at out 0 src ≡ src ++ drop (length src) out
unfolding copy_at
copy_at_front out src = ap (λ (k : ℕ). src ++ drop k out) (omega arith)
