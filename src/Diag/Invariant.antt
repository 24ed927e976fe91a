-- ===== src/Diag/Invariant.antt =====
-- The store's invariant, which raising and clearing keep, and that a clear undoes a raise.
use pnio_rs.Prelude.{ℕ, ◌≡◌, arith, refl, Option, none, some}
use pnio_rs.Prelude.{List, [], ◌∷◌, All}
use pnio_rs.Diag.Map.{Key, lookup, insert, remove}
use pnio_rs.Diag.Keys.{IsSorted, insert-IsSorted, remove-IsSorted}
use pnio_rs.Diag.{
  ChannelError, Diagnosis, SubmoduleInfo, DiagStore, new, info, key_of, directed, raise_at, raise,
  cleared, clear_at, clear,
}

-- An entry stands under the diagnosis' own key, its slot is known, and its direction is the
-- submodule's.
abbrev pub IsEntry : List SubmoduleInfo → Key × Diagnosis → Type 0
IsEntry submodules e =
    (e.0 ≡ key_of e.1)
    × (i : SubmoduleInfo) × (info (new submodules) e.1.slot ≡ some i)
    × (e.1.direction ≡ i.direction)

-- The entries are in the order of their keys, so no key stands twice.
pub record IsStore (s : DiagStore) : Type 0 where
  pub sorted : IsSorted s.active
  pub entries : All (IsEntry s.submodules) s.active

insert-All {ℓ κ} :
    {V : Type ℓ} (P : Key × V → Type κ) (k : Key) (v : V) (m : List (Key × V))
    → P (k, v)
    → All P m
    → All P (insert k v m)
unfolding insert
insert-All P k v [] h a = (h, tt)
insert-All P k v ((j, w) ∷ m) h (aj, am) =
    let rest = insert-All P k v m h am in ground (arith, h, aj, am, rest)

remove-All {ℓ κ} :
    {V : Type ℓ} (P : Key × V → Type κ) (k : Key) (m : List (Key × V))
    → All P m
    → All P (remove k m)
unfolding remove
remove-All P k [] a = tt
remove-All P k ((j, w) ∷ m) (aj, am) =
    let rest = remove-All P k m am in ground (arith, aj, am, rest)

inserted-IsStore :
    (s : DiagStore) (d : Diagnosis) (i : SubmoduleInfo)
    → IsStore s
    → info s d.slot ≡ some i
    → IsStore (record s { active = insert (key_of d) (directed d i) s.active })
unfolding info
inserted-IsStore s d i h e = record {
  sorted = insert-IsSorted (key_of d) (directed d i) s.active h.sorted;
  entries =
      insert-All (IsEntry s.submodules) (key_of d) (directed d i) s.active (refl, i, e, refl)
        h.entries;
}

raised-IsStore :
    (s : DiagStore) (d : Diagnosis) (found : Option SubmoduleInfo)
    → IsStore s
    → info s d.slot ≡ found
    → IsStore (raise_at s d found).0
raised-IsStore s d none h e = h
raised-IsStore s d (some i) h e =
    let inserted = inserted-IsStore s d i h e in ground (arith, h, inserted)

-- Raising a diagnosis, of whatever slot, channel, error and severity, keeps the invariant.
pub raise-IsStore : (s : DiagStore) (d : Diagnosis) → IsStore s → IsStore (raise s d).0
unfolding raise
raise-IsStore s d h = raised-IsStore s d (info s d.slot) h refl

removed-IsStore :
    (s : DiagStore) (k : Key) → IsStore s → IsStore (record s { active = remove k s.active })
removed-IsStore s k h = record {
  sorted = remove-IsSorted k s.active h.sorted;
  entries = remove-All (IsEntry s.submodules) k s.active h.entries;
}

cleared-IsStore :
    (s : DiagStore) (d : Diagnosis) (slot channel : ℕ) (found : Option SubmoduleInfo)
    → IsStore s
    → IsStore (cleared s d slot channel found).0
cleared-IsStore s d slot channel none h = h
cleared-IsStore s d slot channel (some i) h = h

clear_at-IsStore :
    (s : DiagStore) (k : Key) (found : Option Diagnosis)
    → IsStore s
    → IsStore (clear_at s k found).0
clear_at-IsStore s k none h = h
clear_at-IsStore s k (some d) h =
    cleared-IsStore (record s { active = remove k s.active }) d k.slot k.channel _
      (removed-IsStore s k h)

-- Clearing an error keeps the invariant, whether it was active or not.
pub clear-IsStore :
    (s : DiagStore) (slot channel : ℕ) (error : ChannelError)
    → IsStore s
    → IsStore (clear s slot channel error).0
unfolding clear
clear-IsStore s slot channel error h = clear_at-IsStore s _ (lookup _ s.active) h
