-- ===== src/Diag/Map.antt =====
-- The map of crates/pnio/src/diag.rs from slot, channel and error code to the diagnosis: its entries
-- in the lexicographic order of the keys, as a `BTreeMap` gives them.
use pnio_rs.Prelude.{ℕ, Bool, ◌&&◌, ◌||◌, Option, none, some, List, [], ◌∷◌, ltb, ◌==◌}
use pnio_rs.Prelude.{if◌then◌else◌}

pub record Key : Type 0 where
  pub slot : ℕ
  pub channel : ℕ
  pub error : ℕ

unfoldable pub key_eq : Key → Key → Bool
key_eq a b = a.slot == b.slot && (a.channel == b.channel && a.error == b.error)

unfoldable pub key_lt : Key → Key → Bool
key_lt a b =
    ltb a.slot b.slot
    || (a.slot == b.slot
        && (ltb a.channel b.channel || (a.channel == b.channel && ltb a.error b.error)))

module _ {ℓ} {V : Type ℓ} where
  unfoldable pub lookup : Key → List (Key × V) → Option V
  lookup k [] = none
  lookup k ((j, v) ∷ m) = if key_eq k j then some v else lookup k m

  unfoldable pub insert : Key → V → List (Key × V) → List (Key × V)
  insert k v [] = (k, v) ∷ []
  insert k v ((j, w) ∷ m) =
      if key_eq k j
      then (k, v) ∷ m
      else if key_lt k j
      then (k, v) ∷ (j, w) ∷ m
      else (j, w) ∷ insert k v m

  unfoldable pub remove : Key → List (Key × V) → List (Key × V)
  remove k [] = []
  remove k ((j, w) ∷ m) = if key_eq k j then m else (j, w) ∷ remove k m

  unfoldable pub values : List (Key × V) → List V
  values [] = []
  values ((j, w) ∷ m) = w ∷ values m

  unfoldable pub keys : List (Key × V) → List Key
  keys [] = []
  keys ((j, w) ∷ m) = j ∷ keys m
