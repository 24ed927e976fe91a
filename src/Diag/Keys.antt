-- ===== src/Diag/Keys.antt =====
-- The laws of the map: what an insertion and a removal do to every key, and that the entries stay in
-- order.
use pnio_rs.Prelude.{refl, ◌≡◌, arith, sym, subst, true, false, none, some, List, []}
use pnio_rs.Prelude.{◌∷◌, All, All-map, Bool-cases, inl, inr}
use pnio_rs.Diag.Map.{Key, key_eq, key_lt, lookup, insert, remove}

pub key_eq_sound : (a b : Key) → key_eq a b ≡ true → a ≡ b
unfolding key_eq
key_eq_sound a b h = ground arith

pub key_eq_self : (a : Key) → key_eq a a ≡ true
unfolding key_eq
key_eq_self a = ground arith

key_lt_ne : (a b : Key) → key_lt a b ≡ true → key_eq a b ≡ false
unfolding key_eq key_lt
key_lt_ne a b h = ground arith

key_lt_trans : (a b c : Key) → key_lt a b ≡ true → key_lt b c ≡ true → key_lt a c ≡ true
unfolding key_lt
key_lt_trans a b c h k = ground arith

-- Of two keys that are neither equal nor in order, the other one is below.
key_lt_other : (a b : Key) → key_eq a b ≡ false → key_lt a b ≡ false → key_lt b a ≡ true
unfolding key_eq key_lt
key_lt_other a b h k = ground arith

module _ {ℓ} {V : Type ℓ} where
  abbrev pub Above : Key → List (Key × V) → Type 0
  Above k m = All (λ (e : Key × V). key_lt k e.0 ≡ true) m

  abbrev pub IsSorted : List (Key × V) → Type 0
  IsSorted [] = Unit {0}
  IsSorted ((j, w) ∷ m) = Above j m × IsSorted m

  Above-trans : (j k : Key) (m : List (Key × V)) → key_lt j k ≡ true → Above k m → Above j m
  Above-trans j k m h a = All-map (λ e he. key_lt_trans j k e.0 h he) m a

  insert-Above :
      (j k : Key) (v : V) (m : List (Key × V))
      → key_lt j k ≡ true
      → Above j m
      → Above j (insert k v m)
  unfolding insert
  insert-Above j k v [] h a = (h, tt)
  insert-Above j k v ((i, w) ∷ m) h (ai, am) =
      let rest = insert-Above j k v m h am in ground (arith, h, ai, am, rest)

  pub insert-IsSorted :
      (k : Key) (v : V) (m : List (Key × V)) → IsSorted m → IsSorted (insert k v m)
  unfolding insert
  insert-IsSorted k v [] h = (tt, tt)
  insert-IsSorted k v ((j, w) ∷ m) (a, h) = elim (Bool-cases (key_eq k j)) [
    | inl same ↦ rw same (subst (λ (i : Key). Above i m) (sym (key_eq_sound k j same)) a, h)
    | inr apart ↦ elim (Bool-cases (key_lt k j)) [
      | inl below ↦ rw (apart, below) ((below, Above-trans k j m below a), (a, h))
      | inr above ↦
          rw (apart, above)
            (insert-Above j k v m (key_lt_other k j apart above) a, insert-IsSorted k v m h)
    ]
  ]

  remove-Above : (j k : Key) (m : List (Key × V)) → Above j m → Above j (remove k m)
  unfolding remove
  remove-Above j k [] a = tt
  remove-Above j k ((i, w) ∷ m) (ai, am) = ground (arith, remove-Above j k m am)

  pub remove-IsSorted : (k : Key) (m : List (Key × V)) → IsSorted m → IsSorted (remove k m)
  unfolding remove
  remove-IsSorted k [] h = tt
  remove-IsSorted k ((j, w) ∷ m) (a, h) =
      ground (arith, remove-Above j k m a, remove-IsSorted k m h)

  -- Removing what was inserted under a new key gives the old map back.
  pub remove-insert :
      (k : Key) (v : V) (m : List (Key × V)) → lookup k m ≡ none → remove k (insert k v m) ≡ m
  unfolding lookup insert remove
  remove-insert k v [] h = ground (arith, key_eq_self k)
  remove-insert k v ((j, w) ∷ m) h = ground (arith, key_eq_self k, remove-insert k v m)

  pub lookup-insert : (k : Key) (v : V) (m : List (Key × V)) → lookup k (insert k v m) ≡ some v
  unfolding lookup insert
  lookup-insert k v [] = ground (arith, key_eq_self k)
  lookup-insert k v ((j, w) ∷ m) = ground (arith, key_eq_self k, lookup-insert k v m)

  pub lookup-insert_other :
      (k j : Key) (v : V) (m : List (Key × V))
      → key_eq k j ≡ false
      → lookup k (insert j v m) ≡ lookup k m
  unfolding lookup insert
  lookup-insert_other k j v [] h = ground (arith, h)
  lookup-insert_other k j v ((i, w) ∷ m) h =
      ground (arith, h, key_eq_sound j i, lookup-insert_other k j v m h)

  pub lookup-remove_other :
      (k j : Key) (m : List (Key × V)) → key_eq k j ≡ false → lookup k (remove j m) ≡ lookup k m
  unfolding lookup remove
  lookup-remove_other k j [] h = refl
  lookup-remove_other k j ((i, w) ∷ m) h =
      ground (arith, h, key_eq_sound j i, lookup-remove_other k j m h)

  lookup-Above : (k : Key) (m : List (Key × V)) → Above k m → lookup k m ≡ none
  unfolding lookup
  lookup-Above k [] h = refl
  lookup-Above k ((j, w) ∷ m) h = ground (arith, key_lt_ne k j, lookup-Above k m)

  pub lookup-remove : (k : Key) (m : List (Key × V)) → IsSorted m → lookup k (remove k m) ≡ none
  unfolding lookup remove
  lookup-remove k [] h = refl
  lookup-remove k ((j, w) ∷ m) (a, h) =
      ground (arith, key_eq_sound k j, lookup-Above j m a, lookup-remove k m h)
