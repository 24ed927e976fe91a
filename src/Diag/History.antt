-- ===== src/Diag/History.antt =====
-- The store behind any raises and clears: for each key, whether a diagnosis is active, and how
-- severe it is.
use pnio_rs.Prelude.{
  ℕ, ◌≡◌, arith, refl, ◌∙◌, true, ◌&&◌, Bool-cases, inl, inr, Option, none, some, List, [], ◌∷◌,
  if◌then◌else◌,
}
use pnio_rs.Diag.Map.{Key, key_eq, lookup}
use pnio_rs.Diag.Keys.{
  lookup-insert, lookup-insert_other, lookup-remove, lookup-remove_other, key_eq_sound,
}
use pnio_rs.Diag.Invariant.{IsStore, raise-IsStore, clear-IsStore}
use pnio_rs.Diag.{
  ChannelError, Severity, Diagnosis, SubmoduleInfo, DiagStore, new, info, knows, code, key_of,
  severity_eq, directed, raise_at, raise_in, raise, clear_at, clear,
}

pub data Change : Type 0 where
  raised : Diagnosis → Change
  no_more : ℕ → ℕ → ChannelError → Change

unfoldable pub change : DiagStore → Change → DiagStore
change s (raised d) = (raise s d).0
change s (no_more slot channel error) = (clear s slot channel error).0

unfoldable pub run : DiagStore → List Change → DiagStore
run s [] = s
run s (c ∷ cs) = run (change s c) cs

change-IsStore : (s : DiagStore) (c : Change) → IsStore s → IsStore (change s c)
unfolding change
change-IsStore s (raised d) h = raise-IsStore s d h
change-IsStore s (no_more slot channel error) h = clear-IsStore s slot channel error h

pub run-IsStore : (cs : List Change) (s : DiagStore) → IsStore s → IsStore (run s cs)
unfolding run
run-IsStore [] s h = h
run-IsStore (c ∷ cs) s h = run-IsStore cs (change s c) (change-IsStore s c h)

abbrev pub severity_of : Option Diagnosis → Option Severity
severity_of none = none
severity_of (some d) = some d.severity

-- What a change makes of the severity that stands under a key: a raise of a known slot puts its
-- own, and a clear takes it away.
abbrev pub standing_behind : List SubmoduleInfo → Key → Option Severity → Change → Option Severity
standing_behind submodules k old (raised d) =
    if knows (new submodules) d.slot && key_eq k (key_of d) then some d.severity else old
standing_behind submodules k old (no_more slot channel error) =
    if key_eq k (record { slot = slot; channel = channel; error = code error }) then none else old

abbrev pub standing : List SubmoduleInfo → Key → Option Severity → List Change → Option Severity
standing submodules k old [] = old
standing submodules k old (c ∷ cs) = standing submodules k (standing_behind submodules k old c) cs

severity_eq_sound : (a b : Severity) → severity_eq a b ≡ true → a ≡ b
unfolding severity_eq
severity_eq_sound a b h = ground arith

raise_in-lookup :
    (s : DiagStore) (d : Diagnosis) (i : SubmoduleInfo) (k : Key) (found : Option Diagnosis)
    → lookup (key_of d) s.active ≡ found
    → severity_of (lookup k (raise_in s i (directed d i)).0.active)
      ≡ (if key_eq k (key_of d) then some d.severity else severity_of (lookup k s.active))
raise_in-lookup s d i k found e = elim (Bool-cases (key_eq k (key_of d))) [
  | inl same ↦ let at : k ≡ key_of d = key_eq_sound k (key_of d) same in rw same (own found e at)
  | inr differ ↦
      let put = lookup-insert_other k (key_of d) (directed d i) s.active differ in
      rw differ (ground (arith, put))
]
  where
    own :
        (found : Option Diagnosis)
        → lookup (key_of d) s.active ≡ found
        → k ≡ key_of d
        → severity_of (lookup k (raise_in s i (directed d i)).0.active) ≡ some d.severity
    own none e at = ground (arith, lookup-insert (key_of d) (directed d i) s.active)
    own (some old) e at = ground (
      arith,
      lookup-insert (key_of d) (directed d i) s.active,
      severity_eq_sound old.severity d.severity,
    )

change-lookup :
    (s : DiagStore) (c : Change) (k : Key)
    → IsStore s
    → severity_of (lookup k (change s c).active)
      ≡ standing_behind s.submodules k (severity_of (lookup k s.active)) c
unfolding change raise clear info
change-lookup s (raised d) k h = known (info s d.slot) refl
  where
    known :
        (found : Option SubmoduleInfo)
        → info s d.slot ≡ found
        → severity_of (lookup k (raise_at s d found).0.active)
          ≡ standing_behind s.submodules k (severity_of (lookup k s.active)) (raised d)
    known none e = rw e refl
    known (some i) e = rw e (raise_in-lookup s d i k (lookup (key_of d) s.active) refl)
change-lookup s (no_more slot channel error) k h =
    gone (record { slot = slot; channel = channel; error = code error }) _ refl
  where
    gone :
        (j : Key) (found : Option Diagnosis)
        → lookup j s.active ≡ found
        → severity_of (lookup k (clear_at s j found).0.active)
          ≡ (if key_eq k j then none else severity_of (lookup k s.active))
    gone j none e = elim (Bool-cases (key_eq k j)) [
      | inl same ↦ let at : k ≡ j = key_eq_sound k j same in rw same (rw (at, e) refl)
      | inr differ ↦ rw differ refl
    ]
    gone j (some d) e = elim (Bool-cases (key_eq k j)) [
      | inl same ↦
          let at : k ≡ j = key_eq_sound k j same in
          rw same (ground (arith, lookup-remove j s.active h.sorted))
      | inr differ ↦ rw differ (ground (arith, lookup-remove_other k j s.active differ))
    ]

submodules-change : (s : DiagStore) (c : Change) → (change s c).submodules ≡ s.submodules
unfolding change raise clear info
submodules-change s (raised d) = ground arith
submodules-change s (no_more slot channel error) = ground arith

-- For every key, what is active behind any raises and clears is what the last change about the key
-- left.
pub run-standing :
    (cs : List Change) (s : DiagStore) (k : Key)
    → IsStore s
    → severity_of (lookup k (run s cs).active)
      ≡ standing s.submodules k (severity_of (lookup k s.active)) cs
unfolding run
run-standing [] s k h = refl
run-standing (c ∷ cs) s k h = run-standing cs (change s c) k (change-IsStore s c h) ∙ step c
  where
    step :
        (c : Change)
        → standing (change s c).submodules k (severity_of (lookup k (change s c).active)) cs
          ≡ standing s.submodules k (severity_of (lookup k s.active)) (c ∷ cs)
    step c = rw (submodules-change s c, change-lookup s c k h) refl

pub submodules-run : (cs : List Change) (s : DiagStore) → (run s cs).submodules ≡ s.submodules
unfolding run
submodules-run [] s = refl
submodules-run (c ∷ cs) s = submodules-run cs (change s c) ∙ submodules-change s c
