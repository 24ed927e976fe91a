-- ===== src/Cm/Ar/Sequence.antt =====
-- Handlers that run one after the other.
use pnio_rs.Prelude.{◌≡◌, refl, arith, none, some, List, ◌++◌}
use pnio_rs.Cm.Ar.Types.{Action, Ar}
use pnio_rs.Cm.Ar.Ops.{Outcome}

abbrev pub behind : List Action → Outcome → Outcome
behind out none = none
behind out (some (ar, more)) = some (ar, out ++ more)

-- The second handler starts from the AR behind the first, and its actions follow.
abbrev pub and_then : Outcome → (Ar → Outcome) → Outcome
and_then none k = none
and_then (some (ar, out)) k = behind out (k ar)

behind-eq-some :
    (out : List Action) (o : Outcome) (ar' : Ar) (acts : List Action)
    → behind out o ≡ some (ar', acts)
    → (more : List Action) × (o ≡ some (ar', more)) × (acts ≡ out ++ more)
behind-eq-some out none ar' acts h = absurd (ground arith)
behind-eq-some out (some (ar, more)) ar' acts h = (more, ground arith, ground arith)

pub and_then-eq-some :
    (o : Outcome) (k : Ar → Outcome) (ar' : Ar) (acts : List Action)
    → and_then o k ≡ some (ar', acts)
    → (r : Ar × List Action) × (more : List Action) × (o ≡ some r)
      × (k r.0 ≡ some (ar', more))
      × (acts ≡ r.1 ++ more)
and_then-eq-some none k ar' acts h = absurd (ground arith)
and_then-eq-some (some (ar, out)) k ar' acts h =
    let (more, e, e') = behind-eq-some out (k ar) ar' acts h in ((ar, out), more, refl, e, e')
