-- ===== src/Rt/Runner/Grid.antt =====
-- The lateness that the tick grid reports.
use pnio_rs.Prelude.{ℕ, ◌+◌, ◌-◌, ◌*◌, ◌^◌, ◌<◌, ◌≡◌, arith, refl, some, List, [], ◌∷◌, u64}
use pnio_rs.Rt.Runner.{TickGrid, new_grid, on_read, saturate}

-- The timer reads, each with its time and its expirations.
unfoldable pub read_all : TickGrid → List (ℕ × ℕ) → TickGrid
read_all grid [] = grid
read_all grid ((now, expirations) ∷ rs) = read_all (on_read grid now expirations).0 rs

abbrev pub total : List (ℕ × ℕ) → ℕ
total [] = 0
total ((now, expirations) ∷ rs) = expirations + total rs

abbrev anchored : ℕ → ℕ → ℕ → TickGrid
anchored period first ticks = record { period = period; start = some first; ticks = ticks }

read_all-anchored :
    (period first : ℕ) (rs : List (ℕ × ℕ)) (ticks : ℕ)
    → ticks + total rs < 2 ^ 64
    → read_all (anchored period first ticks) rs ≡ anchored period first (ticks + total rs)
unfolding read_all on_read
read_all-anchored period first [] ticks h = let n : ticks + 0 ≡ ticks = omega arith in rw n refl
read_all-anchored period first ((now, k) ∷ rs) ticks h =
    let kept : saturate (ticks + k) ≡ ticks + k = omega arith in
    let sum : ticks + k + total rs ≡ ticks + (k + total rs) = omega arith in
    rw (kept, ← sum) (read_all-anchored period first rs (ticks + k) (omega arith))

-- The first timer read anchors the grid, whatever its expirations are; behind any further reads, a
-- read is as late as its distance from the first read's time plus a period for each expiration
-- since: lateness does not add up from read to read. The period, the expirations and the time fit
-- their 64-bit words.
pub on_read-late :
    (period first skipped : ℕ) (rs : List (ℕ × ℕ)) (now expirations : ℕ)
    → period < 2 ^ 64
    → total rs + expirations + 1 < 2 ^ 64
    → period * (total rs + expirations) < 2 ^ 64
    → now < 2 ^ 64
    → (on_read (read_all (new_grid period) ((first, skipped) ∷ rs)) now expirations).1
      ≡ now - (first + period * (total rs + expirations))
unfolding read_all on_read
on_read-late period first skipped rs now expirations hp ht hd hn =
    let n : ℕ = total rs + expirations in
    let there : read_all (anchored period first 1) rs ≡ anchored period first (1 + total rs) =
      read_all-anchored period first rs 1 (omega arith) in
    let ticks : saturate (1 + total rs + expirations) - 1 ≡ n = omega arith in
    let word : u64 period ≡ period = omega arith in
    let fits : saturate (period * n) ≡ period * n = omega arith in
    rw (there, ticks, word, fits) (omega arith)
