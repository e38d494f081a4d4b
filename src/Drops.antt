-- ===== src/Drops.antt =====
-- pkg/coordinator/collect.go: how much a host's counter rose over a run, by its samples. A sample
-- is whether it measured the counter, and the value read. Counters are not negative.
mod Rises
mod Tests
use topdisc_testbed.Base.{
  ℕ, zero, suc, ◌+◌, ◌-◌, Bool, true, false, not, ◌&&◌, ◌||◌, Option, none, some, List, [], ◌∷◌,
  if◌then◌else◌, leb, length, get_or, map, max,
}

-- One pair of readings: a fall is a reset, after which the new value is all rise.
unfoldable pub rise : ℕ → ℕ → ℕ
rise prev x = if leb prev x then x - prev else x

unfoldable pub rise_since : Option ℕ → ℕ → ℕ
rise_since none x = 0
rise_since (some prev) x = rise prev x

-- The loop of `increase`; none is `!seen`.
unfoldable pub increase_from : Option ℕ → List (Bool × ℕ) → ℕ
increase_from prev [] = 0
increase_from prev ((ok, x) ∷ hs) =
    let skipped = increase_from prev hs in
    let rest = increase_from (some x) hs in if ok then rise_since prev x + rest else skipped

unfoldable pub increase : List (Bool × ℕ) → ℕ
increase hs = increase_from none hs

unfoldable pub any : {A : Type 0} → List A → (A → Bool) → Bool
any [] f = false
any (s ∷ hs) f = if f s then true else any hs f

-- `ok[i] = f(s)`
unfoldable pub measured : {A : Type 0} → List A → (A → Bool) → List Bool
measured [] f = []
measured (s ∷ hs) f = f s ∷ measured hs f

unfoldable pub covered : List Bool → Bool
covered ok = leb 2 (length ok) && (get_or ok 0 false && get_or ok (length ok - 1) false)
