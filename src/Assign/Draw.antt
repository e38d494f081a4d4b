-- ===== src/Assign/Draw.antt =====
-- Zipf.Draw inverts the cumulative distribution.
use topdisc_testbed.Base.{ℕ, ◌-◌, ◌≡◌, ◌≤◌, ◌<◌, ◌⊎◌, Bool, true, false, not, arith, bisect-IsFirst}
use topdisc_testbed.Assign.{zipf_draw}

-- Where the cumulative shares ascend, Draw returns the first index whose share is not below the
-- number drawn, or the last index if there is none.
pub zipf_draw_first :
    (n : ℕ) (below : ℕ → Bool)
    → 0 < n
    → ((i j : ℕ) → i ≤ j → j < n → below j ≡ true → below i ≡ true)
    → (zipf_draw n below < n)
      × ((j : ℕ) → j < zipf_draw n below → below j ≡ true)
      × ((zipf_draw n below ≡ n - 1) ⊎ (below (zipf_draw n below) ≡ false))
unfolding zipf_draw
zipf_draw_first n below h m =
    let r =
      bisect-IsFirst n (λ i. not (below i)) 0 (n - 1)
        (λ i j a b e. ground (arith, m i j a (omega arith))) (omega arith) (omega arith) in
    (
      omega (arith, r.below),
      λ j l. ground (arith, r.before j (omega arith) l),
      ground (arith, r.below, r.from),
    )
