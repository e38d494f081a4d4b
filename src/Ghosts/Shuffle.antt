-- ===== src/Ghosts/Shuffle.antt =====
-- The partial shuffle takes distinct ghosts of the slice.
use topdisc_testbed.Base.{
  ℕ, zero, suc, ◌+◌, ◌-◌, ◌≡◌, ◌≤◌, ◌<◌, Bool, true, not, arith, refl, ap, ◌==◌, has, length,
  IsDistinct, Bool-cases, inl, inr,
}
use topdisc_testbed.Assign.Starts.{InRange}
use topdisc_testbed.Ghosts.{swap, draw_ghosts}

-- The elements from t on differ.
abbrev pub InjectiveFrom : (ℕ → ℕ) → ℕ → ℕ → Type 0
InjectiveFrom c t len = (a b : ℕ) → t ≤ a → t ≤ b → a < len → b < len → c a ≡ c b → a ≡ b

swap-Injective :
    (c : ℕ → ℕ) (t x len : ℕ)
    → t ≤ x
    → x < len
    → InjectiveFrom c t len
    → InjectiveFrom (swap c t x) t len
unfolding swap
swap-Injective c t x len h k inj a b p q r s e =
    ground (arith, inj a b p q r s, inj t b, inj a t, inj x b, inj a x, inj t x, inj x t)

pub length-draw_ghosts :
    (intn : ℕ → ℕ → ℕ) (len : ℕ) (c : ℕ → ℕ) (t n : ℕ) → length (draw_ghosts intn len c t n) ≡ n
unfolding draw_ghosts
length-draw_ghosts intn len c t zero = refl
length-draw_ghosts intn len c t (suc n) =
    ap suc (length-draw_ghosts intn len (swap c t (t + intn t (len - t))) (t + 1) n)

-- What holds of all elements from t on holds of those taken.
pub draw_ghosts-all :
    (intn : ℕ → ℕ → ℕ) (len : ℕ) (c : ℕ → ℕ) (t n : ℕ) (p : ℕ → Bool)
    → InRange intn
    → t + n ≤ len
    → ((i : ℕ) → t ≤ i → i < len → p (c i) ≡ true)
    → (j : ℕ) → has (draw_ghosts intn len c t n) j ≡ true
    → p j ≡ true
unfolding draw_ghosts has swap
draw_ghosts-all intn len c t zero p r h a j e = ground arith
draw_ghosts-all intn len c t (suc n) p r h a j e =
    let x = t + intn t (len - t) in
    let l : intn t (len - t) < len - t = r t (len - t) (omega arith) in
    let rest =
      draw_ghosts-all intn len (swap c t x) (t + 1) n p r (omega arith)
        (λ i b k. ground (arith, a i, a t, a x)) j in
    ground (arith, a x, rest)

pub draw_ghosts-IsDistinct :
    (intn : ℕ → ℕ → ℕ) (len : ℕ) (c : ℕ → ℕ) (t n : ℕ)
    → InRange intn
    → t + n ≤ len
    → InjectiveFrom c t len
    → IsDistinct (draw_ghosts intn len c t n)
unfolding draw_ghosts
draw_ghosts-IsDistinct intn len c t zero r h inj = tt
draw_ghosts-IsDistinct intn len c t (suc n) r h inj =
    let x = t + intn t (len - t) in
    let l : intn t (len - t) < len - t = r t (len - t) (omega arith) in
    let c' = swap c t x in
    let inj' = swap-Injective c t x len (omega arith) (omega arith) inj in
    (
      elim (Bool-cases (has (draw_ghosts intn len c' (t + 1) n) (c' t))) [
        | inl e ↦ ground (
          arith,
          draw_ghosts-all intn len c' (t + 1) n (λ y. not (y == c' t)) r (omega arith)
              (λ i a b. ground (arith, inj' i t (omega arith) (omega arith) b (omega arith))) (c' t)
              e,
        )
        | inr e ↦ e
      ],
      draw_ghosts-IsDistinct intn len c' (t + 1) n r (omega arith)
          (λ a b p q. inj' a b (omega arith) (omega arith)),
    )
