-- ===== src/Addr/Draws.antt =====
-- What Draw returns, and when it fails.
use topdisc_testbed.Base.{
  ℕ, zero, suc, ◌+◌, ◌≡◌, ◌≢◌, ◌<◌, refl, Option, none, some, List, [], ◌∷◌, ◌++◌, leb, ◌==◌,
  length, arith, if_ind, Bool-cases, inl, inr, find_or, ==-eq-false, leb-eq-false, length-append,
  subst, sym,
}
use topdisc_testbed.Churn.{Model, draw_prefix, has_addresses}
use topdisc_testbed.Addr.{
  Entry, Pool, Result, ok, err, ◌>>=◌, claim, entry_for, draw_node, draw_from, draw, summary,
}
use topdisc_testbed.Addr.Pools.{IsValid, claim-IsValid, empty-IsValid}

-- A node's draw that succeeds has taken the next host octet of a prefix that had one left.
record Claimed (used : List (ℕ × ℕ)) (r : Entry × List (ℕ × ℕ)) : Type 0 where
  pre : ℕ
  real : pre ≢ 0
  free : find_or 0 pre used < 254
  result : r ≡ (entry_for pre used, claim pre used)

abbrev extended : Pool → Entry × List (ℕ × ℕ) → Pool
extended p taken = record { entries = p.entries ++ taken.0 ∷ []; used = taken.1 }

abbrev OnOk : {A : Type 0} → (A → Type 0) → Result A → Type 0
OnOk P (ok a) = P a
OnOk P (err e) = Unit

OnOk-bind :
    {A B : Type 0} {P : A → Type 0} (Q : B → Type 0) (r : Result A) (f : A → Result B)
    → OnOk P r
    → ((a : A) → P a → OnOk Q (f a))
    → OnOk Q (r >>= f)
OnOk-bind Q (ok a) f p h = h a p
OnOk-bind Q (err e) f p h = tt

module _ {F : Type 0} (num_topics : ℕ) where
  draw_node-Claimed :
      (intn : ℕ → ℕ → ℕ) (i t left : ℕ) (m : Model F) (used : List (ℕ × ℕ))
      → OnOk (Claimed used) (draw_node intn num_topics i t left m used).1
  unfolding draw_node
  draw_node-Claimed intn i t zero m used = tt
  draw_node-Claimed intn i t (suc left) m used =
      let (m', pre) = draw_prefix m (intn left) t num_topics in
      if_ind P (pre == 0) (λ _. tt)
        λ real.
          if_ind P (leb 254 (find_or 0 pre used)) (λ _. draw_node-Claimed intn i t left m' used)
            λ free. record {
              pre = pre;
              real = ==-eq-false pre 0 real;
              free = leb-eq-false 254 _ free;
              result = refl;
            }
    where
      P : Model F × Result (Entry × List (ℕ × ℕ)) → Type 0
      P r = OnOk (Claimed used) r.1

  draw_from-IsValid :
      (intn : ℕ → ℕ → ℕ → ℕ) (topic_of : ℕ → ℕ) (n i total : ℕ) (m : Model F) (p : Pool)
      → IsValid p
      → length p.entries + n ≡ total
      → OnOk
          (λ q. IsValid q × (length q.entries ≡ total))
          (draw_from intn num_topics topic_of n i m p)
  unfolding draw_from
  draw_from-IsValid intn topic_of zero i total m p v e = (v, omega arith)
  draw_from-IsValid intn topic_of (suc n) i total m p v e =
      let (m', r) = draw_node (intn i) num_topics i (topic_of i) 64 m p.used in
      OnOk-bind {P = Claimed p.used} (λ (q : Pool). IsValid q × (length q.entries ≡ total)) r _
        (draw_node-Claimed (intn i) i (topic_of i) 64 m p.used)
        λ taken c.
          draw_from-IsValid intn topic_of n (i + 1) total m' (extended p taken)
            (subst (λ w. IsValid (extended p w)) (sym c.result)
              (claim-IsValid p c.pre v c.real c.free))
            (omega (arith, length-append p.entries (taken.0 ∷ [])))

-- A pool that Draw returns has an address for each of the n nodes. Every address is one of the 254
-- hosts of its node's /24, no two nodes of a /24 have the same, and `used` counts the nodes of
-- each /24.
pub draw-IsValid :
    {F : Type 0} (intn : ℕ → ℕ → ℕ → ℕ) (n : ℕ) (m : Option (Model F)) (num_topics : ℕ)
    (topic_of : ℕ → ℕ) {p : Pool}
    → draw intn n m num_topics topic_of ≡ ok p
    → IsValid p × (length p.entries ≡ n)
unfolding draw
draw-IsValid intn n none num_topics topic_of e = cc
draw-IsValid intn n (some m) num_topics topic_of e = elim (Bool-cases (has_addresses m)) [
  | inr bare ↦ cc (rw bare at e)
  | inl rich ↦ subst (OnOk (λ q. IsValid q × (length q.entries ≡ n))) (rw rich at e) (
      draw_from-IsValid num_topics intn topic_of n 0 n m (record { entries = []; used = [] })
        empty-IsValid (omega arith))
]

-- Summary reports a drawn pool's nodes as they are: one for each node of the run.
pub summary-draw :
    {F : Type 0} (intn : ℕ → ℕ → ℕ → ℕ) (n : ℕ) (m : Option (Model F)) (num_topics : ℕ)
    (topic_of : ℕ → ℕ) {p : Pool}
    → draw intn n m num_topics topic_of ≡ ok p
    → (summary p).0 ≡ n
unfolding summary
summary-draw intn n m num_topics topic_of e =
    let (v, count) = draw-IsValid intn n m num_topics topic_of e in omega (arith, v.total)
