-- ===== src/Trace/Series.antt =====
-- The samples of the merged trace stay cumulative over the restarts.
use topdisc_testbed.Base.{
  ℕ, ◌≡◌, ◌+◌, ◌≤◌, Option, none, some, List, [], ◌∷◌, ◌++◌, arith, refl, sym, ap, ◌∙◌,
  if◌then◌else◌, true, find_or, or_else, is_some, All, subst, ℕ_discrete, ◌==◌,
}
use topdisc_testbed.Trace.{
  Names, Wire, no_names, amount, plus_amount, plus_counters, TraceSample, Trace, Merging,
  add_counters, carry, merge_one, merge_all, nothing_yet, merge_traces,
}
use topdisc_testbed.Trace.Totals.{
  AllDistinct, counted_by, add_counters-amount, amount-cons, merge_conn-Kept,
}

merge_one-wire : (t : Trace) (m : Merging) → (merge_one t m).wire ≡ add_counters m.wire t.wire
unfolding merge_one
merge_one-wire t m = (merge_conn-Kept t.conn _).0

merge_one-samples :
    (t : Trace) (m : Merging) → (merge_one t m).samples ≡ m.samples ++ carry m.wire t.samples
unfolding merge_one
merge_one-samples t m = (merge_conn-Kept t.conn _).3

module _ (typ name : ℕ) where
  -- Whether a sample has the counter.
  abbrev pub Reports : TraceSample → Type 0
  Reports smp = is_some (find_or no_names typ smp.wire name) ≡ true

  abbrev pub readings : List TraceSample → List ℕ
  readings [] = []
  readings (smp ∷ samples) = amount smp.wire typ name ∷ readings samples

  -- From `lo` to `hi` without a fall.
  abbrev pub Climbs : ℕ → ℕ → List ℕ → Type 0
  Climbs lo hi [] = lo ≤ hi
  Climbs lo hi (x ∷ xs) = (lo ≤ x) × Climbs x hi xs

  Climbs-eq :
      (lo lo' hi hi' : ℕ) (xs : List ℕ) → lo' ≡ lo → hi ≡ hi' → Climbs lo hi xs → Climbs lo' hi' xs
  Climbs-eq lo lo' hi hi' [] p q c = omega arith
  Climbs-eq lo lo' hi hi' (x ∷ xs) p q (h, c) = (omega arith, Climbs-eq x x hi hi' xs refl q c)

  amount-nil : amount [] typ name ≡ 0
  unfolding find_or
  amount-nil = refl

  Climbs-from : (lo lo' hi : ℕ) (xs : List ℕ) → lo' ≤ lo → Climbs lo hi xs → Climbs lo' hi xs
  Climbs-from lo lo' hi [] h c = omega arith
  Climbs-from lo lo' hi (x ∷ xs) h (p, c) = (omega arith, c)

  Climbs-append :
      (lo mid hi : ℕ) (xs ys : List ℕ)
      → Climbs lo mid xs
      → Climbs mid hi ys
      → Climbs lo hi (xs ++ ys)
  Climbs-append lo mid hi [] ys c e = Climbs-from mid lo hi ys c e
  Climbs-append lo mid hi (x ∷ xs) ys (p, c) e = (p, Climbs-append x mid hi xs ys c e)

  readings-append : (xs ys : List TraceSample) → readings (xs ++ ys) ≡ readings xs ++ readings ys
  readings-append [] ys = refl
  readings-append (x ∷ xs) ys = ap (λ r. amount x.wire typ name ∷ r) (readings-append xs ys)

  plus_amount-some :
      (n : ℕ) (o : Option ℕ) → is_some o ≡ true → or_else (plus_amount n o) 0 ≡ n + or_else o 0
  plus_amount-some n none h = ground arith
  plus_amount-some n (some m) h = omega arith

  reported-cons :
      (k : ℕ) (names : Names) (wire : Wire)
      → is_some (find_or no_names typ ((k, names) ∷ wire) name)
        ≡ (if k == typ then is_some (names name) else is_some (find_or no_names typ wire name))
  unfolding find_or
  reported-cons k names wire = ground arith

  plus_counters-amount :
      (c wire : Wire)
      → is_some (find_or no_names typ wire name) ≡ true
      → amount (plus_counters c wire) typ name ≡ amount c typ name + amount wire typ name
  unfolding plus_counters
  plus_counters-amount c [] h = unfold find_or in ground arith
  plus_counters-amount c ((k, names) ∷ wire) h =
      amount-cons k (λ name. plus_amount (amount c k name) (names name)) (plus_counters c wire) typ
        name
      ∙ elim (ℕ_discrete k typ) [
        | yes p ↦ ground (
          arith,
          reported-cons k names wire,
          amount-cons k names wire typ name,
          plus_amount-some (amount c k name) (names name),
          ap (λ t. amount c t name) p,
        )
        | no p ↦ ground (
          arith,
          reported-cons k names wire,
          amount-cons k names wire typ name,
          plus_counters-amount c wire,
        )
      ]

  carry-Climbs :
      (c : Wire) (samples : List TraceSample) (lo hi : ℕ)
      → All Reports samples
      → Climbs lo hi (readings samples)
      → Climbs (amount c typ name + lo) (amount c typ name + hi) (readings (carry c samples))
  unfolding carry
  carry-Climbs [] samples lo hi r e =
      Climbs-eq lo _ hi _ (readings samples) (omega (arith, amount-nil)) (omega (arith, amount-nil))
        e
  carry-Climbs (c ∷ cs) [] lo hi r e = omega arith
  carry-Climbs (c ∷ cs) (smp ∷ samples) lo hi (r, rs) (p, e) = (
    omega (arith, plus_counters-amount (c ∷ cs) smp.wire r),
    subst (λ n. Climbs n (amount (c ∷ cs) typ name + hi) (readings (carry (c ∷ cs) samples)))
        (sym (plus_counters-amount (c ∷ cs) smp.wire r))
        (carry-Climbs (c ∷ cs) samples (amount smp.wire typ name) hi rs e),
  )

  -- Every trace's samples have the counter, which climbs from 0 to the trace's own at its end.
  abbrev pub AllClimb : List Trace → Type 0
  AllClimb [] = Unit
  AllClimb (t ∷ ts) =
      All Reports t.samples × Climbs 0 (amount t.wire typ name) (readings t.samples) × AllClimb ts

  merge_all-Climbs :
      (ts : List Trace) (m : Merging)
      → AllDistinct ts
      → AllClimb ts
      → Climbs 0 (amount m.wire typ name) (readings m.samples)
      → Climbs 0
          (amount m.wire typ name + counted_by ts typ name)
          (readings (merge_all ts m).samples)
  unfolding merge_all merge_one
  merge_all-Climbs [] m d a c = Climbs-eq 0 0 _ _ (readings m.samples) refl (omega arith) c
  merge_all-Climbs (t ∷ ts) m (d, ds) (r, e, a) c =
      let now : ℕ = amount m.wire typ name in
      let both : readings (merge_one t m).samples
          ≡ readings m.samples ++ readings (carry m.wire t.samples) =
        ap readings (merge_one-samples t m) ∙ readings-append m.samples (carry m.wire t.samples) in
      let total : amount (merge_one t m).wire typ name ≡ now + amount t.wire typ name =
        ap (λ w. amount w typ name) (merge_one-wire t m)
        ∙ add_counters-amount m.wire t.wire typ name d in
      Climbs-eq 0 0 _ _ (readings (merge_all ts (merge_one t m)).samples) refl
        (omega (arith, total))
        (merge_all-Climbs ts (merge_one t m) ds a (
          subst (Climbs 0 (amount (merge_one t m).wire typ name)) (sym both) (
            Climbs-append 0 now _ (readings m.samples) (readings (carry m.wire t.samples)) c (
              Climbs-eq (now + 0) now _ _ (readings (carry m.wire t.samples)) (omega arith)
                (omega (arith, total))
                (carry-Climbs m.wire t.samples 0 (amount t.wire typ name) r e)))))

  -- If no trace has a message type twice, every sample has the counter, and in each session it climbs
  -- from 0 to the session's own total, then in the merged samples it climbs from 0 to the sum of the
  -- sessions' totals: a restart does not set it back.
  pub merge_traces-Climbs :
      (earlier : List Trace) (last : Trace)
      → AllDistinct (earlier ++ last ∷ [])
      → AllClimb (earlier ++ last ∷ [])
      → Climbs 0
          (counted_by (earlier ++ last ∷ []) typ name)
          (readings (merge_traces earlier last).samples)
  unfolding merge_traces
  merge_traces-Climbs earlier last d a =
      Climbs-eq 0 0 _ _ (readings (merge_traces earlier last).samples) refl
        (omega (arith, amount-nil))
        (merge_all-Climbs (earlier ++ last ∷ []) nothing_yet d a (omega (arith, amount-nil)))
