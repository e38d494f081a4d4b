-- ===== src/Ghosts/Fill.antt =====
-- What assignGhosts gives a node: every bucket as many distinct ghosts of its own as it asks for,
-- or all that the pool has, and the rest counted.
use topdisc_testbed.Base.{
  ℕ, zero, suc, ◌+◌, ◌≡◌, ◌<◌, Bool, true, ◌&&◌, List, arith, refl, sym, ◌∙◌, ap, ltb, leb, ◌==◌,
  if_ind, has, has-nil, length, length-append, get_or, min, IsDistinct, sum_below, le-sum_below,
  sum_below-ext, count_below, Bool-cases, inl, inr, bit, ℕ_discrete, has-append, append-IsDistinct,
}
use topdisc_testbed.Assign.Starts.{InRange, has-get_or}
use topdisc_testbed.Assign.Members.{distinct-Injective, sum_below-first}
use topdisc_testbed.Ghosts.{
  Ghosts, bucket_count, total, ghost_bucket, candidates_from, draw_ghosts, fill_buckets,
  assign_ghosts,
}
use topdisc_testbed.Ghosts.Shuffle.{length-draw_ghosts, draw_ghosts-all, draw_ghosts-IsDistinct}
use topdisc_testbed.Ghosts.Counts.{
  none_below, count, count-nil, count-append, count-all, count-none,
}

module _ (dist : ℕ → ℕ) where
  -- The ghost at place j of the pool falls into bucket k.
  abbrev in_bucket : ℕ → ℕ → Bool
  in_bucket k j = ghost_bucket (dist j) == k

  has-candidates_from :
      (k j n x : ℕ)
      → has (candidates_from dist k j n) x ≡ (leb j x && (ltb x (j + n) && in_bucket k x))
  unfolding candidates_from has
  has-candidates_from k j zero x = ground arith
  has-candidates_from k j (suc n) x = ground (arith, has-candidates_from k (j + 1) n x)

  candidates_from-IsDistinct : (k j n : ℕ) → IsDistinct (candidates_from dist k j n)
  unfolding candidates_from
  candidates_from-IsDistinct k j zero = tt
  candidates_from-IsDistinct k j (suc n) =
      if_ind IsDistinct (in_bucket k j)
        (λ e. (
          ground (arith, has-candidates_from k (j + 1) n j),
          candidates_from-IsDistinct k (j + 1) n,
        ))
        (λ e. candidates_from-IsDistinct k (j + 1) n)

  length-candidates_from :
      (k j n : ℕ) → length (candidates_from dist k j n) ≡ count_below n (λ i. in_bucket k (j + i))
  unfolding candidates_from
  length-candidates_from k j zero = none_below (λ i. bit (in_bucket k (j + i)))
  length-candidates_from k j (suc n) =
      let f = λ (i : ℕ). bit (in_bucket k (j + i)) in
      let move : (x y : ℕ) → x ≡ y → bit (in_bucket k x) ≡ bit (in_bucket k y) =
        λ x y e. ap (λ z. bit (in_bucket k z)) e in
      ground (
        arith,
        length-candidates_from k (j + 1) n,
        sum_below-first n f,
        sum_below-ext n (λ i. bit (in_bucket k (j + 1 + i))) (λ i. f (suc i))
            (λ i h. move (j + 1 + i) (j + suc i) (omega arith)),
        move (j + 0) j (omega arith),
      )

  -- how many ghosts of the pool fall into bucket k
  abbrev pub supply : ℕ → ℕ → ℕ
  supply size k = count_below size (in_bucket k)

  -- The ghosts of the buckets below n, of which the pool has `size`.
  pub record Filled (size : ℕ) (layout : ℕ → ℕ) (n : ℕ) (g : Ghosts) : Type 0 where
    pub distinct : IsDistinct g.ghosts
    pub placed : (j : ℕ) → has g.ghosts j ≡ true → (j < size) × (ghost_bucket (dist j) < n)
    pub per_bucket : (k : ℕ) → k < n → count (in_bucket k) g.ghosts ≡ min (layout k) (supply size k)
    pub all_counted : length g.ghosts + g.unplaced ≡ sum_below n layout

  module _ (size k want : ℕ) (intn : ℕ → ℕ → ℕ) (r : InRange intn) where
    abbrev cands : List ℕ
    cands = candidates_from dist k 0 size

    abbrev drawn : List ℕ
    drawn = draw_ghosts intn (length cands) (λ i. get_or cands i 0) 0 (min want (length cands))

    has-drawn : (j : ℕ) → has drawn j ≡ true → (j < size) × (ghost_bucket (dist j) ≡ k)
    has-drawn j e =
        let c =
          draw_ghosts-all intn (length cands) (λ i. get_or cands i 0) 0 (min want (length cands))
            (has cands) r (omega arith) (λ i a b. has-get_or cands i b) j e in
        let h = sym (has-candidates_from k 0 size j) ∙ c in ground (arith, h)

    drawn-IsDistinct : IsDistinct drawn
    drawn-IsDistinct =
        draw_ghosts-IsDistinct intn (length cands) (λ i. get_or cands i 0) 0
          (min want (length cands)) r (omega arith)
          (λ a b p q l m e.
            distinct-Injective cands (candidates_from-IsDistinct k 0 size) a b l m e)

    length-drawn : length drawn ≡ min want (supply size k)
    length-drawn = omega (
      arith,
      length-draw_ghosts intn (length cands) (λ i. get_or cands i 0) 0 (min want (length cands)),
      length-candidates_from k 0 size,
      sum_below-ext size (λ i. bit (in_bucket k (0 + i))) (λ i. bit (in_bucket k i))
          (λ i h. ap (λ x. bit (in_bucket k x)) (omega arith)),
    )

  fill_buckets-Filled :
      (intn : ℕ → ℕ → ℕ → ℕ) (size : ℕ) (layout : ℕ → ℕ) (n : ℕ)
      → ((k : ℕ) → InRange (intn k))
      → Filled size layout n (fill_buckets intn dist size layout n)
  unfolding fill_buckets sum_below
  fill_buckets-Filled intn size layout zero r = record {
    distinct = tt;
    placed = λ j e. absurd (ground (arith, has-nil j));
    per_bucket = λ k h. absurd (omega arith);
    all_counted = refl;
  }
  fill_buckets-Filled intn size layout (suc n) r =
      let g = fill_buckets intn dist size layout n in
      let f = fill_buckets-Filled intn size layout n r in
      let new = drawn size n (layout n) (intn n) (r n) in
      let of_n = has-drawn size n (layout n) (intn n) (r n) in
      record {
        distinct =
            append-IsDistinct g.ghosts new f.distinct
              (drawn-IsDistinct size n (layout n) (intn n) (r n))
              (λ j e. elim (Bool-cases (has new j)) [
                | inl d ↦ absurd (omega (arith, (of_n j d).1, (f.placed j e).1))
                | inr d ↦ d
              ]);
        placed = λ j e. elim (Bool-cases (has g.ghosts j)) [
          | inl d ↦ ((f.placed j d).0, omega (arith, (f.placed j d).1))
          | inr d ↦
              let m = of_n j (ground (arith, has-append g.ghosts new j)) in
              (m.0, omega (arith, m.1))
        ];
        per_bucket = λ k h. elim (ℕ_discrete k n) [
          | yes q ↦ omega (
            arith,
            count-append (in_bucket k) g.ghosts new,
            count-none (in_bucket k) g.ghosts (λ j d. ground (arith, (f.placed j d).1)),
            count-all (in_bucket k) new (λ j d. ground (arith, (of_n j d).1)),
            length-drawn size n (layout n) (intn n) (r n),
            ap layout q,
            ap (supply size) q,
          )
          | no q ↦ omega (
            arith,
            count-append (in_bucket k) g.ghosts new,
            f.per_bucket k (omega arith),
            count-none (in_bucket k) new (λ j d. ground (arith, (of_n j d).1)),
          )
        ];
        all_counted = omega (
          arith,
          f.all_counted,
          length-append g.ghosts new,
          length-draw_ghosts (intn n) (length (cands size n (layout n) (intn n) (r n)))
              (λ i. get_or (cands size n (layout n) (intn n) (r n)) i 0) 0
              (min (layout n) (length (cands size n (layout n) (intn n) (r n)))),
        );
      }

-- Whatever the random choices, assignGhosts gives a node distinct ghosts of the pool. Every bucket
-- is given as many as the layout asks for, or all of the pool that fall into it; those given and
-- those counted as unplaced add up to the layout.
pub assign_ghosts-Filled :
    (dist : ℕ → ℕ) (intn : ℕ → ℕ → ℕ → ℕ) (size : ℕ) (layout : ℕ → ℕ)
    → ((k : ℕ) → InRange (intn k))
    → Filled dist size layout bucket_count (assign_ghosts intn dist size layout)
unfolding assign_ghosts total
assign_ghosts-Filled dist intn size layout r =
    if_ind (Filled dist size layout bucket_count) (total layout == 0)
      (λ e. record {
        distinct = tt;
        placed = λ j h. absurd (ground (arith, has-nil j));
        per_bucket = λ k h.
            ground (arith, le-sum_below bucket_count k layout h, count-nil (in_bucket dist k));
        all_counted = ground arith;
      })
      (λ e. fill_buckets-Filled dist intn size layout bucket_count r)
