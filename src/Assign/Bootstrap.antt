-- ===== src/Assign/Bootstrap.antt =====
-- bootstrapSample draws from exactly the nodes that started early enough; the draw of a topic.
use topdisc_testbed.Base.{
  ℕ, zero, suc, ◌+◌, ◌-◌, ◌≡◌, ◌≤◌, ◌<◌, Bool, true, false, ◌||◌, List, [], ◌∷◌, map, arith, refl,
  sym, ◌∙◌, ltb, leb, ◌==◌, if_ind, has, has-nil, length, get_or, take, min, IsDistinct, IsFirst,
  search_first-IsFirst, count_below, sum_below, sum_below-ext, bit, ◌&&◌, length-map, length-take,
}
use topdisc_testbed.Assign.{settled, bootstrap_picks, bootstrap_settle}

-- `perm m` is a permutation of the numbers below m.
abbrev pub IsPermutation : (ℕ → List ℕ) → Type 0
IsPermutation perm =
    (m : ℕ)
    → (length (perm m) ≡ m) × IsDistinct (perm m) × ((j : ℕ) → has (perm m) j ≡ true → j < m)

pub has-take : (n : ℕ) (xs : List ℕ) (j : ℕ) → has (take n xs) j ≡ true → has xs j ≡ true
unfolding has
has-take zero xs j h = ground arith
has-take (suc n) [] j h = h
has-take (suc n) (x ∷ xs) j h = ground (arith, has-take n xs j)

pub take-IsDistinct : (n : ℕ) (xs : List ℕ) → IsDistinct xs → IsDistinct (take n xs)
take-IsDistinct zero xs d = tt
take-IsDistinct (suc n) [] d = tt
take-IsDistinct (suc n) (x ∷ xs) d =
    (ground (arith, has-take n xs x, d.0), take-IsDistinct n xs d.1)

has-map-suc : (xs : List ℕ) (j : ℕ) → has (map (λ i. i + 1) xs) (suc j) ≡ has xs j
unfolding has
has-map-suc [] j = refl
has-map-suc (x ∷ xs) j = ground (arith, has-map-suc xs j)

has-map_zero : (xs : List ℕ) → has (map (λ i. i + 1) xs) 0 ≡ false
unfolding has
has-map_zero [] = refl
has-map_zero (x ∷ xs) = ground (arith, has-map_zero xs)

map_suc-IsDistinct : (xs : List ℕ) → IsDistinct xs → IsDistinct (map (λ i. i + 1) xs)
map_suc-IsDistinct [] d = tt
map_suc-IsDistinct (x ∷ xs) d = (ground (arith, has-map-suc xs x, d.0), map_suc-IsDistinct xs d.1)

-- The offsets ascend with the index.
abbrev pub Ascending : List ℕ → ℕ → Type 0
Ascending o n = (i j : ℕ) → i ≤ j → j < n → get_or o i 0 ≤ get_or o j 0

settled-IsFirst :
    (o : List ℕ) (n i : ℕ)
    → Ascending o n
    → i < n
    → IsFirst (λ j. ltb (get_or o i 0) (get_or o j 0 + bootstrap_settle)) 0 i (settled o i)
unfolding settled
settled-IsFirst o n i a h =
    search_first-IsFirst i (λ j. ltb (get_or o i 0) (get_or o j 0 + bootstrap_settle))
      (λ j k p q t. ground (arith, a j k p (omega arith)))

-- Where the offsets ascend, `settled` counts the nodes that are up for 30 s when node i starts.
pub settled_iff :
    (o : List ℕ) (n i j : ℕ)
    → Ascending o n
    → i < n
    → j < i
    → ltb j (settled o i) ≡ leb (get_or o j 0 + bootstrap_settle) (get_or o i 0)
settled_iff o n i j a h l =
    let s = settled-IsFirst o n i a h in ground (arith, s.before j, s.from, a (settled o i) j)

count-between : (n s : ℕ) → count_below n (λ j. ltb 0 j && ltb j s) ≡ min n s - 1
unfolding sum_below
count-between zero s = omega arith
count-between (suc n) s = ground (arith, count-between n s)

-- Node j may serve node i as a bootstrap record.
unfoldable pub is_candidate : List ℕ → ℕ → ℕ → Bool
is_candidate o i j = ltb 0 j && leb (get_or o j 0 + bootstrap_settle) (get_or o i 0)

candidates-count :
    (o : List ℕ) (n i : ℕ)
    → Ascending o n
    → i < n
    → count_below i (is_candidate o i) ≡ settled o i - 1
unfolding is_candidate
candidates-count o n i a h = omega (
  arith,
  (settled-IsFirst o n i a h).below,
  count-between i (settled o i),
  sum_below-ext i (λ j. bit (is_candidate o i j)) (λ j. bit (ltb 0 j && ltb j (settled o i)))
      (λ j l. rw (settled_iff o n i j a h l)),
)

pick-candidate :
    (o xs : List ℕ) (n i j : ℕ)
    → Ascending o n
    → i < n
    → ((m : ℕ) → has xs m ≡ true → m + 1 < settled o i)
    → has (map (λ j. j + 1) xs) j ≡ true
    → (j < i) × (is_candidate o i j ≡ true)
unfolding is_candidate
pick-candidate o xs n i zero a h b e = ground (arith, has-map_zero xs)
pick-candidate o xs n i (suc m) a h b e =
    let below = b m (sym (has-map-suc xs m) ∙ e) in
    let s = (settled-IsFirst o n i a h).below in
    (omega arith, ground (arith, settled_iff o n i (suc m) a h (omega arith)))

pub record Picked (o : List ℕ) (i k : ℕ) (picks : List ℕ) : Type 0 where
  pub distinct : IsDistinct picks
  pub candidates : (j : ℕ) → has picks j ≡ true → (j < i) × (is_candidate o i j ≡ true)
  pub size : length picks ≡ min k (count_below i (is_candidate o i))

-- Where the start offsets ascend, bootstrapSample gives node i distinct nodes before it, none of
-- them the bootnode, that are up for 30 s when it starts: k of them, or all that there are.
pub bootstrap_picks-Picked :
    (perm : ℕ → List ℕ) (o : List ℕ) (n i k : ℕ)
    → IsPermutation perm
    → Ascending o n
    → i < n
    → Picked o i k (bootstrap_picks perm o i k)
unfolding bootstrap_picks
bootstrap_picks-Picked perm o n i k p a h =
    let cut = settled o i in
    if_ind (Picked o i k) ((k == 0) || leb cut 1)
      (λ e. record {
        distinct = tt;
        candidates = λ j m. absurd (ground (arith, has-nil j));
        size = ground (arith, candidates-count o n i a h);
      })
      (λ e. record {
        distinct =
            map_suc-IsDistinct (take (min k (cut - 1)) (perm (cut - 1)))
              (take-IsDistinct (min k (cut - 1)) (perm (cut - 1)) (p (cut - 1)).1);
        candidates = λ j m.
            pick-candidate o (take (min k (cut - 1)) (perm (cut - 1))) n i j a h
              (λ x e.
                omega (arith, (p (cut - 1)).2 x (has-take (min k (cut - 1)) (perm (cut - 1)) x e)))
              m;
        size = omega (
          arith,
          candidates-count o n i a h,
          length-map (take (min k (cut - 1)) (perm (cut - 1))) (λ j. j + 1),
          length-take (min k (cut - 1)) (perm (cut - 1)),
          (p (cut - 1)).0,
        );
      })
