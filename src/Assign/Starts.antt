-- ===== src/Assign/Starts.antt =====
-- The start offsets are in the order of the nodes, and the phases of a node in the order of time.
use native.Mathlib.Nat.{mul-le-mul_right}
use topdisc_testbed.Base.{
  ℕ, zero, suc, ◌+◌, ◌*◌, ◌≡◌, ◌≤◌, ◌<◌, ◌↔◌, true, List, [], ◌∷◌, arith, refl, sym, ◌∙◌, ltb, ◌==◌,
  ◌||◌, if_ind, has, length, get_or, set, replicate, IsAscending, sort-IsAscending, length-sort,
  has-sort, length-replicate, length-set,
}
use topdisc_testbed.Assign.{
  milliseconds, uniform, sorted_uniform, start_offsets, PhaseConfig, reg_off, reg_span, phases,
}

pub has-get_or : (xs : List ℕ) (i : ℕ) → i < length xs → has xs (get_or xs i 0) ≡ true
unfolding has
has-get_or [] i h = absurd (omega arith)
has-get_or (x ∷ xs) zero h = ground arith
has-get_or (x ∷ xs) (suc i) h = ground (arith, has-get_or xs i)

pub get_or_mono :
    (xs : List ℕ) (i j : ℕ) → IsAscending xs → i ≤ j → j < length xs → get_or xs i 0 ≤ get_or xs j 0
get_or_mono [] i j s a b = absurd (omega arith)
get_or_mono (x ∷ xs) zero zero s a b = omega arith
get_or_mono (x ∷ xs) zero (suc j) s a b = s.0 (get_or xs j 0) (has-get_or xs j (omega arith))
get_or_mono (x ∷ xs) (suc i) zero s a b = absurd (omega arith)
get_or_mono (x ∷ xs) (suc i) (suc j) s a b = get_or_mono xs i j s.1 (omega arith) (omega arith)

length-uniform : (f : ℕ → ℕ → ℕ) (w k n : ℕ) → length (uniform f w k n) ≡ n
unfolding uniform
length-uniform f w k zero = refl
length-uniform f w k (suc n) = omega (arith, length-uniform f w (k + 1) n)

-- `Int63n` returns a number below its argument.
abbrev pub InRange : (ℕ → ℕ → ℕ) → Type 0
InRange f = (k b : ℕ) → 0 < b → f k b < b

uniform-le : (f : ℕ → ℕ → ℕ) (w k n j : ℕ) → InRange f → has (uniform f w k n) j ≡ true → j ≤ w
unfolding uniform has
uniform-le f w k zero j r h = ground arith
uniform-le f w k (suc n) j r h =
    ground (arith, uniform-le f w (k + 1) n j r, r k (w + 1) (omega arith))

replicate-IsAscending : (n : ℕ) → IsAscending (replicate n 0)
replicate-IsAscending zero = tt
replicate-IsAscending (suc n) = (λ j h. omega arith, replicate-IsAscending n)

has-replicate : (n j : ℕ) → has (replicate n 0) j ≡ true → j ≡ 0
unfolding has
has-replicate zero j h = ground arith
has-replicate (suc n) j h = ground (arith, has-replicate n j)

record Spread (n w : ℕ) (o : List ℕ) : Type 0 where
  pub size : length o ≡ n
  pub ordered : IsAscending o
  pub bounded : (j : ℕ) → has o j ≡ true → j ≤ w

sorted_uniform-Spread :
    (f : ℕ → ℕ → ℕ) (n window : ℕ)
    → InRange f
    → Spread n (milliseconds window) (sorted_uniform f n window)
unfolding sorted_uniform
sorted_uniform-Spread f n window r =
    if_ind (Spread n (milliseconds window)) ((window == 0) || (n == 0))
      (λ _. record {
        size = length-replicate n 0;
        ordered = replicate-IsAscending n;
        bounded = λ j h. omega (arith, has-replicate n j h);
      })
      (λ _.
        let draws = uniform f (milliseconds window) 0 n in
        record {
          size = omega (arith, length-sort draws, length-uniform f (milliseconds window) 0 n);
          ordered = sort-IsAscending draws;
          bounded = λ j h. uniform-le f (milliseconds window) 0 n j r (sym (has-sort draws j) ∙ h);
        })

set_zero-IsAscending : (o : List ℕ) → IsAscending o → IsAscending (set o 0 0)
set_zero-IsAscending [] s = tt
set_zero-IsAscending (x ∷ xs) s = (λ j h. omega arith, s.1)

has-set_zero : (o : List ℕ) (j : ℕ) → has (set o 0 0) j ≡ true → ((0 == j) || has o j) ≡ true
unfolding has
has-set_zero [] j h = ground arith
has-set_zero (x ∷ xs) j h = ground arith

get_or-set_zero : (o : List ℕ) → get_or (set o 0 0) 0 0 ≡ 0
get_or-set_zero [] = refl
get_or-set_zero (x ∷ xs) = refl

start_offsets-Spread :
    (f : ℕ → ℕ → ℕ) (n window : ℕ)
    → InRange f
    → Spread n (milliseconds window) (start_offsets f n window)
unfolding start_offsets
start_offsets-Spread f n window r =
    let o = sorted_uniform f n window in
    let s = sorted_uniform-Spread f n window r in
    if_ind (Spread n (milliseconds window)) (ltb 0 n)
      (λ _. record {
        size = length-set o 0 0 ∙ s.size;
        ordered = set_zero-IsAscending o s.ordered;
        bounded = λ j h. ground (arith, has-set_zero o j h, s.bounded j);
      })
      (λ _. s)

first_zero : (f : ℕ → ℕ → ℕ) (n window : ℕ) → 0 < n → get_or (start_offsets f n window) 0 0 ≡ 0
unfolding start_offsets
first_zero f n window h =
    if_ind (λ (o : List ℕ). get_or o 0 0 ≡ 0) (ltb 0 n)
      (λ _. get_or-set_zero (sorted_uniform f n window)) (λ e. absurd (ground arith))

-- StartOffsets gives each of the n nodes an offset of at most the window. They ascend with the
-- index of the node, and the bootnode's is 0.
pub start_offsets-ordered :
    (int63n : ℕ → ℕ → ℕ) (n window : ℕ)
    → InRange int63n
    → (length (start_offsets int63n n window) ≡ n)
      × ((i j : ℕ)
          → i ≤ j
          → j < n
          → get_or (start_offsets int63n n window) i 0 ≤ get_or (start_offsets int63n n window) j 0)
      × (0 < n → get_or (start_offsets int63n n window) 0 0 ≡ 0)
      × ((i : ℕ) → i < n → get_or (start_offsets int63n n window) i 0 ≤ milliseconds window)
start_offsets-ordered f n window r =
    let s = start_offsets-Spread f n window r in
    (
      s.size,
      λ i j a b. get_or_mono (start_offsets f n window) i j s.ordered a (omega (arith, s.size)),
      first_zero f n window,
      λ i h.
          s.bounded (get_or (start_offsets f n window) i 0)
            (has-get_or (start_offsets f n window) i (omega (arith, s.size))),
    )

reg_off-bounds :
    (ph : PhaseConfig) (o : List ℕ) (n i : ℕ)
    → Spread n (milliseconds ph.start_window) o
    → i < n
    → (get_or o i 0 ≤ reg_off ph o i) × (reg_off ph o i ≤ reg_span ph n)
unfolding reg_off reg_span milliseconds
reg_off-bounds ph o n i s h =
    let b = s.bounded (get_or o i 0) (has-get_or o i (omega (arith, s.size))) in
    let h_le : i ≤ n = omega arith in
    ground (arith, b, mul-le-mul_right (milliseconds ph.register_stagger) h_le)

phases_in_order :
    (int63n : ℕ → ℕ → ℕ) (ph : PhaseConfig) (t0 n i : ℕ)
    → InRange int63n
    → i < n
    → let p = phases ph t0 n (start_offsets int63n n ph.start_window) i in
      (t0 ≤ p.start_at)
      × (p.start_at + milliseconds ph.bootstrap_wait ≤ p.register_at)
      × (p.register_base ≤ p.register_at)
      × (p.register_at + milliseconds ph.register_wait ≤ p.search_at)
      × ((p.search_at ≤ p.stop_at)
          ↔ (i * milliseconds ph.search_stagger ≤ milliseconds ph.search_timeout))
unfolding phases
phases_in_order f ph t0 n i r h =
    let o = start_offsets f n ph.start_window in
    let b = reg_off-bounds ph o n i (start_offsets-Spread f n ph.start_window r) h in
    ground (arith, b.0, b.1)

-- With these offsets every node starts at or after the start of the run, registers at least
-- bootstrap_wait after its own start, searches at least register_wait after it registers, and stops
-- at the same time as every other node; only the stagger of the searches can carry a search past
-- that.
pub phases_ordered :
    (int63n : ℕ → ℕ → ℕ) (ph : PhaseConfig) (t0 n i : ℕ)
    → InRange int63n
    → i < n
    → let p = phases ph t0 n (start_offsets int63n n ph.start_window) i in
      (t0 ≤ p.start_at)
      × (p.start_at + milliseconds ph.bootstrap_wait ≤ p.register_at)
      × (p.register_base ≤ p.register_at)
      × (p.register_at + milliseconds ph.register_wait ≤ p.search_at)
      × ((p.search_at ≤ p.stop_at)
          ↔ (i * milliseconds ph.search_stagger ≤ milliseconds ph.search_timeout))
      × ((j : ℕ)
          → j < n
          → (phases ph t0 n (start_offsets int63n n ph.start_window) j).stop_at ≡ p.stop_at)
unfolding phases
phases_ordered f ph t0 n i r h =
    let (starts, registers, base, searches, stops) = phases_in_order f ph t0 n i r h in
    (starts, registers, base, searches, stops, λ j _. refl)
