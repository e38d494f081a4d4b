-- ===== src/Assign/Members.antt =====
-- The nodes that share a first topic, and the marks that legacySet sets through their list.
use topdisc_testbed.Base.{
  ℕ, zero, suc, ◌+◌, ◌-◌, ◌≡◌, ◌≤◌, ◌<◌, ◌≢◌, Bool, true, false, ◌&&◌, List, [], ◌∷◌, arith, refl,
  ◌∙◌, ap, ◌==◌, if_ind, has, length, get_or, IsDistinct, update, count_below, sum_below,
  sum_below-change, bit, ℕ_discrete,
}
use topdisc_testbed.Assign.{members_from, mark}
use topdisc_testbed.Assign.Starts.{has-get_or}

-- how many nodes have the first topic k, and how many of those satisfy p
abbrev pub count_topic : List ℕ → ℕ → ℕ
count_topic topics k = count_below (length topics) (λ i. get_or topics i 0 == k)

abbrev pub count_topic_if : List ℕ → ℕ → (ℕ → Bool) → ℕ
count_topic_if topics k p = count_below (length topics) (λ i. (get_or topics i 0 == k) && p i)

get_or-cons : (t m n : ℕ) (ts : List ℕ) → m ≡ suc n → get_or (t ∷ ts) m 0 ≡ get_or ts n 0
get_or-cons t zero n ts e = absurd (omega arith)
get_or-cons t (suc m) n ts e = ap (λ x. get_or ts x 0) (omega arith)

get_or-head : (t m : ℕ) (ts : List ℕ) → m ≡ 0 → get_or (t ∷ ts) m 0 ≡ t
get_or-head t zero ts e = refl
get_or-head t (suc m) ts e = absurd (omega arith)

pub has-members_from :
    (i : ℕ) (ts : List ℕ) (k j : ℕ)
    → has (members_from i ts k) j ≡ true
    → (i ≤ j) × (j < i + length ts) × (get_or ts (j - i) 0 ≡ k)
unfolding has members_from
has-members_from i [] k j h = ground arith
has-members_from i (t ∷ ts) k j h = elim (ℕ_discrete i j) [
  | yes e ↦ (
    omega arith,
    omega arith,
    get_or-head t (j - i) ts (omega (arith, e)) ∙ ground (arith, has-members_from (i + 1) ts k j),
  )
  | no n ↦
      let r = has-members_from (i + 1) ts k j (ground arith) in
      (
        omega (arith, r.0),
        omega (arith, r.1),
        get_or-cons t (j - i) (j - (i + 1)) ts (omega (arith, r.0)) ∙ r.2,
      )
]

pub members_from-IsDistinct : (i : ℕ) (ts : List ℕ) (k : ℕ) → IsDistinct (members_from i ts k)
unfolding members_from
members_from-IsDistinct i [] k = tt
members_from-IsDistinct i (t ∷ ts) k =
    if_ind IsDistinct (t == k)
      (λ e. (ground (arith, has-members_from (i + 1) ts k i), members_from-IsDistinct (i + 1) ts k))
      (λ e. members_from-IsDistinct (i + 1) ts k)

-- Each position holds another member.
abbrev pub Injective : List ℕ → Type 0
Injective xs = (a b : ℕ) → a < length xs → b < length xs → get_or xs a 0 ≡ get_or xs b 0 → a ≡ b

pub distinct-Injective : (xs : List ℕ) → IsDistinct xs → Injective xs
distinct-Injective [] d a b p q e = absurd (omega arith)
distinct-Injective (x ∷ xs) d zero zero p q e = refl
distinct-Injective (x ∷ xs) d zero (suc b) p q e =
    ground (arith, has-get_or xs b (omega arith), d.0)
distinct-Injective (x ∷ xs) d (suc a) zero p q e =
    ground (arith, has-get_or xs a (omega arith), d.0)
distinct-Injective (x ∷ xs) d (suc a) (suc b) p q e =
    ap suc (distinct-Injective xs d.1 a b (omega arith) (omega arith) e)

-- Marking through distinct positions marks as many members as there are positions, and no other node.
pub mark-other :
    (marked : ℕ → Bool) (members js : List ℕ) (i : ℕ)
    → ((j : ℕ) → has js j ≡ true → get_or members j 0 ≢ i)
    → mark marked members js i ≡ marked i
unfolding mark has
mark-other marked members [] i h = refl
mark-other marked members (j ∷ js) i h = ground (
  arith,
  mark-other (update marked (get_or members j 0) true) members js i (λ x e. h x (ground arith)),
  h j (ground arith),
)

count-update :
    (n x : ℕ) (q marked : ℕ → Bool)
    → x < n
    → q x ≡ true
    → marked x ≡ false
    → count_below n (λ i. q i && update marked x true i) ≡ count_below n (λ i. q i && marked i) + 1
count-update n x q marked h e f =
    let g = λ (i : ℕ). bit (q i && update marked x true i) in
    let g' = λ (i : ℕ). bit (q i && marked i) in
    let c = sum_below-change n x g g' h (λ i ne. ground arith) in ground (arith, c)

pub mark-count :
    (n : ℕ) (marked : ℕ → Bool) (members js : List ℕ) (q : ℕ → Bool)
    → Injective members
    → IsDistinct js
    → ((j : ℕ) → has js j ≡ true → j < length members)
    → ((j : ℕ) → j < length members → (get_or members j 0 < n) × (q (get_or members j 0) ≡ true))
    → ((j : ℕ) → has js j ≡ true → marked (get_or members j 0) ≡ false)
    → count_below n (λ i. q i && mark marked members js i)
      ≡ count_below n (λ i. q i && marked i) + length js
unfolding mark has
mark-count n marked members [] q inj d b m f = omega arith
mark-count n marked members (j ∷ js) q inj d b m f =
    let x = get_or members j 0 in
    let l = b j (ground arith) in
    omega (
      arith,
      count-update n x q marked (m j l).0 (m j l).1 (f j (ground arith)),
      mark-count n (update marked x true) members js q inj d.1 (λ a e. b a (ground arith)) m
          (λ a e. ground (arith, inj a j (b a (ground arith)) l, f a (ground arith), d.0)),
    )

pub sum_below-first : (n : ℕ) (f : ℕ → ℕ) → sum_below (suc n) f ≡ f 0 + sum_below n (λ i. f (suc i))
unfolding sum_below
sum_below-first zero f = refl
sum_below-first (suc n) f = omega (arith, sum_below-first n f)

pub length-members_from :
    (i : ℕ) (ts : List ℕ) (k : ℕ)
    → length (members_from i ts k) ≡ count_below (length ts) (λ j. get_or ts j 0 == k)
unfolding members_from sum_below
length-members_from i [] k = refl
length-members_from i (t ∷ ts) k = ground (
  arith,
  length-members_from (i + 1) ts k,
  sum_below-first (length ts) (λ j. bit (get_or (t ∷ ts) j 0 == k)),
)
