-- ===== src/Placement/Stock.antt =====
-- How many slots are free in `place`, in all and in each region.
use topdisc_testbed.Base.{
  ℕ, zero, suc, ◌≡◌, ◌+◌, false, ◌||◌, List, [], ◌∷◌, ◌++◌, arith, refl, sym, ◌∙◌, ap,
  if◌then◌else◌, ◌==◌, has, find_or, adjust, keys, sum_values, length, length-append, IsDistinct,
  sum_values-adjust, adjust-IsDistinct, has-keys-adjust, Bool-cases, inl, inr, ℕ_discrete,
  has-append_one,
}
use topdisc_testbed.Placement.Regions.{
  Host, Slot, slots, add_slots, free_slots, region_order, home_first,
}
use topdisc_testbed.Placement.Apart.{slots-adjust}

abbrev pub Free : Type 0
Free = List (ℕ × List Slot)

-- The nodes that all machines run, and those of a region.
abbrev pub capacity : List Host → ℕ
capacity [] = 0
capacity (host ∷ hosts) = host.nodes + capacity hosts

abbrev pub capacity_in : ℕ → List Host → ℕ
capacity_in r [] = 0
capacity_in r (host ∷ hosts) = (if host.region == r then host.nodes else 0) + capacity_in r hosts

abbrev pub free_count : Free → ℕ
free_count free = sum_values (λ s. length s) free

slots-absent : (free : Free) (r : ℕ) → has (keys free) r ≡ false → slots free r ≡ []
unfolding has keys find_or
slots-absent [] r h = refl
slots-absent ((j, s) ∷ free) r h = ground (arith, slots-absent free r)

-- A region that no entry of the order names has no free slot.
abbrev pub Covers : List ℕ → Free → Type 0
Covers order free = (r : ℕ) → has order r ≡ false → slots free r ≡ []

pub none_free :
    (free : Free) → IsDistinct (keys free) → ((r : ℕ) → slots free r ≡ []) → free_count free ≡ 0
unfolding sum_values keys find_or
none_free [] d h = refl
none_free ((j, s) ∷ free) d h =
    let here : s ≡ [] = ground (arith, h j) in
    let rest : (r : ℕ) → slots free r ≡ [] = λ r. elim (ℕ_discrete j r) [
      | yes p ↦ slots-absent free r (ap (has (keys free)) (sym p) ∙ d.0)
      | no p ↦ ground (arith, h r)
    ] in
    omega (arith, ap (λ s. length s) here, none_free free d.1 rest)

-- A slot that is taken is one less.
pub free_count-take :
    (r : ℕ) (x : Slot) (rest : List Slot) (free : Free)
    → slots free r ≡ x ∷ rest
    → free_count (adjust [] (λ _. rest) r free) + 1 ≡ free_count free
unfolding sum_values adjust find_or
free_count-take r x rest [] e = absurd (ground arith)
free_count-take r x rest ((j, s) ∷ free) e = elim (ℕ_discrete j r) [
  | yes p ↦ let s' : s ≡ x ∷ rest = ground arith in ground (arith, ap (λ s. length s) s')
  | no p ↦ ground (arith, free_count-take r x rest free)
]

free_count-add_slots :
    (left from r h : ℕ) (free : Free)
    → free_count (add_slots left from r h free) ≡ free_count free + left
unfolding add_slots
free_count-add_slots zero from r h free = omega arith
free_count-add_slots (suc left) from r h free = omega (
  arith,
  free_count-add_slots left (from + 1) r h (adjust [] (λ s. s ++ ((h, from) ∷ [])) r free),
  sum_values-adjust (λ s. length s) [] (λ s. s ++ ((h, from) ∷ [])) 1 r free refl
      (λ s. length-append s ((h, from) ∷ [])),
)

length-slots-add_slots :
    (left from r h j : ℕ) (free : Free)
    → length (slots (add_slots left from r h free) j)
      ≡ length (slots free j) + (if r == j then left else 0)
unfolding add_slots
length-slots-add_slots zero from r h j free = ground arith
length-slots-add_slots (suc left) from r h j free = elim (ℕ_discrete r j) [
  | yes p ↦ ground (
    arith,
    length-slots-add_slots left (from + 1) r h j (adjust [] (λ s. s ++ ((h, from) ∷ [])) r free),
    ap (λ s. length s) (slots-adjust (λ s. s ++ ((h, from) ∷ [])) r j free),
    length-append (slots free r) ((h, from) ∷ []),
    ap (λ x. length (slots free x)) p,
  )
  | no p ↦ ground (
    arith,
    length-slots-add_slots left (from + 1) r h j (adjust [] (λ s. s ++ ((h, from) ∷ [])) r free),
    ap (λ s. length s) (slots-adjust (λ s. s ++ ((h, from) ∷ [])) r j free),
  )
]

add_slots-IsDistinct :
    (left from r h : ℕ) (free : Free)
    → IsDistinct (keys free)
    → IsDistinct (keys (add_slots left from r h free))
unfolding add_slots
add_slots-IsDistinct zero from r h free d = d
add_slots-IsDistinct (suc left) from r h free d =
    add_slots-IsDistinct left (from + 1) r h (adjust [] (λ s. s ++ ((h, from) ∷ [])) r free)
      (adjust-IsDistinct [] (λ s. s ++ ((h, from) ∷ [])) r free d)

has-keys-add_slots :
    (left from r h j : ℕ) (free : Free)
    → (r == j) ≡ false
    → has (keys (add_slots left from r h free)) j ≡ has (keys free) j
unfolding add_slots
has-keys-add_slots zero from r h j free n = refl
has-keys-add_slots (suc left) from r h j free n =
    has-keys-add_slots left (from + 1) r h j (adjust [] (λ s. s ++ ((h, from) ∷ [])) r free) n
    ∙ has-keys-adjust [] (λ s. s ++ ((h, from) ∷ [])) r j free
    ∙ ground arith

pub free_count-free_slots :
    (h : ℕ) (hosts : List Host) (free : Free)
    → free_count (free_slots h hosts free) ≡ free_count free + capacity hosts
unfolding free_slots
free_count-free_slots h [] free = omega arith
free_count-free_slots h (host ∷ hosts) free = omega (
  arith,
  free_count-free_slots (h + 1) hosts (add_slots host.nodes 0 host.region h free),
  free_count-add_slots host.nodes 0 host.region h free,
)

pub length-slots-free_slots :
    (h : ℕ) (hosts : List Host) (free : Free) (r : ℕ)
    → length (slots (free_slots h hosts free) r) ≡ length (slots free r) + capacity_in r hosts
unfolding free_slots
length-slots-free_slots h [] free r = omega arith
length-slots-free_slots h (host ∷ hosts) free r = omega (
  arith,
  length-slots-free_slots (h + 1) hosts (add_slots host.nodes 0 host.region h free) r,
  length-slots-add_slots host.nodes 0 host.region h r free,
)

pub free_slots-IsDistinct :
    (h : ℕ) (hosts : List Host) (free : Free)
    → IsDistinct (keys free)
    → IsDistinct (keys (free_slots h hosts free))
unfolding free_slots
free_slots-IsDistinct h [] free d = d
free_slots-IsDistinct h (host ∷ hosts) free d =
    free_slots-IsDistinct (h + 1) hosts (add_slots host.nodes 0 host.region h free)
      (add_slots-IsDistinct host.nodes 0 host.region h free d)

pub region_order-Covers :
    (h : ℕ) (hosts : List Host) (free : Free) (r : ℕ)
    → has (keys free) r ≡ false
    → has (region_order h hosts free) r ≡ false
    → slots (free_slots h hosts free) r ≡ []
unfolding free_slots region_order has
region_order-Covers h [] free r k o = slots-absent free r k
region_order-Covers h (host ∷ hosts) free r k o =
    let other : (host.region == r) ≡ false = elim (ℕ_discrete host.region r) [
      | yes p ↦ absurd (ground (arith, ap (has (keys free)) p))
      | no p ↦ ground arith
    ] in
    region_order-Covers (h + 1) hosts (add_slots host.nodes 0 host.region h free) r
      (has-keys-add_slots host.nodes 0 host.region h r free other ∙ k)
      (elim (Bool-cases (has (keys free) host.region)) [
        | inl e ↦ ground arith
        | inr e ↦ ground arith
      ])

pub has-home_first :
    (home : ℕ) (order others : List ℕ) (r : ℕ)
    → has (home_first home order others) r ≡ (has order r || has others r)
unfolding home_first has
has-home_first home [] others r = refl
has-home_first home (x ∷ order) others r = ground (
  arith,
  has-home_first home order others r,
  has-home_first home order (others ++ (x ∷ [])) r,
  has-append_one others x r,
)
