-- ===== src/Placement/Advance.antt =====
-- A slot that `place` takes, and the regions that it goes on with.
use topdisc_testbed.Base.{
  ℕ, zero, suc, ◌≡◌, some, List, [], ◌∷◌, arith, refl, sym, ◌∙◌, ap, update, has, keys, ℕ_discrete,
  adjust,
}
use topdisc_testbed.Placement.Regions.{
  Slot, Spread, Placed, panicked, slots, take_slot, take, skip_if_empty, advance, place_rest,
  place_unpinned,
}
use topdisc_testbed.Placement.Apart.{slots-adjust}
use topdisc_testbed.Placement.Stock.{Free, Covers}

-- After the loop that skips them, the first region left has a free slot.
abbrev pub HasNext : List (ℕ × List Slot) → List ℕ → Type 0
HasNext free [] = Unit
HasNext free (r ∷ rs) = (s : Slot) × (rest : List Slot) × (slots free r ≡ s ∷ rest)

pub skip-HasNext :
    (free : List (ℕ × List Slot)) (s : List Slot) (r : ℕ) (rs rest : List ℕ)
    → slots free r ≡ s
    → HasNext free rest
    → HasNext free (skip_if_empty s r rs rest)
unfolding skip_if_empty
skip-HasNext free [] r rs rest e h = h
skip-HasNext free (s ∷ ss) r rs rest e h = (s, ss, e)

pub advance-HasNext :
    (free : List (ℕ × List Slot)) (order : List ℕ) → HasNext free (advance free order)
unfolding advance
advance-HasNext free [] = tt
advance-HasNext free (r ∷ rs) =
    skip-HasNext free (slots free r) r rs (advance free rs) refl (advance-HasNext free rs)

pub place_unpinned-cases :
    (P : Placed → Type 0) (n : ℕ) (pins : List (ℕ × ℕ)) (order : List ℕ) (p : Spread)
    → (n ≡ 0 → P panicked)
    → P (place_rest n 0 (keys pins) order p)
    → P (place_unpinned n pins order p)
unfolding place_unpinned place_rest
place_unpinned-cases P zero [] order p e h = h
place_unpinned-cases P zero (pin ∷ pins) order p e h = e refl
place_unpinned-cases P (suc n) pins order p e h = h

-- A slot is taken if the region has one.
pub taken :
    (p : Spread) (r idx : ℕ) (s : Slot) (rest : List Slot)
    → slots p.free r ≡ s ∷ rest
    → (q : Spread) × (take p r idx ≡ some q) × (q.free ≡ adjust [] (λ _. rest) r p.free)
unfolding take take_slot
taken p r idx (h, k) rest e = (
  record {
    free = adjust [] (λ _. rest) r p.free;
    host_of = update p.host_of idx h;
    local = update p.local idx k;
  },
  ap (λ l. take_slot p r l idx) e,
  refl,
)

pub take-Covers :
    (free : Free) (r : ℕ) (s : Slot) (rest : List Slot) (order : List ℕ)
    → slots free r ≡ s ∷ rest
    → Covers order free
    → Covers order (adjust [] (λ _. rest) r free)
take-Covers free r s rest order e c j n = elim (ℕ_discrete r j) [
  | yes p ↦ absurd (ground (arith, c j n, ap (slots free) p))
  | no p ↦ slots-adjust (λ _. rest) r j free ∙ ground (arith, c j n)
]

pub skip-Covers :
    (free : Free) (s : List Slot) (r : ℕ) (rs rest : List ℕ)
    → slots free r ≡ s
    → Covers (r ∷ rs) free
    → (Covers rs free → Covers rest free)
    → Covers (skip_if_empty s r rs rest) free
unfolding skip_if_empty has
skip-Covers free [] r rs rest e c next = next (λ j n. elim (ℕ_discrete r j) [
  | yes p ↦ ap (slots free) (sym p) ∙ e
  | no p ↦ c j (ground arith)
])
skip-Covers free (s ∷ ss) r rs rest e c next = c

pub advance-Covers :
    (free : Free) (order : List ℕ) → Covers order free → Covers (advance free order) free
unfolding advance
advance-Covers free [] c = c
advance-Covers free (r ∷ rs) c =
    skip-Covers free (slots free r) r rs (advance free rs) refl c (advance-Covers free rs)
