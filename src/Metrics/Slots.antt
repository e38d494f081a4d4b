-- ===== src/Metrics/Slots.antt =====
-- Every node counts once in each slot, by its latest sample.
use topdisc_testbed.Base.{
  ℕ, zero, suc, ◌≡◌, ◌+◌, ◌-◌, ◌/◌, ◌≤◌, ◌<◌, true, false, ◌&&◌, ◌==◌, Option, none, some, List, [],
  ◌∷◌, arith, refl, ap, ◌∙◌, if◌then◌else◌, ltb, leb, find, find_or, find-adjust, or_else, max,
  Bool-cases, inl, inr, ℕ_discrete,
}
use native.Mathlib.Nat.{le-div_iff_mul-le, div-mul-le_self}
use topdisc_testbed.Metrics.Series.{
  RawSample, OverheadSample, take_in, slot_of, new_sample, fold_slot, fold_range, after_until,
  fold_samples,
}

not_from : (a j n : ℕ) → ltb j a ≡ true → (leb a j && ltb j n) ≡ false
not_from a j n h = ground arith

from_on :
    (a b j : ℕ) → a ≤ b → ltb j b ≡ true → ltb j a ≡ false → (leb a j && ltb j (a + (b - a))) ≡ true
from_on a b j h p q = ground arith

before_next : (a b j : ℕ) → a ≤ b → ltb j b ≡ false → ltb j a ≡ false
before_next a b j h p = ground arith

past : (a b j : ℕ) → a ≤ b → ltb j b ≡ false → (leb a j && ltb j (a + (b - a))) ≡ false
past a b j h p = ground arith

-- The times of a node's samples do not descend.
abbrev pub IsAscending : List RawSample → Type 0
IsAscending [] = Unit
IsAscending (smp ∷ []) = Unit
IsAscending (smp ∷ next ∷ rest) = (smp.at_ms ≤ next.at_ms) × IsAscending (next ∷ rest)

module _ (period t0 stop : ℕ) where
  abbrev pub Slots : Type 0
  Slots = List (ℕ × OverheadSample)

  abbrev pub slot : RawSample → ℕ
  slot smp = slot_of period t0 stop smp.at_ms

  -- The entry of a slot, the empty sample if there is none.
  abbrev pub sample_at : ℕ → Slots → OverheadSample
  sample_at j slots = or_else (find j slots) (new_sample period t0 stop j)

  find_or-find :
      (d : OverheadSample) (j : ℕ) (slots : Slots) → find_or d j slots ≡ or_else (find j slots) d
  unfolding find_or find
  find_or-find d j [] = refl
  find_or-find d j ((k, v) ∷ slots) = ground (arith, find_or-find d j slots)

  fold_slot-sample_at :
      (bkt k j : ℕ) (smp : RawSample) (slots : Slots)
      → sample_at j (fold_slot period t0 stop bkt k smp slots)
        ≡ (if k == j then take_in bkt smp (sample_at j slots) else sample_at j slots)
  unfolding fold_slot
  fold_slot-sample_at bkt k j smp slots =
      let new : OverheadSample = new_sample period t0 stop k in
      let was : find_or new k slots ≡ sample_at k slots = find_or-find new k slots in
      elim (ℕ_discrete k j) [
        | yes p ↦ ground (
          arith,
          find-adjust new (take_in bkt smp) k j slots,
          was,
          ap (λ i. take_in bkt smp (sample_at i slots)) p,
        )
        | no p ↦ ground (arith, find-adjust new (take_in bkt smp) k j slots)
      ]

  fold_range-sample_at :
      (bkt : ℕ) (smp : RawSample) (k n j : ℕ) (slots : Slots)
      → sample_at j (fold_range period t0 stop bkt smp k n slots) ≡ (
          if leb k j && ltb j (k + n)
          then take_in bkt smp (sample_at j slots)
          else sample_at j slots)
  unfolding fold_range
  fold_range-sample_at bkt smp k zero j slots = ground arith
  fold_range-sample_at bkt smp k (suc n) j slots = ground (
    arith,
    fold_range-sample_at bkt smp (k + 1) n j (fold_slot period t0 stop bkt k smp slots),
    fold_slot-sample_at bkt k j smp slots,
  )

  -- The last slot that a node's last sample counts in: the stop's, or its own if the run has no stop
  -- or the stop's slot is before.
  abbrev pub last_slot : RawSample → ℕ
  last_slot smp = if stop == 0 then slot smp else max (slot smp) (slot_of period t0 stop stop)

  -- The latest of a node's samples at a slot, from the first on, if the last one still counts there.
  abbrev pub latest : RawSample → List RawSample → ℕ → Option RawSample
  latest smp [] j = if leb j (last_slot smp) then some smp else none
  latest smp (next ∷ rest) j = if ltb j (slot next) then some smp else latest next rest j

  abbrev pub carried : List RawSample → ℕ → Option RawSample
  carried [] j = none
  carried (smp ∷ rest) j = if ltb j (slot smp) then none else latest smp rest j

  abbrev pub taken : ℕ → Option RawSample → OverheadSample → OverheadSample
  taken bkt none s = s
  taken bkt (some smp) s = take_in bkt smp s

  -- The slots before the next sample's are the sample's, the others the rest's.
  join :
      (bkt a b j : ℕ) (smp : RawSample) (l : Option RawSample) (was now : OverheadSample)
      → a ≤ b
      → now ≡ (if leb a j && ltb j (a + (b - a)) then take_in bkt smp was else was)
      → taken bkt (if ltb j b then none else l) now
        ≡ taken bkt (if ltb j a then none else if ltb j b then some smp else l) was
  join bkt a b j smp l was now h e = elim (Bool-cases (ltb j b)) [
    | inl p ↦ rw p (
        e ∙ elim (Bool-cases (ltb j a)) [
          | inl q ↦ rw (q, not_from a j (a + (b - a)) q) refl
          | inr q ↦ rw (q, from_on a b j h p q) refl
        ])
    | inr p ↦ rw (p, before_next a b j h p) (ap (taken bkt l) (e ∙ rw (past a b j h p) refl))
  ]

  slot_mono : (smp next : RawSample) → 0 < period → smp.at_ms ≤ next.at_ms → slot smp ≤ slot next
  unfolding slot_of
  slot_mono smp next p h =
      (le-div_iff_mul-le p).1 (omega (arith, div-mul-le_self (smp.at_ms - t0 + period / 2) period))

  pub fold_samples-carried :
      (bkt : ℕ) (samples : List RawSample) (j : ℕ) (slots : Slots)
      → 0 < period
      → IsAscending samples
      → sample_at j (fold_samples period t0 stop bkt samples slots)
        ≡ taken bkt (carried samples j) (sample_at j slots)
  unfolding fold_samples after_until slot_of
  fold_samples-carried bkt [] j slots pos a = refl
  fold_samples-carried bkt (smp ∷ []) j slots pos a = ground (
    arith,
    fold_range-sample_at bkt smp (slot smp) (after_until period t0 stop smp [] - slot smp) j slots,
  )
  fold_samples-carried bkt (smp ∷ next ∷ rest) j slots pos a =
      let slots' : Slots =
        fold_range period t0 stop bkt smp (slot smp) (slot next - slot smp) slots in
      fold_samples-carried bkt (next ∷ rest) j slots' pos a.1
      ∙ join bkt (slot smp) (slot next) j smp (latest next rest j) (sample_at j slots)
          (sample_at j slots') (slot_mono smp next pos a.0)
          (fold_range-sample_at bkt smp (slot smp) (slot next - slot smp) j slots)
