-- ===== src/Placement/Given.antt =====
-- Every loop of `place` gives nodes slots of their own.
use topdisc_testbed.Base.{
  ℕ, ◌≡◌, ◌≢◌, inl, inr, Bool, true, false, ◌&&◌, ◌||◌, Option, none, some, List, [], ◌∷◌, arith,
  sym, ◌∙◌, ap, subst, if◌then◌else◌, ◌==◌, update, adjust, ℕ_discrete, if_ind, Bool-cases,
}
use topdisc_testbed.Placement.Regions.{Host, Slot, Spread, slots, take_slot}
use topdisc_testbed.Placement.Apart.{has_slot, Distinct, slots-adjust, host_at, IsSlot, AreFree}

module _ (hosts : List Host) (wanted : ℕ → Option ℕ) where
  -- The nodes that are done have slots that exist, in the region wanted if any, that are no longer
  -- free, and no two have the same.
  pub record Given (p : Spread) (done : ℕ → Bool) : Type 0 where
    pub are_free : AreFree hosts p.free
    pub slot :
        (i : ℕ)
        → done i ≡ true
        → IsSlot hosts (host_at hosts (p.host_of i)).region (p.host_of i) (p.local i)
    pub region :
        (i r : ℕ) → done i ≡ true → wanted i ≡ some r → (host_at hosts (p.host_of i)).region ≡ r
    pub taken :
        (i r : ℕ) → done i ≡ true → has_slot (slots p.free r) (p.host_of i) (p.local i) ≡ false
    pub apart :
        (i j : ℕ)
        → done i ≡ true
        → done j ≡ true
        → i ≢ j
        → p.host_of i ≡ p.host_of j
        → p.local i ≢ p.local j

  abbrev pub MayBeGiven : (ℕ → Bool) → Option Spread → Type 0
  MayBeGiven done none = Unit
  MayBeGiven done (some q) = Given q done

  module _ (p : Spread) (r idx h k : ℕ) (rest : List Slot)
      (e : slots p.free r ≡ (h, k) ∷ rest) where
    abbrev after : Spread
    after = record {
      free = adjust [] (λ _. rest) r p.free;
      host_of = update p.host_of idx h;
      local = update p.local idx k;
    }

    slots-after : (j : ℕ) → slots after.free j ≡ (if r == j then rest else slots p.free j)
    slots-after j = slots-adjust (λ _. rest) r j p.free

    has_slot-first :
        (a b : ℕ) → has_slot (slots p.free r) a b ≡ ((h == a && k == b) || has_slot rest a b)
    unfolding has_slot
    has_slot-first a b = ap (λ s. has_slot s a b) e

    at_idx : (after.host_of idx ≡ h) × (after.local idx ≡ k)
    at_idx = ground arith

    elsewhere : (i : ℕ) → idx ≢ i → (after.host_of i ≡ p.host_of i) × (after.local i ≡ p.local i)
    elsewhere i n = ground arith

    module _ (v : AreFree hosts p.free) where
      taken-IsSlot : IsSlot hosts r h k
      taken-IsSlot = v.valid r h k (has_slot-first h k ∙ ground arith)

      rest-Distinct : (has_slot rest h k ≡ false) × Distinct rest
      rest-Distinct = subst Distinct e (v.distinct r)

      -- A slot that is free afterwards was free, and is not the one taken.
      still-free :
          (j a b : ℕ)
          → has_slot (slots after.free j) a b ≡ true
          → (has_slot (slots p.free j) a b ≡ true) × ((h == a && k == b) ≡ false)
      still-free j a b f = elim (ℕ_discrete r j) [
        | yes q ↦
            let now : slots after.free j ≡ rest = slots-after j ∙ ground arith in
            let f' : has_slot rest a b ≡ true = sym (ap (λ s. has_slot s a b) now) ∙ f in
            (
              ap (λ j. has_slot (slots p.free j) a b) (sym q) ∙ has_slot-first a b ∙ ground arith,
              not_first a b f',
            )
        | no q ↦
            let now : slots after.free j ≡ slots p.free j = slots-after j ∙ ground arith in
            let f' : has_slot (slots p.free j) a b ≡ true =
              sym (ap (λ s. has_slot s a b) now) ∙ f in
            (
              f',
              elim (Bool-cases (h == a && k == b)) [
                | inl same ↦
                    let u : h ≡ a = ground arith in
                    absurd (
                      q (
                        sym taken-IsSlot.region
                        ∙ ap (λ x. (host_at hosts x).region) u
                        ∙ (v.valid j a b f').region))
                | inr other ↦ other
              ],
            )
      ]
        where
          not_first : (a b : ℕ) → has_slot rest a b ≡ true → (h == a && k == b) ≡ false
          not_first a b f = elim (ℕ_discrete h a) [
            | yes u ↦ elim (ℕ_discrete k b) [
              | yes w ↦
                  ground
                    (arith, rest-Distinct.0, ap (λ x. has_slot rest x b) u, ap (has_slot rest h) w)
              | no w ↦ ground arith
            ]
            | no u ↦ ground arith
          ]

    module _ (done : ℕ → Bool) (g : Given p done) (new : done idx ≡ false)
        (w : (s : ℕ) → wanted idx ≡ some s → s ≡ r) where
      -- What was done before, or the node that is placed now.
      was : (i : ℕ) → idx ≢ i → (done i || (idx == i)) ≡ true → done i ≡ true
      was i n f = ground arith

      after-taken :
          (i s : ℕ)
          → (done i || (idx == i)) ≡ true
          → has_slot (slots after.free s) (after.host_of i) (after.local i) ≡ false
      after-taken i s f =
          elim (Bool-cases (has_slot (slots after.free s) (after.host_of i) (after.local i))) [
            | inr b ↦ b
            | inl b ↦ elim (ℕ_discrete idx i) [
              | yes q ↦ absurd (
                  ground (
                    arith,
                    still-free g.are_free s (after.host_of i) (after.local i) b,
                    at_idx,
                    ap after.host_of q,
                    ap after.local q,
                  ))
              | no q ↦
                  let (eh, ek) = elsewhere i q in
                  let old : has_slot (slots p.free s) (p.host_of i) (p.local i) ≡ true =
                    sym (
                      ap (λ x. has_slot (slots p.free s) x (after.local i)) eh
                      ∙ ap (has_slot (slots p.free s) (p.host_of i)) ek)
                    ∙ (still-free g.are_free s (after.host_of i) (after.local i) b).0 in
                  absurd (ground (arith, g.taken i s (was i q f)))
            ]
          ]

      -- The slot taken is no other node's.
      not_given : (j : ℕ) → done j ≡ true → h ≡ p.host_of j → k ≢ p.local j
      not_given j f eh ek =
          let first : has_slot (slots p.free r) h k ≡ true = has_slot-first h k ∙ ground arith in
          absurd (
            ground (
              arith,
              g.taken j r f,
              first,
              ap (λ x. has_slot (slots p.free r) x k) eh,
              ap (has_slot (slots p.free r) (p.host_of j)) ek,
            ))

      after-Given : Given after (λ j. done j || (idx == j))
      after-Given = record {
        are_free = record {
          valid = λ j a b f. g.are_free.valid j a b (still-free g.are_free j a b f).0;
          distinct = λ j. subst Distinct (sym (slots-after j)) (
              if_ind Distinct (r == j) (λ _. (rest-Distinct g.are_free).1)
                (λ _. g.are_free.distinct j));
        };
        slot = λ i f. elim (ℕ_discrete idx i) [
          | yes q ↦
              subst
                (λ i.
                  IsSlot hosts (host_at hosts (after.host_of i)).region (after.host_of i)
                    (after.local i))
                q
                (let ts = taken-IsSlot g.are_free in
                  subst (λ x. IsSlot hosts (host_at hosts x).region x (after.local idx))
                    (sym at_idx.0)
                    (subst (λ y. IsSlot hosts (host_at hosts h).region h y) (sym at_idx.1)
                      (subst (λ s. IsSlot hosts s h k) (sym ts.region) ts)))
          | no q ↦
              subst (λ x. IsSlot hosts (host_at hosts x).region x (after.local i))
                (sym (elsewhere i q).0)
                (subst (λ y. IsSlot hosts (host_at hosts (p.host_of i)).region (p.host_of i) y)
                  (sym (elsewhere i q).1) (g.slot i (was i q f)))
        ];
        region = λ i s f q. elim (ℕ_discrete idx i) [
          | yes u ↦
              ap (λ x. (host_at hosts (after.host_of x)).region) (sym u)
              ∙ ap (λ x. (host_at hosts x).region) at_idx.0
              ∙ (taken-IsSlot g.are_free).region
              ∙ sym (w s (ap wanted u ∙ q))
          | no u ↦ ap (λ x. (host_at hosts x).region) (elsewhere i u).0 ∙ g.region i s (was i u f) q
        ];
        taken = after-taken;
        apart = λ i j f f' ne eh ek. elim (ℕ_discrete idx i) [
          | yes u ↦
              let n : idx ≢ j = λ x. ne (sym u ∙ x) in
              not_given j (was j n f') (sym at_idx.0 ∙ ap after.host_of u ∙ eh ∙ (elsewhere j n).0)
                (sym at_idx.1 ∙ ap after.local u ∙ ek ∙ (elsewhere j n).1)
          | no u ↦ elim (ℕ_discrete idx j) [
            | yes v ↦
                not_given i (was i u f)
                  (sym at_idx.0 ∙ ap after.host_of v ∙ sym eh ∙ (elsewhere i u).0)
                  (sym at_idx.1 ∙ ap after.local v ∙ sym ek ∙ (elsewhere i u).1)
            | no v ↦
                g.apart i j (was i u f) (was j v f') ne
                  (sym (elsewhere i u).0 ∙ eh ∙ (elsewhere j v).0)
                  (sym (elsewhere i u).1 ∙ ek ∙ (elsewhere j v).1)
          ]
        ];
      }

  -- Taking a slot, if the region has one left.
  pub take-Given :
      (p : Spread) (r idx : ℕ) (done : ℕ → Bool) (s : List Slot)
      → slots p.free r ≡ s
      → Given p done
      → done idx ≡ false
      → ((s : ℕ) → wanted idx ≡ some s → s ≡ r)
      → MayBeGiven (λ j. done j || (idx == j)) (take_slot p r s idx)
  unfolding take_slot
  take-Given p r idx done [] e g new w = tt
  take-Given p r idx done ((h, k) ∷ rest) e g new w = after-Given p r idx h k rest e done g new w
