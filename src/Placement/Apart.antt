-- ===== src/Placement/Apart.antt =====
-- Slots that are free, and slots that are given to nodes.
use topdisc_testbed.Base.{
  ℕ, zero, suc, ◌≡◌, ◌⊎◌, inl, inr, ◌+◌, ◌<◌, ◌≤◌, Bool, true, false, ◌&&◌, ◌||◌, List, [], ◌∷◌,
  ◌++◌, arith, refl, sym, ◌∙◌, ap, subst, if◌then◌else◌, ◌==◌, find_or, adjust, find_or-adjust,
  get_or, length, ℕ_discrete, if_ind, Bool-cases,
}
use topdisc_testbed.Placement.Regions.{Host, Slot, slots, add_slots, free_slots}

unfoldable pub has_slot : List Slot → ℕ → ℕ → Bool
has_slot [] h k = false
has_slot ((a, b) ∷ s) h k = (a == h && b == k) || has_slot s h k

abbrev pub Distinct : List Slot → Type 0
Distinct [] = Unit
Distinct ((a, b) ∷ s) = (has_slot s a b ≡ false) × Distinct s

has_slot-append :
    (s : List Slot) (a b h k : ℕ)
    → has_slot (s ++ ((a, b) ∷ [])) h k ≡ (has_slot s h k || (a == h && b == k))
unfolding has_slot
has_slot-append [] a b h k = ground arith
has_slot-append ((c, d) ∷ s) a b h k = ground (arith, has_slot-append s a b h k)

append-Distinct :
    (s : List Slot) (a b : ℕ) → Distinct s → has_slot s a b ≡ false → Distinct (s ++ ((a, b) ∷ []))
unfolding has_slot
append-Distinct [] a b d h = (refl, tt)
append-Distinct ((c, e) ∷ s) a b d h =
    (ground (arith, has_slot-append s a b c e, d.0), append-Distinct s a b d.1 (ground arith))

pub slots-adjust :
    (f : List Slot → List Slot) (r j : ℕ) (free : List (ℕ × List Slot))
    → slots (adjust [] f r free) j ≡ (if r == j then f (slots free r) else slots free j)
slots-adjust f r j free = find_or-adjust [] f r j free

has_slot-added :
    (r0 h k r a c : ℕ) (free : List (ℕ × List Slot))
    → has_slot (slots (adjust [] (λ s. s ++ ((h, k) ∷ [])) r0 free) r) a c
      ≡ (has_slot (slots free r) a c || (r0 == r && (h == a && k == c)))
has_slot-added r0 h k r a c free =
    ap (λ s. has_slot s a c) (slots-adjust (λ s. s ++ ((h, k) ∷ [])) r0 r free)
    ∙ elim (ℕ_discrete r0 r) [
      | yes p ↦ ground (arith, has_slot-append (slots free r0) h k a c, ap (slots free) p)
      | no p ↦ ground arith
    ]

module _ (hosts : List Host) where
  abbrev pub host_at : ℕ → Host
  host_at h = get_or hosts h (record { region = 0; nodes = 0 })

  -- Machine h has slot k, and is in region r.
  pub record IsSlot (r h k : ℕ) : Type 0 where
    pub machine : h < length hosts
    pub slot : k < (host_at h).nodes
    pub region : (host_at h).region ≡ r

  pub record AreFree (free : List (ℕ × List Slot)) : Type 0 where
    pub valid : (r h k : ℕ) → has_slot (slots free r) h k ≡ true → IsSlot r h k
    pub distinct : (r : ℕ) → Distinct (slots free r)

  -- Free slots of the machines below h, and of machine h below k.
  record Built (h k : ℕ) (free : List (ℕ × List Slot)) : Type 0 where
    are_free : AreFree free
    below : (r a b : ℕ) → has_slot (slots free r) a b ≡ true → (a < h) ⊎ ((a ≡ h) × (b < k))

  Built-add :
      (h k : ℕ) (free : List (ℕ × List Slot))
      → Built h k free
      → IsSlot (host_at h).region h k
      → Built h (k + 1) (adjust [] (λ s. s ++ ((h, k) ∷ [])) (host_at h).region free)
  Built-add h k free b s =
      let r0 = (host_at h).region in
      record {
        are_free = record {
          valid = λ r a c e. elim (Bool-cases (has_slot (slots free r) a c)) [
            | inl old ↦ b.are_free.valid r a c old
            | inr new ↦
                let q : (r0 ≡ r) × (h ≡ a) × (k ≡ c) =
                  ground (arith, has_slot-added r0 h k r a c free) in
                subst (λ r. IsSlot r a c) q.0
                  (subst (λ a. IsSlot r0 a c) q.1 (subst (λ c. IsSlot r0 h c) q.2 s))
          ];
          distinct = λ r. subst Distinct (sym (slots-adjust (λ s. s ++ ((h, k) ∷ [])) r0 r free)) (
              if_ind Distinct (r0 == r)
                (λ _.
                  append-Distinct (slots free r0) h k (b.are_free.distinct r0)
                    (elim (Bool-cases (has_slot (slots free r0) h k)) [
                      | inl old ↦ absurd (ground (arith, b.below r0 h k old))
                      | inr new ↦ new
                    ]))
                (λ _. b.are_free.distinct r));
        };
        below = λ r a c e. ground (arith, b.below r a c, has_slot-added r0 h k r a c free);
      }

  Built-add_slots :
      (left from h : ℕ) (free : List (ℕ × List Slot))
      → h < length hosts
      → from + left ≤ (host_at h).nodes
      → Built h from free
      → Built h (from + left) (add_slots left from (host_at h).region h free)
  unfolding add_slots
  Built-add_slots zero from h free m l b = subst (λ k. Built h k free) (omega arith) b
  Built-add_slots (suc left) from h free m l b =
      let next : from + 1 + left ≡ from + suc left = omega arith in
      subst
        (λ k. Built h k (
          add_slots left (from + 1) (host_at h).region h
            (adjust [] (λ s. s ++ ((h, from) ∷ [])) (host_at h).region free)))
        next
        (Built-add_slots left (from + 1) h
          (adjust [] (λ s. s ++ ((h, from) ∷ [])) (host_at h).region free) m (omega (arith, l))
          (Built-add h from free b
            (record { machine = m; slot = omega (arith, l); region = refl })))

  Built-next : (h k : ℕ) (free : List (ℕ × List Slot)) → Built h k free → Built (h + 1) 0 free
  Built-next h k free b = record {
    are_free = b.are_free;
    below = λ r a c e. ground (arith, b.below r a c e);
  }

  free_slots-Built :
      (h : ℕ) (rest : List Host) (free : List (ℕ × List Slot))
      → length hosts ≡ h + length rest
      → ((i : ℕ) → get_or rest i (record { region = 0; nodes = 0 }) ≡ host_at (h + i))
      → Built h 0 free
      → AreFree (free_slots h rest free)
  unfolding free_slots
  free_slots-Built h [] free l e b = b.are_free
  free_slots-Built h (host ∷ rest) free l e b =
      let here : host ≡ host_at h = e 0 ∙ ap host_at (omega arith) in
      free_slots-Built (h + 1) rest (add_slots host.nodes 0 host.region h free) (omega (arith, l))
        (λ i. e (suc i) ∙ ap host_at (omega arith))
        (Built-next h (0 + host.nodes) _ (
          subst (λ x. Built h (0 + x.nodes) (add_slots x.nodes 0 x.region h free)) (sym here)
            (Built-add_slots (host_at h).nodes 0 h free (omega (arith, l)) (omega arith) b)))

  pub free_slots-AreFree : AreFree (free_slots 0 hosts [])
  unfolding find_or has_slot
  free_slots-AreFree =
      free_slots-Built 0 hosts [] (omega arith) (λ i. ap host_at (omega arith))
        (record {
          are_free = record { valid = λ r h k e. absurd (ground arith); distinct = λ r. tt };
          below = λ r a c e. absurd (ground arith);
        })
