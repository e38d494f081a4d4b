-- ===== src/Churn/Planned.antt =====
-- The planned absences are in order, and the planning ends.
use topdisc_testbed.Base.{
  ℕ, zero, suc, ◌≡◌, ◌+◌, Bool, true, false, not, Option, some, List, [], ◌∷◌, arith, refl, ap,
  if_ind,
}
use topdisc_testbed.Churn.{Topic, Model}
use topdisc_testbed.Churn.Schedule.{
  Float64, Event, gap_of, gap, with_event, leaves, absences, crawl_length, real_hours,
  schedule_topic,
}

module _ {F : Type 0} (f : Float64 F) where
  open f use {zero_float, one, add, mul, lt, le}

  -- What the planning uses of the order and of sums and products of float64 numbers that are not NaN.
  pub record IsOrdered : Type 0 where
    pub le_refl : (x : F) → le x x ≡ true
    pub le_trans : (x y z : F) → le x y ≡ true → le y z ≡ true → le x z ≡ true
    pub lt_le : (x y : F) → lt x y ≡ true → le x y ≡ true
    pub not_lt_le : (x y : F) → lt x y ≡ false → le y x ≡ true
    pub not_lt_of_le : (x y : F) → le y x ≡ true → lt x y ≡ false
    pub add_mono : (x y z : F) → le x y ≡ true → le (add x z) (add y z) ≡ true
    pub add_mono_right : (x y z : F) → le y z ≡ true → le (add x y) (add x z) ≡ true
    pub le_add : (x y : F) → le zero_float y ≡ true → le x (add x y) ≡ true
    pub mul_nonneg :
        (x y : F) → le zero_float x ≡ true → le zero_float y ≡ true → le zero_float (mul x y) ≡ true
    pub le_mul : (x y : F) → le one x ≡ true → le zero_float y ≡ true → le y (mul x y) ≡ true
    pub one_le : le one one ≡ true

  -- Each absence begins no earlier than the last one ended, `from` for the first, and ends no earlier.
  unfoldable pub Ordered : F → List (Event F) → Type 0
  Ordered from [] = Unit
  Ordered from (e ∷ ev) =
      (le from e.down_at ≡ true) × (le e.down_at e.up_at ≡ true) × Ordered e.up_at ev

  -- No gap is shorter than a crawl.
  unfoldable pub GapsLong : List (F × F) → Type 0
  GapsLong [] = Unit
  GapsLong (e ∷ cdf) = (le one e.0 ≡ true) × GapsLong cdf

  -- x and n crawls more
  unfoldable pub crawls_after : ℕ → F → F → F
  crawls_after zero crawl x = x
  crawls_after (suc n) crawl x = crawls_after n crawl (add x crawl)

  abbrev pub Plans : F → Option (List (Event F)) → Type 0
  Plans from o = (ev : List (Event F)) × (o ≡ some ev) × Ordered from ev

  module _ (laws : IsOrdered) where
    crawls_after_mono :
        (n : ℕ) (crawl x y : F)
        → le x y ≡ true
        → le (crawls_after n crawl x) (crawls_after n crawl y) ≡ true
    unfolding crawls_after
    crawls_after_mono zero crawl x y h = h
    crawls_after_mono (suc n) crawl x y h =
        crawls_after_mono n crawl (add x crawl) (add y crawl) (laws.add_mono x y crawl h)

    -- If n crawls after x lie past the window, so do n crawls after what is later.
    past_mono :
        (n : ℕ) (crawl window x y : F)
        → le x y ≡ true
        → lt (crawls_after n crawl x) window ≡ false
        → lt (crawls_after n crawl y) window ≡ false
    past_mono n crawl window x y h p =
        laws.not_lt_of_le _ window
          (laws.le_trans window _ _ (laws.not_lt_le _ window p) (crawls_after_mono n crawl x y h))

    gap_of-long :
        (u : F) (e : F × F) (cdf : List (F × F))
        → le one e.0 ≡ true
        → GapsLong cdf
        → le one (gap_of f u e cdf) ≡ true
    unfolding gap_of GapsLong
    gap_of-long u e [] h g = h
    gap_of-long u e (n ∷ cdf) h g =
        if_ind (λ x. le one x ≡ true) (le u e.1) (λ _. h) (λ _. gap_of-long u n cdf g.0 g.1)

    gap-long :
        (cdf : List (F × F)) (draw : ℕ → F) (k : ℕ)
        → GapsLong cdf
        → le one (gap f cdf draw k).0 ≡ true
    unfolding gap GapsLong
    gap-long [] draw k g = laws.one_le
    gap-long (e ∷ cdf) draw k g = gap_of-long (draw k) e cdf g.0 g.1

    Ordered-earlier : (x y : F) (ev : List (Event F)) → le x y ≡ true → Ordered y ev → Ordered x ev
    unfolding Ordered
    Ordered-earlier x y [] h o = tt
    Ordered-earlier x y (e ∷ ev) h o = (laws.le_trans x y e.down_at h o.0, o.1, o.2)

    with_event-Plans :
        (from : F) (e : Event F) (o : Option (List (Event F)))
        → le from e.down_at ≡ true
        → le e.down_at e.up_at ≡ true
        → Plans e.up_at o
        → Plans from (with_event f e o)
    unfolding with_event Ordered
    with_event-Plans from e o a b (ev, q, ord) = (e ∷ ev, ap (with_event f e) q, (a, b, ord))

    module _ (draw : ℕ → F) (window crawl : F) (t : Topic F) (long : GapsLong t.gap_cdf)
        (forward : le zero_float crawl ≡ true) where
      absences-Plans :
          (fuel k : ℕ) (x age : F) (km : List (F × F)) (leave_now : Bool)
          → lt (crawls_after fuel crawl x) window ≡ false
          → Plans x (absences f (suc fuel) draw window crawl t k x age km leave_now)
      unfolding absences crawls_after Ordered
      absences-Plans zero k x age km leave_now past =
          if_ind (Plans x) (not (lt x window)) (λ _. ([], refl, tt))
            (λ inside. absurd (ground arith))
      absences-Plans (suc fuel) k x age km leave_now past =
          let left = leaves f leave_now km age draw k in
          let g0 = gap f t.gap_cdf draw (left.1 + 1) in
          let g = mul g0.0 crawl in
          let long_g : le crawl g ≡ true =
            laws.le_mul g0.0 crawl (gap-long t.gap_cdf draw (left.1 + 1) long) forward in
          let (ev, q, ord) = absences-Plans fuel left.1 (add x crawl) (add age one) km false past in
          if_ind (Plans x) (not (lt x window)) (λ _. ([], refl, tt))
            (λ inside.
              if_ind (Plans x) (not left.0)
                (λ _. (ev, q, Ordered-earlier x (add x crawl) ev (laws.le_add x crawl forward) ord))
                (λ _.
                  if_ind (Plans x) (lt (draw left.1) t.leave_forever)
                    (λ _. (_, refl, (laws.le_refl x, laws.lt_le x window (ground arith), tt)))
                    (λ _.
                      with_event-Plans x (record { down_at = x; up_at = add x g }) _
                        (laws.le_refl x)
                        (laws.le_add x g (laws.le_trans zero_float crawl g forward long_g))
                        (absences-Plans fuel g0.1 (add x g) zero_float t.km_return false (
                          past_mono fuel crawl window (add x crawl) (add x g)
                            (laws.add_mono_right x crawl g long_g) past)))))

    -- If no gap is shorter than a crawl and `fuel` crawls reach the end of the window, the planning
    -- ends. Of the absences that it returns, each ends no earlier than it begins, and begins no
    -- earlier than the one before ended.
    pub schedule_topic-Plans :
        (fuel : ℕ) (m : Model F) (draw : ℕ → F) (window hours : F) (t : Topic F)
        → GapsLong t.gap_cdf
        → le zero_float window ≡ true
        → le zero_float (crawl_length f m window hours) ≡ true
        → ((k : ℕ) → le zero_float (draw k) ≡ true)
        → lt (crawls_after fuel (crawl_length f m window hours) zero_float) window ≡ false
        → Plans zero_float (schedule_topic f (suc fuel) m draw window hours t)
    unfolding schedule_topic Ordered
    schedule_topic-Plans fuel m draw window hours t long ahead forward draws past =
        let crawl = crawl_length f m window hours in
        let plans = absences-Plans draw window crawl t long forward fuel in
        let from : (x : F)
            → le zero_float x ≡ true
            → lt (crawls_after fuel crawl x) window ≡ false =
          λ x h. past_mono fuel crawl window zero_float x h past in
        let arrive = mul (draw 1) window in
        let arrives : le zero_float arrive ≡ true =
          laws.mul_nonneg (draw 1) window (draws 1) ahead in
        let settled : le zero_float (add arrive crawl) ≡ true =
          laws.le_trans zero_float arrive (add arrive crawl) arrives
            (laws.le_add arrive crawl forward) in
        let departs : le zero_float (mul (draw 2) window) ≡ true =
          laws.mul_nonneg (draw 2) window (draws 2) ahead in
        let (ev, q, ord) =
          plans 2 (add arrive crawl) zero_float t.km false (from (add arrive crawl) settled) in
        let (ev', q', ord') =
          plans 3 (mul (draw 2) window) zero_float t.km_return true
            (from (mul (draw 2) window) departs) in
        let span = f.min_float one (f.div (real_hours f window hours) m.hours) in
        if_ind (Plans zero_float) (lt (draw 0) (mul (f.sub one t.initial_up) span))
          (λ _.
            with_event-Plans zero_float (record { down_at = zero_float; up_at = arrive }) _
              (laws.le_refl zero_float) arrives
              (
                ev,
                q,
                Ordered-earlier arrive (add arrive crawl) ev (laws.le_add arrive crawl forward) ord,
              ))
          (λ _.
            if_ind (Plans zero_float) (le (mul (f.sub one t.always_on) span) (draw 1))
              (λ _. ([], refl, tt))
              (λ _. (ev', q', Ordered-earlier zero_float (mul (draw 2) window) ev' departs ord')))
