-- ===== src/Churn/Schedule.antt =====
-- model.go: the fitted survival and gap lengths, and the absences of a node that ScheduleTopic plans.
-- The draws of `rng` are a stream; k is the number of the next draw.
use topdisc_testbed.Base.{
  ℕ, zero, suc, ◌+◌, ◌-◌, Bool, true, false, not, ◌||◌, Option, none, some, List, [], ◌∷◌,
  if◌then◌else◌, ◌==◌, length, get_or, search_first,
}
use topdisc_testbed.Churn.{Topic, Model}

-- The float64 operations that the code uses.
pub record Float64 (F : Type 0) : Type 0 where
  pub zero_float : F
  pub one : F
  pub hour : F  -- 3600
  pub add : F → F → F
  pub sub : F → F → F
  pub mul : F → F → F
  pub div : F → F → F
  pub pow : F → F → F
  pub min_float : F → F → F
  pub lt : F → F → Bool
  pub le : F → F → Bool
  pub eq : F → F → Bool

-- One planned absence.
pub record Event (F : Type 0) : Type 0 where
  pub down_at : F
  pub up_at : F

module _ {F : Type 0} (f : Float64 F) where
  open f use {zero_float, one, hour, add, sub, mul, div, pow, min_float, lt, le, eq}

  abbrev point : List (F × F) → ℕ → F × F
  point km i = get_or km i (zero_float, zero_float)

  unfoldable pub between : F × F → F × F → F → F
  between (t0, s0) (t1, s1) x =
      if le s0 zero_float || le s1 zero_float
      then s1
      else mul s0 (pow (div s1 s0) (div (sub x t0) (sub t1 t0)))

  unfoldable pub survival_at : List (F × F) → F → ℕ → F
  survival_at km x i =
      if i == length km
      then (point km (length km - 1)).1
      else if (i == 0) || eq (point km i).0 x
      then (point km i).1
      else between (point km (i - 1)) (point km i) x

  unfoldable pub survival : List (F × F) → F → F
  survival km x =
      if le x zero_float || (length km == 0)
      then one
      else survival_at km x (search_first (length km) (λ i. le x (point km i).0))

  unfoldable pub leave_prob : List (F × F) → F → F → F
  leave_prob km age dt =
      let s = survival km age in
      if le s zero_float then one else sub one (div (survival km (add age dt)) s)

  -- The first entry that the draw does not pass, or the last.
  unfoldable pub gap_of : F → F × F → List (F × F) → F
  gap_of u e [] = e.0
  gap_of u e (n ∷ cdf) = if le u e.1 then e.0 else gap_of u n cdf

  -- A gap in crawls, and the number of the next draw.
  unfoldable pub gap : List (F × F) → (ℕ → F) → ℕ → F × ℕ
  gap [] draw k = (one, k)
  gap (e ∷ cdf) draw k = (gap_of (draw k) e cdf, k + 1)

  unfoldable pub with_event : Event F → Option (List (Event F)) → Option (List (Event F))
  with_event e none = none
  with_event e (some ev) = some (e ∷ ev)

  -- `leaveNow || rng.Float64() < leaveProb(km, age, 1)`
  unfoldable pub leaves : Bool → List (F × F) → F → (ℕ → F) → ℕ → Bool × ℕ
  leaves true km age draw k = (true, k)
  leaves false km age draw k = (lt (draw k) (leave_prob km age one), k + 1)

  -- The loop from x on, none when it runs out of fuel.
  unfoldable pub absences :
      ℕ → (ℕ → F) → F → F → Topic F → ℕ → F → F → List (F × F) → Bool → Option (List (Event F))
  absences zero draw window crawl t k x age km leave_now = none
  absences (suc fuel) draw window crawl t k x age km leave_now =
      let (leaving, k1) = leaves leave_now km age draw k in
      let (g0, k2) = gap t.gap_cdf draw (k1 + 1) in
      let g = mul g0 crawl in
      let back = absences fuel draw window crawl t k2 (add x g) zero_float t.km_return false in
      let stay = absences fuel draw window crawl t k1 (add x crawl) (add age one) km false in
      if not (lt x window)
      then some []
      else if not leaving
      then stay
      else if lt (draw k1) t.leave_forever
      then some (record { down_at = x; up_at = window } ∷ [])
      else with_event (record { down_at = x; up_at = add x g }) back

  unfoldable pub real_hours : F → F → F
  real_hours window hours = if le hours zero_float then div window hour else hours

  -- The length of a crawl in the window.
  unfoldable pub crawl_length : Model F → F → F → F
  crawl_length m window hours = div (mul window m.cadence) (real_hours window hours)

  unfoldable pub schedule_topic : ℕ → Model F → (ℕ → F) → F → F → Topic F → Option (List (Event F))
  schedule_topic fuel m draw window hours t =
      let crawl = crawl_length m window hours in
      let span = min_float one (div (real_hours window hours) m.hours) in
      let arrive = mul (draw 1) window in
      if lt (draw 0) (mul (sub one t.initial_up) span)
      then with_event (record { down_at = zero_float; up_at = arrive })
          (absences fuel draw window crawl t 2 (add arrive crawl) zero_float t.km false)
      else if le (mul (sub one t.always_on) span) (draw 1)
      then some []
      else absences fuel draw window crawl t 3 (mul (draw 2) window) zero_float t.km_return true
