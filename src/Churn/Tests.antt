-- ===== src/Churn/Tests.antt =====
-- The absences of a node over an hour that stands for a day.
use topdisc_testbed.Base.{
  ℕ, zero, suc, ◌≡◌, ◌+◌, ◌-◌, ◌*◌, ◌/◌, ◌≤◌, min, ltb, leb, ◌==◌, [], ◌∷◌, some, arith, refl,
  search_first, bisect,
}
use native.Mathlib.Nat.{suc-mul}
use topdisc_testbed.Churn.{Topic, Model}
use topdisc_testbed.Churn.Schedule.{
  Float64, between, survival_at, survival, leave_prob, gap_of, gap, with_event, leaves, absences,
  real_hours, crawl_length, schedule_topic,
}
use topdisc_testbed.Churn.Planned.{IsOrdered, GapsLong, Plans, crawls_after, schedule_topic-Plans}

abbrev wholes : Float64 ℕ
wholes = record {
  zero_float = 0;
  one = 1;
  hour = 3600;
  add = λ x y. x + y;
  sub = λ x y. x - y;
  mul = λ x y. x * y;
  div = λ x y. x / y;
  pow = λ x y. x;
  min_float = λ x y. min x y;
  lt = λ x y. ltb x y;
  le = λ x y. leb x y;
  eq = λ x y. x == y;
}

le_mul : (x y : ℕ) → 1 ≤ x → y ≤ x * y
le_mul zero y h = absurd (omega arith)
le_mul (suc x) y h = omega (arith, suc-mul x y)

wholes-IsOrdered : IsOrdered wholes
wholes-IsOrdered = record {
  le_refl = λ x. ground arith;
  le_trans = λ x y z a b. ground arith;
  lt_le = λ x y a. ground arith;
  not_lt_le = λ x y a. ground arith;
  not_lt_of_le = λ x y a. ground arith;
  add_mono = λ x y z a. ground arith;
  add_mono_right = λ x y z a. ground arith;
  le_add = λ x y a. ground arith;
  mul_nonneg = λ x y a b. ground arith;
  le_mul = λ x y a b. ground (arith, le_mul x y);
  one_le = refl;
}

abbrev fit : Topic ℕ
fit = record {
  id = "all";
  share = 1;
  initial_up = 0;
  always_on = 0;
  leave_forever = 0;
  km = (2, 0) ∷ [];
  km_return = (3, 0) ∷ [];
  gap_cdf = (2, 1) ∷ [];
  prefixes = [];
}

abbrev model : Model ℕ
model = record { cadence = 6; hours = 24; global = fit; topics = []; tail = []; tail_k = 0 }

program : Unit {0}
unfolding between survival_at survival leave_prob gap_of gap with_event leaves absences real_hours
    crawl_length schedule_topic crawls_after search_first bisect GapsLong
program = tt

fit-GapsLong : GapsLong wholes fit.gap_cdf
unfolding program
fit-GapsLong = (refl, tt)

-- It arrives at the start, and leaves for two crawls of 300 s at 300 s, and again when it returns.
schedule_day :
    schedule_topic wholes 13 model (λ k. 0) 1200 24 fit
    ≡ some (
        record { down_at = 0; up_at = 0 }
        ∷ record { down_at = 300; up_at = 900 }
        ∷ record { down_at = 900; up_at = 1500 }
        ∷ [])
unfolding program
schedule_day = refl

schedule_topic-Plans_example : Plans wholes 0 (schedule_topic wholes 13 model (λ k. 0) 3600 24 fit)
unfolding program
schedule_topic-Plans_example =
    schedule_topic-Plans wholes wholes-IsOrdered 12 model (λ k. 0) 3600 24 fit fit-GapsLong refl
      refl (λ k. refl) refl
