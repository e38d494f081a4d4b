-- ===== src/Host/Termination.antt =====
-- The parser returns on every buffer.
use topdisc_testbed.Base.{
  ℕ, zero, suc, ◌+◌, ◌-◌, ◌*◌, ◌/◌, ◌%◌, ◌≤◌, ◌<◌, ◌≡◌, Bool, true, false, not, ◌||◌, ◌&&◌, Option,
  none, some, List, [], ◌∷◌, arith, refl, ltb, leb, ◌==◌, length, drop, length-drop, length-take,
  length-append, if_ind, ap,
}
use topdisc_testbed.Host.ByteOrder.{ByteOrder}
use topdisc_testbed.Host.Netlink.{
  QdiscStats, Dump, Turn, returns, goes_on, align4, slice, then_next, rtattr_from, rtattr, handle,
  read_qdisc, parse_from, parse_qdisc_dump,
}

abbrev Returns : {A : Type 0} → Option A → Type 0
Returns {A = A} o = (x : A) × (o ≡ some x)

-- What is left after a message of at least n bytes.
shorter : (l n : ℕ) (b : List ℕ) → n ≤ l → length (drop (align4 l) b) ≤ length b - n
unfolding align4
shorter l n b h = omega (arith, length-drop ((l + 3) / 4 * 4) b)

-- A message whose content has n bytes adds at most one qdisc, and none if n is below 20.
abbrev Adds : List QdiscStats → ℕ → Turn → Type 0
Adds qs n (returns d) = d.qs ≡ qs
Adds qs n (goes_on found) = 36 * length found ≤ 36 * length qs + (n + 16)

-- The loop ends with at most one qdisc for each 36 of n bytes.
abbrev Bounded : ℕ → Option Dump → Type 0
Bounded n o = (d : Dump) × (o ≡ some d) × (36 * length d.qs ≤ n)

length-slice : (b : List ℕ) (i j : ℕ) → j ≤ length b → length (slice b i j) ≡ j - i
length-slice b i j h = omega (arith, length-take (j - i) (drop i b), length-drop i b)

module _ (ne : ByteOrder) where
  open ne use {uint16, uint32}

  rtattr_from-Returns :
      (fuel : ℕ) (b : List ℕ) (typ : ℕ) → length b < fuel → Returns (rtattr_from ne fuel b typ)
  unfolding rtattr_from
  rtattr_from-Returns zero b typ h = absurd (omega arith)
  rtattr_from-Returns (suc fuel) b typ h =
      let l = uint16 b in
      if_ind Returns (ltb (length b) 4) (λ _. (none, refl))
        (λ long.
          if_ind Returns (ltb l 4 || ltb (length b) l) (λ _. (none, refl))
            (λ whole.
              if_ind Returns (uint16 (drop 2 b) % 16384 == typ) (λ _. (some (slice b 4 l), refl))
                (λ _.
                  if_ind Returns (leb (length b) (align4 l)) (λ _. (none, refl))
                    (λ _.
                      rtattr_from-Returns fuel (drop (align4 l) b) typ
                        (ground (arith, shorter l 4 b))))))

  -- The loop that looks for an attribute returns, whatever the bytes.
  pub rtattr_terminates :
      (b : List ℕ) (typ : ℕ) → rtattr_from ne (length b + 1) b typ ≡ some (rtattr ne b typ)
  unfolding rtattr
  rtattr_terminates b typ =
      let r = rtattr_from-Returns (length b + 1) b typ (omega arith) in rw r.1 refl

  handle-Adds :
      (typ : ℕ) (msg : List ℕ) (qs : List QdiscStats) → Adds qs (length msg) (handle ne typ msg qs)
  unfolding handle
  handle-Adds typ msg qs =
      if_ind (Adds qs (length msg)) (typ == 3) (λ _. refl)
        (λ _.
          if_ind (Adds qs (length msg)) (typ == 2)
            (λ _.
              if_ind (Adds qs (length msg)) (leb 4 (length msg) && not (uint32 msg == 0))
                (λ _. refl) (λ _. omega arith))
            (λ _.
              if_ind (Adds qs (length msg)) (typ == 36)
                (λ _.
                  if_ind (Adds qs (length msg))
                    (leb 20 (length msg) && (uint32 (drop 12 msg) == 4294967295))
                    (λ root. ground (arith, length-append qs (read_qdisc ne msg ∷ [])))
                    (λ _. omega arith))
                (λ _. omega arith)))

  then_next-Bounded :
      {n : ℕ} (k : ℕ) (qs : List QdiscStats) (t : Turn) (last : Bool)
      {next : List QdiscStats → Option Dump}
      → Adds qs k t
      → 36 * length qs + (k + 16) ≤ n
      → ((found : List QdiscStats)
          → 36 * length found ≤ 36 * length qs + (k + 16)
          → Bounded n (next found))
      → Bounded n (then_next t last next)
  unfolding then_next
  then_next-Bounded k qs (returns d) last a b step = (d, refl, omega (arith, ap length a))
  then_next-Bounded k qs (goes_on found) true a b step = (_, refl, omega (arith, a, b))
  then_next-Bounded k qs (goes_on found) false a b step = step found a

  parse_from-Bounded :
      (fuel : ℕ) (b : List ℕ) (qs : List QdiscStats)
      → length b < fuel
      → Bounded (36 * length qs + length b) (parse_from ne fuel b qs)
  unfolding parse_from
  parse_from-Bounded zero b qs h = absurd (omega arith)
  parse_from-Bounded (suc fuel) b qs h =
      let l = uint32 b in
      if_ind (Bounded (36 * length qs + length b)) (ltb (length b) 16) (λ _. (_, refl, omega arith))
        (λ long.
          if_ind (Bounded (36 * length qs + length b)) (ltb l 16 || ltb (length b) l)
            (λ _. (_, refl, omega arith))
            (λ whole.
              then_next-Bounded (length (slice b 16 l)) qs
                (handle ne (uint16 (drop 4 b)) (slice b 16 l) qs) (leb (length b) (align4 l))
                (handle-Adds (uint16 (drop 4 b)) (slice b 16 l) qs)
                (ground (arith, length-slice b 16 l))
                (λ found le.
                  let r =
                    parse_from-Bounded fuel (drop (align4 l) b) found
                      (ground (arith, shorter l l b)) in
                  (r.0, r.1, ground (arith, r.2, le, length-slice b 16 l, shorter l l b)))))

  -- The parser returns on every buffer, and it takes at most one qdisc from 36 bytes.
  pub parse_qdisc_dump_terminates :
      (b : List ℕ) → (d : Dump) × (parse_qdisc_dump ne b ≡ some d) × (36 * length d.qs ≤ length b)
  unfolding parse_qdisc_dump
  parse_qdisc_dump_terminates b =
      let (d, e, le) = parse_from-Bounded (length b + 1) b [] (omega arith) in
      (d, e, omega (arith, le))
