-- ===== src/Scenario/Accepted.antt =====
-- Which scenarios pass the checks, and that their nodes keep off the ghosts' ports.
use topdisc_testbed.Base.{
  ℕ, sym, ◌∙◌, ◌≡◌, ◌≢◌, ◌↔◌, ◌⊎◌, inl, inr, Bool, true, false, not, ◌&&◌, ◌||◌, List, arith, refl,
  if◌then◌else◌, pos, ltb_ℤ, ◌≤ℤ◌, Bool-cases, ltb, ◌+◌, ◌≤◌, [], ◌∷◌,
}
use topdisc_testbed.Scenario.{
  ModelName, Addresses, LegacyBuild, Backend, Config, Checked, ScenarioError, never_dials, ok, err,
  require, then_check, named, is_conn, is_fork, is_simnet, is_local, ghosts_on, ports_meet,
  check_pinned, check_ghosts, check_model, check_addresses, check_build, validate,
}

-- What a scenario that pins ghosts must be. On the local backend the ports from the first node's to the
-- last status port, 10000 above the nodes', keep off 20000 to 29999.
pub record CanPin (c : Config) : Type 0 where
  pub one_source : (c.share.positive ≡ false) ⊎ (c.has_tables ≡ false)
  pub real_backend : c.backend ≢ Backend.simnet
  pub can_pin : (c.legacy_frac.positive ≡ false) ⊎ (c.legacy_build ≡ LegacyBuild.fork)
  pub tables_found : (c.has_tables ≡ false) ⊎ (c.tables_there ≡ true)
  pub ports_apart :
      (c.backend ≢ Backend.local)
      ⊎ ((30_000 ≤ c.base_port) ⊎ (c.base_port + c.nodes + 10_000 ≤ 20_000))

pub record IsAccepted (c : Config) : Type 0 where
  pub known_model : c.search_model ≢ ModelName.other
  pub known_addresses : c.addresses ≢ Addresses.other
  pub has_model : (c.addresses ≢ Addresses.crawl) ⊎ (c.has_topic_model ≡ true)
  pub known_build : c.legacy_build ≢ LegacyBuild.other
  pub share_in_range : (c.share.negative ≡ false) × (c.share.above_half ≡ false)
  pub pool_in_range : pos 0 ≤ℤ c.pool
  pub pinned : ((c.share.positive ≡ false) × (c.has_tables ≡ false)) ⊎ CanPin c
  pub dials : (c.search_model ≡ ModelName.conn) ⊎ (c.conn_model ≡ false)

-- The scenario's name, or the file's if it has none.
abbrev pub IsName : Config → List ℕ → List ℕ → Type 0
IsName c file name = ((c.name ≢ []) × (name ≡ c.name)) ⊎ ((c.name ≡ []) × (name ≡ file))

require-ok :
    (b : Bool) (e : ScenarioError) (rest : Checked (Unit {0}))
    → (require b e rest ≡ ok tt) ↔ ((b ≡ true) × (rest ≡ ok tt))
require-ok true e rest = ((λ h. (refl, h)), (λ h. h.1))
require-ok false e rest = ((λ h. cc), (λ h. cc))

then_check-ok :
    {A : Type 0} (r : Checked (Unit {0})) (next : Checked A) (a : A)
    → (then_check r next ≡ ok a) ↔ ((r ≡ ok tt) × (next ≡ ok a))
then_check-ok (ok _) next a = ((λ h. (refl, h)), (λ h. h.1))
then_check-ok (err e) next a = ((λ h. cc), (λ h. cc))

check_model-ok : (m : ModelName) → (check_model m ≡ ok tt) ↔ (m ≢ ModelName.other)
unfolding check_model
check_model-ok ModelName.conn = ((λ _ e. cc), (λ _. refl))
check_model-ok ModelName.scheduled = ((λ _ e. cc), (λ _. refl))
check_model-ok ModelName.continuous = ((λ _ e. cc), (λ _. refl))
check_model-ok ModelName.other = ((λ h. cc), (λ h. absurd (h refl)))

check_addresses-ok :
    (a : Addresses) (has : Bool)
    → (check_addresses a has ≡ ok tt)
      ↔ ((a ≢ Addresses.other) × ((a ≢ Addresses.crawl) ⊎ (has ≡ true)))
unfolding check_addresses
check_addresses-ok Addresses.unset has = ((λ _. ((λ e. cc), inl (λ e. cc))), (λ _. refl))
check_addresses-ok Addresses.index has = ((λ _. ((λ e. cc), inl (λ e. cc))), (λ _. refl))
check_addresses-ok Addresses.crawl true = ((λ _. ((λ e. cc), inr refl)), (λ _. refl))
check_addresses-ok Addresses.crawl false =
    ((λ h. cc), (λ h. elim h.1 [ inl n ↦ absurd (n refl) | inr e ↦ cc ]))
check_addresses-ok Addresses.other has = ((λ h. cc), (λ h. absurd (h.0 refl)))

check_build-ok : (b : LegacyBuild) → (check_build b ≡ ok tt) ↔ (b ≢ LegacyBuild.other)
unfolding check_build
check_build-ok LegacyBuild.unset = ((λ _ e. cc), (λ _. refl))
check_build-ok LegacyBuild.stock = ((λ _ e. cc), (λ _. refl))
check_build-ok LegacyBuild.fork = ((λ _ e. cc), (λ _. refl))
check_build-ok LegacyBuild.other = ((λ h. cc), (λ h. absurd (h refl)))

simnet-false : (b : Backend) → (not (is_simnet b) ≡ true) ↔ (b ≢ Backend.simnet)
simnet-false Backend.simnet = ((λ h. cc), (λ h. absurd (h refl)))
simnet-false Backend.local = ((λ _ e. cc), (λ _. refl))
simnet-false Backend.other = ((λ _ e. cc), (λ _. refl))

fork-true : (b : LegacyBuild) → (is_fork b ≡ true) ↔ (b ≡ LegacyBuild.fork)
fork-true LegacyBuild.unset = ((λ h. cc), (λ h. cc))
fork-true LegacyBuild.stock = ((λ h. cc), (λ h. cc))
fork-true LegacyBuild.fork = ((λ _. refl), (λ _. refl))
fork-true LegacyBuild.other = ((λ h. cc), (λ h. cc))

conn-true : (m : ModelName) → (is_conn m ≡ true) ↔ (m ≡ ModelName.conn)
conn-true ModelName.conn = ((λ _. refl), (λ _. refl))
conn-true ModelName.scheduled = ((λ h. cc), (λ h. cc))
conn-true ModelName.continuous = ((λ h. cc), (λ h. cc))
conn-true ModelName.other = ((λ h. cc), (λ h. cc))

dialing :
    (m : ModelName) (on : Bool)
    → ((is_conn m || not on) ≡ true) ↔ ((m ≡ ModelName.conn) ⊎ (on ≡ false))
dialing m true = (
  (λ h. inl ((conn-true m).0 (ground (arith, h)))),
  (λ h. elim h [ inl e ↦ ground (arith, (conn-true m).1 e) | inr e ↦ cc ]),
)
dialing m false = ((λ _. inr refl), (λ _. ground arith))

either : (a b : Bool) → (not (a && b) ≡ true) ↔ ((a ≡ false) ⊎ (b ≡ false))
either true b = ((λ h. inr (ground arith)), (λ h. ground arith))
either false b = ((λ _. inl refl), (λ _. refl))

implied : (a b : Bool) → ((not a || b) ≡ true) ↔ ((a ≡ false) ⊎ (b ≡ true))
implied true b = ((λ h. inr h), (λ h. ground arith))
implied false b = ((λ _. inl refl), (λ _. refl))

ports-apart :
    (b : Backend) (base n : ℕ)
    → ((is_local b && (ltb base 30_000 && ltb 20_000 (base + n + 10_000))) ≡ false)
      ↔ ((b ≢ Backend.local) ⊎ ((30_000 ≤ base) ⊎ (base + n + 10_000 ≤ 20_000)))
ports-apart Backend.simnet base n = ((λ _. inl (λ e. cc)), (λ _. refl))
ports-apart Backend.other base n = ((λ _. inl (λ e. cc)), (λ _. refl))
ports-apart Backend.local base n = (
  (λ h. elim (Bool-cases (ltb base 30_000)) [
    | inl e ↦ inr (inr (ground arith))
    | inr e ↦ inr (inl (ground arith))
  ]),
  (λ h. elim h [
    | inl ne ↦ absurd (ne refl)
    | inr (inl le) ↦ ground arith
    | inr (inr le) ↦ ground arith
  ]),
)

named-IsName :
    (c : Config) (xs file name : List ℕ)
    → c.name ≡ xs
    → (ok (named xs file) ≡ ok name) ↔ IsName c file name
named-IsName c [] file name e =
    ((λ h. inr (e, cc)), (λ h. elim h [ inl n ↦ absurd (n.0 e) | inr n ↦ cc (n.1) ]))
named-IsName c (x ∷ xs) file name e =
    ((λ h. inl ((λ n. cc), cc)), (λ h. elim h [ inl n ↦ cc (n.1) | inr n ↦ cc (n.0) ]))

ghosts_off :
    (c : Config) → (ghosts_on c ≡ false) ↔ ((c.share.positive ≡ false) × (c.has_tables ≡ false))
unfolding ghosts_on
ghosts_off c = ((λ h. (ground arith, ground arith)), (λ h. ground (arith, h.0, h.1)))

check_pinned-ok : (c : Config) → (check_pinned c ≡ ok tt) ↔ CanPin c
unfolding check_pinned ports_meet
check_pinned-ok c = (
  (λ h.
      let a : (not (c.share.positive && c.has_tables) ≡ true) × _ = (require-ok _ _ _).0 h in
      let b : (not (is_simnet c.backend) ≡ true) × _ = (require-ok _ _ _).0 a.1 in
      let d : (not (c.legacy_frac.positive && not (is_fork c.legacy_build)) ≡ true) × _ =
        (require-ok _ _ _).0 b.1 in
      let e : ((not c.has_tables || c.tables_there) ≡ true) × _ = (require-ok _ _ _).0 d.1 in
      let f : (not (ports_meet c) ≡ true) × _ = (require-ok _ _ _).0 e.1 in
      record {
        one_source = (either c.share.positive c.has_tables).0 a.0;
        real_backend = (simnet-false c.backend).0 b.0;
        can_pin = elim ((either c.legacy_frac.positive (not (is_fork c.legacy_build))).0 d.0) [
          | inl n ↦ inl n
          | inr n ↦ inr ((fork-true c.legacy_build).0 (ground arith))
        ];
        tables_found = (implied c.has_tables c.tables_there).0 e.0;
        ports_apart = (ports-apart c.backend c.base_port c.nodes).0 (ground (arith, f.0));
      }),
  (λ p. (require-ok _ _ _).1 (
    (either c.share.positive c.has_tables).1 p.one_source,
    (require-ok _ _ _).1 (
      (simnet-false c.backend).1 p.real_backend,
      (require-ok _ _ _).1 (
        (either c.legacy_frac.positive (not (is_fork c.legacy_build))).1 (elim p.can_pin [
          | inl n ↦ inl n
          | inr n ↦ inr (ground (arith, (fork-true c.legacy_build).1 n))
        ]),
        (require-ok _ _ _).1 (
          (implied c.has_tables c.tables_there).1 p.tables_found,
          (require-ok _ _ _).1
              (ground (arith, (ports-apart c.backend c.base_port c.nodes).1 p.ports_apart), refl),
        ),
      ),
    ),
  )),
)

check_ghosts-ok :
    (c : Config)
    → (check_ghosts c ≡ ok tt) ↔ (
        (c.share.negative ≡ false)
        × (c.share.above_half ≡ false)
        × (pos 0 ≤ℤ c.pool)
        × (((c.share.positive ≡ false) × (c.has_tables ≡ false)) ⊎ CanPin c))
unfolding check_ghosts
check_ghosts-ok c = (
  (λ h.
      let a : (not (c.share.negative || c.share.above_half) ≡ true) × _ = (require-ok _ _ _).0 h in
      let b : (not (ltb_ℤ c.pool (pos 0)) ≡ true) × _ = (require-ok _ _ _).0 a.1 in
      (
        ground (arith, a.0),
        ground (arith, a.0),
        ground (arith, b.0),
        pinned (Bool-cases (ghosts_on c)) b.1,
      )),
  (λ h. (require-ok (not (c.share.negative || c.share.above_half)) _ _).1 (
    ground (arith, h.0, h.1),
    (require-ok (not (ltb_ℤ c.pool (pos 0))) _ _).1
        (ground (arith, h.2), passed (Bool-cases (ghosts_on c)) h.3),
  )),
)
  where
    pinned :
        (ghosts_on c ≡ true) ⊎ (ghosts_on c ≡ false)
        → (if ghosts_on c then check_pinned c else ok tt) ≡ ok tt
        → ((c.share.positive ≡ false) × (c.has_tables ≡ false)) ⊎ CanPin c
    pinned (inr off) h = inl ((ghosts_off c).0 off)
    pinned (inl on) h = inr ((check_pinned-ok c).0 (sym (rw on refl) ∙ h))

    passed :
        (ghosts_on c ≡ true) ⊎ (ghosts_on c ≡ false)
        → ((c.share.positive ≡ false) × (c.has_tables ≡ false)) ⊎ CanPin c
        → (if ghosts_on c then check_pinned c else ok tt) ≡ ok tt
    passed (inr off) h = rw off refl
    passed (inl on) (inl off) = absurd (ground (arith, on, (ghosts_off c).1 off))
    passed (inl on) (inr p) = rw on ((check_pinned-ok c).1 p)

-- `validate` accepts a scenario exactly when the search model, the addresses and the older build are
-- among the known words; addresses from the crawl come with a topic model; the ghosts' share is in
-- 0..0.5 and their pool not negative; ghosts, if there are any, come from one source that is there,
-- on a backend and with a build that can pin them, and on the local backend the nodes' ports keep off
-- theirs; and the connection model is on only with searches that dial. What it returns then is exactly
-- the scenario's name, or the file's if it has none.
pub validate-ok_iff :
    (c : Config) (file name : List ℕ)
    → (validate c file ≡ ok name) ↔ (IsAccepted c × IsName c file name)
unfolding validate
validate-ok_iff c file name = (
  (λ h.
      let a : (check_model c.search_model ≡ ok tt) × _ = (then_check-ok _ _ _).0 h in
      let b : (check_addresses c.addresses c.has_topic_model ≡ ok tt) × _ =
        (then_check-ok _ _ _).0 a.1 in
      let d : (check_build c.legacy_build ≡ ok tt) × _ = (then_check-ok _ _ _).0 b.1 in
      let e : (check_ghosts c ≡ ok tt) × _ = (then_check-ok _ _ _).0 d.1 in
      let f : (require (is_conn c.search_model || not c.conn_model) never_dials (ok tt) ≡ ok tt)
          × (ok (named c.name file) ≡ ok name) =
        (then_check-ok _ _ _).0 e.1 in
      let adr : (c.addresses ≢ Addresses.other) × _ =
        (check_addresses-ok c.addresses c.has_topic_model).0 b.0 in
      let (low, high, pool, ghosts) = (check_ghosts-ok c).0 e.0 in
      (
        record {
          known_model = (check_model-ok c.search_model).0 a.0;
          known_addresses = adr.0;
          has_model = adr.1;
          known_build = (check_build-ok c.legacy_build).0 d.0;
          share_in_range = (low, high);
          pool_in_range = pool;
          pinned = ghosts;
          dials = (dialing c.search_model c.conn_model).0 ((require-ok _ _ _).0 f.0).0;
        },
        (named-IsName c c.name file name refl).0 f.1,
      )),
  (λ (v, called). (then_check-ok _ _ _).1 (
    (check_model-ok c.search_model).1 v.known_model,
    (then_check-ok _ _ _).1 (
      (check_addresses-ok c.addresses c.has_topic_model).1 (v.known_addresses, v.has_model),
      (then_check-ok _ _ _).1 (
        (check_build-ok c.legacy_build).1 v.known_build,
        (then_check-ok _ _ _).1 (
          (check_ghosts-ok c).1 (v.share_in_range.0, v.share_in_range.1, v.pool_in_range, v.pinned),
          (then_check-ok _ _ _).1 (
            (require-ok _ _ _).1 ((dialing c.search_model c.conn_model).1 v.dials, refl),
            (named-IsName c c.name file name refl).1 called,
          ),
        ),
      ),
    ),
  )),
)
