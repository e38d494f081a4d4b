-- ===== src/Addr/Pools.antt =====
-- Every node of a drawn pool has an address of its own.
use topdisc_testbed.Base.{
  ℕ, ◌+◌, ◌≡◌, ◌≢◌, ◌≤◌, ◌<◌, refl, List, [], ◌∷◌, ◌++◌, if◌then◌else◌, ◌==◌, length, arith,
  find_or, find_or-adjust, sum_values, sum_values-adjust, length-append,
}
use topdisc_testbed.Addr.{Entry, Pool, address, claim, entry_for}

-- the entries of one prefix
pub nodes_in : ℕ → List Entry → ℕ
nodes_in pre [] = 0
nodes_in pre (e ∷ es) = (if e.prefix == pre then 1 else 0) + nodes_in pre es

-- An entry fits a pool: its address lies in its /24, and its host octet is one that is handed out.
pub record Fits (used : List (ℕ × ℕ)) (e : Entry) : Type 0 where
  pub octets : e.ip ≡ address e.prefix e.ip.d
  pub first_host : 1 ≤ e.ip.d
  pub last_host : e.ip.d ≤ find_or 0 e.prefix used
  pub real_prefix : e.prefix ≢ 0

abbrev pub AllFit : List (ℕ × ℕ) → List Entry → Type 0
AllFit used [] = Unit
AllFit used (e ∷ es) = Fits used e × AllFit used es

-- No other entry of the list has the entry's prefix and host octet.
abbrev pub Apart : Entry → List Entry → Type 0
Apart e [] = Unit
Apart e (f ∷ fs) = (e.prefix ≡ f.prefix → e.ip.d ≢ f.ip.d) × Apart e fs

abbrev pub AllApart : List Entry → Type 0
AllApart [] = Unit
AllApart (e ∷ es) = Apart e es × AllApart es

pub record IsValid (p : Pool) : Type 0 where
  pub fits : AllFit p.used p.entries
  pub apart : AllApart p.entries
  pub limit : (pre : ℕ) → find_or 0 pre p.used ≤ 254
  pub counts : (pre : ℕ) → find_or 0 pre p.used ≡ nodes_in pre p.entries
  pub total : sum_values (λ n. n) p.used ≡ length p.entries

find_or-claim :
    (pre q : ℕ) (used : List (ℕ × ℕ))
    → find_or 0 q (claim pre used) ≡ find_or 0 q used + (if pre == q then 1 else 0)
find_or-claim pre q used = ground (arith, find_or-adjust 0 (λ (n : ℕ). n + 1) pre q used)

AllFit-claim :
    (pre : ℕ) (used : List (ℕ × ℕ)) (es : List Entry) → AllFit used es → AllFit (claim pre used) es
AllFit-claim pre used [] h = tt
AllFit-claim pre used (e ∷ es) h = (
  record {
    octets = h.0.octets;
    first_host = h.0.first_host;
    last_host = ground (arith, h.0.last_host, find_or-claim pre e.prefix used);
    real_prefix = h.0.real_prefix;
  },
  AllFit-claim pre used es h.1,
)

AllFit-snoc :
    (used : List (ℕ × ℕ)) (es : List Entry) (e : Entry)
    → AllFit used es
    → Fits used e
    → AllFit used (es ++ e ∷ [])
AllFit-snoc used [] e h new = (new, tt)
AllFit-snoc used (f ∷ fs) e h new = (h.0, AllFit-snoc used fs e h.1 new)

Apart-snoc :
    (f : Entry) (es : List Entry) (e : Entry)
    → Apart f es
    → (f.prefix ≡ e.prefix → f.ip.d ≢ e.ip.d)
    → Apart f (es ++ e ∷ [])
Apart-snoc f [] e h new = (new, tt)
Apart-snoc f (g ∷ gs) e h new = (h.0, Apart-snoc f gs e h.1 new)

-- A host octet past those handed out is nobody's.
AllApart-snoc :
    (used : List (ℕ × ℕ)) (es : List Entry) (e : Entry)
    → AllFit used es
    → find_or 0 e.prefix used < e.ip.d
    → AllApart es
    → AllApart (es ++ e ∷ [])
AllApart-snoc used [] e fit new h = (tt, tt)
AllApart-snoc used (f ∷ fs) e fit new h = (
  Apart-snoc f fs e h.0 (λ p q. ground (arith, fit.0.last_host)),
  AllApart-snoc used fs e fit.1 new h.1,
)

nodes_in-snoc :
    (pre : ℕ) (es : List Entry) (e : Entry)
    → nodes_in pre (es ++ e ∷ []) ≡ nodes_in pre es + (if e.prefix == pre then 1 else 0)
unfolding nodes_in
nodes_in-snoc pre [] e = ground arith
nodes_in-snoc pre (f ∷ fs) e = omega (arith, nodes_in-snoc pre fs e)

-- A free prefix taken for one node more.
pub claim-IsValid :
    (p : Pool) (pre : ℕ)
    → IsValid p
    → pre ≢ 0
    → find_or 0 pre p.used < 254
    → IsValid (record { entries = p.entries ++ entry_for pre p.used ∷ []; used = claim pre p.used })
claim-IsValid p pre v real free = record {
  fits =
      AllFit-snoc (claim pre p.used) p.entries (entry_for pre p.used)
        (AllFit-claim pre p.used p.entries v.fits)
        (record {
          octets = ground arith;
          first_host = omega arith;
          last_host = ground (arith, find_or-claim pre pre p.used);
          real_prefix = real;
        });
  apart = AllApart-snoc p.used p.entries (entry_for pre p.used) v.fits (omega arith) v.apart;
  limit = λ q. ground (arith, v.limit q, find_or-claim pre q p.used);
  counts = λ q. omega (
    arith,
    v.counts q,
    find_or-claim pre q p.used,
    nodes_in-snoc q p.entries (entry_for pre p.used),
  );
  total = omega (
    arith,
    v.total,
    length-append p.entries (entry_for pre p.used ∷ []),
    sum_values-adjust (λ n. n) 0 (λ n. n + 1) 1 pre p.used refl (λ n. refl),
  );
}

pub empty-IsValid : IsValid (record { entries = []; used = [] })
unfolding find_or nodes_in sum_values
empty-IsValid = record {
  fits = tt;
  apart = tt;
  limit = λ pre. omega arith;
  counts = λ pre. refl;
  total = refl;
}
