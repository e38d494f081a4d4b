-- ===== src/Addr.antt =====
-- pkg/addr/addr.go: one address for every node, drawn from the churn model's /24 prefixes.
-- `intn i try n` is the draw of `rng.Intn(n)` in that try of node i, whose generator is seeded anew.
pub mod Pools
pub mod Draws
mod Tests
use topdisc_testbed.Base.{
  ℕ, zero, suc, ◌+◌, ◌-◌, ◌*◌, ◌/◌, ◌%◌, ◌^◌, Bool, true, false, Option, none, some, List, [], ◌∷◌,
  ◌++◌, if◌then◌else◌, ltb, leb, ◌==◌, find_or, adjust, sum_values, keys, length, max,
}
use topdisc_testbed.Churn.{Model, draw_prefix, has_addresses}

-- net.IP of four bytes
pub record Ip : Type 0 where
  pub a : ℕ
  pub b : ℕ
  pub c : ℕ
  pub d : ℕ

-- What `ip[i]` and `prefix[i]` hold of a node.
pub record Entry : Type 0 where
  pub ip : Ip
  pub prefix : ℕ

pub record Pool : Type 0 where
  -- by node index
  pub entries : List Entry
  -- how many host octets of a prefix are handed out
  pub used : List (ℕ × ℕ)

pub data Error : Type 0 where
  no_addresses : Error
  no_free_host : (i : ℕ) → Error
  no_prefixes : (topic : ℕ) → Error

pub data Result (A : Type 0) : Type 0 where
  ok : A → Result A
  err : Error → Result A

-- An error returns at once.
infixl 5 ◌>>=◌
abbrev pub ◌>>=◌ : {A B : Type 0} → Result A → (A → Result B) → Result B
ok a >>= f = f a
err e >>= f = err e

abbrev pub byte : ℕ → ℕ
byte n = n % 256

-- net.IP{byte(pre >> 16), byte(pre >> 8), byte(pre), byte(used)}
abbrev pub address : ℕ → ℕ → Ip
address pre k = record { a = byte (pre / 65536); b = byte (pre / 256); c = byte pre; d = byte k }

abbrev pub claim : ℕ → List (ℕ × ℕ) → List (ℕ × ℕ)
claim pre used = adjust 0 (λ n. n + 1) pre used

abbrev pub entry_for : ℕ → List (ℕ × ℕ) → Entry
entry_for pre used = record { ip = address pre (find_or 0 pre used + 1); prefix = pre }

module _ {F : Type 0} where
  -- Node i with `left` tries left, `num_topics` topics, and topic t. The model comes back with its
  -- cache.
  pub draw_node :
      (ℕ → ℕ → ℕ) → ℕ → ℕ → ℕ → ℕ → Model F → List (ℕ × ℕ) → Model F × Result (Entry × List (ℕ × ℕ))
  draw_node intn num_topics i t zero m used = (m, err (no_free_host i))
  draw_node intn num_topics i t (suc left) m used =
      let (m', pre) = draw_prefix m (intn left) t num_topics in
      let again = draw_node intn num_topics i t left m' used in
      if pre == 0
      then (m', err (no_prefixes t))
      else if leb 254 (find_or 0 pre used)
      then again
      else (m', ok (entry_for pre used, claim pre used))

  -- The nodes from i on, `n` of them, after the addresses of those before.
  pub draw_from : (ℕ → ℕ → ℕ → ℕ) → ℕ → (ℕ → ℕ) → ℕ → ℕ → Model F → Pool → Result Pool
  draw_from intn num_topics topic_of zero i m p = ok p
  draw_from intn num_topics topic_of (suc n) i m p =
      let (m', r) = draw_node (intn i) num_topics i (topic_of i) 64 m p.used in
      r >>= λ taken.
      draw_from intn num_topics topic_of n (i + 1) m'
        (record { entries = p.entries ++ taken.0 ∷ []; used = taken.1 })

  pub draw : (ℕ → ℕ → ℕ → ℕ) → ℕ → Option (Model F) → ℕ → (ℕ → ℕ) → Result Pool
  unfolding draw_from
  draw intn n none num_topics topic_of = err no_addresses
  draw intn n (some m) num_topics topic_of =
      if has_addresses m
      then draw_from intn num_topics topic_of n 0 m (record { entries = []; used = [] })
      else err no_addresses

-- The node indices of each /24. `i` is the index of the first entry.
groups_from : ℕ → List Entry → List (ℕ × List ℕ) → List (ℕ × List ℕ)
groups_from i [] g = g
groups_from i (e ∷ es) g = groups_from (i + 1) es (adjust [] (λ l. l ++ i ∷ []) e.prefix g)

pub groups : Pool → List (ℕ × List ℕ)
unfolding groups_from
groups p = groups_from 0 p.entries []

largest_value : List (ℕ × ℕ) → ℕ
largest_value [] = 0
largest_value ((pre, n) ∷ m) = max n (largest_value m)

-- (nodes, prefixes, largest)
pub summary : Pool → ℕ × ℕ × ℕ
unfolding largest_value
summary p = (sum_values (λ n. n) p.used, length p.used, largest_value p.used)
