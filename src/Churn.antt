-- ===== src/Churn.antt =====
-- pkg/churn/model.go: the fitted churn model, which topic's fit a node follows, and the /24
-- prefixes that it draws from. `F` stands for float64.
pub mod Prefixes
pub mod Schedule
mod Planned
mod Tests
use Prim.Native.String.{String}
use text.Mathlib.Text.{◌==◌ as str_eq}
use topdisc_testbed.Base.{
  ℕ, zero, suc, ◌+◌, ◌-◌, Bool, true, false, not, ◌&&◌, ◌||◌, Option, none, some, List, [], ◌∷◌,
  ◌++◌, if◌then◌else◌, ltb, leb, ◌==◌, length, get_or, get_elem?, drop, or_else,
}

-- The informational rates and the name are left out.
pub record Topic (F : Type 0) : Type 0 where
  pub id : String
  pub share : F
  pub initial_up : F
  pub always_on : F
  pub leave_forever : F
  pub km : List (F × F)
  pub km_return : List (F × F)
  pub gap_cdf : List (F × F)
  -- one entry per node, a<<16|b<<8|c
  pub prefixes : List ℕ

pub record Model (F : Type 0) : Type 0 where
  pub cadence : F
  pub hours : F
  pub global : Topic F
  -- descending share
  pub topics : List (Topic F)
  -- DrawPrefix's pool for the folded tail topic; the empty list is nil
  pub tail : List ℕ
  pub tail_k : ℕ

module _ {F : Type 0} where
  unfoldable pub has_addresses : Model F → Bool
  has_addresses m = ltb 0 (length m.global.prefixes)

  -- `m.Topics[i]`, the global fit where there is none
  pub topic : Model F → ℕ → Topic F
  topic m i = get_or m.topics i m.global

  -- The first topic with the id "other".
  pub find_other : List (Topic F) → Option (Topic F)
  find_other [] = none
  find_other (t ∷ ts) = if str_eq t.id "other" then some t else find_other ts

  -- k > 0 && k < len(m.Topics) && i == k-1
  abbrev pub is_tail : Model F → ℕ → ℕ → Bool
  is_tail m i k = ltb 0 k && ltb k (length m.topics) && ((i + 1) == k)

  pub topic_for : Model F → ℕ → ℕ → Topic F
  unfolding find_other topic
  topic_for m i k = if is_tail m i k then or_else (find_other m.topics) m.global else topic m i

  pub all_prefixes : List (Topic F) → List ℕ
  all_prefixes [] = []
  all_prefixes (t ∷ ts) = t.prefixes ++ all_prefixes ts

  -- the rebuilding of the tail's pool where the cached one is for another k
  unfoldable pub with_tail : Model F → ℕ → Model F
  unfolding all_prefixes
  with_tail m k =
      if (length m.tail == 0) || not (m.tail_k == k)
      then record m { tail = all_prefixes (drop (k - 1) m.topics); tail_k = k }
      else m

  -- the list drawn from if the topic's own is empty
  abbrev pub or_global : Model F → List ℕ → List ℕ
  or_global m [] = m.global.prefixes
  or_global m (p ∷ ps) = p ∷ ps

  -- the pool that DrawPrefix draws from, and the model with its cache
  unfoldable pub draw_pool : Model F → ℕ → ℕ → Model F × List ℕ
  unfolding with_tail
  draw_pool m i k =
      if is_tail m i k
      then (with_tail m k, or_global m (with_tail m k).tail)
      else if ltb i (length m.topics)
      then (m, or_global m (get_or m.topics i m.global).prefixes)
      else (m, m.global.prefixes)

  -- `intn n` is the draw of `rng.Intn(n)`. Zero stands for no prefix.
  unfoldable pub draw_prefix : Model F → (ℕ → ℕ) → ℕ → ℕ → Model F × ℕ
  unfolding draw_pool
  draw_prefix m intn i k =
      let (m', pool) = draw_pool m i k in
      (m', (if length pool == 0 then 0 else get_or pool (intn (length pool)) 0))
