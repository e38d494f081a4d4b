-- ===== src/Placement/Regions.antt =====
-- cloud.go: `place` for an inventory with regions, and no crawl addresses.
use topdisc_testbed.Base.{
  ℕ, zero, suc, ◌+◌, Bool, true, false, Option, none, some, List, [], ◌∷◌, ◌++◌, if◌then◌else◌,
  ◌==◌, update, has, or_else, ltb, find_or, adjust, keys,
}

-- A machine of the inventory: its region, with 0 for the empty one, and the nodes that it runs.
pub record Host : Type 0 where
  pub region : ℕ
  pub nodes : ℕ

-- `slot{host, k}`
abbrev pub Slot : Type 0
Slot = ℕ × ℕ

pub record Spread : Type 0 where
  pub free : List (ℕ × List Slot)
  pub host_of : ℕ → ℕ
  pub local : ℕ → ℕ

pub data PlaceError : Type 0 where
  no_free_instance : (idx region : ℕ) → PlaceError
  too_few_instances : PlaceError

-- An empty inventory is an index out of range, and so may be a scenario without nodes.
pub data Placed : Type 0 where
  panicked : Placed
  placed : Spread → Placed
  failed : PlaceError → Placed

abbrev pub slots : List (ℕ × List Slot) → ℕ → List Slot
slots free region = find_or [] region free

-- `free[region] = append(free[region], slot{h, k})` for the k from `from` on.
unfoldable pub add_slots : ℕ → ℕ → ℕ → ℕ → List (ℕ × List Slot) → List (ℕ × List Slot)
add_slots zero from region h free = free
add_slots (suc left) from region h free =
    add_slots left (from + 1) region h (adjust [] (λ s. s ++ ((h, from) ∷ [])) region free)

-- `free` and `order`, with the machines from number h on.
unfoldable pub free_slots : ℕ → List Host → List (ℕ × List Slot) → List (ℕ × List Slot)
free_slots h [] free = free
free_slots h (host ∷ hosts) free =
    free_slots (h + 1) hosts (add_slots host.nodes 0 host.region h free)

unfoldable pub region_order : ℕ → List Host → List (ℕ × List Slot) → List ℕ
region_order h [] free = []
region_order h (host ∷ hosts) free =
    let rest = region_order (h + 1) hosts (add_slots host.nodes 0 host.region h free) in
    if has (keys free) host.region then rest else host.region ∷ rest

-- `take(region)`, and the slot to node idx.
unfoldable pub take_slot : Spread → ℕ → List Slot → ℕ → Option Spread
take_slot p region [] idx = none
take_slot p region ((h, k) ∷ rest) idx = some (record {
  free = adjust [] (λ _. rest) region p.free;
  host_of = update p.host_of idx h;
  local = update p.local idx k;
})

unfoldable pub take : Spread → ℕ → ℕ → Option Spread
take p region idx = take_slot p region (slots p.free region) idx

unfoldable pub or_fail : PlaceError → Option Spread → (Spread → Placed) → Placed
or_fail e none next = failed e
or_fail e (some p) next = next p

-- The loop over `pinned`, in the order of its range.
unfoldable pub place_pinned : List (ℕ × ℕ) → Spread → (Spread → Placed) → Placed
place_pinned [] p next = next p
place_pinned ((idx, region) ∷ pins) p next =
    or_fail (no_free_instance idx region) (take p region idx) (λ q. place_pinned pins q next)

-- `sort.SliceStable(order, …)`: the home region to the front.
unfoldable pub home_first : ℕ → List ℕ → List ℕ → List ℕ
home_first home [] others = others
home_first home (r ∷ order) others =
    if r == home
    then r ∷ home_first home order others
    else home_first home order (others ++ (r ∷ []))

unfoldable pub skip_if_empty : List Slot → ℕ → List ℕ → List ℕ → List ℕ
skip_if_empty [] r rs rest = rest
skip_if_empty (s ∷ ss) r rs rest = r ∷ rs

-- `for ri < len(order) && len(free[order[ri]]) == 0 { ri++ }`: `order[ri:]`, before and after.
unfoldable pub advance : List (ℕ × List Slot) → List ℕ → List ℕ
advance free [] = []
advance free (r ∷ rs) = skip_if_empty (slots free r) r rs (advance free rs)

-- `s, _ := take(order[ri])`, or none when no region is left.
unfoldable pub take_next : Spread → List ℕ → ℕ → Option Spread
take_next p [] idx = none
take_next p (r ∷ rs) idx = some (
    or_else (take p r idx)
      (record p { host_of = update p.host_of idx 0; local = update p.local idx 0 }))

-- The loop over the nodes from idx on, n of them left.
unfoldable pub place_rest : ℕ → ℕ → List ℕ → List ℕ → Spread → Placed
place_rest zero idx pinned order p = placed p
place_rest (suc n) idx pinned order p =
    let skipped = place_rest n (idx + 1) pinned order p in
    let order' = advance p.free order in
    if has pinned idx
    then skipped
    else or_fail too_few_instances (take_next p order' idx) (place_rest n (idx + 1) pinned order')

-- `pinned`, from the scenario's list of pinned nodes.
unfoldable pub pinned_below : ℕ → List (ℕ × ℕ) → List (ℕ × ℕ)
pinned_below n [] = []
pinned_below n ((idx, r) ∷ pins) =
    let rest = pinned_below n pins in if ltb idx n then (idx, r) ∷ rest else rest

-- Node 0 is pinned to the home region unless it is pinned or the first machine has no region.
unfoldable pub pin_first : Bool → ℕ → List Host → List (ℕ × ℕ) → Option (List (ℕ × ℕ))
pin_first true home hosts pins = some pins
pin_first false home [] pins = none
pin_first false home (host ∷ hosts) pins =
    some (if host.region == 0 then pins else pins ++ ((0, home) ∷ []))

unfoldable pub pinned_nodes : ℕ → ℕ → List Host → List (ℕ × ℕ) → Option (List (ℕ × ℕ))
pinned_nodes n home hosts node_regions =
    let pins = pinned_below n node_regions in pin_first (has (keys pins) 0) home hosts pins

abbrev pub unplaced : List Host → Spread
unplaced hosts = record { free = free_slots 0 hosts []; host_of = λ _. 0; local = λ _. 0 }

-- The first node is pinned also where there is none, which is an index out of range.
unfoldable pub place_unpinned : ℕ → List (ℕ × ℕ) → List ℕ → Spread → Placed
place_unpinned zero [] order p = placed p
place_unpinned zero (pin ∷ pins) order p = panicked
place_unpinned (suc n) pins order p = place_rest (suc n) 0 (keys pins) order p

unfoldable pub place_with :
    ℕ → List Host → ℕ → Option (List (ℕ × ℕ)) → (List (ℕ × ℕ) → List (ℕ × ℕ)) → Placed
place_with n hosts home none visit = panicked
place_with n hosts home (some pins) visit =
    place_pinned (visit pins) (unplaced hosts)
      (place_unpinned n pins (home_first home (region_order 0 hosts []) []))

-- `visit` is the order in which the range goes over the map of pinned nodes.
unfoldable pub place : ℕ → List Host → ℕ → List (ℕ × ℕ) → (List (ℕ × ℕ) → List (ℕ × ℕ)) → Placed
place n hosts home node_regions visit =
    place_with n hosts home (pinned_nodes n home hosts node_regions) visit
