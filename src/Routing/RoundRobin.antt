-- ===== src/Routing/RoundRobin.antt =====
-- Edge/Entries/entryroundrobin.{h,cpp}: an active set of the destinations with small weights; a call
-- takes the one with the smallest deficit, and adds its weight to the deficit. A time that is
-- negative in the source, for `never`, is `none`. An iterator of the queue is the name of its
-- element of the cache, and a read through the iterator of an erased element is `undefined`.
pub mod ActiveSet
pub mod Merging
pub mod Kept
pub mod Updates
pub mod Weights
pub mod Selection
pub mod Contract
pub mod Removal
use serverlessonedge.Prelude.{
  ℕ, String, Bool, true, false, not, ◌||◌, ◌&&◌, Option, none, some, List, [], ◌∷◌, length, ◌==◌,
  if◌then◌else◌, Outcome, ok, throws, undefined, ◌>>=◌, no_destinations,
}
use serverlessonedge.Prelude.Map.{Map, find, insert, map_values}
use serverlessonedge.Prelude.Float.{Float}
use serverlessonedge.Routing.Entry.{Element, Policy}

pub record CacheElement (W : Type 0) : Type 0 where
  pub weight : W
  pub last_updated : Option W
  pub removed : Bool
  pub deficit : W
  pub stale_period : W
  pub probing : Bool

pub record RoundRobin (W : Type 0) : Type 0 where
  pub cache : Map (CacheElement W)
  pub queue : List String

module _ {W : Type 0} where
  -- An element that is to vanish, unless it is met again.
  abbrev pub mark : CacheElement W → CacheElement W
  mark e = record e { removed = true }

  -- `operator<` of `QueueElement`, on elements with the deficits that they refer to: the queue has
  -- its greatest element on top, so the order is turned around.
  abbrev pub queue_less : Float W → String × W → String × W → Bool
  queue_less d a b = d.lt b.1 a.1

  -- The elements of the queue with the deficits that they refer to.
  unfoldable pub deficits : Map (CacheElement W) → List String → Outcome (List (String × W))
  deficits cache [] = ok []
  deficits cache (q ∷ qs) = elim (find q cache) [
    | none ↦ undefined
    | some e ↦ deficits cache qs >>= λ rest. ok ((q, e.deficit) ∷ rest)
  ]

  -- The weights that `updateStat` counts.
  unfoldable pub weights : Map (CacheElement W) → List W
  weights [] = []
  weights ((k, e) ∷ m) = let rest = weights m in if e.removed then rest else e.weight ∷ rest

  -- The loop of `updateList` that removes the vanishing elements.
  unfoldable pub drop_removed : Map (CacheElement W) → Map (CacheElement W)
  drop_removed [] = []
  drop_removed ((k, e) ∷ m) = let rest = drop_removed m in if e.removed then rest else (k, e) ∷ rest

module _ {W : Type 0} (d : Float W) where
  abbrev pub smaller : W → W → W
  smaller a b = if d.lt b a then b else a

  -- The constructor of a cache element.
  abbrev pub new_element : W → W → CacheElement W
  new_element weight deficit = record {
    weight = weight;
    last_updated = none;
    removed = false;
    deficit = deficit;
    stale_period = d.of_nat 1;
    probing = false;
  }

  abbrev pub relieve : W → CacheElement W → CacheElement W
  relieve deficit e = record e { deficit = d.sub e.deficit deficit }

  -- `minDeficit`
  unfoldable pub min_deficit : W → Map (CacheElement W) → List String → Outcome W
  min_deficit best cache [] = ok best
  min_deficit best cache (q ∷ qs) = elim (find q cache) [
    | none ↦ undefined
    | some e ↦ min_deficit (smaller best e.deficit) cache qs
  ]

  -- The smallest of the weights, of which there is one.
  abbrev pub least_of : W → List W → W
  least_of best [] = best
  least_of best (w ∷ ws) = least_of (smaller best w) ws

  abbrev pub least : List W → W
  least [] = d.nought
  least (w ∷ ws) = least_of w ws

  -- `good`, for the weights counted.
  unfoldable pub good : List W → W → Bool
  good ws weight = length ws == 1 || d.le weight (d.mul (least ws) (d.of_nat 2))

  -- `updateStalePeriod`
  abbrev pub longer : W → W
  longer period = smaller (d.of_nat 30) (d.mul (d.of_nat 2) period)

  -- An element under probing that is not good waits longer.
  abbrev pub backed_off : CacheElement W → CacheElement W
  backed_off e =
      if e.probing then record e { probing = false; stale_period = longer e.stale_period } else e

  -- The body of the loop of `updateActiveSet`: whether the element is active, and its new value.
  unfoldable pub admit : W → W → List W → CacheElement W → Bool × CacheElement W
  unfolding good
  admit now deficit ws e =
      if good ws e.weight
      then (
        true,
        (if e.probing then record e { probing = false; stale_period = d.of_nat 1 } else e),
      )
      else (elim e.last_updated [
        | none ↦ (true, e)
        | some t ↦
            if d.le (backed_off e).stale_period (d.sub now t)
            then (
              true,
              record (backed_off e) { last_updated = none; deficit = deficit; probing = true },
            )
            else (false, backed_off e)
      ])

  -- The names of the active elements.
  unfoldable pub active : W → W → List W → Map (CacheElement W) → List String
  unfolding admit
  active now deficit ws [] = []
  active now deficit ws ((k, e) ∷ m) =
      let rest = active now deficit ws m in if (admit now deficit ws e).0 then k ∷ rest else rest

  -- The loop of `updateList` over the destinations.
  unfoldable pub merge : W → List (Element W) → Map (CacheElement W) → Map (CacheElement W)
  merge deficit [] cache = cache
  merge deficit (x ∷ xs) cache = merge deficit xs (
      insert x.destination
        (elim (find x.destination cache) [
          | none ↦ new_element x.weight deficit
          | some e ↦ record e { removed = false; weight = x.weight }
        ])
        cache)

-- `greatest` is the largest `float`.
module _ {W : Type 0} (d : Float W) (greatest : W) where
  -- `updateActiveSet`
  unfoldable pub update_active_set : W → RoundRobin W → Outcome (RoundRobin W)
  unfolding min_deficit active admit weights
  update_active_set now s = do
    deficit ← min_deficit d greatest s.cache s.queue
    ok (record {
      cache = map_values (λ e. (admit d now deficit (weights s.cache) e).1) s.cache;
      queue = active d now deficit (weights s.cache) s.cache;
    })

  -- `updateList`
  unfoldable pub update_list : W → List (Element W) → RoundRobin W → Outcome (RoundRobin W)
  unfolding min_deficit merge drop_removed update_active_set
  update_list now [] s = ok (record { cache = []; queue = [] })
  update_list now (x ∷ xs) s = do
    let marked = map_values mark s.cache
    deficit ← min_deficit d greatest marked s.queue
    update_active_set now (record s { cache = drop_removed (merge d deficit (x ∷ xs) marked) })

  -- `updateWeight`
  unfoldable pub update_weight : W → String → W → RoundRobin W → Outcome (RoundRobin W)
  unfolding min_deficit update_active_set
  update_weight now dest weight s = elim (find dest s.cache) [
    | none ↦ undefined
    | some e ↦ do
      let cache = insert dest (record e { weight = weight; last_updated = some now }) s.cache
      deficit ← min_deficit d greatest cache s.queue
      update_active_set now (record s { cache = map_values (relieve d deficit) cache })
  ]

-- `top` is which element the priority queue has on top, of those given with their deficits.
module _ {W : Type 0} (d : Float W) (top : List (String × W) → String × W) where
  -- The first element of the queue, once it is picked: its weight is charged to it.
  abbrev pub charge : RoundRobin W → String → Outcome (String × RoundRobin W)
  charge s name = elim (find name s.cache) [
    | none ↦ undefined
    | some e ↦ ok (
      name,
      record s { cache = insert name (record e { deficit = d.add e.deficit e.weight }) s.cache },
    )
  ]

  -- The test of an empty queue.
  abbrev pub if_empty {ℓ} : {A : Type ℓ} → List String → A → A → A
  if_empty [] a b = a
  if_empty (q ∷ qs) a b = b

  -- `operator()`
  unfoldable pub select : W → List (Element W) → RoundRobin W → Outcome (String × RoundRobin W)
  unfolding deficits
  select now ds s =
      if_empty s.queue (throws no_destinations)
        (deficits s.cache s.queue >>= λ es. charge s (top es).0)

module _ {W : Type 0} (d : Float W) (top : List (String × W) → String × W) (greatest : W) where
  -- The virtual functions; the environment of a call is the time.
  unfoldable pub round_robin : Policy W W (RoundRobin W)
  unfolding select update_list update_weight
  round_robin = record {
    fresh = record { cache = []; queue = [] };
    select = select d top;
    update_weight = λ now ds dest old weight s. update_weight d greatest now dest weight s;
    update_add_dest = λ now ds dest weight s. update_list d greatest now ds s;
    update_del_dest = λ now ds dest weight s. update_list d greatest now ds s;
  }
