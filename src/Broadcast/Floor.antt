-- ===== src/Broadcast/Floor.antt =====
-- src/broadcast/consumer_floor.rs and floor_cache.rs: the position that every consumer has passed, and the
-- two caches of it.
use quetzalcoatl.Common.{ℕ, ◌-◌, ◌≤◌, ◌≡◌, refl, Bool, true, false, ◌||◌, arith}
use quetzalcoatl.Common.Tests.{leb, ltb, if◌then◌else◌}

pub data ConsumerFloor : Type 0 where
  no_consumers : ConsumerFloor
  at : ℕ → ConsumerFloor

unfoldable pub permits : ConsumerFloor → (pos cap : ℕ) → Bool
permits no_consumers pos cap = false
permits (at head) pos cap = leb pos head || ltb (pos - head) cap

unfoldable pub position_or_tail : ConsumerFloor → (tail : ℕ) → ℕ
position_or_tail no_consumers tail = tail
position_or_tail (at head) tail = head

pub record SharedFloor : Type 0 where
  pub head : ℕ

abbrev pub shared_fresh : SharedFloor
shared_fresh = record { head = 0 }

-- `fetch_max`.
unfoldable pub publish : ℕ → SharedFloor → SharedFloor
publish head s = record { head = if leb s.head head then head else s.head }

pub record FloorCache : Type 0 where
  pub private_ : ℕ

abbrev pub fresh : FloorCache
fresh = record { private_ = 0 }

abbrev pub cached : FloorCache → ConsumerFloor
cached c = at c.private_

-- `refresh`, with the floor that the scan answers: what the two caches then hold, and the floor.
unfoldable pub refresh :
    FloorCache → SharedFloor → ConsumerFloor → FloorCache × SharedFloor × ConsumerFloor
refresh c s no_consumers = (c, s, no_consumers)
refresh c s (at head) = (record { private_ = head }, publish head s, at head)

-- `FloorCache::permits`, with the floor that a scan answers; a scan changes nothing.
unfoldable pub cache_permits :
    FloorCache
    → (pos cap : ℕ) → (any_subscribed : Bool) → SharedFloor
    → (scan : ConsumerFloor) → Bool × FloorCache × SharedFloor
cache_permits c pos cap true s scan =
    let (c', s', floor) = refresh (record { private_ = s.head }) s scan in
    if permits (cached c) pos cap
    then (true, c, s)
    else (if permits (at s.head) pos cap
        then (true, record { private_ = s.head }, s)
        else (permits floor pos cap, c', s'))
cache_permits c pos cap false s scan =
    let (c', s', floor) = refresh c s scan in (permits floor pos cap, c', s')

-- Where the caches are not ahead of the floor that a scan would answer, the answer from the caches is the
-- one that the scan would give, and the caches are not ahead of it afterwards.
pub cache_permits-permits :
    (c : FloorCache) (s : SharedFloor) (any_subscribed : Bool) (pos cap head : ℕ)
    → c.private_ ≤ head
    → s.head ≤ head
    → let (answer, c', s') = cache_permits c pos cap any_subscribed s (at head) in
      (answer ≡ permits (at head) pos cap) × (c'.private_ ≤ head) × (s'.head ≤ head)
unfolding cache_permits permits refresh publish
cache_permits-permits c s true pos cap head old old' = (ground arith, ground arith, ground arith)
cache_permits-permits c s false pos cap head old old' = (refl, omega arith, ground arith)
