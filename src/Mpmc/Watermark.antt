-- ===== src/Mpmc/Watermark.antt =====
-- src/mpmc/consumed_watermark.rs: the shared count of the positions that consumers have released, which
-- lags behind, and the pops that a consumer has not added to it yet.
use quetzalcoatl.Common.{ℕ, suc, ◌+◌, ◌-◌, ◌^◌, ◌<◌, ◌≡◌, Option, none, some, List, [], ◌∷◌, arith}
use quetzalcoatl.Common.Tests.{leb, ltb, if◌then◌else◌}
use quetzalcoatl.Common.Words.{add_usize, sub_usize}

pub record ConsumedWatermark : Type 0 where
  pub count : ℕ

abbrev pub fresh : ConsumedWatermark
fresh = record { count = 0 }

unfoldable pub add : ℕ → ConsumedWatermark → ConsumedWatermark
add n w = record { count = add_usize w.count n }

unfoldable pub free : (claim cap : ℕ) → ConsumedWatermark → Option ℕ
free claim cap w =
    let in_flight = sub_usize claim w.count in
    if ltb in_flight cap then some (cap - in_flight) else none

pub record ConsumedTally : Type 0 where
  pub pending : ℕ

abbrev pub no_pops : ConsumedTally
no_pops = record { pending = 0 }

unfoldable pub record_pop :
    (flush_at : ℕ) → ConsumedTally → ConsumedWatermark → ConsumedTally × ConsumedWatermark
record_pop flush_at t w =
    let pending = add_usize t.pending 1 in
    if leb flush_at pending then (no_pops, add pending w) else (record { pending = pending }, w)

unfoldable pub flush : ConsumedTally → ConsumedWatermark → ConsumedTally × ConsumedWatermark
flush t w = if ltb 0 t.pending then (no_pops, add t.pending w) else (t, w)

-- What one consumer does to its tally: a pop, or the flush of its drop.
pub data Event : Type 0 where
  popped flushed : Event

unfoldable pub tallied :
    (flush_at : ℕ)
    → List Event
    → ConsumedTally
    → ConsumedWatermark
    → ConsumedTally × ConsumedWatermark
tallied flush_at [] t w = (t, w)
tallied flush_at (popped ∷ es) t w =
    let (t', w') = record_pop flush_at t w in tallied flush_at es t' w'
tallied flush_at (flushed ∷ es) t w = let (t', w') = flush t w in tallied flush_at es t' w'

abbrev pub pops : List Event → ℕ
pops [] = 0
pops (popped ∷ es) = suc (pops es)
pops (flushed ∷ es) = pops es

record_pop-total :
    (flush_at : ℕ) (t : ConsumedTally) (w : ConsumedWatermark)
    → t.pending < flush_at
    → t.pending + w.count + 1 < 2 ^ 64
    → let (t', w') = record_pop flush_at t w in
      (t'.pending + w'.count ≡ t.pending + w.count + 1) × (t'.pending < flush_at)
unfolding record_pop add
record_pop-total flush_at t w lag small = ground arith

flush-total :
    (flush_at : ℕ) (t : ConsumedTally) (w : ConsumedWatermark)
    → t.pending < flush_at
    → t.pending + w.count < 2 ^ 64
    → let (t', w') = flush t w in
      (t'.pending + w'.count ≡ t.pending + w.count) × (t'.pending < flush_at)
unfolding flush add
flush-total flush_at t w lag small = ground arith

-- The watermark and the pops not added to it yet are together the pops of the consumer, none of them twice
-- and none forgotten, and the watermark lags by less than the flush interval, while fewer than `2 ^ 64`
-- pops are counted.
pub tallied-pops :
    (flush_at : ℕ) (es : List Event) (t : ConsumedTally) (w : ConsumedWatermark)
    → t.pending < flush_at
    → t.pending + w.count + pops es < 2 ^ 64
    → let (t', w') = tallied flush_at es t w in
      (t'.pending + w'.count ≡ t.pending + w.count + pops es) × (t'.pending < flush_at)
unfolding tallied
tallied-pops flush_at [] t w lag small = (omega arith, lag)
tallied-pops flush_at (popped ∷ es) t w lag small =
    let (total, lag') = record_pop-total flush_at t w lag (omega arith) in
    let (sum, end) =
      tallied-pops flush_at es (record_pop flush_at t w).0 (record_pop flush_at t w).1 lag'
        (omega (arith, total)) in
    (omega (arith, sum, total), end)
tallied-pops flush_at (flushed ∷ es) t w lag small =
    let (total, lag') = flush-total flush_at t w lag (omega arith) in
    let (sum, end) =
      tallied-pops flush_at es (flush t w).0 (flush t w).1 lag' (omega (arith, total)) in
    (omega (arith, sum, total), end)
