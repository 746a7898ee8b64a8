-- ===== src/Broadcast/Registry.antt =====
-- src/broadcast/consumer_registry.rs: the seats of the consumers, each with its head. A panic (no seat
-- left, a seat past the end) is `none`.
use quetzalcoatl.Common.{
  ℕ, zero, suc, ◌≤◌, ◌≡◌, refl, sym, ap, subst, Bool, true, false, Option, none, some, List, [],
  ◌∷◌, inl, inr, arith,
}
use quetzalcoatl.Common.Tests.{leb, ◌==◌, if◌then◌else◌, Bool-cases}
use quetzalcoatl.Common.Lists.{length, get_elem?, set, replicate}
use quetzalcoatl.Common.Words.{add_usize}
use quetzalcoatl.Spsc.Ring.{◌>>=◌}
use quetzalcoatl.Broadcast.Floor.{ConsumerFloor, no_consumers, at}

pub record ConsumerSlot : Type 0 where
  pub head : ℕ
  pub active : Bool

abbrev pub vacant : ConsumerSlot
vacant = record { head = 0; active = false }

pub record ConsumerRegistry : Type 0 where
  pub slots : List ConsumerSlot

unfoldable pub new : (seats : ℕ) → Option ConsumerRegistry
new seats = if seats == 0 then none else some (record { slots = replicate seats vacant })

-- A change of the seat `index`.
unfoldable pub update_seat :
    ℕ → (ConsumerSlot → ConsumerSlot) → ConsumerRegistry → Option ConsumerRegistry
update_seat index f g = do
  slot ← get_elem? g.slots index
  some (record { slots = set g.slots index (f slot) })

unfoldable pub subscribe_first : ConsumerRegistry → Option (ℕ × ConsumerRegistry)
subscribe_first g = do
  g' ← update_seat 0 (λ slot. record { head = 0; active = true }) g
  some (0, g')

-- The first seat that nobody has, from the seat `index` on.
unfoldable pub first_vacant : (index : ℕ) → List ConsumerSlot → Option ℕ
first_vacant index [] = none
first_vacant index (slot ∷ rest) =
    let later = first_vacant (suc index) rest in if slot.active then later else some index

unfoldable pub claim : ConsumerRegistry → Option (ℕ × ConsumerRegistry)
claim g = do
  index ← first_vacant 0 g.slots
  g' ← update_seat index (λ slot. record slot { active = true }) g
  some (index, g')

unfoldable pub subscribe_at : (tail : ℕ) → ConsumerRegistry → Option (ℕ × ConsumerRegistry)
subscribe_at tail g = do
  (index, g₁) ← claim g
  g₂ ← update_seat index (λ slot. record slot { head = tail }) g₁
  some (index, g₂)

unfoldable pub unsubscribe : ℕ → ConsumerRegistry → Option ConsumerRegistry
unsubscribe index g = update_seat index (λ slot. record slot { active = false }) g

unfoldable pub head_of : ℕ → ConsumerRegistry → Option ℕ
head_of index g = do slot ← get_elem? g.slots index; some slot.head

unfoldable pub publish_head_past : ℕ → (head : ℕ) → ConsumerRegistry → Option ConsumerRegistry
publish_head_past index head g =
    update_seat index (λ slot. record slot { head = add_usize head 1 }) g

abbrev pub lower : ℕ → ConsumerFloor → ConsumerFloor
lower head no_consumers = at head
lower head (at other) = at (if leb head other then head else other)

-- The least head of the seats taken.
unfoldable pub floor_of : List ConsumerSlot → ConsumerFloor
floor_of [] = no_consumers
floor_of (slot ∷ rest) =
    let others = floor_of rest in if slot.active then lower slot.head others else others

unfoldable pub floor : ConsumerRegistry → ConsumerFloor
floor g = floor_of g.slots

unfoldable pub any_active : List ConsumerSlot → Bool
any_active [] = false
any_active (slot ∷ rest) = if slot.active then true else any_active rest

unfoldable pub any_subscribed : ConsumerRegistry → Bool
any_subscribed g = any_active g.slots

unfoldable pub seats : ConsumerRegistry → ℕ
seats g = length g.slots

-- What a floor says of the seats.
abbrev pub IsFloor : ConsumerFloor → List ConsumerSlot → Type 0
IsFloor no_consumers slots =
    (i : ℕ) (slot : ConsumerSlot) → get_elem? slots i ≡ some slot → slot.active ≡ false
IsFloor (at head) slots =
    ((i : ℕ) × (slot : ConsumerSlot) × (get_elem? slots i ≡ some slot)
      × (slot.active ≡ true)
      × (slot.head ≡ head))
    × ((i : ℕ) (slot : ConsumerSlot)
        → get_elem? slots i ≡ some slot
        → slot.active ≡ true
        → head ≤ slot.head)

-- The floor of a seat and the others.
lower-IsFloor :
    (f : ConsumerFloor) (slot : ConsumerSlot) (rest : List ConsumerSlot)
    → slot.active ≡ true
    → IsFloor f rest
    → IsFloor (lower slot.head f) (slot ∷ rest)
lower-IsFloor no_consumers slot rest taken none_ = ((0, slot, refl, taken, refl), bound)
  where
    bound :
        (i : ℕ) (s : ConsumerSlot)
        → get_elem? (slot ∷ rest) i ≡ some s
        → s.active ≡ true
        → slot.head ≤ s.head
    bound zero s e active =
        let same : slot ≡ s = cc e in subst (λ s. slot.head ≤ s.head) same (omega arith)
    bound (suc i) s e active = cc (none_ i s e, active)
lower-IsFloor (at other) slot rest taken ((i, s, e, active, here), low) =
    elim (Bool-cases (leb slot.head other)) [
      | inl first ↦
          rw first ((0, slot, refl, taken, refl), bound slot.head (omega arith) (ground arith))
      | inr later ↦ rw later ((suc i, s, e, active, here), bound other (ground arith) (omega arith))
    ]
  where
    bound :
        (least : ℕ)
        → least ≤ slot.head
        → least ≤ other
        → (i : ℕ) (s : ConsumerSlot) → get_elem? (slot ∷ rest) i ≡ some s
        → s.active ≡ true
        → least ≤ s.head
    bound least under over zero s e active =
        let same : slot ≡ s = cc e in subst (λ s. least ≤ s.head) same under
    bound least under over (suc i) s e active = omega (arith, low i s e active)

-- The floor of the others, past a seat that nobody has.
skip-IsFloor :
    (f : ConsumerFloor) (slot : ConsumerSlot) (rest : List ConsumerSlot)
    → slot.active ≡ false
    → IsFloor f rest
    → IsFloor f (slot ∷ rest)
skip-IsFloor no_consumers slot rest left none_ = nobody
  where
    nobody : (i : ℕ) (s : ConsumerSlot) → get_elem? (slot ∷ rest) i ≡ some s → s.active ≡ false
    nobody zero s e = let same : slot ≡ s = cc e in subst (λ s. s.active ≡ false) same left
    nobody (suc i) s e = none_ i s e
skip-IsFloor (at head) slot rest left ((i, s, e, active, here), low) =
    ((suc i, s, e, active, here), bound)
  where
    bound :
        (i : ℕ) (s : ConsumerSlot)
        → get_elem? (slot ∷ rest) i ≡ some s
        → s.active ≡ true
        → head ≤ s.head
    bound zero s e active =
        let same : slot ≡ s = cc e in cc (left, active, ap (λ (s : ConsumerSlot). s.active) same)
    bound (suc i) s e active = low i s e active

floor_of-IsFloor : (slots : List ConsumerSlot) → IsFloor (floor_of slots) slots
unfolding floor_of
floor_of-IsFloor [] = λ i s e. cc e
floor_of-IsFloor (slot ∷ rest) = elim (Bool-cases slot.active) [
  | inl taken ↦
      subst
        (λ a. IsFloor (if a then lower slot.head (floor_of rest) else floor_of rest) (slot ∷ rest))
        (sym taken) (lower-IsFloor (floor_of rest) slot rest taken (floor_of-IsFloor rest))
  | inr left ↦
      subst
        (λ a. IsFloor (if a then lower slot.head (floor_of rest) else floor_of rest) (slot ∷ rest))
        (sym left) (skip-IsFloor (floor_of rest) slot rest left (floor_of-IsFloor rest))
]

-- The floor is the least head of the seats taken: some consumer has it, no consumer is behind it, and
-- there is none exactly where no seat is taken.
pub floor-IsFloor : (g : ConsumerRegistry) → IsFloor (floor g) g.slots
unfolding floor
floor-IsFloor g = floor_of-IsFloor g.slots
