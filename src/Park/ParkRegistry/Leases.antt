-- ===== src/Park/ParkRegistry/Leases.antt =====
-- Leases and releases of park slots in any order: no two live holders share a slot.
use quetzalcoatl.Common.{
  ℕ, zero, suc, ◌+◌, ◌≤◌, ◌<◌, ◌≡◌, ◌↔◌, refl, sym, ap, subst, ◌∙◌, inl, inr, Bool, true, false,
  Option, none, some, List, [], ◌∷◌, ◌++◌, arith,
}
use quetzalcoatl.Common.Tests.{◌==◌, ==_iff, Bool-cases, Option-cases, if◌then◌else◌}
use quetzalcoatl.Common.Lists.{length, set, replicate, length-set, length-replicate}
use quetzalcoatl.Park.ParkRegistry.{
  ParkSlot, leased, shared, ParkRegistry, first_clear, later, fresh, lease, release, park_slots,
}
use quetzalcoatl.Park.WakeSet.{is_set, count}
use quetzalcoatl.Park.WakeSet.Bits.{is_set-set_ne, is_set-clear, count-clear, count-le}

-- The registries that leases and releases lead to, with the slots of the live holders.
pub data Leases : ParkRegistry → List ParkSlot → Type 0 where
  none_yet : Leases fresh []
  leasing :
      {g : ParkRegistry} {l : List ParkSlot} → Leases g l → Leases (lease g).1 ((lease g).0 ∷ l)
  releasing :
      {g : ParkRegistry} (before : List ParkSlot) (s : ParkSlot) (after : List ParkSlot)
      → Leases g (before ++ s ∷ after)
      → Leases (release s g) (before ++ after)

-- How many of the holders have slot `i`.
abbrev pub holders : ℕ → List ParkSlot → ℕ
holders i [] = 0
holders i (leased j ∷ l) = (if j == i then 1 else 0) + holders i l
holders i (shared ∷ l) = holders i l

-- How many of the holders have a slot of their own.
abbrev pub leases : List ParkSlot → ℕ
leases [] = 0
leases (leased j ∷ l) = suc (leases l)
leases (shared ∷ l) = leases l

record Exclusive (g : ParkRegistry) (l : List ParkSlot) : Type 0 where
  size : length g.held ≡ park_slots
  each : (i : ℕ) → holders i l ≡ (if is_set g.held i then 1 else 0)
  total : leases l ≡ count g.held

holders-append : (i : ℕ) (a b : List ParkSlot) → holders i (a ++ b) ≡ holders i a + holders i b
holders-append i [] b = omega arith
holders-append i (leased j ∷ a) b = omega (arith, holders-append i a b)
holders-append i (shared ∷ a) b = holders-append i a b

leases-append : (a b : List ParkSlot) → leases (a ++ b) ≡ leases a + leases b
leases-append [] b = omega arith
leases-append (leased j ∷ a) b = omega (arith, leases-append a b)
leases-append (shared ∷ a) b = leases-append a b

is_set-replicate : (n i : ℕ) → is_set (replicate n false) i ≡ false
is_set-replicate zero i = refl
is_set-replicate (suc n) zero = refl
is_set-replicate (suc n) (suc i) = is_set-replicate n i

count-replicate : (n : ℕ) → count (replicate n false) ≡ 0
unfolding count
count-replicate zero = refl
count-replicate (suc n) = count-replicate n

later-some : (o : Option ℕ) {i : ℕ} → later o ≡ some i → (j : ℕ) × (o ≡ some j) × (suc j ≡ i)
later-some none e = cc e
later-some (some j) e = (j, refl, cc e)

later-none : (o : Option ℕ) → later o ≡ none → o ≡ none
later-none none e = refl
later-none (some j) e = cc e

Cleared : List Bool → ℕ → Type 0
Cleared bs i =
    (is_set bs i ≡ false)
    × (is_set (set bs i true) i ≡ true)
    × (count (set bs i true) ≡ suc (count bs))

first_clear-found : (bs : List Bool) {i : ℕ} → first_clear bs ≡ some i → Cleared bs i
unfolding first_clear count Cleared
first_clear-found [] e = cc e
first_clear-found (false ∷ bs) {i} e =
    let first : 0 ≡ i = cc e in subst (Cleared (false ∷ bs)) first (refl, refl, refl)
first_clear-found (true ∷ bs) {i} e =
    let (j, at, next) = later-some (first_clear bs) e in
    let (off, on, more) = first_clear-found bs at in
    subst (Cleared (true ∷ bs)) next (off, on, ap suc more)

first_clear-full : (bs : List Bool) → first_clear bs ≡ none → count bs ≡ length bs
unfolding first_clear count
first_clear-full [] e = refl
first_clear-full (false ∷ bs) e = cc e
first_clear-full (true ∷ bs) e = ap suc (first_clear-full bs (later-none (first_clear bs) e))

start-Exclusive : Exclusive fresh []
start-Exclusive = record {
  size = length-replicate park_slots false;
  each = λ i. rw (is_set-replicate park_slots i) refl;
  total = sym (count-replicate park_slots);
}

abbrev bit_of : Bool → ℕ
bit_of b = if b then 1 else 0

-- The holders after one more bit is set, or one is cleared.
each-set :
    (held : List Bool) (l : List ParkSlot) (bit i : ℕ)
    → Cleared held bit
    → holders i l ≡ bit_of (is_set held i)
    → bit_of (bit == i) + holders i l ≡ bit_of (is_set (set held bit true) i)
unfolding Cleared
each-set held l bit i (off, on, more) k = elim (Bool-cases (bit == i)) [
  | inl same ↦
      let e = (==_iff bit i).0 same in
      rw (same, ap (is_set (set held bit true)) (sym e) ∙ on, k, ap (is_set held) (sym e) ∙ off)
        refl
  | inr other ↦
      rw (other, is_set-set_ne held {i = bit} {j = i} true (λ e. cc (other, (==_iff bit i).1 e)), k)
        (omega arith)
]

bit_of-le : (b : Bool) → bit_of b ≤ 1
bit_of-le true = omega arith
bit_of-le false = omega arith

bit_of-true : (b : Bool) → 0 < bit_of b → b ≡ true
bit_of-true true h = refl
bit_of-true false h = elim h [ ]

each-clear :
    (held : List Bool) (n bit i : ℕ)
    → bit_of (bit == i) + n ≡ bit_of (is_set held i)
    → n ≡ bit_of (is_set (set held bit false) i)
each-clear held n bit i k = elim (Bool-cases (bit == i)) [
  | inl same ↦
      let e = (==_iff bit i).0 same in
      let one : bit_of (bit == i) ≡ 1 = ap bit_of same in
      rw (ap (is_set (set held bit false)) (sym e) ∙ is_set-clear held bit)
        (omega (arith, k, one, bit_of-le (is_set held i)))
  | inr other ↦
      let nil : bit_of (bit == i) ≡ 0 = ap bit_of other in
      rw (is_set-set_ne held {i = bit} {j = i} false (λ e. cc (other, (==_iff bit i).1 e)))
        (omega (arith, k, nil))
]

lease-Exclusive :
    (g : ParkRegistry) (l : List ParkSlot) → Exclusive g l → Exclusive (lease g).1 ((lease g).0 ∷ l)
unfolding lease Cleared
lease-Exclusive g l k = elim (Option-cases (first_clear g.held)) [
  | inl full ↦ rw (lease, full) (record { size = k.size; each = k.each; total = k.total })
  | inr (bit, at) ↦
      let c = first_clear-found g.held at in
      rw (lease, at)
        (record {
          size = length-set g.held bit true ∙ k.size;
          each = λ i. each-set g.held l bit i c (k.each i);
          total = ap suc k.total ∙ sym c.2;
        })
]

without :
    (i : ℕ) (before : List ParkSlot) (s : ParkSlot) (after : List ParkSlot)
    → holders i (before ++ s ∷ after) ≡ holders i (s ∷ []) + holders i (before ++ after)
without i before shared after =
    omega (arith, holders-append i before (shared ∷ after), holders-append i before after)
without i before (leased j) after =
    omega (arith, holders-append i before (leased j ∷ after), holders-append i before after)

release-Exclusive :
    (g : ParkRegistry) (before : List ParkSlot) (s : ParkSlot) (after : List ParkSlot)
    → Exclusive g (before ++ s ∷ after)
    → Exclusive (release s g) (before ++ after)
unfolding release
release-Exclusive g before shared after k = record {
  size = k.size;
  each = λ i. omega (arith, k.each i, without i before shared after);
  total = omega (arith, k.total, leases-append before (shared ∷ after), leases-append before after);
}
release-Exclusive g before (leased bit) after k = record {
  size = length-set g.held bit false ∙ k.size;
  each = λ i. each-clear g.held (holders i (before ++ after)) bit i (one_less i);
  total = omega (
    arith,
    k.total,
    leases-append before (leased bit ∷ after),
    leases-append before after,
    count-clear g.held bit (bit_of-true (is_set g.held bit) (omega (arith, one_less bit, mine))),
  );
}
  where
    mine : bit_of (bit == bit) ≡ 1
    mine = ap bit_of ((==_iff bit bit).1 refl)

    one_less : (i : ℕ) → bit_of (bit == i) + holders i (before ++ after) ≡ bit_of (is_set g.held i)
    one_less i = omega (arith, k.each i, without i before (leased bit) after)

Leases-Exclusive : {g : ParkRegistry} {l : List ParkSlot} → Leases g l → Exclusive g l
Leases-Exclusive none_yet = start-Exclusive
Leases-Exclusive (leasing {g} {l} r) = lease-Exclusive g l (Leases-Exclusive r)
Leases-Exclusive (releasing {g} before s after r) =
    release-Exclusive g before s after (Leases-Exclusive r)

-- Whatever slots were leased and given back, in any order, no two live holders have the same slot, and
-- the next lease is refused a slot of its own exactly if 64 live holders have one.
pub leases_exclusive :
    {g : ParkRegistry} {l : List ParkSlot}
    → Leases g l
    → ((i : ℕ) → holders i l ≤ 1) × (((lease g).0 ≡ shared) ↔ (leases l ≡ park_slots))
unfolding lease Cleared
leases_exclusive {g} {l} r =
    let k = Leases-Exclusive r in
    (
      λ i. omega (arith, k.each i, bit_of-le (is_set g.held i)),
      elim (Option-cases (first_clear g.held)) [
        | inl full ↦ (
          λ e. omega (arith, k.total, k.size, first_clear-full g.held full),
          λ e. rw (lease, full) refl,
        )
        | inr (bit, at) ↦ (
          λ e. absurd (granted bit at e),
          λ e.
              let room : ⊥ = omega (
                arith,
                e,
                k.total,
                k.size,
                (first_clear-found g.held at).2,
                count-le (set g.held bit true),
                length-set g.held bit true,
              ) in
              absurd room,
        )
      ],
    )
  where
    granted : (bit : ℕ) → first_clear g.held ≡ some bit → ¬ ((lease g).0 ≡ shared)
    granted bit at = rw (lease, at) (λ e. cc e)
