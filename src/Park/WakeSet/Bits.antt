-- ===== src/Park/WakeSet/Bits.antt =====
-- The search of a wake bitmap for a set bit, from the cursor round to the cursor.
use quetzalcoatl.Common.{
  ℕ, zero, suc, ◌+◌, ◌-◌, ◌%◌, ◌≤◌, ◌<◌, ◌≡◌, ◌≢◌, ◌⊎◌, refl, sym, ap, ◌∙◌, inl, inr, Bool, true,
  false, Option, none, some, List, [], ◌∷◌, arith,
}
use native.Mathlib.Decide.{dec_lt}
use quetzalcoatl.Common.Tests.{if◌then◌else◌}
use quetzalcoatl.Common.Lists.{length, set}
use quetzalcoatl.Park.ParkRegistry.{park_slots}
use quetzalcoatl.Park.WakeSet.{search, is_set, count}

pub is_set-inside : (bits : List Bool) (i : ℕ) → is_set bits i ≡ true → i < length bits
is_set-inside [] i e = cc e
is_set-inside (b ∷ bs) zero e = omega arith
is_set-inside (b ∷ bs) (suc i) e = omega (arith, is_set-inside bs i e)

pub is_set-set_ne :
    (bits : List Bool) {i j : ℕ} (b : Bool) → i ≢ j → is_set (set bits i b) j ≡ is_set bits j
is_set-set_ne [] b ne = refl
is_set-set_ne (x ∷ xs) {i = zero} {j = zero} b ne = absurd (ne refl)
is_set-set_ne (x ∷ xs) {i = zero} {j = suc j} b ne = refl
is_set-set_ne (x ∷ xs) {i = suc i} {j = zero} b ne = refl
is_set-set_ne (x ∷ xs) {i = suc i} {j = suc j} b ne = is_set-set_ne xs b (λ e. ne (ap suc e))

-- Clearing a set bit lowers the number of set bits by one.
pub count-clear :
    (bits : List Bool) (i : ℕ) → is_set bits i ≡ true → suc (count (set bits i false)) ≡ count bits
unfolding count
count-clear [] i e = cc e
count-clear (true ∷ bs) zero e = refl
count-clear (false ∷ bs) zero e = cc e
count-clear (true ∷ bs) (suc i) e = ap suc (count-clear bs i e)
count-clear (false ∷ bs) (suc i) e = count-clear bs i e

pub count-le : (bits : List Bool) → count bits ≤ length bits
unfolding count
count-le [] = omega arith
count-le (true ∷ bs) = omega (arith, count-le bs)
count-le (false ∷ bs) = omega (arith, count-le bs)

if-some :
    (b : Bool) {x i : ℕ} {o : Option ℕ}
    → (if b then some x else o) ≡ some i
    → ((b ≡ true) × (x ≡ i)) ⊎ (o ≡ some i)
if-some true e = inl (refl, cc e)
if-some false e = inr e

if-none :
    (b : Bool) (x : ℕ) {o : Option ℕ} → (if b then some x else o) ≡ none → (b ≡ false) × (o ≡ none)
if-none true x e = cc e
if-none false x e = (refl, e)

pub search-found :
    (n from : ℕ) (test : ℕ → Bool) {i : ℕ} → search n from test ≡ some i → test i ≡ true
unfolding search
search-found zero from test e = cc e
search-found (suc n) from test e = elim (if-some (test (from % park_slots)) e) [
  | inl (on, at) ↦ ap test (sym at) ∙ on
  | inr later ↦ search-found n (suc from) test later
]

search-rejected :
    (n from : ℕ) (test : ℕ → Bool) (i : ℕ)
    → search n from test ≡ none
    → from ≤ i
    → i < from + n
    → test (i % park_slots) ≡ false
unfolding search
search-rejected zero from test i e lo hi = let none_left : ⊥ = omega arith in absurd none_left
search-rejected (suc n) from test i e lo hi =
    let (off, later) = if-none (test (from % park_slots)) _ e in
    elim (dec_lt from i) [
      | yes after ↦ search-rejected n (suc from) test i later (omega arith) (omega arith)
      | no at ↦
          let same : from ≡ i = omega arith in ap (λ i. test (i % park_slots)) (sym same) ∙ off
    ]

-- A search round the whole bitmap misses no slot.
pub search-none :
    (from : ℕ) (test : ℕ → Bool) (i : ℕ)
    → search park_slots from test ≡ none
    → i < park_slots
    → test i ≡ false
search-none from test i e small =
    let at : from + (i + 64 - from % 64) % 64 < from + 64 = omega arith in
    let hit : (from + (i + 64 - from % 64) % 64) % 64 ≡ i = omega arith in
    ap test (sym hit)
    ∙ search-rejected park_slots from test (from + (i + 64 - from % 64) % 64) e (omega arith) at

pub is_set-clear : (bits : List Bool) (i : ℕ) → is_set (set bits i false) i ≡ false
is_set-clear [] i = refl
is_set-clear (b ∷ bs) zero = refl
is_set-clear (b ∷ bs) (suc i) = is_set-clear bs i
