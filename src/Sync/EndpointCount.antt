-- ===== src/Sync/EndpointCount.antt =====
-- src/common/endpoint_count.rs: how many handles one side of a ring has.
use quetzalcoatl.Common.{
  ℕ, zero, suc, ◌+◌, ◌<◌, ◌≡◌, refl, Bool, true, false, not, ◌&&◌, List, [], ◌∷◌, arith,
}
use quetzalcoatl.Common.Tests.{◌==◌}
use quetzalcoatl.Common.Lists.{length}
use quetzalcoatl.Common.Words.{usize_mod, add_usize, sub_usize}

pub record EndpointCount : Type 0 where
  pub live : ℕ

abbrev pub fresh : EndpointCount
fresh = record { live = 1 }

unfoldable pub register : EndpointCount → EndpointCount
register c = record { live = add_usize c.live 1 }

-- The count after the decrement, and whether the one before it was 1.
unfoldable pub release : EndpointCount → EndpointCount × Bool
release c = (record { live = sub_usize c.live 1 }, c.live == 1)

-- A clone or a drop of a handle.
pub data Event : Type 0 where
  cloned dropped : Event

-- The answers of the drops in a sequence of events.
unfoldable pub lasts : EndpointCount → List Event → List Bool
lasts c [] = []
lasts c (cloned ∷ es) = lasts (register c) es
lasts c (dropped ∷ es) = let (c', last) = release c in last ∷ lasts c' es

-- The handles that are left after the events, when there are `n` before them; only a live handle is
-- cloned or dropped.
pub data Handles : ℕ → List Event → ℕ → Type 0 where
  done : {n : ℕ} → Handles n [] n
  clone : {n m : ℕ} {es : List Event} → 0 < n → Handles (suc n) es m → Handles n (cloned ∷ es) m
  drop : {n m : ℕ} {es : List Event} → Handles n es m → Handles (suc n) (dropped ∷ es) m

-- No drop was told that it is the last.
unfoldable pub none_last : List Bool → Bool
none_last [] = true
none_last (last ∷ rest) = not last && none_last rest

-- The final drop was told that it is the last, and no drop before it was.
unfoldable pub only_final_last : List Bool → Bool
only_final_last [] = false
only_final_last (last ∷ []) = last
only_final_last (last ∷ next ∷ rest) = not last && only_final_last (next ∷ rest)

abbrev pub counting : ℕ → EndpointCount
counting n = record { live = n }

register-live : (n : ℕ) → suc n < usize_mod → register (counting n) ≡ counting (suc n)
unfolding register
register-live n h = ground arith

release-live : (n : ℕ) → suc n < usize_mod → release (counting (suc n)) ≡ (counting n, n == 0)
unfolding release
release-live n h = ground arith

lasts-drop :
    (n : ℕ) (es : List Event)
    → suc n < usize_mod
    → lasts (counting (suc n)) (dropped ∷ es) ≡ (n == 0) ∷ lasts (counting n) es
unfolding lasts
lasts-drop n es h = rw (release-live n h)

lasts-clone :
    (n : ℕ) (es : List Event)
    → suc n < usize_mod
    → lasts (counting n) (cloned ∷ es) ≡ lasts (counting (suc n)) es
unfolding lasts
lasts-clone n es h = rw (register-live n h)

-- While a handle is left, no drop reports that it was the last.
lasts-none :
    {n m : ℕ} {es : List Event}
    → Handles n es m
    → 0 < m
    → n + length es < usize_mod
    → none_last (lasts (counting n) es) ≡ true
unfolding none_last lasts
lasts-none done h room = refl
lasts-none (clone {n} {es} pos r) h room =
    rw (lasts-clone n es (omega arith)) (lasts-none r h (omega arith))
lasts-none (drop {n} {es} r) h room =
    rw (release-live n (omega arith)) (ground (arith, lasts-none r h (omega arith), left r h))
  where
    left : {n m : ℕ} {es : List Event} → Handles n es m → 0 < m → 0 < n
    left done h = h
    left (clone p r) h = p
    left (drop r) h = omega arith

only_final_last-cons :
    (bs : List Bool) → only_final_last bs ≡ true → only_final_last (false ∷ bs) ≡ true
unfolding only_final_last
only_final_last-cons [] h = cc
only_final_last-cons (b ∷ bs) h = h

Handles-zero : {n m : ℕ} {es : List Event} → Handles n es m → n ≡ 0 → es ≡ []
Handles-zero done e = refl
Handles-zero (clone pos r) e = absurd (omega arith)
Handles-zero (drop r) e = absurd (omega arith)

suc-ne-zero : (n : ℕ) → (suc n == 0) ≡ false
suc-ne-zero n = ground arith

only_final_last-one : only_final_last ((0 == 0) ∷ lasts (counting 0) []) ≡ true
unfolding only_final_last lasts
only_final_last-one = refl

lasts-final :
    {n m : ℕ} {es : List Event}
    → Handles n es m
    → m ≡ 0
    → 0 < n
    → n + length es < usize_mod
    → only_final_last (lasts (counting n) es) ≡ true
lasts-final done e h room = absurd (omega arith)
lasts-final (clone {n} {es} pos r) e h room =
    rw (lasts-clone n es (omega arith)) (lasts-final r e (omega arith) (omega arith))
lasts-final (drop {n = zero} r) e h room =
    rw (Handles-zero r refl, lasts-drop 0 [] (omega arith)) only_final_last-one
lasts-final (drop {n = suc n} {es} r) e h room =
    rw (lasts-drop (suc n) es (omega arith), suc-ne-zero n)
      (only_final_last-cons (lasts (counting (suc n)) es)
        (lasts-final r e (omega arith) (omega arith)))

-- If the handles of a side, at least one at first and fewer than 2^64 counted with the events, end at
-- none, exactly one drop reports that it was the last: the final one.
pub lasts-only_final :
    {n : ℕ} {es : List Event}
    → Handles n es 0
    → 0 < n
    → n + length es < usize_mod
    → only_final_last (lasts (counting n) es) ≡ true
lasts-only_final r h room = lasts-final r refl h room
