-- ===== src/Mpsc/Threads/Writes.antt =====
-- A producer handle that moves, and one that writes the slot of a position that it has claimed.
use native.Mathlib.Nat.{mod-lt}
use quetzalcoatl.Common.{ℕ, suc, ◌+◌, ◌%◌, ◌≤◌, ◌<◌, ◌≡◌, refl, sym, subst, ◌∙◌, Option, arith}
use quetzalcoatl.Common.Lists.{set, length-set}
use quetzalcoatl.Capacity.Lap.{cap_pos}
use quetzalcoatl.Slot.Sequence.{SeqSlot}
use quetzalcoatl.Mpsc.Board.{
  Fate, pending, IsSettled, update, update_self, update-ne, Slots-set, Holds, At,
}
use quetzalcoatl.Mpsc.Threads.{Pushing, Handle, Threads, put}
use quetzalcoatl.Mpsc.Threads.Inv.{low, PushAt, HandleAt, Inv}
use quetzalcoatl.Mpsc.Threads.Frame.{
  mod-apart, high-low, high-le, low-open, PopAt-update, HandleAt-keep, pending-owner, put-HandleAt,
}

module _ {ℓ} {A : Type ℓ} where
  pub push_place :
      {n : ℕ} {t : Threads A} (k : Inv n t) (i : ℕ) {p : Pushing A}
      → (t.handles i).place ≡ p
      → PushAt i
          (t.handles i)
          t.fate
          t.ring.cursors.head
          t.ring.cursors.tail
          (t.ring.cursors.head + t.ring.capacity.cap)
          p
  push_place {t} k i e =
      subst
        (PushAt i (t.handles i) t.fate t.ring.cursors.head t.ring.cursors.tail
          (t.ring.cursors.head + t.ring.capacity.cap))
        e (k.handles i).at

  -- A handle moves without an access to the ring.
  pub move-Inv :
      {n : ℕ} (i : ℕ) (h : Handle A) (t : Threads A)
      → Inv (suc n) t
      → HandleAt i h t.fate t.ring.cursors.head t.ring.cursors.tail t.ring.capacity.cap
      → Inv n (put i h t)
  unfolding put
  move-Inv i h t k mine = record {
    valid = k.valid;
    storage = k.storage;
    small = omega (arith, k.small);
    ordered = k.ordered;
    room = k.room;
    slots = k.slots;
    ahead = k.ahead;
    behind = k.behind;
    popping = k.popping;
    handles = put-HandleAt t.handles i h t.fate t.fate _ _ _ _ _ k.handles mine (λ j ne old. old);
  }

  -- The slot of an open position, and a write of it by its owner.
  pub open_slot :
      {n : ℕ} {t : Threads A} (k : Inv n t) {pos : ℕ}
      → t.ring.cursors.head ≤ pos
      → pos < t.ring.cursors.tail
      → ¬ IsSettled (t.fate pos)
      → At t.ring.buf t.ring.capacity.cap (t.fate pos) pos
  open_slot {t} k {pos} from below u =
      k.slots pos (low-open t.popping t.fate t.received _ pos k.popping from u)
        (omega (arith, k.room, high-le t.popping t.ring.cursors.head t.ring.capacity.cap))

  abbrev pub rewrite_slot : ℕ → SeqSlot A → Fate A → Threads A → Threads A
  rewrite_slot pos s x t = record t {
    ring = record (t.ring) { buf = set t.ring.buf (pos % t.ring.capacity.cap) s };
    fate = update t.fate pos x;
  }

  pub write-Inv :
      {n : ℕ} (i : ℕ) (h : Handle A) (pos : ℕ) (o : Option A) (s : SeqSlot A) (x : Fate A)
      (t : Threads A)
      → Inv (suc n) t
      → t.ring.cursors.head ≤ pos
      → pos < t.ring.cursors.tail
      → t.fate pos ≡ pending i o
      → Holds x pos s
      → HandleAt i h
          (update t.fate pos x)
          t.ring.cursors.head
          t.ring.cursors.tail
          t.ring.capacity.cap
      → Inv n (put i h (rewrite_slot pos s x t))
  unfolding put
  write-Inv i h pos o s x t k from below mine now at = record {
    valid = k.valid;
    storage = length-set t.ring.buf _ s ∙ k.storage;
    small = omega (arith, k.small);
    ordered = k.ordered;
    room = k.room;
    slots =
        Slots-set t.ring.buf _ t.fate (update t.fate pos x) _ _ _ _ _ pos s k.slots
          (rw k.storage (mod-lt pos (cap_pos k.valid))) refl
          (subst (λ x. Holds x pos s) (sym (update_self t.fate pos x)) now)
          (λ q lo hi ne. (
            lo,
            hi,
            update-ne t.fate pos q x ne,
            mod-apart _ (low t.popping t.ring.cursors.head) pos q (cap_pos k.valid)
                (low-open t.popping t.fate t.received _ pos k.popping from still_open)
                (omega (
                  arith,
                  k.room,
                  high-le t.popping t.ring.cursors.head t.ring.capacity.cap,
                  high-low t.popping t.ring.cursors.head t.ring.capacity.cap,
                ))
                lo (omega (arith, high-low t.popping t.ring.cursors.head t.ring.capacity.cap))
                (λ e. ne (sym e)),
          ));
    ahead = λ p le. update-ne t.fate pos p x (omega arith) ∙ k.ahead p le;
    behind = λ p lt. subst IsSettled (sym (update-ne t.fate pos p x (omega arith))) (k.behind p lt);
    popping = PopAt-update t.popping t.fate t.received _ pos x k.popping from still_open;
    handles =
        put-HandleAt t.handles i h t.fate (update t.fate pos x) _ _ _ _ _ k.handles at (λ j ne old.
          HandleAt-keep j _ t.fate _ _ _ _ _ _ (omega arith) (omega arith)
            (λ q o' le e. (le, pending-owner t.fate x i j pos q o o' ne mine e)) old);
  }
    where
      still_open : ¬ IsSettled (t.fate pos)
      still_open s = subst IsSettled mine s
