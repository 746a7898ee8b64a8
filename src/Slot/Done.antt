-- ===== src/Slot/Done.antt =====
-- src/spmc/done_word.rs: the word that gives a slot back to the sole producer.
use quetzalcoatl.Common.{ℕ, ◌+◌, ◌≤◌, ◌<◌, ◌≡◌, Bool, true, false, not, arith}
use quetzalcoatl.Common.Tests.{◌==◌}
use quetzalcoatl.Common.Words.{add_usize, word, usize_mod}
use quetzalcoatl.Capacity
use quetzalcoatl.Capacity.{Capacity, IsValid}
use quetzalcoatl.Capacity.Lap.{cap-le, cap_pos}

pub record DoneWord : Type 0 where
  pub at : ℕ

unfoldable pub released_for : ℕ → DoneWord
released_for slot = record { at = slot }

unfoldable pub is_free_for : DoneWord → ℕ → Bool
is_free_for d pos = d.at == pos

unfoldable pub release : ℕ → Capacity → DoneWord → DoneWord
release pos c d = record d { at = add_usize pos (Capacity.get c) }

unfoldable pub holds_unconsumed_value_at : DoneWord → ℕ → Capacity → Bool
holds_unconsumed_value_at d pos c = not (d.at == add_usize pos (Capacity.get c))

-- `usize` rollover included, a release at position `p` frees the slot for the position one lap later
-- and for no other of the next lap's length of positions; it says that the value of `p` was consumed,
-- and that the value of the next lap is not.
release_lem :
    {c : Capacity} (v : IsValid c) (p q : ℕ) (d : DoneWord)
    → p ≤ q
    → q < p + usize_mod
    → (is_free_for (release (word p) c d) (word q) ≡ (q == (p + c.cap)))
      × (holds_unconsumed_value_at (release (word p) c d) (word p) c ≡ false)
      × (holds_unconsumed_value_at (release (word p) c d) (word (p + c.cap)) c ≡ true)
unfolding is_free_for release holds_unconsumed_value_at Capacity.get
release_lem {c} v p q d low high =
    (ground (arith, cap-le v), ground arith, ground (arith, cap-le v, cap_pos v))
