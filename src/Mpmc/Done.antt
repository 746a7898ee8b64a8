-- ===== src/Mpmc/Done.antt =====
-- src/mpmc/done_word.rs: the word that gives a slot from the consumer of one lap to the producer of the next.
use quetzalcoatl.Common.{ℕ, Bool}
use quetzalcoatl.Common.Tests.{◌==◌}
use quetzalcoatl.Common.Words.{add_usize}
use quetzalcoatl.Capacity
use quetzalcoatl.Capacity.{Capacity}

pub record DoneWord : Type 0 where
  pub at : ℕ

unfoldable pub released_for : ℕ → DoneWord
released_for slot = record { at = slot }

unfoldable pub is_free_for : ℕ → DoneWord → Bool
is_free_for pos d = d.at == pos

unfoldable pub release : (round_pos : ℕ) → Capacity → DoneWord → DoneWord
release round_pos c d = record d { at = add_usize round_pos (Capacity.get c) }

unfoldable pub was_released_after : (round_pos : ℕ) → Capacity → DoneWord → Bool
was_released_after round_pos c d = d.at == add_usize round_pos (Capacity.get c)
