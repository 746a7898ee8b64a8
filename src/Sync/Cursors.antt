-- ===== src/Sync/Cursors.antt =====
-- src/common/cursors.rs: the head and tail of a ring.
use quetzalcoatl.Common.{ℕ, suc, zero, ◌-◌, Bool, List, [], ◌∷◌}
use quetzalcoatl.Common.Tests.{◌==◌}
use quetzalcoatl.Common.Words.{sub_usize}

pub record Cursors : Type 0 where
  pub head : ℕ
  pub tail : ℕ

abbrev pub fresh : Cursors
fresh = record { head = 0; tail = 0 }

unfoldable pub publish_head : Cursors → ℕ → Cursors
publish_head c head = record c { head = head }

-- `cursors.tail().store`, which each ring does at its own sites.
unfoldable pub publish_tail : Cursors → ℕ → Cursors
publish_tail c tail = record c { tail = tail }

unfoldable pub len : Cursors → ℕ
len c = sub_usize c.tail c.head

unfoldable pub is_empty : Cursors → Bool
unfolding len
is_empty c = len c == 0

unfoldable pub is_full : Cursors → ℕ → Bool
unfolding len
is_full c cap = len c == cap

unfoldable pub positions : ℕ → ℕ → List ℕ
positions from zero = []
positions from (suc n) = from ∷ positions (suc from) n

-- The range `head..tail` of numbers, empty when the head is not below the tail.
unfoldable pub occupied : Cursors → List ℕ
unfolding positions
occupied c = positions c.head (c.tail - c.head)
