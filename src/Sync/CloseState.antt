-- ===== src/Sync/CloseState.antt =====
-- src/common/close_state.rs: a one-way close flag.
use quetzalcoatl.Common.{Bool, true, false}

pub record CloseState : Type 0 where
  pub closed : Bool

abbrev pub fresh : CloseState
fresh = record { closed = false }

unfoldable pub close : CloseState → CloseState
close c = record c { closed = true }

unfoldable pub is_closed : CloseState → Bool
is_closed c = c.closed

unfoldable pub is_closed_for_parking : CloseState → Bool
is_closed_for_parking c = c.closed
