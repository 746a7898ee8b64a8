-- ===== src/Park/ThreadParker.antt =====
-- src/common/thread_parker.rs: a slot for the handle of the thread that is parked now.
use quetzalcoatl.Common.{ℕ, Bool, true, false, Option, none, some}

-- A `Thread` handle, by the number of its thread.
abbrev pub Thread : Type 0
Thread = ℕ

pub record ThreadParker : Type 0 where
  pub handle : Option Thread

abbrev pub fresh : ThreadParker
fresh = record { handle = none }

-- `me` is `thread::current()`. A handle that was there is dropped.
unfoldable pub arm : Thread → ThreadParker → ThreadParker
arm me p = record p { handle = some me }

-- The slot after the swap, and the thread that is unparked: `none` where the source returns `false`.
unfoldable pub wake : ThreadParker → ThreadParker × Option Thread
wake p = elim p.handle [
  | none ↦ (p, none)
  | some claimed ↦ (record p { handle = none }, some claimed)
]

unfoldable pub is_armed : ThreadParker → Bool
is_armed p = elim p.handle [ none ↦ false | some _ ↦ true ]
