-- ===== src/Park/Blocking/Account.antt =====
-- What the peer of a `pop_block` has published, before its close and after it, and what the calls of
-- the waiter have returned: an account kept beside the steps, which reads them and changes nothing.
use quetzalcoatl.Common.{Bool, true, false, Option, none, some, List, [], ◌∷◌, ◌++◌}
use quetzalcoatl.Park.ThreadParker.{Thread}
use quetzalcoatl.Park.Blocking.{Waiting, returned, Waker, idle, Site, Turn, wait, publish, turn}

-- Each list in the order of the steps.
pub record Account {ℓ} (A : Type ℓ) : Type ℓ where
  pub before_close : List A
  pub after_close : List A
  pub answered : List A

module _ {ℓ} {A : Type ℓ} where
  abbrev pub nothing_yet : Account A
  nothing_yet = record { before_close = []; after_close = []; answered = [] }

  -- What a turn puts into the ring: a peer in its wake publishes nothing.
  abbrev pub put : Turn A → Waker → Option A
  put (publish v) idle = some v
  put m p = none

  -- What the call returns by a turn that leaves the waiter there.
  abbrev pub answer : Turn A → Waiting A → Option A
  answer wait (returned r) = r
  answer m w = none

  abbrev pub add_put : Option A → Bool → Account A → Account A
  add_put none closed a = a
  add_put (some v) true a = record a { after_close = a.after_close ++ (v ∷ []) }
  add_put (some v) false a = record a { before_close = a.before_close ++ (v ∷ []) }

  abbrev pub add_answer : Option A → Account A → Account A
  add_answer none a = a
  add_answer (some v) a = record a { answered = a.answered ++ (v ∷ []) }

  -- The account after the turns of a run.
  unfoldable pub account : Thread → List (Turn A) → Site A → Account A → Account A
  account me [] s a = a
  account me (m ∷ ms) s a =
      let t = turn me m s in
      account me ms t (add_answer (answer m t.waiter) (add_put (put m s.peer) s.closed a))
