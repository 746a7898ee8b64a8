-- ===== src/Spmc/Threads/Frame.antt =====
-- What a step of one thread of an spmc ring leaves to the others.
use quetzalcoatl.Common.{
  ℕ, ◌%◌, ◌≤◌, ◌≡◌, ◌≢◌, ◌⊎◌, refl, sym, ap, subst, ◌∙◌, inl, inr, Option, List, arith,
}
use quetzalcoatl.Common.Tests.{◌==◌, ==_iff, Bool-cases}
use quetzalcoatl.Common.Lists.{get_elem?, set, get_elem?-set_ne}
use quetzalcoatl.Park.ThreadParker.{Thread}
use quetzalcoatl.Park.SoleParker.{SoleParker}
use quetzalcoatl.Park.WakeSet.{WakeSet}
use quetzalcoatl.Slot.Done.{DoneWord}
use quetzalcoatl.Mpsc.Board.{update, update_self, update-ne}
use quetzalcoatl.Spmc.Ring.{Consumer}
use quetzalcoatl.Spmc.Ledger.{
  Fate, unsent, sent, claimed, taken, given, read_by, IsForeign, read_by-IsForeign, reads-same,
  Kept, At,
}
use quetzalcoatl.Spmc.Threads.{
  Popping, idle, heading, comparing, closing, rechecking, reheading, swapping, reading, releasing,
  Handle, Threads,
}
use quetzalcoatl.Spmc.Threads.Inv.{progress, Free, PopAt, HandleAt, Inv}

-- Two positions that both own their slot have different slots.
pub Free-apart :
    (done : List DoneWord) (m p q : ℕ) → Free done m p → Free done m q → p ≢ q → p % m ≢ q % m
Free-apart done m p q e e' ne same = ne (cc (e, e', ap (get_elem? done) same))

-- What holds of the changed member of a family, and of the others, holds of all.
pub update_elim {ℓ κ} :
    {X : Type ℓ} (P : ℕ → X → Type κ) (f : ℕ → X) (i : ℕ) (a : X)
    → P i a
    → ((j : ℕ) → j ≢ i → P j (f j))
    → (j : ℕ) → P j (update f i a j)
update_elim P f i a here others j = elim (Bool-cases (j == i)) [
  | inl same ↦
      let e = (==_iff j i).0 same in
      subst (λ j. P j (update f i a j)) (sym e) (subst (P i) (sym (update_self f i a)) here)
  | inr other ↦
      let ne : j ≢ i = λ e. cc (other, (==_iff j i).1 e) in
      subst (P j) (sym (update-ne f i j a ne)) (others j ne)
]

module _ {ℓ} {A : Type ℓ} where
  -- A change of the value, or of the word, of the slot that position `p` owns.
  pub Kept-set_value :
      (values : List (Option A)) (done : List DoneWord) (m p q : ℕ) (new : Option A)
      {held : Option A}
      → Free done m p
      → p ≢ q
      → Kept values done m q held
      → Kept (set values (p % m) new) done m q held
  Kept-set_value values done m p q new own ne k = record {
    word_at = k.word_at;
    value_at = get_elem?-set_ne values new (Free-apart done m p q own k.word_at ne) ∙ k.value_at;
  }

  pub Kept-set_word :
      (values : List (Option A)) (done : List DoneWord) (m p q : ℕ) (new : DoneWord)
      {held : Option A}
      → Free done m p
      → p ≢ q
      → Kept values done m q held
      → Kept values (set done (p % m) new) m q held
  Kept-set_word values done m p q new own ne k = record {
    word_at = get_elem?-set_ne done new (Free-apart done m p q own k.word_at ne) ∙ k.word_at;
    value_at = k.value_at;
  }

  pub At-set_value :
      (values : List (Option A)) (done : List DoneWord) (m p q : ℕ) (new : Option A) (x : Fate A)
      → Free done m p
      → p ≢ q
      → At values done m x q
      → At (set values (p % m) new) done m x q
  At-set_value values done m p q new unsent own ne k = tt
  At-set_value values done m p q new (sent v) own ne k =
      Kept-set_value values done m p q new own ne k
  At-set_value values done m p q new (claimed j v) own ne k =
      Kept-set_value values done m p q new own ne k
  At-set_value values done m p q new (taken j v) own ne k =
      Kept-set_value values done m p q new own ne k
  At-set_value values done m p q new (given j v) own ne k = tt

  pub At-set_word :
      (values : List (Option A)) (done : List DoneWord) (m p q : ℕ) (new : DoneWord) (x : Fate A)
      → Free done m p
      → p ≢ q
      → At values done m x q
      → At values (set done (p % m) new) m x q
  At-set_word values done m p q new unsent own ne k = tt
  At-set_word values done m p q new (sent v) own ne k = Kept-set_word values done m p q new own ne k
  At-set_word values done m p q new (claimed j v) own ne k =
      Kept-set_word values done m p q new own ne k
  At-set_word values done m p q new (taken j v) own ne k =
      Kept-set_word values done m p q new own ne k
  At-set_word values done m p q new (given j v) own ne k = tt

  -- The position is the same for consumer `i`, as far as it concerns it.
  abbrev pub Alike : ℕ → (x y : Fate A) → Type ℓ
  Alike i x y = (y ≡ x) ⊎ (IsForeign i x × IsForeign i y)

  Alike-read_by : (i : ℕ) (x y : Fate A) → Alike i x y → read_by i y ≡ read_by i x
  Alike-read_by i x y (inl e) = ap (read_by i) e
  Alike-read_by i x y (inr (a, b)) = read_by-IsForeign i y b ∙ sym (read_by-IsForeign i x a)

  Alike-claimed : (i : ℕ) (x y : Fate A) (v : A) → Alike i x y → x ≡ claimed i v → y ≡ claimed i v
  Alike-claimed i x y v (inl e) at = e ∙ at
  Alike-claimed i x y v (inr (a, b)) at = absurd (subst (IsForeign i) at a refl)

  Alike-taken : (i : ℕ) (x y : Fate A) (v : A) → Alike i x y → x ≡ taken i v → y ≡ taken i v
  Alike-taken i x y v (inl e) at = e ∙ at
  Alike-taken i x y v (inr (a, b)) at = absurd (subst (IsForeign i) at a refl)

  pub PopAt-keep :
      (i : ℕ) (place : Popping) (c : Consumer) (f g : ℕ → Fate A)
      → ((p : ℕ) → Alike i (f p) (g p))
      → PopAt i place c f
      → PopAt i place c g
  PopAt-keep i idle c f g alike k = tt
  PopAt-keep i heading c f g alike k = tt
  PopAt-keep i (comparing h) c f g alike k = tt
  PopAt-keep i closing c f g alike k = tt
  PopAt-keep i rechecking c f g alike k = tt
  PopAt-keep i reheading c f g alike k = tt
  PopAt-keep i (swapping h) c f g alike k = k
  PopAt-keep i (reading p) c f g alike (e, (v, at)) =
      (e, (v, Alike-claimed i (f p) (g p) v (alike p) at))
  PopAt-keep i (releasing p) c f g alike (e, (v, at)) =
      (e, (v, Alike-taken i (f p) (g p) v (alike p) at))

  pub HandleAt-keep :
      (i : ℕ) (h : Handle) (f g : ℕ → Fate A) (out : List A) (head tail head' tail' : ℕ)
      → head ≤ head'
      → tail ≤ tail'
      → ((p : ℕ) → Alike i (f p) (g p))
      → HandleAt i h f out head tail
      → HandleAt i h g out head' tail'
  HandleAt-keep i h f g out head tail head' tail' up up' alike k = record {
    old = omega (arith, k.old);
    batch = k.batch;
    behind = omega (arith, k.behind);
    mine = λ p from to.
        let (v, e) = k.mine p from to in (v, Alike-claimed i (f p) (g p) v (alike p) e);
    at = PopAt-keep i h.place h.consumer f g alike k.at;
    got =
        k.got
        ∙ sym (
            reads-same i f g (progress h.place h.consumer)
              (λ p lt. Alike-read_by i (f p) (g p) (alike p)));
    rest = λ p from. Alike-read_by i (f p) (g p) (alike p) ∙ k.rest p from;
  }

  -- All handles, after handle `i` moved.
  pub put-HandleAt :
      (hs : ℕ → Handle) (i : ℕ) (h : Handle) (f g : ℕ → Fate A) (out out' : ℕ → List A)
      (head tail head' tail' : ℕ)
      → ((j : ℕ) → HandleAt j (hs j) f (out j) head tail)
      → HandleAt i h g (out' i) head' tail'
      → head ≤ head'
      → tail ≤ tail'
      → ((j : ℕ) → j ≢ i → (out' j ≡ out j) × ((p : ℕ) → Alike j (f p) (g p)))
      → (j : ℕ) → HandleAt j (update hs i h j) g (out' j) head' tail'
  put-HandleAt hs i h f g out out' head tail head' tail' all mine up up' others =
      update_elim (λ j h. HandleAt j h g (out' j) head' tail') hs i h mine
        (λ j ne.
          let (same, alike) = others j ne in
          subst (λ l. HandleAt j (hs j) g l head' tail') (sym same)
            (HandleAt-keep j (hs j) f g (out j) head tail head' tail' up up' alike (all j)))

  pub Alike-update :
      (i : ℕ) (f : ℕ → Fate A) (pos : ℕ) (x : Fate A)
      → IsForeign i (f pos)
      → IsForeign i x
      → (p : ℕ) → Alike i (f p) (update f pos x p)
  Alike-update i f pos x a b =
      update_elim (λ p y. Alike i (f p) y) f pos x (inr (a, b)) (λ j ne. inl refl)

  -- The park states are no concern of the ring's.
  pub Inv-parks :
      {n : ℕ} (t : Threads A) (a : SoleParker) (b : WakeSet) (c : List Thread)
      → Inv n t
      → Inv n (record t {
        ring = record (t.ring) { producer_park = a; consumer_park = b; unparked = c };
      })
  Inv-parks t a b c k = record {
    valid = k.valid;
    values = k.values;
    words = k.words;
    small = k.small;
    ordered = k.ordered;
    cursor = k.cursor;
    slots = k.slots;
    ahead = k.ahead;
    waiting = k.waiting;
    behind = k.behind;
    log = k.log;
    pushing = k.pushing;
    handles = k.handles;
  }
