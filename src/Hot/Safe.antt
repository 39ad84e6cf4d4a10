-- ===== src/Hot/Safe.antt =====
-- The line pointers that pruning changes are those of tuples found dead or recently dead.
use pg_tde.Base.{
  arith, ℕ, ◌+◌, ◌≡◌, refl, Bool, true, false, ◌&&◌, ◌||◌, Option, none, some, if◌then◌else◌, ◌⊎◌,
  inl, inr, List, [], ◌∷◌, ◌++◌, any, all, ◌==◌,
}
use pg_tde.Visibility.Vacuum.{HtsvResult, dead, recently_dead}
use pg_tde.Hot.{
  PruneServer, PruneState, record_prunable, record_redirect, record_dead, record_unused,
}
use pg_tde.Hot.Chain.{Walk, drop_items}

-- Whether what has the status may be changed: a tuple that is dead or recently dead, or no tuple.
abbrev pub is_removable : Option HtsvResult → Bool
is_removable none = true
is_removable (some dead) = true
is_removable (some recently_dead) = true
is_removable (some _) = false

all-snoc {ℓ} :
    {A : Type ℓ} (p : A → Bool) (xs : List A) (x : A)
    → all p xs ≡ true
    → p x ≡ true
    → all p (xs ++ (x ∷ [])) ≡ true
all-snoc p [] x h k = ground arith
all-snoc p (y ∷ xs) x h k = ground (arith, all-snoc p xs x)

any-snoc :
    (p : ℕ → Bool) (xs : List ℕ) (x : ℕ)
    → (any p xs ≡ true) ⊎ (p x ≡ true)
    → any p (xs ++ (x ∷ [])) ≡ true
any-snoc p [] x h = ground arith
any-snoc p (y ∷ xs) x h = ground (arith, any-snoc p xs x)

module _ (h : ℕ → Option HtsvResult) where
  abbrev pub gone : ℕ → Bool
  gone o = is_removable (h o)

  -- The statuses are `h`, and all that is recorded is of line pointers that may be changed.
  abbrev pub Safe : PruneState → Type 0
  Safe st =
      (st.htsv ≡ h)
      × (all (λ p. gone p.0) st.redirected ≡ true)
      × (all gone st.nowdead ≡ true)
      × (all gone st.nowunused ≡ true)

  pub record_redirect-Safe :
      (o to : ℕ) (st : PruneState) → gone o ≡ true → Safe st → Safe (record_redirect o to st)
  record_redirect-Safe o to st g (e, r, d, u) =
      (e, all-snoc (λ p. gone p.0) st.redirected (o, to) r g, d, u)

  pub record_dead-Safe :
      (o : ℕ) (st : PruneState) → gone o ≡ true → Safe st → Safe (record_dead o st)
  record_dead-Safe o st g (e, r, d, u) = (e, r, all-snoc gone st.nowdead o d g, u)

  pub record_unused-Safe :
      (o : ℕ) (st : PruneState) → gone o ≡ true → Safe st → Safe (record_unused o st)
  record_unused-Safe o st g (e, r, d, u) = (e, r, d, all-snoc gone st.nowunused o u g)

  Safe-if : (b : Bool) (s s' : PruneState) → Safe s → Safe s' → Safe (if b then s else s')
  Safe-if true s s' k k' = k
  Safe-if false s s' k k' = k'

  pub record_prunable-Safe :
      (sv : PruneServer) (xid : ℕ) (st : PruneState) → Safe st → Safe (record_prunable sv xid st)
  unfolding record_prunable
  record_prunable-Safe sv xid st s = Safe-if _ (record st { new_prune_xid = xid }) st s s

  -- The items up to the last dead one may all be changed, and it is among them.
  abbrev pub cleared : ℕ → List ℕ → Bool
  cleared latest [] = false
  cleared latest (item ∷ items) = gone item && (item == latest || cleared latest items)

  cleared-all :
      (latest : ℕ) (items : List ℕ)
      → all gone items ≡ true
      → any (λ i. i == latest) items ≡ true
      → cleared latest items ≡ true
  cleared-all latest [] a m = ground arith
  cleared-all latest (item ∷ items) a m = ground (arith, cleared-all latest items)

  cleared-snoc :
      (latest o : ℕ) (items : List ℕ)
      → cleared latest items ≡ true
      → cleared latest (items ++ (o ∷ [])) ≡ true
  cleared-snoc latest o [] c = ground arith
  cleared-snoc latest o (item ∷ items) c = ground (arith, cleared-snoc latest o items)

  -- The first item is the root.
  abbrev pub Begins : ℕ → ℕ → List ℕ → Type 0
  Begins root o [] = o ≡ root
  Begins root o (item ∷ items) = item ≡ root

  Begins-snoc :
      (root o o' : ℕ) (items : List ℕ) → Begins root o items → Begins root o' (items ++ (o ∷ []))
  Begins-snoc root o o' [] b = b
  Begins-snoc root o o' (item ∷ items) b = b

  -- What holds while the walk goes on, and when it has ended.
  abbrev pub Walking : ℕ → Walk → Type 0
  Walking root w =
      Safe w.state
      × (all gone w.chainitems ≡ true)
      × ((w.latestdead ≡ 0) ⊎ (any (λ i. i == w.latestdead) w.chainitems ≡ true))
      × Begins root w.offnum w.chainitems

  abbrev pub Walked : ℕ → Walk → Type 0
  Walked root w =
      Safe w.state
      × ((w.latestdead ≡ 0) ⊎ (cleared w.latestdead w.chainitems ≡ true))
      × Begins root w.offnum w.chainitems

  cleared-found :
      (latest : ℕ) (items : List ℕ)
      → all gone items ≡ true
      → (latest ≡ 0) ⊎ (any (λ i. i == latest) items ≡ true)
      → (latest ≡ 0) ⊎ (cleared latest items ≡ true)
  cleared-found latest items a (inl z) = inl z
  cleared-found latest items a (inr m) = inr (cleared-all latest items a m)

  pub Walking-Walked : (root : ℕ) (w : Walk) → Walking root w → Walked root w
  Walking-Walked root w (s, a, l, b) = (s, cleared-found w.latestdead w.chainitems a l, b)

  abbrev pub joins : ℕ → ℕ → ℕ → PruneState → Walk → Walk
  joins o' xmax latest st w = record {
    offnum = o';
    prior_xmax = xmax;
    chainitems = w.chainitems ++ (w.offnum ∷ []);
    latestdead = latest;
    state = st;
  }

  -- An item joins the chain: one that may be changed, whether it is the last dead one now or not, or one
  -- that ends the walk.
  pub Walking-kept :
      (root o' xmax : ℕ) (st : PruneState) (w : Walk)
      → gone w.offnum ≡ true
      → Safe st
      → Walking root w
      → Walking root (joins o' xmax w.latestdead st w)
  Walking-kept root o' xmax st w g safe (s, a, l, b) = (
    safe,
    all-snoc gone w.chainitems w.offnum a g,
    elim l [
      | inl z ↦ inl z
      | inr m ↦ inr (any-snoc (λ i. i == w.latestdead) w.chainitems w.offnum (inl m))
    ],
    Begins-snoc root w.offnum o' w.chainitems b,
  )

  pub Walking-dead :
      (root o' xmax : ℕ) (st : PruneState) (w : Walk)
      → gone w.offnum ≡ true
      → Safe st
      → Walking root w
      → Walking root (joins o' xmax w.offnum st w)
  Walking-dead root o' xmax st w g safe (s, a, l, b) = (
    safe,
    all-snoc gone w.chainitems w.offnum a g,
    inr (any-snoc (λ i. i == w.offnum) w.chainitems w.offnum (inr (ground arith))),
    Begins-snoc root w.offnum o' w.chainitems b,
  )

  pub Walked-last :
      (root o' xmax : ℕ) (st : PruneState) (w : Walk)
      → Safe st
      → Walking root w
      → Walked root (joins o' xmax w.latestdead st w)
  Walked-last root o' xmax st w safe (s, a, l, b) = (
    safe,
    elim (cleared-found w.latestdead w.chainitems a l) [
      | inl z ↦ inl z
      | inr c ↦ inr (cleared-snoc w.latestdead w.offnum w.chainitems c)
    ],
    Begins-snoc root w.offnum o' w.chainitems b,
  )

  triple-if :
      (b : Bool) (x y : ℕ × PruneState × Option ℕ)
      → (b ≡ true → Safe x.1)
      → (b ≡ false → Safe y.1)
      → Safe (if b then x else y).1
  triple-if true x y k k' = k refl
  triple-if false x y k k' = k' refl

  -- The loop over the items after `prev`.
  pub drop_items-Safe :
      (latest prev : ℕ) (items : List ℕ) (st : PruneState)
      → cleared latest (prev ∷ items) ≡ true
      → Safe st
      → Safe (drop_items latest prev items st).1
  unfolding drop_items
  drop_items-Safe latest prev [] st c s = s
  drop_items-Safe latest prev (item ∷ items) st c s =
      let rest = drop_items latest item items (record_unused item st) in
      triple-if (prev == latest) (0, st, some item) (rest.0 + 1, rest.1, rest.2) (λ e. s)
        (λ e.
          let c' : cleared latest (item ∷ items) ≡ true = ground arith in
          drop_items-Safe latest item items (record_unused item st) c'
            (record_unused-Safe item st (ground arith) s))
