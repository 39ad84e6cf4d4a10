-- ===== src/Hot/Roots/Chains.antt =====
-- The chains of a page, and what a walk marks.
use pg_tde.Base.{
  ◌≢◌, ◌⊎◌, inl, inr, Bool-cases, arith, ℕ, ◌≤◌, ◌<◌, ◌≡◌, refl, ap, sym, ◌∙◌, subst, Bool, true,
  false, ◌||◌, Option, none, some, List, if◌then◌else◌, ◌==◌, length,
}
use pg_tde.Visibility.Historic.{header_xmin}
use pg_tde.Visibility.Vacuum.{header_update_xid}
use pg_tde.Hot.{HotTuple, LinePointer, lp_redirect, lp_normal, is_hot_updated, item_id}
use pg_tde.Hot.Roots.{put_root, read_line}

pub true-ne-false : true ≢ false
true-ne-false e = cc

module _ (lines : List LinePointer) where
  -- A tuple may follow one that transaction `prior_xmax` updated, 0 if that is not known.
  abbrev pub follows : ℕ → HotTuple → Bool
  follows prior_xmax t = (prior_xmax == 0) || (header_xmin t.header == prior_xmax)

  -- The offsets of the chain that goes on at `next`: of tuples each of which the one before was updated to.
  pub data Reaches : ℕ → ℕ → ℕ → Type 0 where
    here :
        {next prior_xmax : ℕ}
        → (t : HotTuple) → item_id lines next ≡ lp_normal t
        → follows prior_xmax t ≡ true
        → Reaches next prior_xmax next
    further :
        {next prior_xmax o : ℕ}
        → (t : HotTuple) → item_id lines next ≡ lp_normal t
        → follows prior_xmax t ≡ true
        → is_hot_updated t ≡ true
        → Reaches t.ctid_off (header_update_xid t.header) o
        → Reaches next prior_xmax o

  -- The tuples of the chain that starts at `root`: a tuple that is not heap-only, or a redirect, is a root.
  pub data OnChain : ℕ → ℕ → Type 0 where
    own :
        {root : ℕ}
        → (t : HotTuple) → item_id lines root ≡ lp_normal t
        → t.heap_only ≡ false
        → OnChain root root
    updated :
        {root o : ℕ}
        → (t : HotTuple) → item_id lines root ≡ lp_normal t
        → t.heap_only ≡ false
        → is_hot_updated t ≡ true
        → Reaches t.ctid_off (header_update_xid t.header) o
        → OnChain root o
    redirected :
        {root o : ℕ}
        → (to : ℕ) → item_id lines root ≡ lp_redirect to
        → Reaches to 0 o
        → OnChain root o

  -- What a walk adds: marks with `root` of the offsets `On`, all of them.
  abbrev pub Marks : ℕ → (ℕ → Type 0) → (ℕ → ℕ) → (ℕ → ℕ) → Type 0
  Marks root On roots after =
      ((o : ℕ) → (after o ≡ roots o) ⊎ ((after o ≡ root) × On o)) × ((o : ℕ) → On o → after o ≢ 0)

  abbrev pub Good : ℕ → (ℕ → Type 0) → (ℕ → ℕ) → Option (ℕ → ℕ) → Type 0
  Good root On roots r = (after : ℕ → ℕ) × (r ≡ some after) × Marks root On roots after

  pub Good-if :
      (b : Bool) (root : ℕ) (On : ℕ → Type 0) (roots : ℕ → ℕ) (x y : Option (ℕ → ℕ))
      → (b ≡ true → Good root On roots x)
      → (b ≡ false → Good root On roots y)
      → Good root On roots (if b then x else y)
  Good-if true root On roots x y k k' = k refl
  Good-if false root On roots x y k k' = k' refl

  -- Where there is nothing to mark.
  pub unmarked :
      (root : ℕ) (On : ℕ → Type 0) (roots : ℕ → ℕ)
      → ((o : ℕ) → On o → ⊥)
      → Good root On roots (some roots)
  unmarked root On roots off = (roots, refl, (λ o. inl refl, λ o on. absurd (off o on)))

  pub tuple_of : (t u : HotTuple) → lp_normal t ≡ lp_normal u → t ≡ u
  tuple_of t u e = ap (λ lp. elim lp as (λ q. HotTuple) [ lp_normal v ↦ v | _ ↦ t ]) e

  pub no_chain :
      (next prior_xmax : ℕ) (lp : LinePointer)
      → item_id lines next ≡ lp
      → ((t : HotTuple) → lp ≡ lp_normal t → follows prior_xmax t ≡ false)
      → (o : ℕ) → Reaches next prior_xmax o
      → ⊥
  no_chain next prior_xmax lp e off o (here t at fits) =
      true-ne-false (sym fits ∙ off t (sym e ∙ at))
  no_chain next prior_xmax lp e off o (further t at fits hot rest) =
      true-ne-false (sym fits ∙ off t (sym e ∙ at))

  pub marked-at : (b : Bool) (m n : ℕ) → b ≡ true → (if b then m else n) ≡ m
  marked-at b m n e = ground arith

  pub put_root-here : (o root : ℕ) (roots : ℕ → ℕ) → put_root o root roots o ≡ root
  put_root-here o root roots = marked-at (o == o) root (roots o) (ground arith)

  pub put_root-cases :
      (o root b : ℕ) (roots : ℕ → ℕ)
      → (put_root o root roots b ≡ roots b) ⊎ ((put_root o root roots b ≡ root) × (b ≡ o))
  put_root-cases o root b roots = elim (Bool-cases (b == o)) [
    | inl e ↦ inr (ground arith, ground arith)
    | inr e ↦ inl (ground arith)
  ]

  -- A tuple is marked, and the chain ends or goes on after it.
  pub then-Marks :
      (root next : ℕ) (On Rest : ℕ → Type 0) (roots after : ℕ → ℕ)
      → root ≢ 0
      → On next
      → ((o : ℕ) → Rest o → On o)
      → ((o : ℕ) → On o → (o ≡ next) ⊎ Rest o)
      → Marks root Rest (put_root next root roots) after
      → Marks root On roots after
  then-Marks root next On Rest roots after valid first goes_on splits (sound, complete) = (
    λ o. elim (sound o) [
      | inr (e, rest) ↦ inr (e, goes_on o rest)
      | inl e ↦ elim (put_root-cases next root o roots) [
        | inl e' ↦ inl (e ∙ e')
        | inr (e', at) ↦ inr (e ∙ e', subst On (sym at) first)
      ]
    ],
    λ o on. elim (splits o on) [
      | inr rest ↦ complete o rest
      | inl at ↦ elim (sound o) [
        | inr (e, rest) ↦ λ zero_. valid (sym e ∙ zero_)
        | inl e ↦
            let put : put_root next root roots o ≡ root =
              ap (put_root next root roots) at ∙ put_root-here next root roots in
            λ zero_. valid (sym (e ∙ put) ∙ zero_)
      ]
    ],
  )

  -- A chain that goes on at the tuple `t` has it first, and goes on after it if it was updated.
  pub splits :
      (next prior_xmax : ℕ) (t : HotTuple)
      → item_id lines next ≡ lp_normal t
      → (o : ℕ) → Reaches next prior_xmax o
      → (o ≡ next) ⊎ ((is_hot_updated t ≡ true) × Reaches t.ctid_off (header_update_xid t.header) o)
  splits next prior_xmax t e o (here u at fits) = inl refl
  splits next prior_xmax t e o (further u at fits hot rest) =
      let same : u ≡ t = tuple_of u t (sym at ∙ e) in
      inr (
        subst (λ v. (is_hot_updated v ≡ true) × Reaches v.ctid_off (header_update_xid v.header) o)
          same (hot, rest))

  -- The tuple at `next` is the last of the chain, or not.
  pub mark_last :
      (root next : ℕ) (On : ℕ → Type 0) (roots : ℕ → ℕ)
      → root ≢ 0
      → On next
      → ((o : ℕ) → On o → o ≡ next)
      → Good root On roots (some (put_root next root roots))
  mark_last root next On roots valid first only = (
    put_root next root roots,
    refl,
    then-Marks root next On (λ o. ⊥) roots (put_root next root roots) valid first
        (λ o off. absurd off) (λ o on. inl (only o on)) (λ o. inl refl, λ o off. absurd off),
  )

  pub mark_on :
      (root next : ℕ) (On Rest : ℕ → Type 0) (roots : ℕ → ℕ) (r : Option (ℕ → ℕ))
      → root ≢ 0
      → On next
      → ((o : ℕ) → Rest o → On o)
      → ((o : ℕ) → On o → (o ≡ next) ⊎ Rest o)
      → Good root Rest (put_root next root roots) r
      → Good root On roots r
  mark_on root next On Rest roots r valid first goes_on split (after, e, marks) =
      (after, e, then-Marks root next On Rest roots after valid first goes_on split marks)

  pub Good-read :
      (root : ℕ) (On : ℕ → Type 0) (roots : ℕ → ℕ) (o : Option LinePointer) (lp : LinePointer)
      (f : LinePointer → Option (ℕ → ℕ))
      → o ≡ some lp
      → Good root On roots (f lp)
      → Good root On roots (elim o as (λ q. Option (ℕ → ℕ)) [ none ↦ none | some p ↦ f p ])
  Good-read root On roots o lp f e k =
      subst
        (λ q. Good root On roots (elim q as (λ q'. Option (ℕ → ℕ)) [ none ↦ none | some p ↦ f p ]))
        (sym e) k

  pub read_line-inside :
      (o : ℕ) → 0 < o → o ≤ length lines → read_line lines o ≡ some (item_id lines o)
  read_line-inside o low high = ground arith

  pub not_last :
      (t : HotTuple) {A : Type 0} (o next : ℕ)
      → is_hot_updated t ≡ false
      → (o ≡ next) ⊎ ((is_hot_updated t ≡ true) × A)
      → o ≡ next
  not_last t o next last (inl e) = e
  not_last t o next last (inr (hot, rest)) = absurd (true-ne-false (sym hot ∙ last))
