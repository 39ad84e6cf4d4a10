-- ===== src/Hot/SafePage.antt =====
-- Pruning a page leaves the tuples alone that someone may still see.
use pg_tde.Base.{
  arith, ℕ, zero, suc, ◌+◌, ◌≡◌, ◌≢◌, refl, ap, sym, ◌∙◌, Bool, true, false, not, Option, none,
  some, if◌then◌else◌, List, [], ◌∷◌, all,
}
use pg_tde.Visibility.Vacuum.{HtsvResult}
use pg_tde.Hot.{
  LinePointer, lp_unused, lp_dead, lp_redirect, lp_normal, item_id, PruneServer, PruneState,
}
use pg_tde.Hot.Chain.{is_redirect, heap_prune_chain}
use pg_tde.Hot.Page.{Pruned, determine, is_chain_item, prune_item, prune_start}
use pg_tde.Hot.Safe.{gone, Safe}
use pg_tde.Hot.SafeChain.{SafeEnd, heap_prune_chain-SafeEnd}
use pg_tde.Hot.Statuses.{matches, determine-matches, determine-Unrecorded}

-- A line pointer without the place of its tuple.
abbrev pub unplaced : LinePointer → LinePointer
unplaced (lp_normal t) = lp_normal (record t { lp_off = 0 })
unplaced lp_unused = lp_unused
unplaced lp_dead = lp_dead
unplaced (lp_redirect to) = lp_redirect to

module _ (h : ℕ → Option HtsvResult) (o : ℕ) (stays : gone h o ≡ false) where
  -- What pruning leaves of the line pointer: all but the place of its tuple, which compaction may change.
  abbrev pub Leaves : List LinePointer → Option Pruned → Type 0
  Leaves lines none = Unit
  Leaves lines (some p) = unplaced (item_id p.lines o) ≡ unplaced (item_id lines o)

module _ (sv : PruneServer) (lines : List LinePointer) (h : ℕ → Option HtsvResult)
    (redirects : (o : ℕ) → is_redirect (item_id lines o) ≡ true → h o ≡ none) where
  added-SafeEnd :
      (n : ℕ) (r : Option (ℕ × PruneState))
      → SafeEnd sv lines h redirects r
      → SafeEnd sv lines h redirects
          (elim r as (λ q. Option (ℕ × PruneState)) [ none ↦ none | some r ↦ some (n + r.0, r.1) ])
  added-SafeEnd n none k = tt
  added-SafeEnd n (some r) k = k

  end-if :
      (b : Bool) (x y : Option (ℕ × PruneState))
      → SafeEnd sv lines h redirects x
      → SafeEnd sv lines h redirects y
      → SafeEnd sv lines h redirects (if b then x else y)
  end-if true x y k k' = k
  end-if false x y k k' = k'

  pub prune_item-SafeEnd :
      (o n : ℕ) (st : PruneState)
      → Safe h st
      → SafeEnd sv lines h redirects (prune_item sv lines o (n, st))
  unfolding prune_item
  prune_item-SafeEnd o n st s = end-if (st.marked o) (some (n, st)) _ s (
      end-if (not (is_chain_item (item_id lines o))) (some (n, st)) _ s (
        added-SafeEnd n (heap_prune_chain sv lines o st)
          (heap_prune_chain-SafeEnd sv lines h redirects o st s)))

matches-redirect :
    (lp : LinePointer) (r : Option HtsvResult)
    → matches lp r ≡ true
    → is_redirect lp ≡ true
    → r ≡ none
matches-redirect (lp_redirect to) none m e = refl
matches-redirect (lp_redirect to) (some r) m e = absurd cc
matches-redirect (lp_normal t) r m e = absurd cc
matches-redirect lp_unused r m e = absurd cc
matches-redirect lp_dead r m e = absurd cc

pub item_id-zero : (lines : List LinePointer) → item_id lines 0 ≡ lp_unused
item_id-zero [] = refl
item_id-zero (lp ∷ lines) = refl

-- A redirect has no status.
pub no_redirect :
    (sv : PruneServer) (old_snap_xmin : ℕ) (lines : List LinePointer) (o : ℕ)
    → let d = determine sv 1 lines (prune_start old_snap_xmin) in
      is_redirect (item_id d.1 o) ≡ true → d.0.htsv o ≡ none
no_redirect sv old_snap_xmin lines zero e = absurd (
    no_true
      (sym e ∙ ap is_redirect (item_id-zero (determine sv 1 lines (prune_start old_snap_xmin)).1)))
  where
    no_true : true ≢ false
    no_true k = cc
no_redirect sv old_snap_xmin lines (suc i) e =
    let d = determine sv 1 lines (prune_start old_snap_xmin) in
    let m = determine-matches sv 1 i lines (prune_start old_snap_xmin) (λ o. refl) in
    let same : 1 + i ≡ suc i = omega arith in
    ap d.0.htsv (sym same) ∙ matches-redirect (item_id d.1 (suc i)) (d.0.htsv (1 + i)) m e

pub first-Safe :
    (sv : PruneServer) (old_snap_xmin : ℕ) (lines : List LinePointer)
    → let d = determine sv 1 lines (prune_start old_snap_xmin) in Safe d.0.htsv d.0
first-Safe sv old_snap_xmin lines =
    let d = determine sv 1 lines (prune_start old_snap_xmin) in
    let (r, dd, u) =
      determine-Unrecorded sv 1 lines (prune_start old_snap_xmin) (refl, refl, refl) in
    (
      refl,
      ap (all (λ p. gone d.0.htsv p.0)) r,
      ap (all (gone d.0.htsv)) dd,
      ap (all (gone d.0.htsv)) u,
    )
