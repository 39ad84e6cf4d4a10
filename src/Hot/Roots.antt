-- ===== src/Hot/Roots.antt =====
-- The roots of the tuples of a page, src/access/pg_tde_prune.c: `pg_tde_get_root_tuples`.
pub mod Chains
pub mod Found
use pg_tde.Base.{
  dec_lt, ◌≢◌, ◌⊎◌, inl, inr, Bool-cases, arith, ℕ, zero, suc, ◌+◌, ◌≤◌, ◌<◌, ◌≡◌, refl, ap, sym,
  ◌∙◌, subst, Bool, true, false, ◌&&◌, ◌||◌, not, Option, none, some, List, if◌then◌else◌, ltb, leb,
  ◌==◌, length,
}
use pg_tde.Visibility.Historic.{header_xmin}
use pg_tde.Visibility.Vacuum.{header_update_xid}
use pg_tde.Hot.{
  HotTuple, LinePointer, lp_unused, lp_dead, lp_redirect, lp_normal, is_hot_updated, item_id,
}
use pg_tde.Hot.Chain.{max_heap_tuples_per_page}

abbrev pub put_root : ℕ → ℕ → (ℕ → ℕ) → ℕ → ℕ
put_root o root roots b = if b == o then root else roots b

module _ (lines : List LinePointer) where
  -- The line pointer that is read; none past the array, where the code reads something else.
  abbrev pub read_line : ℕ → Option LinePointer
  read_line o = if ltb 0 o && leb o (length lines) then some (item_id lines o) else none

  -- The loop along a chain; none if it reads past the array or does not end within `room` rounds.
  unfoldable pub follow_chain : ℕ → ℕ → ℕ → ℕ → (ℕ → ℕ) → Option (ℕ → ℕ)
  follow_chain zero offnum nextoffnum prior_xmax roots = none
  follow_chain (suc room) offnum nextoffnum prior_xmax roots =
      if ltb offnum 1
      then some roots
      else if ltb (length lines) offnum
      then some roots
      else elim (read_line nextoffnum) [
        | none ↦ none
        | some lp ↦ elim lp [
          | lp_normal t ↦
              let marked = put_root nextoffnum offnum roots in
              let rest = follow_chain room offnum t.ctid_off (header_update_xid t.header) marked in
              if not (prior_xmax == 0) && not (header_xmin t.header == prior_xmax)
              then some roots
              else if not (is_hot_updated t)
              then some marked
              else rest
          | _ ↦ some roots
        ]
      ]

  -- The body of the loop over the line pointers.
  unfoldable pub root_line : ℕ → LinePointer → (ℕ → ℕ) → Option (ℕ → ℕ)
  root_line offnum lp_unused roots = some roots
  root_line offnum lp_dead roots = some roots
  root_line offnum (lp_redirect to) roots = follow_chain max_heap_tuples_per_page offnum to 0 roots
  root_line offnum (lp_normal t) roots =
      let marked = put_root offnum offnum roots in
      if t.heap_only
      then some roots
      else if not (is_hot_updated t)
      then some marked
      else follow_chain max_heap_tuples_per_page offnum t.ctid_off (header_update_xid t.header)
          marked

  -- The loop, with `k` line pointers left.
  unfoldable pub root_loop : ℕ → ℕ → (ℕ → ℕ) → Option (ℕ → ℕ)
  root_loop zero offnum roots = some roots
  root_loop (suc k) offnum roots = elim (root_line offnum (item_id lines offnum) roots) [
    | none ↦ none
    | some roots' ↦ root_loop k (offnum + 1) roots'
  ]

  -- `pg_tde_get_root_tuples`: the root of each offset number, 0 for InvalidOffsetNumber.
  unfoldable pub pg_tde_get_root_tuples : Option (ℕ → ℕ)
  pg_tde_get_root_tuples = root_loop (length lines) 1 (λ o. 0)
