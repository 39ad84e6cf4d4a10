-- ===== src/Vacuum/Seen.antt =====
-- What counts as all-visible is visible to all.
use pg_tde.Base.{
  arith, ℕ, ◌≡◌, refl, ap, ◌∙◌, Bool, true, false, ◌&&◌, ◌||◌, not, none, some, List, [], ◌∷◌, all,
  if◌then◌else◌, ◌==◌,
}
use pg_tde.Visibility.{
  Header, Transactions, Snapshot, set_hint_bits, heap_xmin_committed, mvcc_xmin, mvcc_xmax,
  mvcc_join, heap_tuple_satisfies_mvcc,
}
use pg_tde.Visibility.Historic.{header_xmin}
use pg_tde.Visibility.Vacuum.{
  Status, vacuum_own, vacuum_locked, vacuum_xmax, vacuum_moved, horizon_unmarked,
  heap_tuple_satisfies_vacuum_horizon, beyond, heap_tuple_satisfies_vacuum,
}
use pg_tde.Freeze.Prepare.{pg_tde_tuple_needs_eventual_freeze}
use pg_tde.Hot.{LinePointer, lp_unused, lp_dead, lp_redirect, lp_normal}
use pg_tde.Vacuum.Page.{
  PageVisible, fields_of, with_line, not_visible, is_live, newer_cutoff, visible_loop,
  pg_tde_page_is_all_visible, free_dead, lazy_vacuum_pg_tde_page, flags_for,
}

module _ (tx : Transactions) (snapshot : Snapshot) (current : ℕ → Bool) (oldest_xmin : ℕ)
    (running : (xid : ℕ) → current xid ≡ true → tx.in_progress xid ≡ true)
    (horizon : (xid : ℕ)
      → tx.precedes xid oldest_xmin ≡ true
      → snapshot.in_snapshot xid ≡ false) where
  abbrev reader : Transactions
  reader = record tx { is_current = current }

  abbrev sees : Header → Bool
  sees t = (heap_tuple_satisfies_mvcc reader snapshot t).0

  -- A row whose deletion has not happened, by the look at the deleting transaction.
  vacuum_xmax-seen :
      (t : Header)
      → is_live (vacuum_xmax tx t).result ≡ true
      → (mvcc_xmax reader snapshot (vacuum_xmax tx t).header).0 ≡ true
  unfolding vacuum_xmax vacuum_locked mvcc_xmax set_hint_bits
  vacuum_xmax-seen t e = ground (arith, running t.update_xid, running t.raw_xmax)

  xmin_seen :
      (t : Header)
      → t.xmin_committed ≡ true
      → tx.precedes (header_xmin t) oldest_xmin ≡ true
      → (mvcc_xmax reader snapshot t).0 ≡ true
      → sees t ≡ true
  unfolding heap_tuple_satisfies_mvcc mvcc_join mvcc_xmin
  xmin_seen t c p x = ground (arith, horizon (header_xmin t))

  beyond-live :
      (s : Status)
      → is_live (beyond tx (λ xid. tx.precedes xid oldest_xmin) s).result ≡ true
      → (is_live s.result ≡ true)
        × ((beyond tx (λ xid. tx.precedes xid oldest_xmin) s).header ≡ s.header)
  beyond-live s e = (ground arith, ground arith)

  horizon-seen :
      (t : Header)
      → is_live (heap_tuple_satisfies_vacuum_horizon tx t).result ≡ true
      → (mvcc_xmax reader snapshot (heap_tuple_satisfies_vacuum_horizon tx t).header).0 ≡ true
  unfolding heap_tuple_satisfies_vacuum_horizon horizon_unmarked vacuum_own vacuum_moved
  horizon-seen t e = ground (
    arith,
    vacuum_xmax-seen t,
    vacuum_xmax-seen (set_hint_bits tx heap_xmin_committed t.raw_xmin t),
    vacuum_xmax-seen (set_hint_bits tx heap_xmin_committed 0 t),
  )

  live-seen :
      (t : Header)
      → let s = heap_tuple_satisfies_vacuum tx oldest_xmin t in
        is_live s.result ≡ true
        → s.header.xmin_committed ≡ true
        → tx.precedes (header_xmin s.header) oldest_xmin ≡ true
        → sees s.header ≡ true
  unfolding heap_tuple_satisfies_vacuum
  live-seen t e c p =
      let h = heap_tuple_satisfies_vacuum_horizon tx t in
      let b = beyond-live h e in
      let s = beyond tx (λ xid. tx.precedes xid oldest_xmin) h in
      xmin_seen s.header c p (ap (λ u. (mvcc_xmax reader snapshot u).0) b.1 ∙ horizon-seen t b.0)

  -- A line pointer that is no tuple, or a tuple that the reader sees; no index may point to a dead one.
  abbrev pub line_seen : LinePointer → Bool
  line_seen (lp_normal t) = sees t.header
  line_seen lp_dead = false
  line_seen lp_unused = true
  line_seen (lp_redirect to) = true

  abbrev pub line_frozen : LinePointer → Bool
  line_frozen (lp_normal t) = not (pg_tde_tuple_needs_eventual_freeze (fields_of t.header))
  line_frozen _ = true

  abbrev Found : Bool → PageVisible → Type 0
  Found frozen r =
      r.all_visible ≡ true
      → (all line_seen r.lines ≡ true)
        × (r.all_frozen ≡ true → (all line_frozen r.lines ≡ true) × (frozen ≡ true))

  Found-if :
      (b frozen : Bool) (x y : PageVisible)
      → (b ≡ true → Found frozen x)
      → (b ≡ false → Found frozen y)
      → Found frozen (if b then x else y)
  Found-if true frozen x y k k' = k refl
  Found-if false frozen x y k k' = k' refl

  visible_loop-Found :
      (lines : List LinePointer) (cutoff : ℕ) (frozen : Bool)
      → Found frozen (visible_loop tx oldest_xmin lines cutoff frozen)
  unfolding visible_loop
  visible_loop-Found [] cutoff frozen e = (refl, λ f. (refl, f))
  visible_loop-Found (lp_unused ∷ lines) cutoff frozen e = visible_loop-Found lines cutoff frozen e
  visible_loop-Found (lp_redirect to ∷ lines) cutoff frozen e =
      visible_loop-Found lines cutoff frozen e
  visible_loop-Found (lp_dead ∷ lines) cutoff frozen e = absurd cc
  visible_loop-Found (lp_normal t ∷ lines) cutoff frozen known =
      let s = heap_tuple_satisfies_vacuum tx oldest_xmin t.header in
      let lp = lp_normal (record t { header = s.header }) in
      let gone = not_visible cutoff (lp ∷ lines) in
      let needs = pg_tde_tuple_needs_eventual_freeze (fields_of s.header) in
      let cutoff' = newer_cutoff tx oldest_xmin (header_xmin s.header) cutoff in
      let rest = visible_loop tx oldest_xmin lines cutoff' (frozen && not needs) in
      (Found-if (not (is_live s.result)) frozen gone _ (λ _ e. absurd cc)
          (λ alive.
            Found-if (not s.header.xmin_committed) frozen gone _ (λ _ e. absurd cc)
              (λ committed.
                Found-if (not (tx.precedes (header_xmin s.header) oldest_xmin)) frozen gone
                  (with_line lp rest) (λ _ e. absurd cc)
                  (λ old e.
                    let ih = visible_loop-Found lines cutoff' (frozen && not needs) e in
                    let seen = live-seen t.header (ground arith) (ground arith) (ground arith) in
                    (
                      ground (arith, seen, ih.0),
                      λ f. (ground (arith, (ih.1 f).0, (ih.1 f).1), ground (arith, (ih.1 f).1)),
                    )))))
        known

  flagged :
      (visible frozen : Bool) (xid flags cutoff : ℕ)
      → flags_for visible frozen xid ≡ some (flags, cutoff)
      → (visible ≡ true) × (flags ≡ 3 → frozen ≡ true)
  flagged false frozen xid flags cutoff e = absurd cc
  flagged true true xid flags cutoff e = (refl, λ z. refl)
  flagged true false xid flags cutoff e =
      let one : 1 ≡ flags = ap (λ o. elim o as (λ q. ℕ) [ none ↦ flags | some q ↦ q.0 ]) e in
      (refl, λ z. absurd (omega arith))

  either : (b c : Bool) → (b ≡ true → c ≡ true) → (not b || c) ≡ true
  either true c k = k refl
  either false c k = refl

  -- The bits that vacuum sets in the visibility map are true: where lazy_vacuum_pg_tde_page sets them, the page has no
  -- dead line pointer left and every tuple on it is seen by the reader, whose own transactions run and whose snapshot
  -- counts none before OldestXmin as running; with VISIBILITYMAP_ALL_FROZEN no tuple needs freezing either.
  pub lazy_vacuum_page-seen :
      (truncate_lines : List LinePointer → List LinePointer) (blkno : ℕ) (items : List (ℕ × ℕ))
      (lines : List LinePointer) (flags cutoff : ℕ)
      → (lazy_vacuum_pg_tde_page truncate_lines tx oldest_xmin blkno items lines).map_flags
        ≡ some (flags, cutoff)
      → let r = lazy_vacuum_pg_tde_page truncate_lines tx oldest_xmin blkno items lines in
        (all line_seen r.lines ≡ true) × ((not (flags == 3) || all line_frozen r.lines) ≡ true)
  unfolding lazy_vacuum_pg_tde_page pg_tde_page_is_all_visible
  lazy_vacuum_page-seen truncate_lines blkno items lines flags cutoff e =
      let left = truncate_lines (free_dead blkno items lines).0 in
      let r = visible_loop tx oldest_xmin left 0 true in
      let f = flagged r.all_visible r.all_frozen r.visibility_cutoff_xid flags cutoff e in
      let found = visible_loop-Found left 0 true f.0 in
      (
        found.0,
        either (flags == 3) (all line_frozen r.lines) (λ z. (found.1 (f.1 (ground arith))).0),
      )
