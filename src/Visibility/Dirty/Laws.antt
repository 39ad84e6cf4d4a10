-- ===== src/Visibility/Dirty/Laws.antt =====
-- `HeapTupleSatisfiesDirty` against `HeapTupleSatisfiesSelf`.
use pg_tde.Base.{arith, refl, ◌≡◌, ◌≢◌, true, false}
use pg_tde.Visibility.{
  Header, Transactions, Verdict, visible, invisible, look_at_xmax, set_hint_bits,
  heap_xmin_committed, moved_xmin,
}
use pg_tde.Visibility.Self.{self_own, self_xmin, self_xmax, self_join, heap_tuple_satisfies_self}
use pg_tde.Visibility.Dirty.{dirty_xmax, dirty_join, heap_tuple_satisfies_dirty}

module _ (tx : Transactions) where
  -- The deleting transaction is taken alike, and one that is reported is in progress.
  dirty_xmax-seen : (t : Header) → (dirty_xmax tx t).seen ≡ (self_xmax tx t).0
  unfolding dirty_xmax self_xmax
  dirty_xmax-seen t = ground arith

  dirty_xmax-header : (t : Header) → (dirty_xmax tx t).header ≡ (self_xmax tx t).1
  unfolding dirty_xmax self_xmax
  dirty_xmax-header t = ground arith

  dirty_xmax-running :
      (t : Header) → (dirty_xmax tx t).xmax ≢ 0 → tx.in_progress (dirty_xmax tx t).xmax ≡ true
  unfolding dirty_xmax
  dirty_xmax-running t h = ground arith

  dirty_xmax-xmin : (t : Header) → (dirty_xmax tx t).xmin ≡ 0
  unfolding dirty_xmax
  dirty_xmax-xmin t = ground arith

  join-seen : (r : Verdict × Header) → (dirty_join tx r).seen ≡ (self_join tx r).0
  unfolding dirty_join self_join
  join-seen (visible, t) = refl
  join-seen (invisible, t) = refl
  join-seen (look_at_xmax, t) = dirty_xmax-seen t

  join-header : (r : Verdict × Header) → (dirty_join tx r).header ≡ (self_join tx r).1
  unfolding dirty_join self_join
  join-header (visible, t) = refl
  join-header (invisible, t) = refl
  join-header (look_at_xmax, t) = dirty_xmax-header t

  join-xmin : (r : Verdict × Header) → (dirty_join tx r).xmin ≡ 0
  unfolding dirty_join
  join-xmin (visible, t) = refl
  join-xmin (invisible, t) = refl
  join-xmin (look_at_xmax, t) = dirty_xmax-xmin t

  -- Leaving aside the rows that another open transaction is inserting, which are reported, a dirty
  -- read sees exactly what the row's own transaction would, and sets the same hint bits.
  pub heap_tuple_satisfies_dirty-eq_self :
      (t : Header)
      → tx.in_progress t.raw_xmin ≡ false
      → let d = heap_tuple_satisfies_dirty tx t in
        let s = heap_tuple_satisfies_self tx t in (d.seen ≡ s.0) × (d.header ≡ s.1) × (d.xmin ≡ 0)
  unfolding heap_tuple_satisfies_dirty dirty_join heap_tuple_satisfies_self self_xmin self_join
  heap_tuple_satisfies_dirty-eq_self t idle =
      let own = self_own tx t in
      let moved = moved_xmin tx t in
      let hinted = set_hint_bits tx heap_xmin_committed t.raw_xmin t in
      (
        ground (arith, join-seen own, join-seen moved, dirty_xmax-seen t, dirty_xmax-seen hinted),
        ground (
          arith,
          join-header own,
          join-header moved,
          dirty_xmax-header t,
          dirty_xmax-header hinted,
        ),
        ground (arith, join-xmin own, join-xmin moved, dirty_xmax-xmin t, dirty_xmax-xmin hinted),
      )
