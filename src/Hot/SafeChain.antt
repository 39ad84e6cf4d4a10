-- ===== src/Hot/SafeChain.antt =====
-- The walk along a chain and what follows it record only line pointers that may be changed.
use pg_tde.Base.{
  ℕ, zero, suc, ◌≡◌, refl, ap, sym, ◌∙◌, Bool, true, false, ◌&&◌, not, Option, none, some,
  if◌then◌else◌, ◌⊎◌, inl, List, [], ◌∷◌, ltb, ◌==◌, length, arith,
}
use pg_tde.Visibility.Vacuum.{
  HtsvResult, dead, live, recently_dead, insert_in_progress, delete_in_progress, header_update_xid,
  is_dead,
}
use pg_tde.Hot.{
  HotTuple, LinePointer, lp_unused, lp_dead, lp_redirect, lp_normal, is_hot_updated, item_id,
  PruneServer, PruneState, record_prunable, record_dead, record_unused, advance_conflict_horizon,
}
use pg_tde.Hot.Chain.{
  max_heap_tuples_per_page, Walk, Turn, stop, unexpected, last, next, member_turn, tuple_turn,
  line_turn, turn, walk_chain, chain_start, drop_items, is_redirect, settle_root, drop_chain,
  settle_chain, prune_from_root, prune_heap_only, heap_prune_chain,
}
use pg_tde.Hot.Safe.{
  joins, is_removable, Begins, gone, Safe, record_redirect-Safe, record_dead-Safe,
  record_unused-Safe, record_prunable-Safe, cleared, Walking, Walked, Walking-Walked, Walking-kept,
  Walking-dead, Walked-last, drop_items-Safe,
}

module _ (sv : PruneServer) (lines : List LinePointer) (h : ℕ → Option HtsvResult) where
  abbrev Kept : ℕ → Turn → Type 0
  Kept root stop = Unit {0}
  Kept root unexpected = Unit {0}
  Kept root (last w) = Walked h root w
  Kept root (next w) = Walking h root w

  Kept-if :
      (b : Bool) (root : ℕ) (x y : Turn)
      → Kept root x
      → Kept root y
      → Kept root (if b then x else y)
  Kept-if true root x y k k' = k
  Kept-if false root x y k k' = k'

  status_gone :
      (o : ℕ) (r : Option HtsvResult) (b : Bool) → h o ≡ r → is_removable r ≡ b → gone h o ≡ b
  status_gone o r b e k = ap is_removable e ∙ k

  member_turn-Kept :
      (root : ℕ) (t : HotTuple) (res : HtsvResult) (w : Walk)
      → h w.offnum ≡ some res
      → Walking h root w
      → Kept root (member_turn sv t res w)
  unfolding member_turn
  member_turn-Kept root t dead w e k =
      let st = record w.state {
        conflict_horizon = advance_conflict_horizon sv t.header w.state.conflict_horizon;
      } in
      let g = status_gone w.offnum (some dead) true e refl in
      Kept-if (not (is_hot_updated t)) root (last _) (next _)
        (Walking-Walked h root (joins h w.offnum w.prior_xmax w.offnum st w)
          (Walking-dead h root w.offnum w.prior_xmax st w g k.0 k))
        (Walking-dead h root t.ctid_off (header_update_xid t.header) st w g k.0 k)
  member_turn-Kept root t recently_dead w e k =
      let xid = header_update_xid t.header in
      let st = record_prunable sv xid w.state in
      let safe = record_prunable-Safe h sv xid w.state k.0 in
      let g = status_gone w.offnum (some recently_dead) true e refl in
      Kept-if (not (is_hot_updated t)) root (last _) (next _)
        (Walking-Walked h root (joins h w.offnum w.prior_xmax w.latestdead st w)
          (Walking-kept h root w.offnum w.prior_xmax st w g safe k))
        (Walking-kept h root t.ctid_off xid st w g safe k)
  member_turn-Kept root t delete_in_progress w e k =
      let xid = header_update_xid t.header in
      Walked-last h root w.offnum w.prior_xmax (record_prunable sv xid w.state) w
        (record_prunable-Safe h sv xid w.state k.0) k
  member_turn-Kept root t live w e k = Walked-last h root w.offnum w.prior_xmax w.state w k.0 k
  member_turn-Kept root t insert_in_progress w e k =
      Walked-last h root w.offnum w.prior_xmax w.state w k.0 k

  status_turn-Kept :
      (root : ℕ) (t : HotTuple) (o : Option HtsvResult) (w : Walk)
      → h w.offnum ≡ o
      → Walking h root w
      → Kept root (elim o as (λ q. Turn) [ none ↦ unexpected | some res ↦ member_turn sv t res w ])
  status_turn-Kept root t none w e k = tt
  status_turn-Kept root t (some res) w e k = member_turn-Kept root t res w e k

  tuple_turn-Kept :
      (root : ℕ) (t : HotTuple) (w : Walk) → Walking h root w → Kept root (tuple_turn sv t w)
  unfolding tuple_turn
  tuple_turn-Kept root t w k =
      Kept-if _ root stop _ tt
        (status_turn-Kept root t (w.state.htsv w.offnum) w (ap (λ f. f w.offnum) (sym k.0.0)) k)

  module _ (redirects : (o : ℕ) → is_redirect (item_id lines o) ≡ true → h o ≡ none) where
    redirect_gone : (o : ℕ) → is_redirect (item_id lines o) ≡ true → gone h o ≡ true
    redirect_gone o r = status_gone o none true (redirects o r) refl

    line_turn-Kept :
        (root : ℕ) (lp : LinePointer) (w : Walk)
        → item_id lines w.offnum ≡ lp
        → Walking h root w
        → Kept root (line_turn sv lp w)
    unfolding line_turn
    line_turn-Kept root lp_unused w e k = tt
    line_turn-Kept root lp_dead w e k = tt
    line_turn-Kept root (lp_redirect to) w e k = Kept-if _ root stop (next _) tt (
        Walking-kept h root to w.prior_xmax w.state w (redirect_gone w.offnum (ap is_redirect e))
          k.0 k)
    line_turn-Kept root (lp_normal t) w e k = tuple_turn-Kept root t w k

    turn-Kept : (root : ℕ) (w : Walk) → Walking h root w → Kept root (turn sv lines w)
    unfolding turn
    turn-Kept root w k =
        let t = line_turn sv (item_id lines w.offnum) w in
        let unmarked = if w.state.marked w.offnum then stop else t in
        let within = if ltb (length lines) w.offnum then stop else unmarked in
        Kept-if (ltb w.offnum 1) root stop within tt (
          Kept-if (ltb (length lines) w.offnum) root stop unmarked tt (
            Kept-if (w.state.marked w.offnum) root stop t tt
              (line_turn-Kept root (item_id lines w.offnum) w refl k)))

    abbrev Arrived : ℕ → Option Walk → Type 0
    Arrived root none = Unit {0}
    Arrived root (some w) = Walked h root w

    full-Walked :
        (root : ℕ) (w : Walk) (t : Turn)
        → Walking h root w
        → Arrived root (elim t as (λ q. Option Walk) [
          | stop ↦ some w
          | unexpected ↦ none
          | last _ ↦ none
          | next _ ↦ none
        ])
    full-Walked root w stop k = Walking-Walked h root w k
    full-Walked root w unexpected k = tt
    full-Walked root w (last w') k = tt
    full-Walked root w (next w') k = tt

    onward-Walked :
        (root : ℕ) (w : Walk) (go : Walk → Option Walk) (t : Turn)
        → Walking h root w
        → Kept root t
        → ((w' : Walk) → Walking h root w' → Arrived root (go w'))
        → Arrived root (elim t as (λ q. Option Walk) [
          | stop ↦ some w
          | unexpected ↦ none
          | last w' ↦ some w'
          | next w' ↦ go w'
        ])
    onward-Walked root w go stop k kt on = Walking-Walked h root w k
    onward-Walked root w go unexpected k kt on = tt
    onward-Walked root w go (last w') k kt on = kt
    onward-Walked root w go (next w') k kt on = on w' kt

    walk_chain-Walked :
        (root room : ℕ) (w : Walk) → Walking h root w → Arrived root (walk_chain sv lines room w)
    unfolding walk_chain
    walk_chain-Walked root zero w k = full-Walked root w (turn sv lines w) k
    walk_chain-Walked root (suc room) w k =
        onward-Walked root w (walk_chain sv lines room) (turn sv lines w) k (turn-Kept root w k)
          (walk_chain-Walked root room)

    settle_root-Safe :
        (root : ℕ) (r : ℕ × PruneState × Option ℕ)
        → gone h root ≡ true
        → Safe h r.1
        → Safe h (settle_root sv lines root r).1
    unfolding settle_root
    settle_root-Safe root (n, st, none) g s = record_dead-Safe h root st g s
    settle_root-Safe root (n, st, some to) g s = record_redirect-Safe h root to st g s

    pair-if :
        (b : Bool) (x y : ℕ × PruneState)
        → (b ≡ true → Safe h x.1)
        → (b ≡ false → Safe h y.1)
        → Safe h (if b then x else y).1
    pair-if true x y k k' = k refl
    pair-if false x y k k' = k' refl

    drop_chain-Safe :
        (root latest o : ℕ) (items : List ℕ) (st : PruneState)
        → cleared h latest items ≡ true
        → Begins h root o items
        → Safe h st
        → Safe h (drop_chain sv lines root latest items st).1
    unfolding drop_chain
    drop_chain-Safe root latest o [] st c b s = absurd (cc)
    drop_chain-Safe root latest o (item ∷ items) st c b s =
        let g : gone h item ≡ true = ground arith in
        settle_root-Safe root (drop_items latest item items st) (ap (gone h) (sym b) ∙ g)
          (drop_items-Safe h latest item items st c s)

    latest_cleared :
        (latest : ℕ) (b : Bool) → not (latest == 0) ≡ true → (latest ≡ 0) ⊎ (b ≡ true) → b ≡ true
    latest_cleared latest b e l = ground arith

    settle_chain-Safe :
        (root : ℕ) (w : Walk) → Walked h root w → Safe h (settle_chain sv lines root w).1
    unfolding settle_chain
    settle_chain-Safe root w (s, l, b) =
        pair-if (not (w.latestdead == 0))
          (drop_chain sv lines root w.latestdead w.chainitems w.state) _
          (λ e.
            drop_chain-Safe root w.latestdead w.offnum w.chainitems w.state (latest_cleared _ _ e l)
              b s)
          (λ e.
            pair-if (ltb (length w.chainitems) 2 && is_redirect (item_id lines root))
              (0, record_dead root w.state) (0, w.state)
              (λ r. record_dead-Safe h root w.state (redirect_gone root (ground arith)) s) (λ r. s))

    -- A chain's pruning, where it ends.
    abbrev pub SafeEnd : Option (ℕ × PruneState) → Type 0
    SafeEnd none = Unit {0}
    SafeEnd (some r) = Safe h r.1

    SafeEnd-if :
        (b : Bool) (x y : Option (ℕ × PruneState))
        → SafeEnd x
        → SafeEnd y
        → SafeEnd (if b then x else y)
    SafeEnd-if true x y k k' = k
    SafeEnd-if false x y k k' = k'

    walked-SafeEnd :
        (root : ℕ) (o : Option Walk)
        → Arrived root o
        → SafeEnd (elim o as (λ q. Option (ℕ × PruneState)) [
          | none ↦ none
          | some w ↦ some (settle_chain sv lines root w)
        ])
    walked-SafeEnd root none k = tt
    walked-SafeEnd root (some w) k = settle_chain-Safe root w k

    prune_from_root-SafeEnd :
        (root : ℕ) (st : PruneState) → Safe h st → SafeEnd (prune_from_root sv lines root st)
    unfolding prune_from_root
    prune_from_root-SafeEnd root st s =
        walked-SafeEnd root (walk_chain sv lines max_heap_tuples_per_page (chain_start root st)) (
          walk_chain-Walked root max_heap_tuples_per_page (chain_start root st)
            (s, refl, inl refl, refl))

    gone_if_dead :
        (o : ℕ) (r : Option HtsvResult)
        → h o ≡ r
        → (elim r as (λ q. Bool) [ none ↦ false | some res ↦ is_dead sv.tx res ]) ≡ true
        → gone h o ≡ true
    gone_if_dead o none e d = absurd (cc)
    gone_if_dead o (some dead) e d = status_gone o (some dead) true e refl
    gone_if_dead o (some live) e d = absurd (cc)
    gone_if_dead o (some recently_dead) e d = absurd (cc)
    gone_if_dead o (some insert_in_progress) e d = absurd (cc)
    gone_if_dead o (some delete_in_progress) e d = absurd (cc)

    prune_heap_only-Safe :
        (o : ℕ) (t : HotTuple) (st : PruneState)
        → Safe h st
        → Safe h (prune_heap_only sv lines o t st).1
    unfolding prune_heap_only
    prune_heap_only-Safe o t st s =
        pair-if _
          (
            1,
            record (record_unused o st) {
              conflict_horizon = advance_conflict_horizon sv t.header st.conflict_horizon;
            },
          )
          (0, st)
          (λ e.
            record_unused-Safe h o st
              (gone_if_dead o (st.htsv o) (ap (λ f. f o) (sym s.0)) (ground arith)) s)
          (λ e. s)

    line-SafeEnd :
        (root : ℕ) (lp : LinePointer) (st : PruneState)
        → Safe h st
        → SafeEnd (elim lp as (λ q. Option (ℕ × PruneState)) [
          | lp_normal t ↦
              if t.heap_only
              then some (prune_heap_only sv lines root t st)
              else prune_from_root sv lines root st
          | _ ↦ prune_from_root sv lines root st
        ])
    line-SafeEnd root (lp_normal t) st s =
        SafeEnd-if t.heap_only (some _) _ (prune_heap_only-Safe root t st s)
          (prune_from_root-SafeEnd root st s)
    line-SafeEnd root lp_unused st s = prune_from_root-SafeEnd root st s
    line-SafeEnd root lp_dead st s = prune_from_root-SafeEnd root st s
    line-SafeEnd root (lp_redirect to) st s = prune_from_root-SafeEnd root st s

    pub heap_prune_chain-SafeEnd :
        (root : ℕ) (st : PruneState) → Safe h st → SafeEnd (heap_prune_chain sv lines root st)
    unfolding heap_prune_chain
    heap_prune_chain-SafeEnd root st s = line-SafeEnd root (item_id lines root) st s
