-- ===== src/Hot/Ends.antt =====
-- Pruning ends, without error and within the array `chainitems`.
use pg_tde.Base.{
  arith, ℕ, zero, suc, ◌<◌, ◌≡◌, refl, ap, sym, ◌∙◌, Bool, true, false, ◌&&◌, not, Option, none,
  some, if◌then◌else◌, List, ltb, ◌==◌, length,
}
use pg_tde.Visibility.Historic.{header_xmin}
use pg_tde.Visibility.Vacuum.{
  HtsvResult, dead, live, recently_dead, insert_in_progress, delete_in_progress, header_update_xid,
}
use pg_tde.Hot.{
  HotTuple, LinePointer, lp_unused, lp_dead, lp_redirect, lp_normal, is_hot_updated, item_id,
  PruneServer, PruneState, record_prunable,
}
use pg_tde.Hot.Chain.{
  max_heap_tuples_per_page, Walk, Turn, stop, unexpected, last, next, member_turn, tuple_turn,
  line_turn, turn, walk_chain, chain_start, settle_chain, prune_from_root, prune_heap_only,
  heap_prune_chain,
}
use pg_tde.Hot.Statuses.{matches}

abbrev pub is_some {ℓ} : {A : Type ℓ} → Option A → Bool
is_some none = false
is_some (some a) = true

module _ (sv : PruneServer) (lines : List LinePointer) (h : ℕ → Option HtsvResult)
    (statuses : (o : ℕ) → matches (item_id lines o) (h o) ≡ true) (rank : ℕ → ℕ)
    (by_redirect : (o to : ℕ) → item_id lines o ≡ lp_redirect to → rank to < rank o)
    (by_update : (o : ℕ) (t : HotTuple)
      → item_id lines o ≡ lp_normal t
      → is_hot_updated t ≡ true
      → rank t.ctid_off < rank o)
    (bounded : (o : ℕ) → rank o < max_heap_tuples_per_page) where
  -- An iteration ends the walk or comes to an item of a lower rank.
  abbrev Descends : Walk → Turn → Type 0
  Descends w stop = Unit {0}
  Descends w unexpected = true ≡ false
  Descends w (last w') = Unit {0}
  Descends w (next w') = (w'.state.htsv ≡ h) × (rank w'.offnum < rank w.offnum)

  Descends-if :
      (b : Bool) (w : Walk) (x y : Turn)
      → (b ≡ true → Descends w x)
      → (b ≡ false → Descends w y)
      → Descends w (if b then x else y)
  Descends-if true w x y k k' = k refl
  Descends-if false w x y k k' = k' refl

  record_prunable-htsv : (xid : ℕ) (st : PruneState) → (record_prunable sv xid st).htsv ≡ st.htsv
  unfolding record_prunable
  record_prunable-htsv xid st = ground arith

  next_down :
      (t : HotTuple) (w : Walk)
      → item_id lines w.offnum ≡ lp_normal t
      → not (is_hot_updated t) ≡ false
      → rank t.ctid_off < rank w.offnum
  next_down t w at e = by_update w.offnum t at (ground arith)

  member_turn-Descends :
      (t : HotTuple) (res : HtsvResult) (w : Walk)
      → w.state.htsv ≡ h
      → item_id lines w.offnum ≡ lp_normal t
      → Descends w (member_turn sv t res w)
  unfolding member_turn
  member_turn-Descends t dead w e at =
      Descends-if (not (is_hot_updated t)) w (last _) (next _) (λ _. tt)
        (λ k. (e, next_down t w at k))
  member_turn-Descends t recently_dead w e at =
      Descends-if (not (is_hot_updated t)) w (last _) (next _) (λ _. tt)
        (λ k. (record_prunable-htsv (header_update_xid t.header) w.state ∙ e, next_down t w at k))
  member_turn-Descends t delete_in_progress w e at = tt
  member_turn-Descends t live w e at = tt
  member_turn-Descends t insert_in_progress w e at = tt

  status_turn-Descends :
      (t : HotTuple) (r : Option HtsvResult) (w : Walk)
      → w.state.htsv ≡ h
      → item_id lines w.offnum ≡ lp_normal t
      → matches (lp_normal t) r ≡ true
      → Descends w (elim r as (λ q. Turn) [ none ↦ unexpected | some res ↦ member_turn sv t res w ])
  status_turn-Descends t none w e at m = sym m
  status_turn-Descends t (some res) w e at m = member_turn-Descends t res w e at

  tuple_turn-Descends :
      (t : HotTuple) (w : Walk)
      → w.state.htsv ≡ h
      → item_id lines w.offnum ≡ lp_normal t
      → Descends w (tuple_turn sv t w)
  unfolding tuple_turn
  tuple_turn-Descends t w e at =
      let known : matches (lp_normal t) (w.state.htsv w.offnum) ≡ true =
        ap (λ f. matches (lp_normal t) (f w.offnum)) e
        ∙ (ap (λ lp. matches lp (h w.offnum)) (sym at) ∙ statuses w.offnum) in
      Descends-if (not (w.prior_xmax == 0) && not (header_xmin t.header == w.prior_xmax)) w stop _
        (λ _. tt) (λ _. status_turn-Descends t (w.state.htsv w.offnum) w e at known)

  line_turn-Descends :
      (lp : LinePointer) (w : Walk)
      → w.state.htsv ≡ h
      → item_id lines w.offnum ≡ lp
      → Descends w (line_turn sv lp w)
  unfolding line_turn
  line_turn-Descends lp_unused w e at = tt
  line_turn-Descends lp_dead w e at = tt
  line_turn-Descends (lp_redirect to) w e at =
      Descends-if (ltb 0 (length w.chainitems)) w stop (next _) (λ _. tt)
        (λ _. (e, by_redirect w.offnum to at))
  line_turn-Descends (lp_normal t) w e at = tuple_turn-Descends t w e at

  turn-Descends : (w : Walk) → w.state.htsv ≡ h → Descends w (turn sv lines w)
  unfolding turn
  turn-Descends w e =
      let t = line_turn sv (item_id lines w.offnum) w in
      let unmarked = if w.state.marked w.offnum then stop else t in
      let within = if ltb (length lines) w.offnum then stop else unmarked in
      Descends-if (ltb w.offnum 1) w stop within (λ _. tt)
        (λ _.
          Descends-if (ltb (length lines) w.offnum) w stop unmarked (λ _. tt)
            (λ _.
              Descends-if (w.state.marked w.offnum) w stop t (λ _. tt)
                (λ _. line_turn-Descends (item_id lines w.offnum) w e refl)))

  onward :
      (w : Walk) (t : Turn) (go : Walk → Option Walk)
      → Descends w t
      → ((w' : Walk) → w'.state.htsv ≡ h → rank w'.offnum < rank w.offnum → is_some (go w') ≡ true)
      → is_some (elim t as (λ q. Option Walk) [
        | stop ↦ some w
        | unexpected ↦ none
        | last w' ↦ some w'
        | next w' ↦ go w'
      ])
        ≡ true
  onward w stop go d on = refl
  onward w unexpected go d on = sym d
  onward w (last w') go d on = refl
  onward w (next w') go (e, low) on = on w' e low

  walk_chain-ends :
      (room : ℕ) (w : Walk)
      → w.state.htsv ≡ h
      → rank w.offnum < room
      → is_some (walk_chain sv lines room w) ≡ true
  unfolding walk_chain
  walk_chain-ends zero w e low = absurd (omega arith)
  walk_chain-ends (suc room) w e low =
      onward w (turn sv lines w) (walk_chain sv lines room) (turn-Descends w e)
        (λ w' e' low'. walk_chain-ends room w' e' (omega arith))

  settled :
      (root : ℕ) (o : Option Walk)
      → is_some o ≡ true
      → is_some (elim o as (λ q. Option (ℕ × PruneState)) [
        | none ↦ none
        | some w ↦ some (settle_chain sv lines root w)
      ])
        ≡ true
  settled root none e = e
  settled root (some w) e = refl

  prune_from_root-ends :
      (root : ℕ) (st : PruneState) → st.htsv ≡ h → is_some (prune_from_root sv lines root st) ≡ true
  unfolding prune_from_root
  prune_from_root-ends root st e =
      settled root (walk_chain sv lines max_heap_tuples_per_page (chain_start root st))
        (walk_chain-ends max_heap_tuples_per_page (chain_start root st) e (bounded root))

  some-if :
      (b : Bool) (x y : Option (ℕ × PruneState))
      → is_some x ≡ true
      → is_some y ≡ true
      → is_some (if b then x else y) ≡ true
  some-if true x y k k' = k
  some-if false x y k k' = k'

  line_ends :
      (root : ℕ) (lp : LinePointer) (st : PruneState)
      → st.htsv ≡ h
      → is_some (elim lp as (λ q. Option (ℕ × PruneState)) [
        | lp_normal t ↦
            if t.heap_only
            then some (prune_heap_only sv lines root t st)
            else prune_from_root sv lines root st
        | _ ↦ prune_from_root sv lines root st
      ])
        ≡ true
  line_ends root (lp_normal t) st e =
      some-if t.heap_only (some _) _ refl (prune_from_root-ends root st e)
  line_ends root lp_unused st e = prune_from_root-ends root st e
  line_ends root lp_dead st e = prune_from_root-ends root st e
  line_ends root (lp_redirect to) st e = prune_from_root-ends root st e

  pub heap_prune_chain-ends :
      (root : ℕ) (st : PruneState)
      → st.htsv ≡ h
      → is_some (heap_prune_chain sv lines root st) ≡ true
  unfolding heap_prune_chain
  heap_prune_chain-ends root st e = line_ends root (item_id lines root) st e
