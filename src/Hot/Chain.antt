-- ===== src/Hot/Chain.antt =====
-- `heap_prune_chain`: the walk along a chain, and what becomes of its items.
use pg_tde.Base.{
  ℕ, zero, suc, ◌+◌, Bool, true, false, ◌&&◌, not, Option, none, some, List, [], ◌∷◌, ◌++◌,
  if◌then◌else◌, ltb, ◌==◌, length,
}
use pg_tde.Visibility.Historic.{header_xmin}
use pg_tde.Visibility.Vacuum.{
  HtsvResult, dead, live, recently_dead, insert_in_progress, delete_in_progress, header_update_xid,
  is_dead,
}
use pg_tde.Hot.{
  HotTuple, LinePointer, lp_unused, lp_dead, lp_redirect, lp_normal, is_hot_updated, item_id,
  PruneServer, PruneState, record_prunable, advance_conflict_horizon, record_redirect, record_dead,
  record_unused,
}

-- `MaxHeapTuplesPerPage` for pages of 8192 bytes.
abbrev pub max_heap_tuples_per_page : ℕ
max_heap_tuples_per_page = 291

-- The variables of the walk.
pub record Walk : Type 0 where
  pub offnum : ℕ
  pub prior_xmax : ℕ
  pub chainitems : List ℕ
  pub latestdead : ℕ
  pub state : PruneState

-- How an iteration ends: by `break` before or after the item is put into `chainitems`, by going on to
-- the next, or by the error for an unexpected status.
pub data Turn : Type 0 where
  stop unexpected : Turn
  last next : Walk → Turn

-- The loop over the items after `prev`, up to the last dead one: how many become unused, the state, and
-- the item that the root is redirected to, if there is one left.
unfoldable pub drop_items : ℕ → ℕ → List ℕ → PruneState → ℕ × PruneState × Option ℕ
drop_items latestdead prev [] st = (0, st, none)
drop_items latestdead prev (item ∷ items) st =
    let rest = drop_items latestdead item items (record_unused item st) in
    if prev == latestdead then (0, st, some item) else (rest.0 + 1, rest.1, rest.2)

abbrev pub is_normal : LinePointer → ℕ
is_normal (lp_normal t) = 1
is_normal _ = 0

abbrev pub is_redirect : LinePointer → Bool
is_redirect (lp_redirect to) = true
is_redirect _ = false

abbrev pub chain_start : ℕ → PruneState → Walk
chain_start rootoffnum st = record {
  offnum = rootoffnum;
  prior_xmax = 0;
  chainitems = [];
  latestdead = 0;
  state = st;
}

module _ (sv : PruneServer) where
  -- The item is a member of the chain, of a tuple with the status `res`.
  unfoldable pub member_turn : HotTuple → HtsvResult → Walk → Turn
  member_turn t res w =
      let joined = record w { chainitems = w.chainitems ++ (w.offnum ∷ []) } in
      let soon = record joined {
        state = record_prunable sv (header_update_xid t.header) w.state;
      } in
      let gone = record joined {
        latestdead = w.offnum;
        state = record w.state {
          conflict_horizon = advance_conflict_horizon sv t.header w.state.conflict_horizon;
        };
      } in
      let seen : Walk = elim res [
        | dead ↦ gone
        | recently_dead ↦ soon
        | delete_in_progress ↦ soon
        | live ↦ joined
        | insert_in_progress ↦ joined
      ] in
      let past : Bool = elim res [ dead ↦ true | recently_dead ↦ true | _ ↦ false ] in
      if not past
      then last seen
      else if not (is_hot_updated t)
      then last seen
      else next (record seen { offnum = t.ctid_off; prior_xmax = header_update_xid t.header })

  unfoldable pub tuple_turn : HotTuple → Walk → Turn
  tuple_turn t w =
      if not (w.prior_xmax == 0) && not (header_xmin t.header == w.prior_xmax)
      then stop
      else elim (w.state.htsv w.offnum) [ none ↦ unexpected | some res ↦ member_turn t res w ]

  unfoldable pub line_turn : LinePointer → Walk → Turn
  line_turn lp_unused w = stop
  line_turn lp_dead w = stop
  line_turn (lp_redirect to) w =
      if ltb 0 (length w.chainitems)
      then stop
      else next (record w { chainitems = w.chainitems ++ (w.offnum ∷ []); offnum = to })
  line_turn (lp_normal t) w = tuple_turn t w

  module _ (lines : List LinePointer) where
    -- One iteration.
    unfoldable pub turn : Walk → Turn
    turn w =
        if ltb w.offnum 1
        then stop
        else if ltb (length lines) w.offnum
        then stop
        else if w.state.marked w.offnum
        then stop
        else line_turn (item_id lines w.offnum) w

    -- The loop, with room for so many items more; none is the error, or a write past the end of `chainitems`.
    unfoldable pub walk_chain : ℕ → Walk → Option Walk
    walk_chain zero w = elim (turn w) [
      | stop ↦ some w
      | unexpected ↦ none
      | last _ ↦ none
      | next _ ↦ none
    ]
    walk_chain (suc room) w = elim (turn w) [
      | stop ↦ some w
      | unexpected ↦ none
      | last w' ↦ some w'
      | next w' ↦ walk_chain room w'
    ]

    -- What is left of the chain's root.
    unfoldable pub settle_root : ℕ → ℕ × PruneState × Option ℕ → ℕ × PruneState
    settle_root rootoffnum (n, st, none) =
        (n + is_normal (item_id lines rootoffnum), record_dead rootoffnum st)
    settle_root rootoffnum (n, st, some to) =
        (n + is_normal (item_id lines rootoffnum), record_redirect rootoffnum to st)

    unfoldable pub drop_chain : ℕ → ℕ → List ℕ → PruneState → ℕ × PruneState
    drop_chain rootoffnum latestdead [] st = settle_root rootoffnum (0, st, none)
    drop_chain rootoffnum latestdead (first ∷ items) st =
        settle_root rootoffnum (drop_items latestdead first items st)

    -- The rest of the function, after the walk.
    unfoldable pub settle_chain : ℕ → Walk → ℕ × PruneState
    settle_chain rootoffnum w =
        if not (w.latestdead == 0)
        then drop_chain rootoffnum w.latestdead w.chainitems w.state
        else if ltb (length w.chainitems) 2 && is_redirect (item_id lines rootoffnum)
        then (0, record_dead rootoffnum w.state)
        else (0, w.state)

    unfoldable pub prune_from_root : ℕ → PruneState → Option (ℕ × PruneState)
    prune_from_root rootoffnum st =
        elim (walk_chain max_heap_tuples_per_page (chain_start rootoffnum st)) [
          | none ↦ none
          | some w ↦ some (settle_chain rootoffnum w)
        ]

    -- A heap-only tuple, which is not the start of a chain.
    unfoldable pub prune_heap_only : ℕ → HotTuple → PruneState → ℕ × PruneState
    prune_heap_only offnum t st =
        let is_gone : Bool = elim (st.htsv offnum) [
          | none ↦ false
          | some res ↦ is_dead sv.tx res
        ] in
        if is_gone && not (is_hot_updated t)
        then (
          1,
          record (record_unused offnum st) {
            conflict_horizon = advance_conflict_horizon sv t.header st.conflict_horizon;
          },
        )
        else (0, st)

    -- `heap_prune_chain`
    unfoldable pub heap_prune_chain : ℕ → PruneState → Option (ℕ × PruneState)
    heap_prune_chain rootoffnum st = elim (item_id lines rootoffnum) [
      | lp_normal t ↦
          if t.heap_only
          then some (prune_heap_only rootoffnum t st)
          else prune_from_root rootoffnum st
      | _ ↦ prune_from_root rootoffnum st
    ]
