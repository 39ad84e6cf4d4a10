-- ===== src/Tests/HotChains.antt =====
-- Pruning of a page with a HOT chain.
use pg_tde.Base.{
  ◌⊎◌, ◌≢◌, arith, ℕ, zero, suc, ◌<◌, ◌≡◌, ◌≢◌, refl, ap, subst, sym, ◌∙◌, true, false, none, some,
  ◌≤◌, List, [], ◌∷◌,
}
use pg_tde.Visibility.{Header, Transactions}
use pg_tde.Hot.{
  HotTuple, LinePointer, lp_unused, lp_dead, lp_redirect, lp_normal, is_hot_updated, item_id,
  PruneServer,
}
use pg_tde.Prune.Repair.{Repaired, repair_fragmentation}
use pg_tde.Hot.Chain.{heap_prune_chain}
use pg_tde.Hot.Page.{
  determine, compaction_lines, PageHeader, Pruned, pg_tde_page_prune, pg_tde_xlog_prune, XlogPrune,
  prune_items,
}
use pg_tde.Hot.Redo.{strip_all, page_prune-redo}
use pg_tde.Hot.Roots.{pg_tde_get_root_tuples}
use pg_tde.Hot.Roots.Chains.{OnChain}
use pg_tde.Hot.Roots.Found.{get_root_tuples-roots}
use pg_tde.Tests.Files.{some_transactions, some_header}

-- A row that transaction 4 updated, which committed long ago, and the new version, of transaction 4.
abbrev updated_header : Header
updated_header = record some_header {
  xmin_committed = true;
  xmax_committed = true;
  raw_xmin = 3;
  raw_xmax = 4;
}

abbrev live_header : Header
live_header = record some_header {
  xmin_committed = true;
  xmax_invalid = true;
  raw_xmin = 4;
  raw_xmax = 0;
}

abbrev old_version : HotTuple
old_version = record {
  header = updated_header;
  heap_only = false;
  hot_updated = true;
  ctid_off = 2;
  lp_off = 8100;
  lp_len = 40;
}

abbrev new_version : HotTuple
new_version = record {
  header = live_header;
  heap_only = true;
  hot_updated = false;
  ctid_off = 2;
  lp_off = 8050;
  lp_len = 40;
}

abbrev chain_lines : List LinePointer
chain_lines = lp_normal old_version ∷ (lp_normal new_version ∷ [])

abbrev chain_page : PageHeader
chain_page = record {
  pd_lower = 32;
  pd_upper = 8050;
  pd_special = 8192;
  pd_prune_xid = 4;
  page_full = true;
}

abbrev chain_server : PruneServer
chain_server = record {
  tx = some_transactions;
  removable = λ xid. true;
  threshold_active = false;
  limited_xmin = 0;
}

abbrev chain_changed : List LinePointer
chain_changed = lp_redirect 2 ∷ (lp_normal new_version ∷ [])

-- The data of the new version moves to the end of the page.
abbrev chain_after : List LinePointer
chain_after = lp_redirect 2 ∷ (lp_normal (record new_version { lp_off = 8152 }) ∷ [])

abbrev chain_record : XlogPrune
chain_record = record { conflict_horizon = 4; nredirected = 1; ndead = 0; offsets = 1 ∷ (2 ∷ []) }

abbrev chain_result : Pruned
chain_result = record {
  ndeleted = 1;
  nnewlpdead = 0;
  lines = chain_after;
  repaired = repair_fragmentation 32 8050 8192 (compaction_lines chain_changed);
  pd_prune_xid = 0;
  page_full = false;
  log = some chain_record;
  dirty_hint = false;
}

-- The root is redirected to the new version.
page_prune-chain : pg_tde_page_prune chain_server 0 true chain_page chain_lines ≡ some chain_result
unfolding pg_tde_page_prune determine pg_tde.Hot.heap_prune_satisfies_vacuum pg_tde.Hot.final_status
    pg_tde.Hot.limited_status pg_tde.Visibility.Vacuum.heap_tuple_satisfies_vacuum_horizon
    pg_tde.Visibility.Vacuum.vacuum_xmax pg_tde.Hot.Page.prune_items pg_tde.Hot.Page.prune_item
    heap_prune_chain pg_tde.Hot.Chain.prune_from_root pg_tde.Hot.Chain.walk_chain
    pg_tde.Hot.Chain.turn pg_tde.Hot.Chain.line_turn pg_tde.Hot.Chain.tuple_turn
    pg_tde.Hot.Chain.member_turn pg_tde.Hot.advance_conflict_horizon pg_tde.Hot.Chain.settle_chain
    pg_tde.Hot.Chain.drop_chain pg_tde.Hot.Chain.drop_items pg_tde.Hot.Chain.settle_root
    pg_tde.Hot.Page.apply_prune pg_tde.Hot.Page.pg_tde_page_prune_execute
    pg_tde.Hot.Page.execute_items repair_fragmentation pg_tde.Prune.Repair.collect
    pg_tde.Prune.Repair.compact pg_tde.Prune.compactify_tuples pg_tde.Prune.move_items
    pg_tde.Prune.skip_in_place
page_prune-chain = refl

page_prune-redo_example :
    (redone : List LinePointer × Repaired) × (pg_tde_xlog_prune chain_record chain_page chain_lines
      ≡ some redone)
    × (strip_all redone.0 ≡ strip_all chain_result.lines)
    × (chain_result.repaired ≡ some redone.1)
page_prune-redo_example =
    page_prune-redo chain_server 0 true chain_page chain_lines chain_lines chain_result chain_record
      page_prune-chain refl refl

tuple_of : {t u : HotTuple} → lp_normal t ≡ lp_normal u → t ≡ u
tuple_of {t} e = ap (λ lp. elim lp as (λ q. HotTuple) [ lp_normal v ↦ v | _ ↦ t ]) e

true-ne-false : true ≢ false
true-ne-false e = cc

-- The new version comes after the old one.
abbrev place : ℕ → ℕ
place zero = 3
place (suc zero) = 2
place (suc (suc o)) = 1

chain_redirect : (o to : ℕ) → item_id chain_lines o ≡ lp_redirect to → place to < place o
chain_redirect zero to e = absurd cc
chain_redirect (suc zero) to e = absurd cc
chain_redirect (suc (suc zero)) to e = absurd cc
chain_redirect (suc (suc (suc o))) to e = absurd cc

chain_update :
    (o : ℕ) (t : HotTuple)
    → item_id chain_lines o ≡ lp_normal t
    → is_hot_updated t ≡ true
    → place t.ctid_off < place o
chain_update zero t e hot = absurd cc
chain_update (suc zero) t e hot =
    let at : old_version ≡ t = tuple_of e in subst (λ u. place u.ctid_off < 2) at (omega arith)
chain_update (suc (suc zero)) t e hot =
    let at : new_version ≡ t = tuple_of e in
    absurd (true-ne-false (sym hot ∙ ap is_hot_updated (sym at)))
chain_update (suc (suc (suc o))) t e hot = absurd cc

place_low : (o : ℕ) → place o < 291
place_low zero = omega arith
place_low (suc zero) = omega arith
place_low (suc (suc o)) = omega arith

update_inside :
    (o : ℕ) (t : HotTuple)
    → item_id chain_lines o ≡ lp_normal t
    → is_hot_updated t ≡ true
    → (0 < t.ctid_off) × (t.ctid_off ≤ 2)
update_inside zero t e hot = absurd cc
update_inside (suc zero) t e hot =
    let at : old_version ≡ t = tuple_of e in
    subst (λ u. (0 < u.ctid_off) × (u.ctid_off ≤ 2)) at (omega arith, omega arith)
update_inside (suc (suc zero)) t e hot =
    let at : new_version ≡ t = tuple_of e in
    subst (λ u. (0 < u.ctid_off) × (u.ctid_off ≤ 2)) at (omega arith, omega arith)
update_inside (suc (suc (suc o))) t e hot = absurd cc

no_redirects : (o to : ℕ) → (item_id chain_lines o ≡ lp_redirect to) → (0 < to) × (to ≤ 2)
no_redirects zero to e = absurd cc
no_redirects (suc zero) to e = absurd cc
no_redirects (suc (suc zero)) to e = absurd cc
no_redirects (suc (suc (suc o))) to e = absurd cc

get_root_tuples-roots_example :
    (roots : ℕ → ℕ) × (pg_tde_get_root_tuples chain_lines ≡ some roots)
    × ((o : ℕ) → (roots o ≡ 0) ⊎ OnChain chain_lines (roots o) o)
    × ((root o : ℕ) → OnChain chain_lines root o → roots o ≢ 0)
get_root_tuples-roots_example =
    get_root_tuples-roots chain_lines place place_low
      (λ o t e hot.
        let inside = update_inside o t e hot in (inside.0, inside.1, chain_update o t e hot))
      (λ o to e. let inside = no_redirects o to e in (inside.0, inside.1, chain_redirect o to e))

-- The new version has the old one for its root.
new_version_root :
    elim (pg_tde_get_root_tuples chain_lines) as (λ q. ℕ) [ none ↦ 0 | some roots ↦ roots 2 ] ≡ 1
unfolding pg_tde_get_root_tuples pg_tde.Hot.Roots.root_loop pg_tde.Hot.Roots.root_line
    pg_tde.Hot.Roots.follow_chain
new_version_root = refl

-- A redirect past the end of the array is followed.
truncated_fault : pg_tde_get_root_tuples (lp_redirect 3 ∷ []) ≡ none
unfolding pg_tde_get_root_tuples pg_tde.Hot.Roots.root_loop pg_tde.Hot.Roots.root_line
    pg_tde.Hot.Roots.follow_chain
truncated_fault = refl
