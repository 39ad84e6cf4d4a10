-- ===== src/Vacuum/Page.antt =====
-- Whether a page counts as all-visible, src/access/pg_tde_vacuumlazy.c: `pg_tde_page_is_all_visible`, and
-- `lazy_vacuum_pg_tde_page`, which sets the bits of the visibility map by it.
use pg_tde.Base.{
  ℕ, Bool, true, false, ◌&&◌, not, Option, none, some, List, [], ◌∷◌, if◌then◌else◌, ◌==◌,
}
use pg_tde.Visibility.{Header, Transactions}
use pg_tde.Visibility.Historic.{header_xmin}
use pg_tde.Visibility.Vacuum.{HtsvResult, live, heap_tuple_satisfies_vacuum}
use pg_tde.Freeze.{TupleHeader, is_normal_xid}
use pg_tde.Freeze.Prepare.{pg_tde_tuple_needs_eventual_freeze}
use pg_tde.Hot.{LinePointer, lp_unused, lp_dead, lp_redirect, lp_normal}
use pg_tde.Hot.Page.{set_item_id, set_all}

-- What the loop has found, and the line pointers with the hint bits that are set on the way.
pub record PageVisible : Type 0 where
  pub all_visible : Bool
  pub all_frozen : Bool
  pub visibility_cutoff_xid : ℕ
  pub lines : List LinePointer

-- The fields that `pg_tde_tuple_needs_eventual_freeze` reads.
abbrev pub fields_of : Header → TupleHeader
fields_of t = record {
  raw_xmin = t.raw_xmin;
  raw_xmax = t.raw_xmax;
  field3 = t.xvac;
  bits = record {
    xmin_committed = t.xmin_committed;
    xmin_invalid = t.xmin_invalid;
    xmax_committed = t.xmax_committed;
    xmax_invalid = t.xmax_invalid;
    xmax_is_multi = t.xmax_is_multi;
    lock_only = t.lock_only;
    keyshr_lock = false;
    excl_lock = false;
    moved_off = t.moved_off;
    moved_in = t.moved_in;
    keys_updated = false;
    hot_updated = false;
    other = 0;
  };
}

abbrev pub with_line : LinePointer → PageVisible → PageVisible
with_line lp r = record r { lines = lp ∷ r.lines }

abbrev pub not_visible : ℕ → List LinePointer → PageVisible
not_visible cutoff lines = record {
  all_visible = false;
  all_frozen = false;
  visibility_cutoff_xid = cutoff;
  lines = lines;
}

abbrev pub is_live : HtsvResult → Bool
is_live live = true
is_live _ = false

module _ (tx : Transactions) (oldest_xmin : ℕ) where
  -- `TransactionIdFollows` is `TransactionIdPrecedes` the other way round.
  abbrev pub newer_cutoff : ℕ → ℕ → ℕ
  newer_cutoff xmin cutoff = if tx.precedes cutoff xmin && is_normal_xid xmin then xmin else cutoff

  -- The loop over the line pointers.
  unfoldable pub visible_loop : List LinePointer → ℕ → Bool → PageVisible
  visible_loop [] cutoff frozen = record {
    all_visible = true;
    all_frozen = frozen;
    visibility_cutoff_xid = cutoff;
    lines = [];
  }
  visible_loop (lp_unused ∷ lines) cutoff frozen =
      with_line lp_unused (visible_loop lines cutoff frozen)
  visible_loop (lp_redirect to ∷ lines) cutoff frozen =
      with_line (lp_redirect to) (visible_loop lines cutoff frozen)
  visible_loop (lp_dead ∷ lines) cutoff frozen = not_visible cutoff (lp_dead ∷ lines)
  visible_loop (lp_normal t ∷ lines) cutoff frozen =
      let s = heap_tuple_satisfies_vacuum tx oldest_xmin t.header in
      let lp = lp_normal (record t { header = s.header }) in
      let xmin = header_xmin s.header in
      let rest =
        visible_loop lines (newer_cutoff xmin cutoff)
          (frozen && not (pg_tde_tuple_needs_eventual_freeze (fields_of s.header))) in
      if not (is_live s.result)
      then not_visible cutoff (lp ∷ lines)
      else if not s.header.xmin_committed
      then not_visible cutoff (lp ∷ lines)
      else if not (tx.precedes xmin oldest_xmin)
      then not_visible cutoff (lp ∷ lines)
      else with_line lp rest

  -- `pg_tde_page_is_all_visible`
  unfoldable pub pg_tde_page_is_all_visible : List LinePointer → PageVisible
  pg_tde_page_is_all_visible lines = visible_loop lines 0 true

-- The loop over the dead items of block `blkno`: the line pointers, `unused`, and the items left. That the items of a
-- page are LP_DEAD and no more than the 291 that the array `unused` has room for is taken from the first pass, and is
-- not tested: the code asserts the former.
unfoldable pub free_dead :
    ℕ → List (ℕ × ℕ) → List LinePointer → List LinePointer × List ℕ × List (ℕ × ℕ)
free_dead blkno [] lines = (lines, [], [])
free_dead blkno ((tblk, toff) ∷ items) lines =
    let rest = free_dead blkno items (set_item_id toff lp_unused lines) in
    if not (tblk == blkno)
    then (lines, [], (tblk, toff) ∷ items)
    else (rest.0, toff ∷ rest.1, rest.2)

-- What happens to the page: its line pointers, the offsets in the log record, the items left, and the flags and the
-- cutoff that `pg_tde_visibilitymap_set` gets, none where it and `PageSetAllVisible` are not called.
pub record VacuumedPage : Type 0 where
  pub lines : List LinePointer
  pub unused : List ℕ
  pub items : List (ℕ × ℕ)
  pub map_flags : Option (ℕ × ℕ)

abbrev pub flags_for : Bool → Bool → ℕ → Option (ℕ × ℕ)
flags_for false frozen cutoff = none
flags_for true frozen cutoff = some (if frozen then 3 else 1, cutoff)

-- `lazy_vacuum_pg_tde_page`; `truncate_lines` is the server's `PageTruncateLinePointerArray`. The flags are
-- `VISIBILITYMAP_ALL_VISIBLE`, with `VISIBILITYMAP_ALL_FROZEN`.
unfoldable pub lazy_vacuum_pg_tde_page :
    (List LinePointer → List LinePointer)
    → Transactions
    → ℕ
    → ℕ
    → List (ℕ × ℕ)
    → List LinePointer
    → VacuumedPage
lazy_vacuum_pg_tde_page truncate_lines tx oldest_xmin blkno items lines =
    let freed = free_dead blkno items lines in
    let r = pg_tde_page_is_all_visible tx oldest_xmin (truncate_lines freed.0) in
    record {
      lines = r.lines;
      unused = freed.1;
      items = freed.2;
      map_flags = flags_for r.all_visible r.all_frozen r.visibility_cutoff_xid;
    }

-- `pg_tde_xlog_vacuum` of src/access/pg_tdeam.c where the page has to be redone.
abbrev pub pg_tde_xlog_vacuum :
    (List LinePointer → List LinePointer) → List ℕ → List LinePointer → List LinePointer
pg_tde_xlog_vacuum truncate_lines nowunused lines =
    truncate_lines (set_all lp_unused nowunused lines)
