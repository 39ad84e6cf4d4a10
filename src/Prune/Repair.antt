-- ===== src/Prune/Repair.antt =====
-- `TdePageRepairFragmentation`: the checks of a page, the items collected for compaction, and the line
-- pointers that are given back.
pub mod Room
use pg_tde.Base.{
  arith, ℕ, ◌+◌, ◌-◌, ◌*◌, ◌≤◌, ◌≡◌, refl, ap, subst, sym, ◌∙◌, Bool, true, false, ◌&&◌, ◌||◌, not,
  Option, none, some, if◌then◌else◌, Bool-cases, inl, inr, List, [], ◌∷◌, ◌++◌, length, ltb, leb,
  ◌==◌,
}
use pg_tde.Tuple.{blcksz}
use pg_tde.Prune.{Item, Line, unused, without_storage, stored, maxalign, Plan, compactify_tuples}

-- `SizeOfPageHeaderData` and `sizeof(ItemIdData)`
abbrev pub page_header_size : ℕ
page_header_size = 24

abbrev pub item_id_size : ℕ
item_id_size = 4

-- The variables of the loop over the line pointers.
pub record Collected : Type 0 where
  pub items : List Item
  pub nunused : ℕ
  pub totallen : ℕ
  pub last_offset : ℕ
  pub finalusedlp : ℕ
  pub presorted : Bool

-- The loop, from line pointer `i` on; none is the `ereport(ERROR)` for a corrupted line pointer.
unfoldable pub collect : ℕ → ℕ → ℕ → List Line → Collected → Option Collected
collect pd_upper pd_special i [] c = some c
collect pd_upper pd_special i (unused ∷ lines) c =
    collect pd_upper pd_special (i + 1) lines (record c { nunused = c.nunused + 1 })
collect pd_upper pd_special i (without_storage ∷ lines) c =
    collect pd_upper pd_special (i + 1) lines (record c { finalusedlp = i })
collect pd_upper pd_special i (stored off len ∷ lines) c =
    let rest = collect pd_upper pd_special (i + 1) lines (record {
      items =
          c.items
          ++ (record { offsetindex = i - 1; itemoff = off; len = len; alignedlen = maxalign len }
              ∷ []);
      nunused = c.nunused;
      totallen = c.totallen + maxalign len;
      last_offset = if ltb off c.last_offset then off else c.last_offset;
      finalusedlp = i;
      presorted = if ltb off c.last_offset then c.presorted else false;
    }) in
    if ltb off pd_upper || leb pd_special off then none else rest

abbrev pub start : ℕ → Collected
start pd_special = record {
  items = [];
  nunused = 0;
  totallen = 0;
  last_offset = pd_special;
  finalusedlp = 0;
  presorted = true;
}

-- The page's header afterwards, with `PD_HAS_FREE_LINES`, and the compaction; none if no tuple is left.
pub record Repaired : Type 0 where
  pub pd_lower : ℕ
  pub pd_upper : ℕ
  pub has_free_lines : Bool
  pub compaction : Option Plan

-- The end: unused line pointers at the end of the array are given back.
abbrev pub finish : ℕ → ℕ → Collected → ℕ → Option Plan → Repaired
finish nline pd_lower c upper compaction =
    let at_end = if c.finalusedlp == nline then 0 else nline - c.finalusedlp in
    record {
      pd_lower = pd_lower - item_id_size * at_end;
      pd_upper = upper;
      has_free_lines = ltb 0 (c.nunused - at_end);
      compaction = compaction;
    }

unfoldable pub compact : ℕ → ℕ → ℕ → ℕ → Collected → List Item → Option Repaired
compact nline pd_lower pd_upper pd_special c [] = some (finish nline pd_lower c pd_special none)
compact nline pd_lower pd_upper pd_special c (it ∷ items) =
    let p = compactify_tuples pd_special pd_upper nline it items c.presorted in
    if ltb (pd_special - pd_lower) c.totallen
    then none
    else some (finish nline pd_lower c p.upper (some p))

abbrev pub repair_collected : ℕ → ℕ → ℕ → ℕ → Option Collected → Option Repaired
repair_collected nline pd_lower pd_upper pd_special none = none
repair_collected nline pd_lower pd_upper pd_special (some c) =
    compact nline pd_lower pd_upper pd_special c c.items

-- `TdePageRepairFragmentation`; none is an `ereport(ERROR)` about corrupted page pointers, line pointers
-- or lengths.
unfoldable pub repair_fragmentation : ℕ → ℕ → ℕ → List Line → Option Repaired
repair_fragmentation pd_lower pd_upper pd_special lines =
    if ltb pd_lower page_header_size
      || (ltb pd_upper pd_lower
          || (ltb pd_special pd_upper
              || (ltb blcksz pd_special || not (pd_special == maxalign pd_special))))
    then none
    else repair_collected (length lines) pd_lower pd_upper pd_special
        (collect pd_upper pd_special 1 lines (start pd_special))
