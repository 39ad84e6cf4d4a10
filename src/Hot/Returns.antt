-- ===== src/Hot/Returns.antt =====
-- Pruning a page returns.
use pg_tde.Base.{ℕ, ◌<◌, ◌≡◌, ◌⊎◌, true, Option, none, some, List}
use pg_tde.Hot.{HotTuple, LinePointer, lp_redirect, lp_normal, is_hot_updated, item_id, PruneState}
use pg_tde.Hot.Chain.{max_heap_tuples_per_page}
use pg_tde.Prune.Repair.{repair_fragmentation}
use pg_tde.Hot.Page.{prune_record, execute_items, compaction_lines, PageHeader, Pruned}
use pg_tde.Hot.Safe.{Safe}

-- A rank that falls along each redirect and each HOT update, below the length of `chainitems`.
abbrev pub Ranked : List LinePointer → (ℕ → ℕ) → Type 0
Ranked lines rank =
    ((o to : ℕ) → item_id lines o ≡ lp_redirect to → rank to < rank o)
    × ((o : ℕ) (t : HotTuple)
        → item_id lines o ≡ lp_normal t
        → is_hot_updated t ≡ true
        → rank t.ctid_off < rank o)
    × ((o : ℕ) → rank o < max_heap_tuples_per_page)

-- What is left to fail once it is decided what to do: the repair of the changed line pointers.
abbrev pub Ends : PageHeader → List LinePointer → PruneState → Option Pruned → Type 0
Ends page lines st q =
    ((p : Pruned) × (q ≡ some p))
    ⊎ ((q ≡ none)
        × (repair_fragmentation page.pd_lower page.pd_upper page.pd_special
              (compaction_lines (execute_items (prune_record st) lines))
            ≡ none))
