-- ===== src/Prune.antt =====
-- Compaction of a page, src/access/pg_tde_prune.c: `pgtde_compactify_tuples` and what
-- `TdePageRepairFragmentation` passes to it. Where tuples go and what is re-encrypted depends on the line
-- pointers alone, so the routine is a plan of steps on the page, and `run_steps` is what a step does.
pub mod Places
pub mod Lines
pub mod Recrypts
pub mod Repair
pub mod Alone
use pg_tde.Base.{
  ℕ, zero, suc, ◌+◌, ◌-◌, ◌*◌, ◌/◌, ◌%◌, ◌^◌, Bool, true, false, ◌&&◌, ◌||◌, not, Option, none,
  some, List, [], ◌∷◌, ◌++◌, if◌then◌else◌, u32, ltb, leb, ◌==◌, length, Ptr, Mem,
}
use pg_tde.Aes.{Platform}
use pg_tde.Crypt.{State, pg_tde_move_encrypted_data}
use pg_tde.Tuple.{blcksz, offset_in_file}

-- `itemIdCompactData`
pub record Item : Type 0 where
  pub offsetindex : ℕ
  pub itemoff : ℕ
  pub len : ℕ
  pub alignedlen : ℕ

-- A line pointer, as far as compaction reads it.
pub data Line : Type 0 where
  unused without_storage : Line
  stored : (off len : ℕ) → Line

-- `sizeof(HeapTupleHeaderData)`
abbrev pub header_size : ℕ
header_size = 24

-- `MAXALIGN`
abbrev pub maxalign : ℕ → ℕ
maxalign n = (n + 7) / 8 * 8

-- What the routine does to the page and to its copy of the tuples: keep `size` bytes at an offset in the copy,
-- re-encrypt the tuple at `read_off` for `write_off`, move bytes to their new place, and set a line pointer.
pub data Step : Type 0 where
  keep : (off size : ℕ) → Step
  recrypt : (read_off write_off len : ℕ) → Step
  move : (to_off from_off size : ℕ) → Step
  set_line : (offsetindex off : ℕ) → Step

-- The steps, and the new `pd_upper`.
pub record Plan : Type 0 where
  pub steps : List Step
  pub upper : ℕ

abbrev pub item_end : Item → ℕ
item_end it = it.itemoff + it.alignedlen

abbrev pub when : Bool → Step → List Step
when true step = step ∷ []
when false step = []

-- Where the first loop leaves `upper`, the items from `i` on, and `itemidptr`.
pub record Skipped : Type 0 where
  pub upper : ℕ
  pub rest : List Item
  pub itemidptr : Item

-- The loop over the tuples that are in place already.
unfoldable pub skip_in_place : ℕ → Item → List Item → Skipped
skip_in_place upper it [] =
    if not (upper == item_end it)
    then record { upper = upper; rest = it ∷ []; itemidptr = it }
    else record { upper = upper - it.alignedlen; rest = []; itemidptr = it }
skip_in_place upper it (next ∷ more) =
    let rest = skip_in_place (upper - it.alignedlen) next more in
    if not (upper == item_end it)
    then record { upper = upper; rest = it ∷ (next ∷ more); itemidptr = it }
    else rest

abbrev pub plan : List Step → Plan → Plan
plan steps p = record { steps = steps ++ p.steps; upper = p.upper }

-- The loop that moves tuples, the same in both cases but for the test for a gap, and the block after it.
-- `itemidptr` is the last item looked at.
unfoldable pub move_items : Bool → List Item → Item → ℕ → ℕ → ℕ → Plan
move_items presorted [] itemidptr copy_head copy_tail upper = record {
  steps =
      when (ltb copy_head copy_tail) (recrypt copy_head upper itemidptr.len)
      ++ (move upper copy_head (copy_tail - copy_head) ∷ []);
  upper = upper;
}
move_items presorted (it ∷ items) itemidptr copy_head copy_tail upper =
    let gap = not (copy_head == item_end it) && (not presorted || ltb copy_head copy_tail) in
    plan
      (when (ltb copy_head copy_tail) (recrypt copy_head upper it.len)
        ++ (when gap (move upper copy_head (copy_tail - copy_head))
            ++ (set_line it.offsetindex (upper - it.alignedlen) ∷ [])))
      (move_items presorted items it it.itemoff (if gap then item_end it else copy_tail)
        (upper - it.alignedlen))

abbrev pub keep_items : List Item → List Step
keep_items [] = []
keep_items (it ∷ items) = keep it.itemoff it.alignedlen ∷ keep_items items

-- `copy_tail = copy_head = itemidptr->itemoff + itemidptr->alignedlen` and the loop.
abbrev pub move_rest : Bool → Skipped → Plan
move_rest presorted s =
    move_items presorted s.rest s.itemidptr (item_end s.itemidptr) (item_end s.itemidptr) s.upper

-- `pgtde_compactify_tuples` on the items `it ∷ items`; `max_offset` is `PageGetMaxOffsetNumber`.
unfoldable pub compactify_tuples : ℕ → ℕ → ℕ → Item → List Item → Bool → Plan
compactify_tuples pd_special pd_upper max_offset it items presorted =
    let skipped = skip_in_place pd_special it items in
    if presorted
    then move_rest true skipped
    else if ltb (length (it ∷ items)) (max_offset / 4)
    then plan (keep_items (it ∷ items))
        (move_rest false (record { upper = pd_special; rest = it ∷ items; itemidptr = it }))
    else plan (keep pd_upper (skipped.upper - pd_upper) ∷ []) (move_rest false skipped)

-- The server's page: setting `lp_off` of a line pointer, and `pd_upper`.
pub record PageServer : Type 0 where
  pub set_lp_off : Ptr → ℕ → ℕ → Mem → Mem
  pub set_pd_upper : Ptr → ℕ → Mem → Mem

-- `memmove` and `memcpy`
abbrev pub copy_bytes : Ptr → Ptr → ℕ → Mem → Mem
copy_bytes to from size m a = if leb to a && ltb a (to + size) then m (from + (a - to)) else m a

module _ (pf : Platform) (sv : PageServer) (bn : ℕ) (page work : Ptr) (key : List ℕ)
    (dec : Ptr) where
  -- What a step does; `work` is the page itself in the presorted case and else the copy.
  unfoldable pub run_step : Step → State → Option State
  run_step (keep off size) s =
      some (record s { mem = copy_bytes (work + off) (page + off) size s.mem })
  run_step (recrypt read_off write_off len) s =
      pg_tde_move_encrypted_data pf (offset_in_file bn read_off) (work + read_off + header_size)
        (offset_in_file bn write_off) (work + read_off + header_size)
        (u32 (len + 2 ^ 32 - header_size)) key dec s
  run_step (move to_off from_off size) s =
      some (record s { mem = copy_bytes (page + to_off) (work + from_off) size s.mem })
  run_step (set_line offsetindex off) s =
      some (record s { mem = sv.set_lp_off page (offsetindex + 1) off s.mem })

  unfoldable pub run_steps : List Step → State → Option State
  run_steps [] s = some s
  run_steps (step ∷ steps) s = elim (run_step step s) [ none ↦ none | some s' ↦ run_steps steps s' ]

  unfoldable pub run_plan : Plan → State → Option State
  run_plan p s = elim (run_steps p.steps s) [
    | none ↦ none
    | some s' ↦ some (record s' { mem = sv.set_pd_upper page p.upper s'.mem })
  ]
