-- ===== src/Xact.antt =====
-- Files that wait to be deleted at the end of a transaction, src/transam/pg_tde_xact_handler.c.
-- The server's part is a parameter of the calls: the nesting level at which a callback runs. What
-- goes to `durable_unlink` is recorded in order.
pub mod Pending
pub mod Ends
pub mod Siblings
use pg_tde.Base.{ℕ, ◌+◌, ◌-◌, Bool, true, false, List, [], ◌∷◌, ◌++◌, if◌then◌else◌, ltb}
use mathlib.Core.List.{reverse}

abbrev pub FilePath : Type 0
FilePath = List ℕ

pub record PendingFileDelete : Type 0 where
  pub path : FilePath
  pub at_commit : Bool
  pub nest_level : ℕ

-- `pendingDeletes`, from its head, and the paths unlinked so far, the first first.
pub record State : Type 0 where
  pub pending_deletes : List PendingFileDelete
  pub unlinked : List FilePath

abbrev pub eqb : Bool → Bool → Bool
eqb true b = b
eqb false true = false
eqb false false = true

unfoldable pub register_file_for_deletion : ℕ → FilePath → Bool → State → State
register_file_for_deletion nest_level path at_commit s = record s {
  pending_deletes =
      record { path = path; at_commit = at_commit; nest_level = nest_level } ∷ s.pending_deletes;
}

-- The loop of `cleanup_pending_deletes`. `kept` holds the entries passed over, the last of them
-- (`prev`) first: unlinking an entry makes `prev`, or the head, point past it.
unfoldable pub cleanup_loop :
    Bool → List PendingFileDelete → List PendingFileDelete → List PendingFileDelete
cleanup_loop at_commit kept [] = reverse kept
cleanup_loop at_commit kept (p ∷ next) =
    cleanup_loop at_commit (if eqb p.at_commit at_commit then kept else (p ∷ kept)) next

unfoldable pub cleanup_pending_deletes : Bool → State → State
cleanup_pending_deletes at_commit s = record s {
  pending_deletes = cleanup_loop at_commit [] s.pending_deletes;
}

-- The loop of `do_pending_deletes`, with `kept` likewise.
unfoldable pub do_loop :
    ℕ → Bool → List PendingFileDelete → List PendingFileDelete → List FilePath → State
do_loop nest_level is_commit kept [] out = record { pending_deletes = reverse kept; unlinked = out }
do_loop nest_level is_commit kept (p ∷ next) out =
    if ltb p.nest_level nest_level
    then do_loop nest_level is_commit (p ∷ kept) next out
    else do_loop nest_level is_commit kept next
        (if eqb p.at_commit is_commit then out ++ (p.path ∷ []) else out)

unfoldable pub do_pending_deletes : ℕ → Bool → State → State
do_pending_deletes nest_level is_commit s =
    do_loop nest_level is_commit [] s.pending_deletes s.unlinked

-- `pending_delete_cleanup` drops each entry in turn, from the head.
unfoldable pub cleanup_all : List PendingFileDelete → List PendingFileDelete
cleanup_all [] = []
cleanup_all (p ∷ next) = cleanup_all next

unfoldable pub pending_delete_cleanup : State → State
pending_delete_cleanup s = record s { pending_deletes = cleanup_all s.pending_deletes }

pub data XactEvent : Type 0 where
  commit parallel_commit abort parallel_abort prepare : XactEvent
  pre_commit parallel_pre_commit pre_prepare : XactEvent

pub data SubXactEvent : Type 0 where
  start_sub commit_sub abort_sub pre_commit_sub : SubXactEvent

unfoldable pub pg_tde_xact_callback : ℕ → XactEvent → State → State
pg_tde_xact_callback nest_level parallel_abort s = do_pending_deletes nest_level false s
pg_tde_xact_callback nest_level abort s = do_pending_deletes nest_level false s
pg_tde_xact_callback nest_level commit s =
    pending_delete_cleanup (do_pending_deletes nest_level true s)
pg_tde_xact_callback nest_level prepare s = pending_delete_cleanup s
pg_tde_xact_callback nest_level _ s = s

unfoldable pub pg_tde_subxact_callback : ℕ → SubXactEvent → State → State
pg_tde_subxact_callback nest_level abort_sub s = do_pending_deletes nest_level false s
pg_tde_subxact_callback nest_level _ s = s
