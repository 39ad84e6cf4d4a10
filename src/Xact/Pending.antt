-- ===== src/Xact/Pending.antt =====
-- The loops over the list of pending deletions, against what they are for.
use mathlib.Core.List.{reverse, append-nil, append_assoc, reverse-cons}
use pg_tde.Base.{ℕ, ◌≡◌, refl, ap, Bool, not, List, [], ◌∷◌, ◌++◌, arith, if◌then◌else◌, ltb, ◌&&◌}
use pg_tde.Xact.{
  FilePath, PendingFileDelete, State, eqb, do_loop, do_pending_deletes, cleanup_loop,
  cleanup_pending_deletes, cleanup_all, pending_delete_cleanup,
}

-- The entries that pass a test, in order.
abbrev pub select : (PendingFileDelete → Bool) → List PendingFileDelete → List PendingFileDelete
select test [] = []
select test (p ∷ ps) = if test p then p ∷ select test ps else select test ps

-- The paths of the entries that pass a test, in order.
abbrev pub paths : (PendingFileDelete → Bool) → List PendingFileDelete → List FilePath
paths test [] = []
paths test (p ∷ ps) = if test p then p.path ∷ paths test ps else paths test ps

abbrev pub is_outer : ℕ → PendingFileDelete → Bool
is_outer nest_level p = ltb p.nest_level nest_level

abbrev pub is_due : ℕ → Bool → PendingFileDelete → Bool
is_due nest_level is_commit p = not (ltb p.nest_level nest_level) && eqb p.at_commit is_commit

do_loop_lem :
    (nest : ℕ) (is_commit : Bool) (kept ps : List PendingFileDelete) (out : List FilePath)
    → do_loop nest is_commit kept ps out ≡ record {
      pending_deletes = reverse kept ++ select (is_outer nest) ps;
      unlinked = out ++ paths (is_due nest is_commit) ps;
    }
unfolding do_loop
do_loop_lem nest is_commit kept [] out = ground (arith, append-nil (reverse kept), append-nil out)
do_loop_lem nest is_commit kept (p ∷ ps) out = ground (
  arith,
  do_loop_lem nest is_commit (p ∷ kept) ps out,
  do_loop_lem nest is_commit kept ps out,
  do_loop_lem nest is_commit kept ps (out ++ (p.path ∷ [])),
  reverse-cons p kept,
  append_assoc (reverse kept) (p ∷ []) (select (is_outer nest) ps),
  append_assoc out (p.path ∷ []) (paths (is_due nest is_commit) ps),
)

-- `do_pending_deletes` unlinks, in list order, the files of the entries of the current nesting level
-- and deeper that are meant for this outcome, forgets all those entries, and keeps the entries of
-- outer levels in their order.
pub do_pending_deletes_lem :
    (nest : ℕ) (is_commit : Bool) (s : State)
    → do_pending_deletes nest is_commit s ≡ record {
      pending_deletes = select (is_outer nest) s.pending_deletes;
      unlinked = s.unlinked ++ paths (is_due nest is_commit) s.pending_deletes;
    }
unfolding do_pending_deletes
do_pending_deletes_lem nest is_commit s = do_loop_lem nest is_commit [] s.pending_deletes s.unlinked

cleanup_loop_lem :
    (at_commit : Bool) (kept ps : List PendingFileDelete)
    → cleanup_loop at_commit kept ps
      ≡ reverse kept ++ select (λ p. not (eqb p.at_commit at_commit)) ps
unfolding cleanup_loop
cleanup_loop_lem at_commit kept [] = rw append-nil
cleanup_loop_lem at_commit kept (p ∷ ps) = ground (
  arith,
  cleanup_loop_lem at_commit (p ∷ kept) ps,
  cleanup_loop_lem at_commit kept ps,
  reverse-cons p kept,
  append_assoc (reverse kept) (p ∷ []) (select (λ p. not (eqb p.at_commit at_commit)) ps),
)

-- `cleanup_pending_deletes` forgets exactly the entries of one kind, unlinking nothing.
pub cleanup_pending_deletes_lem :
    (at_commit : Bool) (s : State)
    → cleanup_pending_deletes at_commit s ≡ record s {
      pending_deletes = select (λ p. not (eqb p.at_commit at_commit)) s.pending_deletes;
    }
unfolding cleanup_pending_deletes
cleanup_pending_deletes_lem at_commit s =
    ap (λ (ps : List PendingFileDelete). record s { pending_deletes = ps })
      (cleanup_loop_lem at_commit [] s.pending_deletes)

cleanup_all-nil : (ps : List PendingFileDelete) → cleanup_all ps ≡ []
unfolding cleanup_all
cleanup_all-nil [] = refl
cleanup_all-nil (p ∷ ps) = cleanup_all-nil ps

pub pending_delete_cleanup_lem :
    (s : State) → pending_delete_cleanup s ≡ record s { pending_deletes = [] }
unfolding pending_delete_cleanup
pending_delete_cleanup_lem s =
    ap (λ (ps : List PendingFileDelete). record s { pending_deletes = ps })
      (cleanup_all-nil s.pending_deletes)
