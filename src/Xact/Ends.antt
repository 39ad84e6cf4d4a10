-- ===== src/Xact/Ends.antt =====
-- The ends of a transaction, at nesting level 1.
use pg_tde.Base.{◌≤◌, ◌≡◌, refl, ◌∙◌, true, false, not, List, [], ◌∷◌, ◌++◌, arith}
use pg_tde.Xact.{PendingFileDelete, State, do_pending_deletes, pg_tde_xact_callback, commit, abort}
use pg_tde.Xact.Pending.{
  select, paths, is_outer, is_due, do_pending_deletes_lem, pending_delete_cleanup_lem,
}

-- Every entry was registered inside a transaction.
abbrev pub InXact : List PendingFileDelete → Type 0
InXact [] = Unit {0}
InXact (p ∷ ps) = (1 ≤ p.nest_level) × InXact ps

select-outer : (ps : List PendingFileDelete) → InXact ps → select (is_outer 1) ps ≡ []
select-outer [] h = refl
select-outer (p ∷ ps) h = ground (arith, select-outer ps h.1)

-- Commit unlinks exactly the files that were registered for deletion at commit, the last one
-- registered first, and leaves nothing pending.
pub commit-unlinks :
    (s : State)
    → InXact s.pending_deletes
    → pg_tde_xact_callback 1 commit s ≡ record {
      pending_deletes = [];
      unlinked = s.unlinked ++ paths (λ p. p.at_commit) s.pending_deletes;
    }
unfolding pg_tde_xact_callback
commit-unlinks s h =
    pending_delete_cleanup_lem (do_pending_deletes 1 true s)
    ∙ ground (arith, do_pending_deletes_lem 1 true s, at_commit s.pending_deletes h)
  where
    at_commit :
        (ps : List PendingFileDelete)
        → InXact ps
        → paths (is_due 1 true) ps ≡ paths (λ p. p.at_commit) ps
    at_commit [] h = refl
    at_commit (p ∷ ps) h = ground (arith, at_commit ps h.1)

-- Abort unlinks exactly the files that were created for the transaction, and leaves nothing
-- pending.
pub abort-unlinks :
    (s : State)
    → InXact s.pending_deletes
    → pg_tde_xact_callback 1 abort s ≡ record {
      pending_deletes = [];
      unlinked = s.unlinked ++ paths (λ p. not p.at_commit) s.pending_deletes;
    }
unfolding pg_tde_xact_callback
abort-unlinks s h = ground (
  arith,
  do_pending_deletes_lem 1 false s,
  select-outer s.pending_deletes h,
  at_abort s.pending_deletes h,
)
  where
    at_abort :
        (ps : List PendingFileDelete)
        → InXact ps
        → paths (is_due 1 false) ps ≡ paths (λ p. not p.at_commit) ps
    at_abort [] h = refl
    at_abort (p ∷ ps) h = ground (arith, at_abort ps h.1)
