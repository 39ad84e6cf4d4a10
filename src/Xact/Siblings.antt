-- ===== src/Xact/Siblings.antt =====
-- Subtransactions. The callback does nothing when one commits: its entries keep the level at which
-- they were made.
use pg_tde.Base.{ℕ, ◌+◌, ◌-◌, ◌≡◌, refl, Bool, false, List, [], ◌∷◌, ◌++◌, arith}
use pg_tde.Xact.{
  FilePath, PendingFileDelete, State, register_file_for_deletion, pg_tde_subxact_callback,
  abort_sub, commit_sub, start_sub,
}
use pg_tde.Xact.Pending.{select, paths, is_outer, is_due, do_pending_deletes_lem}

-- A backend: the nesting level of its transaction, and this module's state.
pub record Backend : Type 0 where
  pub nest_level : ℕ
  pub files : State

-- What happens inside a transaction. The server calls back before it leaves the level.
pub data Op : Type 0 where
  begin_sub end_sub rollback_sub : Op
  register : FilePath → Bool → Op

unfoldable pub step : Backend → Op → Backend
step b begin_sub = record {
  nest_level = b.nest_level + 1;
  files = pg_tde_subxact_callback (b.nest_level + 1) start_sub b.files;
}
step b end_sub = record {
  nest_level = b.nest_level - 1;
  files = pg_tde_subxact_callback b.nest_level commit_sub b.files;
}
step b rollback_sub = record {
  nest_level = b.nest_level - 1;
  files = pg_tde_subxact_callback b.nest_level abort_sub b.files;
}
step b (register path at_commit) = record b {
  files = register_file_for_deletion b.nest_level path at_commit b.files;
}

unfoldable pub run : Backend → List Op → Backend
run b [] = b
run b (op ∷ ops) = run (step b op) ops

-- The files of entries that a rolled back level would not touch stay pending: an entry of an outer
-- level survives the abort of an inner one.
pub rollback_sub-keeps :
    (b : Backend)
    → (step b rollback_sub).files ≡ record {
      pending_deletes = select (is_outer b.nest_level) b.files.pending_deletes;
      unlinked = b.files.unlinked ++ paths (is_due b.nest_level false) b.files.pending_deletes;
    }
unfolding step pg_tde_subxact_callback
rollback_sub-keeps b = do_pending_deletes_lem b.nest_level false b.files

-- A file that a subtransaction creates and commits is unlinked when a later subtransaction of the
-- same level rolls back, although its creator committed.
pub sibling_rollback-unlinks :
    (b : Backend) (path : FilePath)
    → let after =
        run b (begin_sub ∷ register path false ∷ end_sub ∷ begin_sub ∷ rollback_sub ∷ []) in
      (rest : List FilePath) × (after.files.unlinked ≡ b.files.unlinked ++ (path ∷ rest))
unfolding run step pg_tde_subxact_callback register_file_for_deletion
sibling_rollback-unlinks b path =
    let s = register_file_for_deletion (b.nest_level + 1) path false b.files in
    let level : b.nest_level + 1 - 1 + 1 ≡ b.nest_level + 1 = omega arith in
    (
      paths (is_due (b.nest_level + 1) false) b.files.pending_deletes,
      rw level (ground (arith, do_pending_deletes_lem (b.nest_level + 1) false s)),
    )

abbrev pub NoRollback : List Op → Type 0
NoRollback [] = Unit {0}
NoRollback (rollback_sub ∷ ops) = ⊥
NoRollback (op ∷ ops) = NoRollback ops

abbrev pub registered : ℕ → List Op → List PendingFileDelete → List PendingFileDelete
registered nest [] ps = ps
registered nest (begin_sub ∷ ops) ps = registered (nest + 1) ops ps
registered nest (register path at_commit ∷ ops) ps =
    registered nest ops (record { path = path; at_commit = at_commit; nest_level = nest } ∷ ps)
registered nest (_ ∷ ops) ps = registered (nest - 1) ops ps

-- While nothing rolls back, no file is unlinked, and all that was registered is pending with the
-- level it was registered at, the last first.
pub run-NoRollback :
    (ops : List Op) (b : Backend)
    → NoRollback ops
    → (run b ops).files
      ≡ record b.files { pending_deletes = registered b.nest_level ops b.files.pending_deletes }
unfolding run step pg_tde_subxact_callback register_file_for_deletion
run-NoRollback [] b h = refl
run-NoRollback (begin_sub ∷ ops) b h = run-NoRollback ops _ h
run-NoRollback (end_sub ∷ ops) b h = run-NoRollback ops _ h
run-NoRollback (rollback_sub ∷ ops) b h = absurd h
run-NoRollback (register path at_commit ∷ ops) b h = run-NoRollback ops _ h
