-- ===== src/Freeze/Visible.antt =====
-- Freezing a tuple changes nothing for any snapshot.
use pg_tde.Base.{
  arith, ℕ, ◌≡◌, refl, ap, subst, sym, ◌∙◌, Bool, true, false, ◌&&◌, ◌||◌, not, Option, none, some,
  if◌then◌else◌, inl, inr, ◌==◌,
}
use pg_tde.Visibility.{Header, Transactions, Snapshot, is_xmin_invalid, heap_tuple_satisfies_mvcc}
use pg_tde.RowLock.Members.{multi_xact_id_get_update_xid, no_members}
use pg_tde.Freeze.{
  TupleHeader, get_xmin, get_xvac, xmax_is_locked_only, is_normal_xid, VacuumCutoffs,
  HeapPageFreeze, FreezeServer,
}
use pg_tde.Freeze.Multi.{
  MultiAction, frm_noop, frm_invalidate_xmax, frm_return_is_xid, frm_return_is_multi,
  require_freeze, Second, second_start, second_pass, freeze_multi_xact_id,
}
use pg_tde.Freeze.Prepare.{
  HeapTupleFreeze, XmaxPlan, Prepared, without_xmax, multi_plan, xid_plan, xmax_plan, join_plan,
  pg_tde_prepare_freeze_tuple, pg_tde_execute_freeze_tuple, passes_checks,
}
use pg_tde.Freeze.Seen.{
  deleter, xmin_case, sees, TrueXmaxHint, heap_tuple_satisfies_mvcc-sees, harmless,
  sees-SameDeleter,
}
use pg_tde.Freeze.Kept.{is_live, OneUpdater}
use pg_tde.Freeze.Deleter.{transactions, header_of, Fits}
use pg_tde.Freeze.Xmax.{FitsEnd, freeze_multi_xact_id-Fits}

module _ (sv : FreezeServer) (cutoffs : VacuumCutoffs) (tx : Transactions) (s : Snapshot)
    (cmin cmax t_ctid : ℕ) (t : TupleHeader) (unmoved : t.bits.moved_off ≡ false)
    (unmoved_in : t.bits.moved_in ≡ false)
    (true_invalid : is_xmin_invalid (header_of sv cmin cmax t_ctid t) ≡ true
      → sv.server.did_commit t.raw_xmin ≡ false)
    (true_hint : TrueXmaxHint (transactions sv tx) s (header_of sv cmin cmax t_ctid t))
    (horizon : (x : ℕ)
      → sv.precedes x cutoffs.oldest_xmin ≡ true
      → (sv.server.is_current x ≡ false) × (s.in_snapshot x ≡ false))
    (one : OneUpdater sv cutoffs
      (multi_xact_id_get_update_xid sv.server t.raw_xmax)
      (no_members (sv.server.members t.raw_xmax)))
    (locked : t.bits.xmax_is_multi ≡ true
      → (t.bits.xmax_invalid || xmax_is_locked_only t.bits) ≡ true
      → is_live sv cutoffs (multi_xact_id_get_update_xid sv.server t.raw_xmax) ≡ false)
    (no_xid : is_live sv cutoffs 0 ≡ false) (no_multi : sv.server.members 0 ≡ none)
    (created : (r : Second)
      → second_pass sv cutoffs (no_members (sv.server.members t.raw_xmax)) second_start ≡ some r
      → sv.server.members (sv.create_from_members r.newmembers) ≡ some r.newmembers) where
  abbrev here : TupleHeader → Header
  here r = header_of sv cmin cmax t_ctid r

  current : (x : ℕ) → sv.precedes x cutoffs.oldest_xmin ≡ true → sv.server.is_current x ≡ false
  current x old = (horizon x old).0

  abbrev KeepsXmin : XmaxPlan → Type 0
  KeepsXmin x =
      (x.bits.xmin_committed ≡ t.bits.xmin_committed)
      × (x.bits.xmin_invalid ≡ t.bits.xmin_invalid)
      × (x.bits.moved_off ≡ t.bits.moved_off)
      × (x.bits.moved_in ≡ t.bits.moved_in)

  -- A plan that fits, once it has passed the check.
  abbrev PlanEnd : Option XmaxPlan → Type 0
  PlanEnd none = Unit {0}
  PlanEnd (some x) =
      KeepsXmin x
      × ((x.check_xmax_aborted && sv.server.did_commit t.raw_xmax) ≡ false
          → Fits sv cutoffs tx s cmin cmax t_ctid t x)

  PlanEnd-if :
      (b : Bool) (x y : Option XmaxPlan)
      → (b ≡ true → PlanEnd x)
      → (b ≡ false → PlanEnd y)
      → PlanEnd (if b then x else y)
  PlanEnd-if true x y k k' = k refl
  PlanEnd-if false x y k k' = k' refl

  multi_plan-KeepsXmin :
      (a : MultiAction) (page : HeapPageFreeze) → KeepsXmin (multi_plan sv cutoffs t (a, page))
  unfolding multi_plan
  multi_plan-KeepsXmin frm_noop page = (refl, refl, refl, refl)
  multi_plan-KeepsXmin frm_invalidate_xmax page = (refl, refl, refl, refl)
  multi_plan-KeepsXmin (frm_return_is_xid x c) page = (refl, refl, refl, refl)
  multi_plan-KeepsXmin (frm_return_is_multi x) page = (refl, refl, refl, refl)

  multi-PlanEnd :
      (multi : t.bits.xmax_is_multi ≡ true) (o : Option (MultiAction × HeapPageFreeze))
      → FitsEnd sv cutoffs tx s cmin cmax t_ctid t true_hint current multi one
          (locked multi)
          no_xid
          no_multi
          created
          o
      → PlanEnd (elim o as (λ q. Option XmaxPlan) [
        | none ↦ none
        | some r ↦ some (multi_plan sv cutoffs t r)
      ])
  multi-PlanEnd multi none f = tt
  multi-PlanEnd multi (some (a, page)) f = (multi_plan-KeepsXmin a page, λ c. f)

  xid_deleter :
      sv.precedes t.raw_xmax cutoffs.oldest_xmin ≡ true
      → t.bits.xmax_is_multi ≡ false
      → (not (xmax_is_locked_only t.bits) && sv.server.did_commit t.raw_xmax) ≡ false
      → harmless (transactions sv tx) s (deleter (here t)) ≡ true
  xid_deleter old single check = let current = (horizon t.raw_xmax old).0 in ground arith

  abbrev xid_settled : Bool → HeapPageFreeze → XmaxPlan
  xid_settled old page = record {
    xmax = if old then 0 else t.raw_xmax;
    bits = if old then without_xmax t.bits else t.bits;
    replace_xmax = false;
    freeze_xmax = old;
    xmax_already_frozen = false;
    check_xmax_aborted = old && not (xmax_is_locked_only t.bits);
    page = page;
  }

  xid_settled-PlanEnd :
      (old : Bool) (page : HeapPageFreeze)
      → (old ≡ true → sv.precedes t.raw_xmax cutoffs.oldest_xmin ≡ true)
      → t.bits.xmax_is_multi ≡ false
      → PlanEnd (some (xid_settled old page))
  xid_settled-PlanEnd true page before single = (
    (refl, refl, refl, refl),
    λ check. (inr (xid_deleter (before refl) single check, refl), λ c m i. absurd cc),
  )
  xid_settled-PlanEnd false page before single =
      ((refl, refl, refl, refl), λ check. (inl refl, true_hint))

  xid_plan-PlanEnd :
      (page : HeapPageFreeze) → t.bits.xmax_is_multi ≡ false → PlanEnd (xid_plan sv cutoffs t page)
  unfolding xid_plan
  xid_plan-PlanEnd page single =
      PlanEnd-if (is_normal_xid t.raw_xmax) _ _
        (λ _.
          PlanEnd-if (sv.precedes t.raw_xmax cutoffs.relfrozenxid) none _ (λ _. tt)
            (λ _.
              xid_settled-PlanEnd (sv.precedes t.raw_xmax cutoffs.oldest_xmin) page (λ e. e)
                single))
        (λ _.
          PlanEnd-if (t.raw_xmax == 0) _ none
            (λ z. ((refl, refl, refl, refl), λ check. (inl refl, true_hint))) (λ _. tt))

  xmax_plan-PlanEnd : (page : HeapPageFreeze) → PlanEnd (xmax_plan sv cutoffs t page)
  unfolding xmax_plan
  xmax_plan-PlanEnd page =
      PlanEnd-if t.bits.xmax_is_multi _ _
        (λ multi. multi-PlanEnd multi (freeze_multi_xact_id sv cutoffs t.raw_xmax t.bits page) (
          freeze_multi_xact_id-Fits sv cutoffs tx s cmin cmax t_ctid t true_hint current multi one
            (locked multi) no_xid no_multi created page))
        (λ single. xid_plan-PlanEnd page single)

  -- The header that the plan makes.
  abbrev frozen : Bool → Bool → XmaxPlan → TupleHeader
  frozen freeze_xmin replace_xvac x =
      pg_tde_execute_freeze_tuple (join_plan sv cutoffs t freeze_xmin replace_xvac x).frz t

  abbrev FreezesXmin : Bool → Type 0
  FreezesXmin freeze_xmin =
      freeze_xmin ≡ true
      → (is_normal_xid (get_xmin t) ≡ true) × (sv.precedes (get_xmin t) cutoffs.oldest_xmin ≡ true)

  frozen-xmin_case :
      (freeze_xmin replace_xvac : Bool) (x : XmaxPlan)
      → KeepsXmin x
      → FreezesXmin freeze_xmin
      → (freeze_xmin && not (sv.server.did_commit t.raw_xmin)) ≡ false
      → xmin_case (transactions sv tx) s (here (frozen freeze_xmin replace_xvac x))
        ≡ xmin_case (transactions sv tx) s (here t)
  unfolding pg_tde_execute_freeze_tuple join_plan
  frozen-xmin_case false replace_xvac x (c, i, o, n) f check = ground arith
  frozen-xmin_case true replace_xvac x (c, i, o, n) f check =
      let (normal, old) = f refl in
      let raw : get_xmin t ≡ t.raw_xmin = ground arith in
      let seen = horizon (get_xmin t) old in ground arith

  frozen-mvcc :
      (freeze_xmin replace_xvac : Bool) (x : XmaxPlan)
      → KeepsXmin x
      → Fits sv cutoffs tx s cmin cmax t_ctid t x
      → FreezesXmin freeze_xmin
      → (freeze_xmin && not (sv.server.did_commit t.raw_xmin)) ≡ false
      → (heap_tuple_satisfies_mvcc
          (transactions sv tx)
          s
          (here (frozen freeze_xmin replace_xvac x))).0
        ≡ (heap_tuple_satisfies_mvcc (transactions sv tx) s (here t)).0
  unfolding pg_tde_execute_freeze_tuple join_plan
  frozen-mvcc freeze_xmin replace_xvac x k (same, hint) f check =
      let txs = transactions sv tx in
      let t' = here (frozen freeze_xmin replace_xvac x) in
      heap_tuple_satisfies_mvcc-sees txs s t' (k.2 ∙ unmoved) (k.3 ∙ unmoved_in) hint
      ∙ (ap (λ c. sees txs s cmin cmax c (deleter t'))
            (frozen-xmin_case freeze_xmin replace_xvac x k f check)
          ∙ (sees-SameDeleter txs s cmin cmax (xmin_case txs s (here t)) (deleter (here t))
                (deleter t') same
              ∙ sym (heap_tuple_satisfies_mvcc-sees txs s (here t) unmoved unmoved_in true_hint)))

  abbrev Unchanged : HeapTupleFreeze → Type 0
  Unchanged frz =
      (heap_tuple_satisfies_mvcc (transactions sv tx) s
        (here (pg_tde_execute_freeze_tuple frz t))).0
      ≡ (heap_tuple_satisfies_mvcc (transactions sv tx) s (here t)).0

  checked :
      (frz : HeapTupleFreeze)
      → passes_checks sv frz t ≡ true
      → ((frz.check_xmin_committed && not (sv.server.did_commit t.raw_xmin)) ≡ false)
        × ((frz.check_xmax_aborted && sv.server.did_commit t.raw_xmax) ≡ false)
  unfolding passes_checks
  checked frz e = (ground arith, ground arith)

  joined-mvcc :
      (freeze_xmin replace_xvac : Bool) (x : XmaxPlan)
      → PlanEnd (some x)
      → FreezesXmin freeze_xmin
      → passes_checks sv (join_plan sv cutoffs t freeze_xmin replace_xvac x).frz t ≡ true
      → Unchanged (join_plan sv cutoffs t freeze_xmin replace_xvac x).frz
  unfolding join_plan
  joined-mvcc freeze_xmin replace_xvac x (k, fit) f e =
      let c = checked (join_plan sv cutoffs t freeze_xmin replace_xvac x).frz e in
      frozen-mvcc freeze_xmin replace_xvac x k (fit c.1) f c.0

  planned-mvcc :
      (freeze_xmin replace_xvac : Bool) (o : Option XmaxPlan) (p : Prepared)
      → PlanEnd o
      → FreezesXmin freeze_xmin
      → elim o as (λ q. Option Prepared) [
        | none ↦ none
        | some x ↦ some (join_plan sv cutoffs t freeze_xmin replace_xvac x)
      ]
        ≡ some p
      → passes_checks sv p.frz t ≡ true
      → Unchanged p.frz
  planned-mvcc freeze_xmin replace_xvac none p k f e pass = absurd cc
  planned-mvcc freeze_xmin replace_xvac (some x) p k f e pass =
      let made = join_plan sv cutoffs t freeze_xmin replace_xvac x in
      let at : made ≡ p = ap (λ o. elim o as (λ q. Prepared) [ none ↦ made | some q ↦ q ]) e in
      subst (λ q. Unchanged q.frz) at
        (joined-mvcc freeze_xmin replace_xvac x k f (ap (λ q. passes_checks sv q.frz t) at ∙ pass))

  no_error :
      (b : Bool) (o : Option Prepared) (p : Prepared)
      → (if b then none else o) ≡ some p
      → o ≡ some p
  no_error true o p e = absurd cc
  no_error false o p e = e

  -- Freezing a tuple changes nothing for any MVCC snapshot: where pg_tde_prepare_freeze_tuple makes a plan, a
  -- multixact's members included, and the plan passes the checks of pg_tde_freeze_execute_prepared, the tuple is
  -- seen after pg_tde_execute_freeze_tuple by the same snapshots as before. The tuple is not one that an old VACUUM FULL moved,
  -- its hint bits are true, and a multixact with nothing but locks or with an invalid xmax has no live updater; no
  -- transaction before OldestXmin is the current one or running for the snapshot; a multixact has one updater at
  -- most, none has the id 0, and a new one has the members that it is made of.
  pub freeze_tuple-mvcc :
      (page : HeapPageFreeze) (p : Prepared)
      → pg_tde_prepare_freeze_tuple sv cutoffs t page ≡ some p
      → passes_checks sv p.frz t ≡ true
      → (heap_tuple_satisfies_mvcc
          (transactions sv tx)
          s
          (header_of sv cmin cmax t_ctid (pg_tde_execute_freeze_tuple p.frz t))).0
        ≡ (heap_tuple_satisfies_mvcc (transactions sv tx) s (header_of sv cmin cmax t_ctid t)).0
  unfolding pg_tde_prepare_freeze_tuple
  freeze_tuple-mvcc page p e pass =
      let xmin = get_xmin t in
      let old = sv.precedes xmin cutoffs.oldest_xmin in
      let replace_xvac = is_normal_xid (get_xvac t) in
      let page' = if replace_xvac then require_freeze page else page in
      planned-mvcc (is_normal_xid xmin && old) replace_xvac (xmax_plan sv cutoffs t page') p
        (xmax_plan-PlanEnd page') (λ b. (ground arith, ground arith)) (no_error _ _ p e) pass
