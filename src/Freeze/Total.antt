-- ===== src/Freeze/Total.antt =====
-- A tuple that counts as totally frozen has nothing left to freeze.
use pg_tde.Base.{
  arith, ◌≡◌, refl, ap, subst, Bool, true, false, ◌&&◌, Option, none, some, if◌then◌else◌, ◌==◌,
}
use pg_tde.Freeze.{
  TupleHeader, get_xmin, get_xvac, is_normal_xid, VacuumCutoffs, HeapPageFreeze, FreezeServer,
}
use pg_tde.Freeze.Multi.{
  MultiAction, frm_noop, frm_invalidate_xmax, frm_return_is_xid, frm_return_is_multi,
  require_freeze, freeze_multi_xact_id,
}
use pg_tde.Freeze.Prepare.{
  XmaxPlan, Prepared, multi_plan, xid_plan, xmax_plan, join_plan, pg_tde_prepare_freeze_tuple,
  pg_tde_execute_freeze_tuple, pg_tde_tuple_needs_eventual_freeze,
}

module _ (sv : FreezeServer) (cutoffs : VacuumCutoffs) (t : TupleHeader) where
  -- What a plan for `xmax` leaves.
  abbrev Leaves : XmaxPlan → Type 0
  Leaves x =
      (x.bits.xmin_committed ≡ t.bits.xmin_committed)
      × (x.bits.xmin_invalid ≡ t.bits.xmin_invalid)
      × (x.bits.moved_off ≡ t.bits.moved_off)
      × (x.bits.moved_in ≡ t.bits.moved_in)
      × (x.freeze_xmax ≡ true → (x.xmax ≡ 0) × (x.bits.xmax_is_multi ≡ false))
      × (x.xmax_already_frozen ≡ true
          → (x.xmax ≡ 0)
            × (x.bits.xmax_is_multi ≡ false)
            × (t.raw_xmax ≡ 0)
            × (t.bits.xmax_is_multi ≡ false))

  abbrev LeavesEnd : Option XmaxPlan → Type 0
  LeavesEnd none = Unit {0}
  LeavesEnd (some x) = Leaves x

  LeavesEnd-if :
      (b : Bool) (x y : Option XmaxPlan)
      → (b ≡ true → LeavesEnd x)
      → (b ≡ false → LeavesEnd y)
      → LeavesEnd (if b then x else y)
  LeavesEnd-if true x y k k' = k refl
  LeavesEnd-if false x y k k' = k' refl

  multi_plan-Leaves :
      (a : MultiAction) (page : HeapPageFreeze) → Leaves (multi_plan sv cutoffs t (a, page))
  unfolding multi_plan
  multi_plan-Leaves frm_noop page = (refl, refl, refl, refl, λ e. absurd cc, λ e. absurd cc)
  multi_plan-Leaves frm_invalidate_xmax page =
      (refl, refl, refl, refl, λ e. (refl, refl), λ e. absurd cc)
  multi_plan-Leaves (frm_return_is_xid x c) page =
      (refl, refl, refl, refl, λ e. absurd cc, λ e. absurd cc)
  multi_plan-Leaves (frm_return_is_multi x) page =
      (refl, refl, refl, refl, λ e. absurd cc, λ e. absurd cc)

  multi-LeavesEnd :
      (o : Option (MultiAction × HeapPageFreeze))
      → LeavesEnd (elim o as (λ q. Option XmaxPlan) [
        | none ↦ none
        | some r ↦ some (multi_plan sv cutoffs t r)
      ])
  multi-LeavesEnd none = tt
  multi-LeavesEnd (some (a, page)) = multi_plan-Leaves a page

  xid_plan-LeavesEnd :
      (page : HeapPageFreeze)
      → t.bits.xmax_is_multi ≡ false
      → LeavesEnd (xid_plan sv cutoffs t page)
  unfolding xid_plan
  xid_plan-LeavesEnd page single =
      LeavesEnd-if (is_normal_xid t.raw_xmax) _ _
        (λ _.
          LeavesEnd-if (sv.precedes t.raw_xmax cutoffs.relfrozenxid) none (some _) (λ _. tt)
            (λ _. (
              ground arith,
              ground arith,
              ground arith,
              ground arith,
              λ e. (ground arith, ground arith),
              λ e. absurd cc,
            )))
        (λ _.
          LeavesEnd-if (t.raw_xmax == 0) (some _) none
            (λ z. (
              refl,
              refl,
              refl,
              refl,
              λ e. absurd cc,
              λ e. (ground arith, single, ground arith, single),
            ))
            (λ _. tt))

  xmax_plan-LeavesEnd : (page : HeapPageFreeze) → LeavesEnd (xmax_plan sv cutoffs t page)
  unfolding xmax_plan
  xmax_plan-LeavesEnd page =
      LeavesEnd-if t.bits.xmax_is_multi _ _
        (λ _. multi-LeavesEnd (freeze_multi_xact_id sv cutoffs t.raw_xmax t.bits page))
        (xid_plan-LeavesEnd page)

  abbrev Done : Prepared → Type 0
  Done p =
      p.totally_frozen ≡ true
      → pg_tde_tuple_needs_eventual_freeze
          (if p.has_plan then pg_tde_execute_freeze_tuple p.frz t else t)
        ≡ false

  join_plan-Done :
      (freeze_xmin : Bool) (x : XmaxPlan)
      → Leaves x
      → Done (join_plan sv cutoffs t freeze_xmin (is_normal_xid (get_xvac t)) x)
  unfolding join_plan pg_tde_execute_freeze_tuple pg_tde_tuple_needs_eventual_freeze
  join_plan-Done freeze_xmin x (c, i, o, n, f, a) total = ground arith

  planned-Done :
      (freeze_xmin : Bool) (o : Option XmaxPlan) (p : Prepared)
      → LeavesEnd o
      → elim o as (λ q. Option Prepared) [
        | none ↦ none
        | some x ↦ some (join_plan sv cutoffs t freeze_xmin (is_normal_xid (get_xvac t)) x)
      ]
        ≡ some p
      → Done p
  planned-Done freeze_xmin none p l e = absurd cc
  planned-Done freeze_xmin (some x) p l e =
      let made = join_plan sv cutoffs t freeze_xmin (is_normal_xid (get_xvac t)) x in
      subst Done (ap (λ o. elim o as (λ q. Prepared) [ none ↦ made | some q ↦ q ]) e)
        (join_plan-Done freeze_xmin x l)

  no_error :
      (b : Bool) (o : Option Prepared) (p : Prepared)
      → (if b then none else o) ≡ some p
      → o ≡ some p
  no_error true o p e = absurd cc
  no_error false o p e = e

-- What counts as totally frozen is: when pg_tde_prepare_freeze_tuple says so, then once its plan, if it has one, is
-- carried out, pg_tde_tuple_needs_eventual_freeze finds no xid, multixact or xvac left to freeze.
pub totally_frozen-needs_nothing :
    (sv : FreezeServer) (cutoffs : VacuumCutoffs) (t : TupleHeader) (page : HeapPageFreeze)
    (p : Prepared)
    → pg_tde_prepare_freeze_tuple sv cutoffs t page ≡ some p
    → p.totally_frozen ≡ true
    → pg_tde_tuple_needs_eventual_freeze
        (if p.has_plan then pg_tde_execute_freeze_tuple p.frz t else t)
      ≡ false
unfolding pg_tde_prepare_freeze_tuple
totally_frozen-needs_nothing sv cutoffs t page p e total =
    let xmin = get_xmin t in
    let page' = if is_normal_xid (get_xvac t) then require_freeze page else page in
    planned-Done sv cutoffs t (is_normal_xid xmin && sv.precedes xmin cutoffs.oldest_xmin)
      (xmax_plan sv cutoffs t page') p (xmax_plan-LeavesEnd sv cutoffs t page')
      (no_error sv cutoffs t _ _ p e) total
