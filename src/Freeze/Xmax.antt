-- ===== src/Freeze/Xmax.antt =====
-- `FreezeMultiXactId` and the plan for `xmax` leave the deleter of a row what it is to every snapshot.
use pg_tde.Base.{
  arith, ℕ, ◌≡◌, refl, ap, sym, ◌∙◌, Bool, true, false, ◌||◌, Option, none, some, if◌then◌else◌,
  inl, inr, List, [], ◌∷◌, any, ◌==◌, Bool-cases,
}
use pg_tde.Visibility.{Transactions, Snapshot}
use pg_tde.RowLock.{MultiXactMember}
use pg_tde.RowLock.Members.{multi_xact_id_get_update_xid, first_updater, no_members}
use pg_tde.Freeze.{
  TupleHeader, xmax_is_locked_only, locked_upgraded, VacuumCutoffs, HeapPageFreeze, FreezeServer,
}
use pg_tde.Freeze.Multi.{
  MultiAction, frm_noop, frm_invalidate_xmax, frm_return_is_xid, Second, require_freeze, first_pass,
  second_pass, second_start, replacement, replace_multi, freeze_members, freeze_old_multi,
  freeze_multi_xact_id,
}
use pg_tde.Freeze.Prepare.{XmaxPlan, multi_plan}
use pg_tde.Freeze.Seen.{deleter, TrueXmaxHint, harmless}
use pg_tde.Freeze.Kept.{
  is_updater, first_updater-none, is_live, OneUpdater, After, second_pass-Keeps,
}
use pg_tde.Freeze.Deleter.{
  transactions, header_of, Fits, dead_updater, old_updater, invalidate-Fits, return_xid-Fits,
  replacement-Fits,
}

module _ (sv : FreezeServer) (cutoffs : VacuumCutoffs) (tx : Transactions) (s : Snapshot)
    (cmin cmax t_ctid : ℕ) (t : TupleHeader)
    (true_hint : TrueXmaxHint (transactions sv tx) s (header_of sv cmin cmax t_ctid t))
    (horizon : (x : ℕ)
      → sv.precedes x cutoffs.oldest_xmin ≡ true
      → sv.server.is_current x ≡ false) where
  abbrev pub FitsPlan : XmaxPlan → Type 0
  FitsPlan x = Fits sv cutoffs tx s cmin cmax t_ctid t x

  module _ (multi : t.bits.xmax_is_multi ≡ true)
      (one : OneUpdater sv cutoffs
        (multi_xact_id_get_update_xid sv.server t.raw_xmax)
        (no_members (sv.server.members t.raw_xmax)))
      (locked : (t.bits.xmax_invalid || xmax_is_locked_only t.bits) ≡ true
        → is_live sv cutoffs (multi_xact_id_get_update_xid sv.server t.raw_xmax) ≡ false)
      (no_xid : is_live sv cutoffs 0 ≡ false) (no_multi : sv.server.members 0 ≡ none)
      (created : (r : Second)
        → second_pass sv cutoffs (no_members (sv.server.members t.raw_xmax)) second_start ≡ some r
        → sv.server.members (sv.create_from_members r.newmembers) ≡ some r.newmembers) where
    abbrev updater : ℕ
    updater = multi_xact_id_get_update_xid sv.server t.raw_xmax

    abbrev pub FitsEnd : Option (MultiAction × HeapPageFreeze) → Type 0
    FitsEnd none = Unit {0}
    FitsEnd (some r) = FitsPlan (multi_plan sv cutoffs t r)

    FitsEnd-if :
        (b : Bool) (x y : Option (MultiAction × HeapPageFreeze))
        → (b ≡ true → FitsEnd x)
        → (b ≡ false → FitsEnd y)
        → FitsEnd (if b then x else y)
    FitsEnd-if true x y k k' = k refl
    FitsEnd-if false x y k k' = k' refl

    abbrev is_harmless : Option ℕ → Bool
    is_harmless d = harmless (transactions sv tx) s d

    invalidated :
        (page : HeapPageFreeze)
        → is_harmless (deleter (header_of sv cmin cmax t_ctid t)) ≡ true
        → FitsEnd (some (frm_invalidate_xmax, page))
    invalidated page h =
        invalidate-Fits sv cutoffs tx s cmin cmax t_ctid t multi one locked no_xid no_multi horizon
          page h

    dead_is_harmless :
        is_live sv cutoffs updater ≡ false
        → is_harmless (deleter (header_of sv cmin cmax t_ctid t)) ≡ true
    dead_is_harmless d =
        dead_updater sv cutoffs tx s cmin cmax t_ctid t multi one locked no_xid no_multi horizon d

    noop-Fits : (page : HeapPageFreeze) → FitsEnd (some (frm_noop, page))
    unfolding multi_plan
    noop-Fits page = (inl refl, true_hint)

    replaced :
        (ms : List MultiXactMember) (page : HeapPageFreeze) (o : Option Second)
        → ((r : Second)
            → o ≡ some r
            → sv.server.members (sv.create_from_members r.newmembers) ≡ some r.newmembers)
        → After sv cutoffs updater (any is_updater ms) second_start o
        → (any is_updater ms ≡ false → is_live sv cutoffs updater ≡ false)
        → FitsEnd (elim o as (λ q. Option (MultiAction × HeapPageFreeze)) [
          | none ↦ none
          | some r ↦ some (replacement sv cutoffs r, require_freeze page)
        ])
    replaced ms page none made a d = tt
    replaced ms page (some r) made (k, u, z) d =
        replacement-Fits sv cutoffs tx s cmin cmax t_ctid t multi one locked no_xid no_multi horizon
          (require_freeze page) r (made r refl) k
          (λ e.
            dead_is_harmless
              (elim (Bool-cases (any is_updater ms)) [ inl up ↦ u e up | inr up ↦ d up ]))

    updater_none :
        (ms : List MultiXactMember)
        → first_updater ms ≡ updater
        → any is_updater ms ≡ false
        → is_live sv cutoffs updater ≡ false
    updater_none ms at e = ap (is_live sv cutoffs) (sym at ∙ first_updater-none ms e) ∙ no_xid

    freeze_members-Fits :
        (ms : List MultiXactMember) (page : HeapPageFreeze)
        → OneUpdater sv cutoffs updater ms
        → first_updater ms ≡ updater
        → ((r : Second)
            → second_pass sv cutoffs ms second_start ≡ some r
            → sv.server.members (sv.create_from_members r.newmembers) ≡ some r.newmembers)
        → FitsEnd (freeze_members sv cutoffs t.raw_xmax ms page)
    unfolding freeze_members replace_multi
    freeze_members-Fits [] page o at made =
        invalidated (require_freeze page) (dead_is_harmless (updater_none [] at refl))
    freeze_members-Fits (m ∷ ms) page o at made =
        FitsEnd-if
          ((first_pass sv cutoffs (m ∷ ms) page.freeze_page_relfrozen_xid).0
            || sv.multi_precedes t.raw_xmax cutoffs.multi_xact_cutoff)
          (replace_multi sv cutoffs (m ∷ ms) page) (some (frm_noop, _))
          (λ _.
            replaced (m ∷ ms) page (second_pass sv cutoffs (m ∷ ms) second_start) made
              (second_pass-Keeps sv cutoffs updater (m ∷ ms) second_start o
                (inl (refl, refl, refl)))
              (updater_none (m ∷ ms) at))
          (λ _. noop-Fits _)

    freeze_old_multi-Fits :
        (page : HeapPageFreeze) → FitsEnd (freeze_old_multi sv cutoffs t.raw_xmax t.bits page)
    unfolding freeze_old_multi
    freeze_old_multi-Fits page =
        FitsEnd-if _ none _ (λ _. tt)
          (λ _.
            FitsEnd-if (xmax_is_locked_only t.bits)
              (some (frm_invalidate_xmax, require_freeze page)) _
              (λ e. invalidated (require_freeze page) (dead_is_harmless (locked (ground arith))))
              (λ _.
                FitsEnd-if (sv.precedes updater cutoffs.relfrozenxid) none _ (λ _. tt)
                  (λ _.
                    FitsEnd-if (sv.precedes updater cutoffs.oldest_xmin) _
                      (some (frm_return_is_xid updater false, require_freeze page))
                      (λ old.
                        FitsEnd-if (sv.server.did_commit updater) none
                          (some (frm_invalidate_xmax, require_freeze page)) (λ _. tt)
                          (λ aborted. invalidated (require_freeze page) (
                            old_updater sv cutoffs tx s cmin cmax t_ctid t multi one locked no_xid
                              no_multi horizon (horizon updater old) aborted)))
                      (λ _.
                        return_xid-Fits sv cutoffs tx s cmin cmax t_ctid t multi one locked no_xid
                          no_multi horizon (require_freeze page) updater false refl
                          (λ c. absurd cc)))))

    zero_updater : t.raw_xmax ≡ 0 → is_live sv cutoffs updater ≡ false
    unfolding multi_xact_id_get_update_xid first_updater
    zero_updater e =
        ap (λ m. is_live sv cutoffs (first_updater (no_members (sv.server.members m)))) e
        ∙ (ap (λ o. is_live sv cutoffs (first_updater (no_members o))) no_multi ∙ no_xid)

    updater_first : first_updater (no_members (sv.server.members t.raw_xmax)) ≡ updater
    unfolding multi_xact_id_get_update_xid
    updater_first = refl

    pub freeze_multi_xact_id-Fits :
        (page : HeapPageFreeze) → FitsEnd (freeze_multi_xact_id sv cutoffs t.raw_xmax t.bits page)
    unfolding freeze_multi_xact_id
    freeze_multi_xact_id-Fits page =
        FitsEnd-if ((t.raw_xmax == 0) || locked_upgraded t.bits)
          (some (frm_invalidate_xmax, require_freeze page)) _
          (λ e. invalidated (require_freeze page) (
            dead_is_harmless (elim (Bool-cases (locked_upgraded t.bits)) [
              | inl up ↦ locked (ground arith)
              | inr up ↦ zero_updater (ground arith)
            ])))
          (λ _.
            FitsEnd-if (sv.multi_precedes t.raw_xmax cutoffs.relminmxid) none _ (λ _. tt)
              (λ _.
                FitsEnd-if (sv.multi_precedes t.raw_xmax cutoffs.oldest_mxact) _ _
                  (λ _. freeze_old_multi-Fits page)
                  (λ _.
                    freeze_members-Fits (no_members (sv.server.members t.raw_xmax)) page one
                      updater_first created)))
