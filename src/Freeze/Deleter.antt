-- ===== src/Freeze/Deleter.antt =====
-- Freezing leaves the deleter of a row what it is to every snapshot.
use pg_tde.Base.{
  arith, ℕ, ◌≡◌, ◌≢◌, refl, ap, subst, sym, ◌∙◌, Bool, true, false, ◌&&◌, ◌||◌, not, Option, none,
  some, if◌then◌else◌, ◌⊎◌, inl, inr, List, [], ◌∷◌, any, ◌==◌, Bool-cases,
}
use pg_tde.Visibility.{Header, Transactions, Snapshot}
use pg_tde.RowLock.{MultiXactMember, lock_tuple_key_share}
use pg_tde.RowLock.Members.{
  Scan, scan_members, get_multi_xact_id_hint_bits, multi_xact_id_get_update_xid, first_updater,
  no_members,
}
use pg_tde.Freeze.{
  Bits, TupleHeader, xmax_is_locked_only, VacuumCutoffs, HeapPageFreeze, FreezeServer, view,
}
use pg_tde.Freeze.Multi.{
  MultiAction, frm_invalidate_xmax, frm_return_is_xid, frm_return_is_multi, Second, replacement,
  is_empty,
}
use pg_tde.Freeze.Prepare.{XmaxPlan, with_multi_bits, multi_plan}
use pg_tde.Freeze.Seen.{deleter, TrueXmaxHint, harmless, SameDeleter}
use pg_tde.Freeze.Kept.{is_updater, scan_members-has_update, running, is_live, OneUpdater, Keeps}

-- The transactions as the server of freezing knows them.
abbrev pub transactions : FreezeServer → Transactions → Transactions
transactions sv tx = record tx {
  is_current = sv.server.is_current;
  in_progress = sv.server.in_progress;
  did_commit = sv.server.did_commit;
}

abbrev pub header_of : FreezeServer → ℕ → ℕ → ℕ → TupleHeader → Header
header_of sv cmin cmax t_ctid t = view sv.server cmin cmax t_ctid t

module _ (sv : FreezeServer) (cutoffs : VacuumCutoffs) (tx : Transactions) (s : Snapshot)
    (cmin cmax t_ctid : ℕ) (t : TupleHeader) where
  abbrev here : TupleHeader → Header
  here r = header_of sv cmin cmax t_ctid r

  -- The header with a plan's `xmax`.
  abbrev pub with_plan : XmaxPlan → TupleHeader
  with_plan x = record t { raw_xmax = x.xmax; bits = x.bits }

  abbrev pub Fits : XmaxPlan → Type 0
  Fits x =
      SameDeleter (transactions sv tx) s (deleter (here t)) (deleter (here (with_plan x)))
      × TrueXmaxHint (transactions sv tx) s (here (with_plan x))

  module _ (multi : t.bits.xmax_is_multi ≡ true)
      (one : OneUpdater sv cutoffs
        (multi_xact_id_get_update_xid sv.server t.raw_xmax)
        (no_members (sv.server.members t.raw_xmax)))
      (locked : (t.bits.xmax_invalid || xmax_is_locked_only t.bits) ≡ true
        → is_live sv cutoffs (multi_xact_id_get_update_xid sv.server t.raw_xmax) ≡ false)
      (no_xid : is_live sv cutoffs 0 ≡ false) (no_multi : sv.server.members 0 ≡ none)
      (horizon : (x : ℕ)
        → sv.precedes x cutoffs.oldest_xmin ≡ true
        → sv.server.is_current x ≡ false) where
    abbrev updater : ℕ
    updater = multi_xact_id_get_update_xid sv.server t.raw_xmax

    abbrev is_harmless : Option ℕ → Bool
    is_harmless d = harmless (transactions sv tx) s d

    pub dead_updater : is_live sv cutoffs updater ≡ false → is_harmless (deleter (here t)) ≡ true
    dead_updater dead = ground arith

    pub old_updater :
        sv.server.is_current updater ≡ false
        → sv.server.did_commit updater ≡ false
        → is_harmless (deleter (here t)) ≡ true
    old_updater c d = ground arith

    no_deleter :
        (b : Bits)
        → b.xmax_invalid ≡ true
        → (n : ℕ) → deleter (here (record t { raw_xmax = n; bits = b })) ≡ none
    no_deleter b e n = ground arith

    pub invalidate-Fits :
        (page : HeapPageFreeze)
        → is_harmless (deleter (here t)) ≡ true
        → Fits (multi_plan sv cutoffs t (frm_invalidate_xmax, page))
    unfolding multi_plan
    invalidate-Fits page h = (inr (h, refl), λ c m i. absurd cc)

    pub return_xid-Fits :
        (page : HeapPageFreeze) (x : ℕ) (c : Bool)
        → x ≡ updater
        → (c ≡ true
            → (sv.server.did_commit updater ≡ true) × (sv.server.is_current updater ≡ false))
        → Fits (multi_plan sv cutoffs t (frm_return_is_xid x c, page))
    unfolding multi_plan
    return_xid-Fits page x c at hint = (
      elim (Bool-cases (t.bits.xmax_invalid || xmax_is_locked_only t.bits)) [
        | inl e ↦
            let dead = locked e in
            inr (dead_updater dead, ap (λ y. is_harmless (some y)) at ∙ ground arith)
        | inr e ↦ inl (same e ∙ ap some (sym at))
      ],
      λ k m i.
          subst (λ y. (sv.server.did_commit y ≡ true) × (sv.server.is_current y ≡ false)) (sym at)
            (hint k),
    )
      where
        same :
            (t.bits.xmax_invalid || xmax_is_locked_only t.bits) ≡ false
            → deleter (here t) ≡ some updater
        same e = ground arith

    abbrev no_update_yet : Scan
    no_update_yet = record {
      keys_updated = false;
      has_update = false;
      strongest = lock_tuple_key_share;
    }

    -- The server knows the multixact made of `ms`.
    abbrev Made : List MultiXactMember → Type 0
    Made ms = sv.server.members (sv.create_from_members ms) ≡ some ms

    -- The bits and the updater of the multixact that is made of `ms`.
    created-lock_only :
        (ms : List MultiXactMember)
        → Made ms
        → (get_multi_xact_id_hint_bits sv.server (sv.create_from_members ms)).lock_only
          ≡ not (any is_updater ms)
    unfolding get_multi_xact_id_hint_bits
    created-lock_only ms made =
        ap (λ o. not (scan_members (no_members o) no_update_yet).has_update) made
        ∙ ap not (scan_members-has_update ms no_update_yet)

    created-bits :
        (n : ℕ)
        → let m = get_multi_xact_id_hint_bits sv.server n in
          (m.is_multi ≡ true) × (m.xmax_invalid ≡ false)
    unfolding get_multi_xact_id_hint_bits
    created-bits n = (refl, refl)

    created-updater :
        (ms : List MultiXactMember)
        → Made ms
        → multi_xact_id_get_update_xid sv.server (sv.create_from_members ms) ≡ first_updater ms
    unfolding multi_xact_id_get_update_xid
    created-updater ms made = ap (λ o. first_updater (no_members o)) made

    created-deleter :
        (ms : List MultiXactMember)
        → Made ms
        → let n = sv.create_from_members ms in
          let b = with_multi_bits (get_multi_xact_id_hint_bits sv.server n) t.bits in
          deleter (here (record t { raw_xmax = n; bits = b }))
          ≡ (if any is_updater ms then some (first_updater ms) else none)
    created-deleter ms made =
        let n = sv.create_from_members ms in
        ground (arith, created-lock_only ms made, created-bits n, created-updater ms made)

    return_multi-Fits :
        (page : HeapPageFreeze) (ms : List MultiXactMember)
        → Made ms
        → ((any is_updater ms ≡ false) × (is_harmless (deleter (here t)) ≡ true))
          ⊎ ((any is_updater ms ≡ true) × (first_updater ms ≡ updater))
        → Fits (multi_plan sv cutoffs t (frm_return_is_multi (sv.create_from_members ms), page))
    unfolding multi_plan
    return_multi-Fits page ms made (inl (none_, h)) = (
      inr (h, ap is_harmless (created-deleter ms made) ∙ ground arith),
      λ c m i. absurd (true-ne-false (sym (created-bits (sv.create_from_members ms)).0 ∙ m)),
    )
      where
        true-ne-false : true ≢ false
        true-ne-false e = cc
    return_multi-Fits page ms made (inr (one_, at)) = (
      elim (Bool-cases (t.bits.xmax_invalid || xmax_is_locked_only t.bits)) [
        | inl e ↦
            let dead = locked e in
            inr (dead_updater dead, ap is_harmless (created-deleter ms made) ∙ ground arith)
        | inr e ↦ inl (ground arith ∙ sym (created-deleter ms made))
      ],
      λ c m i. absurd (true-ne-false (sym (created-bits (sv.create_from_members ms)).0 ∙ m)),
    )
      where
        true-ne-false : true ≢ false
        true-ne-false e = cc

    -- An action that fits, with a page's state.
    abbrev Action : HeapPageFreeze → MultiAction → Type 0
    Action page a = Fits (multi_plan sv cutoffs t (a, page))

    Action-if :
        (b : Bool) (page : HeapPageFreeze) (x y : MultiAction)
        → (b ≡ true → Action page x)
        → (b ≡ false → Action page y)
        → Action page (if b then x else y)
    Action-if true page x y k k' = k refl
    Action-if false page x y k k' = k' refl

    empty-any : (ms : List MultiXactMember) → is_empty ms ≡ true → any is_updater ms ≡ false
    empty-any [] e = refl
    empty-any (m ∷ ms) e = absurd cc

    -- Without an updater kept, the row has no deleter that matters.
    unkept :
        (r : Second)
        → Keeps sv cutoffs updater r
        → (any is_updater r.newmembers ≡ false) ⊎ (r.update_xid ≡ 0)
        → r.update_xid ≡ 0
    unkept r (inl (z, n, c)) w = z
    unkept r (inr (z, f, n, l, c)) (inr e) = e
    unkept r (inr (z, f, n, l, c)) (inl e) = absurd (ground arith)

    kept_updater :
        (r : Second)
        → Keeps sv cutoffs updater r
        → not (r.update_xid == 0) ≡ true
        → (r.update_xid ≡ updater)
          × (first_updater r.newmembers ≡ updater)
          × (any is_updater r.newmembers ≡ true)
          × (r.update_committed ≡ true
              → (sv.server.did_commit updater ≡ true) × (running sv cutoffs updater ≡ false))
    kept_updater r (inl (z, n, c)) e = absurd (ground arith)
    kept_updater r (inr (z, f, n, l, c)) e = (z, f, n, c)

    no_updater :
        (r : Second)
        → Keeps sv cutoffs updater r
        → not (r.update_xid == 0) ≡ false
        → (r.update_xid ≡ 0) × (any is_updater r.newmembers ≡ false)
    no_updater r (inl (z, n, c)) e = (z, n)
    no_updater r (inr (z, f, n, l, c)) e =
        let zero_live : is_live sv cutoffs 0 ≡ true =
          ap (is_live sv cutoffs) (sym (sym z ∙ ground arith)) ∙ l in
        absurd (true-ne-false (sym zero_live ∙ no_xid))
      where
        true-ne-false : true ≢ false
        true-ne-false k = cc

    -- The decision after the second loop.
    pub replacement-Fits :
        (page : HeapPageFreeze) (r : Second)
        → Made r.newmembers
        → Keeps sv cutoffs updater r
        → (r.update_xid ≡ 0 → is_harmless (deleter (here t)) ≡ true)
        → Action page (replacement sv cutoffs r)
    unfolding replacement
    replacement-Fits page r made k h =
        Action-if (is_empty r.newmembers) page frm_invalidate_xmax _
          (λ e. invalidate-Fits page (h (unkept r k (inl (empty-any r.newmembers e)))))
          (λ _.
            Action-if (not (r.update_xid == 0) && not r.has_lockers) page
              (frm_return_is_xid r.update_xid r.update_committed)
              (frm_return_is_multi (sv.create_from_members r.newmembers))
              (λ e.
                let kept = kept_updater r k (ground arith) in
                return_xid-Fits page r.update_xid r.update_committed kept.0
                  (λ c. ((kept.3 c).0, ground (arith, (kept.3 c).1))))
              (λ _. elim (Bool-cases (not (r.update_xid == 0))) [
                | inl e ↦
                    let kept = kept_updater r k e in
                    return_multi-Fits page r.newmembers made (inr (kept.2, kept.1))
                | inr e ↦
                    let gone = no_updater r k e in
                    return_multi-Fits page r.newmembers made (inl (gone.1, h gone.0))
              ]))
