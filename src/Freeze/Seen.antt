-- ===== src/Freeze/Seen.antt =====
-- What an MVCC snapshot sees of a row, in terms of who deleted it.
use pg_tde.Base.{
  arith, ℕ, ◌≡◌, refl, ap, sym, ◌∙◌, Bool, true, false, ◌&&◌, ◌||◌, not, Option, none, some,
  if◌then◌else◌, ◌⊎◌, inl, inr, leb,
}
use pg_tde.Visibility.{
  Header, Transactions, Snapshot, is_xmin_frozen, set_hint_bits, heap_xmin_committed, mvcc_own,
  mvcc_xmin, mvcc_xmax, mvcc_join, heap_tuple_satisfies_mvcc,
}

-- The transaction that deleted the row, if any did.
abbrev pub deleter : Header → Option ℕ
deleter t =
    if t.xmax_invalid || t.locked_only
    then none
    else some (if t.xmax_is_multi then t.update_xid else t.raw_xmax)

-- What is known of the inserting transaction.
pub data XminCase : Type 0 where
  not_yet settled own : XminCase

module _ (tx : Transactions) (s : Snapshot) where
  abbrev pub xmin_case : Header → XminCase
  xmin_case t =
      if t.xmin_committed
      then (if not (is_xmin_frozen t) && s.in_snapshot t.raw_xmin then not_yet else settled)
      else if t.xmin_invalid
      then not_yet
      else if tx.is_current t.raw_xmin
      then own
      else if s.in_snapshot t.raw_xmin
      then not_yet
      else if tx.did_commit t.raw_xmin
      then settled
      else not_yet

  -- Whether a deletion by `d` hides a row of a settled insertion, and one of the reader's own.
  abbrev pub deleted : ℕ → Option ℕ → Bool
  deleted cmax none = false
  deleted cmax (some x) =
      if tx.is_current x then not (leb s.curcid cmax) else not (s.in_snapshot x) && tx.did_commit x

  abbrev pub own_deleted : ℕ → Option ℕ → Bool
  own_deleted cmax none = false
  own_deleted cmax (some x) = tx.is_current x && not (leb s.curcid cmax)

  abbrev pub sees : ℕ → ℕ → XminCase → Option ℕ → Bool
  sees cmin cmax not_yet d = false
  sees cmin cmax settled d = not (deleted cmax d)
  sees cmin cmax own d = not (leb s.curcid cmin) && not (own_deleted cmax d)

  -- The hint that the deleting transaction committed is true.
  abbrev pub TrueXmaxHint : Header → Type 0
  TrueXmaxHint t =
      t.xmax_committed ≡ true
      → t.xmax_is_multi ≡ false
      → (t.xmax_invalid || t.locked_only) ≡ false
      → (tx.did_commit t.raw_xmax ≡ true) × (tx.is_current t.raw_xmax ≡ false)

  mvcc_xmax-deleted :
      (t : Header) → TrueXmaxHint t → (mvcc_xmax tx s t).0 ≡ not (deleted t.cmax (deleter t))
  unfolding mvcc_xmax
  mvcc_xmax-deleted t hint = ground arith

  mvcc_own-deleted :
      (t : Header)
      → (mvcc_join tx s (mvcc_own tx s t)).0
        ≡ (not (leb s.curcid t.cmin) && not (own_deleted t.cmax (deleter t)))
  unfolding mvcc_own mvcc_join
  mvcc_own-deleted t = ground arith

  hinted-deleter :
      (xid : ℕ) (t : Header)
      → TrueXmaxHint t
      → (mvcc_xmax tx s (set_hint_bits tx heap_xmin_committed xid t)).0
        ≡ not (deleted t.cmax (deleter t))
  unfolding set_hint_bits mvcc_xmax
  hinted-deleter xid t hint = ground arith

  -- A row that was not moved is seen by the case of its insertion and by its deleter.
  pub heap_tuple_satisfies_mvcc-sees :
      (t : Header)
      → t.moved_off ≡ false
      → t.moved_in ≡ false
      → TrueXmaxHint t
      → (heap_tuple_satisfies_mvcc tx s t).0 ≡ sees t.cmin t.cmax (xmin_case t) (deleter t)
  unfolding heap_tuple_satisfies_mvcc mvcc_xmin mvcc_join
  heap_tuple_satisfies_mvcc-sees t off in_ hint =
      let marked = hinted-deleter t.raw_xmin t hint in
      let plain = mvcc_xmax-deleted t hint in
      let mine = mvcc_own-deleted t in ground (arith, marked, plain, mine)

  -- A deletion that no one sees.
  abbrev pub harmless : Option ℕ → Bool
  harmless none = true
  harmless (some x) = not (tx.is_current x) && (s.in_snapshot x || not (tx.did_commit x))

  -- Deleters that are the same to the snapshot.
  abbrev pub SameDeleter : Option ℕ → Option ℕ → Type 0
  SameDeleter d d' = (d ≡ d') ⊎ ((harmless d ≡ true) × (harmless d' ≡ true))

  harmless-deleted : (cmax : ℕ) (d : Option ℕ) → harmless d ≡ true → deleted cmax d ≡ false
  harmless-deleted cmax none h = refl
  harmless-deleted cmax (some x) h = ground arith

  harmless-own_deleted : (cmax : ℕ) (d : Option ℕ) → harmless d ≡ true → own_deleted cmax d ≡ false
  harmless-own_deleted cmax none h = refl
  harmless-own_deleted cmax (some x) h = ground arith

  pub sees-SameDeleter :
      (cmin cmax : ℕ) (c : XminCase) (d d' : Option ℕ)
      → SameDeleter d d'
      → sees cmin cmax c d' ≡ sees cmin cmax c d
  sees-SameDeleter cmin cmax c d d' (inl e) = ap (sees cmin cmax c) (sym e)
  sees-SameDeleter cmin cmax not_yet d d' (inr (h, h')) = refl
  sees-SameDeleter cmin cmax settled d d' (inr (h, h')) =
      ap not (harmless-deleted cmax d' h' ∙ sym (harmless-deleted cmax d h))
  sees-SameDeleter cmin cmax own d d' (inr (h, h')) =
      ap (λ b. not (leb s.curcid cmin) && not b)
        (harmless-own_deleted cmax d' h' ∙ sym (harmless-own_deleted cmax d h))
