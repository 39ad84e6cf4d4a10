-- ===== src/Visibility/Update/Laws.antt =====
-- An update goes by the row as its own transaction sees it.
use pg_tde.Base.{arith, ℕ, ◌≡◌, refl, ap, true, false, Bool, not}
use pg_tde.Visibility.{Header, Transactions, set_hint_bits, heap_xmin_committed}
use pg_tde.Visibility.Self.{self_own, self_xmin, self_xmax, self_join, heap_tuple_satisfies_self}
use pg_tde.Visibility.Update.{
  TmResult, tm_ok, tm_invisible, tm_self_modified, tm_updated, tm_deleted, tm_being_modified,
  update_own, update_xmin, update_multi, update_xmax, update_join, heap_tuple_satisfies_update,
}

-- What the answer `r` says of `seen`, the row as its own transaction sees it now.
abbrev Agrees : TmResult → Bool → Type 0
Agrees r seen =
    (r ≡ tm_ok → seen ≡ true)
    × (r ≡ tm_updated → seen ≡ false)
    × (r ≡ tm_deleted → seen ≡ false)
    × (r ≡ tm_self_modified → seen ≡ false)

-- Whether the answer may be given for a row that its own transaction sees, or does not see.
abbrev pub allowed : TmResult → Bool → Bool
allowed tm_ok seen = seen
allowed tm_invisible seen = true
allowed tm_self_modified seen = not seen
allowed tm_updated seen = not seen
allowed tm_deleted seen = not seen
allowed tm_being_modified seen = true

Agrees-allowed : (r : TmResult) (seen : Bool) → Agrees r seen → allowed r seen ≡ true
Agrees-allowed tm_ok seen a = a.0 refl
Agrees-allowed tm_invisible seen a = refl
Agrees-allowed tm_self_modified seen a = ap not (a.3 refl)
Agrees-allowed tm_updated seen a = ap not (a.1 refl)
Agrees-allowed tm_deleted seen a = ap not (a.2 refl)
Agrees-allowed tm_being_modified seen a = refl

module _ (tx : Transactions) (curcid t_self : ℕ) (t : Header)
    (upgraded : t.locked_upgraded ≡ true → t.locked_only ≡ true)
    (runs : t.xmax_is_multi ≡ true
      → tx.in_progress t.update_xid ≡ true
      → tx.multi_running t.raw_xmax false ≡ true) where
  xmax-Agrees : Agrees (update_xmax tx curcid t_self t).0 (self_xmax tx t).0
  unfolding update_xmax update_multi self_xmax
  xmax-Agrees = (λ e. ground arith, λ e. ground arith, λ e. ground arith, λ e. ground arith)

  own-Agrees :
      let own = self_own tx t in Agrees (update_own tx curcid t_self t).0 (self_join tx own).0
  unfolding update_own self_own self_join
  own-Agrees = (λ e. ground arith, λ e. ground arith, λ e. ground arith, λ e. ground arith)

  -- With the hint bit that the look at the inserting transaction may have set.
  hinted-Agrees :
      (xid : ℕ)
      → let u = set_hint_bits tx heap_xmin_committed xid t in
        Agrees (update_xmax tx curcid t_self u).0 (self_xmax tx u).0
  unfolding set_hint_bits update_xmax update_multi self_xmax
  hinted-Agrees xid = (λ e. ground arith, λ e. ground arith, λ e. ground arith, λ e. ground arith)

  heap_tuple_satisfies_update-Agrees :
      t.moved_off ≡ false
      → t.moved_in ≡ false
      → Agrees (heap_tuple_satisfies_update tx curcid t_self t).0 (heap_tuple_satisfies_self tx t).0
  unfolding heap_tuple_satisfies_update update_xmin update_join heap_tuple_satisfies_self self_xmin
      self_join
  heap_tuple_satisfies_update-Agrees off in_ =
      let x = xmax-Agrees in
      let o = own-Agrees in
      let h = hinted-Agrees t.raw_xmin in
      (
        λ e. ground (arith, x.0, o.0, h.0),
        λ e. ground (arith, x.1, o.1, h.1),
        λ e. ground (arith, x.2, o.2, h.2),
        λ e. ground (arith, x.3, o.3, h.3),
      )

  -- A row that may be updated is seen by its own transaction; one that was updated or deleted, by
  -- others or, since the scan began, by the transaction itself, is not. The row was not moved by an
  -- old VACUUM FULL, `locked_upgraded` implies `locked_only`, and a multixact whose updater
  -- runs is running.
  pub heap_tuple_satisfies_update-allowed :
      t.moved_off ≡ false
      → t.moved_in ≡ false
      → allowed
          (heap_tuple_satisfies_update tx curcid t_self t).0
          (heap_tuple_satisfies_self tx t).0
        ≡ true
  heap_tuple_satisfies_update-allowed off in_ =
      Agrees-allowed _ _ (heap_tuple_satisfies_update-Agrees off in_)
