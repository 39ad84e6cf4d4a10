-- ===== src/Visibility/Vacuum/Laws.antt =====
-- What vacuum may remove, no reader can see.
use pg_tde.Base.{
  arith, ℕ, ◌≡◌, Bool, true, false, if◌then◌else◌, Bool-cases, inl, inr, ◌⊎◌, ◌∙◌, sym, ap,
}
use pg_tde.Visibility.{
  Header, Transactions, Snapshot, heap_xmin_committed, set_hint_bits, is_xmin_invalid, mvcc_xmin,
  mvcc_xmax, mvcc_join, heap_tuple_satisfies_mvcc,
}
use pg_tde.Visibility.Vacuum.{
  dead, recently_dead, insert_in_progress, delete_in_progress, vacuum_own, vacuum_locked,
  vacuum_xmax, horizon_unmarked, heap_tuple_satisfies_vacuum_horizon, heap_tuple_satisfies_vacuum,
  heap_tuple_satisfies_non_vacuumable, heap_tuple_is_surely_dead, beyond, Status,
}

module _ (tx : Transactions) (snapshot : Snapshot) (current : ℕ → Bool) (t : Header) where
  -- A reader in another transaction, whose own transactions `current` are.
  abbrev pub reader : Transactions
  reader = record tx { is_current = current }

  vacuum_xmax-never_dead : (vacuum_xmax tx t).result ≡ dead → ⊥
  unfolding vacuum_xmax vacuum_locked set_hint_bits
  vacuum_xmax-never_dead e = ground arith

  -- The deleting transaction is not in the snapshot and committed: the row is gone.
  mvcc_xmax-gone :
      (vacuum_xmax tx t).result ≡ recently_dead
      → (t.xmax_committed ≡ true → tx.did_commit t.raw_xmax ≡ true)
      → snapshot.in_snapshot (vacuum_xmax tx t).dead_after ≡ false
      → current (vacuum_xmax tx t).dead_after ≡ false
      → (mvcc_xmax reader snapshot t).0 ≡ false
  unfolding vacuum_xmax vacuum_locked mvcc_xmax set_hint_bits
  mvcc_xmax-gone e hint out other = ground arith

  -- The same with the hint bit that the look at the inserting transaction may have set.
  mvcc_xmax-gone_hinted :
      (xid : ℕ)
      → let s = vacuum_xmax tx (set_hint_bits tx heap_xmin_committed xid t) in
        s.result ≡ recently_dead
        → (t.xmax_committed ≡ true → tx.did_commit t.raw_xmax ≡ true)
        → snapshot.in_snapshot s.dead_after ≡ false
        → current s.dead_after ≡ false
        → (mvcc_xmax reader snapshot (set_hint_bits reader heap_xmin_committed xid t)).0 ≡ false
  unfolding vacuum_xmax vacuum_locked mvcc_xmax set_hint_bits
  mvcc_xmax-gone_hinted xid e hint out other = ground arith

horizon_marked :
    (tx : Transactions) (t : Header)
    → t.xmin_committed ≡ true
    → heap_tuple_satisfies_vacuum_horizon tx t ≡ vacuum_xmax tx t
unfolding heap_tuple_satisfies_vacuum_horizon
horizon_marked tx t done = ap (λ b. if b then vacuum_xmax tx t else horizon_unmarked tx t) done

beyond-dead :
    (tx : Transactions) (removable : ℕ → Bool) (s : Status)
    → (beyond tx removable s).result ≡ dead
    → (s.result ≡ dead) ⊎ ((s.result ≡ recently_dead) × (removable s.dead_after ≡ true))
beyond-dead tx removable s e = ground arith

vacuum_xmax-dead_after_committed :
    (tx : Transactions) (t : Header)
    → (t.xmax_committed ≡ true → tx.did_commit t.raw_xmax ≡ true)
    → (vacuum_xmax tx t).result ≡ recently_dead
    → tx.did_commit (vacuum_xmax tx t).dead_after ≡ true
unfolding vacuum_xmax vacuum_locked set_hint_bits
vacuum_xmax-dead_after_committed tx t hint e = ground arith

module _ (tx : Transactions) (snapshot : Snapshot) (current : ℕ → Bool) (t : Header)
    (oldest_xmin : ℕ) (off : t.moved_off ≡ false) (in_ : t.moved_in ≡ false)
    (hint : t.xmax_committed ≡ true → tx.did_commit t.raw_xmax ≡ true)
    (running : (xid : ℕ) → current xid ≡ true → tx.in_progress xid ≡ true)
    (open_own : (xid : ℕ) → current xid ≡ true → tx.did_commit xid ≡ false)
    (horizon : (xid : ℕ)
      → tx.precedes xid oldest_xmin ≡ true
      → snapshot.in_snapshot xid ≡ false) where
  not_current : (xid : ℕ) → tx.did_commit xid ≡ true → current xid ≡ false
  not_current xid e = ground (arith, open_own xid)

  -- A row that is dead only beyond the horizon: its deletion is in every such snapshot's past.
  deleted_before :
      (u : Header)
      → (u.xmax_committed ≡ true → tx.did_commit u.raw_xmax ≡ true)
      → (beyond tx (λ xid. tx.precedes xid oldest_xmin) (vacuum_xmax tx u)).result ≡ dead
      → ((vacuum_xmax tx u).result ≡ recently_dead)
        × (snapshot.in_snapshot (vacuum_xmax tx u).dead_after ≡ false)
        × (current (vacuum_xmax tx u).dead_after ≡ false)
  deleted_before u h e =
      elim (beyond-dead tx (λ xid. tx.precedes xid oldest_xmin) (vacuum_xmax tx u) e) [
        | inl d ↦ absurd (vacuum_xmax-never_dead tx snapshot current u d)
        | inr (r, p) ↦ (r, horizon _ p, not_current _ (vacuum_xmax-dead_after_committed tx u h r))
      ]

  -- Where the inserting transaction is marked as committed.
  invisible_marked :
      t.xmin_committed ≡ true
      → (heap_tuple_satisfies_vacuum tx oldest_xmin t).result ≡ dead
      → (heap_tuple_satisfies_mvcc (reader tx snapshot current t) snapshot t).0 ≡ false
  unfolding heap_tuple_satisfies_vacuum heap_tuple_satisfies_mvcc mvcc_join mvcc_xmin
  invisible_marked done e =
      let at : heap_tuple_satisfies_vacuum_horizon tx t ≡ vacuum_xmax tx t =
        horizon_marked tx t done in
      let d =
        deleted_before t hint
          (ap (λ s. (beyond tx (λ xid. tx.precedes xid oldest_xmin) s).result) (sym at) ∙ e) in
      let gone = mvcc_xmax-gone tx snapshot current t d.0 hint d.1 d.2 in ground (arith, gone, done)

  vacuum_own-in_progress :
      (vacuum_own tx t ≡ insert_in_progress) ⊎ (vacuum_own tx t ≡ delete_in_progress)
  unfolding vacuum_own
  vacuum_own-in_progress = ground arith

  -- Where the inserting transaction is not marked as committed and has not committed.
  invisible_uncommitted :
      t.xmin_committed ≡ false
      → tx.did_commit t.raw_xmin ≡ false
      → (beyond tx (λ xid. tx.precedes xid oldest_xmin) (horizon_unmarked tx t)).result ≡ dead
      → (heap_tuple_satisfies_mvcc (reader tx snapshot current t) snapshot t).0 ≡ false
  unfolding horizon_unmarked heap_tuple_satisfies_mvcc mvcc_join mvcc_xmin
  invisible_uncommitted open_ not_committed e =
      ground (arith, running t.raw_xmin, vacuum_own-in_progress)

  hint_kept :
      (xid : ℕ)
      → let u = set_hint_bits tx heap_xmin_committed xid t in
        u.xmax_committed ≡ true → tx.did_commit u.raw_xmax ≡ true
  unfolding set_hint_bits
  hint_kept xid = ground (arith, hint)

  -- Where it has committed, and no hint bit says so yet.
  invisible_unmarked :
      t.xmin_committed ≡ false
      → is_xmin_invalid t ≡ false
      → tx.did_commit t.raw_xmin ≡ true
      → (beyond tx (λ xid. tx.precedes xid oldest_xmin) (horizon_unmarked tx t)).result ≡ dead
      → (heap_tuple_satisfies_mvcc (reader tx snapshot current t) snapshot t).0 ≡ false
  unfolding horizon_unmarked heap_tuple_satisfies_mvcc mvcc_join mvcc_xmin
  invisible_unmarked open_ valid committed e =
      let u = set_hint_bits tx heap_xmin_committed t.raw_xmin t in
      let at : (beyond tx (λ xid. tx.precedes xid oldest_xmin) (vacuum_xmax tx u)).result ≡ dead =
        ground (arith, vacuum_own-in_progress) in
      let d = deleted_before u (hint_kept t.raw_xmin) at in
      let gone = mvcc_xmax-gone_hinted tx snapshot current t t.raw_xmin d.0 hint d.1 d.2 in
      ground (arith, gone, not_current t.raw_xmin)

  mvcc-invalid :
      t.xmin_committed ≡ false
      → is_xmin_invalid t ≡ true
      → (heap_tuple_satisfies_mvcc (reader tx snapshot current t) snapshot t).0 ≡ false
  unfolding heap_tuple_satisfies_mvcc mvcc_join mvcc_xmin
  mvcc-invalid open_ bad = ground arith

  invisible_open :
      t.xmin_committed ≡ false
      → (heap_tuple_satisfies_vacuum tx oldest_xmin t).result ≡ dead
      → (heap_tuple_satisfies_mvcc (reader tx snapshot current t) snapshot t).0 ≡ false
  unfolding heap_tuple_satisfies_vacuum heap_tuple_satisfies_vacuum_horizon
  invisible_open open_ e =
      let at : heap_tuple_satisfies_vacuum_horizon tx t ≡ horizon_unmarked tx t =
        ap (λ b. if b then vacuum_xmax tx t else horizon_unmarked tx t) open_ in
      let e' = ap (λ s. (beyond tx (λ xid. tx.precedes xid oldest_xmin) s).result) (sym at) ∙ e in
      elim (Bool-cases (tx.did_commit t.raw_xmin)) [
        | inr aborted ↦ invisible_uncommitted open_ aborted e'
        | inl committed ↦ elim (Bool-cases (is_xmin_invalid t)) [
          | inr valid ↦ invisible_unmarked open_ valid committed e'
          | inl bad ↦ mvcc-invalid open_ bad
        ]
      ]

  -- What vacuum finds dead, no reader sees. The snapshot counts no transaction before the horizon
  -- as running; the reader's own transactions run and have not committed; a deletion that is marked as
  -- committed is; the row was not moved by an old VACUUM FULL.
  pub vacuum_dead-mvcc_invisible :
      (heap_tuple_satisfies_vacuum tx oldest_xmin t).result ≡ dead
      → (heap_tuple_satisfies_mvcc (record tx { is_current = current }) snapshot t).0 ≡ false
  vacuum_dead-mvcc_invisible e = elim (Bool-cases t.xmin_committed) [
    | inl done ↦ invisible_marked done e
    | inr open_ ↦ invisible_open open_ e
  ]

-- The cheap test is safe: what `HeapTupleIsSurelyDead` calls dead, the full test by the same horizon
-- calls vacuumable.
pub surely_dead-vacuumable :
    (tx : Transactions) (removable : ℕ → Bool) (t : Header)
    → heap_tuple_is_surely_dead removable t ≡ true
    → (heap_tuple_satisfies_non_vacuumable tx removable t).0 ≡ false
unfolding heap_tuple_is_surely_dead heap_tuple_satisfies_non_vacuumable
    heap_tuple_satisfies_vacuum_horizon horizon_unmarked vacuum_xmax
surely_dead-vacuumable tx removable t e = ground arith
