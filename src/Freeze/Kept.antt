-- ===== src/Freeze/Kept.antt =====
-- What the second loop of `FreezeMultiXactId` keeps of a multixact's members.
use pg_tde.Base.{
  arith, ℕ, ◌≡◌, ◌≢◌, refl, sym, ◌∙◌, Bool, true, false, ◌&&◌, ◌||◌, not, Option, none, some,
  if◌then◌else◌, ◌⊎◌, inl, inr, List, [], ◌∷◌, ◌++◌, any, all, ◌==◌, Bool-cases,
}
use pg_tde.RowLock.{MultiXactMember, isupdate_from_mxstatus}
use pg_tde.RowLock.Members.{Scan, scan_members, first_updater}
use pg_tde.Freeze.{VacuumCutoffs, FreezeServer}
use pg_tde.Freeze.Multi.{Second, second_member, second_pass}

abbrev pub is_updater : MultiXactMember → Bool
is_updater m = isupdate_from_mxstatus m.status

any-snoc :
    (ms : List MultiXactMember) (m : MultiXactMember)
    → any is_updater (ms ++ (m ∷ [])) ≡ any is_updater ms || is_updater m
any-snoc [] m = ground arith
any-snoc (k ∷ ms) m = ground (arith, any-snoc ms m)

first_updater-snoc :
    (ms : List MultiXactMember) (m : MultiXactMember)
    → first_updater (ms ++ (m ∷ []))
      ≡ (if any is_updater ms then first_updater ms else if is_updater m then m.xid else 0)
unfolding first_updater
first_updater-snoc [] m = ground arith
first_updater-snoc (k ∷ ms) m = ground (arith, first_updater-snoc ms m)

pub first_updater-none :
    (ms : List MultiXactMember) → any is_updater ms ≡ false → first_updater ms ≡ 0
unfolding first_updater
first_updater-none [] e = refl
first_updater-none (m ∷ ms) e = ground (arith, first_updater-none ms)

or_assoc : (a b c : Bool) → ((a || b) || c) ≡ (a || (b || c))
or_assoc a b c = ground arith

pub scan_members-has_update :
    (ms : List MultiXactMember) (s : Scan)
    → (scan_members ms s).has_update ≡ s.has_update || any is_updater ms
unfolding scan_members
scan_members-has_update [] s = ground arith
scan_members-has_update (m ∷ ms) s =
    scan_members-has_update ms _ ∙ or_assoc s.has_update (is_updater m) (any is_updater ms)

module _ (sv : FreezeServer) (cutoffs : VacuumCutoffs) (u : ℕ) where
  abbrev pub running : Bool
  running = sv.server.is_current u || sv.server.in_progress u

  abbrev pub is_live : Bool
  is_live = running || sv.server.did_commit u

  -- Every updater among the members is `u`.
  abbrev pub one_updater : List MultiXactMember → Bool
  one_updater ms = all (λ m. not (is_updater m) || (m.xid == u)) ms

  -- What has been kept: no updater, or `u`.
  abbrev pub Keeps : Second → Type 0
  Keeps s =
      ((s.update_xid ≡ 0) × (any is_updater s.newmembers ≡ false) × (s.update_committed ≡ false))
      ⊎ ((s.update_xid ≡ u)
          × (first_updater s.newmembers ≡ u)
          × (any is_updater s.newmembers ≡ true)
          × (is_live ≡ true)
          × (s.update_committed ≡ true → (sv.server.did_commit u ≡ true) × (running ≡ false)))

  abbrev pub After : Bool → Second → Option Second → Type 0
  After updates s none = Unit {0}
  After updates s (some s') =
      Keeps s'
      × (s'.update_xid ≡ 0 → updates ≡ true → is_live ≡ false)
      × (s'.update_xid ≡ 0 → s.update_xid ≡ 0)

  After-if :
      (b updates : Bool) (s : Second) (x y : Option Second)
      → (b ≡ true → After updates s x)
      → (b ≡ false → After updates s y)
      → After updates s (if b then x else y)
  After-if true updates s x y k k' = k refl
  After-if false updates s x y k k' = k' refl

  abbrev with_locker : MultiXactMember → Second → Second
  with_locker m s = record s { newmembers = s.newmembers ++ (m ∷ []); has_lockers = true }

  locker-Keeps :
      (m : MultiXactMember) (s : Second) → is_updater m ≡ false → Keeps s → Keeps (with_locker m s)
  locker-Keeps m s e (inl (z, n, c)) = inl (z, any-snoc s.newmembers m ∙ ground arith, c)
  locker-Keeps m s e (inr (z, f, n, l, c)) = inr (
    z,
    first_updater-snoc s.newmembers m ∙ ground arith,
    any-snoc s.newmembers m ∙ ground arith,
    l,
    c,
  )

  abbrev with_updater : MultiXactMember → Second → Second
  with_updater m s = record s {
    newmembers = s.newmembers ++ (m ∷ []);
    update_xid = m.xid;
    update_committed = not (sv.server.is_current m.xid || sv.server.in_progress m.xid);
  }

  updater-Keeps :
      (m : MultiXactMember) (s : Second)
      → is_updater m ≡ true
      → m.xid ≡ u
      → s.update_xid ≡ 0
      → u ≢ 0
      → is_live ≡ true
      → Keeps s
      → Keeps (with_updater m s)
  updater-Keeps m s e at z nz l (inl (z', n, c)) = inr (
    at,
    first_updater-snoc s.newmembers m ∙ ground arith,
    any-snoc s.newmembers m ∙ ground arith,
    l,
    λ k. (ground arith, ground arith),
  )
  updater-Keeps m s e at z nz l (inr (z', f, n, l', c)) = absurd (nz (sym z' ∙ z))

  second_member-Keeps :
      (m : MultiXactMember) (s : Second)
      → (is_updater m ≡ true → (m.xid ≡ u) × (u ≢ 0))
      → Keeps s
      → After (is_updater m) s (second_member sv cutoffs m s)
  unfolding second_member
  second_member-Keeps m s at k =
      After-if (not (is_updater m)) (is_updater m) s _ _
        (λ e.
          After-if (sv.server.is_current m.xid || sv.server.in_progress m.xid) (is_updater m) s _
            (some s)
            (λ _.
              After-if (sv.precedes m.xid cutoffs.oldest_xmin) (is_updater m) s none
                (some (with_locker m s)) (λ _. tt)
                (λ _. (locker-Keeps m s (ground arith) k, λ z d. ground arith, λ z. z)))
            (λ _. (k, λ z d. ground arith, λ z. z)))
        (λ e.
          let up : is_updater m ≡ true = ground arith in
          let (here, nz) = at up in
          After-if (not (s.update_xid == 0)) (is_updater m) s none _ (λ _. tt)
            (λ first.
              let z : s.update_xid ≡ 0 = ground arith in
              After-if
                (not (sv.server.is_current m.xid || sv.server.in_progress m.xid)
                  && not (sv.server.did_commit m.xid))
                (is_updater m) s (some s) _ (λ gone. (k, λ _ _. ground arith, λ z. z))
                (λ kept.
                  After-if (sv.precedes m.xid cutoffs.oldest_xmin) (is_updater m) s none
                    (some (with_updater m s)) (λ _. tt)
                    (λ _. (
                      updater-Keeps m s up here z nz (ground arith) k,
                      λ z' _. absurd (nz (sym here ∙ z')),
                      λ _. z,
                    )))))

  -- `u` is the only updater, and an xid.
  abbrev pub OneUpdater : List MultiXactMember → Type 0
  OneUpdater ms = (one_updater ms ≡ true) × (any is_updater ms ≡ true → u ≢ 0)

  then_pass :
      (m : MultiXactMember) (ms : List MultiXactMember) (s : Second) (o : Option Second)
      → After (is_updater m) s o
      → ((s' : Second) → Keeps s' → After (any is_updater ms) s' (second_pass sv cutoffs ms s'))
      → After
          (is_updater m || any is_updater ms)
          s
          (elim o as (λ q. Option Second) [ none ↦ none | some s' ↦ second_pass sv cutoffs ms s' ])
  then_pass m ms s none a on = tt
  then_pass m ms s (some s') (k, d, z) on = joined (second_pass sv cutoffs ms s') (on s' k)
    where
      joined :
          (o : Option Second)
          → After (any is_updater ms) s' o
          → After (is_updater m || any is_updater ms) s o
      joined none a = tt
      joined (some s'') (k', d', z') = (
        k',
        λ e up. elim (Bool-cases (is_updater m)) [
          | inl is ↦ d (z' e) is
          | inr is ↦ d' e (ground arith)
        ],
        λ e. z (z' e),
      )

  pub second_pass-Keeps :
      (ms : List MultiXactMember) (s : Second)
      → OneUpdater ms
      → Keeps s
      → After (any is_updater ms) s (second_pass sv cutoffs ms s)
  unfolding second_pass
  second_pass-Keeps [] s one k = (k, λ z up. absurd cc, λ z. z)
  second_pass-Keeps (m ∷ ms) s (all_one, nz) k =
      then_pass m ms s (second_member sv cutoffs m s)
        (second_member-Keeps m s (λ up. (ground arith, nz (ground arith))) k)
        (λ s' k'. second_pass-Keeps ms s' (ground arith, λ up. nz (ground arith)) k')
