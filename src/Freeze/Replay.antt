-- ===== src/Freeze/Replay.antt =====
-- Replay of freezing does what freezing did.
use pg_tde.Base.{
  arith, ℕ, suc, ◌≡◌, refl, ap, sym, ◌∙◌, Bool, true, false, ◌&&◌, Option, none, some,
  if◌then◌else◌, List, [], ◌∷◌, ◌++◌, ◌==◌, length, append_assoc, length-append,
}
use pg_tde.Freeze.{Bits, TupleHeader}
use pg_tde.Freeze.Prepare.{HeapTupleFreeze, pg_tde_execute_freeze_tuple}
use pg_tde.Freeze.Plans.{
  FrozenItem, FreezePlan, Page, freeze_at, execute_all, same_bit, same_bits, pg_tde_log_freeze_eq,
  pg_tde_log_freeze_new_plan, group_items, log_sorted, plan_of, replay_tuples,
  pg_tde_xlog_freeze_page,
}

same_bit-eq : (a b : Bool) → same_bit a b ≡ true → a ≡ b
same_bit-eq a b e = ground arith

both : (a b : Bool) → (a && b) ≡ true → (a ≡ true) × (b ≡ true)
both a b e = (ground arith, ground arith)

same_bits-eq : (a b : Bits) → same_bits a b ≡ true → a ≡ b
same_bits-eq a b e =
    let (e0, r0) = both (same_bit a.xmin_committed b.xmin_committed) _ e in
    let (e1, r1) = both (same_bit a.xmin_invalid b.xmin_invalid) _ r0 in
    let (e2, r2) = both (same_bit a.xmax_committed b.xmax_committed) _ r1 in
    let (e3, r3) = both (same_bit a.xmax_invalid b.xmax_invalid) _ r2 in
    let (e4, r4) = both (same_bit a.xmax_is_multi b.xmax_is_multi) _ r3 in
    let (e5, r5) = both (same_bit a.lock_only b.lock_only) _ r4 in
    let (e6, r6) = both (same_bit a.keyshr_lock b.keyshr_lock) _ r5 in
    let (e7, r7) = both (same_bit a.excl_lock b.excl_lock) _ r6 in
    let (e8, r8) = both (same_bit a.moved_off b.moved_off) _ r7 in
    let (e9, r9) = both (same_bit a.moved_in b.moved_in) _ r8 in
    let (e10, r10) = both (same_bit a.keys_updated b.keys_updated) _ r9 in
    let (e11, r11) = both (same_bit a.hot_updated b.hot_updated) _ r10 in
    let p0 = same_bit-eq a.xmin_committed b.xmin_committed e0 in
    let p1 = same_bit-eq a.xmin_invalid b.xmin_invalid e1 in
    let p2 = same_bit-eq a.xmax_committed b.xmax_committed e2 in
    let p3 = same_bit-eq a.xmax_invalid b.xmax_invalid e3 in
    let p4 = same_bit-eq a.xmax_is_multi b.xmax_is_multi e4 in
    let p5 = same_bit-eq a.lock_only b.lock_only e5 in
    let p6 = same_bit-eq a.keyshr_lock b.keyshr_lock e6 in
    let p7 = same_bit-eq a.excl_lock b.excl_lock e7 in
    let p8 = same_bit-eq a.moved_off b.moved_off e8 in
    let p9 = same_bit-eq a.moved_in b.moved_in e9 in
    let p10 = same_bit-eq a.keys_updated b.keys_updated e10 in
    let p11 = same_bit-eq a.hot_updated b.hot_updated e11 in
    let q : a.other ≡ b.other = ground arith in cc

-- A plan that matches does the same to a tuple.
eq-execute :
    (p : FreezePlan) (frz : HeapTupleFreeze) (t : TupleHeader)
    → pg_tde_log_freeze_eq p frz ≡ true
    → pg_tde_execute_freeze_tuple (plan_of p) t ≡ pg_tde_execute_freeze_tuple frz t
unfolding pg_tde_log_freeze_eq pg_tde_execute_freeze_tuple
eq-execute p frz t e =
    let same : p.bits ≡ frz.bits = same_bits-eq p.bits frz.bits (ground arith) in ground arith

page_ext : (p q : Page) → ((o : ℕ) → p o ≡ q o) → p ≡ q
page_ext p q h i o = h o i

freeze_at-if :
    (b : Bool) (p : FreezePlan) (frz : HeapTupleFreeze) (t : TupleHeader)
    → pg_tde_log_freeze_eq p frz ≡ true
    → (if b then pg_tde_execute_freeze_tuple (plan_of p) t else t)
      ≡ (if b then pg_tde_execute_freeze_tuple frz t else t)
freeze_at-if true p frz t e = eq-execute p frz t e
freeze_at-if false p frz t e = refl

freeze_at-eq :
    (o : ℕ) (p : FreezePlan) (frz : HeapTupleFreeze) (page : Page)
    → pg_tde_log_freeze_eq p frz ≡ true
    → freeze_at o (plan_of p) page ≡ freeze_at o frz page
freeze_at-eq o p frz page e = page_ext _ _ (λ k. freeze_at-if (k == o) p frz (page k) e)

freeze_at-new :
    (o : ℕ) (frz : HeapTupleFreeze) (page : Page)
    → freeze_at o (plan_of (pg_tde_log_freeze_new_plan frz)) page ≡ freeze_at o frz page
unfolding pg_tde_execute_freeze_tuple
freeze_at-new o frz page = refl

-- A plan at each of some offsets.
abbrev pub freeze_each : HeapTupleFreeze → List ℕ → Page → Page
freeze_each frz [] page = page
freeze_each frz (o ∷ os) page = freeze_each frz os (freeze_at o frz page)

freeze_each-snoc :
    (frz : HeapTupleFreeze) (os : List ℕ) (o : ℕ) (page : Page)
    → freeze_each frz (os ++ (o ∷ [])) page ≡ freeze_at o frz (freeze_each frz os page)
freeze_each-snoc frz [] o page = refl
freeze_each-snoc frz (k ∷ os) o page = freeze_each-snoc frz os o (freeze_at k frz page)

replay_tuples-each :
    (frz : HeapTupleFreeze) (os rest : List ℕ) (page : Page)
    → replay_tuples frz (length os) (os ++ rest) page ≡ some (freeze_each frz os page, rest)
unfolding replay_tuples
replay_tuples-each frz [] rest page = refl
replay_tuples-each frz (o ∷ os) rest page = replay_tuples-each frz os rest (freeze_at o frz page)

-- The record made of `items` after the open plan, whose tuples are at the offsets `os`.
abbrev Replays : FreezePlan → List ℕ → List FrozenItem → Page → List FreezePlan × List ℕ → Type 0
Replays p os items page log =
    pg_tde_xlog_freeze_page log.0 (os ++ log.1) page
    ≡ some (execute_all items (freeze_each (plan_of p) os page))

Replays-if :
    (b : Bool) (p : FreezePlan) (os : List ℕ) (items : List FrozenItem) (page : Page)
    (x y : List FreezePlan × List ℕ)
    → (b ≡ true → Replays p os items page x)
    → (b ≡ false → Replays p os items page y)
    → Replays p os items page (if b then x else y)
Replays-if true p os items page x y k k' = k refl
Replays-if false p os items page x y k k' = k' refl

first_plan :
    (p : FreezePlan) (os rest : List ℕ) (plans : List FreezePlan) (page : Page)
    → length os ≡ p.ntuples
    → pg_tde_xlog_freeze_page (p ∷ plans) (os ++ rest) page
      ≡ pg_tde_xlog_freeze_page plans rest (freeze_each (plan_of p) os page)
unfolding pg_tde_xlog_freeze_page
first_plan p os rest plans page count =
    ap
      (λ o. elim o as (λ q. Option Page) [
        | none ↦ none
        | some r ↦ pg_tde_xlog_freeze_page plans r.1 r.0
      ])
      (ap (λ n. replay_tuples (plan_of p) n (os ++ rest) page) (sym count)
        ∙ replay_tuples-each (plan_of p) os rest page)

group_items-Replays :
    (items : List FrozenItem) (p : FreezePlan) (os : List ℕ) (page : Page)
    → length os ≡ p.ntuples
    → Replays p os items page (group_items p items)
unfolding group_items execute_all pg_tde_xlog_freeze_page
group_items-Replays [] p os page count = first_plan p os [] [] page count
group_items-Replays (it ∷ items) p os page count =
    Replays-if (pg_tde_log_freeze_eq p it.frz) p os (it ∷ items) page _ _
      (λ e.
        let longer = record p { ntuples = suc p.ntuples } in
        let more = group_items longer items in
        ap (λ l. pg_tde_xlog_freeze_page more.0 l page)
          (sym (append_assoc os (it.offset ∷ []) more.1))
        ∙ (group_items-Replays items longer (os ++ (it.offset ∷ [])) page
              (length-append os (it.offset ∷ []) ∙ omega arith)
            ∙ ap (λ q. some (execute_all items q))
                (freeze_each-snoc (plan_of p) os it.offset page
                  ∙ freeze_at-eq it.offset p it.frz (freeze_each (plan_of p) os page) e)))
      (λ e.
        let new = pg_tde_log_freeze_new_plan it.frz in
        let rest = group_items new items in
        let done = freeze_each (plan_of p) os page in
        first_plan p os (it.offset ∷ rest.1) rest.0 page count
        ∙ (group_items-Replays items new (it.offset ∷ []) done refl
            ∙ ap (λ q. some (execute_all items q)) (freeze_at-new it.offset it.frz done)))

-- The record of tuples in their order.
pub log_sorted-replay :
    (items : List FrozenItem) (page : Page)
    → pg_tde_xlog_freeze_page (log_sorted items).0 (log_sorted items).1 page
      ≡ some (execute_all items page)
unfolding log_sorted pg_tde_xlog_freeze_page execute_all
log_sorted-replay [] page = refl
log_sorted-replay (it ∷ items) page =
    let new = pg_tde_log_freeze_new_plan it.frz in
    group_items-Replays items new (it.offset ∷ []) page refl
    ∙ ap (λ q. some (execute_all items q)) (freeze_at-new it.offset it.frz page)
