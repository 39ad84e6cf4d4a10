-- ===== src/Freeze/Order.antt =====
-- The order in which the tuples of a page are frozen does not matter.
use mathlib.Core.List.{Permᴰ}
use pg_tde.Base.{
  arith, ℕ, ◌≡◌, refl, ap, sym, ◌∙◌, Bool, true, false, ◌||◌, some, if◌then◌else◌, List, [], ◌∷◌,
  any, ◌==◌,
}
use pg_tde.Freeze.{TupleHeader}
use pg_tde.Freeze.Prepare.{HeapTupleFreeze, pg_tde_execute_freeze_tuple}
use pg_tde.Freeze.Plans.{
  FrozenItem, Page, freeze_at, execute_all, pg_tde_log_freeze_plan, pg_tde_xlog_freeze_page,
}
use pg_tde.Freeze.Replay.{log_sorted-replay}

module _ (f : ℕ → HeapTupleFreeze) where
  -- Each offset has one plan.
  abbrev pub Planned : List FrozenItem → Type 0
  Planned [] = Unit {0}
  Planned (it ∷ items) = (it.frz ≡ f it.offset) × Planned items

  abbrev is_at : ℕ → List FrozenItem → Bool
  is_at o items = any (λ it. o == it.offset) items

  Planned-Permᴰ :
      {items items' : List FrozenItem} → Permᴰ items items' → Planned items → Planned items'
  Planned-Permᴰ Permᴰ.nil k = k
  Planned-Permᴰ (Permᴰ.cons e d) (here, k) =
      (ap (λ it. it.frz) (sym e) ∙ (here ∙ ap (λ it. f it.offset) e), Planned-Permᴰ d k)
  Planned-Permᴰ (Permᴰ.swap e e') (here, (here', k)) = (
    ap (λ it. it.frz) (sym e') ∙ (here' ∙ ap (λ it. f it.offset) e'),
    (ap (λ it. it.frz) (sym e) ∙ (here ∙ ap (λ it. f it.offset) e), k),
  )
  Planned-Permᴰ (Permᴰ.trans d d') k = Planned-Permᴰ d' (Planned-Permᴰ d k)

  is_at-Permᴰ :
      {items items' : List FrozenItem} (o : ℕ) → Permᴰ items items' → is_at o items ≡ is_at o items'
  is_at-Permᴰ o Permᴰ.nil = refl
  is_at-Permᴰ o (Permᴰ.cons e d) = cc (ap (λ it. o == it.offset) e, is_at-Permᴰ o d)
  is_at-Permᴰ o (Permᴰ.swap e e') =
      ground (arith, ap (λ it. o == it.offset) e, ap (λ it. o == it.offset) e')
  is_at-Permᴰ o (Permᴰ.trans d d') = is_at-Permᴰ o d ∙ is_at-Permᴰ o d'

  execute-twice :
      (frz : HeapTupleFreeze) (t : TupleHeader)
      → pg_tde_execute_freeze_tuple frz (pg_tde_execute_freeze_tuple frz t)
        ≡ pg_tde_execute_freeze_tuple frz t
  unfolding pg_tde_execute_freeze_tuple
  execute-twice frz t = ground arith

  abbrev frozen_if : Bool → HeapTupleFreeze → TupleHeader → TupleHeader
  frozen_if b frz t = if b then pg_tde_execute_freeze_tuple frz t else t

  frozen_if-step :
      (here later : Bool) (frz frz' : HeapTupleFreeze) (t : TupleHeader)
      → (here ≡ true → frz' ≡ frz)
      → frozen_if later frz (if here then pg_tde_execute_freeze_tuple frz' t else t)
        ≡ frozen_if (here || later) frz t
  frozen_if-step true true frz frz' t e =
      ap (λ g. pg_tde_execute_freeze_tuple frz (pg_tde_execute_freeze_tuple g t)) (e refl)
      ∙ execute-twice frz t
  frozen_if-step true false frz frz' t e = ap (λ g. pg_tde_execute_freeze_tuple g t) (e refl)
  frozen_if-step false true frz frz' t e = refl
  frozen_if-step false false frz frz' t e = refl

  -- What freezing leaves at an offset.
  execute_all-at :
      (items : List FrozenItem) (page : Page) (o : ℕ)
      → Planned items
      → execute_all items page o ≡ frozen_if (is_at o items) (f o) (page o)
  unfolding execute_all
  execute_all-at [] page o k = refl
  execute_all-at (it ∷ items) page o (here, k) =
      execute_all-at items (freeze_at it.offset it.frz page) o k
      ∙ frozen_if-step (o == it.offset) (is_at o items) (f o) it.frz (page o)
          (λ e. let same : it.offset ≡ o = ground arith in here ∙ ap f same)

-- Replay of freezing: however qsort orders the tuples of a page, each offset having one plan, the plans and offsets
-- that pg_tde_log_freeze_plan makes of them are complete, and pg_tde_xlog_freeze_page with them leaves at every
-- offset the header that pg_tde_freeze_execute_prepared has left there.
pub freeze_page-redo :
    (sort : List FrozenItem → List FrozenItem) (items : List FrozenItem) (page : Page)
    (f : ℕ → HeapTupleFreeze)
    → Planned f items
    → Permᴰ items (sort items)
    → let log = pg_tde_log_freeze_plan sort items in
      (redone : Page) × (pg_tde_xlog_freeze_page log.0 log.1 page ≡ some redone)
      × ((o : ℕ) → redone o ≡ execute_all items page o)
freeze_page-redo sort items page f planned sorts = (
  execute_all (sort items) page,
  log_sorted-replay (sort items) page,
  λ o.
      execute_all-at f (sort items) page o (Planned-Permᴰ f sorts planned)
      ∙ (ap (λ b. frozen_if f b (f o) (page o)) (sym (is_at-Permᴰ f o sorts))
          ∙ sym (execute_all-at f items page o planned)),
)
