-- ===== src/Hot/Statuses.antt =====
-- The first loop of `pg_tde_page_prune`: what it finds of each line pointer.
use pg_tde.Base.{
  arith, ℕ, zero, suc, ◌+◌, ◌<◌, ◌≡◌, refl, ap, subst, sym, ◌∙◌, Bool, true, false, Option, none,
  some, List, [], ◌∷◌,
}
use pg_tde.Visibility.Vacuum.{
  HtsvResult, dead, live, recently_dead, insert_in_progress, delete_in_progress, Status,
  heap_tuple_satisfies_vacuum_horizon,
}
use pg_tde.Hot.{
  HotTuple, LinePointer, lp_unused, lp_dead, lp_redirect, lp_normal, item_id, set_at, PruneServer,
  PruneState, limited_status, final_status, heap_prune_satisfies_vacuum,
}
use pg_tde.Hot.Page.{determine}
use pg_tde.Hot.Safe.{is_removable}

-- A status is kept for tuples alone.
abbrev pub matches : LinePointer → Option HtsvResult → Bool
matches (lp_normal t) (some r) = true
matches (lp_normal t) none = false
matches lp_unused none = true
matches lp_dead none = true
matches (lp_redirect to) none = true
matches lp_unused (some r) = false
matches lp_dead (some r) = false
matches (lp_redirect to) (some r) = false

module _ (sv : PruneServer) where
  limited_status-htsv :
      (after : ℕ) (st : PruneState) → (limited_status sv after st).1.htsv ≡ st.htsv
  unfolding limited_status
  limited_status-htsv after st = ground arith

  result-htsv :
      (r : HtsvResult) (after : ℕ) (st : PruneState)
      → (elim r as (λ q. HtsvResult × PruneState) [
        | recently_dead ↦ limited_status sv after st
        | other ↦ (other, st)
      ]).1.htsv
        ≡ st.htsv
  result-htsv recently_dead after st = limited_status-htsv after st
  result-htsv dead after st = refl
  result-htsv live after st = refl
  result-htsv insert_in_progress after st = refl
  result-htsv delete_in_progress after st = refl

  final_status-htsv : (s : Status) (st : PruneState) → (final_status sv s st).1.htsv ≡ st.htsv
  unfolding final_status
  final_status-htsv s st = result-htsv s.result s.dead_after st

  result_kept :
      (r : HtsvResult) (after : ℕ) (st : PruneState)
      → is_removable (some r) ≡ false
      → (elim r as (λ q. HtsvResult × PruneState) [
        | recently_dead ↦ limited_status sv after st
        | other ↦ (other, st)
      ]).0
        ≡ r
  result_kept recently_dead after st e = absurd cc
  result_kept dead after st e = absurd cc
  result_kept live after st e = refl
  result_kept insert_in_progress after st e = refl
  result_kept delete_in_progress after st e = refl

  final_status-kept :
      (s : Status) (st : PruneState)
      → is_removable (some s.result) ≡ false
      → (final_status sv s st).0 ≡ s.result
  unfolding final_status
  final_status-kept s st e = result_kept s.result s.dead_after st e

  satisfies-htsv :
      (st : PruneState) (t : HotTuple)
      → (heap_prune_satisfies_vacuum sv st t.header).1.htsv ≡ st.htsv
  unfolding heap_prune_satisfies_vacuum
  satisfies-htsv st t = final_status-htsv (heap_tuple_satisfies_vacuum_horizon sv.tx t.header) st

  set_at-same :
      (b : ℕ) (r : Option HtsvResult) (f : ℕ → Option HtsvResult) → set_at b r f (b + 0) ≡ r
  set_at-same b r f = ground arith

  set_at-later :
      (b i : ℕ) (r : Option HtsvResult) (f g : ℕ → Option HtsvResult)
      → f ≡ g
      → set_at b r f (b + suc i) ≡ g (b + 1 + i)
  set_at-later b i r f g e =
      let apart : set_at b r f (b + suc i) ≡ f (b + suc i) = ground arith in
      let same : b + suc i ≡ b + 1 + i = omega arith in
      apart ∙ (ap f same ∙ ap (λ k. k (b + 1 + i)) e)

  pub determine-matches :
      (b i : ℕ) (lines : List LinePointer) (st : PruneState)
      → ((o : ℕ) → st.htsv o ≡ none)
      → matches
          (item_id (determine sv b lines st).1 (suc i))
          ((determine sv b lines st).0.htsv (b + i))
        ≡ true
  unfolding determine
  determine-matches b i [] st clear = ap (matches lp_unused) (clear (b + i))
  determine-matches b zero (lp_unused ∷ lines) st clear =
      let rest = determine sv (b + 1) lines st in
      ap (matches lp_unused) (set_at-same b none rest.0.htsv)
  determine-matches b (suc i) (lp_unused ∷ lines) st clear =
      let rest = determine sv (b + 1) lines st in
      ap (matches (item_id rest.1 (suc i))) (set_at-later b i none rest.0.htsv rest.0.htsv refl)
      ∙ determine-matches (b + 1) i lines st clear
  determine-matches b zero (lp_dead ∷ lines) st clear =
      let rest = determine sv (b + 1) lines st in
      ap (matches lp_dead) (set_at-same b none rest.0.htsv)
  determine-matches b (suc i) (lp_dead ∷ lines) st clear =
      let rest = determine sv (b + 1) lines st in
      ap (matches (item_id rest.1 (suc i))) (set_at-later b i none rest.0.htsv rest.0.htsv refl)
      ∙ determine-matches (b + 1) i lines st clear
  determine-matches b zero (lp_redirect to ∷ lines) st clear =
      let rest = determine sv (b + 1) lines st in
      ap (matches (lp_redirect to)) (set_at-same b none rest.0.htsv)
  determine-matches b (suc i) (lp_redirect to ∷ lines) st clear =
      let rest = determine sv (b + 1) lines st in
      ap (matches (item_id rest.1 (suc i))) (set_at-later b i none rest.0.htsv rest.0.htsv refl)
      ∙ determine-matches (b + 1) i lines st clear
  determine-matches b zero (lp_normal t ∷ lines) st clear =
      let rest = determine sv (b + 1) lines st in
      ap (matches (lp_normal t)) (
        set_at-same b (some (heap_prune_satisfies_vacuum sv rest.0 t.header).0)
          (heap_prune_satisfies_vacuum sv rest.0 t.header).1.htsv)
  determine-matches b (suc i) (lp_normal t ∷ lines) st clear =
      let rest = determine sv (b + 1) lines st in
      ap (matches (item_id rest.1 (suc i))) (
        set_at-later b i (some (heap_prune_satisfies_vacuum sv rest.0 t.header).0)
          (heap_prune_satisfies_vacuum sv rest.0 t.header).1.htsv rest.0.htsv
          (satisfies-htsv rest.0 t))
      ∙ determine-matches (b + 1) i lines st clear

  -- What becomes of a tuple that is neither dead nor recently dead.
  abbrev pub hinted : HotTuple → LinePointer
  hinted t =
      lp_normal (record t { header = (heap_tuple_satisfies_vacuum_horizon sv.tx t.header).header })

  abbrev pub Stays : LinePointer → Option HtsvResult → LinePointer → Type 0
  Stays lp r lp' =
      (t : HotTuple)
      → lp ≡ lp_normal t
      → is_removable (some (heap_tuple_satisfies_vacuum_horizon sv.tx t.header).result) ≡ false
      → (is_removable r ≡ false) × (lp' ≡ hinted t)

  normal-Stays :
      (t : HotTuple) (st : PruneState)
      → Stays (lp_normal t) (some (heap_prune_satisfies_vacuum sv st t.header).0) (hinted t)
  unfolding heap_prune_satisfies_vacuum
  normal-Stays t st t' e stays =
      let same : t ≡ t' = ap (λ lp. elim lp as (λ q. HotTuple) [ lp_normal u ↦ u | _ ↦ t ]) e in
      let stays' =
        subst
          (λ u.
            is_removable (some (heap_tuple_satisfies_vacuum_horizon sv.tx u.header).result) ≡ false)
          (sym same) stays in
      (
        ap (λ r. is_removable (some r))
              (final_status-kept (heap_tuple_satisfies_vacuum_horizon sv.tx t.header) st stays')
            ∙ stays',
        ap hinted same,
      )

  Stays-at :
      (lp lp' : LinePointer) (r r' : Option HtsvResult) → r' ≡ r → Stays lp r lp' → Stays lp r' lp'
  Stays-at lp lp' r r' e k = subst (λ q. Stays lp q lp') (sym e) k

  pub determine-Stays :
      (b i : ℕ) (lines : List LinePointer) (st : PruneState)
      → Stays
          (item_id lines (suc i))
          ((determine sv b lines st).0.htsv (b + i))
          (item_id (determine sv b lines st).1 (suc i))
  unfolding determine heap_prune_satisfies_vacuum
  determine-Stays b i [] st t' e stays = absurd cc
  determine-Stays b zero (lp_unused ∷ lines) st t' e stays = absurd cc
  determine-Stays b (suc i) (lp_unused ∷ lines) st t' e stays =
      let rest = determine sv (b + 1) lines st in
      Stays-at (item_id lines (suc i)) (item_id rest.1 (suc i)) _ _
        (set_at-later b i none rest.0.htsv rest.0.htsv refl) (determine-Stays (b + 1) i lines st) t'
        e stays
  determine-Stays b zero (lp_dead ∷ lines) st t' e stays = absurd cc
  determine-Stays b (suc i) (lp_dead ∷ lines) st t' e stays =
      let rest = determine sv (b + 1) lines st in
      Stays-at (item_id lines (suc i)) (item_id rest.1 (suc i)) _ _
        (set_at-later b i none rest.0.htsv rest.0.htsv refl) (determine-Stays (b + 1) i lines st) t'
        e stays
  determine-Stays b zero (lp_redirect to ∷ lines) st t' e stays = absurd cc
  determine-Stays b (suc i) (lp_redirect to ∷ lines) st t' e stays =
      let rest = determine sv (b + 1) lines st in
      Stays-at (item_id lines (suc i)) (item_id rest.1 (suc i)) _ _
        (set_at-later b i none rest.0.htsv rest.0.htsv refl) (determine-Stays (b + 1) i lines st) t'
        e stays
  determine-Stays b zero (lp_normal t ∷ lines) st t' e stays =
      let rest = determine sv (b + 1) lines st in
      Stays-at (lp_normal t) (hinted t) _ _
        (set_at-same b (some (heap_prune_satisfies_vacuum sv rest.0 t.header).0)
          (heap_prune_satisfies_vacuum sv rest.0 t.header).1.htsv)
        (normal-Stays t rest.0) t' e stays
  determine-Stays b (suc i) (lp_normal t ∷ lines) st t' e stays =
      let rest = determine sv (b + 1) lines st in
      Stays-at (item_id lines (suc i)) (item_id rest.1 (suc i)) _ _
        (set_at-later b i (some (heap_prune_satisfies_vacuum sv rest.0 t.header).0)
          (heap_prune_satisfies_vacuum sv rest.0 t.header).1.htsv rest.0.htsv
          (satisfies-htsv rest.0 t))
        (determine-Stays (b + 1) i lines st) t' e stays

  -- Nothing is recorded by the first loop.
  abbrev pub Unrecorded : PruneState → Type 0
  Unrecorded st = (st.redirected ≡ []) × (st.nowdead ≡ []) × (st.nowunused ≡ [])

  limited_status-Unrecorded :
      (after : ℕ) (st : PruneState) → Unrecorded st → Unrecorded (limited_status sv after st).1
  unfolding limited_status
  limited_status-Unrecorded after st (r, d, u) = (ground arith, ground arith, ground arith)

  result-Unrecorded :
      (r : HtsvResult) (after : ℕ) (st : PruneState)
      → Unrecorded st
      → Unrecorded
          (elim r as (λ q. HtsvResult × PruneState) [
            | recently_dead ↦ limited_status sv after st
            | other ↦ (other, st)
          ]).1
  result-Unrecorded recently_dead after st k = limited_status-Unrecorded after st k
  result-Unrecorded dead after st k = k
  result-Unrecorded live after st k = k
  result-Unrecorded insert_in_progress after st k = k
  result-Unrecorded delete_in_progress after st k = k

  satisfies-Unrecorded :
      (st : PruneState) (t : HotTuple)
      → Unrecorded st
      → Unrecorded (heap_prune_satisfies_vacuum sv st t.header).1
  unfolding heap_prune_satisfies_vacuum final_status
  satisfies-Unrecorded st t k =
      let s = heap_tuple_satisfies_vacuum_horizon sv.tx t.header in
      result-Unrecorded s.result s.dead_after st k

  pub determine-Unrecorded :
      (b : ℕ) (lines : List LinePointer) (st : PruneState)
      → Unrecorded st
      → Unrecorded (determine sv b lines st).0
  unfolding determine
  determine-Unrecorded b [] st k = k
  determine-Unrecorded b (lp_normal t ∷ lines) st k =
      satisfies-Unrecorded (determine sv (b + 1) lines st).0 t
        (determine-Unrecorded (b + 1) lines st k)
  determine-Unrecorded b (lp_unused ∷ lines) st k = determine-Unrecorded (b + 1) lines st k
  determine-Unrecorded b (lp_dead ∷ lines) st k = determine-Unrecorded (b + 1) lines st k
  determine-Unrecorded b (lp_redirect to ∷ lines) st k = determine-Unrecorded (b + 1) lines st k

  set_at-zero :
      (b : ℕ) (r : Option HtsvResult) (f : ℕ → Option HtsvResult) → 0 < b → set_at b r f 0 ≡ f 0
  set_at-zero b r f low = ground arith

  -- There is no line pointer 0.
  pub determine-zero :
      (b : ℕ) (lines : List LinePointer) (st : PruneState)
      → 0 < b
      → (determine sv b lines st).0.htsv 0 ≡ st.htsv 0
  unfolding determine
  determine-zero b [] st low = refl
  determine-zero b (lp_unused ∷ lines) st low =
      let rest = determine sv (b + 1) lines st in
      set_at-zero b none rest.0.htsv low ∙ (determine-zero (b + 1) lines st (omega arith))
  determine-zero b (lp_dead ∷ lines) st low =
      let rest = determine sv (b + 1) lines st in
      set_at-zero b none rest.0.htsv low ∙ (determine-zero (b + 1) lines st (omega arith))
  determine-zero b (lp_redirect to ∷ lines) st low =
      let rest = determine sv (b + 1) lines st in
      set_at-zero b none rest.0.htsv low ∙ (determine-zero (b + 1) lines st (omega arith))
  determine-zero b (lp_normal t ∷ lines) st low =
      let rest = determine sv (b + 1) lines st in
      set_at-zero b (some (heap_prune_satisfies_vacuum sv rest.0 t.header).0)
        (heap_prune_satisfies_vacuum sv rest.0 t.header).1.htsv low
      ∙ (ap (λ g. g 0) (satisfies-htsv rest.0 t) ∙ determine-zero (b + 1) lines st (omega arith))
