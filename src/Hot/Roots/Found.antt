-- ===== src/Hot/Roots/Found.antt =====
-- `pg_tde_get_root_tuples` finds the root of each tuple.
use pg_tde.Base.{
  dec_lt, ◌≢◌, ◌⊎◌, inl, inr, arith, ℕ, zero, suc, ◌+◌, ◌≤◌, ◌<◌, ◌≡◌, refl, ap, sym, ◌∙◌, subst,
  true, false, ◌&&◌, not, Option, none, some, List, [], ◌∷◌, if◌then◌else◌, ltb, ◌==◌, length,
}
use pg_tde.Visibility.Historic.{header_xmin}
use pg_tde.Visibility.Vacuum.{header_update_xid}
use pg_tde.Hot.{
  HotTuple, LinePointer, lp_unused, lp_dead, lp_redirect, lp_normal, is_hot_updated, item_id,
}
use pg_tde.Hot.Chain.{max_heap_tuples_per_page}
use pg_tde.Hot.Roots.{
  put_root, read_line, follow_chain, root_line, root_loop, pg_tde_get_root_tuples,
}
use pg_tde.Hot.Roots.Chains.{
  true-ne-false, follows, Reaches, OnChain, Marks, Good, Good-if, unmarked, tuple_of, no_chain,
  splits, mark_last, mark_on, Good-read, read_line-inside, not_last, here, further, own, updated,
  redirected,
}

-- What is not an unused line pointer is in the array.
item_id-inside :
    (ls : List LinePointer) (o : ℕ) (lp : LinePointer)
    → item_id ls o ≡ lp
    → lp ≢ lp_unused
    → (0 < o) × (o ≤ length ls)
item_id-inside [] o lp e used = absurd (used (sym e))
item_id-inside (l ∷ ls) zero lp e used = absurd (used (sym e))
item_id-inside (l ∷ ls) (suc zero) lp e used = (omega arith, omega arith)
item_id-inside (l ∷ ls) (suc (suc o)) lp e used =
    let rest = item_id-inside ls (suc o) lp e used in (omega arith, omega (arith, rest.1))

module _ (lines : List LinePointer) where
  OnChain-inside : (root o : ℕ) → OnChain lines root o → (0 < root) × (root ≤ length lines)
  OnChain-inside root o (own t at alone) =
      item_id-inside lines root (lp_normal t) at (λ e. absurd cc)
  OnChain-inside root o (updated t at alone hot rest) =
      item_id-inside lines root (lp_normal t) at (λ e. absurd cc)
  OnChain-inside root o (redirected to at rest) =
      item_id-inside lines root (lp_redirect to) at (λ e. absurd cc)

  module _ (rank : ℕ → ℕ) (bounded : (o : ℕ) → rank o < max_heap_tuples_per_page)
      (updates : (o : ℕ) (t : HotTuple)
        → item_id lines o ≡ lp_normal t
        → is_hot_updated t ≡ true
        → (0 < t.ctid_off) × (t.ctid_off ≤ length lines) × (rank t.ctid_off < rank o))
      (redirects : (o to : ℕ)
        → item_id lines o ≡ lp_redirect to
        → (0 < to) × (to ≤ length lines) × (rank to < rank o)) where
    -- What the loop does with the line pointer that it has read.
    step :
        (room root next prior_xmax : ℕ) (roots : ℕ → ℕ) (lp : LinePointer)
        → root ≢ 0
        → item_id lines next ≡ lp
        → ((t : HotTuple)
            → item_id lines next ≡ lp_normal t
            → is_hot_updated t ≡ true
            → Good lines root
                (Reaches lines t.ctid_off (header_update_xid t.header))
                (put_root next root roots)
                (follow_chain lines room root t.ctid_off
                  (header_update_xid t.header)
                  (put_root next root roots)))
        → Good lines root (Reaches lines next prior_xmax) roots (elim lp as (λ q. Option (ℕ → ℕ)) [
          | lp_normal t ↦
              if not (prior_xmax == 0) && not (header_xmin t.header == prior_xmax)
              then some roots
              else if not (is_hot_updated t)
              then some (put_root next root roots)
              else follow_chain lines room root t.ctid_off
                  (header_update_xid t.header)
                  (put_root next root roots)
          | _ ↦ some roots
        ])
    step room root next prior_xmax roots lp_unused valid e rest =
        unmarked lines root (Reaches lines next prior_xmax) roots
          (no_chain lines next prior_xmax lp_unused e (λ t k. absurd cc))
    step room root next prior_xmax roots lp_dead valid e rest =
        unmarked lines root (Reaches lines next prior_xmax) roots
          (no_chain lines next prior_xmax lp_dead e (λ t k. absurd cc))
    step room root next prior_xmax roots (lp_redirect to) valid e rest =
        unmarked lines root (Reaches lines next prior_xmax) roots
          (no_chain lines next prior_xmax (lp_redirect to) e (λ t k. absurd cc))
    step room root next prior_xmax roots (lp_normal t) valid e rest =
        let On = Reaches lines next prior_xmax in
        let marked = put_root next root roots in
        Good-if lines (not (prior_xmax == 0) && not (header_xmin t.header == prior_xmax)) root On
          roots (some roots) _
          (λ broken. unmarked lines root On roots (
            no_chain lines next prior_xmax (lp_normal t) e (λ u k.
              subst (λ v. follows lines prior_xmax v ≡ false) (tuple_of lines t u k)
                (ground (arith, broken)))))
          (λ intact.
            let first : Reaches lines next prior_xmax next = here t e (ground (arith, intact)) in
            Good-if lines (not (is_hot_updated t)) root On roots (some marked) _
              (λ last. mark_last lines root next On roots valid first (λ o on.
                not_last lines t o next (ground (arith, last))
                  (splits lines next prior_xmax t e o on)))
              (λ more.
                let hot : is_hot_updated t ≡ true = ground (arith, more) in
                mark_on lines root next On (Reaches lines t.ctid_off (header_update_xid t.header))
                  roots _ valid first (λ o on. further t e (ground (arith, intact)) hot on)
                  (λ o on. elim (splits lines next prior_xmax t e o on) [
                    | inl at ↦ inl at
                    | inr (h, on') ↦ inr on'
                  ])
                  (rest t e hot)))

    follow_chain-Good :
        (room root next prior_xmax : ℕ) (roots : ℕ → ℕ)
        → (0 < root) × (root ≤ length lines)
        → (0 < next) × (next ≤ length lines)
        → rank next < room
        → Good lines root
            (Reaches lines next prior_xmax)
            roots
            (follow_chain lines room root next prior_xmax roots)
    unfolding follow_chain
    follow_chain-Good zero root next prior_xmax roots valid inside low = absurd (omega arith)
    follow_chain-Good (suc room) root next prior_xmax roots valid inside low =
        let On = Reaches lines next prior_xmax in
        Good-if lines (ltb root 1) root On roots (some roots) _
          (λ off. absurd (ground (arith, valid.0)))
          (λ _.
            Good-if lines (ltb (length lines) root) root On roots (some roots) _
              (λ off. absurd (ground (arith, valid.1)))
              (λ _.
                Good-read lines root On roots (read_line lines next) (item_id lines next) _
                  (read_line-inside lines next inside.0 inside.1)
                  (step room root next prior_xmax roots (item_id lines next)
                    (λ e. absurd (omega (arith, valid.0))) refl
                    (λ t e hot.
                      let on = updates next t e hot in
                      follow_chain-Good room root t.ctid_off (header_update_xid t.header)
                        (put_root next root roots) valid (on.0, on.1) (omega (arith, on.2))))))

    no_tuple :
        (root : ℕ) (lp : LinePointer)
        → item_id lines root ≡ lp
        → ((t : HotTuple) → lp ≡ lp_normal t → t.heap_only ≡ true)
        → ((to : ℕ) → lp ≡ lp_redirect to → ⊥)
        → (o : ℕ) → OnChain lines root o
        → ⊥
    no_tuple root lp e inner other o (own t at alone) =
        true-ne-false (sym (inner t (sym e ∙ at)) ∙ alone)
    no_tuple root lp e inner other o (updated t at alone hot rest) =
        true-ne-false (sym (inner t (sym e ∙ at)) ∙ alone)
    no_tuple root lp e inner other o (redirected to at rest) = other to (sym e ∙ at)

    redirect-splits :
        (root to : ℕ)
        → item_id lines root ≡ lp_redirect to
        → (o : ℕ) → OnChain lines root o
        → Reaches lines to 0 o
    redirect-splits root to e o (own t at alone) =
        let no : lp_redirect to ≡ lp_normal t = sym e ∙ at in absurd cc
    redirect-splits root to e o (updated t at alone hot rest) =
        let no : lp_redirect to ≡ lp_normal t = sym e ∙ at in absurd cc
    redirect-splits root to e o (redirected to' at rest) =
        let same : lp_redirect to' ≡ lp_redirect to = sym at ∙ e in
        subst (λ j. Reaches lines j 0 o)
          (ap (λ lp. elim lp as (λ q. ℕ) [ lp_redirect j ↦ j | _ ↦ to ]) same) rest

    tuple-splits :
        (root : ℕ) (t : HotTuple)
        → item_id lines root ≡ lp_normal t
        → (o : ℕ) → OnChain lines root o
        → (o ≡ root)
          ⊎ ((is_hot_updated t ≡ true) × Reaches lines t.ctid_off (header_update_xid t.header) o)
    tuple-splits root t e o (own u at alone) = inl refl
    tuple-splits root t e o (updated u at alone hot rest) =
        let same : u ≡ t = tuple_of lines u t (sym at ∙ e) in
        inr (
          subst
            (λ v.
              (is_hot_updated v ≡ true) × Reaches lines v.ctid_off (header_update_xid v.header) o)
            same (hot, rest))
    tuple-splits root t e o (redirected to at rest) =
        let no : lp_normal t ≡ lp_redirect to = sym e ∙ at in absurd cc

    root_line-Good :
        (root : ℕ) (lp : LinePointer) (roots : ℕ → ℕ)
        → item_id lines root ≡ lp
        → (0 < root) × (root ≤ length lines)
        → Good lines root (OnChain lines root) roots (root_line lines root lp roots)
    unfolding root_line
    root_line-Good root lp_unused roots e inside =
        unmarked lines root (OnChain lines root) roots
          (no_tuple root lp_unused e (λ t k. absurd cc) (λ to k. absurd cc))
    root_line-Good root lp_dead roots e inside =
        unmarked lines root (OnChain lines root) roots
          (no_tuple root lp_dead e (λ t k. absurd cc) (λ to k. absurd cc))
    root_line-Good root (lp_redirect to) roots e inside =
        let on = redirects root to e in
        let (after, made, (sound, complete)) =
          follow_chain-Good max_heap_tuples_per_page root to 0 roots inside (on.0, on.1)
            (omega (arith, bounded to)) in
        (
          after,
          made,
          (
            λ o. elim (sound o) [ inl k ↦ inl k | inr (k, r) ↦ inr (k, redirected to e r) ],
            λ o chain. complete o (redirect-splits root to e o chain),
          ),
        )
    root_line-Good root (lp_normal t) roots e inside =
        let On = OnChain lines root in
        let valid : root ≢ 0 = λ k. absurd (omega (arith, inside.0)) in
        Good-if lines t.heap_only root On roots (some roots) _
          (λ inner. unmarked lines root On roots (
            no_tuple root (lp_normal t) e
              (λ u k. subst (λ v. v.heap_only ≡ true) (tuple_of lines t u k) inner)
              (λ to k. absurd cc)))
          (λ alone.
            Good-if lines (not (is_hot_updated t)) root On roots (some (put_root root root roots)) _
              (λ last. mark_last lines root root On roots valid (own t e alone) (λ o on.
                not_last lines t o root (ground (arith, last)) (tuple-splits root t e o on)))
              (λ more.
                let hot : is_hot_updated t ≡ true = ground (arith, more) in
                let next = updates root t e hot in
                mark_on lines root root On (Reaches lines t.ctid_off (header_update_xid t.header))
                  roots _ valid (own t e alone) (λ o on. updated t e alone hot on)
                  (λ o on. elim (tuple-splits root t e o on) [
                    | inl at ↦ inl at
                    | inr (h, on') ↦ inr on'
                  ])
                  (follow_chain-Good max_heap_tuples_per_page root t.ctid_off
                    (header_update_xid t.header) (put_root root root roots) inside (next.0, next.1)
                    (omega (arith, bounded t.ctid_off)))))

    -- What holds once the roots below `n` have been looked at.
    abbrev Found : ℕ → (ℕ → ℕ) → Type 0
    Found n roots =
        ((o : ℕ) → (roots o ≡ 0) ⊎ OnChain lines (roots o) o)
        × ((root o : ℕ) → 0 < root → root < n → OnChain lines root o → roots o ≢ 0)

    Found-next :
        (n : ℕ) (roots after : ℕ → ℕ)
        → 0 < n
        → Found n roots
        → Marks lines n (OnChain lines n) roots after
        → Found (n + 1) after
    Found-next n roots after pos (entries, found) (sound, complete) = (
      λ o. elim (sound o) [
        | inl e ↦ subst (λ k. (k ≡ 0) ⊎ OnChain lines k o) (sym e) (entries o)
        | inr (e, on) ↦ inr (subst (λ k. OnChain lines k o) (sym e) on)
      ],
      λ root o low high on. elim (dec_lt root n) [
        | yes below ↦ elim (sound o) [
          | inl e ↦ λ z. found root o low below on (sym e ∙ z)
          | inr (e, on') ↦ λ z. absurd (omega (arith, e, z))
        ]
        | no not_below ↦
            let same : root ≡ n = omega arith in complete o (subst (λ k. OnChain lines k o) same on)
      ],
    )

    root_loop-Found :
        (k n : ℕ) (roots : ℕ → ℕ)
        → 0 < n
        → n + k ≡ length lines + 1
        → Found n roots
        → (after : ℕ → ℕ) × (root_loop lines k n roots ≡ some after)
          × Found (length lines + 1) after
    unfolding root_loop
    root_loop-Found zero n roots pos all found =
        (roots, refl, subst (λ m. Found m roots) (omega arith) found)
    root_loop-Found (suc k) n roots pos all found =
        let (marked, made, marks) =
          root_line-Good n (item_id lines n) roots refl (pos, omega arith) in
        let (after, ended, done) =
          root_loop-Found k (n + 1) marked (omega arith) (omega arith)
            (Found-next n roots marked pos found marks) in
        (
          after,
          ap
                (λ q. elim q as (λ q'. Option (ℕ → ℕ)) [
                  | none ↦ none
                  | some roots' ↦ root_loop lines k (n + 1) roots'
                ])
                made
              ∙ ended,
          done,
        )

    -- pg_tde_get_root_tuples has a result that is right and complete: an entry that is not 0 is the root of a chain
    -- that the tuple is on, where a chain goes from a redirect or a tuple that is not heap-only along HOT updates to tuples that the
    -- update's transaction inserted; and every tuple that is on the chain of a root of the page has an entry. Every
    -- redirect and every HOT update of the page points to a line pointer of the page, and some rank below
    -- MaxHeapTuplesPerPage falls along them.
    pub get_root_tuples-roots :
        (roots : ℕ → ℕ) × (pg_tde_get_root_tuples lines ≡ some roots)
        × ((o : ℕ) → (roots o ≡ 0) ⊎ OnChain lines (roots o) o)
        × ((root o : ℕ) → OnChain lines root o → roots o ≢ 0)
    unfolding pg_tde_get_root_tuples
    get_root_tuples-roots =
        let (roots, made, (entries, found)) =
          root_loop-Found (length lines) 1 (λ o. 0) (omega arith) (omega arith)
            (λ o. inl refl, λ root o low high on. absurd (omega arith)) in
        (
          roots,
          made,
          entries,
          λ root o on.
              let at = OnChain-inside root o on in found root o at.0 (omega (arith, at.1)) on,
        )
