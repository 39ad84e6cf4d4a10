-- ===== src/Prune/Places.antt =====
-- The places that tuples get when they are packed, and the loop over those that are in place.
use pg_tde.Base.{
  arith, ℕ, ◌-◌, ◌≡◌, refl, ap, ap₂, Bool, true, false, if◌then◌else◌, ◌⊎◌, inl, inr, List, [], ◌∷◌,
  ◌++◌,
}
use pg_tde.Prune.{Item, Skipped, skip_in_place}

-- The places of items put side by side below `upper`, the first on top.
unfoldable pub stacked : ℕ → List Item → List (ℕ × ℕ)
stacked upper [] = []
stacked upper (it ∷ items) =
    (it.offsetindex, upper - it.alignedlen) ∷ stacked (upper - it.alignedlen) items

unfoldable pub below_all : ℕ → List Item → ℕ
below_all upper [] = upper
below_all upper (it ∷ items) = below_all (upper - it.alignedlen) items

-- The places that items have.
abbrev pub places : List Item → List (ℕ × ℕ)
places [] = []
places (it ∷ items) = (it.offsetindex, it.itemoff) ∷ places items

-- Where the loop over tuples in place stops.
abbrev pub Stopped : ℕ → List Item → Skipped → Type 0
Stopped upper items s =
    (kept : List Item) × (items ≡ kept ++ s.rest)
    × (stacked upper items ≡ places kept ++ stacked s.upper s.rest)
    × (s.upper ≡ below_all upper kept)
    × (below_all upper items ≡ below_all s.upper s.rest)
    × ((s.rest ≡ []) ⊎ ((more : List Item) × (s.rest ≡ s.itemidptr ∷ more)))

Stopped-if :
    (b : Bool) (upper : ℕ) (items : List Item) (s s' : Skipped)
    → (b ≡ true → Stopped upper items s)
    → (b ≡ false → Stopped upper items s')
    → Stopped upper items (if b then s else s')
Stopped-if true upper items s s' h h' = h refl
Stopped-if false upper items s s' h h' = h' refl

Stopped-more :
    (upper : ℕ) (it : Item) (items : List Item) (s : Skipped)
    → upper - it.alignedlen ≡ it.itemoff
    → Stopped (upper - it.alignedlen) items s
    → Stopped upper (it ∷ items) s
unfolding stacked below_all
Stopped-more upper it items s at (kept, split, put, at_kept, low, first) = (
  it ∷ kept,
  ap (λ l. it ∷ l) split,
  ap₂ (λ off l. (it.offsetindex, off) ∷ l) at put,
  at_kept,
  low,
  first,
)

pub skip_in_place-Stopped :
    (items : List Item) (it : Item) (upper : ℕ)
    → Stopped upper (it ∷ items) (skip_in_place upper it items)
unfolding skip_in_place below_all
skip_in_place-Stopped [] it upper =
    Stopped-if _ upper (it ∷ []) _ _ (λ e. ([], refl, refl, refl, refl, inr ([], refl)))
      (λ e.
        Stopped-more upper it []
          (record { upper = upper - it.alignedlen; rest = []; itemidptr = it }) (ground arith)
          ([], refl, refl, refl, refl, inl refl))
skip_in_place-Stopped (next ∷ items) it upper =
    Stopped-if _ upper (it ∷ (next ∷ items)) _ _
      (λ e. ([], refl, refl, refl, refl, inr (next ∷ items, refl)))
      (λ e.
        Stopped-more upper it (next ∷ items) (skip_in_place (upper - it.alignedlen) next items)
          (ground arith) (skip_in_place-Stopped items next (upper - it.alignedlen)))
