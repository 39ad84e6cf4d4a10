-- ===== src/Prune/Lines.antt =====
-- Where compaction puts the tuples.
use pg_tde.Base.{
  ℕ, ◌-◌, ◌≡◌, refl, ap, ap₂, sym, ◌∙◌, Bool, true, false, not, ◌&&◌, ◌||◌, if◌then◌else◌, inr,
  List, [], ◌∷◌, ◌++◌, ltb, ◌==◌,
}
use pg_tde.Prune.{
  Item, Step, keep, recrypt, move, set_line, Plan, item_end, when, Skipped, skip_in_place, plan,
  move_items, keep_items, move_rest, compactify_tuples,
}
use pg_tde.Prune.Places.{stacked, below_all, places, Stopped, skip_in_place-Stopped}

-- The line pointers that the steps set.
unfoldable pub lines_of : List Step → List (ℕ × ℕ)
lines_of [] = []
lines_of (set_line offsetindex off ∷ steps) = (offsetindex, off) ∷ lines_of steps
lines_of (keep off size ∷ steps) = lines_of steps
lines_of (recrypt read_off write_off len ∷ steps) = lines_of steps
lines_of (move to_off from_off size ∷ steps) = lines_of steps

lines_of-append : (a b : List Step) → lines_of (a ++ b) ≡ lines_of a ++ lines_of b
unfolding lines_of
lines_of-append [] b = refl
lines_of-append (set_line i off ∷ a) b = ap (λ l. (i, off) ∷ l) (lines_of-append a b)
lines_of-append (keep off size ∷ a) b = lines_of-append a b
lines_of-append (recrypt r w len ∷ a) b = lines_of-append a b
lines_of-append (move to from size ∷ a) b = lines_of-append a b

lines_of-when_recrypt :
    (b : Bool) (r w len : ℕ) (rest : List Step)
    → lines_of (when b (recrypt r w len) ++ rest) ≡ lines_of rest
unfolding lines_of
lines_of-when_recrypt true r w len rest = refl
lines_of-when_recrypt false r w len rest = refl

lines_of-when_move :
    (b : Bool) (to from size : ℕ) (rest : List Step)
    → lines_of (when b (move to from size) ++ rest) ≡ lines_of rest
unfolding lines_of
lines_of-when_move true to from size rest = refl
lines_of-when_move false to from size rest = refl

move_items-lines :
    (presorted : Bool) (items : List Item) (it : Item) (head tail upper : ℕ)
    → (lines_of (move_items presorted items it head tail upper).steps ≡ stacked upper items)
      × ((move_items presorted items it head tail upper).upper ≡ below_all upper items)
unfolding move_items stacked below_all lines_of
move_items-lines presorted [] it head tail upper =
    (lines_of-when_recrypt (ltb head tail) head upper it.len _, refl)
move_items-lines presorted (next ∷ items) it head tail upper =
    let rest = move_items-lines presorted items next next.itemoff _ (upper - next.alignedlen) in
    let own =
      lines_of-when_recrypt (ltb head tail) head upper next.len _
      ∙ lines_of-when_move (not (head == item_end next) && (not presorted || ltb head tail)) upper
          head (tail - head) _ in
    (
      lines_of-append (when (ltb head tail) (recrypt head upper next.len) ++ _) _
          ∙ ap₂ (λ a b. a ++ b) own rest.0,
      rest.1,
    )

lines_of-keep_items :
    (items : List Item) (rest : List Step) → lines_of (keep_items items ++ rest) ≡ lines_of rest
unfolding lines_of
lines_of-keep_items [] rest = refl
lines_of-keep_items (it ∷ items) rest = lines_of-keep_items items rest

-- The items of a page whose `pd_special` is `special` lie side by side once the plan is carried out.
abbrev pub Packed : ℕ → List Item → Plan → Type 0
Packed special items p =
    (kept : List Item) × (rest : List Item) × (items ≡ kept ++ rest)
    × (stacked special items ≡ places kept ++ lines_of p.steps)
    × (p.upper ≡ below_all special items)

Packed-if :
    (b : Bool) (special : ℕ) (items : List Item) (p p' : Plan)
    → Packed special items p
    → Packed special items p'
    → Packed special items (if b then p else p')
Packed-if true special items p p' h h' = h
Packed-if false special items p p' h h' = h'

Packed-plan :
    (special : ℕ) (items : List Item) (steps : List Step) (p : Plan)
    → ((rest : List Step) → lines_of (steps ++ rest) ≡ lines_of rest)
    → Packed special items p
    → Packed special items (plan steps p)
Packed-plan special items steps p none_set (kept, rest, split, put, low) =
    (kept, rest, split, put ∙ ap (λ l. places kept ++ l) (sym (none_set p.steps)), low)

move_rest-Packed :
    (presorted : Bool) (special : ℕ) (items : List Item) (s : Skipped)
    → Stopped special items s
    → Packed special items (move_rest presorted s)
move_rest-Packed presorted special items s (kept, split, put, at_kept, low, first) =
    let moved =
      move_items-lines presorted s.rest s.itemidptr (item_end s.itemidptr) (item_end s.itemidptr)
        s.upper in
    (kept, s.rest, split, put ∙ ap (λ l. places kept ++ l) (sym moved.0), moved.1 ∙ sym low)

-- Compaction packs the page: pgtde_compactify_tuples leaves some of the first tuples where they are and sets the line
-- pointers of the others, in the order of the items, so that all tuples then lie side by side below pd_special, the
-- first on top, with no gap; and pd_upper becomes the start of the last.
pub compactify_tuples-Packed :
    (pd_special pd_upper max_offset : ℕ) (it : Item) (items : List Item) (presorted : Bool)
    → Packed pd_special
        (it ∷ items)
        (compactify_tuples pd_special pd_upper max_offset it items presorted)
unfolding compactify_tuples lines_of pg_tde.Prune.Places.below_all
compactify_tuples-Packed pd_special pd_upper max_offset it items presorted =
    let all = it ∷ items in
    let skipped = skip_in_place pd_special it items in
    let placed = skip_in_place-Stopped items it pd_special in
    Packed-if presorted pd_special all _ _ (move_rest-Packed true pd_special all _ placed) (
      Packed-if _ pd_special all _ _
        (Packed-plan pd_special all (keep_items all) _ (lines_of-keep_items all)
          (move_rest-Packed false pd_special all _ ([], refl, refl, refl, refl, inr (items, refl))))
        (Packed-plan pd_special all (keep pd_upper (skipped.upper - pd_upper) ∷ [])
          (move_rest false skipped) (λ rest. refl)
          (move_rest-Packed false pd_special all _ placed)))
