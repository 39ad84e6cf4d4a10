-- ===== src/Prune/Recrypts.antt =====
-- What compaction re-encrypts.
use pg_tde.Base.{
  arith, ℕ, ◌-◌, ◌≡◌, refl, ap, sym, ◌∙◌, Bool, true, false, not, ◌&&◌, ◌||◌, if◌then◌else◌, ◌⊎◌,
  inl, inr, List, [], ◌∷◌, ◌++◌, ltb, ◌==◌, all, ◌/◌, length,
}
use pg_tde.Prune.{
  Item, Step, keep, recrypt, move, set_line, Plan, item_end, when, Skipped, skip_in_place, plan,
  move_items, keep_items, move_rest, compactify_tuples,
}
use pg_tde.Prune.Places.{stacked, below_all, places, Stopped, skip_in_place-Stopped}

-- The tuples that the steps re-encrypt: where they lie, for where, and the length.
unfoldable pub recrypts_of : List Step → List (ℕ × ℕ × ℕ)
recrypts_of [] = []
recrypts_of (recrypt read_off write_off len ∷ steps) =
    (read_off, write_off, len) ∷ recrypts_of steps
recrypts_of (keep off size ∷ steps) = recrypts_of steps
recrypts_of (move to_off from_off size ∷ steps) = recrypts_of steps
recrypts_of (set_line offsetindex off ∷ steps) = recrypts_of steps

-- The length of the item after `it`, of `it` itself when it is the last.
abbrev pub next_len : Item → List Item → ℕ
next_len it [] = it.len
next_len it (next ∷ items) = next.len

-- Each item re-encrypted from its place to the one below `upper`, with the length of the next item.
unfoldable pub calls : ℕ → List Item → List (ℕ × ℕ × ℕ)
calls upper [] = []
calls upper (it ∷ items) =
    (it.itemoff, upper - it.alignedlen, next_len it items) ∷ calls (upper - it.alignedlen) items

recrypts_of-append : (a b : List Step) → recrypts_of (a ++ b) ≡ recrypts_of a ++ recrypts_of b
unfolding recrypts_of
recrypts_of-append [] b = refl
recrypts_of-append (recrypt r w len ∷ a) b = ap (λ l. (r, w, len) ∷ l) (recrypts_of-append a b)
recrypts_of-append (keep off size ∷ a) b = recrypts_of-append a b
recrypts_of-append (move to from size ∷ a) b = recrypts_of-append a b
recrypts_of-append (set_line i off ∷ a) b = recrypts_of-append a b

recrypts_of-when :
    (pending gap : Bool) (r w len to from size : ℕ) (rest : List Step)
    → recrypts_of (when pending (recrypt r w len) ++ (when gap (move to from size) ++ rest))
      ≡ (if pending then (r, w, len) ∷ recrypts_of rest else recrypts_of rest)
unfolding recrypts_of
recrypts_of-when true true r w len to from size rest = refl
recrypts_of-when true false r w len to from size rest = refl
recrypts_of-when false true r w len to from size rest = refl
recrypts_of-when false false r w len to from size rest = refl

abbrev pub has_size : Item → Bool
has_size it = ltb 0 it.alignedlen

if_true : {b : Bool} (x y : List (ℕ × ℕ × ℕ)) → b ≡ true → (if b then x else y) ≡ x
if_true x y e = ap (λ b. if b then x else y) e

if_false : {b : Bool} (x y : List (ℕ × ℕ × ℕ)) → b ≡ false → (if b then x else y) ≡ y
if_false x y e = ap (λ b. if b then x else y) e

if-append :
    (b : Bool) (x : ℕ × ℕ × ℕ) (l : List (ℕ × ℕ × ℕ))
    → (if b then x ∷ [] else []) ++ l ≡ (if b then x ∷ l else l)
if-append true x l = refl
if-append false x l = refl

move_items-end :
    (presorted : Bool) (it : Item) (head tail upper : ℕ)
    → recrypts_of (move_items presorted [] it head tail upper).steps
      ≡ (if ltb head tail then (head, upper, it.len) ∷ [] else [])
unfolding move_items recrypts_of
move_items-end presorted it head tail upper =
    recrypts_of-when (ltb head tail) false head upper it.len 0 0 0
      (move upper head (tail - head) ∷ [])

ltb_self : (n : ℕ) → ltb n n ≡ false
ltb_self n = ground arith

-- One round of the loop, with or without a tuple pending at `head`.
move_items-round :
    (presorted : Bool) (next : Item) (items : List Item) (it : Item) (head tail upper : ℕ)
    → let tail' =
        if not (head == item_end next) && (not presorted || ltb head tail)
        then item_end next
        else tail in
      let rest =
        recrypts_of
          (move_items presorted items next next.itemoff tail' (upper - next.alignedlen)).steps in
      recrypts_of (move_items presorted (next ∷ items) it head tail upper).steps
      ≡ (if ltb head tail then (head, upper, next.len) ∷ rest else rest)
unfolding move_items recrypts_of
move_items-round presorted next items it head tail upper =
    let gap = not (head == item_end next) && (not presorted || ltb head tail) in
    let rest =
      (move_items presorted items next next.itemoff (if gap then item_end next else tail)
        (upper - next.alignedlen)).steps in
    recrypts_of-append
      (when (ltb head tail) (recrypt head upper next.len)
        ++ (when gap (move upper head (tail - head))
            ++ (set_line next.offsetindex (upper - next.alignedlen) ∷ [])))
      rest
    ∙ (ap (λ l. l ++ recrypts_of rest)
          (recrypts_of-when (ltb head tail) gap head upper next.len upper head (tail - head)
            (set_line next.offsetindex (upper - next.alignedlen) ∷ []))
        ∙ if-append (ltb head tail) (head, upper, next.len) (recrypts_of rest))

-- With a tuple pending at `head` whose new place is `upper`.
move_items-pending :
    (presorted : Bool) (items : List Item) (it : Item) (head tail upper : ℕ)
    → ltb head tail ≡ true
    → all has_size items ≡ true
    → recrypts_of (move_items presorted items it head tail upper).steps
      ≡ (head, upper, next_len it items) ∷ calls upper items
unfolding calls
move_items-pending presorted [] it head tail upper pending sizes =
    move_items-end presorted it head tail upper
    ∙ ap (λ b. if b then (head, upper, it.len) ∷ [] else []) pending
move_items-pending presorted (next ∷ items) it head tail upper pending sizes =
    let tail' =
      if not (head == item_end next) && (not presorted || ltb head tail)
      then item_end next
      else tail in
    move_items-round presorted next items it head tail upper
    ∙ (if_true _ _ pending
        ∙ ap (λ l. (head, upper, next.len) ∷ l)
            (move_items-pending presorted items next next.itemoff tail' (upper - next.alignedlen)
              (ground arith) (ground arith)))

-- With none pending, and `head` at the end of the first item, if any.
move_items-calls :
    (presorted : Bool) (items : List Item) (it : Item) (upper : ℕ)
    → all has_size (it ∷ items) ≡ true
    → recrypts_of (move_items presorted (it ∷ items) it (item_end it) (item_end it) upper).steps
      ≡ calls upper (it ∷ items)
unfolding calls
move_items-calls presorted items it upper sizes =
    let head = item_end it in
    let tail' = if not (head == head) && (not presorted || ltb head head) then head else head in
    move_items-round presorted it items it head head upper
    ∙ (if_false _ _ (ltb_self (item_end it))
        ∙ move_items-pending presorted items it it.itemoff tail' (upper - it.alignedlen)
            (ground arith) (ground arith))

-- The plan leaves the first items where they are and re-encrypts each of the others, from its place to the one that
-- packing gives it, but with the length of the item after it.
abbrev pub Recrypted : ℕ → List Item → Plan → Type 0
Recrypted special items p =
    (kept : List Item) × (rest : List Item) × (items ≡ kept ++ rest)
    × (stacked special items ≡ places kept ++ stacked (below_all special kept) rest)
    × (recrypts_of p.steps ≡ calls (below_all special kept) rest)

Recrypted-if :
    (b : Bool) (special : ℕ) (items : List Item) (p p' : Plan)
    → Recrypted special items p
    → Recrypted special items p'
    → Recrypted special items (if b then p else p')
Recrypted-if true special items p p' h h' = h
Recrypted-if false special items p p' h h' = h'

Recrypted-plan :
    (special : ℕ) (items : List Item) (steps : List Step) (p : Plan)
    → recrypts_of steps ≡ []
    → Recrypted special items p
    → Recrypted special items (plan steps p)
Recrypted-plan special items steps p none_made (kept, rest, split, put, made) = (
  kept,
  rest,
  split,
  put,
  recrypts_of-append steps p.steps ∙ (ap (λ l. l ++ recrypts_of p.steps) none_made ∙ made),
)

recrypts_of-keep_items : (items : List Item) → recrypts_of (keep_items items) ≡ []
unfolding recrypts_of
recrypts_of-keep_items [] = refl
recrypts_of-keep_items (it ∷ items) = recrypts_of-keep_items items

all-append : (a b : List Item) → all has_size (a ++ b) ≡ true → all has_size b ≡ true
all-append [] b e = e
all-append (it ∷ a) b e = all-append a b (ground arith)

move_rest-recrypts :
    (presorted : Bool) (s : Skipped)
    → (s.rest ≡ []) ⊎ ((more : List Item) × (s.rest ≡ s.itemidptr ∷ more))
    → all has_size s.rest ≡ true
    → recrypts_of (move_rest presorted s).steps ≡ calls s.upper s.rest
unfolding calls
move_rest-recrypts presorted s first sizes =
    let head = item_end s.itemidptr in
    let run : (rest : List Item) → List (ℕ × ℕ × ℕ) =
      λ rest. recrypts_of (move_items presorted rest s.itemidptr head head s.upper).steps in
    elim first [
      | inl none_left ↦
          ap run none_left
          ∙ (move_items-end presorted s.itemidptr head head s.upper
              ∙ (if_false _ _ (ltb_self head) ∙ ap (calls s.upper) (sym none_left)))
      | inr (more, split) ↦
          ap run split
          ∙ (move_items-calls presorted more s.itemidptr s.upper
                (ap (all has_size) (sym split) ∙ sizes)
              ∙ ap (calls s.upper) (sym split))
    ]

move_rest-Recrypted :
    (presorted : Bool) (special : ℕ) (items : List Item) (s : Skipped)
    → all has_size items ≡ true
    → Stopped special items s
    → Recrypted special items (move_rest presorted s)
move_rest-Recrypted presorted special items s sizes (kept, split, put, at_kept, low, first) = (
  kept,
  s.rest,
  split,
  put ∙ ap (λ u. places kept ++ stacked u s.rest) at_kept,
  move_rest-recrypts presorted s first
        (all-append kept s.rest (ap (all has_size) (sym split) ∙ sizes))
      ∙ ap (λ u. calls u s.rest) at_kept,
)

-- Compaction re-encrypts each tuple that it moves once, from its old place on the page to the one that packing gives
-- it, but over as many bytes as the next tuple has, and the last one over its own: a tuple is re-encrypted as
-- a whole and nothing beyond it only when the next one is as long. Each tuple has some bytes.
pub compactify_tuples-Recrypted :
    (pd_special pd_upper max_offset : ℕ) (it : Item) (items : List Item) (presorted : Bool)
    → all has_size (it ∷ items) ≡ true
    → Recrypted pd_special
        (it ∷ items)
        (compactify_tuples pd_special pd_upper max_offset it items presorted)
unfolding compactify_tuples recrypts_of pg_tde.Prune.Places.below_all
compactify_tuples-Recrypted pd_special pd_upper max_offset it items presorted sizes =
    let skipped = skip_in_place pd_special it items in
    let stopped = skip_in_place-Stopped items it pd_special in
    let from_start : Skipped = record { upper = pd_special; rest = it ∷ items; itemidptr = it } in
    Recrypted-if presorted pd_special (it ∷ items) (move_rest true skipped) _
      (move_rest-Recrypted true pd_special (it ∷ items) skipped sizes stopped)
      (Recrypted-if (ltb (length (it ∷ items)) (max_offset / 4)) pd_special (it ∷ items)
        (plan (keep_items (it ∷ items)) (move_rest false from_start))
        (plan (keep pd_upper (skipped.upper - pd_upper) ∷ []) (move_rest false skipped))
        (Recrypted-plan pd_special (it ∷ items) (keep_items (it ∷ items))
          (move_rest false from_start) (recrypts_of-keep_items (it ∷ items))
          (move_rest-Recrypted false pd_special (it ∷ items) from_start sizes
            ([], refl, refl, refl, refl, inr (items, refl))))
        (Recrypted-plan pd_special (it ∷ items) (keep pd_upper (skipped.upper - pd_upper) ∷ [])
          (move_rest false skipped) refl
          (move_rest-Recrypted false pd_special (it ∷ items) skipped sizes stopped)))
