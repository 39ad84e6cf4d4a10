-- ===== src/Prune/Repair/Room.antt =====
-- The room on a page after `TdePageRepairFragmentation`.
use pg_tde.Base.{
  arith, ℕ, ◌+◌, ◌-◌, ◌≤◌, ◌≡◌, refl, subst, ◌∙◌, Bool, true, false, Option, none, some,
  if◌then◌else◌, List, [], ◌∷◌, ◌++◌, length,
}
use pg_tde.Prune.{Item, Line, unused, without_storage, stored, maxalign, compactify_tuples}
use pg_tde.Prune.Places.{below_all}
use pg_tde.Prune.Lines.{compactify_tuples-Packed}
use pg_tde.Prune.Repair.{
  Collected, collect, start, Repaired, finish, compact, repair_collected, repair_fragmentation,
}

-- The room that the tuples with storage take.
abbrev pub stored_size : List Line → ℕ
stored_size [] = 0
stored_size (stored off len ∷ lines) = maxalign len + stored_size lines
stored_size (_ ∷ lines) = stored_size lines

abbrev items_size : List Item → ℕ
items_size [] = 0
items_size (it ∷ items) = it.alignedlen + items_size items

items_size-append : (a b : List Item) → items_size (a ++ b) ≡ items_size a + items_size b
items_size-append [] b = omega arith
items_size-append (it ∷ a) b = omega (arith, items_size-append a b)

below_all-items_size :
    (items : List Item) (upper : ℕ) → below_all upper items ≡ upper - items_size items
unfolding below_all
below_all-items_size [] upper = omega arith
below_all-items_size (it ∷ items) upper =
    omega (arith, below_all-items_size items (upper - it.alignedlen))

-- What the loop has counted.
abbrev Counted : ℕ → Option Collected → Type 0
Counted n none = Unit {0}
Counted n (some c) = (c.totallen ≡ n) × (items_size c.items ≡ n)

Counted-if :
    (b : Bool) (n : ℕ) (o : Option Collected) → Counted n o → Counted n (if b then none else o)
Counted-if true n o h = tt
Counted-if false n o h = h

Counted-eq : (n k : ℕ) (o : Option Collected) → n ≡ k → Counted n o → Counted k o
Counted-eq n k o e h = subst (λ j. Counted j o) e h

collect-Counted :
    (pd_upper pd_special i : ℕ) (lines : List Line) (c : Collected) (n : ℕ)
    → c.totallen ≡ n
    → items_size c.items ≡ n
    → Counted (n + stored_size lines) (collect pd_upper pd_special i lines c)
unfolding collect
collect-Counted pd_upper pd_special i [] c n total size = (omega arith, omega arith)
collect-Counted pd_upper pd_special i (unused ∷ lines) c n total size =
    collect-Counted pd_upper pd_special (i + 1) lines _ n total size
collect-Counted pd_upper pd_special i (without_storage ∷ lines) c n total size =
    collect-Counted pd_upper pd_special (i + 1) lines _ n total size
collect-Counted pd_upper pd_special i (stored off len ∷ lines) c n total size = Counted-if _ _ _ (
    Counted-eq (n + maxalign len + stored_size lines) _ _ (omega arith) (
      collect-Counted pd_upper pd_special (i + 1) lines _ (n + maxalign len) (omega arith)
        (items_size-append c.items _ ∙ omega arith)))

-- The header that results, if the page is not refused.
abbrev pub Fits : ℕ → ℕ → Option Repaired → Type 0
Fits pd_special n none = Unit {0}
Fits pd_special n (some r) = (r.pd_upper + n ≡ pd_special) × (r.pd_lower ≤ r.pd_upper)

Fits-if :
    (b : Bool) (pd_special n : ℕ) (o : Option Repaired)
    → (b ≡ false → Fits pd_special n o)
    → Fits pd_special n (if b then none else o)
Fits-if true pd_special n o h = tt
Fits-if false pd_special n o h = h refl

compact-Fits :
    (nline pd_lower pd_upper pd_special : ℕ) (c : Collected) (items : List Item) (n : ℕ)
    → pd_lower ≤ pd_special
    → c.totallen ≡ n
    → items_size items ≡ n
    → Fits pd_special n (compact nline pd_lower pd_upper pd_special c items)
unfolding compact
compact-Fits nline pd_lower pd_upper pd_special c [] n near total size = (omega arith, omega arith)
compact-Fits nline pd_lower pd_upper pd_special c (it ∷ items) n near total size =
    let packed = compactify_tuples-Packed pd_special pd_upper nline it items c.presorted in
    let p = compactify_tuples pd_special pd_upper nline it items c.presorted in
    let at : p.upper ≡ pd_special - items_size (it ∷ items) =
      packed.4 ∙ below_all-items_size (it ∷ items) pd_special in
    Fits-if _ pd_special n (some (finish nline pd_lower c p.upper (some p)))
      (λ fits. (ground arith, ground arith))

collected-Fits :
    (nline pd_lower pd_upper pd_special : ℕ) (o : Option Collected) (n : ℕ)
    → pd_lower ≤ pd_special
    → Counted n o
    → Fits pd_special n (repair_collected nline pd_lower pd_upper pd_special o)
collected-Fits nline pd_lower pd_upper pd_special none n near counted = tt
collected-Fits nline pd_lower pd_upper pd_special (some c) n near counted =
    compact-Fits nline pd_lower pd_upper pd_special c c.items n near counted.0 counted.1

repair_fragmentation-Fits :
    (pd_lower pd_upper pd_special : ℕ) (lines : List Line)
    → Fits pd_special (stored_size lines) (repair_fragmentation pd_lower pd_upper pd_special lines)
unfolding repair_fragmentation
repair_fragmentation-Fits pd_lower pd_upper pd_special lines =
    Fits-if _ pd_special (stored_size lines) _ (λ good.
      collected-Fits (length lines) pd_lower pd_upper pd_special _ (stored_size lines)
        (ground arith)
        (Counted-eq (0 + stored_size lines) (stored_size lines) _ (omega arith)
          (collect-Counted pd_upper pd_special 1 lines (start pd_special) 0 refl refl)))

-- A page that TdePageRepairFragmentation does not refuse keeps room for all: the tuples with storage take exactly the
-- space from the new pd_upper to pd_special, each with its aligned length, and the line pointer array ends below it.
pub repair_fragmentation-room :
    (pd_lower pd_upper pd_special : ℕ) (lines : List Line) (r : Repaired)
    → repair_fragmentation pd_lower pd_upper pd_special lines ≡ some r
    → (r.pd_upper + stored_size lines ≡ pd_special) × (r.pd_lower ≤ r.pd_upper)
repair_fragmentation-room pd_lower pd_upper pd_special lines r e =
    subst (Fits pd_special (stored_size lines)) e
      (repair_fragmentation-Fits pd_lower pd_upper pd_special lines)
