-- ===== src/Visibility/Unhinted.antt =====
-- A header without its hint bits, and that the tests for vacuum change nothing else.
use pg_tde.Base.{arith, ℕ, ◌≡◌, ◌∙◌, false}
use pg_tde.Visibility.{
  Header, Transactions, Hint, heap_xmin_committed, heap_xmin_invalid, heap_xmax_committed,
  heap_xmax_invalid, set_hint_bits,
}
use pg_tde.Visibility.Vacuum.{
  vacuum_locked, vacuum_xmax, vacuum_moved, horizon_unmarked, heap_tuple_satisfies_vacuum_horizon,
  heap_tuple_satisfies_vacuum,
}

abbrev pub unhinted : Header → Header
unhinted t = record t {
  xmin_committed = false;
  xmin_invalid = false;
  xmax_committed = false;
  xmax_invalid = false;
}

unhinted-vacuum_xmax :
    (tx : Transactions) (t : Header) → unhinted (vacuum_xmax tx t).header ≡ unhinted t
unfolding vacuum_xmax vacuum_locked set_hint_bits
unhinted-vacuum_xmax tx t = ground arith

unhinted-set_hint_bits :
    (tx : Transactions) (hint : Hint) (xid : ℕ) (t : Header)
    → unhinted (set_hint_bits tx hint xid t) ≡ unhinted t
unfolding set_hint_bits
unhinted-set_hint_bits tx heap_xmin_committed xid t = ground arith
unhinted-set_hint_bits tx heap_xmin_invalid xid t = ground arith
unhinted-set_hint_bits tx heap_xmax_committed xid t = ground arith
unhinted-set_hint_bits tx heap_xmax_invalid xid t = ground arith

-- The look at the deleting transaction after the hint bit about the inserting one.
unhinted-after :
    (tx : Transactions) (hint : Hint) (xid : ℕ) (t : Header)
    → unhinted (vacuum_xmax tx (set_hint_bits tx hint xid t)).header ≡ unhinted t
unhinted-after tx hint xid t =
    unhinted-vacuum_xmax tx (set_hint_bits tx hint xid t) ∙ unhinted-set_hint_bits tx hint xid t

pub unhinted-horizon :
    (tx : Transactions) (t : Header)
    → unhinted (heap_tuple_satisfies_vacuum_horizon tx t).header ≡ unhinted t
unfolding heap_tuple_satisfies_vacuum_horizon horizon_unmarked vacuum_moved
unhinted-horizon tx t = ground (
  arith,
  unhinted-vacuum_xmax tx t,
  unhinted-after tx heap_xmin_committed 0 t,
  unhinted-after tx heap_xmin_committed t.raw_xmin t,
  unhinted-set_hint_bits tx heap_xmin_invalid 0 t,
)

pub unhinted-vacuum :
    (tx : Transactions) (oldest_xmin : ℕ) (t : Header)
    → unhinted (heap_tuple_satisfies_vacuum tx oldest_xmin t).header ≡ unhinted t
unfolding heap_tuple_satisfies_vacuum
unhinted-vacuum tx oldest_xmin t = ground (arith, unhinted-horizon tx t)
