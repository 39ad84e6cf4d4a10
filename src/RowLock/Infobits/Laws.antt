-- ===== src/RowLock/Infobits/Laws.antt =====
-- Lock bits in WAL records and back.
use pg_tde.Base.{arith, ◌≡◌, Bool, false, bit_or}
use pg_tde.RowLock.{Infomask}
use pg_tde.RowLock.Infobits.{
  flag, compute_infobits, fix_infomask_from_infobits, xmax_infomask_changed,
}

bits_back :
    (a b c d e : Bool)
    → (old : Infomask)
    → fix_infomask_from_infobits
        (bit_or (flag a 1) (bit_or (flag b 2) (bit_or (flag c 4) (bit_or (flag d 8) (flag e 16)))))
        old
      ≡ record old { is_multi = a; lock_only = b; excl_lock = c; keyshr_lock = d; keys_updated = e }
unfolding fix_infomask_from_infobits
bits_back a b c d e old = ground arith

not_changed :
    (m : Infomask)
    → (old : Infomask)
    → xmax_infomask_changed (fix_infomask_from_infobits (compute_infobits m) old) m ≡ false
unfolding fix_infomask_from_infobits xmax_infomask_changed compute_infobits
not_changed m old = ground arith

-- The lock bits that a WAL record carries are the ones that replay puts into the header: the header then has
-- the five bits of the header that was logged, keeps its own XMAX_COMMITTED and XMAX_INVALID, and
-- xmax_infomask_changed sees no difference.
pub fix_infomask_from_infobits-compute_infobits :
    (m old : Infomask)
    → (fix_infomask_from_infobits (compute_infobits m) old
        ≡ record m { xmax_committed = old.xmax_committed; xmax_invalid = old.xmax_invalid })
      × (xmax_infomask_changed (fix_infomask_from_infobits (compute_infobits m) old) m ≡ false)
unfolding compute_infobits
fix_infomask_from_infobits-compute_infobits m old = (
  bits_back m.is_multi m.lock_only m.excl_lock m.keyshr_lock m.keys_updated old,
  not_changed m old,
)
