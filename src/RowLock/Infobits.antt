-- ===== src/RowLock/Infobits.antt =====
-- The lock bits of a header as WAL records carry them: `compute_infobits` and
-- `fix_infomask_from_infobits`, and `xmax_infomask_changed`.
pub mod Laws
use pg_tde.Base.{
  ℕ, ◌+◌, ◌≡◌, refl, bit_and, bit_or, Bool, true, false, ◌&&◌, ◌||◌, not, if◌then◌else◌, ltb, ◌==◌,
}
use pg_tde.RowLock.{Infomask}

abbrev pub flag : Bool → ℕ → ℕ
flag b bit = if b then bit else 0

-- `compute_infobits`, with the bits `XLHL_*` of src/include/access/pg_tdeam_xlog.h.
unfoldable pub compute_infobits : Infomask → ℕ
compute_infobits m = bit_or (flag m.is_multi 1) (
    bit_or (flag m.lock_only 2)
      (bit_or (flag m.excl_lock 4) (bit_or (flag m.keyshr_lock 8) (flag m.keys_updated 16))))

abbrev pub has : ℕ → ℕ → Bool
has infobits bit = not (bit_and infobits bit == 0)

-- `fix_infomask_from_infobits`
unfoldable pub fix_infomask_from_infobits : ℕ → Infomask → Infomask
fix_infomask_from_infobits infobits m = record m {
  is_multi = has infobits 1;
  lock_only = has infobits 2;
  excl_lock = has infobits 4;
  keyshr_lock = has infobits 8;
  keys_updated = has infobits 16;
}

abbrev pub differs : Bool → Bool → Bool
differs true b = not b
differs false b = b

-- `xmax_infomask_changed`
unfoldable pub xmax_infomask_changed : Infomask → Infomask → Bool
xmax_infomask_changed new old =
    differs new.is_multi old.is_multi
    || (differs new.lock_only old.lock_only
        || (differs new.excl_lock old.excl_lock || differs new.keyshr_lock old.keyshr_lock))
