-- ===== src/Freeze.antt =====
-- Freezing of tuples, src/access/pg_tdeam.c: a tuple's header with its bits, the cutoffs, and the state
-- that is kept for a page. The children have the routines.
pub mod Multi
pub mod Prepare
pub mod Seen
pub mod Kept
pub mod Deleter
pub mod Xmax
pub mod Visible
pub mod Total
pub mod Plans
pub mod Replay
pub mod Order
use pg_tde.Base.{ℕ, Bool, true, false, ◌&&◌, ◌||◌, not, Option, none, List, if◌then◌else◌, leb}
use pg_tde.RowLock.{MultiXactMember, Server, Infomask}
use pg_tde.RowLock.Members.{multi_xact_id_get_update_xid}
use pg_tde.Visibility.{Header}

-- `t_infomask` and `t_infomask2`; `other` is what the routines neither read nor set.
pub record Bits : Type 0 where
  pub xmin_committed : Bool
  pub xmin_invalid : Bool
  pub xmax_committed : Bool
  pub xmax_invalid : Bool
  pub xmax_is_multi : Bool
  pub lock_only : Bool
  pub keyshr_lock : Bool
  pub excl_lock : Bool
  pub moved_off : Bool
  pub moved_in : Bool
  pub keys_updated : Bool
  pub hot_updated : Bool
  pub other : ℕ

-- The header's fields; `field3` is `t_xvac` of a moved tuple and else the command ids.
pub record TupleHeader : Type 0 where
  pub raw_xmin : ℕ
  pub raw_xmax : ℕ
  pub field3 : ℕ
  pub bits : Bits

-- The server's macros. `HeapTupleHeaderGetXmin`:
abbrev pub get_xmin : TupleHeader → ℕ
get_xmin t = if t.bits.xmin_committed && t.bits.xmin_invalid then 2 else t.raw_xmin

-- `HeapTupleHeaderGetXvac`
abbrev pub get_xvac : TupleHeader → ℕ
get_xvac t = if t.bits.moved_off || t.bits.moved_in then t.field3 else 0

-- `HEAP_XMAX_IS_LOCKED_ONLY`
abbrev pub xmax_is_locked_only : Bits → Bool
xmax_is_locked_only b = b.lock_only || (not b.xmax_is_multi && (b.excl_lock && not b.keyshr_lock))

-- `HEAP_LOCKED_UPGRADED`
abbrev pub locked_upgraded : Bits → Bool
locked_upgraded b = b.xmax_is_multi && (b.lock_only && (not b.excl_lock && not b.keyshr_lock))

-- `TransactionIdIsNormal`
abbrev pub is_normal_xid : ℕ → Bool
is_normal_xid xid = leb 3 xid

-- `struct VacuumCutoffs`
pub record VacuumCutoffs : Type 0 where
  pub relfrozenxid : ℕ
  pub relminmxid : ℕ
  pub oldest_xmin : ℕ
  pub oldest_mxact : ℕ
  pub freeze_limit : ℕ
  pub multi_xact_cutoff : ℕ

-- `HeapPageFreeze`
pub record HeapPageFreeze : Type 0 where
  pub freeze_required : Bool
  pub freeze_page_relfrozen_xid : ℕ
  pub freeze_page_relmin_mxid : ℕ
  pub no_freeze_page_relfrozen_xid : ℕ
  pub no_freeze_page_relmin_mxid : ℕ

-- The server, with `TransactionIdPrecedes`, `MultiXactIdPrecedes` and `MultiXactIdCreateFromMembers`.
pub record FreezeServer : Type 0 where
  pub server : Server
  pub precedes : ℕ → ℕ → Bool
  pub multi_precedes : ℕ → ℕ → Bool
  pub create_from_members : List MultiXactMember → ℕ

-- The header as the visibility routines read it; `cmin`, `cmax` and `t_ctid` are of no concern to freezing.
abbrev pub view : Server → ℕ → ℕ → ℕ → TupleHeader → Header
view server cmin cmax t_ctid t = record {
  xmin_committed = t.bits.xmin_committed;
  xmin_invalid = t.bits.xmin_invalid;
  xmax_committed = t.bits.xmax_committed;
  xmax_invalid = t.bits.xmax_invalid;
  moved_off = t.bits.moved_off;
  moved_in = t.bits.moved_in;
  xmax_is_multi = t.bits.xmax_is_multi;
  lock_only = t.bits.lock_only;
  locked_only = xmax_is_locked_only t.bits;
  locked_upgraded = locked_upgraded t.bits;
  raw_xmin = t.raw_xmin;
  raw_xmax = t.raw_xmax;
  xvac = get_xvac t;
  update_xid = multi_xact_id_get_update_xid server t.raw_xmax;
  cmin = cmin;
  cmax = cmax;
  t_ctid = t_ctid;
  speculative_token = none;
}
