-- ===== src/RowLock.antt =====
-- Row locks, src/access/pg_tdeam.c: lock strengths, the statuses of multixact members, and the bits of
-- a tuple header that say who locked or updated it. The children have the routines.
pub mod Members
pub mod Xmax
pub mod Infobits
use pg_tde.Base.{ℕ, Bool, true, false, Option, none, some, List, if◌then◌else◌}

-- `LockTupleMode`, from the weakest.
pub data LockTupleMode : Type 0 where
  lock_tuple_key_share lock_tuple_share lock_tuple_no_key_exclusive lock_tuple_exclusive :
      LockTupleMode

-- `MultiXactStatus`
pub data MultiXactStatus : Type 0 where
  for_key_share for_share for_no_key_update for_update no_key_update update : MultiXactStatus

-- The heavyweight lock modes that `tupleLockExtraInfo` names.
pub data LockMode : Type 0 where
  access_share_lock row_share_lock exclusive_lock access_exclusive_lock : LockMode

pub record MultiXactMember : Type 0 where
  pub xid : ℕ
  pub status : MultiXactStatus

-- The number that `LockTupleMode` is in C.
abbrev pub strength : LockTupleMode → ℕ
strength lock_tuple_key_share = 0
strength lock_tuple_share = 1
strength lock_tuple_no_key_exclusive = 2
strength lock_tuple_exclusive = 3

-- `tupleLockExtraInfo[mode].hwlock`
abbrev pub hwlock : LockTupleMode → LockMode
hwlock lock_tuple_key_share = access_share_lock
hwlock lock_tuple_share = row_share_lock
hwlock lock_tuple_no_key_exclusive = exclusive_lock
hwlock lock_tuple_exclusive = access_exclusive_lock

-- `get_mxact_status_for_lock`; none is `elog(ERROR)`.
abbrev pub get_mxact_status_for_lock : LockTupleMode → Bool → Option MultiXactStatus
get_mxact_status_for_lock lock_tuple_key_share false = some for_key_share
get_mxact_status_for_lock lock_tuple_share false = some for_share
get_mxact_status_for_lock lock_tuple_no_key_exclusive false = some for_no_key_update
get_mxact_status_for_lock lock_tuple_exclusive false = some for_update
get_mxact_status_for_lock lock_tuple_no_key_exclusive true = some no_key_update
get_mxact_status_for_lock lock_tuple_exclusive true = some update
get_mxact_status_for_lock lock_tuple_key_share true = none
get_mxact_status_for_lock lock_tuple_share true = none

-- `MultiXactStatusLock`, read by `TUPLOCK_from_mxstatus`.
abbrev pub tuplock_from_mxstatus : MultiXactStatus → LockTupleMode
tuplock_from_mxstatus for_key_share = lock_tuple_key_share
tuplock_from_mxstatus for_share = lock_tuple_share
tuplock_from_mxstatus for_no_key_update = lock_tuple_no_key_exclusive
tuplock_from_mxstatus for_update = lock_tuple_exclusive
tuplock_from_mxstatus no_key_update = lock_tuple_no_key_exclusive
tuplock_from_mxstatus update = lock_tuple_exclusive

-- The server's macro `ISUPDATE_from_mxstatus`.
abbrev pub isupdate_from_mxstatus : MultiXactStatus → Bool
isupdate_from_mxstatus no_key_update = true
isupdate_from_mxstatus update = true
isupdate_from_mxstatus _ = false

-- `LOCKMODE_from_mxstatus`
abbrev pub lockmode_from_mxstatus : MultiXactStatus → LockMode
lockmode_from_mxstatus s = hwlock (tuplock_from_mxstatus s)

-- The bits of `t_infomask` and `t_infomask2` that the routines read or set: `HEAP_XMAX_IS_MULTI`,
-- `LOCK_ONLY`, `KEYSHR_LOCK`, `EXCL_LOCK` (`SHR_LOCK` is these two), `COMMITTED`, `INVALID`, and
-- `HEAP_KEYS_UPDATED`.
pub record Infomask : Type 0 where
  pub is_multi : Bool
  pub lock_only : Bool
  pub keyshr_lock : Bool
  pub excl_lock : Bool
  pub xmax_committed : Bool
  pub xmax_invalid : Bool
  pub keys_updated : Bool

-- What the routines ask the server: the state of transactions, the members of a multixact (none where
-- `GetMultiXactIdMembers` gives a negative count), new multixacts, and whether lock modes conflict.
pub record Server : Type 0 where
  pub is_current : ℕ → Bool
  pub in_progress : ℕ → Bool
  pub did_abort : ℕ → Bool
  pub did_commit : ℕ → Bool
  pub multi_running : ℕ → Bool → Bool
  pub members : ℕ → Option (List MultiXactMember)
  pub multi_create : ℕ → MultiXactStatus → ℕ → MultiXactStatus → ℕ
  pub multi_expand : ℕ → ℕ → MultiXactStatus → ℕ
  pub lock_modes_conflict : LockMode → LockMode → Bool
