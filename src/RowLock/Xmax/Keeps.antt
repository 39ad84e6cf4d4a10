-- ===== src/RowLock/Xmax/Keeps.antt =====
-- A row lock keeps what the header told of the earlier holder.
use pg_tde.Base.{
  arith, ℕ, ◌≡◌, ◌≢◌, refl, ap, sym, ◌∙◌, Bool, true, false, ◌&&◌, ◌||◌, Option, none, some, ◌⊎◌,
  inl, inr, List, [], ◌∷◌, ◌++◌, any, if◌then◌else◌,
}
use pg_tde.RowLock.{
  LockTupleMode, lock_tuple_key_share, lock_tuple_share, lock_tuple_no_key_exclusive,
  lock_tuple_exclusive, MultiXactStatus, for_key_share, for_share, for_no_key_update, for_update,
  MultiXactMember, isupdate_from_mxstatus, get_mxact_status_for_lock, Infomask, Server,
}
use pg_tde.RowLock.Members.{
  first_updater, no_members, multi_xact_id_get_update_xid, get_multi_xact_id_hint_bits,
}
use pg_tde.RowLock.Members.HintBits.{get_multi_xact_id_hint_bits_lem}
use pg_tde.RowLock.Xmax.{
  NewXmax, is_locked_only, sole_xmax, update_status, held_status, multi_xmax, join_xmax,
  running_xmax, expand_xmax, compute_new_xmax_infomask,
}

-- The bits that a lock or an update by one transaction leaves in the header tell its status, where it has one.
pub held_status-sole_xmax :
    (add_to_xmax : ℕ) (mode : LockTupleMode) (is_update : Bool) (status : MultiXactStatus)
    → get_mxact_status_for_lock mode is_update ≡ some status
    → held_status (sole_xmax add_to_xmax mode is_update).infomask ≡ some status
unfolding held_status sole_xmax
held_status-sole_xmax add_to_xmax lock_tuple_key_share false status e = e
held_status-sole_xmax add_to_xmax lock_tuple_share false status e = e
held_status-sole_xmax add_to_xmax lock_tuple_no_key_exclusive false status e = e
held_status-sole_xmax add_to_xmax lock_tuple_exclusive false status e = e
held_status-sole_xmax add_to_xmax lock_tuple_key_share true status e = ground arith
held_status-sole_xmax add_to_xmax lock_tuple_share true status e = ground arith
held_status-sole_xmax add_to_xmax lock_tuple_no_key_exclusive true status e = e
held_status-sole_xmax add_to_xmax lock_tuple_exclusive true status e = e

first_updater-any :
    (ms : List MultiXactMember)
    → first_updater ms ≢ 0
    → any (λ m. isupdate_from_mxstatus m.status) ms ≡ true
unfolding first_updater
first_updater-any [] some_updater = absurd (some_updater refl)
first_updater-any (m ∷ ms) some_updater = ground (arith, first_updater-any ms)

first_updater-kept :
    (keep : Bool) (m : MultiXactMember) (ms more : List MultiXactMember)
    → first_updater ((if keep then m ∷ ms else ms) ++ more)
      ≡ (if keep && isupdate_from_mxstatus m.status then m.xid else first_updater (ms ++ more))
unfolding first_updater
first_updater-kept true m ms more = refl
first_updater-kept false m ms more = refl

update_status-isupdate : (old : Infomask) → isupdate_from_mxstatus (update_status old) ≡ true
update_status-isupdate old = ground arith

module _ (server : Server) where
  -- The transaction that updated or deleted the row version with this xmax, 0 for none.
  unfoldable pub updater : ℕ → Infomask → ℕ
  updater xmax m =
      if m.xmax_invalid || is_locked_only m
      then 0
      else if m.is_multi
      then multi_xact_id_get_update_xid server xmax
      else xmax

  unfoldable pub updater_of : Option NewXmax → Option ℕ
  updater_of none = none
  updater_of (some new) = some (updater new.xmax new.infomask)

  -- A transaction whose update stands or may yet stand.
  abbrev pub alive : ℕ → Bool
  alive xid = server.in_progress xid || server.did_commit xid

  -- The members that the server's `MultiXactIdExpand` takes over into the new multixact.
  unfoldable pub kept_members : List MultiXactMember → List MultiXactMember
  kept_members [] = []
  kept_members (m ∷ ms) =
      if server.in_progress m.xid || (isupdate_from_mxstatus m.status && server.did_commit m.xid)
      then m ∷ kept_members ms
      else kept_members ms

  multi-updater :
      (multi : ℕ)
      → multi_xact_id_get_update_xid server multi ≢ 0
      → updater multi (get_multi_xact_id_hint_bits server multi)
        ≡ multi_xact_id_get_update_xid server multi
  unfolding updater get_multi_xact_id_hint_bits multi_xact_id_get_update_xid
  multi-updater multi some_updater = ground (
    arith,
    first_updater-any (no_members (server.members multi)) some_updater,
    get_multi_xact_id_hint_bits_lem server multi,
  )

  multi_xmax-updater :
      (make : MultiXactStatus → ℕ) (mode : LockTupleMode) (u : ℕ)
      → u ≢ 0
      → ((lock : MultiXactStatus) → multi_xact_id_get_update_xid server (make lock) ≡ u)
      → updater_of (multi_xmax server make (get_mxact_status_for_lock mode false)) ≡ some u
  unfolding multi_xmax updater_of
  multi_xmax-updater make mode u real keeps =
      let made : (lock : MultiXactStatus)
          → updater (make lock) (get_multi_xact_id_hint_bits server (make lock)) ≡ u =
        λ lock. multi-updater (make lock) (λ z. real (sym (keeps lock) ∙ z)) ∙ keeps lock in
      elim mode
        as (λ k. updater_of (multi_xmax server make (get_mxact_status_for_lock k false)) ≡ some u) [
          | lock_tuple_key_share ↦ ap some (made for_key_share)
          | lock_tuple_share ↦ ap some (made for_share)
          | lock_tuple_no_key_exclusive ↦ ap some (made for_no_key_update)
          | lock_tuple_exclusive ↦ ap some (made for_update)
        ]

  kept_members-first_updater :
      (ms more : List MultiXactMember)
      → first_updater ms ≢ 0
      → alive (first_updater ms) ≡ true
      → first_updater (kept_members ms ++ more) ≡ first_updater ms
  unfolding first_updater kept_members
  kept_members-first_updater [] more some_updater lives = absurd (some_updater refl)
  kept_members-first_updater (m ∷ ms) more some_updater lives =
      first_updater-kept _ m (kept_members ms) more
      ∙ ground (arith, kept_members-first_updater ms more)

  module _ (xmax : ℕ) (old : Infomask) (add_to_xmax : ℕ) (mode : LockTupleMode)
      (create : (status lock : MultiXactStatus)
        → server.members (server.multi_create xmax status add_to_xmax lock)
          ≡ some (
              record { xid = xmax; status = status }
              ∷ (record { xid = add_to_xmax; status = lock } ∷ [])))
      (expand : (lock : MultiXactStatus)
        → (server.multi_expand xmax add_to_xmax lock ≡ xmax)
          ⊎ (server.members (server.multi_expand xmax add_to_xmax lock)
              ≡ some (
                  kept_members (no_members (server.members xmax))
                  ++ (record { xid = add_to_xmax; status = lock } ∷ []))))
      (running : server.multi_running xmax false ≡ false
        → server.in_progress (multi_xact_id_get_update_xid server xmax) ≡ false)
      (some_updater : updater xmax old ≢ 0) (lives : alive (updater xmax old) ≡ true)
      (other : updater xmax old ≢ add_to_xmax) where
    create-first_updater :
        (status lock : MultiXactStatus)
        → isupdate_from_mxstatus status ≡ true
        → multi_xact_id_get_update_xid server (server.multi_create xmax status add_to_xmax lock)
          ≡ xmax
    unfolding multi_xact_id_get_update_xid first_updater
    create-first_updater status lock e =
        ap (λ o. first_updater (no_members o)) (create status lock)
        ∙ ap
            (λ b.
              if b then xmax else first_updater (record { xid = add_to_xmax; status = lock } ∷ []))
            e

    expand-first_updater :
        multi_xact_id_get_update_xid server xmax ≢ 0
        → alive (multi_xact_id_get_update_xid server xmax) ≡ true
        → (lock : MultiXactStatus)
        → multi_xact_id_get_update_xid server (server.multi_expand xmax add_to_xmax lock)
          ≡ multi_xact_id_get_update_xid server xmax
    unfolding multi_xact_id_get_update_xid
    expand-first_updater real up lock = elim (expand lock) [
      | inl same ↦ ap (multi_xact_id_get_update_xid server) same
      | inr new ↦
          ap (λ o. first_updater (no_members o)) new
          ∙ kept_members-first_updater (no_members (server.members xmax)) _ real up
    ]

    join_xmax-updater :
        xmax ≢ 0
        → updater_of (join_xmax server xmax (update_status old) add_to_xmax mode false) ≡ some xmax
    unfolding join_xmax
    join_xmax-updater real =
        multi_xmax-updater _ mode xmax real
          (λ lock. create-first_updater (update_status old) lock (update_status-isupdate old))

    expand_xmax-updater :
        is_locked_only old ≡ false
        → multi_xact_id_get_update_xid server xmax ≢ 0
        → alive (multi_xact_id_get_update_xid server xmax) ≡ true
        → updater_of (expand_xmax server xmax old add_to_xmax mode false)
          ≡ some (multi_xact_id_get_update_xid server xmax)
    unfolding expand_xmax
    expand_xmax-updater not_lock real up = ground (
      arith,
      multi_xmax-updater (server.multi_expand xmax add_to_xmax) mode _ real
          (expand-first_updater real up),
      running,
    )

    -- A lock leaves the row's update in place: when the row version was updated or deleted by a transaction
    -- other than the locking one that is in progress or committed, compute_new_xmax_infomask for a lock of any mode
    -- returns, and its new xmax and bits name the same updating transaction. It is assumed that a new multixact
    -- has its two members, that an expanded one is the old one or has the running members and the committed updater
    -- before the new one, and that a multixact with a running updater is running.
    pub compute_new_xmax_infomask-updater :
        updater_of (compute_new_xmax_infomask server xmax old add_to_xmax mode false)
        ≡ some (updater xmax old)
    unfolding compute_new_xmax_infomask running_xmax updater held_status
    compute_new_xmax_infomask-updater = ground (arith, expand_xmax-updater, join_xmax-updater)
