-- ===== src/RowLock/Members/HintBits.antt =====
-- The header bits for the members of a multixact.
use pg_tde.Base.{arith, ℕ, ◌≡◌, refl, ap, ◌∙◌, Bool, true, ◌||◌, not, List, [], ◌∷◌, any, ltb}
use pg_tde.RowLock.{
  LockTupleMode, lock_tuple_key_share, lock_tuple_share, lock_tuple_no_key_exclusive,
  lock_tuple_exclusive, MultiXactMember, strength, tuplock_from_mxstatus, isupdate_from_mxstatus,
  Infomask, Server,
}
use pg_tde.RowLock.Members.{
  Scan, stronger, sets_keys_updated, scan_members, excl_bit, keyshr_bit, no_members,
  get_multi_xact_id_hint_bits,
}

-- Whether a member holds more than the mode of strength `n`.
abbrev pub above : ℕ → MultiXactMember → Bool
above n m = ltb n (strength (tuplock_from_mxstatus m.status))

or_assoc : (a b c : Bool) → ((a || b) || c) ≡ (a || (b || c))
or_assoc a b c = ground arith

scan_members-keys_updated :
    (ms : List MultiXactMember) (s : Scan)
    → (scan_members ms s).keys_updated
      ≡ (s.keys_updated || any (λ m. sets_keys_updated m.status) ms)
unfolding scan_members
scan_members-keys_updated [] s = ground arith
scan_members-keys_updated (m ∷ ms) s =
    scan_members-keys_updated ms _ ∙ or_assoc s.keys_updated (sets_keys_updated m.status) _

scan_members-has_update :
    (ms : List MultiXactMember) (s : Scan)
    → (scan_members ms s).has_update
      ≡ (s.has_update || any (λ m. isupdate_from_mxstatus m.status) ms)
unfolding scan_members
scan_members-has_update [] s = ground arith
scan_members-has_update (m ∷ ms) s =
    scan_members-has_update ms _ ∙ or_assoc s.has_update (isupdate_from_mxstatus m.status) _

stronger-strength :
    (n : ℕ) (a b : LockTupleMode)
    → ltb n (strength (stronger a b)) ≡ (ltb n (strength b) || ltb n (strength a))
stronger-strength n a b = ground arith

scan_members-strongest :
    (n : ℕ) (ms : List MultiXactMember) (s : Scan)
    → ltb n (strength (scan_members ms s).strongest)
      ≡ (ltb n (strength s.strongest) || any (above n) ms)
unfolding scan_members
scan_members-strongest n [] s = ground arith
scan_members-strongest n (m ∷ ms) s =
    scan_members-strongest n ms _
    ∙ (ap (λ b. b || any (above n) ms)
          (stronger-strength n (tuplock_from_mxstatus m.status) s.strongest)
        ∙ or_assoc (ltb n (strength s.strongest)) (above n m) _)

excl_bit-strength : (mode : LockTupleMode) → excl_bit mode ≡ ltb 0 (strength mode)
excl_bit-strength lock_tuple_key_share = refl
excl_bit-strength lock_tuple_share = refl
excl_bit-strength lock_tuple_no_key_exclusive = refl
excl_bit-strength lock_tuple_exclusive = refl

keyshr_bit-strength : (mode : LockTupleMode) → keyshr_bit mode ≡ not (ltb 1 (strength mode))
keyshr_bit-strength lock_tuple_key_share = refl
keyshr_bit-strength lock_tuple_share = refl
keyshr_bit-strength lock_tuple_no_key_exclusive = refl
keyshr_bit-strength lock_tuple_exclusive = refl

module _ (server : Server) (multi : ℕ) where
  abbrev pub bits : Infomask
  bits = get_multi_xact_id_hint_bits server multi

  abbrev pub members_of : List MultiXactMember
  members_of = no_members (server.members multi)

  -- The header bits for a multixact are a function of the set of its members: LOCK_ONLY is set when no member
  -- is an updater, KEYS_UPDATED when a member locks for update or updates keys, EXCL_LOCK when a member
  -- holds more than a key share lock, and KEYSHR_LOCK when none holds more than a share lock.
  pub get_multi_xact_id_hint_bits_lem :
      (bits.is_multi ≡ true)
      × (bits.lock_only ≡ not (any (λ m. isupdate_from_mxstatus m.status) members_of))
      × (bits.keys_updated ≡ any (λ m. sets_keys_updated m.status) members_of)
      × (bits.excl_lock ≡ any (above 0) members_of)
      × (bits.keyshr_lock ≡ not (any (above 1) members_of))
  unfolding get_multi_xact_id_hint_bits
  get_multi_xact_id_hint_bits_lem = (
    refl,
    ap not (scan_members-has_update members_of _),
    scan_members-keys_updated members_of _,
    excl_bit-strength _ ∙ scan_members-strongest 0 members_of _,
    keyshr_bit-strength _ ∙ ap not (scan_members-strongest 1 members_of _),
  )
