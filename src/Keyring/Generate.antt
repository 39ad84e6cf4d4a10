-- ===== src/Keyring/Generate.antt =====
-- A generated key is the newest one, when the versions have no gaps.
use pg_tde.Base.{
  ℕ, ◌+◌, ◌-◌, ◌^◌, ◌≤◌, ◌<◌, ◌≡◌, refl, ◌∙◌, ap, subst, inr, true, false, Option, none, some, List,
  [], ◌∷◌, ◌++◌, arith, length, length-append, dec_lt, if◌then◌else◌, ◌==◌, ltb,
}
use pg_tde.Keyring.{
  KeyName, KeyData, KeyInfo, Keyring, World, ret, file_provider, find_key, construct_key_name,
  generate_version, keyring_get_latest_key, keyring_generate_key, keyring_store_key,
  max_cache_entries,
}
use pg_tde.Keyring.Find.{find_key-append_self, find_key-append_some, find_key-append_ne}
use pg_tde.Keyring.Store.{key_of, store_file}
use pg_tde.Keyring.Versions.{
  NamesDiffer, IsFirstGap, keyring_get_latest_key_lem, keyring_generate_key_lem,
}

module _ (w : World) (internal_name : List ℕ) (s : Keyring) (file : s.provider ≡ file_provider)
    (differ : NamesDiffer w internal_name s (inr file)) where
  abbrev name_of : ℕ → KeyName
  name_of i = construct_key_name w s.key_prefix internal_name i

  generate_version-stored :
      (key_len n : ℕ) (bytes : List ℕ)
      → key_len ≤ 32
      → w.rand_bytes key_len ≡ some bytes
      → generate_version w internal_name key_len n s
        ≡ keyring_store_key w (name_of n) (record { bytes = bytes; len = key_len }) s
  unfolding generate_version
  generate_version-stored key_len n bytes fits e =
      let enough : ltb 32 key_len ≡ false = ground arith in rw (generate_version, enough, e)

  -- The first gap moves on by one when its version is added and the next is not there.
  next_gap :
      (n m : ℕ) (d : KeyData)
      → let keys = s.keys ++ (key_of (name_of n) d ∷ []) in
        let s' : Keyring = record s { keys = keys; key_file = keys } in
        1 ≤ n
        → n + 1 < 2 ^ 31
        → IsFirstGap w internal_name s (inr file) 1 n
        → find_key (name_of (n + 1)) s.keys ≡ none
        → IsFirstGap w internal_name s' (inr file) 1 m
        → m ≡ n + 1
  next_gap n m d pos small g none_after g' = elim (dec_lt m n) [
    | yes before ↦
        let f = g.there m g'.from before in
        cc (find_key-append_some (name_of m) (key_of (name_of n) d) s.keys f.0 f.1, g'.gap)
    | no not_before ↦ elim (dec_lt (n + 1) m) [
      | yes after ↦
          let f = g'.there (n + 1) (omega arith) after in
          let other =
            find_key-append_ne (name_of (n + 1)) (key_of (name_of n) d) s.keys
              (differ n (n + 1) (omega arith) small (omega arith)) in
          cc (f.1, other, none_after)
      | no not_after ↦ elim (dec_lt n m) [
        | yes p ↦ omega arith
        | no p ↦
            let same : m ≡ n = omega arith in
            let gap' =
              subst (λ (k : ℕ). find_key (name_of k) (s.keys ++ (key_of (name_of n) d ∷ [])) ≡ none)
                same g'.gap in
            cc (find_key-append_self (name_of n) d s.keys g.gap, gap')
      ]
    ]
  ]

  newest :
      (n m : ℕ) (d : KeyData)
      → 1 ≤ n
      → m ≡ n + 1
      → find_key (name_of n) s.keys ≡ none
      → (if m == 1
          then none
          else find_key (name_of (m - 1)) (s.keys ++ (key_of (name_of n) d ∷ [])))
        ≡ some (key_of (name_of n) d)
  newest n m d pos e fresh =
      let not_first : (m == 1) ≡ false = ground arith in
      let at : m - 1 ≡ n = omega arith in
      rw (not_first, at) (find_key-append_self (name_of n) d s.keys fresh)

  -- A new version is made and kept, and is the newest from then on: with a key file that opens, room
  -- in the cache, at most 32 bytes wanted, as many random bytes at hand and no gap in the versions,
  -- `keyringGenerateKey` returns a key of the wanted length made of those bytes and saves it, and `keyringGetLatestKey` returns that
  -- key afterwards.
  pub generate-then-latest :
      (fuel fuel' key_len : ℕ) (bytes : List ℕ)
      → length s.keys < fuel
      → length s.keys + 1 < fuel'
      → fuel + 2 < 2 ^ 31
      → fuel' + 1 < 2 ^ 31
      → length s.keys < max_cache_entries
      → 0 < length s.data_file_name
      → w.can_write s.data_file_name ≡ true
      → key_len ≤ 32
      → w.rand_bytes key_len ≡ some bytes
      → length bytes ≡ key_len
      → ((i : ℕ) → find_key (name_of i) s.keys ≡ none → find_key (name_of (i + 1)) s.keys ≡ none)
      → (k : KeyInfo) × (s' : Keyring) × (keyring_generate_key w fuel internal_name key_len s
          ≡ some (ret (some k) s'))
        × (k.key_data ≡ record { bytes = bytes; len = key_len })
        × (length k.key_data.bytes ≡ k.key_data.len)
        × (s'.key_file ≡ s.keys ++ (k ∷ []))
        × (keyring_get_latest_key w fuel' internal_name s' ≡ some (ret (some k) s'))
  generate-then-latest fuel fuel' key_len bytes few few' small small' room named opens fits random
        filled no_gap =
      let made =
        keyring_generate_key_lem w internal_name s (inr file) differ fuel key_len few
          (omega arith) in
      let n = made.0 in
      let gap = made.1 in
      let n_lt : n < 1 + fuel = made.2 in
      let pos : 1 ≤ n = gap.from in
      let d : KeyData = record { bytes = bytes; len = key_len } in
      let k = key_of (name_of n) d in
      let keys = s.keys ++ (k ∷ []) in
      let s' : Keyring = record s { keys = keys; key_file = keys } in
      let stored = store_file w (name_of n) d s file room named opens gap.gap in
      let latest =
        keyring_get_latest_key_lem w internal_name s' (inr file) differ fuel'
          (omega (arith, length-append s.keys (k ∷ []))) small' in
      let next = next_gap n latest.0 d pos (omega arith) gap (no_gap n gap.gap) latest.1 in
      (
        k,
        s',
        made.3 ∙ ap some (generate_version-stored key_len n bytes fits random ∙ stored.0),
        refl,
        filled,
        refl,
        latest.2
            ∙ ap (λ (o : Option KeyInfo). some (ret o s')) (newest n latest.0 d pos next gap.gap),
      )
