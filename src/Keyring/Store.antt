-- ===== src/Keyring/Store.antt =====
-- Storing keys, and looking them up again, on each outcome.
use pg_tde.Base.{
  ◌<◌, ◌≡◌, ◌∙◌, ap, inl, inr, true, false, none, some, [], ◌∷◌, ◌++◌, arith, ◌==◌, length, lt→ltb,
  init-append, Bool-cases,
}
use pg_tde.Keyring.{
  KeyName, KeyData, KeyInfo, Keyring, World, ret, raised, max_cache_entries, unknown_provider,
  file_provider, find_key, cache_store_key, file_store_key, keyring_get_key, provider_store_key,
  drop_last_key, keyring_store_key,
}
use pg_tde.Keyring.Find.{find_key-append_self}

abbrev pub key_of : KeyName → KeyData → KeyInfo
key_of name d = record { name = name; key_data = d }

-- The cache with one key more.
abbrev pub with_key : KeyName → KeyData → Keyring → Keyring
with_key name d s = record s { keys = s.keys ++ (key_of name d ∷ []) }

pub cache_store_key-room :
    (name : KeyName) (d : KeyData) (s : Keyring)
    → length s.keys < max_cache_entries
    → cache_store_key name d s ≡ ret (key_of name d) (with_key name d s)
unfolding cache_store_key
cache_store_key-room name d s room = let test = lt→ltb _ _ room in rw test

file_store_key-opens :
    (w : World) (s : Keyring)
    → 0 < length s.data_file_name
    → w.can_write s.data_file_name ≡ true
    → file_store_key w s ≡ ret true (record s { key_file = s.keys })
unfolding file_store_key
file_store_key-opens w s named opens =
    let test : (length s.data_file_name == 0) ≡ false = ground arith in rw (test, opens)

file_store_key-raised :
    (w : World) (s : Keyring) → w.can_write s.data_file_name ≡ false → file_store_key w s ≡ raised s
unfolding file_store_key
file_store_key-raised w s opens = elim (Bool-cases (length s.data_file_name == 0)) [
  | inl e ↦ rw e
  | inr e ↦ rw (e, opens)
]

pub keyring_get_key-found :
    (w : World) (name : KeyName) (s : Keyring) (k : KeyInfo)
    → find_key name s.keys ≡ some k
    → keyring_get_key w name s ≡ ret (some k) s
unfolding keyring_get_key
keyring_get_key-found w name s k e = rw (keyring_get_key, e)

module _ (w : World) (name : KeyName) (d : KeyData) (s : Keyring) where
  -- Without a provider nothing can be stored: the call returns NULL, and the cache is as before.
  pub store_unknown :
      s.provider ≡ unknown_provider
      → length s.keys < max_cache_entries
      → keyring_store_key w name d s ≡ ret none s
  unfolding keyring_store_key provider_store_key drop_last_key
  store_unknown p room =
      rw (
        keyring_store_key,
        cache_store_key-room name d s room,
        p,
        init-append s.keys (key_of name d),
      )

  -- With a key file that opens, the call returns the key, the key file holds the cache with it, and
  -- a lookup of a name that was not there finds it.
  pub store_file :
      s.provider ≡ file_provider
      → length s.keys < max_cache_entries
      → 0 < length s.data_file_name
      → w.can_write s.data_file_name ≡ true
      → find_key name s.keys ≡ none
      → let keys = s.keys ++ (key_of name d ∷ []) in
        let s' = record s { keys = keys; key_file = keys } in
        (keyring_store_key w name d s ≡ ret (some (key_of name d)) s')
        × (keyring_get_key w name s' ≡ ret (some (key_of name d)) s')
  unfolding keyring_store_key provider_store_key
  store_file p room named opens fresh = (
    rw (
      keyring_store_key,
      cache_store_key-room name d s room,
      ap (λ q. provider_store_key w q (key_of name d) (with_key name d s)) p
          ∙ file_store_key-opens w (with_key name d s) named opens,
    ),
    keyring_get_key-found w name _ (key_of name d) (find_key-append_self name d s.keys fresh),
  )

  -- With a key file that does not open, the error leaves before the entry is dropped from the cache:
  -- the call fails and the file is as before, and yet the key is found afterwards.
  pub store_file_raised :
      s.provider ≡ file_provider
      → length s.keys < max_cache_entries
      → w.can_write s.data_file_name ≡ false
      → find_key name s.keys ≡ none
      → (keyring_store_key w name d s ≡ raised (with_key name d s))
        × (keyring_get_key w name (with_key name d s)
            ≡ ret (some (key_of name d)) (with_key name d s))
  unfolding keyring_store_key provider_store_key
  store_file_raised p room opens fresh = (
    rw (
      keyring_store_key,
      cache_store_key-room name d s room,
      ap (λ q. provider_store_key w q (key_of name d) (with_key name d s)) p
          ∙ file_store_key-raised w (with_key name d s) opens,
    ),
    keyring_get_key-found w name _ (key_of name d) (find_key-append_self name d s.keys fresh),
  )
