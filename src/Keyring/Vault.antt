-- ===== src/Keyring/Vault.antt =====
-- Looking a key up in Vault.
use pg_tde.Base.{ℕ, ◌<◌, ◌≡◌, ◌∙◌, ap, true, none, some, List, ◌∷◌, ltb, length, u32, lt→ltb}
use pg_tde.Keyring.{
  KeyName, KeyData, Keyring, World, ret, max_cache_entries, vault_v2_provider, find_key,
  provider_get_key, keyring_get_key, vault_get_key, vault_key_value,
}
use pg_tde.Keyring.Store.{key_of, with_key, cache_store_key-room}

module _ (w : World) (name : KeyName) (s : Keyring) (vault : s.provider ≡ vault_v2_provider)
    (fresh : find_key name s.keys ≡ none) where
  keyring_get_key-vault : keyring_get_key w name s ≡ provider_get_key w vault_v2_provider name s
  unfolding keyring_get_key
  keyring_get_key-vault = rw (keyring_get_key, fresh) (ap (λ q. provider_get_key w q name s) vault)

  -- A key that Vault does not have is not there: NULL, and the cache is as before.
  pub vault_missing :
      (body : List ℕ) → w.http_get name ≡ some (404, body) → keyring_get_key w name s ≡ ret none s
  unfolding provider_get_key vault_get_key
  vault_missing body e = keyring_get_key-vault ∙ rw (vault_get_key, e)

  -- A well-formed answer is cached and returned with whatever length its text decodes to, above
  -- zero: the check for 32 bytes has no effect, and neither has a decoding error, whose -1 is a
  -- length of 4294967295.
  pub vault_answered :
      (body text : List ℕ) (b n : ℕ) (bytes : List ℕ) (response outer inner key_o : w.Json)
      → w.http_get name ≡ some (200, body)
      → w.parse body ≡ some response
      → w.data_member response ≡ some outer
      → w.data_member outer ≡ some inner
      → w.key_member inner ≡ some key_o
      → w.string_value key_o ≡ some (b ∷ text)
      → w.b64_decode (b ∷ text) 32 ≡ (n, bytes)
      → 0 < u32 n
      → length s.keys < max_cache_entries
      → let d : KeyData = record { bytes = bytes; len = u32 n } in
        keyring_get_key w name s ≡ ret (some (key_of name d)) (with_key name d s)
  unfolding provider_get_key vault_get_key vault_key_value
  vault_answered body text b n bytes response outer inner key_o e1 e2 e3 e4 e5 e6 e7 pos room =
      let d : KeyData = record { bytes = bytes; len = u32 n } in
      let test : ltb 0 (u32 n) ≡ true = lt→ltb _ _ pos in
      keyring_get_key-vault
      ∙ rw (
        vault_get_key,
        e1,
        e2,
        e3,
        e4,
        vault_key_value,
        e5,
        e6,
        e7,
        test,
        cache_store_key-room name d s room,
      )
