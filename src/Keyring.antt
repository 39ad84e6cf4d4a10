-- ===== src/Keyring.antt =====
-- The keyring: the cache of keys of src/keyring/keyring_api.c over its providers, the key file of
-- keyring_file.c and the Vault server of keyring_vault.c. An `elog(ERROR)` leaves the function at
-- once, so it is an outcome of its own.
pub mod Find
pub mod Store
pub mod Vault
pub mod Versions
pub mod Generate
use pg_tde.Base.{
  ℕ, zero, suc, ◌+◌, ◌-◌, ◌/◌, ◌^◌, Bool, true, false, ◌&&◌, not, Option, none, some, List, [], ◌∷◌,
  ◌++◌, if◌then◌else◌, ltb, ◌==◌, length, u32, take, init, list_eqb,
}

abbrev pub KeyName : Type 0
KeyName = List ℕ

pub record KeyData : Type 0 where
  pub bytes : List ℕ
  pub len : ℕ

pub record KeyInfo : Type 0 where
  pub name : KeyName
  pub key_data : KeyData

abbrev pub max_cache_entries : ℕ
max_cache_entries = 1024

pub data KeyringProvider : Type 0 where
  unknown_provider file_provider vault_v2_provider : KeyringProvider

-- The cache, its first `keyCount` entries; what the key file holds; the variables of keyring_config.c
-- and the name of the key file.
pub record Keyring : Type 0 where
  pub keys : List KeyInfo
  pub key_file : List KeyInfo
  pub provider : KeyringProvider
  pub key_prefix : List ℕ
  pub data_file_name : List ℕ

-- A return, an `elog(ERROR)`, or a write past the end of the cache.
pub data Outcome (A : Type 0) : Type 0 where
  ret : A → Keyring → Outcome A
  raised : Keyring → Outcome A
  overrun : Outcome A

abbrev pub Run : Type 0 → Type 0
Run A = Keyring → Outcome A

-- The rest of a function after a call that returned.
abbrev pub and_then : {A B : Type 0} → Outcome A → (A → Run B) → Outcome B
and_then (ret a s) k = k a s
and_then (raised s) k = raised s
and_then overrun k = overrun

-- What the code takes from outside: whether the key file opens for writing, Vault's HTTP answers
-- (`none` when the request fails), the JSON library, base64, `RAND_bytes` and `%u`.
pub record World : Type 1 where
  pub can_write : List ℕ → Bool
  pub Json : Type 0
  pub http_get : KeyName → Option (ℕ × List ℕ)
  pub http_put : KeyInfo → Option ℕ
  pub parse : List ℕ → Option Json
  pub data_member : Json → Option Json
  pub key_member : Json → Option Json
  pub string_value : Json → Option (List ℕ)
  pub b64_decode : List ℕ → ℕ → ℕ × List ℕ
  pub rand_bytes : ℕ → Option (List ℕ)
  pub unsigned_text : ℕ → List ℕ

-- The search of `keyringGetKey` through the cache; a name that is there twice is found first.
unfoldable pub find_key : KeyName → List KeyInfo → Option KeyInfo
find_key name [] = none
find_key name (k ∷ ks) = if list_eqb k.name name then some k else find_key name ks

unfoldable pub cache_store_key : KeyName → KeyData → Run KeyInfo
cache_store_key name d s =
    let ki : KeyInfo = record { name = name; key_data = d } in
    if ltb (length s.keys) max_cache_entries
    then ret ki (record s { keys = s.keys ++ (ki ∷ []) })
    else overrun

-- `cache->keyCount--`, and NULL.
unfoldable pub drop_last_key : Run (Option KeyInfo)
drop_last_key s = ret none (record s { keys = init s.keys })

-- `keyringFileStoreKey` dumps the cache.
unfoldable pub file_store_key : World → Run Bool
file_store_key w s =
    if length s.data_file_name == 0
    then raised s
    else if w.can_write s.data_file_name
    then ret true (record s { key_file = s.keys })
    else raised s

unfoldable pub vault_store_key : World → KeyInfo → Run Bool
vault_store_key w ki s = elim (w.http_put ki) [
  | none ↦ raised s
  | some code ↦ ret (code / 100 == 2) s
]

module _ (w : World) where
  -- The end of `keyringVaultGetKey`, from the answer's `key` member on. The return value is dropped
  -- by the caller; the length that `pg_b64_decode` gave stays in `outData`, minus one as a `uint`.
  unfoldable pub vault_key_value : Option w.Json → Run (Bool × KeyData)
  vault_key_value none s = raised s
  vault_key_value (some key_o) s = elim (w.string_value key_o) [
    | none ↦ raised s
    | some [] ↦ raised s
    | some (b ∷ text) ↦
        let decoded = w.b64_decode (b ∷ text) 32 in
        let out : KeyData = record { bytes = decoded.1; len = u32 decoded.0 } in
        ret (u32 decoded.0 == 32, out) s
  ]

  unfoldable pub vault_get_key : KeyName → Run (Bool × KeyData)
  vault_get_key name s = elim (w.http_get name) [
    | none ↦ raised s
    | some (code, body) ↦
        if code / 100 == 2
        then elim (w.parse body) [
          | none ↦ raised s
          | some response ↦ elim (w.data_member response) [
            | none ↦ raised s
            | some outer ↦ elim (w.data_member outer) [
              | none ↦ raised s
              | some inner ↦ vault_key_value (w.key_member inner) s
            ]
          ]
        ]
        else if code == 404
        then ret (false, record { bytes = []; len = 0 }) s
        else raised s
  ]

  unfoldable pub provider_get_key : KeyringProvider → KeyName → Run (Option KeyInfo)
  provider_get_key unknown_provider name s = ret none s
  provider_get_key file_provider name s = ret none s
  provider_get_key vault_v2_provider name s = and_then (vault_get_key name s) λ got s1.
      if ltb 0 got.1.len
      then and_then (cache_store_key name got.1 s1) (λ ki s2. ret (some ki) s2)
      else ret none s1

  -- `keyringGetKey`
  unfoldable pub keyring_get_key : KeyName → Run (Option KeyInfo)
  keyring_get_key name s = elim (find_key name s.keys) [
    | some k ↦ ret (some k) s
    | none ↦ provider_get_key s.provider name s
  ]

  unfoldable pub provider_store_key : KeyringProvider → KeyInfo → Run Bool
  provider_store_key unknown_provider ki s = ret false s
  provider_store_key file_provider ki s = file_store_key w s
  provider_store_key vault_v2_provider ki s = vault_store_key w ki s

  -- `keyringStoreKey`
  unfoldable pub keyring_store_key : KeyName → KeyData → Run (Option KeyInfo)
  keyring_store_key name d s = and_then (cache_store_key name d s) λ ki s1.
      and_then (provider_store_key s1.provider ki s1)
        λ stored s2. if stored then ret (some ki) s2 else drop_last_key s2

  -- `keyringConstructKeyName`: `snprintf` keeps 255 bytes. `b'-'` stands between the parts.
  unfoldable pub construct_key_name : List ℕ → List ℕ → ℕ → KeyName
  construct_key_name key_prefix internal_name version =
      let versioned = internal_name ++ (b'-' ∷ w.unsigned_text version) in
      take 255 (if ltb 0 (length key_prefix) then key_prefix ++ (b'-' ∷ versioned) else versioned)

  -- The loop of `keyringGetLatestKey`; running out of fuel is `none`.
  unfoldable pub latest_loop :
      ℕ → List ℕ → ℕ → Option KeyInfo → Keyring → Option (Outcome (Option KeyInfo))
  latest_loop zero internal_name i prev s = none
  latest_loop (suc fuel) internal_name i prev s =
      elim (keyring_get_key (construct_key_name s.key_prefix internal_name i) s) [
        | raised s' ↦ some (raised s')
        | overrun ↦ some overrun
        | ret none s' ↦ some (ret prev s')
        | ret (some curr) s' ↦ latest_loop fuel internal_name (i + 1) (some curr) s'
      ]

  unfoldable pub keyring_get_latest_key : ℕ → List ℕ → Keyring → Option (Outcome (Option KeyInfo))
  keyring_get_latest_key fuel internal_name s = latest_loop fuel internal_name 1 none s

  -- The end of `keyringGenerateKey`, for the first version that is not there; `kd.data` has 32 bytes, and the
  -- assert is that they are enough.
  unfoldable pub generate_version : List ℕ → ℕ → ℕ → Run (Option KeyInfo)
  generate_version internal_name key_len i s =
      if ltb 32 key_len then overrun else elim (w.rand_bytes key_len) [
        | none ↦ ret none s
        | some bytes ↦
            keyring_store_key (construct_key_name s.key_prefix internal_name i)
              (record { bytes = bytes; len = key_len }) s
      ]

  unfoldable pub generate_loop : ℕ → List ℕ → ℕ → ℕ → Keyring → Option (Outcome (Option KeyInfo))
  generate_loop zero internal_name key_len i s = none
  generate_loop (suc fuel) internal_name key_len i s =
      elim (keyring_get_key (construct_key_name s.key_prefix internal_name i) s) [
        | raised s' ↦ some (raised s')
        | overrun ↦ some overrun
        | ret none s' ↦ some (generate_version internal_name key_len i s')
        | ret (some curr) s' ↦ generate_loop fuel internal_name key_len (i + 1) s'
      ]

  unfoldable pub keyring_generate_key : ℕ → List ℕ → ℕ → Keyring → Option (Outcome (Option KeyInfo))
  keyring_generate_key fuel internal_name key_len s = generate_loop fuel internal_name key_len 1 s
