-- ===== src/KeyFork.antt =====
-- The key forks of relations, src/access/pg_tde_tdemap.c: each relation's key in a file of its own,
-- encrypted with the master key, a cache in the backend, and the WAL record that repeats the
-- creation on a standby.
pub mod Cache
pub mod ReadBack
pub mod Redo
use pg_tde.Base.{
  ℕ, ◌+◌, ◌-◌, ◌*◌, ◌/◌, ◌%◌, Bool, true, false, ◌||◌, not, Option, none, some, List, [], ◌∷◌, ◌++◌,
  if◌then◌else◌, ltb, ◌==◌, length, map, list_eqb, take, drop, zero, suc, leb,
}
use pg_tde.Keyring.{
  KeyName, KeyInfo, Keyring, World, Outcome, ret, raised, overrun, keyring_get_key,
  keyring_get_latest_key, keyring_generate_key,
}
use pg_tde.Xact
use pg_tde.Xact.{FilePath, register_file_for_deletion}

abbrev pub internal_key_len : ℕ
internal_key_len = 16

-- `ctx`, a pointer that is NULL on disk, is left out; a key that is read has no context yet.
pub record InternalKey : Type 0 where
  pub key : List ℕ
  pub start_loc : ℕ
  pub end_loc : ℕ

pub record RelKeysData : Type 0 where
  pub master_key_name : KeyName
  pub internal_keys : List InternalKey

-- `SizeOfRelKeysDataHeader`, `sizeof(InternalKey)` on a 64-bit machine, and `SizeOfRelKeysData`.
abbrev pub size_of_header : ℕ
size_of_header = 264

abbrev pub size_of_internal_key : ℕ
size_of_internal_key = 40

abbrev pub size_of_rel_keys_data : ℕ → ℕ
size_of_rel_keys_data n = size_of_header + size_of_internal_key * n

pub record RelFileLocator : Type 0 where
  pub spc_oid : ℕ
  pub db_oid : ℕ
  pub rel_number : ℕ

-- A key file: how many bytes a read of it returns, and what they hold.
pub record KeyFile : Type 0 where
  pub nbytes : ℕ
  pub content : RelKeysData

-- A record of the resource manager: `info`, and the bytes of its data.
pub record XlogRecord : Type 0 where
  pub info : ℕ
  pub bytes : List ℕ

-- The bytes of a number of `n` bytes in memory, the lowest first, and the number back.
abbrev pub le_bytes : ℕ → ℕ → List ℕ
le_bytes zero x = []
le_bytes (suc n) x = x % 256 ∷ le_bytes n (x / 256)

abbrev pub le_value : List ℕ → ℕ
le_value [] = 0
le_value (b ∷ bs) = b + 256 * le_value bs

-- The bytes of a `RelFileLocator`, and of an `InternalKey` whose `ctx` is NULL.
abbrev pub locator_bytes : RelFileLocator → List ℕ
locator_bytes rel = le_bytes 4 rel.spc_oid ++ (le_bytes 4 rel.db_oid ++ le_bytes 4 rel.rel_number)

abbrev pub internal_key_bytes : InternalKey → List ℕ
internal_key_bytes k = k.key ++ (le_bytes 8 k.start_loc ++ (le_bytes 8 k.end_loc ++ le_bytes 8 0))

abbrev pub read_locator : List ℕ → RelFileLocator
read_locator rec = record {
  spc_oid = le_value (take 4 rec);
  db_oid = le_value (take 4 (drop 4 rec));
  rel_number = le_value (take 4 (drop 8 rec));
}

abbrev pub read_internal_key : List ℕ → InternalKey
read_internal_key rec = record {
  key = take 16 rec;
  start_loc = le_value (take 8 (drop 16 rec));
  end_loc = le_value (take 8 (drop 24 rec));
}

-- `relpathperm`, AES-CBC with a zero vector on one block (key, block), `RAND_bytes`, and whether a
-- file opens and takes all bytes; `torn` is what a failed write makes of the file.
pub record Disk : Type 0 where
  pub rel_path : RelFileLocator → FilePath
  pub cbc_encrypt : List ℕ → List ℕ → List ℕ
  pub cbc_decrypt : List ℕ → List ℕ → List ℕ
  pub rand_key : Option (List ℕ)
  pub opens : FilePath → Bool
  pub writes : FilePath → Bool
  pub torn : Option KeyFile → KeyFile

pub record Backend : Type 0 where
  pub keyring : Keyring
  pub files : FilePath → Option KeyFile
  pub rel_keys_map : List (ℕ × RelKeysData)
  pub pending : Xact.State
  pub nest_level : ℕ
  pub xlog : List XlogRecord

-- A return, an `ereport` of ERROR, FATAL or PANIC, or a fault in the keyring.
pub data Result (A : Type 0) : Type 0 where
  ok : A → Backend → Result A
  failed : Backend → Result A
  fault : Result A

-- The name of the key file: the main fork's and `.tde`.
abbrev pub key_file_path : Disk → RelFileLocator → FilePath
key_file_path disk rel = disk.rel_path rel ++ (b'.' ∷ b't' ∷ b'd' ∷ b'e' ∷ [])

unfoldable pub put_keys_into_map : ℕ → RelKeysData → Backend → Backend
put_keys_into_map rel_id keys b = record b { rel_keys_map = (rel_id, keys) ∷ [] }

abbrev pub master_key_name : List ℕ
master_key_name = b'm' ∷ b'a' ∷ b's' ∷ b't' ∷ b'e' ∷ b'r' ∷ b'-' ∷ b'k' ∷ b'e' ∷ b'y' ∷ []

-- The cache has room for 1024 keys, so the loops over versions end within 1026 rounds.
abbrev pub version_rounds : ℕ
version_rounds = 1026

-- What a call of the keyring that returns a key, or NULL, leads to.
abbrev pub with_key :
    Option (Outcome (Option KeyInfo))
    → Backend
    → (Option KeyInfo → Backend → Result (Unit {0}))
    → Result (Unit {0})
with_key none b k = fault
with_key (some (raised kr)) b k = failed (record b { keyring = kr })
with_key (some overrun) b k = fault
with_key (some (ret o kr)) b k = k o (record b { keyring = kr })

-- `files[path] = file`
abbrev pub put_file : FilePath → KeyFile → (FilePath → Option KeyFile) → FilePath → Option KeyFile
put_file path file files p = if list_eqb p path then some file else files p

-- `master_key_name[MASTER_KEY_NAME_LEN]` by `strncpy`.
abbrev pub rel_keys_of : KeyInfo → InternalKey → RelKeysData
rel_keys_of master key = record { master_key_name = take 256 master.name; internal_keys = key ∷ [] }

-- What a write at the start of a file makes of it: the file is not truncated, so what was longer keeps its tail.
abbrev pub overwrite : Option KeyFile → KeyFile → KeyFile
overwrite none file = file
overwrite (some old) file = if leb old.nbytes file.nbytes then file else record {
  nbytes = old.nbytes;
  content = record file.content {
    internal_keys = file.content.internal_keys ++ drop 1 old.content.internal_keys;
  };
}

abbrev pub hide_key : Disk → KeyInfo → InternalKey → InternalKey
hide_key disk master key = record key { key = disk.cbc_encrypt master.key_data.bytes key.key }

module _ (w : World) (disk : Disk) where
  -- `pg_tde_write_key_fork` from the path on.
  unfoldable pub write_key_file :
      RelFileLocator → InternalKey → KeyInfo → Backend → Result (Unit {0})
  write_key_file rel key master b =
      let path = key_file_path disk rel in
      let file : KeyFile = record {
        nbytes = size_of_rel_keys_data 1;
        content = rel_keys_of master (hide_key disk master key);
      } in
      if not (disk.opens path)
      then failed b
      else if not (disk.writes path)
      then failed (record b { files = put_file path (disk.torn (b.files path)) b.files })
      else ok tt (
          put_keys_into_map rel.rel_number (rel_keys_of master key) (record b {
            files = put_file path (overwrite (b.files path) file) b.files;
            pending = register_file_for_deletion b.nest_level path false b.pending;
          }))

  -- The master key: the newest version, or a new one.
  unfoldable pub write_with_generated :
      RelFileLocator → InternalKey → Option KeyInfo → Backend → Result (Unit {0})
  write_with_generated rel key none b = failed b
  write_with_generated rel key (some master) b = write_key_file rel key master b

  unfoldable pub write_with_latest :
      RelFileLocator → InternalKey → Option KeyInfo → Backend → Result (Unit {0})
  write_with_latest rel key (some master) b = write_key_file rel key master b
  write_with_latest rel key none b =
      with_key (keyring_generate_key w version_rounds master_key_name internal_key_len b.keyring) b
        (write_with_generated rel key)

  unfoldable pub pg_tde_write_key_fork : RelFileLocator → InternalKey → Backend → Result (Unit {0})
  pg_tde_write_key_fork rel key b =
      with_key (keyring_get_latest_key w version_rounds master_key_name b.keyring) b
        (write_with_latest rel key)

  -- `pg_tde_create_key_fork` with what `RAND_bytes` gave: the WAL record comes before the file.
  unfoldable pub create_with : Option (List ℕ) → RelFileLocator → Backend → Result (Unit {0})
  create_with none rel b = failed b
  create_with (some bytes) rel b =
      let key : InternalKey = record { key = bytes; start_loc = 0; end_loc = 0 } in
      let logged : XlogRecord = record {
        info = 0;
        bytes = locator_bytes rel ++ internal_key_bytes key;
      } in
      pg_tde_write_key_fork rel key (record b { xlog = b.xlog ++ (logged ∷ []) })

  unfoldable pub pg_tde_create_key_fork : RelFileLocator → Backend → Result (Unit {0})
  pg_tde_create_key_fork rel b = create_with disk.rand_key rel b

  -- `pg_tde_xlog_create_fork`: 12 bytes of locator and 40 of key are wanted.
  unfoldable pub pg_tde_xlog_create_fork : XlogRecord → Backend → Result (Unit {0})
  pg_tde_xlog_create_fork record_read b =
      if ltb (length record_read.bytes) 52
      then failed b
      else pg_tde_write_key_fork (read_locator record_read.bytes)
          (read_internal_key (drop 12 record_read.bytes)) b

  -- `pg_tde_rmgr_redo`: the low four bits of `info` are the server's.
  unfoldable pub pg_tde_rmgr_redo : XlogRecord → Backend → Result (Unit {0})
  pg_tde_rmgr_redo record_read b =
      if record_read.info / 16 == 0 then pg_tde_xlog_create_fork record_read b else failed b

  -- `pg_tde_delete_key_fork`
  unfoldable pub pg_tde_delete_key_fork : RelFileLocator → Backend → Backend
  pg_tde_delete_key_fork rel b = record b {
    pending = register_file_for_deletion b.nest_level (key_file_path disk rel) true b.pending;
  }

  abbrev pub show_first : KeyInfo → List InternalKey → List InternalKey
  show_first master [] = []
  show_first master (k ∷ ks) = record k { key = disk.cbc_decrypt master.key_data.bytes k.key } ∷ ks

  -- The end of `pg_tde_get_keys_from_fork`: the first key is decrypted.
  unfoldable pub decrypt_keys :
      RelKeysData → Outcome (Option KeyInfo) → Backend → Result RelKeysData
  decrypt_keys data_read overrun b = fault
  decrypt_keys data_read (raised kr) b = failed (record b { keyring = kr })
  decrypt_keys data_read (ret none kr) b = failed (record b { keyring = kr })
  decrypt_keys data_read (ret (some master) kr) b =
      ok (record data_read { internal_keys = show_first master data_read.internal_keys })
        (record b { keyring = kr })

  unfoldable pub pg_tde_get_keys_from_fork : RelFileLocator → Backend → Result RelKeysData
  pg_tde_get_keys_from_fork rel b = elim (b.files (key_file_path disk rel)) [
    | none ↦ failed b
    | some file ↦
        if ltb file.nbytes (size_of_rel_keys_data 1)
          || not ((file.nbytes - size_of_header) % size_of_internal_key == 0)
        then failed b
        else decrypt_keys file.content (keyring_get_key w file.content.master_key_name b.keyring) b
  ]

  -- The search through `tde_rel_keys_map`.
  abbrev pub find_rel : ℕ → List (ℕ × RelKeysData) → Option RelKeysData
  find_rel rel_id [] = none
  find_rel rel_id ((id, keys) ∷ rest) = if id == rel_id then some keys else find_rel rel_id rest

  abbrev pub remember : ℕ → Result RelKeysData → Result RelKeysData
  remember rel_id (ok keys b) = ok keys (put_keys_into_map rel_id keys b)
  remember rel_id (failed b) = failed b
  remember rel_id fault = fault

  -- `GetRelationKeys`
  unfoldable pub get_relation_keys : RelFileLocator → Backend → Result RelKeysData
  get_relation_keys rel b = elim (find_rel rel.rel_number b.rel_keys_map) [
    | some keys ↦ ok keys b
    | none ↦ remember rel.rel_number (pg_tde_get_keys_from_fork rel b)
  ]
