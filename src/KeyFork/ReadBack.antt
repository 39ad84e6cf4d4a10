-- ===== src/KeyFork/ReadBack.antt =====
-- A key fork that was written can be read.
use pg_tde.Base.{
  ℕ, ◌≤◌, ◌≡◌, none, ◌⊎◌, inl, inr, leb, true, false, some, List, [], ◌∷◌, arith, length,
  list_eqb_self, take-all,
}
use pg_tde.Keyring.{World, KeyInfo, ret, find_key, keyring_get_latest_key}
use pg_tde.Keyring.Store.{keyring_get_key-found}
use pg_tde.Xact.{register_file_for_deletion}
use pg_tde.KeyFork.{
  Disk, Backend, ok, KeyFile, overwrite, RelFileLocator, InternalKey, key_file_path, put_file,
  rel_keys_of, hide_key, put_keys_into_map, master_key_name, version_rounds, write_key_file,
  write_with_latest, pg_tde_write_key_fork, decrypt_keys, pg_tde_get_keys_from_fork,
  size_of_rel_keys_data,
}

-- No longer file is there, whose tail the write would leave.
abbrev pub IsShort : Disk → RelFileLocator → Backend → Type 0
IsShort disk rel b =
    (b.files (key_file_path disk rel) ≡ none)
    ⊎ ((old : KeyFile) × (b.files (key_file_path disk rel) ≡ some old)
        × (old.nbytes ≤ size_of_rel_keys_data 1))

-- AES-CBC decryption undoes encryption on a block.
abbrev pub IsCbc : Disk → Type 0
IsCbc disk =
    (key block : List ℕ)
    → length block ≡ 16
    → disk.cbc_decrypt key (disk.cbc_encrypt key block) ≡ block

module _ (w : World) (disk : Disk) (rel : RelFileLocator) (key : InternalKey) (master : KeyInfo)
    (b : Backend) where
  -- The file that is written: the key is encrypted with the master key.
  abbrev pub written_file : KeyFile
  written_file = record {
    nbytes = size_of_rel_keys_data 1;
    content = rel_keys_of master (hide_key disk master key);
  }

  -- The backend after the key was written.
  abbrev pub written : Backend
  written = put_keys_into_map rel.rel_number (rel_keys_of master key) (record b {
    files = put_file (key_file_path disk rel) written_file b.files;
    pending = register_file_for_deletion b.nest_level (key_file_path disk rel) false b.pending;
  })

  overwrite-short :
      IsShort disk rel b → overwrite (b.files (key_file_path disk rel)) written_file ≡ written_file
  overwrite-short (inl absent) = rw (absent)
  overwrite-short (inr (old, there, small)) =
      let fits : leb old.nbytes (size_of_rel_keys_data 1) ≡ true = ground arith in rw (there, fits)

  pub write_key_fork-written :
      keyring_get_latest_key w version_rounds master_key_name b.keyring
        ≡ some (ret (some master) b.keyring)
      → disk.opens (key_file_path disk rel) ≡ true
      → disk.writes (key_file_path disk rel) ≡ true
      → IsShort disk rel b
      → pg_tde_write_key_fork w disk rel key b ≡ ok tt written
  unfolding pg_tde_write_key_fork write_with_latest write_key_file
  write_key_fork-written latest opens writes short =
      rw (latest, opens, writes, overwrite-short short)

  -- The file that is written for a relation holds the key encrypted with the newest master key, whose name it has, and
  -- gives the key back, decrypted: where no longer file is there, the master key is in the cache, and the
  -- file opens and takes all bytes. CBC decryption undoes encryption.
  pub write-then-read :
      IsCbc disk
      → length key.key ≡ 16
      → length master.name ≤ 255
      → keyring_get_latest_key w version_rounds master_key_name b.keyring
        ≡ some (ret (some master) b.keyring)
      → find_key master.name b.keyring.keys ≡ some master
      → disk.opens (key_file_path disk rel) ≡ true
      → disk.writes (key_file_path disk rel) ≡ true
      → IsShort disk rel b
      → (b' : Backend) × (pg_tde_write_key_fork w disk rel key b ≡ ok tt b')
        × (b'.files (key_file_path disk rel)
            ≡ some (record {
              nbytes = size_of_rel_keys_data 1;
              content = record {
                master_key_name = master.name;
                internal_keys =
                    record key { key = disk.cbc_encrypt master.key_data.bytes key.key } ∷ [];
              };
            }))
        × (pg_tde_get_keys_from_fork w disk rel b'
            ≡ ok (record { master_key_name = master.name; internal_keys = key ∷ [] }) b')
  unfolding pg_tde_get_keys_from_fork decrypt_keys put_keys_into_map
  write-then-read cbc size short latest found opens writes fresh = (
    written,
    write_key_fork-written latest opens writes fresh,
    rw (list_eqb_self (key_file_path disk rel), take-all 256 master.name (omega arith)),
    rw (
      pg_tde_get_keys_from_fork,
      list_eqb_self (key_file_path disk rel),
      take-all 256 master.name (omega arith),
      keyring_get_key-found w master.name b.keyring master found,
      cbc master.key_data.bytes key.key size,
    ),
  )
