-- ===== src/Tests/Forks.antt =====
-- The key fork of relation 16384.
use pg_tde.Base.{ap₂, inl, ◌+◌, ◌-◌, ℕ, ◌≡◌, refl, true, some, none, List, [], ◌∷◌, ◌++◌, arith}
use pg_tde.Keyring.{
  KeyInfo, ret, find_key, keyring_get_key, keyring_get_latest_key, latest_loop, construct_key_name,
  provider_get_key,
}
use pg_tde.KeyFork.{
  key_file_path, size_of_rel_keys_data, XlogRecord, pg_tde_create_key_fork, pg_tde_rmgr_redo, Disk,
  Backend, ok, RelFileLocator, RelKeysData, InternalKey, pg_tde_write_key_fork,
  pg_tde_get_keys_from_fork, get_relation_keys, remember, put_keys_into_map, master_key_name,
  version_rounds,
}
use pg_tde.KeyFork.Cache.{get_relation_keys-other}
use pg_tde.KeyFork.Redo.{fresh_key, create-then-redo}
use pg_tde.KeyFork.ReadBack.{write-then-read}
use pg_tde.Tests.Keys.{some_world, some_data, key_file_1}

abbrev some_relation : RelFileLocator
some_relation = record { spc_oid = 1663; db_oid = 5; rel_number = 16384 }

abbrev other_relation : RelFileLocator
other_relation = record { spc_oid = 1663; db_oid = 5; rel_number = 16385 }

-- A cipher that adds one to each byte.
abbrev raised_bytes : List ℕ → List ℕ
raised_bytes [] = []
raised_bytes (b ∷ bs) = (b + 1) ∷ raised_bytes bs

abbrev lowered_bytes : List ℕ → List ℕ
lowered_bytes [] = []
lowered_bytes (b ∷ bs) = (b - 1) ∷ lowered_bytes bs

lowered-raised : (bs : List ℕ) → lowered_bytes (raised_bytes bs) ≡ bs
lowered-raised [] = refl
lowered-raised (b ∷ bs) = ap₂ (λ x xs. x ∷ xs) (omega arith) (lowered-raised bs)

abbrev random_key : List ℕ
random_key = 9 ∷ 8 ∷ 7 ∷ 6 ∷ 5 ∷ 4 ∷ 3 ∷ 2 ∷ 1 ∷ 0 ∷ 11 ∷ 12 ∷ 13 ∷ 14 ∷ 15 ∷ 16 ∷ []

abbrev some_disk : Disk
some_disk = record {
  rel_path = λ rel. rel.rel_number ∷ [];
  cbc_encrypt = λ key block. raised_bytes block;
  cbc_decrypt = λ key block. lowered_bytes block;
  rand_key = some random_key;
  opens = λ path. true;
  writes = λ path. true;
  torn =
      λ file. record { nbytes = 0; content = record { master_key_name = []; internal_keys = [] } };
}

abbrev some_internal_key : InternalKey
some_internal_key = record {
  key = 1 ∷ 2 ∷ 3 ∷ 4 ∷ 5 ∷ 6 ∷ 7 ∷ 8 ∷ 9 ∷ 10 ∷ 11 ∷ 12 ∷ 13 ∷ 14 ∷ 15 ∷ 16 ∷ [];
  start_loc = 0;
  end_loc = 0;
}

abbrev master : KeyInfo
master = record { name = master_key_name ++ (b'-' ∷ 1 ∷ []); key_data = some_data }

abbrev some_keys : RelKeysData
some_keys = record { master_key_name = master.name; internal_keys = some_internal_key ∷ [] }

abbrev some_backend : Backend
some_backend = record {
  keyring = record key_file_1 { keys = master ∷ [] };
  files = λ path. none;
  rel_keys_map = (16384, some_keys) ∷ [];
  pending = record { pending_deletes = []; unlinked = [] };
  nest_level = 1;
  xlog = [];
}

master_is_latest :
    keyring_get_latest_key some_world version_rounds master_key_name some_backend.keyring
    ≡ some (ret (some master) some_backend.keyring)
unfolding keyring_get_latest_key latest_loop keyring_get_key construct_key_name find_key
    provider_get_key
master_is_latest = refl

master_is_found : find_key master.name some_backend.keyring.keys ≡ some master
unfolding find_key
master_is_found = refl

keys_are_cached :
    get_relation_keys some_world some_disk some_relation some_backend ≡ ok some_keys some_backend
unfolding get_relation_keys
keys_are_cached = refl

write-then-read_example :
    (b' : Backend) × (pg_tde_write_key_fork some_world some_disk some_relation some_internal_key
        some_backend
      ≡ ok tt b')
    × (b'.files (key_file_path some_disk some_relation)
        ≡ some (record {
          nbytes = size_of_rel_keys_data 1;
          content = record {
            master_key_name = master.name;
            internal_keys =
                record some_internal_key { key = raised_bytes some_internal_key.key } ∷ [];
          };
        }))
    × (pg_tde_get_keys_from_fork some_world some_disk some_relation b'
        ≡ ok (record { master_key_name = master.name; internal_keys = some_internal_key ∷ [] }) b')
write-then-read_example =
    write-then-read some_world some_disk some_relation some_internal_key master some_backend
      (λ key block e. lowered-raised block) refl (omega arith) master_is_latest master_is_found refl
      refl (inl refl)

get_relation_keys-other_example :
    let b' = put_keys_into_map 16384 some_keys some_backend in
    get_relation_keys some_world some_disk other_relation b'
    ≡ remember some_world some_disk 16385
        (pg_tde_get_keys_from_fork some_world some_disk other_relation b')
get_relation_keys-other_example =
    get_relation_keys-other some_world some_disk some_relation other_relation some_keys some_backend
      (omega arith)

create-then-redo_example :
    let key = fresh_key some_world some_disk some_relation random_key in
    (logged : XlogRecord) × (pg_tde_create_key_fork some_world some_disk some_relation some_backend
      ≡ pg_tde_write_key_fork some_world some_disk some_relation key
          (record some_backend { xlog = some_backend.xlog ++ (logged ∷ []) }))
    × ((standby : Backend)
        → pg_tde_rmgr_redo some_world some_disk logged standby
          ≡ pg_tde_write_key_fork some_world some_disk some_relation key standby)
create-then-redo_example =
    create-then-redo some_world some_disk some_relation random_key some_backend (omega arith)
      (omega arith) (omega arith) refl refl
