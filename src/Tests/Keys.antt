-- ===== src/Tests/Keys.antt =====
-- The keyring and the key forks.
use pg_tde.Base.{
  ℕ, zero, suc, length, List, ◌+◌, ◌≡◌, refl, ap, inr, some, none, [], ◌∷◌, ◌++◌, arith, get_or,
  if◌then◌else◌, ◌==◌,
}
use pg_tde.Keyring.{
  KeyName, KeyData, KeyInfo, Keyring, World, ret, raised, unknown_provider, file_provider,
  vault_v2_provider, find_key, keyring_store_key, keyring_get_key, keyring_get_latest_key,
  keyring_generate_key, construct_key_name,
}
use pg_tde.Keyring.Store.{key_of, with_key, store_file_raised}
use pg_tde.Keyring.Vault.{vault_answered}
use pg_tde.Keyring.Versions.{NamesDiffer}
use pg_tde.Keyring.Generate.{generate-then-latest}

abbrev random_bytes : ℕ → List ℕ
random_bytes zero = []
random_bytes (suc n) = (n + 4) ∷ random_bytes n

-- Vault has one key of 16 bytes, and answers 404 to the name 9.
abbrev pub some_world : World
some_world = record {
  can_write = λ name. get_or name 0 0 == 1;
  Json = ℕ;
  http_get = λ name. if get_or name 0 0 == 9 then some (404, []) else some (200, 5 ∷ []);
  http_put = λ ki. none;
  parse = λ body. some 0;
  data_member = λ j. some (j + 1);
  key_member = λ j. some (j + 1);
  string_value = λ j. some (65 ∷ []);
  b64_decode = λ text size. (16, 7 ∷ []);
  rand_bytes = λ n. some (random_bytes n);
  unsigned_text = λ n. n ∷ [];
}

abbrev pub some_data : KeyData
some_data = record { bytes = 3 ∷ []; len = 16 }

abbrev no_provider : Keyring
no_provider = record {
  keys = [];
  key_file = [];
  provider = unknown_provider;
  key_prefix = [];
  data_file_name = [];
}

abbrev pub key_file_1 : Keyring
key_file_1 = record no_provider { provider = file_provider; data_file_name = 1 ∷ [] }

abbrev key_file_2 : Keyring
key_file_2 = record no_provider { provider = file_provider; data_file_name = 2 ∷ [] }

abbrev with_vault : Keyring
with_vault = record no_provider { provider = vault_v2_provider }

find_key-nil : (name : KeyName) → find_key name [] ≡ none
unfolding find_key
find_key-nil name = refl

store_file_raised_example :
    let s' = with_key (8 ∷ []) some_data key_file_2 in
    (keyring_store_key some_world (8 ∷ []) some_data key_file_2 ≡ raised s')
    × (keyring_get_key some_world (8 ∷ []) s' ≡ ret (some (key_of (8 ∷ []) some_data)) s')
store_file_raised_example =
    store_file_raised some_world (8 ∷ []) some_data key_file_2 refl (omega arith) refl
      (find_key-nil (8 ∷ []))

vault_answered_example :
    let d : KeyData = record { bytes = 7 ∷ []; len = 16 } in
    keyring_get_key some_world (8 ∷ []) with_vault
    ≡ ret (some (key_of (8 ∷ []) d)) (with_key (8 ∷ []) d with_vault)
vault_answered_example =
    vault_answered some_world (8 ∷ []) with_vault refl (find_key-nil (8 ∷ [])) (5 ∷ []) [] 65 16
      (7 ∷ []) 0 1 2 3 refl refl refl refl refl refl refl (omega arith) (omega arith)

names_differ : NamesDiffer some_world (109 ∷ []) key_file_1 (inr refl)
unfolding construct_key_name
names_differ i j hi hj ne e = ne (ap (λ (name : KeyName). get_or name 2 0) e)

generate-then-latest_example :
    (k : KeyInfo) × (s' : Keyring) × (keyring_generate_key some_world 10 (109 ∷ []) 16 key_file_1
      ≡ some (ret (some k) s'))
    × (k.key_data ≡ record { bytes = random_bytes 16; len = 16 })
    × (length k.key_data.bytes ≡ k.key_data.len)
    × (s'.key_file ≡ key_file_1.keys ++ (k ∷ []))
    × (keyring_get_latest_key some_world 10 (109 ∷ []) s' ≡ some (ret (some k) s'))
generate-then-latest_example =
    generate-then-latest some_world (109 ∷ []) key_file_1 refl names_differ 10 10 16
      (random_bytes 16) (omega arith) (omega arith) (omega arith) (omega arith) (omega arith)
      (omega arith) refl (omega arith) refl refl (λ i e. find_key-nil _)
