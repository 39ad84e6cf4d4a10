-- ===== src/Tests/Encryption.antt =====
-- Encryption of byte ranges, src/encryption, with a block cipher that leaves its input as it is.
use pg_tde.Base.{
  ℕ, ◌+◌, ◌-◌, ◌*◌, ◌%◌, ◌<◌, ◌≡◌, refl, inl, inr, some, none, List, [], ◌∷◌, arith, get_or,
}
use pg_tde.Aes.{Platform, IsEcb, aes128_encrypted_zero_blocks}
use pg_tde.Aes.Keystream.{Serves, keystream, zero_blocks-keystream}
use pg_tde.Crypt.{State, call, pg_tde_crypt, pg_tde_move_encrypted_data}
use pg_tde.Crypt.Batches.{InRange}
use pg_tde.Crypt.Stream.{IsCrypted, pg_tde_crypt-IsCrypted}
use pg_tde.Crypt.Laws.{pg_tde_crypt-twice}
use pg_tde.Crypt.Move.{IsMoved, pg_tde_move_encrypted_data-IsMoved}

abbrev pub plain_platform : Platform
plain_platform = record { ecb = λ key input. input; wide_shift = λ x n. 0 }

pub plain_platform-IsEcb : IsEcb plain_platform
plain_platform-IsEcb = record { by_blocks = λ key b rest e. refl; block_length = λ key b e. e }

abbrev pub some_key : List ℕ
some_key = 1 ∷ 2 ∷ 3 ∷ []

abbrev pub some_state : State
some_state = record { ctx = none; mem = λ a. a % 256 }

-- 40 bytes from offset 5 on, in place, and 20 bytes to another range.
span_5 : InRange 5 40
span_5 = record { blocks_fit = omega arith; counts_fit = omega arith }

span_8200 : InRange 8200 40
span_8200 = record { blocks_fit = omega arith; counts_fit = omega arith }

pg_tde_crypt-IsCrypted_example :
    IsCrypted plain_platform
      (call 5 1000 40 1000 some_key)
      some_state.mem
      (pg_tde_crypt plain_platform 5 1000 40 1000 some_key some_state)
pg_tde_crypt-IsCrypted_example =
    pg_tde_crypt-IsCrypted plain_platform plain_platform-IsEcb 5 1000 40 1000 some_key some_state
      span_5 (inl refl) (inl refl)

pg_tde_crypt-twice_example :
    (s1 s2 : State) × (pg_tde_crypt plain_platform 5 1000 40 2000 some_key some_state ≡ some s1)
    × (pg_tde_crypt plain_platform 5 2000 40 2000 some_key s1 ≡ some s2)
    × ((i : ℕ) → i < 40 → s2.mem (2000 + i) ≡ some_state.mem (1000 + i))
pg_tde_crypt-twice_example =
    pg_tde_crypt-twice plain_platform plain_platform-IsEcb 5 1000 40 2000 2000 some_key some_state
      span_5 (inr (inr (omega arith))) (inl refl) (inl refl)

pg_tde_move_encrypted_data-IsMoved_example :
    (s' : State) × (pg_tde_move_encrypted_data plain_platform 5 1000 8200 2000 40 some_key 5000
        some_state
      ≡ some s')
    × Serves s'.ctx some_key
    × IsMoved plain_platform plain_platform-IsEcb some_key 5 8200 1000 2000 5000 40 some_state.mem
        40 s'.mem
pg_tde_move_encrypted_data-IsMoved_example =
    pg_tde_move_encrypted_data-IsMoved plain_platform plain_platform-IsEcb some_key 5 8200 1000 2000
      5000 40 some_state.mem span_5 span_8200 (inr (inr (omega arith))) (inr (omega arith))
      (inr (omega arith)) some_state refl (inl refl)

abbrev block_7 : ℕ
block_7 = 7

zero_blocks-keystream_example :
    (enc : List ℕ) × (aes128_encrypted_zero_blocks plain_platform none some_key 3 6
      ≡ some (some some_key, enc))
    × ((i : ℕ) → i < 16 * (6 - 3) → get_or enc i 0 ≡ keystream plain_platform some_key (16 * 3 + i))
zero_blocks-keystream_example =
    zero_blocks-keystream plain_platform plain_platform-IsEcb none some_key 3 6 (inl refl)
      (omega arith) (omega arith) (omega arith)
