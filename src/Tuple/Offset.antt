-- ===== src/Tuple/Offset.antt =====
-- The file positions that tuples are encrypted for.
use pg_tde.Base.{ℕ, ◌+◌, ◌^◌, ◌≤◌, ◌<◌, ◌≡◌, arith}
use pg_tde.Tuple.{blcksz, offset_in_file}

-- In the first 4 GiB of a relation the position is the true one, so no two places share it.
pub offset_in_file-injective :
    (bn bn' p p' : ℕ)
    → bn < 524288
    → bn' < 524288
    → p < blcksz
    → p' < blcksz
    → offset_in_file bn p ≡ offset_in_file bn' p'
    → (bn ≡ bn') × (p ≡ p')
unfolding offset_in_file
offset_in_file-injective bn bn' p p' h1 h2 h3 h4 e = omega arith

-- The product of block number and block size is cut to 32 bits: 4 GiB further on in the relation
-- the same position, and with it the same keystream, comes again.
pub offset_in_file-repeats :
    (bn p : ℕ) → bn + 524288 < 2 ^ 32 → offset_in_file (bn + 524288) p ≡ offset_in_file bn p
unfolding offset_in_file
offset_in_file-repeats bn p h = omega arith

pub offset_in_file-lt : (bn p : ℕ) → p ≤ blcksz → offset_in_file bn p < 2 ^ 33
unfolding offset_in_file
offset_in_file-lt bn p h = omega arith
