-- ===== src/KeyFork/Redo.antt =====
-- The WAL record of a key fork's creation, and its replay.
use pg_tde.Base.{
  arith, ℕ, zero, suc, ◌+◌, ◌*◌, ◌/◌, ◌%◌, ◌^◌, ◌<◌, ◌≡◌, refl, ap, ◌∙◌, List, some, [], ◌∷◌, ◌++◌,
  length, take, drop, ltb, false, length-append,
}
use pg_tde.Keyring.{World}
use pg_tde.KeyFork.{
  Disk, Backend, RelFileLocator, InternalKey, XlogRecord, le_bytes, le_value, locator_bytes,
  internal_key_bytes, read_locator, read_internal_key, pg_tde_write_key_fork,
  pg_tde_create_key_fork, create_with, pg_tde_xlog_create_fork, pg_tde_rmgr_redo,
}

le_value-le_bytes : (n x : ℕ) → x < 256 ^ n → le_value (le_bytes n x) ≡ x
le_value-le_bytes zero x small = omega arith
le_value-le_bytes (suc n) x small =
    let rest = le_value-le_bytes n (x / 256) (omega arith) in
    ap (λ v. x % 256 + 256 * v) rest ∙ omega arith

take-length-append : (n : ℕ) (xs ys : List ℕ) → length xs ≡ n → take n (xs ++ ys) ≡ xs
take-length-append zero [] ys e = refl
take-length-append zero (x ∷ xs) ys e = absurd (omega arith)
take-length-append (suc n) [] ys e = absurd (omega arith)
take-length-append (suc n) (x ∷ xs) ys e =
    ap (λ l. x ∷ l) (take-length-append n xs ys (omega arith))

drop-length-append :
    (n k : ℕ) (xs ys : List ℕ) → length xs ≡ n → drop (n + k) (xs ++ ys) ≡ drop k ys
drop-length-append zero k [] ys e = ap (λ j. drop j ys) (omega arith)
drop-length-append zero k (x ∷ xs) ys e = absurd (omega arith)
drop-length-append (suc n) k [] ys e = absurd (omega arith)
drop-length-append (suc n) k (x ∷ xs) ys e =
    let at : suc n + k ≡ suc (n + k) = omega arith in
    ap (λ j. drop j (x ∷ (xs ++ ys))) at ∙ drop-length-append n k xs ys (omega arith)

read_locator-bytes :
    (rel : RelFileLocator) (rest : List ℕ)
    → rel.spc_oid < 2 ^ 32
    → rel.db_oid < 2 ^ 32
    → rel.rel_number < 2 ^ 32
    → read_locator (locator_bytes rel ++ rest) ≡ rel
read_locator-bytes rel rest a b c =
    let spc = le_value-le_bytes 4 rel.spc_oid (omega arith) in
    let db = le_value-le_bytes 4 rel.db_oid (omega arith) in
    let number = le_value-le_bytes 4 rel.rel_number (omega arith) in cc (spc, db, number)

read_internal_key-bytes :
    (k : InternalKey)
    → length k.key ≡ 16
    → k.start_loc < 2 ^ 64
    → k.end_loc < 2 ^ 64
    → read_internal_key (internal_key_bytes k) ≡ k
read_internal_key-bytes k size a b =
    let rest = le_bytes 8 k.start_loc ++ (le_bytes 8 k.end_loc ++ le_bytes 8 0) in
    let key = take-length-append 16 k.key rest size in
    let start =
      ap (λ l. le_value (take 8 l)) (drop-length-append 16 0 k.key rest size)
      ∙ le_value-le_bytes 8 k.start_loc (omega arith) in
    let end_ =
      ap (λ l. le_value (take 8 l)) (drop-length-append 16 8 k.key rest size)
      ∙ le_value-le_bytes 8 k.end_loc (omega arith) in
    cc (key, start, end_)

-- The data of the record is long enough.
record_enough :
    (rel : RelFileLocator) (k : InternalKey)
    → length k.key ≡ 16
    → ltb (length (locator_bytes rel ++ internal_key_bytes k)) 52 ≡ false
record_enough rel k size =
    let n =
      length-append k.key (le_bytes 8 k.start_loc ++ (le_bytes 8 k.end_loc ++ le_bytes 8 0)) in
    ground (arith, n)

module _ (w : World) (disk : Disk) (rel : RelFileLocator) (bytes : List ℕ) where
  -- The key of the file.
  abbrev pub fresh_key : InternalKey
  fresh_key = record { key = bytes; start_loc = 0; end_loc = 0 }

  -- When 16 random bytes are at hand, creation logs one record and then goes on to write the key file, with those
  -- bytes for the key; and replaying the record, whose locator and key are read from its bytes, on any backend goes on to write
  -- the file of the same relation with the same key. The numbers of the relation have 32 bits.
  pub create-then-redo :
      (b : Backend)
      → rel.spc_oid < 2 ^ 32
      → rel.db_oid < 2 ^ 32
      → rel.rel_number < 2 ^ 32
      → length bytes ≡ 16
      → disk.rand_key ≡ some bytes
      → (logged : XlogRecord) × (pg_tde_create_key_fork w disk rel b
          ≡ pg_tde_write_key_fork w disk rel fresh_key
              (record b { xlog = b.xlog ++ (logged ∷ []) }))
        × ((standby : Backend)
            → pg_tde_rmgr_redo w disk logged standby
              ≡ pg_tde_write_key_fork w disk rel fresh_key standby)
  unfolding create_with pg_tde_create_key_fork pg_tde_rmgr_redo pg_tde_xlog_create_fork
  create-then-redo b spc db number size random =
      let logged : XlogRecord = record {
        info = 0;
        bytes = locator_bytes rel ++ internal_key_bytes fresh_key;
      } in
      let enough = record_enough rel fresh_key size in
      let at = read_locator-bytes rel (internal_key_bytes fresh_key) spc db number in
      let same = read_internal_key-bytes fresh_key size (omega arith) (omega arith) in
      (
        logged,
        ap (λ r. create_with w disk r rel b) random,
        λ standby. rw (enough) (
            ap
              (λ l.
                pg_tde_write_key_fork w disk l (read_internal_key (drop 12 logged.bytes)) standby)
              at
            ∙ ap (λ k. pg_tde_write_key_fork w disk rel k standby) same),
      )
