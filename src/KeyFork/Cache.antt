-- ===== src/KeyFork/Cache.antt =====
-- The cache of relation keys in a backend.
use pg_tde.Base.{◌≡◌, ◌≢◌, sym, subst, inl, inr, true, false, arith, ◌==◌, Option-cases}
use pg_tde.Keyring.{World}
use pg_tde.KeyFork.{
  Disk, Backend, Result, ok, failed, fault, RelFileLocator, RelKeysData, put_keys_into_map,
  find_rel, remember, get_relation_keys, pg_tde_get_keys_from_fork,
}

module _ (w : World) (disk : Disk) where
  -- Whatever the backend had cached, it finds the keys that were put last without reading a file.
  pub get_relation_keys-put :
      (rel : RelFileLocator) (keys : RelKeysData) (b : Backend)
      → let b' = put_keys_into_map rel.rel_number keys b in
        get_relation_keys w disk rel b' ≡ ok keys b'
  unfolding get_relation_keys put_keys_into_map
  get_relation_keys-put rel keys b =
      let test : (rel.rel_number == rel.rel_number) ≡ true = ground arith in
      rw (get_relation_keys, test)

  -- A result that the backend remembers: the next call finds the keys and changes nothing.
  abbrev Caches : RelFileLocator → Result RelKeysData → Type 0
  Caches rel (ok keys b) = get_relation_keys w disk rel b ≡ ok keys b
  Caches rel (failed b) = Unit
  Caches rel fault = Unit

  remember-Caches :
      (rel : RelFileLocator) (r : Result RelKeysData)
      → Caches rel (remember w disk rel.rel_number r)
  remember-Caches rel (ok keys b) = get_relation_keys-put rel keys b
  remember-Caches rel (failed b) = tt
  remember-Caches rel fault = tt

  get_relation_keys-Caches :
      (rel : RelFileLocator) (b : Backend) → Caches rel (get_relation_keys w disk rel b)
  unfolding get_relation_keys
  get_relation_keys-Caches rel b =
      elim (Option-cases (find_rel w disk rel.rel_number b.rel_keys_map)) [
        | inl e ↦
            subst (Caches rel) (sym (rw (get_relation_keys, e)))
              (remember-Caches rel (pg_tde_get_keys_from_fork w disk rel b))
        | inr (keys, e) ↦
            let h : get_relation_keys w disk rel b ≡ ok keys b = rw (get_relation_keys, e) in
            subst (Caches rel) (sym h) h
      ]

  -- A read that succeeds is remembered: the same call again gives the same keys, reads no file and
  -- changes nothing.
  pub get_relation_keys-again :
      (rel : RelFileLocator) (keys : RelKeysData) (b b' : Backend)
      → get_relation_keys w disk rel b ≡ ok keys b'
      → get_relation_keys w disk rel b' ≡ ok keys b'
  get_relation_keys-again rel keys b b' e = subst (Caches rel) e (get_relation_keys-Caches rel b)

  -- Putting the keys of a relation forgets those of every other: the next use of another relation
  -- reads its file again.
  pub get_relation_keys-other :
      (rel other : RelFileLocator) (keys : RelKeysData) (b : Backend)
      → rel.rel_number ≢ other.rel_number
      → let b' = put_keys_into_map rel.rel_number keys b in
        get_relation_keys w disk other b'
        ≡ remember w disk other.rel_number (pg_tde_get_keys_from_fork w disk other b')
  unfolding get_relation_keys put_keys_into_map
  get_relation_keys-other rel other keys b ne =
      let test : (rel.rel_number == other.rel_number) ≡ false = ground arith in
      rw (get_relation_keys, test)
