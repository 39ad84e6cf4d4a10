-- ===== src/Tuple/ReadBack.antt =====
-- A tuple that was added to a page is read back as it was.
use pg_tde.Base.{
  ℕ, ◌+◌, ◌-◌, ◌^◌, ◌≤◌, ◌<◌, ◌≡◌, ◌∙◌, sym, ap, subst, inl, ◌⊎◌, bit_xor, bit_xor-bit_xor, some,
  List, arith, u32, u64, Ptr, Mem,
}
use native.Mathlib.Nat.{add_assoc}
use pg_tde.Aes.{Platform, IsEcb}
use pg_tde.Aes.Keystream.{Serves, keystream}
use pg_tde.Crypt.{State, call, pg_tde_crypt}
use pg_tde.Crypt.Batches.{NoOverlap, InRange}
use pg_tde.Crypt.Stream.{IsCrypted, pg_tde_crypt-IsCrypted}
use pg_tde.Tuple.{
  Server, HeapTuple, blcksz, offset_in_file, pg_tde_crypt_tuple, page_add_item_extended,
}
use pg_tde.Tuple.Offset.{offset_in_file-lt}

-- `t_hoff` is a field of the 23 bytes of the fixed header.
abbrev pub ReadsHeader : Server → Type 0
ReadsHeader sv =
    (m m' : Mem) (a a' : Ptr)
    → ((i : ℕ) → i < 23 → m (a + i) ≡ m' (a' + i))
    → sv.t_hoff a m ≡ sv.t_hoff a' m'

-- What `PageAddItemExtended` does when it succeeds: the item lies at `pd_upper`, inside the page,
-- and its source is as it was.
pub record IsAdded (sv : Server) (page item : Ptr) (size : ℕ) (m m' : Mem) : Type 0 where
  pub fits : sv.pd_upper page m' + size ≤ blcksz
  pub copied : (i : ℕ) → i < size → m' (page + sv.pd_upper page m' + i) ≡ m (item + i)
  pub source : (i : ℕ) → i < size → m' (item + i) ≡ m (item + i)

position_fits :
    (offset size len : ℕ) → offset < 2 ^ 33 → size ≤ blcksz → len ≤ size → InRange offset len
position_fits offset size len h1 h2 h3 = record {
  blocks_fit = omega arith;
  counts_fit = omega arith;
}

module _ (pf : Platform) (is_ecb : IsEcb pf) (sv : Server) (reads : ReadsHeader sv) where
  -- `pg_tde_crypt_tuple` for a tuple at `upper` in its page, in terms of the stream.
  pub crypt_tuple_lem :
      (bn : ℕ) (page : Ptr) (upper size hoff : ℕ) (out : HeapTuple) (key : List ℕ) (s : State)
      → upper + size ≤ blcksz
      → hoff ≤ size
      → sv.t_hoff (page + upper) s.mem ≡ hoff
      → sv.t_hoff out.t_data s.mem ≡ hoff
      → NoOverlap (page + upper + hoff) (out.t_data + hoff) (size - hoff)
      → Serves s.ctx key
      → IsCrypted pf
          (call
            (offset_in_file bn upper)
            (page + upper + hoff)
            (size - hoff)
            (out.t_data + hoff)
            key)
          s.mem
          (pg_tde_crypt_tuple pf sv bn page
            (record { t_len = size; t_data = page + upper })
            out
            key
            s)
  unfolding pg_tde_crypt_tuple
  crypt_tuple_lem bn page upper size hoff out key s fits le e e' apart serves =
      let len : u32 (size + 2 ^ 32 - hoff) ≡ size - hoff = omega arith in
      let at : u64 (page + upper + 2 ^ 64 - page) ≡ upper = omega arith in
      rw (e, e', len, at)
        (pg_tde_crypt-IsCrypted pf is_ecb (offset_in_file bn upper) (page + upper + hoff)
          (size - hoff) (out.t_data + hoff) key s
          (position_fits _ size _ (offset_in_file-lt bn upper (omega arith)) (omega arith)
            (omega arith))
          apart serves)

  page_add_item_of :
      (bn : ℕ) (page item : Ptr) (size offset_number flags hoff : ℕ) (key : List ℕ) (s s1 : State)
      → let added = sv.page_add_item page item size offset_number flags s.mem in
        let upper = sv.pd_upper page added.1 in
        sv.t_hoff item added.1 ≡ hoff
        → u32 (size + 2 ^ 32 - hoff) ≡ size - hoff
        → pg_tde_crypt pf
            (offset_in_file bn upper)
            (item + hoff)
            (size - hoff)
            (page + upper + hoff)
            key
            (record s { mem = added.1 })
          ≡ some s1
        → page_add_item_extended pf sv bn page item size offset_number flags key s
          ≡ some (added.0, s1)
  unfolding page_add_item_extended
  page_add_item_of bn page item size offset_number flags hoff key s s1 header len ret =
      rw (page_add_item_extended, header, len, ret)

  -- Adding an item that the server accepts succeeds: its header is on the page in clear, and its
  -- data encrypted for the place.
  pub page_add_item_extended-IsCrypted :
      (bn : ℕ) (page item : Ptr) (size offset_number flags : ℕ) (key : List ℕ) (s : State)
      → let added = sv.page_add_item page item size offset_number flags s.mem in
        let upper = sv.pd_upper page added.1 in
        let hoff = sv.t_hoff item s.mem in
        IsAdded sv page item size s.mem added.1
        → (item + size ≤ page) ⊎ (page + blcksz ≤ item)
        → 23 ≤ hoff
        → hoff ≤ size
        → Serves s.ctx key
        → (s1 : State) × (page_add_item_extended pf sv bn page item size offset_number flags key s
            ≡ some (added.0, s1))
          × Serves s1.ctx key
          × (sv.t_hoff (page + upper) s1.mem ≡ hoff)
          × ((i : ℕ) → i < hoff → s1.mem (page + upper + i) ≡ s.mem (item + i))
          × ((i : ℕ)
              → i < size - hoff
              → s1.mem (page + upper + hoff + i)
                ≡ bit_xor
                    (s.mem (item + hoff + i))
                    (keystream pf key (offset_in_file bn upper + i)))
  page_add_item_extended-IsCrypted bn page item size offset_number flags key s is apart lo hi
        serves =
      let added = sv.page_add_item page item size offset_number flags s.mem in
      let upper = sv.pd_upper page added.1 in
      let hoff = sv.t_hoff item s.mem in
      let fits = is.fits in
      let len : u32 (size + 2 ^ 32 - hoff) ≡ size - hoff = omega arith in
      let header : sv.t_hoff item added.1 ≡ hoff =
        reads added.1 s.mem item item (λ i h. is.source i (omega arith)) in
      let enc =
        pg_tde_crypt-IsCrypted pf is_ecb (offset_in_file bn upper) (item + hoff) (size - hoff)
          (page + upper + hoff) key (record s { mem = added.1 })
          (position_fits _ size _ (offset_in_file-lt bn upper (omega arith)) (omega arith)
            (omega arith))
          (ground arith) serves in
      let clear : (i : ℕ) → i < hoff → enc.state.mem (page + upper + i) ≡ s.mem (item + i) =
        λ i h. enc.bytes.kept (page + upper + i) (inl (omega arith)) ∙ is.copied i (omega arith) in
      (
        enc.state,
        page_add_item_of bn page item size offset_number flags hoff key s enc.state header len
            enc.returns,
        enc.serves,
        reads enc.state.mem s.mem (page + upper) item (λ i h. clear i (omega arith)),
        clear,
        λ i h.
            enc.bytes.written i h
            ∙ ap (λ (b : ℕ). bit_xor b (keystream pf key (offset_in_file bn upper + i)))
                (ap added.1 (add_assoc item hoff i)
                  ∙ is.source (hoff + i) (omega arith)
                  ∙ ap s.mem (sym (add_assoc item hoff i))),
      )

  -- Reading a tuple back with the key it was added with: where the server accepts the item, the
  -- data that is read is the item's, wherever a reader with the same header size puts it (in place,
  -- or away from the tuple).
  pub add-then-crypt_tuple :
      (bn : ℕ) (page item : Ptr) (size offset_number flags off : ℕ) (out : HeapTuple) (key : List ℕ)
      (s s1 : State)
      → let added = sv.page_add_item page item size offset_number flags s.mem in
        let upper = sv.pd_upper page added.1 in
        let hoff = sv.t_hoff item s.mem in
        IsAdded sv page item size s.mem added.1
        → (item + size ≤ page) ⊎ (page + blcksz ≤ item)
        → 23 ≤ hoff
        → hoff ≤ size
        → Serves s.ctx key
        → page_add_item_extended pf sv bn page item size offset_number flags key s ≡ some (off, s1)
        → sv.t_hoff out.t_data s1.mem ≡ hoff
        → NoOverlap (page + upper + hoff) (out.t_data + hoff) (size - hoff)
        → (s2 : State) × (pg_tde_crypt_tuple pf sv bn page
              (record { t_len = size; t_data = page + upper })
              out
              key
              s1
            ≡ some s2)
          × ((i : ℕ) → i < size - hoff → s2.mem (out.t_data + hoff + i) ≡ s.mem (item + hoff + i))
  add-then-crypt_tuple bn page item size offset_number flags off out key s s1 is apart lo hi serves
        ret out_hoff clear =
      let added = sv.page_add_item page item size offset_number flags s.mem in
      let upper = sv.pd_upper page added.1 in
      let hoff = sv.t_hoff item s.mem in
      let enc =
        page_add_item_extended-IsCrypted bn page item size offset_number flags key s is apart lo hi
          serves in
      let same : enc.0 ≡ s1 = cc (enc.1) in
      let dec =
        crypt_tuple_lem bn page upper size hoff out key s1 is.fits hi
          (subst (λ (t : State). sv.t_hoff (page + upper) t.mem ≡ hoff) same enc.3) out_hoff clear
          (subst (λ (t : State). Serves t.ctx key) same enc.2) in
      (
        dec.state,
        dec.returns,
        λ i h.
            dec.bytes.written i h
            ∙ ap (λ (b : ℕ). bit_xor b (keystream pf key (offset_in_file bn upper + i)))
                (ap (λ (t : State). t.mem (page + upper + hoff + i)) (sym same) ∙ enc.5 i h)
            ∙ bit_xor-bit_xor (s.mem (item + hoff + i)) _,
      )
